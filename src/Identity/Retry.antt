-- ===== src/Identity/Retry.antt =====
-- A rotation that is tried again is the same rotation.
use gamenet.Base.{
  ℕ, ◌≡◌, refl, sym, ap, subst, ◌∙◌, not, Option, none, some, List, ◌++◌, holds, ok, Result, arith,
}
use gamenet.Errors.{Error, pending_equals_current, no_file_name}
use gamenet.Protocol.{TunnelToken}
use gamenet.Identity.{
  FilePath, dec_bytes, Node, FileSystem, Faults, pure, symlink_metadata, read_existing, load_node,
  pending_suffix, pending_path, with_pending, PendingRotation, prepare_rotation_at,
}
use gamenet.Identity.Files.{content, Keeps-read_existing, prepare_rotation_at-Keeps}
use gamenet.Identity.Success.{
  bind-eq-ok, outcome-eq, no_outcome, after_ensure, symlink_metadata-eq-ok,
}
use gamenet.Identity.Rotation.{content-read}
use gamenet.Identity.Stable.{loaded_node}

-- The pending path is that of the identity's path, whatever the files are.
pending_path-same :
    (p q q' : FilePath) (fs fs' gs gs' : FileSystem)
    → pending_path p fs ≡ (fs', ok q)
    → pending_path p gs ≡ (gs', ok q')
    → (q' ≡ q) × (fs' ≡ fs) × (gs' ≡ gs)
unfolding pending_path
pending_path-same p q q' fs fs' gs gs' h h' = go p.file_name h h'
  where
    go :
        (o : Option (List ℕ))
        → with_pending p o fs ≡ (fs', ok q)
        → with_pending p o gs ≡ (gs', ok q')
        → (q' ≡ q) × (fs' ≡ fs) × (gs' ≡ gs)
    go none k k' = absurd (no_outcome fs fs' no_file_name q k)
    go (some name) k k' =
        let longer : FilePath = record p { file_name = some (name ++ pending_suffix) } in
        let (last, same) = outcome-eq fs fs' longer q k in
        let (last', same') = outcome-eq gs gs' longer q' k' in (same' ∙ sym same, last, last')

-- When the pending file is there, its token is the new one.
load_node-there :
    (faults : Faults) (q : FilePath) (candidate t t' : TunnelToken) (node : Option Node)
    (fs fs' : FileSystem)
    → fs q ≡ node
    → content node ≡ some t
    → load_node faults q candidate node fs ≡ (fs', ok t')
    → t' ≡ t
load_node-there faults q candidate t t' none fs fs' e c h = absurd (ground arith)
load_node-there faults q candidate t t' (some x) fs fs' e c h =
    let (before, _) = content-read faults q fs fs' t' h in
    let same : some t ≡ some t' = sym c ∙ sym (ap content e) ∙ before in ground (arith, same)

-- The parts of a rotation that has been prepared.
record IsPrepared (faults : Faults) (p : FilePath) (candidate : TunnelToken) (fs fs' : FileSystem)
    (r : PendingRotation) : Type 0 where
  between : FileSystem
  pending : FilePath
  read : read_existing faults p fs ≡ (between, ok r.old_token)
  named : pending_path p between ≡ (between, ok pending)
  loaded : load_node faults pending candidate (between pending) between ≡ (fs', ok r.new_token)
  made :
      r ≡ record { path = p; pending = pending; old_token = r.old_token; new_token = r.new_token }

prepared :
    (faults : Faults) (p q : FilePath) (candidate old new : TunnelToken) (node : Option Node)
    (fs fs₁ fs₂ fs₃ fs₄ : FileSystem)
    → read_existing faults p fs ≡ (fs₁, ok old)
    → pending_path p fs₁ ≡ (fs₂, ok q)
    → symlink_metadata faults q fs₂ ≡ (fs₃, ok node)
    → load_node faults q candidate node fs₃ ≡ (fs₄, ok new)
    → IsPrepared faults p candidate fs fs₄
        (record { path = p; pending = q; old_token = old; new_token = new })
prepared faults p q candidate old new node fs fs₁ fs₂ fs₃ fs₄ e₁ e₂ e₃ e₄ =
    let (_, stays, _) = pending_path-same p q q fs₁ fs₂ fs₁ fs₂ e₂ e₂ in
    let (stays', here) = symlink_metadata-eq-ok faults q fs₂ fs₃ node e₃ in
    let same : fs₃ ≡ fs₁ = stays' ∙ stays in
    let found : node ≡ fs₁ q = here ∙ ap (λ (s : FileSystem). s q) stays in
    record {
      between = fs₁;
      pending = q;
      read = e₁;
      named = e₂ ∙ ap (λ s. (s, ok q)) stays;
      loaded =
          subst (λ n. load_node faults q candidate n fs₁ ≡ (fs₄, ok new)) found
            (subst (λ s. load_node faults q candidate node s ≡ (fs₄, ok new)) same e₄);
      made = refl;
    }

prepare_rotation_at-IsPrepared :
    (faults : Faults) (p : FilePath) (candidate : TunnelToken) (fs fs' : FileSystem)
    (r : PendingRotation)
    → prepare_rotation_at faults p candidate fs ≡ (fs', ok r)
    → IsPrepared faults p candidate fs fs' r
unfolding prepare_rotation_at
prepare_rotation_at-IsPrepared faults p candidate fs fs' r h =
    let (fs₁, old, e₁, h₁) = bind-eq-ok (read_existing faults p) _ fs fs' r h in
    let (fs₂, q, e₂, h₂) = bind-eq-ok (pending_path p) _ fs₁ fs' r h₁ in
    let (fs₃, node, e₃, h₃) = bind-eq-ok (symlink_metadata faults q) _ fs₂ fs' r h₂ in
    let (fs₄, new, e₄, h₄) = bind-eq-ok (load_node faults q candidate node) _ fs₃ fs' r h₃ in
    let result : PendingRotation = record {
      path = p;
      pending = q;
      old_token = old;
      new_token = new;
    } in
    let (_, h₅) =
      after_ensure (not (holds (dec_bytes old new))) pending_equals_current (pure result) fs₄ fs' r
        h₄ in
    let (last, same) = outcome-eq fs₄ fs' result r h₅ in
    let done = prepared faults p q candidate old new node fs fs₁ fs₂ fs₃ fs₄ e₁ e₂ e₃ e₄ in
    subst (λ x. IsPrepared faults p candidate fs fs' x) (sym same)
      (subst (λ s. IsPrepared faults p candidate fs s result) (sym last) done)

-- A rotation that is prepared again, because the answer to it was lost or the relay refused it for now,
-- replaces the same identity by the same new one, whatever its random bytes are.
pub prepare_rotation_at-again :
    (faults faults' : Faults) (p : FilePath) (candidate candidate' : TunnelToken)
    (fs fs' fs'' : FileSystem) (r r' : PendingRotation)
    → prepare_rotation_at faults p candidate fs ≡ (fs', ok r)
    → prepare_rotation_at faults' p candidate' fs' ≡ (fs'', ok r')
    → r' ≡ r
prepare_rotation_at-again faults faults' p candidate candidate' fs fs' fs'' r r' h h' =
    let a = prepare_rotation_at-IsPrepared faults p candidate fs fs' r h in
    let b = prepare_rotation_at-IsPrepared faults' p candidate' fs' fs'' r' h' in
    let (same_pending, _, _) =
      pending_path-same p a.pending b.pending a.between a.between b.between b.between a.named
        b.named in
    let (old, _) = content-read faults p fs a.between r.old_token a.read in
    let (old', _) = content-read faults' p fs' b.between r'.old_token b.read in
    let stays =
      ap (λ (o : FileSystem × Result Error PendingRotation). content (o.0 p)) (sym h)
      ∙ prepare_rotation_at-Keeps faults p candidate fs in
    let same_old : r'.old_token ≡ r.old_token = ground (arith, sym old' ∙ stays ∙ old) in
    let there =
      loaded_node faults a.pending candidate (a.between a.pending) a.between fs' r.new_token
        a.loaded in
    let kept : content (b.between a.pending) ≡ some r.new_token =
      ap (λ (o : FileSystem × Result Error TunnelToken). content (o.0 a.pending)) (sym b.read)
      ∙ Keeps-read_existing a.pending faults' p fs'
      ∙ ap content there in
    let same_new : r'.new_token ≡ r.new_token =
      load_node-there faults' b.pending candidate' r.new_token r'.new_token (b.between b.pending)
        b.between fs'' refl (ap (λ q. content (b.between q)) same_pending ∙ kept) b.loaded in
    b.made
    ∙ ap (λ q. record { path = p; pending = q; old_token = r'.old_token; new_token = r'.new_token })
        same_pending
    ∙ ap (λ t. record { path = p; pending = a.pending; old_token = t; new_token = r'.new_token })
        same_old
    ∙ ap (λ t. record { path = p; pending = a.pending; old_token = r.old_token; new_token = t })
        same_new
    ∙ sym a.made
