-- ===== src/Identity/Rotation.antt =====
-- What a rotation that succeeds has done to the identity.
use gamenet.Base.{
  ℕ, ◌≡◌, refl, sym, ap, ◌∙◌, ◌≢◌, true, not, not-eq-true, Option, none, some, List, ◌++◌, holds,
  holds_of, holds_of_not, holds-eq-true, holds-eq-false, ok,
}
use gamenet.Errors.{pending_equals_current, identity_changed, pending_changed, no_file_name}
use gamenet.Protocol.{TunnelToken}
use gamenet.Identity.{
  FilePath, dec_path, dec_bytes, file, FileSystem, update, rename, sync, Faults, M, ◌>>◌, pure,
  attempt, symlink_metadata, read_existing, load_node, pending_suffix, pending_path, with_pending,
  PendingRotation, prepare_rotation_at, install, finish_rotation,
}
use gamenet.Identity.Files.{content, pending_differs}
use gamenet.Identity.Success.{
  bind-eq-ok, outcome-eq, no_outcome, attempt-eq-ok, after_attempt, after_ensure,
  read_existing-eq-ok,
}

pub pending_path-eq-ok :
    (p q : FilePath) (fs fs' : FileSystem) → pending_path p fs ≡ (fs', ok q) → q ≢ p
unfolding pending_path
pending_path-eq-ok p q fs fs' h = go p.file_name refl h
  where
    go : (o : Option (List ℕ)) → p.file_name ≡ o → with_pending p o fs ≡ (fs', ok q) → q ≢ p
    go none e k = absurd (no_outcome fs fs' no_file_name q k)
    go (some name) e k =
        let longer : FilePath = record p { file_name = some (name ++ pending_suffix) } in
        let (_, same) = outcome-eq fs fs' longer q k in λ z. pending_differs p name e (sym same ∙ z)

-- A file that has been read.
pub content-read :
    (faults : Faults) (p : FilePath) (fs fs' : FileSystem) (t : TunnelToken)
    → read_existing faults p fs ≡ (fs', ok t)
    → (content (fs p) ≡ some t) × (fs' ≡ update fs p (some (file t true)))
content-read faults p fs fs' t h =
    let (_, e, after, _) = read_existing-eq-ok faults p fs fs' t h in (ap content e, after)

-- What a prepared rotation says.
pub prepare_rotation_at-eq-ok :
    (faults : Faults) (p : FilePath) (candidate : TunnelToken) (fs fs' : FileSystem)
    (r : PendingRotation)
    → prepare_rotation_at faults p candidate fs ≡ (fs', ok r)
    → (r.path ≡ p)
      × (r.pending ≢ p)
      × (content (fs p) ≡ some r.old_token)
      × (r.old_token ≢ r.new_token)
unfolding prepare_rotation_at
prepare_rotation_at-eq-ok faults p candidate fs fs' r h =
    let (fs₁, old, e₁, h₁) = bind-eq-ok (read_existing faults p) _ fs fs' r h in
    let (fs₂, q, e₂, h₂) = bind-eq-ok (pending_path p) _ fs₁ fs' r h₁ in
    let (fs₃, node, e₃, h₃) = bind-eq-ok (symlink_metadata faults q) _ fs₂ fs' r h₂ in
    let (fs₄, new, e₄, h₄) = bind-eq-ok (load_node faults q candidate node) _ fs₃ fs' r h₃ in
    let made : PendingRotation = record {
      path = p;
      pending = q;
      old_token = old;
      new_token = new;
    } in
    let (differ, h₅) =
      after_ensure (not (holds (dec_bytes old new))) pending_equals_current (pure made) fs₄ fs' r
        h₄ in
    let (_, same) = outcome-eq fs₄ fs' made r h₅ in
    rw same (
      refl,
      pending_path-eq-ok p q fs₁ fs₂ e₂,
      (content-read faults p fs fs₁ old e₁).0,
      holds-eq-false (dec_bytes old new) (not-eq-true differ),
    )

pub install-eq-ok :
    (faults : Faults) (from to : FilePath) (fs fs' : FileSystem) (u : Unit {0})
    → from ≢ to
    → install faults from to fs ≡ (fs', ok u)
    → (fs' to ≡ fs from) × (fs' from ≡ none)
install-eq-ok faults from to fs fs' u n h =
    let moved = update (update fs to (fs from)) from none in
    let move : M (Unit {0}) = λ s. (update (update s to (s from)) from none, ok tt) in
    let (fs₁, v, e, k) =
      bind-eq-ok move (λ _. attempt faults sync) fs fs' u
        (after_attempt faults rename (move >> attempt faults sync) fs fs' u h) in
    let (made, _) = outcome-eq moved fs₁ tt v e in
    let last = attempt-eq-ok faults sync fs₁ fs' u k in
    rw (last, made)
      (
        rw (holds_of_not (dec_path from to) n, holds_of (dec_path to to) refl),
        rw (holds_of (dec_path from from) refl),
      )

-- A rotation whose pending file is not the identity's, and that is finished, has found the old
-- identity, has put the new one in its place, and has left no pending file.
pub finish_rotation-eq-ok :
    (faults : Faults) (r : PendingRotation) (fs fs' : FileSystem) (u : Unit {0})
    → r.pending ≢ r.path
    → finish_rotation faults r fs ≡ (fs', ok u)
    → (content (fs r.path) ≡ some r.old_token)
      × (content (fs' r.path) ≡ some r.new_token)
      × (fs' r.pending ≡ none)
unfolding finish_rotation
finish_rotation-eq-ok faults r fs fs' u n h =
    let (fs₁, current, e₁, h₁) = bind-eq-ok (read_existing faults r.path) _ fs fs' u h in
    let (old, h₂) =
      after_ensure (holds (dec_bytes current r.old_token)) identity_changed _ fs₁ fs' u h₁ in
    let (fs₂, new, e₂, h₃) = bind-eq-ok (read_existing faults r.pending) _ fs₁ fs' u h₂ in
    let (same, h₄) =
      after_ensure (holds (dec_bytes new r.new_token)) pending_changed _ fs₂ fs' u h₃ in
    let (there, gone) = install-eq-ok faults r.pending r.path fs₂ fs' u n h₄ in
    let (before, _) = content-read faults r.path fs fs₁ current e₁ in
    let (_, after) = content-read faults r.pending fs₁ fs₂ new e₂ in
    let kept : fs₂ r.pending ≡ some (file new true) =
      ap (λ (s : FileSystem). s r.pending) after
      ∙ rw (holds_of (dec_path r.pending r.pending) refl) refl in
    (
      before ∙ ap some (holds-eq-true (dec_bytes current r.old_token) old),
      ap content (there ∙ kept) ∙ ap some (holds-eq-true (dec_bytes new r.new_token) same),
      gone,
    )
