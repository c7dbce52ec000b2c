-- ===== src/Identity/Recovery.antt =====
-- What a recovery that succeeds has done to the identity, and a key that is stored to its file.
use gamenet.Base.{
  ℕ, ◌≡◌, refl, ap, ◌∙◌, ◌≢◌, Bool, true, false, not, none, some, List, ◌++◌, holds, holds_of,
  holds_of_not, holds-eq-true, ok,
}
use gamenet.Errors.{pending_equals_current, identity_changed, pending_changed}
use gamenet.Protocol.{TunnelToken}
use gamenet.Identity.{
  FilePath, dec_path, dec_bytes, file, FileSystem, update, rename, sync, temporary, persist, Faults,
  M, ◌>>◌, pure, ensure, attempt, write, read_existing, load_or_create_at, create_new_private,
  current_token, same_token, pending_suffix, pending_path, install, PendingRecovery,
  prepare_recovery_at, finish_recovery, replace, replace_unless, store_existing, store_recovery_at,
}
use gamenet.Identity.Files.{
  content, Keeps, Keeps-bind, Keeps-attempt, Keeps-ensure, Keeps-read_existing, Keeps-current_token,
}
use gamenet.Identity.Success.{bind-eq-ok, outcome-eq, attempt-eq-ok, after_attempt, after_ensure}
use gamenet.Identity.Rotation.{pending_path-eq-ok, content-read, install-eq-ok}
use gamenet.Identity.Stable.{created, kept}

-- The pending file of a path with a name.
pub pending_path-named :
    (p q : FilePath) (name : List ℕ) (fs fs' : FileSystem)
    → p.file_name ≡ some name
    → pending_path p fs ≡ (fs', ok q)
    → q ≡ record p { file_name = some (name ++ pending_suffix) }
unfolding pending_path
pending_path-named p q name fs fs' e h =
    (outcome-eq fs fs' (record p { file_name = some (name ++ pending_suffix) }) q (rw e at h)).1

-- What a prepared recovery says.
pub prepare_recovery_at-eq-ok :
    (faults : Faults) (p : FilePath) (candidate : TunnelToken) (fs fs' : FileSystem)
    (r : PendingRecovery)
    → prepare_recovery_at faults p candidate fs ≡ (fs', ok r)
    → (r.path ≡ p)
      × (r.pending ≢ p)
      × ((name : List ℕ)
          → p.file_name ≡ some name
          → r.pending ≡ record p { file_name = some (name ++ pending_suffix) })
unfolding prepare_recovery_at
prepare_recovery_at-eq-ok faults p candidate fs fs' r h =
    let (fs₁, old, e₁, h₁) = bind-eq-ok (current_token faults p) _ fs fs' r h in
    let (fs₂, q, e₂, h₂) = bind-eq-ok (pending_path p) _ fs₁ fs' r h₁ in
    let (fs₃, new, e₃, h₃) = bind-eq-ok (load_or_create_at faults q candidate) _ fs₂ fs' r h₂ in
    let made : PendingRecovery = record {
      path = p;
      pending = q;
      old_token = old;
      new_token = new;
    } in
    let (_, h₄) =
      after_ensure (not (same_token (some new) old)) pending_equals_current (pure made) fs₃ fs' r
        h₃ in
    let (_, same) = outcome-eq fs₃ fs' made r h₄ in
    rw same
      (refl, pending_path-eq-ok p q fs₁ fs₂ e₂, λ name e. pending_path-named p q name fs₁ fs₂ e e₂)

-- A recovery whose pending file is not the identity's, and that is finished, has put the new identity
-- in the place of the old one, if there was one.
pub finish_recovery-eq-ok :
    (faults : Faults) (r : PendingRecovery) (fs fs' : FileSystem) (u : Unit {0})
    → r.pending ≢ r.path
    → finish_recovery faults r fs ≡ (fs', ok u)
    → (content (fs' r.path) ≡ some r.new_token) × (fs' r.pending ≡ none)
unfolding finish_recovery
finish_recovery-eq-ok faults r fs fs' u n h =
    let (fs₁, current, e₁, h₁) = bind-eq-ok (current_token faults r.path) _ fs fs' u h in
    let (_, h₂) = after_ensure (same_token current r.old_token) identity_changed _ fs₁ fs' u h₁ in
    let (fs₂, new, e₂, h₃) = bind-eq-ok (read_existing faults r.pending) _ fs₁ fs' u h₂ in
    let (same, h₄) =
      after_ensure (holds (dec_bytes new r.new_token)) pending_changed _ fs₂ fs' u h₃ in
    let (there, gone) = install-eq-ok faults r.pending r.path fs₂ fs' u n h₄ in
    let (_, after) = content-read faults r.pending fs₁ fs₂ new e₂ in
    let found : fs₂ r.pending ≡ some (file new true) =
      ap (λ (s : FileSystem). s r.pending) after
      ∙ rw (holds_of (dec_path r.pending r.pending) refl) refl in
    (ap content (there ∙ found) ∙ ap some (holds-eq-true (dec_bytes new r.new_token) same), gone)

Keeps-install :
    (q : FilePath) (faults : Faults) (from to : FilePath)
    → from ≢ q
    → to ≢ q
    → Keeps q (install faults from to)
Keeps-install q faults from to n m =
    Keeps-bind q (attempt faults rename) _ (Keeps-attempt q faults rename)
      λ _. Keeps-bind q move (λ _. attempt faults sync) moved (λ _. Keeps-attempt q faults sync)
  where
    move : M (Unit {0})
    move fs = (update (update fs to (fs from)) from none, ok tt)

    moved : Keeps q move
    moved fs = rw (holds_of_not (dec_path from q) n, holds_of_not (dec_path to q) m) refl

-- Another file is left alone.
pub Keeps-finish_recovery :
    (q : FilePath) (faults : Faults) (r : PendingRecovery)
    → r.pending ≢ q
    → r.path ≢ q
    → Keeps q (finish_recovery faults r)
unfolding finish_recovery
Keeps-finish_recovery q faults r n m =
    Keeps-bind q (current_token faults r.path) _ (Keeps-current_token q faults r.path) λ current.
      Keeps-bind q (ensure (same_token current r.old_token) identity_changed) _
        (Keeps-ensure q (same_token current r.old_token) identity_changed)
        λ _.
          Keeps-bind q (read_existing faults r.pending) _ (Keeps-read_existing q faults r.pending)
            λ new.
              Keeps-bind q (ensure (holds (dec_bytes new r.new_token)) pending_changed) _
                (Keeps-ensure q (holds (dec_bytes new r.new_token)) pending_changed)
                λ _. Keeps-install q faults r.pending r.path n m

replaced :
    (faults : Faults) (p : FilePath) (secret : TunnelToken) (fs fs' : FileSystem) (u : Unit {0})
    → replace faults p secret fs ≡ (fs', ok u)
    → fs' p ≡ some (file secret true)
replaced faults p secret fs fs' u h =
    let node = some (file secret true) in
    let k = after_attempt faults temporary _ fs fs' u h in
    let k₁ = after_attempt faults persist (write p node >> attempt faults sync) fs fs' u k in
    let (fs₁, v, e, k₂) = bind-eq-ok (write p node) (λ _. attempt faults sync) fs fs' u k₁ in
    let (made, _) = outcome-eq (update fs p node) fs₁ tt v e in
    rw (attempt-eq-ok faults sync fs₁ fs' u k₂, made) (rw (holds_of (dec_path p p) refl))

-- A recovery key that is stored is in its file, which is private, whatever was there.
pub store_recovery_at-eq-ok :
    (faults : Faults) (p : FilePath) (secret : TunnelToken) (fs fs' : FileSystem) (u : Unit {0})
    → store_recovery_at faults p secret fs ≡ (fs', ok u)
    → fs' p ≡ some (file secret true)
unfolding store_recovery_at
store_recovery_at-eq-ok faults p secret fs fs' u h =
    let (fs₁, b, e, k) = bind-eq-ok (create_new_private faults p secret) _ fs fs' u h in
    go b fs₁ e k
  where
    unless :
        (fs₂ : FileSystem) (existing : TunnelToken) (b : Bool)
        → holds (dec_bytes existing secret) ≡ b
        → fs₂ p ≡ some (file existing true)
        → replace_unless faults p secret b fs₂ ≡ (fs', ok u)
        → fs' p ≡ some (file secret true)
    unless fs₂ existing true e there k =
        let (same, _) = outcome-eq fs₂ fs' tt u k in
        rw same (there ∙ ap (λ x. some (file x true)) (holds-eq-true (dec_bytes existing secret) e))
    unless fs₂ existing false e there k = replaced faults p secret fs₂ fs' u k

    go :
        (b : Bool) (fs₁ : FileSystem)
        → create_new_private faults p secret fs ≡ (fs₁, ok b)
        → store_existing faults p secret b fs₁ ≡ (fs', ok u)
        → fs' p ≡ some (file secret true)
    go true fs₁ e k =
        let (same, _) = outcome-eq fs₁ fs' tt u k in rw same (created faults p secret fs fs₁ e)
    go false fs₁ e k =
        let (fs₂, existing, read, k₁) = bind-eq-ok (read_existing faults p) _ fs₁ fs' u k in
        unless fs₂ existing (holds (dec_bytes existing secret)) refl
          (kept faults p fs₁ fs₂ existing read) k₁
