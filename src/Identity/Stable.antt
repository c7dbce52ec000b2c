-- ===== src/Identity/Stable.antt =====
-- The identity of a host is the same at every start.
use gamenet.Base.{
  ◌≡◌, refl, sym, ◌∙◌, Bool, true, false, Option, none, some, holds_of, if◌then◌else◌, ok, arith,
}
use gamenet.Protocol.{TunnelToken}
use gamenet.Identity.{
  FilePath, dec_path, Node, file, FileSystem, update, random, temporary, persist, sync, Faults, M,
  ◌>>◌, pure, attempt, write, symlink_metadata, read_existing, persist_noclobber,
  create_new_private, load_node, load_or_create_at,
}
use gamenet.Identity.Success.{
  bind-eq-ok, outcome-eq, after_attempt, symlink_metadata-eq-ok, read_existing-eq-ok,
}

-- A file that has been read is there, and private.
pub kept :
    (faults : Faults) (p : FilePath) (fs fs' : FileSystem) (t : TunnelToken)
    → read_existing faults p fs ≡ (fs', ok t)
    → fs' p ≡ some (file t true)
kept faults p fs fs' t h =
    let (_, _, made, _) = read_existing-eq-ok faults p fs fs' t h in
    rw made (rw (holds_of (dec_path p p) refl))

-- A file that is created holds what was drawn.
pub created :
    (faults : Faults) (p : FilePath) (token : TunnelToken) (fs fs' : FileSystem)
    → create_new_private faults p token fs ≡ (fs', ok true)
    → fs' p ≡ some (file token true)
unfolding create_new_private
created faults p token fs fs' h =
    let k = after_attempt faults temporary _ fs fs' true h in
    let (fs₁, node, e, k₁) =
      bind-eq-ok (λ s. (s, ok (s p))) (persist_noclobber faults p token) fs fs' true k in
    put fs₁ node k₁
  where
    put :
        (fs₁ : FileSystem) (node : Option Node)
        → persist_noclobber faults p token node fs₁ ≡ (fs', ok true)
        → fs' p ≡ some (file token true)
    put fs₁ (some x) k =
        let (_, no_file) = outcome-eq fs₁ fs' false true k in absurd (ground (arith, no_file))
    put fs₁ none k =
        let node = some (file token true) in
        let last : M Bool = attempt faults sync >> pure true in
        let k₁ = after_attempt faults persist (write p node >> last) fs₁ fs' true k in
        let (fs₂, u, e, k₂) = bind-eq-ok (write p node) (λ _. last) fs₁ fs' true k₁ in
        let (made, _) = outcome-eq (update fs₁ p node) fs₂ tt u e in
        let k₃ = after_attempt faults sync (pure true) fs₂ fs' true k₂ in
        let (same, _) = outcome-eq fs₂ fs' true true k₃ in
        rw (same, made) (rw (holds_of (dec_path p p) refl))

pub loaded_node :
    (faults : Faults) (p : FilePath) (candidate : TunnelToken) (node : Option Node)
    (fs fs' : FileSystem) (t : TunnelToken)
    → load_node faults p candidate node fs ≡ (fs', ok t)
    → fs' p ≡ some (file t true)
loaded_node faults p candidate (some x) fs fs' t k = kept faults p fs fs' t k
loaded_node faults p candidate none fs fs' t k =
    let k₁ = after_attempt faults random _ fs fs' t k in
    let (fs₁, b, e, k₂) = bind-eq-ok (create_new_private faults p candidate) _ fs fs' t k₁ in
    of_created fs₁ b e k₂
  where
    of_created :
        (fs₁ : FileSystem) (b : Bool)
        → create_new_private faults p candidate fs ≡ (fs₁, ok b)
        → (if b then pure candidate else read_existing faults p) fs₁ ≡ (fs', ok t)
        → fs' p ≡ some (file t true)
    of_created fs₁ true e k =
        let (same, token) = outcome-eq fs₁ fs' candidate t k in
        rw (same, token) (created faults p candidate fs fs₁ e)
    of_created fs₁ false e k = kept faults p fs₁ fs' t k

pub loaded :
    (faults : Faults) (p : FilePath) (candidate : TunnelToken) (fs fs' : FileSystem)
    (t : TunnelToken)
    → load_or_create_at faults p candidate fs ≡ (fs', ok t)
    → fs' p ≡ some (file t true)
unfolding load_or_create_at
loaded faults p candidate fs fs' t h =
    let (fs₁, node, _, k) = bind-eq-ok (symlink_metadata faults p) _ fs fs' t h in
    loaded_node faults p candidate node fs₁ fs' t k

-- An identity that was loaded or created is in its file, which is private; and a later start that
-- does not fail finds the same identity, whatever its random bytes are.
pub load_or_create_at-again :
    (faults faults' : Faults) (p : FilePath) (candidate candidate' : TunnelToken)
    (fs fs' fs'' : FileSystem) (t t' : TunnelToken)
    → load_or_create_at faults p candidate fs ≡ (fs', ok t)
    → load_or_create_at faults' p candidate' fs' ≡ (fs'', ok t')
    → (fs' p ≡ some (file t true)) × (t' ≡ t)
unfolding load_or_create_at
load_or_create_at-again faults faults' p candidate candidate' fs fs' fs'' t t' h h' =
    let here = loaded faults p candidate fs fs' t h in
    let (fs₁, node, e, k) =
      bind-eq-ok (symlink_metadata faults' p) (λ n. load_node faults' p candidate' n) fs' fs'' t'
        h' in
    let (same, there) = symlink_metadata-eq-ok faults' p fs' fs₁ node e in
    let read = rw (there ∙ here, same) at k in
    let (private, found, _, _) = read_existing-eq-ok faults' p fs' fs'' t' read in
    (here, token private (sym here ∙ found))
  where
    token :
        (private : Bool)
        → ◌≡◌ {A = Option Node} (some (file t true)) (some (file t' private))
        → t' ≡ t
    token private e = ground (arith, e)
