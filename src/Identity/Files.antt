-- ===== src/Identity/Files.antt =====
-- What each action leaves in the files, whatever the operating system refuses.
use gamenet.Base.{
  ℕ, ◌≡◌, refl, sym, ap, ◌∙◌, ◌≢◌, Bool, true, false, not, Option, none, some, List, ◌++◌, arith,
  ◌==◌, if◌then◌else◌, holds, holds_of, holds_of_not, length, length-append, Result, ok, err,
}
use gamenet.Errors.{Error, identity_corrupt, pending_equals_current}
use gamenet.Protocol.{TunnelToken}
use gamenet.Identity.{
  FilePath, dec_path, dec_bytes, Node, file, other, FileSystem, update, Op, stat, chmod, read,
  temporary, persist, sync, random, Faults, M, and_then, ◌>>=◌, ◌>>◌, pure, fail, ensure, attempt,
  write, symlink_metadata, token_of, read_node, read_existing, persist_noclobber,
  create_new_private, load_node, load_or_create_at, pending_suffix, pending_path, with_pending,
  prepare_rotation_at, current_token, same_token, read_if_there, prepare_recovery_at,
}

-- The bytes of a regular file.
abbrev pub content : Option Node → Option (List ℕ)
content none = none
content (some other) = none
content (some (file bytes private)) = some bytes

-- The action leaves the bytes at the path as they are, whether it succeeds or fails.
abbrev pub Keeps : FilePath → {A : Type 0} → M A → Type 0
Keeps p m = (fs : FileSystem) → content ((m fs).0 p) ≡ content (fs p)

module _ (p : FilePath) where
  pub Keeps-bind :
      {A B : Type 0} (m : M A) (f : A → M B)
      → Keeps p m
      → ((a : A) → Keeps p (f a))
      → Keeps p (m >>= f)
  Keeps-bind {A} m f h k fs = go (m fs) (h fs)
    where
      go :
          (r : FileSystem × Result Error A)
          → content (r.0 p) ≡ content (fs p)
          → content ((and_then r f).0 p) ≡ content (fs p)
      go (fs', ok a) e = k a fs' ∙ e
      go (fs', err x) e = e

  pub Keeps-attempt : (faults : Faults) (op : Op) → Keeps p (attempt faults op)
  Keeps-attempt faults op fs = go (faults op)
    where
      go : (o : Option Error) → content ((attempt (λ _. o) op fs).0 p) ≡ content (fs p)
      go none = refl
      go (some e) = refl

  pub Keeps-ensure : (b : Bool) (e : Error) → Keeps p (ensure b e)
  Keeps-ensure true e fs = refl
  Keeps-ensure false e fs = refl

  Keeps-token_of : (bytes : List ℕ) → Keeps p (token_of bytes)
  Keeps-token_of bytes fs = go (length bytes == 32)
    where
      go :
          (b : Bool)
          → content (((if b then pure bytes else fail identity_corrupt) fs).0 p) ≡ content (fs p)
      go true = refl
      go false = refl

  -- To make a file private changes no bytes.
  write_private :
      (q : FilePath) (bytes : List ℕ) (private : Bool) (fs : FileSystem)
      → fs q ≡ some (file bytes private)
      → content (update fs q (some (file bytes true)) p) ≡ content (fs p)
  write_private q bytes private fs e = elim (dec_path q p) [
    | yes s ↦ rw (holds_of (dec_path q p) s) (sym (ap content (ap fs (sym s) ∙ e)))
    | no n ↦ rw (holds_of_not (dec_path q p) n)
  ]

  read_private :
      (faults : Faults) (q : FilePath) (bytes : List ℕ) (private : Bool) (fs : FileSystem)
      → fs q ≡ some (file bytes private)
      → content ((read_node faults q (some (file bytes private)) fs).0 p) ≡ content (fs p)
  read_private faults q bytes private fs e = go (faults chmod)
    where
      after : Keeps p (attempt faults read >> token_of bytes)
      after =
          Keeps-bind (attempt faults read) (λ _. token_of bytes) (Keeps-attempt faults read)
            (λ _. Keeps-token_of bytes)

      go :
          (o : Option Error)
          → content (
              ((attempt (λ _. o) chmod
                    >> (write q (some (file bytes true))
                        >> (attempt faults read >> token_of bytes)))
                  fs).0
                p)
            ≡ content (fs p)
      go none = after (update fs q (some (file bytes true))) ∙ write_private q bytes private fs e
      go (some x) = refl

  pub Keeps-read_existing : (faults : Faults) (q : FilePath) → Keeps p (read_existing faults q)
  unfolding read_existing
  Keeps-read_existing faults q fs = go (faults stat)
    where
      node : (o : Option Node) → fs q ≡ o → content ((read_node faults q o fs).0 p) ≡ content (fs p)
      node none e = refl
      node (some other) e = refl
      node (some (file bytes private)) e = read_private faults q bytes private fs e

      go :
          (o : Option Error)
          → content (((symlink_metadata (λ _. o) q >>= (λ n. read_node faults q n)) fs).0 p)
            ≡ content (fs p)
      go none = node (fs q) refl
      go (some x) = refl

  -- A new file elsewhere, or none.
  pub Keeps-create_new_private :
      (faults : Faults) (q : FilePath) (token : TunnelToken)
      → q ≢ p
      → Keeps p (create_new_private faults q token)
  unfolding create_new_private
  Keeps-create_new_private faults q token n =
      Keeps-bind (attempt faults temporary) _ (Keeps-attempt faults temporary) λ _.
        Keeps-bind (λ fs. (fs, ok (fs q))) (λ node. persist_noclobber faults q token node)
          (λ fs. refl) none_or
    where
      written : Keeps p (write q (some (file token true)))
      written fs = rw (holds_of_not (dec_path q p) n)

      none_or : (node : Option Node) → Keeps p (persist_noclobber faults q token node)
      none_or (some x) = λ fs. refl
      none_or none =
          Keeps-bind (attempt faults persist)
            (λ _. write q (some (file token true)) >> (attempt faults sync >> pure true))
            (Keeps-attempt faults persist)
            λ _.
              Keeps-bind (write q (some (file token true))) (λ _. attempt faults sync >> pure true)
                written
                λ _.
                  Keeps-bind (attempt faults sync) (λ _. pure true) (Keeps-attempt faults sync)
                    λ _ fs. refl

  pub Keeps-load_node :
      (faults : Faults) (q : FilePath) (candidate : TunnelToken) (node : Option Node)
      → q ≢ p
      → Keeps p (load_node faults q candidate node)
  Keeps-load_node faults q candidate (some x) n = Keeps-read_existing faults q
  Keeps-load_node faults q candidate none n =
      Keeps-bind (attempt faults random) _ (Keeps-attempt faults random) λ _.
        Keeps-bind (create_new_private faults q candidate) _
          (Keeps-create_new_private faults q candidate n) created
    where
      created : (b : Bool) → Keeps p (if b then pure candidate else read_existing faults q)
      created true = λ fs. refl
      created false = Keeps-read_existing faults q

  pub Keeps-symlink_metadata :
      (faults : Faults) (q : FilePath) → Keeps p (symlink_metadata faults q)
  Keeps-symlink_metadata faults q =
      Keeps-bind (attempt faults stat) _ (Keeps-attempt faults stat) λ _ fs. refl

  pub Keeps-load_or_create_at :
      (faults : Faults) (q : FilePath) (candidate : TunnelToken)
      → q ≢ p
      → Keeps p (load_or_create_at faults q candidate)
  unfolding load_or_create_at
  Keeps-load_or_create_at faults q candidate n =
      Keeps-bind (symlink_metadata faults q) _ (Keeps-symlink_metadata faults q)
        λ node. Keeps-load_node faults q candidate node n

-- The pending file has a longer name.
longer_name : (name : List ℕ) → name ++ pending_suffix ≢ name
longer_name name e = absurd (omega (arith, ap length e, length-append name pending_suffix))

pub pending_differs :
    (p : FilePath) (name : List ℕ)
    → p.file_name ≡ some name
    → record p { file_name = some (name ++ pending_suffix) } ≢ p
pending_differs p name e q =
    let same : some (name ++ pending_suffix) ≡ some name =
      ap (λ (x : FilePath). x.file_name) q ∙ e in
    longer_name name (ground arith)

-- A step that needs the pending path.
Keeps-pending :
    (p : FilePath) {A : Type 0} (f : FilePath → M A)
    → ((q : FilePath) → q ≢ p → Keeps p (f q))
    → Keeps p (pending_path p >>= f)
unfolding pending_path
Keeps-pending p f h fs = go p.file_name refl
  where
    go :
        (o : Option (List ℕ))
        → p.file_name ≡ o
        → content ((and_then (with_pending p o fs) f).0 p) ≡ content (fs p)
    go none e = refl
    go (some name) e =
        h (record p { file_name = some (name ++ pending_suffix) }) (pending_differs p name e) fs

-- To prepare a rotation changes nothing in the identity, whatever is refused on the way.
pub prepare_rotation_at-Keeps :
    (faults : Faults) (p : FilePath) (candidate : TunnelToken)
    → Keeps p (prepare_rotation_at faults p candidate)
unfolding prepare_rotation_at
prepare_rotation_at-Keeps faults p candidate =
    Keeps-bind p (read_existing faults p) _ (Keeps-read_existing p faults p) λ old.
      Keeps-pending p _ λ q n.
        Keeps-bind p (symlink_metadata faults q) _ (Keeps-symlink_metadata p faults q) λ node.
          Keeps-bind p (load_node faults q candidate node) _
            (Keeps-load_node p faults q candidate node n)
            λ new.
              Keeps-bind p (ensure (not (holds (dec_bytes old new))) pending_equals_current) _
                (Keeps-ensure p (not (holds (dec_bytes old new))) pending_equals_current)
                λ _ fs. refl

pub Keeps-current_token :
    (p : FilePath) (faults : Faults) (q : FilePath) → Keeps p (current_token faults q)
unfolding current_token
Keeps-current_token p faults q =
    Keeps-bind p (symlink_metadata faults q) _ (Keeps-symlink_metadata p faults q) read_it
  where
    read_it : (node : Option Node) → Keeps p (read_if_there faults q node)
    read_it none = λ fs. refl
    read_it (some x) =
        Keeps-bind p (read_existing faults q) _ (Keeps-read_existing p faults q) λ t fs. refl

-- Nor does it when a recovery is prepared.
pub prepare_recovery_at-Keeps :
    (faults : Faults) (p : FilePath) (candidate : TunnelToken)
    → Keeps p (prepare_recovery_at faults p candidate)
unfolding prepare_recovery_at
prepare_recovery_at-Keeps faults p candidate =
    Keeps-bind p (current_token faults p) _ (Keeps-current_token p faults p) λ old.
      Keeps-pending p _ λ q n.
        Keeps-bind p (load_or_create_at faults q candidate) _
          (Keeps-load_or_create_at p faults q candidate n)
          λ new.
            Keeps-bind p (ensure (not (same_token (some new) old)) pending_equals_current) _
              (Keeps-ensure p (not (same_token (some new) old)) pending_equals_current) λ _ fs. refl
