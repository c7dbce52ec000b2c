-- ===== src/Identity/Success.antt =====
-- What the files hold once an action has succeeded.
use gamenet.Base.{
  ℕ, ◌≡◌, refl, sym, ap, ◌∙◌, Bool, true, false, Option, none, some, List, inl, inr, arith, ◌==◌,
  length, Bool-cases, Result, ok, err,
}
use gamenet.Errors.{Error, not_found, identity_not_regular, identity_corrupt}
use gamenet.Protocol.{TunnelToken}
use gamenet.Identity.{
  FilePath, Node, file, other, FileSystem, update, Op, stat, chmod, read, Faults, M, and_then,
  ◌>>=◌, ◌>>◌, ensure, attempt, write, symlink_metadata, token_of, read_node, read_existing,
}

pub bind-eq-ok :
    {A B : Type 0} (m : M A) (f : A → M B) (fs fs' : FileSystem) (b : B)
    → (m >>= f) fs ≡ (fs', ok b)
    → (fs₁ : FileSystem) × (a : A) × (m fs ≡ (fs₁, ok a)) × (f a fs₁ ≡ (fs', ok b))
bind-eq-ok {A} {B} m f fs fs' b h = go (m fs) refl h
  where
    go :
        (r : FileSystem × Result Error A)
        → m fs ≡ r
        → and_then r f ≡ (fs', ok b)
        → (fs₁ : FileSystem) × (a : A) × (m fs ≡ (fs₁, ok a)) × (f a fs₁ ≡ (fs', ok b))
    go (fs₁, ok a) e k = (fs₁, a, e, k)
    go (fs₁, err x) e k = absurd (ground arith)

-- Two outcomes that are equal.
pub outcome-eq :
    {A : Type 0} (fs fs' : FileSystem) (a b : A)
    → ◌≡◌ {A = FileSystem × Result Error A} (fs, ok a) (fs', ok b)
    → (fs' ≡ fs) × (b ≡ a)
outcome-eq {A} fs fs' a b h = (
  sym (ap (λ (r : FileSystem × Result Error A). r.0) h),
  same (ap (λ (r : FileSystem × Result Error A). r.1) h),
)
  where
    same : ◌≡◌ {A = Result Error A} (ok a) (ok b) → b ≡ a
    same k = cc

pub no_outcome :
    {A : Type 0} (fs fs' : FileSystem) (e : Error) (b : A)
    → ◌≡◌ {A = FileSystem × Result Error A} (fs, err e) (fs', ok b)
    → ⊥
no_outcome {A} fs fs' e b h = differ (ap (λ (r : FileSystem × Result Error A). r.1) h)
  where
    differ : ◌≡◌ {A = Result Error A} (err e) (ok b) → ⊥
    differ k = cc

pub attempt-eq-ok :
    (faults : Faults) (op : Op) (fs fs' : FileSystem) (u : Unit {0})
    → attempt faults op fs ≡ (fs', ok u)
    → fs' ≡ fs
attempt-eq-ok faults op fs fs' u h = go (faults op) h
  where
    go : (o : Option Error) → attempt (λ _. o) op fs ≡ (fs', ok u) → fs' ≡ fs
    go none k = sym (ap (λ (r : FileSystem × Result Error (Unit {0})). r.0) k)
    go (some e) k = absurd (ground arith)

-- An action behind a call that the operating system may refuse.
pub after_attempt :
    {B : Type 0} (faults : Faults) (op : Op) (k : M B) (fs fs' : FileSystem) (b : B)
    → (attempt faults op >> k) fs ≡ (fs', ok b)
    → k fs ≡ (fs', ok b)
after_attempt faults op k fs fs' b h =
    let (fs₁, u, e, r) = bind-eq-ok (attempt faults op) (λ _. k) fs fs' b h in
    rw (attempt-eq-ok faults op fs fs₁ u e) at r

pub after_ensure :
    {B : Type 0} (c : Bool) (e : Error) (k : M B) (fs fs' : FileSystem) (b : B)
    → (ensure c e >> k) fs ≡ (fs', ok b)
    → (c ≡ true) × (k fs ≡ (fs', ok b))
after_ensure true e k fs fs' b h = (refl, h)
after_ensure false e k fs fs' b h = absurd (ground arith)

token_of-eq-ok :
    (bytes : List ℕ) (fs fs' : FileSystem) (t : TunnelToken)
    → token_of bytes fs ≡ (fs', ok t)
    → (fs' ≡ fs) × (t ≡ bytes) × (length bytes ≡ 32)
token_of-eq-ok bytes fs fs' t h = elim (Bool-cases (length bytes == 32)) [
  | inl e ↦
      let (same, token) = outcome-eq fs fs' bytes t (rw (e, token_of) at h) in
      (same, token, ground arith)
  | inr e ↦ absurd (no_outcome fs fs' identity_corrupt t (rw (e, token_of) at h))
]

pub symlink_metadata-eq-ok :
    (faults : Faults) (p : FilePath) (fs fs' : FileSystem) (n : Option Node)
    → symlink_metadata faults p fs ≡ (fs', ok n)
    → (fs' ≡ fs) × (n ≡ fs p)
symlink_metadata-eq-ok faults p fs fs' n h =
    outcome-eq fs fs' (fs p) n (after_attempt faults stat (λ s. (s, ok (s p))) fs fs' n h)

-- When a token is read, there was a regular file of 32 bytes, which are the token; the file is
-- private from then on, and nothing else changes.
pub read_existing-eq-ok :
    (faults : Faults) (p : FilePath) (fs fs' : FileSystem) (t : TunnelToken)
    → read_existing faults p fs ≡ (fs', ok t)
    → (private : Bool) × (fs p ≡ some (file t private))
      × (fs' ≡ update fs p (some (file t true)))
      × (length t ≡ 32)
unfolding read_existing
read_existing-eq-ok faults p fs fs' t h =
    let (fs₁, n, e, r) =
      bind-eq-ok (symlink_metadata faults p) (λ n. read_node faults p n) fs fs' t h in
    let (same, here) = symlink_metadata-eq-ok faults p fs fs₁ n e in
    node (fs p) refl (rw (same, here) at r)
  where
    node :
        (o : Option Node)
        → fs p ≡ o
        → read_node faults p o fs ≡ (fs', ok t)
        → (private : Bool) × (fs p ≡ some (file t private))
          × (fs' ≡ update fs p (some (file t true)))
          × (length t ≡ 32)
    node none e k = absurd (no_outcome fs fs' not_found t k)
    node (some other) e k = absurd (no_outcome fs fs' identity_not_regular t k)
    node (some (file bytes private)) e k =
        let read_it : M TunnelToken = attempt faults read >> token_of bytes in
        let mode = some (file bytes true) in
        let (fs₁, u, w, r) =
          bind-eq-ok (write p mode) (λ _. read_it) fs fs' t
            (after_attempt faults chmod (write p mode >> read_it) fs fs' t k) in
        let (last, same, len) =
          token_of-eq-ok bytes fs₁ fs' t (after_attempt faults read (token_of bytes) fs₁ fs' t r) in
        rw same (private, e, last ∙ (outcome-eq (update fs p mode) fs₁ tt u w).0, len)
