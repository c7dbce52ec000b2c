-- ===== src/Store/Backup.antt =====
-- The backup of a state file in the old format: `backup_legacy` of crates/server/src/lease_store.rs.
use gamenet.Base.{
  ℕ, ◌≡◌, refl, sym, ap, ◌∙◌, ◌≢◌, true, Option, none, some, List, [], ◌∷◌, ◌++◌, ◌==◌, inl, inr,
  holds_of, holds-eq-true, length, length-append, take, Bool-cases, ok, arith,
}
use gamenet.Errors.{Error, backup_not_regular, backup_differs, no_file_name}
use gamenet.Identity.{
  FilePath, dec_path, dec_bytes, FileSystem, update, Node, file, other, Faults, M, ◌>>◌, attempt,
  write, chmod, create, read, sync, sync_directory, temporary, write_all, persist, symlink_metadata,
}
use gamenet.Identity.Files.{content}
use gamenet.Identity.Success.{
  bind-eq-ok, outcome-eq, no_outcome, attempt-eq-ok, after_attempt, after_ensure,
}
use gamenet.Store.Disk.{
  starts_with, backup_suffix, backup_path, replace_file, write_new, resume_backup, backup_node,
  backup_legacy,
}

take-length : (xs : List ℕ) → take (length xs) xs ≡ xs
take-length [] = refl
take-length (x ∷ xs) = ap (λ ys. x ∷ ys) (take-length xs)

-- A prefix that is as long as the whole is the whole.
whole_prefix :
    (bytes prefix : List ℕ)
    → starts_with bytes prefix ≡ true
    → length prefix ≡ length bytes
    → prefix ≡ bytes
whole_prefix bytes prefix h e =
    sym (holds-eq-true (dec_bytes (take (length prefix) bytes) prefix) h)
    ∙ ap (λ n. take n bytes) e
    ∙ take-length bytes

longer_name : (name : List ℕ) → name ++ backup_suffix ≢ name
longer_name name e = absurd (omega (arith, ap length e, length-append name backup_suffix))

-- The file at the path holds the bytes once the action has succeeded.
abbrev Leaves : FilePath → List ℕ → M (Unit {0}) → Type 0
Leaves q bytes m =
    (fs fs' : FileSystem) (u : Unit {0}) → m fs ≡ (fs', ok u) → content (fs' q) ≡ some bytes

module _ (faults : Faults) (partial : ℕ) (q : FilePath) (bytes : List ℕ) where
  Leaves-write :
      (rest : M (Unit {0}))
      → ((fs fs' : FileSystem) (u : Unit {0}) → rest fs ≡ (fs', ok u) → fs' ≡ fs)
      → Leaves q bytes (write q (some (file bytes true)) >> rest)
  Leaves-write rest same fs fs' u h =
      let private = some (file bytes true) in
      let (fs₁, v, e, k) = bind-eq-ok (write q private) (λ _. rest) fs fs' u h in
      let (made, _) = outcome-eq (update fs q private) fs₁ tt v e in
      rw (same fs₁ fs' u k, made) (rw (holds_of (dec_path q q) refl))

  durable :
      (fs fs' : FileSystem) (u : Unit {0})
      → (attempt faults sync >> attempt faults sync_directory) fs ≡ (fs', ok u)
      → fs' ≡ fs
  durable fs fs' u h =
      attempt-eq-ok faults sync_directory fs fs' u
        (after_attempt faults sync (attempt faults sync_directory) fs fs' u h)

  Leaves-replace_file : Leaves q bytes (replace_file faults q bytes)
  unfolding replace_file
  Leaves-replace_file fs fs' u h =
      let k₁ = after_attempt faults temporary _ fs fs' u h in
      let k₂ = after_attempt faults chmod _ fs fs' u k₁ in
      let k₃ = after_attempt faults write_all _ fs fs' u k₂ in
      let k₄ = after_attempt faults sync _ fs fs' u k₃ in
      let k₅ = after_attempt faults persist _ fs fs' u k₄ in
      Leaves-write (attempt faults sync_directory) (attempt-eq-ok faults sync_directory) fs fs' u k₅

  write_new-eq-ok :
      (fs fs' : FileSystem) (u : Unit {0})
      → write_new faults partial q bytes fs ≡ (fs', ok u)
      → fs' ≡ update fs q (some (file bytes true))
  write_new-eq-ok fs fs' u h = go (faults write_all) refl
    where
      go : (o : Option Error) → faults write_all ≡ o → fs' ≡ update fs q (some (file bytes true))
      go none e =
          (outcome-eq (update fs q (some (file bytes true))) fs' tt u (rw (e, write_new) at h)).0
      go (some x) e = absurd (
          no_outcome (update fs q (some (file (take partial bytes) true))) fs' x u
            (rw (e, write_new) at h))

  Leaves-backup_node :
      (node : Option Node) → Leaves q bytes (backup_node faults partial q bytes node)
  Leaves-backup_node none fs fs' u h =
      let k₁ = after_attempt faults create _ fs fs' u h in
      let last : M (Unit {0}) = attempt faults sync >> attempt faults sync_directory in
      let (fs₁, _, _, k₂) =
        bind-eq-ok (write q (some (file [] true))) (λ _. write_new faults partial q bytes >> last)
          fs fs' u k₁ in
      let (fs₂, v, e, k₃) =
        bind-eq-ok (write_new faults partial q bytes) (λ _. last) fs₁ fs' u k₂ in
      rw (durable fs₂ fs' u k₃, write_new-eq-ok fs₁ fs₂ v e) (rw (holds_of (dec_path q q) refl))
  Leaves-backup_node (some other) fs fs' u h = absurd (no_outcome fs fs' backup_not_regular u h)
  Leaves-backup_node (some (file existing private)) fs fs' u h =
      let k₁ = after_attempt faults read _ fs fs' u h in
      let (prefix, k₂) = after_ensure (starts_with bytes existing) backup_differs _ fs fs' u k₁ in
      resumed prefix k₂
    where
      resumed :
          starts_with bytes existing ≡ true
          → resume_backup faults q bytes existing fs ≡ (fs', ok u)
          → content (fs' q) ≡ some bytes
      resumed prefix k = elim (Bool-cases (length existing == length bytes)) [
        | inl e ↦
            let same = whole_prefix bytes existing prefix (ground (arith, e)) in
            let k' = after_attempt faults chmod _ fs fs' u (rw (e, resume_backup) at k) in
            let k'' = rw same at k' in
            Leaves-write (attempt faults sync >> attempt faults sync_directory) durable fs fs' u k''
        | inr e ↦ Leaves-replace_file fs fs' u (rw (e, resume_backup) at k)
      ]

-- A backup that succeeds has left the bytes of the old state file, all of them, in another file than
-- the state file; also where an earlier one broke off.
pub backup_legacy-Leaves :
    (faults : Faults) (partial : ℕ) (p : FilePath) (bytes : List ℕ) (fs fs' : FileSystem)
    (u : Unit {0})
    → backup_legacy faults partial p bytes fs ≡ (fs', ok u)
    → (q : FilePath) × (q ≢ p) × (content (fs' q) ≡ some bytes)
unfolding backup_legacy
backup_legacy-Leaves faults partial p bytes fs fs' u h =
    let (fs₁, q, e, k) = bind-eq-ok (backup_path p p.file_name) _ fs fs' u h in
    let (fs₂, node, _, k') = bind-eq-ok (symlink_metadata faults q) _ fs₁ fs' u k in
    (
      q,
      elsewhere p.file_name refl fs₁ q e,
      Leaves-backup_node faults partial q bytes node fs₂ fs' u k',
    )
  where
    elsewhere :
        (o : Option (List ℕ))
        → p.file_name ≡ o
        → (fs₁ : FileSystem) (q : FilePath) → backup_path p o fs ≡ (fs₁, ok q)
        → q ≢ p
    elsewhere none e fs₁ q k = absurd (no_outcome fs fs₁ no_file_name q k)
    elsewhere (some name) e fs₁ q k =
        let longer : FilePath = record p { file_name = some (name ++ backup_suffix) } in
        let (_, same) = outcome-eq fs fs₁ longer q k in
        λ z.
          let n : some (name ++ backup_suffix) ≡ some name =
            ap (λ (x : FilePath). x.file_name) (sym same ∙ z) ∙ e in
          longer_name name (ground arith)
