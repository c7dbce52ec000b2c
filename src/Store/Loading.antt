-- ===== src/Store/Loading.antt =====
-- Whatever the state file holds, the relay starts from a well-formed table or not at all.
use gamenet.Base.{
  ℕ, ◌≡◌, sym, ap, subst, Bool, true, false, Option, none, some, List, [], ◌==◌, if◌then◌else◌, leb,
  length, Result, ok, err, >>=-eq-ok, ensure-eq-ok, arith,
}
use gamenet.Errors.{Error, io, state_too_large, unsupported_version, too_many_legacy}
use gamenet.Lease.{LeaseTable, new}
use gamenet.Lease.Records.{snapshot}
use gamenet.Lease.WellFormed.{IsWellFormed}
use gamenet.Lease.Runs.{new-IsWellFormed}
use gamenet.Lease.Accepted.{restore-IsWellFormed}
use gamenet.Identity.{FilePath, FileSystem, Node, file, other, Faults, read, symlink_metadata}
use gamenet.Identity.Success.{bind-eq-ok, outcome-eq, no_outcome, after_attempt, after_ensure}
use gamenet.Store.{
  Json, PersistedV2, LegacyState, Loaded, current, migrated, max_state_bytes, parse_v2,
  into_records, migrate_legacy, migrate_all, parse_current, parse_legacy, parse_state,
}
use gamenet.Store.Disk.{raise, backup_legacy, save, finish_load, load_node, load_or_create}

-- The table that a state file gives.
abbrev pub table_of : Loaded → LeaseTable
table_of (current t) = t
table_of (migrated t) = t

parse_v2-IsWellFormed :
    (p : PersistedV2) (now : ℕ) (t : LeaseTable) → parse_v2 p now ≡ ok t → IsWellFormed t
parse_v2-IsWellFormed p now t h =
    let (_, h₁) = ensure-eq-ok (p.version == 2) unsupported_version _ h in
    let (records, _, h₂) = >>=-eq-ok (into_records p.leases) _ h₁ in
    (restore-IsWellFormed records now t h₂).0

migrate_legacy-IsWellFormed :
    (sha256 : List ℕ → List ℕ) (legacy : LegacyState) (now : ℕ) (t : LeaseTable)
    → migrate_legacy sha256 legacy now ≡ ok t
    → IsWellFormed t
unfolding migrate_legacy
migrate_legacy-IsWellFormed sha256 legacy now t h =
    let (_, h₁) = ensure-eq-ok (leb (length legacy) 1000) too_many_legacy _ h in
    let (records, _, h₂) = >>=-eq-ok (migrate_all sha256 now [] [] legacy) _ h₁ in
    (restore-IsWellFormed records now t h₂).0

module _ {V : Type 0} (json : Json V) (sha256 : List ℕ → List ℕ) where
  parse_state-IsWellFormed :
      (bytes : List ℕ) (now : ℕ) (l : Loaded)
      → parse_state json sha256 bytes now ≡ ok l
      → IsWellFormed (table_of l)
  unfolding parse_state
  parse_state-IsWellFormed bytes now l h =
      let (_, h₁) = ensure-eq-ok (leb (length bytes) max_state_bytes) state_too_large _ h in
      let (value, _, h₂) = >>=-eq-ok (json.from_slice bytes) _ h₁ in
      either value (json.has_version value) h₂
    where
      either :
          (value : V) (b : Bool)
          → (if b then parse_current json sha256 value now else parse_legacy json sha256 value now)
            ≡ ok l
          → IsWellFormed (table_of l)
      either value true k =
          let (p, _, k₁) = >>=-eq-ok (json.to_v2 value) _ k in
          let (t, e, k₂) = >>=-eq-ok (parse_v2 p now) _ k₁ in
          let same : current t ≡ l = ground arith in rw (← same) (parse_v2-IsWellFormed p now t e)
      either value false k =
          let (p, _, k₁) = >>=-eq-ok (json.to_legacy value) _ k in
          let (t, e, k₂) = >>=-eq-ok (migrate_legacy sha256 p now) _ k₁ in
          let same : migrated t ≡ l = ground arith in
          rw (← same) (migrate_legacy-IsWellFormed sha256 p now t e)

  raise-eq-ok :
      (r : Result Error Loaded) (fs fs' : FileSystem) (l : Loaded)
      → raise r fs ≡ (fs', ok l)
      → r ≡ ok l
  raise-eq-ok (ok x) fs fs' l h = ap ok (sym (outcome-eq fs fs' x l h).1)
  raise-eq-ok (err e) fs fs' l h = absurd (no_outcome fs fs' e l h)

  finish_load-table :
      (faults : Faults) (partial : ℕ) (p : FilePath) (bytes : List ℕ) (now : ℕ) (l : Loaded)
      (fs fs' : FileSystem) (t : LeaseTable)
      → finish_load json sha256 faults partial p bytes now l fs ≡ (fs', ok t)
      → t ≡ table_of l
  finish_load-table faults partial p bytes now (current x) fs fs' t h = (outcome-eq fs fs' x t h).1
  finish_load-table faults partial p bytes now (migrated x) fs fs' t h =
      let (fs₁, _, _, h₁) = bind-eq-ok (backup_legacy faults partial p bytes) _ fs fs' t h in
      let (fs₂, _, _, h₂) =
        bind-eq-ok (save json sha256 faults p (snapshot x now)) _ fs₁ fs' t h₁ in
      (outcome-eq fs₂ fs' x t h₂).1

  -- Whatever the state file holds, and whatever the operating system refuses, a table that
  -- `load_or_create` returns is well formed: an old format is migrated to one, and a damaged file
  -- is an error.
  pub load_or_create-IsWellFormed :
      (faults : Faults) (partial : ℕ) (p : FilePath) (now : ℕ) (fs fs' : FileSystem)
      (t : LeaseTable)
      → load_or_create json sha256 faults partial p now fs ≡ (fs', ok t)
      → IsWellFormed t
  unfolding load_or_create
  load_or_create-IsWellFormed faults partial p now fs fs' t h =
      let (fs₁, node, _, k) = bind-eq-ok (symlink_metadata faults p) _ fs fs' t h in
      of_node fs₁ node k
    where
      of_node :
          (fs₁ : FileSystem) (node : Option Node)
          → load_node json sha256 faults partial p now node fs₁ ≡ (fs', ok t)
          → IsWellFormed t
      of_node fs₁ none k = subst IsWellFormed (sym (outcome-eq fs₁ fs' new t k).1) new-IsWellFormed
      of_node fs₁ (some other) k = absurd (no_outcome fs₁ fs' (io 0) t k)
      of_node fs₁ (some (file bytes private)) k =
          let (_, k₁) =
            after_ensure (leb (length bytes) max_state_bytes) state_too_large _ fs₁ fs' t k in
          let k₂ = after_attempt faults read _ fs₁ fs' t k₁ in
          let (fs₂, l, e, k₃) =
            bind-eq-ok (raise (parse_state json sha256 bytes now)) _ fs₁ fs' t k₂ in
          let loaded =
            parse_state-IsWellFormed bytes now l
              (raise-eq-ok (parse_state json sha256 bytes now) fs₁ fs₂ l e) in
          rw (finish_load-table faults partial p bytes now l fs₂ fs' t k₃) loaded
