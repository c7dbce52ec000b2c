-- ===== src/Store/Disk.antt =====
-- crates/server/src/lease_store.rs: `save`, `backup_legacy` and `load_or_create` on the files of
-- `Identity`. What is no regular file cannot be read. `partial` is how many bytes of a new backup
-- are written when that write fails.
use gamenet.Base.{
  ℕ, Bool, true, Option, none, some, List, [], ◌∷◌, ◌++◌, ◌==◌, if◌then◌else◌, leb, holds, length,
  take, Result, ok, err,
}
use gamenet.Errors.{Error, io, state_too_large, backup_not_regular, backup_differs, no_file_name}
use gamenet.Lease.{LeaseTable, new}
use gamenet.Lease.Records.{LeaseRecord, snapshot}
use gamenet.Identity.{
  FilePath, dec_bytes, Node, file, other, Faults, M, ◌>>=◌, ◌>>◌, pure, fail, ensure, attempt,
  write, chmod, read, temporary, persist, create, write_all, sync, sync_directory, symlink_metadata,
}
use gamenet.Store.{Json, Loaded, current, migrated, max_state_bytes, parse_state, encode_state}

abbrev pub starts_with : List ℕ → List ℕ → Bool
starts_with bytes prefix = holds (dec_bytes (take (length prefix) bytes) prefix)

-- `.legacy-backup`
abbrev pub backup_suffix : List ℕ
backup_suffix =
    b'.' ∷ b'l' ∷ b'e' ∷ b'g' ∷ b'a' ∷ b'c' ∷ b'y' ∷ b'-' ∷ b'b' ∷ b'a' ∷ b'c' ∷ b'k' ∷ b'u' ∷ b'p'
    ∷ []

abbrev pub raise : {A : Type 0} → Result Error A → M A
raise (ok a) = pure a
raise (err e) = fail e

-- A temporary file takes the name of another at once.
unfoldable pub replace_file : Faults → FilePath → List ℕ → M (Unit {0})
replace_file faults p bytes = do
  attempt faults temporary
  attempt faults chmod
  attempt faults write_all
  attempt faults sync
  attempt faults persist
  write p (some (file bytes true))
  attempt faults sync_directory

-- `write_all`, which may fail when some bytes are written.
abbrev pub write_new : Faults → ℕ → FilePath → List ℕ → M (Unit {0})
write_new faults partial p bytes fs = elim (faults write_all) [
  | none ↦ write p (some (file bytes true)) fs
  | some e ↦ (write p (some (file (take partial bytes) true)) >> fail e) fs
]

-- A backup that is complete becomes private and durable.
abbrev pub keep_backup : Faults → FilePath → List ℕ → M (Unit {0})
keep_backup faults backup existing = do
  attempt faults chmod
  write backup (some (file existing true))
  attempt faults sync
  attempt faults sync_directory

-- What `backup_legacy` does with a backup that is there.
abbrev pub resume_backup : Faults → FilePath → List ℕ → List ℕ → M (Unit {0})
resume_backup faults backup bytes existing =
    if length existing == length bytes
    then keep_backup faults backup existing
    else replace_file faults backup bytes

abbrev pub backup_node : Faults → ℕ → FilePath → List ℕ → Option Node → M (Unit {0})
backup_node faults partial backup bytes none = do
  attempt faults create
  write backup (some (file [] true))
  write_new faults partial backup bytes
  attempt faults sync
  attempt faults sync_directory
backup_node faults partial backup bytes (some other) = fail backup_not_regular
backup_node faults partial backup bytes (some (file existing private)) = do
  attempt faults read
  ensure (starts_with bytes existing) backup_differs
  resume_backup faults backup bytes existing

abbrev pub backup_path : FilePath → Option (List ℕ) → M FilePath
backup_path p none = fail no_file_name
backup_path p (some name) = pure (record p { file_name = some (name ++ backup_suffix) })

unfoldable pub backup_legacy : Faults → ℕ → FilePath → List ℕ → M (Unit {0})
backup_legacy faults partial p bytes = do
  backup ← backup_path p p.file_name
  node ← symlink_metadata faults backup
  backup_node faults partial backup bytes node

module _ {V : Type 0} (json : Json V) (sha256 : List ℕ → List ℕ) where
  unfoldable pub save : Faults → FilePath → List LeaseRecord → M (Unit {0})
  save faults p records = do
    bytes ← raise (encode_state json sha256 records)
    replace_file faults p bytes

  abbrev pub finish_load : Faults → ℕ → FilePath → List ℕ → ℕ → Loaded → M LeaseTable
  finish_load faults partial p bytes now (current table) = pure table
  finish_load faults partial p bytes now (migrated table) = do
    backup_legacy faults partial p bytes
    save faults p (snapshot table now)
    pure table

  abbrev pub load_node : Faults → ℕ → FilePath → ℕ → Option Node → M LeaseTable
  load_node faults partial p now none = pure new
  load_node faults partial p now (some other) = fail (io 0)
  load_node faults partial p now (some (file bytes private)) = do
    ensure (leb (length bytes) max_state_bytes) state_too_large
    attempt faults read
    loaded ← raise (parse_state json sha256 bytes now)
    finish_load faults partial p bytes now loaded

  unfoldable pub load_or_create : Faults → ℕ → FilePath → ℕ → M LeaseTable
  load_or_create faults partial p now = do
    node ← symlink_metadata faults p
    load_node faults partial p now node
