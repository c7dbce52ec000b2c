-- ===== src/Tests/StateFile.antt =====
-- Runs of the code that reads the state file at concrete inputs: crates/server/src/lease_store.rs and
-- `restore` of crates/server/src/lease.rs.
use gamenet.Base.{
  ℕ, zero, suc, saturating_add, ◌≡◌, ◌≢◌, refl, filter, true, false, none, some, List, [], ◌∷◌, ok,
  err, ℕ_discrete, any, contains,
}
use gamenet.HashMap.{get, insert, remove}
use gamenet.Errors.{io}
use gamenet.Identity.{FilePath, FileSystem, dec_path, dec_bytes, update, file, Faults}
use gamenet.Identity.Files.{content}
use gamenet.Lease.{dec_token, LeaseTable, new, grace}
use gamenet.Lease.Records.{restore, restore_one, restore_all, add_retired, snapshot}
use gamenet.Lease.WellFormed.{IsWellFormed}
use gamenet.Store.{
  Json, migrate_all, migrate_legacy, parse_state, encode_state, sort_by_port, from_record,
}
use gamenet.Store.Disk.{backup_legacy, replace_file, save, load_or_create}
use gamenet.State.{ServerState, load_or_new, written, not_written}
use gamenet.State.Runs.{Request, refreshes, run}
use gamenet.State.Connected.{Connected}
use gamenet.Store.Started.{load_or_new-run}
use gamenet.Store.Backup.{backup_legacy-Leaves}
use gamenet.Hex.{hex_32, parse_hex_32, parse_pairs, from_str_radix, to_digit, is_ascii}

program : Unit {0}
unfolding ℕ_discrete any filter saturating_add contains get insert remove dec_path dec_bytes
    dec_token new restore restore_one restore_all add_retired snapshot migrate_all migrate_legacy
    parse_state encode_state sort_by_port from_record backup_legacy replace_file save load_or_create
    hex_32 parse_hex_32 parse_pairs from_str_radix to_digit is_ascii
program = tt

-- The state file, with 64 zeros for a token in the old format.
abbrev state : FilePath
state = record { parent = []; file_name = some (1 ∷ []) }

abbrev digits : ℕ → List ℕ
digits zero = []
digits (suc n) = b'0' ∷ digits n

abbrev disk : FileSystem
unfolding program
disk = update (λ q. none) state (some (file (5 ∷ 6 ∷ []) true))

abbrev no_faults : Faults
no_faults op = none

-- A `serde_json` for which every file is one reservation of the old format.
abbrev json : Json (Unit {0})
json = record {
  to_vec_pretty = λ v. ok (7 ∷ []);
  from_slice = λ bytes. ok tt;
  has_version = λ v. false;
  to_v2 = λ v. err (io 0);
  to_legacy = λ v. ok ((digits 64, 10005) ∷ []);
}

abbrev digest : List ℕ → List ℕ
digest bytes = bytes

abbrev migrated_disk : FileSystem
migrated_disk = (load_or_create json digest no_faults 0 state 3000 disk).0

abbrev zeros : ℕ → List ℕ
zeros zero = []
zeros (suc n) = 0 ∷ zeros n

abbrev migrated_table : LeaseTable
migrated_table = record {
  leases =
      (
        record { bytes = zeros 32 },
        record {
          port = 10005;
          last_ip = none;
          retired_token_ids = [];
          recovery_id = none;
          status = grace 303000;
        },
      )
      ∷ [];
  next_session_id = 0;
}

load_run :
    load_or_create json digest no_faults 0 state 3000 disk ≡ (migrated_disk, ok migrated_table)
unfolding program
load_run = refl

abbrev backed_up : FileSystem
backed_up = (backup_legacy no_faults 0 state (5 ∷ 6 ∷ []) disk).0

backup_run : backup_legacy no_faults 0 state (5 ∷ 6 ∷ []) disk ≡ (backed_up, ok tt)
unfolding program
backup_run = refl

backup_legacy-Leaves_example :
    (q : FilePath) × (q ≢ state) × (content (backed_up q) ≡ some (5 ∷ 6 ∷ []))
backup_legacy-Leaves_example =
    backup_legacy-Leaves no_faults 0 state (5 ∷ 6 ∷ []) disk backed_up tt backup_run

abbrev started : ServerState ℕ
started = record {
  leases = migrated_table;
  disk = [];
  persistence_healthy = true;
  active_connections = [];
}

started_run : load_or_new [] (ok migrated_table) ≡ ok started
unfolding load_or_new
started_run = refl

abbrev requests : List (Request ℕ)
requests = refreshes 4000 (not_written (io 5)) ∷ refreshes 5000 written ∷ []

load_or_new-run_example :
    IsWellFormed (run started requests).leases × Connected (run started requests)
load_or_new-run_example =
    load_or_new-run json digest no_faults 0 state 3000 disk migrated_disk migrated_table [] started
      requests load_run started_run
