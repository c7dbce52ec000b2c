-- ===== src/Tests/Restart.antt =====
-- A relay that stops and starts again, at concrete inputs: crates/server/src/state.rs and
-- crates/server/src/lease_store.rs.
use gamenet.Base.{
  ℕ, none, some, List, [], ◌∷◌, ok, err, ℕ_discrete, filter, find, contains, any, saturating_add,
  true,
}
use gamenet.HashMap.{get, insert, remove, contains_key}
use gamenet.Address.{host_source, to_ipv4_mapped, dec_octets, dec_source}
use gamenet.Errors.{io}
use gamenet.Identity.{FilePath, FileSystem, Faults, dec_path}
use gamenet.Lease.{
  dec_token, TokenId, active, Lease, new, reap_expired, count_source, check_ip_quota, ports_from,
  port_pool, free_ports, candidates, candidate_ports, activate_reaped, activate_with_recovery,
}
use gamenet.Lease.Records.{snapshot}
use gamenet.State.{
  ServerState, written, save as save_state, finish_registration, try_ports, try_candidates,
  register_with_recovery,
}
use gamenet.State.Runs.{Request, registers}
use gamenet.Store.{Json, PersistedV2, encode_state}
use gamenet.Store.Disk.{replace_file, save}
use gamenet.Store.Reload.{document}
use gamenet.Tests.Sample.{home, fresh, free, digest, zeros}

program : Unit {0}
unfolding get insert remove contains_key filter find contains any saturating_add ℕ_discrete
    dec_token dec_octets dec_source dec_path host_source to_ipv4_mapped new reap_expired
    count_source check_ip_quota ports_from port_pool free_ports candidates candidate_ports
    activate_reaped activate_with_recovery snapshot save_state finish_registration try_ports
    try_candidates register_with_recovery encode_state replace_file save
program = tt

-- Fingerprints of 32 bytes.
abbrev fingerprint : ℕ → TokenId
fingerprint n = record { bytes = n ∷ zeros 31 }

abbrev registered : ServerState ℕ
registered =
    (register_with_recovery fresh (fingerprint 1) (some (fingerprint 3)) home 1000 (some 7) free
      written).0

abbrev lease : Lease
lease = record {
  port = 10000;
  last_ip = some home;
  retired_token_ids = [];
  recovery_id = some (fingerprint 3);
  status = active 1;
}

-- A `serde_json` that writes one document as one byte.
abbrev json : Json PersistedV2
json = record {
  to_vec_pretty = λ v. ok (1 ∷ []);
  from_slice = λ bytes. ok (document registered.leases 1000);
  has_version = λ v. true;
  to_v2 = λ v. ok v;
  to_legacy = λ v. err (io 0);
}

abbrev state : FilePath
state = record { parent = []; file_name = some (1 ∷ []) }

abbrev empty : FileSystem
empty p = none

abbrev no_faults : Faults
no_faults op = none

abbrev saved : FileSystem
saved = (save json digest no_faults state registered.disk empty).0

-- The relay starts again, and another host registers.
abbrev newcomers : List (Request ℕ)
newcomers = registers (fingerprint 2) none home 3000 (some 9) free written ∷ []
