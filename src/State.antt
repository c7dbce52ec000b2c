-- ===== src/State.antt =====
-- crates/server/src/state.rs: the lease table behind its store, and the connections of the hosts.
-- A QUIC connection is a parameter `C`. The file of the store is the field `disk`; how a write of
-- it ends, and how binding a TCP port ends, are arguments.
pub mod Runs
pub mod Registering
pub mod Ending
pub mod Connected
pub mod Connections
pub mod Blocked
pub mod Sessions
pub mod Promise
pub mod Restart
use gamenet.Base.{
  ℕ, ◌≡◌, Bool, true, false, Option, none, some, List, [], ◌∷◌, ◌==◌, if◌then◌else◌, Result, ok,
  err,
}
use gamenet.HashMap.{HashMap, get, insert, remove}
use gamenet.Address.{IpAddr}
use gamenet.Errors.{Error, storage_unavailable, no_free_port}
use gamenet.Lease.{
  TokenId, dec_token, SessionId, LeaseTable, reap_expired, candidate_ports, activate_with_recovery,
  end as end_lease, from_token,
}
use gamenet.Lease.Claims.{
  RotationResult, transferred, unchanged, RecoveryResult, rotate_claim, recover_claim,
}
use gamenet.Lease.Records.{LeaseRecord, snapshot}

-- A write that fails may have replaced the file already: `sync_directory` comes last.
pub data SaveOutcome : Type 0 where
  written : SaveOutcome
  not_written : Error → SaveOutcome
  written_unsynced : Error → SaveOutcome

-- `TcpListener::bind`.
pub data BindOutcome : Type 0 where
  bound : BindOutcome
  in_use : BindOutcome
  refused : Error → BindOutcome

pub record ServerState (C : Type 0) : Type 0 where
  pub leases : LeaseTable
  pub disk : List LeaseRecord
  pub persistence_healthy : Bool
  pub active_connections : HashMap TokenId (SessionId × C)

pub record Registration : Type 0 where
  pub public_port : ℕ
  pub token_id : TokenId
  pub session_id : SessionId

module _ {C : Type 0} where
  -- `load_or_new`, from the records in the file of the store and the table that it loads.
  unfoldable pub load_or_new :
      List LeaseRecord → Result Error LeaseTable → Result Error (ServerState C)
  load_or_new records (err e) = err e
  load_or_new records (ok t) =
      ok
        (record { leases = t; disk = records; persistence_healthy = true; active_connections = [] })

  -- `store.save`, and the `if let Err` behind each of its calls. `fails` is what the caller keeps.
  unfoldable pub save :
      {A : Type 0}
      → SaveOutcome
      → List LeaseRecord
      → ServerState C
      → ServerState C
      → A
      → ServerState C × Result Error A
  save written records fails st a = (record st { disk = records }, ok a)
  save (not_written e) records fails st a = (record fails { persistence_healthy = false }, err e)
  save (written_unsynced e) records fails st a =
      (record fails { persistence_healthy = false; disk = records }, err e)

  abbrev pub connect :
      TokenId
      → SessionId
      → Option C
      → HashMap TokenId (SessionId × C)
      → HashMap TokenId (SessionId × C)
  connect token s none m = m
  connect token s (some c) m = insert dec_token token (s, c) m

  -- What the loop over the candidates does with the staged table.
  unfoldable pub finish_registration :
      ServerState C
      → TokenId
      → ℕ
      → Option C
      → SaveOutcome
      → ℕ
      → LeaseTable × Result Error SessionId
      → ServerState C × Result Error Registration
  finish_registration st token now connection outcome port (t, err e) = (st, err e)
  finish_registration st token now connection outcome port (t, ok session) =
      save outcome (snapshot t now) st
        (record st {
          leases = t;
          active_connections = connect token session connection st.active_connections;
        })
        (record { public_port = port; token_id = token; session_id = session })

  unfoldable pub try_ports :
      ServerState C
      → TokenId
      → Option TokenId
      → IpAddr
      → ℕ
      → Option C
      → (ℕ → BindOutcome)
      → SaveOutcome
      → List ℕ
      → ServerState C × Result Error Registration
  try_ports st token r ip now connection bind outcome [] = (st, err no_free_port)
  try_ports st token r ip now connection bind outcome (port ∷ ports) = elim (bind port) [
    | bound ↦
        finish_registration st token now connection outcome port
          (activate_with_recovery st.leases token r ip port now)
    | in_use ↦ try_ports st token r ip now connection bind outcome ports
    | refused e ↦ (st, err e)
  ]

  unfoldable pub try_candidates :
      ServerState C
      → TokenId
      → Option TokenId
      → IpAddr
      → ℕ
      → Option C
      → (ℕ → BindOutcome)
      → SaveOutcome
      → Result Error (List ℕ)
      → ServerState C × Result Error Registration
  try_candidates st token r ip now connection bind outcome (err e) = (st, err e)
  try_candidates st token r ip now connection bind outcome (ok ports) =
      try_ports st token r ip now connection bind outcome ports

  -- `register_with_recovery`, from the fingerprint of the token.
  unfoldable pub register_with_recovery :
      ServerState C
      → TokenId
      → Option TokenId
      → IpAddr
      → ℕ
      → Option C
      → (ℕ → BindOutcome)
      → SaveOutcome
      → ServerState C × Result Error Registration
  register_with_recovery st token r ip now connection bind outcome =
      let asked = candidate_ports st.leases token ip now in
      if st.persistence_healthy
      then try_candidates (record st { leases = asked.0 }) token r ip now connection bind outcome
          asked.1
      else (st, err storage_unavailable)

  -- Forgets the connection of the session that has ended.
  unfoldable pub disconnect :
      TokenId → SessionId → HashMap TokenId (SessionId × C) → HashMap TokenId (SessionId × C)
  disconnect token s m = elim (get dec_token token m) [
    | none ↦ m
    | some (current, c) ↦ if current == s then remove dec_token token m else m
  ]

  unfoldable pub end :
      ServerState C → TokenId → SessionId → ℕ → SaveOutcome → ServerState C × Result Error Bool
  end st token s now outcome =
      let ended = end_lease st.leases token s now in
      let st' = record st {
        leases = ended.0;
        active_connections = disconnect token s st.active_connections;
      } in
      if ended.1 then save outcome (snapshot ended.0 now) st' st' true else (st, ok false)

  -- What `rotate` does with the staged table.
  unfoldable pub finish_rotation :
      ServerState C
      → ℕ
      → SaveOutcome
      → LeaseTable × Result Error RotationResult
      → ServerState C × Result Error (Option ℕ)
  finish_rotation st now outcome (t, err e) = (st, err e)
  finish_rotation st now outcome (t, ok (unchanged port)) = (st, ok port)
  finish_rotation st now outcome (t, ok (transferred port)) =
      save outcome (snapshot t now) st (record st { leases = t }) (some port)

  unfoldable pub rotate :
      ServerState C → TokenId → TokenId → ℕ → SaveOutcome → ServerState C × Result Error (Option ℕ)
  rotate st old new now outcome =
      if st.persistence_healthy
      then finish_rotation st now outcome (rotate_claim st.leases old new now)
      else (st, err storage_unavailable)

  -- The connection of the session that a recovery displaces.
  abbrev pub displaced_connection :
      Option (TokenId × SessionId) → HashMap TokenId (SessionId × C) → Option C
  displaced_connection none m = none
  displaced_connection (some (old, s)) m = elim (get dec_token old m) [
    | none ↦ none
    | some (current, c) ↦ if current == s then some c else none
  ]

  abbrev pub without_displaced :
      Option (TokenId × SessionId)
      → HashMap TokenId (SessionId × C)
      → HashMap TokenId (SessionId × C)
  without_displaced none m = m
  without_displaced (some (old, s)) m = disconnect old s m

  -- What `recover` does with the staged table.
  unfoldable pub finish_recovery :
      ServerState C
      → ℕ
      → SaveOutcome
      → LeaseTable × Result Error RecoveryResult
      → ServerState C × Result Error (ℕ × Option C)
  finish_recovery st now outcome (t, err e) = (st, err e)
  finish_recovery st now outcome (t, ok result) =
      if result.changed
      then save outcome (snapshot t now) st
          (record st {
            leases = t;
            active_connections = without_displaced result.displaced st.active_connections;
          })
          (result.port, displaced_connection result.displaced st.active_connections)
      else (st, ok (result.port, none))

  unfoldable pub recover :
      ServerState C
      → TokenId
      → TokenId
      → IpAddr
      → ℕ
      → SaveOutcome
      → ServerState C × Result Error (ℕ × Option C)
  recover st r new ip now outcome =
      if st.persistence_healthy
      then finish_recovery st now outcome (recover_claim st.leases r new ip now)
      else (st, err storage_unavailable)

  unfoldable pub refresh_and_save :
      ServerState C → ℕ → SaveOutcome → ServerState C × Result Error (Unit {0})
  refresh_and_save st now outcome =
      let st' = record st { leases = reap_expired st.leases now } in
      save outcome (snapshot st'.leases now) st' (record st' { persistence_healthy = true }) tt
