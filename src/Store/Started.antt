-- ===== src/Store/Started.antt =====
-- The relay from its start on: crates/server/src/state.rs over crates/server/src/lease_store.rs.
use gamenet.Base.{ℕ, ◌≡◌, refl, subst, true, Option, none, some, List, [], ok, arith}
use gamenet.HashMap.{get}
use gamenet.Lease.{SessionId, LeaseTable}
use gamenet.Lease.Records.{LeaseRecord, snapshot}
use gamenet.Lease.WellFormed.{IsWellFormed}
use gamenet.Identity.{FilePath, FileSystem, Faults, M, ◌>>=◌}
use gamenet.State.{ServerState, load_or_new}
use gamenet.State.Runs.{Request, run}
use gamenet.State.Connected.{Connected}
use gamenet.State.Connections.{run-Connected}
use gamenet.Store.{Json}
use gamenet.Store.Disk.{raise, load_or_create}
use gamenet.Store.Loading.{load_or_create-IsWellFormed}

-- `ServerState::load_or_new` on the files. The records that `disk` starts with are those of the file
-- that have not expired.
unfoldable pub load_or_new_at :
    {C V : Type 0} → Json V → (List ℕ → List ℕ) → Faults → ℕ → FilePath → ℕ → M (ServerState C)
load_or_new_at json sha256 faults partial p now = do
  leases ← load_or_create json sha256 faults partial p now
  raise (load_or_new (snapshot leases now) (ok leases))

module _ {C : Type 0} where
  nothing : (s : SessionId) (c : C) → ¬ (◌≡◌ {A = Option (SessionId × C)} none (some (s, c)))
  nothing s c e = cc

  pub load_or_new-Connected :
      (records : List LeaseRecord) (t : LeaseTable) (st : ServerState C)
      → load_or_new records (ok t) ≡ ok st
      → (t ≡ st.leases) × Connected st
  unfolding load_or_new get
  load_or_new-Connected records t st h =
      let fresh : ServerState C = record {
        leases = t;
        disk = records;
        persistence_healthy = true;
        active_connections = [];
      } in
      let same : fresh ≡ st = ground (arith, h) in
      rw (← same) (refl, record { live = λ k s c e. absurd (nothing s c e) })

  -- Whatever the state file holds: when the relay starts at all, every sequence of requests, with
  -- whatever outcomes of writes and binds, leads to a state whose lease table is well formed and
  -- whose connections are each those of a session that runs.
  pub load_or_new-run :
      {V : Type 0} (json : Json V) (sha256 : List ℕ → List ℕ) (faults : Faults) (partial : ℕ)
      (p : FilePath) (now : ℕ) (fs fs' : FileSystem) (t : LeaseTable) (records : List LeaseRecord)
      (st : ServerState C) (qs : List (Request C))
      → load_or_create json sha256 faults partial p now fs ≡ (fs', ok t)
      → load_or_new records (ok t) ≡ ok st
      → IsWellFormed (run st qs).leases × Connected (run st qs)
  load_or_new-run json sha256 faults partial p now fs fs' t records st qs loaded started =
      let w = load_or_create-IsWellFormed json sha256 faults partial p now fs fs' t loaded in
      let (same, connected) = load_or_new-Connected records t st started in
      run-Connected st qs (subst IsWellFormed same w) connected
