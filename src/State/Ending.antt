-- ===== src/State/Ending.antt =====
-- The end of a session that is running: its claim goes into grace, and its connection is forgotten.
use gamenet.Base.{ℕ, ◌≡◌, refl, true, none, some, ◌==◌, saturating_add, arith}
use gamenet.HashMap.{get, get-insert_self, get-remove_self}
use gamenet.Lease.{
  TokenId, dec_token, SessionId, active, grace, grace_ms, Lease, LeaseTable, runs_session,
  end as end_lease,
}
use gamenet.Lease.Records.{snapshot}
use gamenet.State.{
  ServerState, SaveOutcome, written, not_written, written_unsynced, save, disconnect, end,
}

-- The lease without its session.
abbrev pub ended : Lease → ℕ → Lease
ended l now = record l { status = grace (saturating_add now grace_ms) }

pub end_lease-running :
    (t : LeaseTable) (token : TokenId) (s : SessionId) (now : ℕ) (l : Lease)
    → get dec_token token t.leases ≡ some l
    → l.status ≡ active s
    → ((end_lease t token s now).1 ≡ true)
      × (get dec_token token (end_lease t token s now).0.leases ≡ some (ended l now))
unfolding end_lease
end_lease-running t token s now l found running =
    let this : runs_session s l.status ≡ true = rw running (ground arith) in
    rw (found, end_lease) (rw this (refl, get-insert_self dec_token token (ended l now) t.leases))

module _ {C : Type 0} where
  disconnect-gone :
      (token : TokenId) (s : SessionId) (st : ServerState C) (c : C)
      → get dec_token token st.active_connections ≡ some (s, c)
      → get dec_token token (disconnect token s st.active_connections) ≡ none
  unfolding disconnect
  disconnect-gone token s st c h =
      let same : (s == s) ≡ true = ground arith in
      rw (h, disconnect) (rw same (get-remove_self dec_token token st.active_connections))

  save-same :
      {A : Type 0} (o : SaveOutcome) (records : _) (st : ServerState C) (a : A)
      → ((save o records st st a).0.leases ≡ st.leases)
        × ((save o records st st a).0.active_connections ≡ st.active_connections)
  unfolding save
  save-same written records st a = (refl, refl)
  save-same (not_written e) records st a = (refl, refl)
  save-same (written_unsynced e) records st a = (refl, refl)

  -- The claim is in grace for five minutes from now, and the identity has no connection.
  pub record IsReleased (st : ServerState C) (token : TokenId) (now : ℕ) (port : ℕ) : Type 0 where
    pub lease : Lease
    pub found : get dec_token token st.leases.leases ≡ some lease
    pub kept_port : lease.port ≡ port
    pub in_grace : lease.status ≡ grace (saturating_add now grace_ms)
    pub no_connection : get dec_token token st.active_connections ≡ none

  -- When a session that runs and is connected ends, its claim is in grace for five minutes, on its
  -- port, and its connection is forgotten, whether the state is saved or not.
  pub end-IsReleased :
      (st : ServerState C) (token : TokenId) (s : SessionId) (now : ℕ) (o : SaveOutcome) (l : Lease)
      (c : C)
      → get dec_token token st.leases.leases ≡ some l
      → l.status ≡ active s
      → get dec_token token st.active_connections ≡ some (s, c)
      → IsReleased (end st token s now o).0 token now l.port
  unfolding end
  end-IsReleased st token s now o l c found running connected =
      let (yes_ended, after) = end_lease-running st.leases token s now l found running in
      let st' : ServerState C = record st {
        leases = (end_lease st.leases token s now).0;
        active_connections = disconnect token s st.active_connections;
      } in
      let (same, gone) = save-same o (snapshot st'.leases now) st' true in
      rw (yes_ended, end)
        (record {
          lease = ended l now;
          found = rw same after;
          kept_port = refl;
          in_grace = refl;
          no_connection = rw gone (disconnect-gone token s st c connected);
        })
