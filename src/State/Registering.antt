-- ===== src/State/Registering.antt =====
-- What a registration answers: a bound port whose lease is on disk, or an error that commits nothing.
use gamenet.Base.{
  ℕ, ◌≡◌, refl, ap, ◌⊎◌, Bool, true, false, Option, some, List, [], ◌∷◌, inl, inr, if◌then◌else◌,
  Result, ok, err, arith,
}
use gamenet.HashMap.{get, get-insert_self}
use gamenet.Address.{IpAddr}
use gamenet.Errors.{Error, storage_unavailable}
use gamenet.Lease.{
  TokenId, dec_token, SessionId, active, Lease, LeaseTable, reap_expired, candidates,
  candidate_ports, activate_reaped, activate_with_recovery, commit,
}
use gamenet.Lease.Records.{LeaseRecord, snapshot}
use gamenet.Lease.WellFormed.Activate.{activated, activate_reaped-eq-ok}
use gamenet.State.{
  SaveOutcome, written, not_written, written_unsynced, BindOutcome, bound, ServerState,
  Registration, save, finish_registration, try_ports, try_candidates, register_with_recovery,
}
use gamenet.State.Runs.{BindOutcome-cases}

-- The lease of an activation.
activate_with_recovery-get :
    (t : LeaseTable) (token : TokenId) (r : Option TokenId) (ip : IpAddr) (port now : ℕ)
    (t' : LeaseTable) (s : SessionId)
    → activate_with_recovery t token r ip port now ≡ (t', ok s)
    → (l : Lease) × (get dec_token token t'.leases ≡ some l)
      × (l.port ≡ port)
      × (l.status ≡ active s)
      × (l.last_ip ≡ some ip)
unfolding activate_with_recovery
activate_with_recovery-get t token r ip port now t' s h =
    go (activate_reaped (reap_expired t now) token r ip port) refl h
  where
    go :
        (c : Result Error (LeaseTable × SessionId))
        → activate_reaped (reap_expired t now) token r ip port ≡ c
        → commit (reap_expired t now) c ≡ (t', ok s)
        → (l : Lease) × (get dec_token token t'.leases ≡ some l)
          × (l.port ≡ port)
          × (l.status ≡ active s)
          × (l.last_ip ≡ some ip)
    go (err e) c q = absurd (ground arith)
    go (ok (u, s')) c q =
        let (ports, _, _, _, _, _, made) =
          activate_reaped-eq-ok (reap_expired t now) token r ip port u s' c in
        let same : t' ≡ u = ground arith in
        let session : s' ≡ s = ground arith in
        let lease = activated (get dec_token token (reap_expired t now).leases) r ip port s' in
        (
          lease,
          rw same (rw made (get-insert_self dec_token token lease _)),
          refl,
          ap active session,
          refl,
        )

module _ {C : Type 0} where
  pub save-eq-ok :
      {A : Type 0} (o : SaveOutcome) (records : List LeaseRecord) (fails st st' : ServerState C)
      (a b : A)
      → save o records fails st a ≡ (st', ok b)
      → (st' ≡ record st { disk = records }) × (b ≡ a)
  unfolding save
  save-eq-ok written records fails st st' a b h = (ground arith, ground arith)
  save-eq-ok (not_written e) records fails st st' a b h = absurd (ground arith)
  save-eq-ok (written_unsynced e) records fails st st' a b h = absurd (ground arith)

  pub save-eq-err :
      {A : Type 0} (o : SaveOutcome) (records : List LeaseRecord) (fails st st' : ServerState C)
      (a : A) (e : Error)
      → save o records fails st a ≡ (st', err e)
      → (st'.leases ≡ fails.leases)
        × (st'.active_connections ≡ fails.active_connections)
        × (st'.persistence_healthy ≡ false)
  unfolding save
  save-eq-err written records fails st st' a e h = absurd (ground arith)
  save-eq-err (not_written x) records fails st st' a e h =
      (ground arith, ground arith, ground arith)
  save-eq-err (written_unsynced x) records fails st st' a e h =
      (ground arith, ground arith, ground arith)

  module _ (token : TokenId) (r : Option TokenId) (ip : IpAddr) (now : ℕ) (c : Option C)
      (bind : ℕ → BindOutcome) (o : SaveOutcome) where
    -- What a host that is told `TunnelReady` may rely on.
    pub record IsRegistered (st' : ServerState C) (reg : Registration) : Type 0 where
      pub named : reg.token_id ≡ token
      pub listening : bind reg.public_port ≡ bound
      pub durable : st'.disk ≡ snapshot st'.leases now
      pub lease : Lease
      pub found : get dec_token token st'.leases.leases ≡ some lease
      pub port : lease.port ≡ reg.public_port
      pub running : lease.status ≡ active reg.session_id
      pub seen : lease.last_ip ≡ some ip
      pub connected :
          (c' : C)
          → c ≡ some c'
          → get dec_token token st'.active_connections ≡ some (reg.session_id, c')

    finish_registration-IsRegistered :
        (st : ServerState C) (port : ℕ) (st' : ServerState C) (reg : Registration)
        → bind port ≡ bound
        → finish_registration st token now c o port
            (activate_with_recovery st.leases token r ip port now)
          ≡ (st', ok reg)
        → IsRegistered st' reg
    unfolding finish_registration
    finish_registration-IsRegistered st port st' reg b h =
        go (activate_with_recovery st.leases token r ip port now) refl h
      where
        go :
            (staged : LeaseTable × Result Error SessionId)
            → activate_with_recovery st.leases token r ip port now ≡ staged
            → finish_registration st token now c o port staged ≡ (st', ok reg)
            → IsRegistered st' reg
        go (t, err e) q k = absurd (ground arith)
        go (t, ok s) q k =
            let (l, found, at_port, running, seen) =
              activate_with_recovery-get st.leases token r ip port now t s q in
            let (same, answer) = save-eq-ok o _ _ _ st' _ reg k in
            rw (same, answer)
              (record {
                named = refl;
                listening = b;
                durable = refl;
                lease = l;
                found = found;
                port = at_port;
                running = running;
                seen = seen;
                connected =
                    λ c' e. rw e (get-insert_self dec_token token (s, c') st.active_connections);
              })

    try_ports-IsRegistered :
        (st : ServerState C) (ports : List ℕ) (st' : ServerState C) (reg : Registration)
        → try_ports st token r ip now c bind o ports ≡ (st', ok reg)
        → IsRegistered st' reg
    unfolding try_ports
    try_ports-IsRegistered st [] st' reg h = absurd (ground arith)
    try_ports-IsRegistered st (p ∷ ps) st' reg h = elim (BindOutcome-cases (bind p)) [
      | inl e ↦ finish_registration-IsRegistered st p st' reg e (rw (e, try_ports) at h)
      | inr (inl e) ↦ try_ports-IsRegistered st ps st' reg (rw (e, try_ports) at h)
      | inr (inr (x, e)) ↦ absurd (ground arith)
    ]

    -- A registration that succeeds names the identity that asked, on a port that was bound; the
    -- saved records are those of the lease table, which holds the port for the identity under the
    -- session of the answer, charged to the address that asked.
    pub register_with_recovery-IsRegistered :
        (st st' : ServerState C) (reg : Registration)
        → register_with_recovery st token r ip now c bind o ≡ (st', ok reg)
        → IsRegistered st' reg
    unfolding register_with_recovery try_candidates
    register_with_recovery-IsRegistered st st' reg h =
        go st.persistence_healthy (candidate_ports st.leases token ip now).1 h
      where
        reaped : ServerState C
        reaped = record st { leases = (candidate_ports st.leases token ip now).0 }

        go :
            (healthy : Bool) (ports : Result Error (List ℕ))
            → (if healthy
                then try_candidates reaped token r ip now c bind o ports
                else (st, err storage_unavailable))
              ≡ (st', ok reg)
            → IsRegistered st' reg
        go true (ok ports) k = try_ports-IsRegistered reaped ports st' reg k
        go true (err e) k = absurd (ground arith)
        go false ports k = absurd (ground arith)

    -- The leases and the connections of one state are those of another.
    abbrev Kept : ServerState C → ServerState C → Type 0
    Kept st st' = (st'.leases ≡ st.leases) × (st'.active_connections ≡ st.active_connections)

    finish_registration-Kept :
        (st : ServerState C) (port : ℕ) (st' : ServerState C) (e : Error)
        (staged : LeaseTable × Result Error SessionId)
        → finish_registration st token now c o port staged ≡ (st', err e)
        → Kept st st'
    unfolding finish_registration
    finish_registration-Kept st port st' e (t, err x) h = (ground arith, ground arith)
    finish_registration-Kept st port st' e (t, ok s) h =
        let (l, a, _) = save-eq-err o _ st _ st' _ e h in (l, a)

    try_ports-Kept :
        (st : ServerState C) (ports : List ℕ) (st' : ServerState C) (e : Error)
        → try_ports st token r ip now c bind o ports ≡ (st', err e)
        → Kept st st'
    unfolding try_ports
    try_ports-Kept st [] st' e h = (ground arith, ground arith)
    try_ports-Kept st (p ∷ ps) st' e h = elim (BindOutcome-cases (bind p)) [
      | inl b ↦
          finish_registration-Kept st p st' e (activate_with_recovery st.leases token r ip p now)
            (rw (b, try_ports) at h)
      | inr (inl b) ↦ try_ports-Kept st ps st' e (rw (b, try_ports) at h)
      | inr (inr (x, b)) ↦ (ground arith, ground arith)
    ]

    -- A registration that fails, for whatever reason, commits no port: the leases are those from
    -- before, at most with the expired ones gone, and so are the connections.
    pub register_with_recovery-err :
        (st st' : ServerState C) (e : Error)
        → register_with_recovery st token r ip now c bind o ≡ (st', err e)
        → ((st'.leases ≡ st.leases) ⊎ (st'.leases ≡ reap_expired st.leases now))
          × (st'.active_connections ≡ st.active_connections)
    unfolding register_with_recovery try_candidates candidate_ports
    register_with_recovery-err st st' e h =
        go st.persistence_healthy (candidates (reap_expired st.leases now) token ip) h
      where
        reaped : ServerState C
        reaped = record st { leases = reap_expired st.leases now }

        go :
            (healthy : Bool) (ports : Result Error (List ℕ))
            → (if healthy
                then try_candidates reaped token r ip now c bind o ports
                else (st, err storage_unavailable))
              ≡ (st', err e)
            → ((st'.leases ≡ st.leases) ⊎ (st'.leases ≡ reap_expired st.leases now))
              × (st'.active_connections ≡ st.active_connections)
        go true (ok ports) k = let (l, a) = try_ports-Kept reaped ports st' e k in (inr l, a)
        go true (err x) k = (inr (ground arith), ground arith)
        go false ports k = (inl (ground arith), ground arith)
