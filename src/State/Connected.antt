-- ===== src/State/Connected.antt =====
-- The connections that the relay keeps are those of sessions that run: crates/server/src/state.rs.
use gamenet.Base.{
  ℕ, ◌≡◌, refl, sym, ap, subst, ◌∙◌, Bool, true, false, Option, none, some, List, [], ◌∷◌, inl, inr,
  arith, if◌then◌else◌, Result, ok, err,
}
use gamenet.HashMap.{HashMap, get, insert, get-insert_self, get-insert_ne}
use gamenet.Address.{IpAddr}
use gamenet.Errors.{Error}
use gamenet.Lease.{
  TokenId, dec_token, SessionId, LeaseTable, reap_expired, candidate_ports, candidates,
  activate_with_recovery,
}
use gamenet.Lease.Records.{LeaseRecord}
use gamenet.Lease.Live.{
  IsLive, reap_expired-IsLive, IsActivated, activate_with_recovery-IsActivated,
}
use gamenet.State.{
  SaveOutcome, written, not_written, written_unsynced, BindOutcome, ServerState, save, connect,
  finish_registration, try_ports, try_candidates, register_with_recovery,
}
use gamenet.State.Runs.{BindOutcome-cases}

module _ {C : Type 0} where
  -- Every connection is kept under the session of its identity, which runs.
  pub record IsConnected (t : LeaseTable) (m : HashMap TokenId (SessionId × C)) : Type 0 where
    pub live :
        (k : TokenId) (s : SessionId) (c : C) → get dec_token k m ≡ some (s, c) → IsLive t k s

  abbrev pub Connected : ServerState C → Type 0
  Connected st = IsConnected st.leases st.active_connections

  pub reaped-IsConnected :
      (t : LeaseTable) (now : ℕ) (m : HashMap TokenId (SessionId × C))
      → IsConnected t m
      → IsConnected (reap_expired t now) m
  reaped-IsConnected t now m h = record {
    live = λ k s c e. reap_expired-IsLive t now k s (h.live k s c e);
  }

  pub save-Connected :
      {A : Type 0} (o : SaveOutcome) (records : List LeaseRecord) (fails st : ServerState C) (a : A)
      → Connected fails
      → Connected st
      → Connected (save o records fails st a).0
  unfolding save
  save-Connected written records fails st a f h = record { live = h.live }
  save-Connected (not_written e) records fails st a f h = record { live = f.live }
  save-Connected (written_unsynced e) records fails st a f h = record { live = f.live }

  activated-IsConnected :
      (t t' : LeaseTable) (token : TokenId) (s : SessionId) (o : Option C)
      (m : HashMap TokenId (SessionId × C))
      → IsActivated t t' token s
      → IsConnected t m
      → IsConnected t' (connect token s o m)
  activated-IsConnected t t' token s none m a h = record {
    live = λ k s' c e.
        a.others k s' (λ z. a.idle s' (subst (λ x. IsLive t x s') z (h.live k s' c e)))
          (h.live k s' c e);
  }
  activated-IsConnected t t' token s (some c₀) m a h = record {
    live = λ k s' c e. elim (dec_token token k) [
      | yes z ↦
          let q : some (s, c₀) ≡ some (s', c) =
            sym (get-insert_self dec_token token (s, c₀) m)
            ∙ ap (λ x. get dec_token x (insert dec_token token (s, c₀) m)) z
            ∙ e in
          let same : s ≡ s' = ground (arith, q) in
          subst (λ x. IsLive t' x s') z (subst (λ x. IsLive t' token x) same a.own)
      | no n ↦
          let old = h.live k s' c (sym (get-insert_ne dec_token token k (s, c₀) m n) ∙ e) in
          a.others k s' (λ z. n (sym z)) old
    ];
  }

  finish_registration-Connected :
      (st : ServerState C) (token : TokenId) (r : Option TokenId) (ip : IpAddr) (now : ℕ)
      (o : Option C) (outcome : SaveOutcome) (port : ℕ)
      → Connected st
      → Connected
          (finish_registration st token now o outcome port
            (activate_with_recovery st.leases token r ip port now)).0
  unfolding finish_registration
  finish_registration-Connected st token r ip now o outcome port h =
      go (activate_with_recovery st.leases token r ip port now) refl
    where
      go :
          (staged : LeaseTable × Result Error SessionId)
          → activate_with_recovery st.leases token r ip port now ≡ staged
          → Connected (finish_registration st token now o outcome port staged).0
      go (t, err e) q = h
      go (t, ok s) q = save-Connected outcome _ st _ _ h (
          activated-IsConnected (reap_expired st.leases now) t token s o st.active_connections
            (activate_with_recovery-IsActivated st.leases token r ip port now t s q)
            (reaped-IsConnected st.leases now st.active_connections h))

  try_ports-Connected :
      (st : ServerState C) (token : TokenId) (r : Option TokenId) (ip : IpAddr) (now : ℕ)
      (c : Option C) (bind : ℕ → BindOutcome) (o : SaveOutcome) (ports : List ℕ)
      → Connected st
      → Connected (try_ports st token r ip now c bind o ports).0
  unfolding try_ports
  try_ports-Connected st token r ip now c bind o [] h = h
  try_ports-Connected st token r ip now c bind o (p ∷ ps) h = elim (BindOutcome-cases (bind p)) [
    | inl e ↦ rw (e, try_ports) (finish_registration-Connected st token r ip now c o p h)
    | inr (inl e) ↦ rw (e, try_ports) (try_ports-Connected st token r ip now c bind o ps h)
    | inr (inr (x, e)) ↦ rw (e, try_ports) h
  ]

  pub if-Connected :
      {A : Type 0} (b : Bool) (x y : ServerState C × A)
      → Connected x.0
      → Connected y.0
      → Connected (if b then x else y).0
  if-Connected true x y h k = h
  if-Connected false x y h k = k

  pub register-Connected :
      (st : ServerState C) (token : TokenId) (r : Option TokenId) (ip : IpAddr) (now : ℕ)
      (c : Option C) (bind : ℕ → BindOutcome) (o : SaveOutcome)
      → Connected st
      → Connected (register_with_recovery st token r ip now c bind o).0
  unfolding register_with_recovery candidate_ports
  register-Connected st token r ip now c bind o h =
      if-Connected st.persistence_healthy _ _
        (go (candidates (reap_expired st.leases now) token ip)) h
    where
      reaped : ServerState C
      reaped = record st { leases = reap_expired st.leases now }

      kept : Connected reaped
      kept = reaped-IsConnected st.leases now st.active_connections h

      go :
          (ports : Result Error (List ℕ))
          → Connected (try_candidates reaped token r ip now c bind o ports).0
      go (ok ports) =
          unfold try_candidates in try_ports-Connected reaped token r ip now c bind o ports kept
      go (err e) = unfold try_candidates in kept
