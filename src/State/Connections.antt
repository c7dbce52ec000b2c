-- ===== src/State/Connections.antt =====
-- Every request keeps the connections those of sessions that run: crates/server/src/state.rs.
use gamenet.Base.{
  ℕ, ◌≡◌, refl, sym, ap, ◌∙◌, ◌≢◌, Bool, true, false, Option, none, some, List, [], ◌∷◌, ◌==◌,
  arith, if◌then◌else◌, Result, ok, err,
}
use gamenet.HashMap.{HashMap, get, remove, get-remove_self, get-remove_ne}
use gamenet.Address.{IpAddr}
use gamenet.Errors.{Error}
use gamenet.Lease.{TokenId, dec_token, SessionId, LeaseTable, end as end_lease}
use gamenet.Lease.Claims.{
  RotationResult, transferred, unchanged, RecoveryResult, rotate_claim, recover_claim,
}
use gamenet.Lease.WellFormed.{IsWellFormed}
use gamenet.Lease.Live.{reap_expired-IsLive, end-IsLive}
use gamenet.Lease.Live.Moved.{rotate_claim-IsLive, recover_claim-IsLive}
use gamenet.State.{
  SaveOutcome, ServerState, disconnect, end, finish_rotation, rotate, finish_recovery, recover,
  without_displaced, refresh_and_save,
}
use gamenet.Lease.Runs.{step-IsWellFormed}
use gamenet.State.Runs.{
  run, step-keeps, Request, registers, ends, rotates, recovers, refreshes, step,
}
use gamenet.State.Connected.{
  Connected, reaped-IsConnected, save-Connected, if-Connected, register-Connected,
}

module _ {C : Type 0} where
  nothing : (s : SessionId) (c : C) → ¬ (◌≡◌ {A = Option (SessionId × C)} none (some (s, c)))
  nothing s c e = cc

  -- What is left has another identity or another session.
  disconnect-others :
      (token k : TokenId) (s s' : SessionId) (m : HashMap TokenId (SessionId × C)) (c : C)
      → get dec_token k (disconnect token s m) ≡ some (s', c)
      → (get dec_token k m ≡ some (s', c)) × (¬ ((k ≡ token) × (s' ≡ s)))
  unfolding disconnect
  disconnect-others token k s s' m c h = go (get dec_token token m) refl
    where
      Left : Type 0
      Left = (get dec_token k m ≡ some (s', c)) × (¬ ((k ≡ token) × (s' ≡ s)))

      at_token : k ≡ token → get dec_token k m ≡ some (s', c) → get dec_token token m ≡ some (s', c)
      at_token z e = ap (λ x. get dec_token x m) (sym z) ∙ e

      found :
          (current : SessionId) (c₀ : C)
          → get dec_token token m ≡ some (current, c₀)
          → (b : Bool) → (current == s) ≡ b
          → get dec_token k (if b then remove dec_token token m else m) ≡ some (s', c)
          → Left
      found current c₀ e true q g = elim (dec_token token k) [
        | yes z ↦
            let gone : ◌≡◌ {A = Option (SessionId × C)} none (some (s', c)) =
              sym (get-remove_self dec_token token m)
              ∙ ap (λ x. get dec_token x (remove dec_token token m)) z
              ∙ g in
            absurd (nothing s' c gone)
        | no n ↦ (sym (get-remove_ne dec_token token k m n) ∙ g, λ z. n (sym z.0))
      ]
      found current c₀ e false q g = (
        g,
        λ z.
            let same : some (current, c₀) ≡ some (s', c) = sym e ∙ at_token z.0 g in
            let now : current ≡ s' = ground (arith, same) in
            let last : current ≡ s = now ∙ z.1 in ground (arith, last, q),
      )

      go : (o : Option (SessionId × C)) → get dec_token token m ≡ o → Left
      go none e = let g = rw (e, disconnect) at h in (g, λ z. nothing s' c (sym e ∙ at_token z.0 g))
      go (some (current, c₀)) e = found current c₀ e (current == s) refl (rw (e, disconnect) at h)

  end-Connected :
      (st : ServerState C) (token : TokenId) (s : SessionId) (now : ℕ) (o : SaveOutcome)
      → Connected st
      → Connected (end st token s now o).0
  unfolding end
  end-Connected st token s now o h =
      if-Connected (end_lease st.leases token s now).1 _ _
        (save-Connected o _ ended ended true left left) h
    where
      ended : ServerState C
      ended = record st {
        leases = (end_lease st.leases token s now).0;
        active_connections = disconnect token s st.active_connections;
      }

      left : Connected ended
      left = record {
        live = λ k s' c e.
            let (there, other) = disconnect-others token k s s' st.active_connections c e in
            end-IsLive st.leases token k s s' now other (h.live k s' c there);
      }

  rotate-Connected :
      (st : ServerState C) (old new : TokenId) (now : ℕ) (o : SaveOutcome)
      → Connected st
      → Connected (rotate st old new now o).0
  unfolding rotate finish_rotation
  rotate-Connected st old new now o h =
      if-Connected st.persistence_healthy _ _ (go (rotate_claim st.leases old new now) refl) h
    where
      go :
          (staged : LeaseTable × Result Error RotationResult)
          → rotate_claim st.leases old new now ≡ staged
          → Connected (finish_rotation st now o staged).0
      go (t, err e) q = h
      go (t, ok (unchanged p)) q = h
      go (t, ok (transferred p)) q = save-Connected o _ st _ _ h (record {
        live = λ k s c e.
            rotate_claim-IsLive st.leases old new now t (transferred p) k s q
              (reap_expired-IsLive st.leases now k s (h.live k s c e));
      })

  without_displaced-others :
      (d : Option (TokenId × SessionId)) (k : TokenId) (s : SessionId)
      (m : HashMap TokenId (SessionId × C)) (c : C)
      → get dec_token k (without_displaced d m) ≡ some (s, c)
      → (get dec_token k m ≡ some (s, c)) × (d ≢ some (k, s))
  without_displaced-others none k s m c h = (h, λ e. cc)
  without_displaced-others (some (old, s₀)) k s m c h =
      let (there, other) = disconnect-others old k s₀ s m c h in
      (
        there,
        λ e.
            let same : k ≡ old = ground (arith, e) in
            let session : s ≡ s₀ = ground (arith, e) in other (same, session),
      )

  recover-Connected :
      (st : ServerState C) (r new : TokenId) (ip : IpAddr) (now : ℕ) (o : SaveOutcome)
      → IsWellFormed st.leases
      → Connected st
      → Connected (recover st r new ip now o).0
  unfolding recover finish_recovery
  recover-Connected st r new ip now o w h =
      if-Connected st.persistence_healthy _ _ (go (recover_claim st.leases r new ip now) refl) h
    where
      go :
          (staged : LeaseTable × Result Error RecoveryResult)
          → recover_claim st.leases r new ip now ≡ staged
          → Connected (finish_recovery st now o staged).0
      go (t, err e) q = h
      go (t, ok result) q =
          if-Connected result.changed _ _
            (save-Connected o _ st _ _ h (record {
              live = λ k s c e.
                  let (there, kept) =
                    without_displaced-others result.displaced k s st.active_connections c e in
                  recover_claim-IsLive st.leases r new ip now t result k s w q kept
                    (reap_expired-IsLive st.leases now k s (h.live k s c there));
            }))
            h

  step-Connected :
      (st : ServerState C) (q : Request C)
      → IsWellFormed st.leases
      → Connected st
      → Connected (step st q)
  unfolding step refresh_and_save
  step-Connected st (registers token r ip now c bind o) w h =
      register-Connected st token r ip now c bind o h
  step-Connected st (ends token s now o) w h = end-Connected st token s now o h
  step-Connected st (rotates old new now o) w h = rotate-Connected st old new now o h
  step-Connected st (recovers r new ip now o) w h = recover-Connected st r new ip now o w h
  step-Connected st (refreshes now o) w h =
      let kept = reaped-IsConnected st.leases now st.active_connections h in
      save-Connected o _ _ _ tt (record { live = kept.live }) (record { live = kept.live })

  -- From a state whose lease table is well formed, and that keeps connections only under the sessions
  -- of their identities that run, every sequence of requests leads to such a state, whatever the
  -- outcomes of writes and binds: no connection of a session that has ended or was displaced stays.
  pub run-Connected :
      (st : ServerState C) (qs : List (Request C))
      → IsWellFormed st.leases
      → Connected st
      → IsWellFormed (run st qs).leases × Connected (run st qs)
  unfolding run
  run-Connected st [] w h = (w, h)
  run-Connected st (q ∷ qs) w h =
      run-Connected (step st q) qs
        (step-keeps IsWellFormed (λ t c k. step-IsWellFormed t c k) st q w)
        (step-Connected st q w h)
