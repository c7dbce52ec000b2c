-- ===== src/Relay/Serving/Returning.antt =====
-- A host whose tunnel the relay has cleaned up gets its port back: crates/server/src/relay.rs.
use gamenet.Base.{ℕ, ◌<◌, ◌≡◌, refl, sym, subst, some, List, All, saturating_add}
use gamenet.HashMap.{get}
use gamenet.Address.{IpAddr, host_source}
use gamenet.Errors.{Error}
use gamenet.Lease.{dec_token, active, grace_ms, Lease}
use gamenet.Lease.Promised.{IsOther}
use gamenet.Lease.Runs.{step-IsWellFormed}
use gamenet.Lease.WellFormed.{IsWellFormed}
use gamenet.State.{ServerState, SaveOutcome}
use gamenet.State.Ending.{ended}
use gamenet.State.Runs.{Allows, run-keeps}
use gamenet.State.Promise.{Holds, IsPromised, run-Holds, end-Holds, held-IsPromised}
use gamenet.Tunnel.{Tunnel, cleanup}
use gamenet.Relay.Serving.{Serving, Event, cleans_up, serve, pick, step, run}
use gamenet.Relay.Serving.Requests.{history, run-Refines}

module _ {C : Type 0} (sha256 : List ℕ → List ℕ) (to_string : Error → List ℕ) where
  served-IsWellFormed :
      (st : ServerState C) (es : List (Event C))
      → IsWellFormed st.leases
      → IsWellFormed (run sha256 to_string (serve st) es).state.leases
  unfolding serve
  served-IsWellFormed st es w =
      subst (λ (x : ServerState C). IsWellFormed x.leases)
        (sym (run-Refines sha256 to_string (serve st) es))
        (run-keeps IsWellFormed (λ t c k. step-IsWellFormed t c k) st
          (history sha256 to_string (serve st) es) w)

  cleaned-Holds :
      (s : Serving C) (n stop : ℕ) (o : SaveOutcome) (t : Tunnel C) (rest : List (Tunnel C))
      (l : Lease)
      → pick n s.stopped ≡ some (t, rest)
      → l.status ≡ active t.session_id
      → Holds t.token_id l s.state.leases
      → Holds t.token_id (ended l stop) (step sha256 to_string s (cleans_up n stop o)).state.leases
  unfolding step cleanup
  cleaned-Holds s n stop o t rest l picked running h =
      rw (picked, step) (end-Holds t.token_id l s.state t.session_id stop o running h)

  -- The relay has served any events from a well-formed state on, and cleans up a tunnel that has
  -- stopped, whose session still runs for its claim. Whatever the relay serves after that, with its
  -- tasks in any order, as long as the requests are those of other hosts: a host that comes back less
  -- than five minutes after the clean-up, from the same network, is offered its port and no other, and
  -- to register it is on that port or fails.
  pub cleans_up-promises :
      (st : ServerState C) (before after : List (Event C)) (n stop back : ℕ) (o : SaveOutcome)
      (t : Tunnel C) (rest : List (Tunnel C)) (l : Lease) (ip ip' : IpAddr)
      → IsWellFormed st.leases
      → pick n (run sha256 to_string (serve st) before).stopped ≡ some (t, rest)
      → get dec_token t.token_id (run sha256 to_string (serve st) before).state.leases.leases
        ≡ some l
      → l.status ≡ active t.session_id
      → l.last_ip ≡ some ip
      → All (Allows (IsOther t.token_id (ended l stop))) (
          history sha256 to_string
            (step sha256 to_string (run sha256 to_string (serve st) before) (cleans_up n stop o))
            after)
      → back < saturating_add stop grace_ms
      → host_source ip' ≡ host_source ip
      → IsPromised
          (run sha256 to_string
            (step sha256 to_string (run sha256 to_string (serve st) before) (cleans_up n stop o))
            after).state
          t.token_id
          ip'
          back
          l.port
  cleans_up-promises st before after n stop back o t rest l ip ip' w picked found running seen
        others early near =
      let s = run sha256 to_string (serve st) before in
      let s' = step sha256 to_string s (cleans_up n stop o) in
      let held =
        cleaned-Holds s n stop o t rest l picked running (served-IsWellFormed st before w, found) in
      let later =
        run-Holds t.token_id (ended l stop) s'.state (history sha256 to_string s' after) others
          held in
      held-IsPromised (run sha256 to_string s' after).state t.token_id (ended l stop)
        (saturating_add stop grace_ms) back ip ip'
        (subst (λ (x : ServerState C). Holds t.token_id (ended l stop) x.leases)
          (sym (run-Refines sha256 to_string s' after)) later)
        refl early seen near
