-- ===== src/Relay/Serving/Draining.antt =====
-- What is left of the tasks once the hosts are gone: crates/server/src/relay.rs.
use gamenet.Base.{
  ℕ, ◌≡◌, refl, sym, ap, subst, ◌∙◌, List, [], ◌∷◌, ◌++◌, inl, inr, arith, ok, ◌+◌, All, All-append,
  holds_of, length, true,
}
use gamenet.Address.{HostSource, dec_source}
use gamenet.Admission.{active_for}
use gamenet.Admission.Slots.{held, give_back}
use gamenet.Errors.{Error}
use gamenet.Lease.{TokenId, SessionId, LeaseTable}
use gamenet.Lease.Live.{IsLive}
use gamenet.Lease.Records.{LeaseRecord, restore}
use gamenet.Lease.Sessions.{RunsOnly-IsLive}
use gamenet.State.{ServerState, SaveOutcome, load_or_new}
use gamenet.Tunnel.{Tunnel, PendingRegistration, abort_players}
use gamenet.Tunnel.Running.{closed, run_round, accept_players}
use gamenet.Relay.{pending_limit, global_player_limit}
use gamenet.Relay.Serving.{
  Serving, Answering, Event, refreshes, arrives, gives_up, registers, settles, tunnel, cleans_up,
  cancels, pick, is_waiting, step, run, serve,
}
use gamenet.Relay.Serving.Tasks.{sum}
use gamenet.Relay.Serving.Permits.{sources}
use gamenet.Relay.Serving.Owners.{Owns, IsOwned}
use gamenet.Relay.Serving.Owned.{serve-IsOwned, run-IsOwned}
use gamenet.Relay.Serving.Shared.{IsShared, players_of, run-IsShared, run-serve-IsShared}

-- No task is left.
pub record IsDone {C : Type 0} (s : Serving C) : Type 0 where
  pub waiting : s.waiting ≡ []
  pub answering : s.answering ≡ []
  pub tunnels : s.tunnels ≡ []
  pub stopped : s.stopped ≡ []
  pub canceled : s.canceled ≡ []

-- No session runs, and every permit is back: those of the relay, of each network, and of players.
pub record IsQuiet {C : Type 0} (s : Serving C) : Type 0 where
  pub done : IsDone s
  pub no_session : (k : TokenId) (n : SessionId) → ¬ IsLive s.state.leases k n
  pub pending : s.admission.pending ≡ pending_limit
  pub networks : (source : HostSource) → active_for s.admission.pending_by_ip source ≡ 0
  pub players : s.global_players ≡ global_player_limit

-- What the relay does by itself once the connections of hosts have closed: registrations run into
-- their time-out or end, tunnels whose connection is closed stop, and at `now` the clean-ups run,
-- with this outcome of their writes.
abbrev pub IsOwn : {C : Type 0} → ℕ → SaveOutcome → Event C → Type 0
IsOwn now save (refreshes now' save') = ⊥
IsOwn now save (arrives ip) = ⊥
IsOwn now save (gives_up source) = Unit {0}
IsOwn now save (registers a m) = ⊥
IsOwn now save (settles n) = Unit {0}
IsOwn now save (tunnel n e) = e ≡ closed
IsOwn now save (cleans_up n now' save') = (now' ≡ now) × (save' ≡ save)
IsOwn now save (cancels n now' save') = (now' ≡ now) × (save' ≡ save)

module _ {C : Type 0} (sha256 : List ℕ → List ℕ) (to_string : Error → List ℕ) (now : ℕ)
    (save : SaveOutcome) where
  -- Steps of the relay's own that lead to what is wanted.
  abbrev Leads : (Serving C → Type 0) → Serving C → Type 0
  Leads P s = (es : List (Event C)) × All (IsOwn now save) es × P (run sha256 to_string s es)

  move_on :
      (P : Serving C → Type 0) (s : Serving C) (e : Event C)
      → IsOwn now save e
      → Leads P (step sha256 to_string s e)
      → Leads P s
  unfolding run
  move_on P s e own (es, owns, p) = (e ∷ es, (own, owns), p)

  stay_here : (P : Serving C → Type 0) (s : Serving C) → P s → Leads P s
  unfolding run
  stay_here P s p = ([], tt, p)

  -- Each stage leaves no task of one kind, and those before it as they were.
  abbrev NoneWaits : Serving C → Type 0
  NoneWaits s = s.waiting ≡ []

  first_waits :
      (s : Serving C) (x : HostSource) (xs : List HostSource)
      → s.waiting ≡ x ∷ xs
      → is_waiting s x ≡ true
  unfolding is_waiting
  first_waits s x xs e = ground (arith, ap (held x) e, holds_of (dec_source x x) refl)

  give_up-first :
      (s : Serving C) (x : HostSource) (xs : List HostSource)
      → s.waiting ≡ x ∷ xs
      → (step sha256 to_string s (gives_up x)).waiting ≡ xs
  unfolding step
  give_up-first s x xs e =
      rw (first_waits s x xs e, step)
        (ap (give_back x) e ∙ rw (holds_of (dec_source x x) refl) refl)

  give_up_all : (xs : List HostSource) (s : Serving C) → s.waiting ≡ xs → Leads NoneWaits s
  give_up_all [] s e = stay_here NoneWaits s e
  give_up_all (x ∷ xs) s e =
      move_on NoneWaits s (gives_up x) tt
        (give_up_all xs (step sha256 to_string s (gives_up x)) (give_up-first s x xs e))

  abbrev NoneAnswers : Serving C → Type 0
  NoneAnswers s = NoneWaits s × (s.answering ≡ [])

  settle_all :
      (xs : List (Answering C)) (s : Serving C)
      → s.answering ≡ xs
      → NoneWaits s
      → Leads NoneAnswers s
  unfolding step pick
  settle_all [] s e before = stay_here NoneAnswers s (before, e)
  settle_all (a ∷ xs) s e before =
      let s' = step sha256 to_string s (settles 0) in
      let next : s'.answering ≡ xs = rw (e, step, pick) refl in
      let same : NoneWaits s' = rw (e, step, pick) before in
      move_on NoneAnswers s (settles 0) tt (settle_all xs s' next same)

  abbrev NoneRuns : Serving C → Type 0
  NoneRuns s = NoneAnswers s × (s.tunnels ≡ [])

  close_all :
      (xs : List (Tunnel C)) (s : Serving C) → s.tunnels ≡ xs → NoneAnswers s → Leads NoneRuns s
  unfolding step pick run_round accept_players abort_players
  close_all [] s e before = stay_here NoneRuns s (before, e)
  close_all (t ∷ xs) s e before =
      let s' = step sha256 to_string s (tunnel 0 closed) in
      let next : s'.tunnels ≡ xs = rw (e, step, pick) refl in
      let same : NoneAnswers s' = rw (e, step, pick) before in
      move_on NoneRuns s (tunnel 0 closed) refl (close_all xs s' next same)

  abbrev NoneStops : Serving C → Type 0
  NoneStops s = NoneRuns s × (s.stopped ≡ [])

  clean_all :
      (xs : List (Tunnel C)) (s : Serving C) → s.stopped ≡ xs → NoneRuns s → Leads NoneStops s
  unfolding step pick
  clean_all [] s e before = stay_here NoneStops s (before, e)
  clean_all (t ∷ xs) s e before =
      let s' = step sha256 to_string s (cleans_up 0 now save) in
      let next : s'.stopped ≡ xs = rw (e, step, pick) refl in
      let same : NoneRuns s' = rw (e, step, pick) before in
      move_on NoneStops s (cleans_up 0 now save) (refl, refl) (clean_all xs s' next same)

  cancel_all :
      (xs : List PendingRegistration) (s : Serving C)
      → s.canceled ≡ xs
      → NoneStops s
      → Leads IsDone s
  unfolding step pick
  cancel_all [] s e (((none_waits, none_answers), none_runs), none_stops) =
      stay_here IsDone s (record {
        waiting = none_waits;
        answering = none_answers;
        tunnels = none_runs;
        stopped = none_stops;
        canceled = e;
      })
  cancel_all (p ∷ xs) s e before =
      let s' = step sha256 to_string s (cancels 0 now save) in
      let next : s'.canceled ≡ xs = rw (e, step, pick) refl in
      let same : NoneStops s' = rw (e, step, pick) before in
      move_on IsDone s (cancels 0 now save) (refl, refl) (cancel_all xs s' next same)

  run-append :
      (s : Serving C) (es fs : List (Event C))
      → run sha256 to_string s (es ++ fs) ≡ run sha256 to_string (run sha256 to_string s es) fs
  unfolding run
  run-append s [] fs = refl
  run-append s (e ∷ es) fs = run-append (step sha256 to_string s e) es fs

  -- One stage after another.
  move_further :
      (P Q : Serving C → Type 0) (s : Serving C)
      → Leads P s
      → ((s' : Serving C) → P s' → Leads Q s')
      → Leads Q s
  move_further P Q s (es, owns, p) further =
      let (fs, more, q) = further (run sha256 to_string s es) p in
      (es ++ fs, All-append (IsOwn now save) es fs owns more, subst Q (sym (run-append s es fs)) q)

  drain : (s : Serving C) → Leads IsDone s
  drain s =
      let waited = give_up_all s.waiting s refl in
      let settled = move_further _ NoneAnswers s waited (λ x. settle_all x.answering x refl) in
      let stopped = move_further _ NoneRuns s settled (λ x. close_all x.tunnels x refl) in
      let cleaned = move_further _ NoneStops s stopped (λ x. clean_all x.stopped x refl) in
      move_further _ IsDone s cleaned (λ x. cancel_all x.canceled x refl)

  IsDone-IsQuiet : (s : Serving C) → IsDone s → IsOwned s → IsShared s → IsQuiet s
  IsDone-IsQuiet s d o h = record {
    done = d;
    no_session =
        λ k n live. nobody k n (RunsOnly-IsLive (Owns s) s.state.leases k n o.sessions live);
    pending = omega (
      arith,
      h.registering.permits,
      ap (λ (xs : List HostSource). length xs) d.waiting,
      ap (λ (xs : List (Answering C)). length xs) d.answering,
    );
    networks = λ source. h.registering.counted source ∙ nothing_held source;
    players = omega (arith, ap (λ ts. sum players_of ts) d.tunnels, h.shared);
  }
    where
      nothing_held :
          (source : HostSource) → held source s.waiting + held source (sources s.answering) ≡ 0
      nothing_held source = rw (d.waiting, d.answering) refl

      nobody : (k : TokenId) (n : SessionId) → ¬ Owns s k n
      nobody k n (inl x) = rw d.answering at x
      nobody k n (inr (inl x)) = rw d.tunnels at x
      nobody k n (inr (inr (inl x))) = rw d.stopped at x
      nobody k n (inr (inr (inr x))) = rw d.canceled at x

  -- Wherever the relay has got to since its start, once the connections of its hosts close it comes to
  -- rest by steps of its own, at any time `now` and with any outcome `save` of its writes, also when
  -- none succeeds: the registrations run into their time-out or end, the tunnels stop, and the
  -- clean-ups run. Then no task is left, no session runs, and every permit is back, those for
  -- connections that have not registered and those of players.
  pub run-serve-drains :
      (records saved : List LeaseRecord) (start : ℕ) (t : LeaseTable) (st : ServerState C)
      (es : List (Event C))
      → restore records start ≡ ok t
      → load_or_new saved (ok t) ≡ ok st
      → (more : List (Event C)) × All (IsOwn now save) more
        × IsQuiet (run sha256 to_string (run sha256 to_string (serve st) es) more)
  run-serve-drains records saved start t st es restored started =
      let s = run sha256 to_string (serve st) es in
      let (more, owns, d) = drain s in
      let owned =
        run-IsOwned sha256 to_string (serve st) es
          (serve-IsOwned sha256 to_string records saved start t st restored started) in
      (
        more,
        owns,
        IsDone-IsQuiet (run sha256 to_string s more) d (run-IsOwned sha256 to_string s more owned)
            (run-IsShared sha256 to_string s more (run-serve-IsShared sha256 to_string st es)),
      )
