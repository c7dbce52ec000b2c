-- ===== src/Relay/Serving/Permits.antt =====
-- Who holds the permits for connections that have not registered: crates/server/src/relay.rs.
use gamenet.Base.{
  ℕ, zero, suc, ◌+◌, ◌≡◌, refl, sym, ◌∙◌, true, false, not, Bool, Option, none, some, List, [], ◌∷◌,
  arith, ◌==◌, holds_of, holds_of_not, length, holds, if◌then◌else◌,
}
use gamenet.Address.{IpAddr, HostSource, host_source, dec_source}
use gamenet.Admission.{PendingByIp, active_for, try_acquire}
use gamenet.Admission.Slots.{held, give_back, held-give_back, held-give_back_ne}
use gamenet.Relay.{
  RelayServer, pending_limit, bind, admit, acquire, accept_incoming, registration_ends,
}
use gamenet.Relay.Admitting.{
  IsAdmitting, bind-IsAdmitting, accept_incoming-IsAdmitting, registration_ends-IsAdmitting,
  length-give_back,
}
use gamenet.Relay.Serving.{Serving, Answering, is_waiting, admitted as admits, pick}
use gamenet.Relay.Serving.Tasks.{sum, sum-pick}

-- The networks of the permits of these registrations.
abbrev pub sources : {C : Type 0} → List (Answering C) → List HostSource
sources [] = []
sources (a ∷ others) = a.source ∷ sources others

-- The tasks that wait for a first message or answer one hold the permits, and no one else: those of
-- the relay that are not left are as many as these tasks, and each network is counted for its own.
pub record IsHeld {C : Type 0} (r : RelayServer) (waiting : List HostSource)
    (answering : List (Answering C)) : Type 0 where
  pub admitted : IsAdmitting r
  pub permits : r.pending + (length waiting + length answering) ≡ pending_limit
  pub tasks :
      (source : HostSource)
      → held source r.registering ≡ held source waiting + held source (sources answering)
  pub counted :
      (source : HostSource)
      → active_for r.pending_by_ip source ≡ held source waiting + held source (sources answering)

-- The counts follow from the rest.
holds_permits :
    {C : Type 0} (r : RelayServer) (waiting : List HostSource) (answering : List (Answering C))
    → IsAdmitting r
    → r.pending + (length waiting + length answering) ≡ pending_limit
    → ((source : HostSource)
        → held source r.registering ≡ held source waiting + held source (sources answering))
    → IsHeld r waiting answering
holds_permits r waiting answering a permits tasks = record {
  admitted = a;
  permits = permits;
  tasks = tasks;
  counted = λ source. a.counted.counted source ∙ tasks source;
}

held-again :
    (s j : HostSource) (xs : List HostSource)
    → (held s xs == 0) ≡ false
    → held j (s ∷ give_back s xs) ≡ held j xs
held-again s j xs h = elim (dec_source s j) [
  | yes p ↦ rw (holds_of (dec_source s j) p) (rw (← p) (ground (arith, held-give_back s xs)))
  | no p ↦ rw (holds_of_not (dec_source s j) p) (held-give_back_ne s j xs p)
]

try_acquire-eq-some :
    (p : PendingByIp) (ip : IpAddr) (p' : PendingByIp) (s : HostSource)
    → try_acquire p ip ≡ (p', some s)
    → s ≡ host_source ip
unfolding try_acquire
try_acquire-eq-some p ip p' s h = ground arith

not_none : (b : Bool) → not b ≡ true → b ≡ false
not_none true h = cc
not_none false h = refl

abbrev one_of : {C : Type 0} → HostSource → Answering C → ℕ
one_of j a = if holds (dec_source a.source j) then 1 else 0

module _ {C : Type 0} where
  held-sources :
      (j : HostSource) (xs : List (Answering C)) → held j (sources xs) ≡ sum (one_of j) xs
  held-sources j [] = refl
  held-sources j (a ∷ xs) = ground (arith, held-sources j xs)

  length-sum : (xs : List (Answering C)) → length xs ≡ sum (λ _. 1) xs
  length-sum [] = refl
  length-sum (a ∷ xs) = omega (arith, length-sum xs)

  held-pick :
      (n : ℕ) (xs : List (Answering C)) (a : Answering C) (rest : List (Answering C))
      (j : HostSource)
      → pick n xs ≡ some (a, rest)
      → held j (sources xs) ≡ held j (a.source ∷ sources rest)
  held-pick n xs a rest j e =
      held-sources j xs ∙ sum-pick (one_of j) n xs a rest e ∙ sym (held-sources j (a ∷ rest))

  length-pick :
      (n : ℕ) (xs : List (Answering C)) (a : Answering C) (rest : List (Answering C))
      → pick n xs ≡ some (a, rest)
      → length xs ≡ suc (length rest)
  length-pick n xs a rest e =
      length-sum xs ∙ sum-pick (λ _. 1) n xs a rest e ∙ sym (length-sum (a ∷ rest))

  -- A task that ends gives its permits back.
  ends-IsHeld :
      (r : RelayServer) (w w' : List HostSource) (xs xs' : List (Answering C)) (s : HostSource)
      → IsHeld r w xs
      → (held s r.registering == 0) ≡ false
      → length w + length xs ≡ suc (length w' + length xs')
      → ((j : HostSource)
          → held j w + held j (sources xs) ≡ held j (s ∷ []) + held j w' + held j (sources xs'))
      → IsHeld (registration_ends r s) w' xs'
  unfolding registration_ends
  ends-IsHeld r w w' xs xs' s h some_held fewer each =
      rw (some_held, registration_ends)
        (holds_permits _ w' xs' (rw some_held at (registration_ends-IsAdmitting r s h.admitted))
          (omega (arith, h.permits, fewer))
          (λ j. ground (arith, held-again s j r.registering some_held, h.tasks j, each j)))

  pub give_up-IsHeld :
      (s : Serving C) (source : HostSource)
      → is_waiting s source ≡ true
      → IsHeld s.admission s.waiting s.answering
      → IsHeld (registration_ends s.admission source) (give_back source s.waiting) s.answering
  unfolding is_waiting
  give_up-IsHeld s source e h =
      let some_waits = not_none (held source s.waiting == 0) e in
      ends-IsHeld s.admission s.waiting (give_back source s.waiting) s.answering s.answering source
        h (ground (arith, h.tasks source))
        (omega (arith, length-give_back source s.waiting some_waits))
        (λ j. ground (arith, held-again source j s.waiting some_waits))

  pub settle-IsHeld :
      (s : Serving C) (n : ℕ) (a : Answering C) (rest : List (Answering C))
      → pick n s.answering ≡ some (a, rest)
      → IsHeld s.admission s.waiting s.answering
      → IsHeld (registration_ends s.admission a.source) s.waiting rest
  settle-IsHeld s n a rest e h =
      ends-IsHeld s.admission s.waiting s.waiting s.answering rest a.source h
        (ground (
          arith,
          h.tasks a.source,
          held-pick n s.answering a rest a.source e,
          holds_of (dec_source a.source a.source) refl,
        ))
        (omega (arith, length-pick n s.answering a rest e))
        (λ j. ground (arith, held-pick n s.answering a rest j e))

  -- The registration goes on with its permits.
  pub registers-IsHeld :
      (s : Serving C) (a : Answering C)
      → is_waiting s a.source ≡ true
      → IsHeld s.admission s.waiting s.answering
      → IsHeld s.admission (give_back a.source s.waiting) (a ∷ s.answering)
  unfolding is_waiting
  registers-IsHeld s a e h =
      let some_waits = not_none (held a.source s.waiting == 0) e in
      holds_permits s.admission (give_back a.source s.waiting) (a ∷ s.answering) h.admitted
        (omega (arith, h.permits, length-give_back a.source s.waiting some_waits))
        (λ j. ground (arith, h.tasks j, held-again a.source j s.waiting some_waits))

  pub arrives-IsHeld :
      (s : Serving C) (ip : IpAddr)
      → IsHeld s.admission s.waiting s.answering
      → IsHeld
          (accept_incoming s.admission ip).0
          (admits s ip (accept_incoming s.admission ip)).waiting
          s.answering
  unfolding accept_incoming
  arrives-IsHeld s ip h =
      go s.admission.pending refl (accept_incoming-IsAdmitting s.admission ip h.admitted)
    where
      of_permit :
          (left : ℕ) (o : PendingByIp × Option HostSource)
          → try_acquire s.admission.pending_by_ip ip ≡ o
          → s.admission.pending ≡ suc left
          → IsAdmitting (admit s.admission left o).0
          → IsHeld
              (admit s.admission left o).0
              (admits s ip (admit s.admission left o)).waiting
              s.answering
      of_permit left (by_ip, none) e q a = holds_permits _ s.waiting s.answering a h.permits h.tasks
      of_permit left (by_ip, some source) e q a =
          let same = try_acquire-eq-some s.admission.pending_by_ip ip by_ip source e in
          holds_permits _ (host_source ip ∷ s.waiting) s.answering a (omega (arith, h.permits, q))
            (λ j. ground (arith, h.tasks j, same))

      go :
          (n : ℕ)
          → s.admission.pending ≡ n
          → IsAdmitting (acquire s.admission ip n).0
          → IsHeld
              (acquire s.admission ip n).0
              (admits s ip (acquire s.admission ip n)).waiting
              s.answering
      go zero q a = h
      go (suc left) q a = of_permit left (try_acquire s.admission.pending_by_ip ip) refl q a

  pub bind-IsHeld : IsHeld {C = C} bind [] []
  unfolding bind
  bind-IsHeld = holds_permits bind [] [] bind-IsAdmitting refl (λ source. refl)
