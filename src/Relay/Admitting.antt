-- ===== src/Relay/Admitting.antt =====
-- The bounds on connections that have not registered, in every order of arrivals and ends.
use gamenet.Base.{
  ℕ, zero, suc, ◌+◌, ◌≡◌, refl, false, Option, none, some, List, [], ◌∷◌, inl, inr, ◌==◌, length,
  Bool-cases, arith,
}
use gamenet.Address.{IpAddr, HostSource}
use gamenet.Admission.{PendingByIp, try_acquire}
use gamenet.Admission.Slots.{
  held, give_back, IsCounted, step-IsCounted, connects as connects_from, leaves as leaves_from,
  new-IsCounted,
}
use gamenet.Admission.Slots
use gamenet.Relay.{
  RelayServer, pending_limit, pending_per_ip_limit, bind, admit, acquire, accept_incoming,
  registration_ends,
}

pub data Event : Type 0 where
  arrives : IpAddr → Event
  ends : HostSource → Event

unfoldable pub step : RelayServer → Event → RelayServer
step r (arrives ip) = (accept_incoming r ip).0
step r (ends source) = registration_ends r source

unfoldable pub run : RelayServer → List Event → RelayServer
run r [] = r
run r (e ∷ es) = run (step r e) es

-- Every permit of the relay is left or held by a connection that is registering, and the counts of
-- the networks are those of the same connections, at most four for each.
pub record IsAdmitting (r : RelayServer) : Type 0 where
  pub conserved : r.pending + length r.registering ≡ pending_limit
  pub counted : IsCounted pending_per_ip_limit (r.pending_by_ip, r.registering)

pub bind-IsAdmitting : IsAdmitting bind
unfolding bind
bind-IsAdmitting = record { conserved = refl; counted = new-IsCounted pending_per_ip_limit }

-- A permit that is held is one less when it is given back.
pub length-give_back :
    (s : HostSource) (xs : List HostSource)
    → (held s xs == 0) ≡ false
    → suc (length (give_back s xs)) ≡ length xs
length-give_back s [] h = cc
length-give_back s (x ∷ xs) h = ground (arith, length-give_back s xs)

pub accept_incoming-IsAdmitting :
    (r : RelayServer) (ip : IpAddr) → IsAdmitting r → IsAdmitting (accept_incoming r ip).0
unfolding accept_incoming Slots.step
accept_incoming-IsAdmitting r ip h = go r.pending refl
  where
    admitted :
        (left : ℕ) (o : PendingByIp × Option HostSource)
        → try_acquire r.pending_by_ip ip ≡ o
        → r.pending ≡ suc left
        → IsAdmitting (admit r left o).0
    admitted left (by_ip, none) e q = record {
      conserved = h.conserved;
      counted = rw e at (
          step-IsCounted pending_per_ip_limit (r.pending_by_ip, r.registering) (connects_from ip)
            (omega arith) h.counted);
    }
    admitted left (by_ip, some s) e q = record {
      conserved = omega (arith, q, h.conserved);
      counted = rw e at (
          step-IsCounted pending_per_ip_limit (r.pending_by_ip, r.registering) (connects_from ip)
            (omega arith) h.counted);
    }

    go : (n : ℕ) → r.pending ≡ n → IsAdmitting (acquire r ip n).0
    go zero e = h
    go (suc left) e = admitted left (try_acquire r.pending_by_ip ip) refl e

pub registration_ends-IsAdmitting :
    (r : RelayServer) (s : HostSource) → IsAdmitting r → IsAdmitting (registration_ends r s)
unfolding registration_ends Slots.step
registration_ends-IsAdmitting r s h = elim (Bool-cases (held s r.registering == 0)) [
  | inl e ↦ rw (e, registration_ends) h
  | inr e ↦
      rw (e, registration_ends)
        (record {
          conserved = omega (arith, length-give_back s r.registering e, h.conserved);
          counted = rw e at (
              step-IsCounted pending_per_ip_limit (r.pending_by_ip, r.registering) (leaves_from s)
                (omega arith) h.counted);
        })
]

step-IsAdmitting : (r : RelayServer) (e : Event) → IsAdmitting r → IsAdmitting (step r e)
unfolding step
step-IsAdmitting r (arrives ip) h = accept_incoming-IsAdmitting r ip h
step-IsAdmitting r (ends s) h = registration_ends-IsAdmitting r s h

run-IsAdmitting : (r : RelayServer) (es : List Event) → IsAdmitting r → IsAdmitting (run r es)
unfolding run
run-IsAdmitting r [] h = h
run-IsAdmitting r (e ∷ es) h = run-IsAdmitting (step r e) es (step-IsAdmitting r e h)

-- From the start of the relay on, whatever connections arrive and whatever registrations end, the
-- permits left and the connections that are registering add up to 128, and each network has as many
-- of these connections as are counted for it, at most four.
pub run_bind-IsAdmitting : (es : List Event) → IsAdmitting (run bind es)
run_bind-IsAdmitting es = run-IsAdmitting bind es bind-IsAdmitting
