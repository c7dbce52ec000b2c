-- ===== src/Agent/Reconnecting.antt =====
-- The delays between the attempts to reconnect.
use gamenet.Base.{
  ℕ, zero, suc, ◌*◌, ◌^◌, ◌≡◌, refl, ◌∙◌, ap, min, Bool, true, false, List, [], ◌∷◌, ◌++◌, arith,
}
use native.Mathlib.Nat.{mul_assoc}
use gamenet.Agent.{retry_cap, one_second, next_retry_delay, reconnects}

-- Attempts that all fail.
abbrev pub failures : ℕ → List Bool
failures zero = []
failures (suc n) = false ∷ failures n

-- The delays of one second, two seconds, and so on, none above fifteen seconds.
abbrev pub doubling : ℕ → ℕ → List ℕ
doubling delay zero = []
doubling delay (suc n) = min delay retry_cap ∷ doubling (delay * 2) n

next_retry_delay-min : (d : ℕ) → next_retry_delay (min d retry_cap) ≡ min (d * 2) retry_cap
unfolding next_retry_delay
next_retry_delay-min d = omega arith

double : (d n : ℕ) → d * 2 * 2 ^ n ≡ d * 2 ^ suc n
double d n = mul_assoc d 2 (2 ^ n) ∙ ap (λ x. d * x) (omega arith)

reconnects-min :
    (d n : ℕ) (rest : List Bool)
    → reconnects (min d retry_cap) (failures n ++ rest)
      ≡ doubling d n ++ reconnects (min (d * 2 ^ n) retry_cap) rest
unfolding reconnects
reconnects-min d zero rest = ap (λ x. reconnects (min x retry_cap) rest) (omega arith)
reconnects-min d (suc n) rest =
    rw (next_retry_delay-min d, reconnects-min (d * 2) n rest, double d n)

-- The delays before the attempts to reconnect double from one second on while they fail, none above
-- fifteen seconds, and those after `n` failures begin at the smaller of `2 ^ n` and fifteen seconds;
-- after a success they begin at one second again.
pub reconnects-failures :
    (n : ℕ) (rest : List Bool)
    → (reconnects one_second (failures n ++ rest)
        ≡ doubling one_second n ++ reconnects (min (one_second * 2 ^ n) retry_cap) rest)
      × ((d : ℕ) → reconnects d (true ∷ rest) ≡ d ∷ reconnects one_second rest)
unfolding reconnects
reconnects-failures n rest = (reconnects-min one_second n rest, λ d. refl)
