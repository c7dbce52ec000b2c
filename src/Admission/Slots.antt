-- ===== src/Admission/Slots.antt =====
-- The counts are those of the permits held, in every order of arrivals and departures.
use gamenet.Base.{
  ℕ, suc, ◌+◌, ◌-◌, ◌≤◌, ◌<◌, ◌≡◌, refl, sym, ◌∙◌, ◌≢◌, Option, none, some, List, [], ◌∷◌, inl, inr,
  arith, ◌==◌, leb, if◌then◌else◌, holds, holds_of, holds_of_not, Bool-cases, Option-cases,
}
use gamenet.HashMap.{get, insert, remove, get-insert, get-remove}
use gamenet.Address.{IpAddr, HostSource, host_source, dec_source}
use gamenet.Admission.{PendingByIp, new, or_zero, active_for, try_acquire, decrement, drop_permit}

-- How many of the permits are for the network.
abbrev pub held : HostSource → List HostSource → ℕ
held s [] = 0
held s (x ∷ xs) = if holds (dec_source x s) then suc (held s xs) else held s xs

-- The permits without one for the network.
abbrev pub give_back : HostSource → List HostSource → List HostSource
give_back s [] = []
give_back s (x ∷ xs) = if holds (dec_source x s) then xs else x ∷ give_back s xs

-- An address connects, or a registration for the network ends.
pub data Event : Type 0 where
  connects : IpAddr → Event
  leaves : HostSource → Event

abbrev pub with_permit : Option HostSource → List HostSource → List HostSource
with_permit none permits = permits
with_permit (some s) permits = s ∷ permits

-- Only a permit that is held can be dropped.
unfoldable pub step : PendingByIp × List HostSource → Event → PendingByIp × List HostSource
step (p, permits) (connects ip) = let r = try_acquire p ip in (r.0, with_permit r.1 permits)
step (p, permits) (leaves s) =
    if held s permits == 0 then (p, permits) else (drop_permit p s, give_back s permits)

unfoldable pub run : PendingByIp × List HostSource → List Event → PendingByIp × List HostSource
run c [] = c
run c (e ∷ es) = run (step c e) es

-- The limit is that of the start, each count is the number of permits held, none is above the
-- limit, and no count is kept at zero.
pub record IsCounted (limit : ℕ) (c : PendingByIp × List HostSource) : Type 0 where
  pub fixed : c.0.limit ≡ limit
  pub counted : (s : HostSource) → active_for c.0 s ≡ held s c.1
  pub bounded : (s : HostSource) → held s c.1 ≤ limit
  pub tidy : (s : HostSource) → get dec_source s c.0.counts ≢ some 0

pub held-give_back :
    (s : HostSource) (xs : List HostSource) → held s (give_back s xs) ≡ held s xs - 1
held-give_back s [] = refl
held-give_back s (x ∷ xs) = elim (dec_source x s) [
  | yes p ↦ rw (holds_of (dec_source x s) p) (omega arith)
  | no p ↦
      rw (holds_of_not (dec_source x s) p)
        (rw (holds_of_not (dec_source x s) p) (held-give_back s xs))
]

pub held-give_back_ne :
    (s j : HostSource) (xs : List HostSource) → s ≢ j → held j (give_back s xs) ≡ held j xs
held-give_back_ne s j [] h = refl
held-give_back_ne s j (x ∷ xs) h = ground (arith, held-give_back_ne s j xs h)

module _ (limit : ℕ) (p : PendingByIp) (permits : List HostSource) where
  -- A new count for one network.
  recounted :
      (s : HostSource) (n : ℕ) (permits' : List HostSource)
      → IsCounted limit (p, permits)
      → 0 < n
      → n ≤ limit
      → held s permits' ≡ n
      → ((j : HostSource) → s ≢ j → held j permits' ≡ held j permits)
      → IsCounted limit (record p { counts = insert dec_source s n p.counts }, permits')
  unfolding active_for
  recounted s n permits' c pos top here there = record {
    fixed = c.fixed;
    counted = λ j. elim (dec_source s j) [
      | yes e ↦
          rw (get-insert dec_source s j n p.counts, holds_of (dec_source s j) e)
            (rw (← e) (sym here))
      | no e ↦
          rw (get-insert dec_source s j n p.counts, holds_of_not (dec_source s j) e)
            (c.counted j ∙ sym (there j e))
    ];
    bounded = λ j. elim (dec_source s j) [
      | yes e ↦ rw (← e) (omega (arith, here))
      | no e ↦ omega (arith, there j e, c.bounded j)
    ];
    tidy = λ j q. elim (dec_source s j) [
      | yes e ↦ ground (arith, get-insert dec_source s j n p.counts, holds_of (dec_source s j) e)
      | no e ↦
          c.tidy j (rw (get-insert dec_source s j n p.counts, holds_of_not (dec_source s j) e) at q)
    ];
  }

  forgotten :
      (s : HostSource) (permits' : List HostSource)
      → IsCounted limit (p, permits)
      → held s permits' ≡ 0
      → ((j : HostSource) → s ≢ j → held j permits' ≡ held j permits)
      → IsCounted limit (record p { counts = remove dec_source s p.counts }, permits')
  unfolding active_for
  forgotten s permits' c here there = record {
    fixed = c.fixed;
    counted = λ j. elim (dec_source s j) [
      | yes e ↦
          rw (get-remove dec_source s j p.counts, holds_of (dec_source s j) e) (rw (← e) (sym here))
      | no e ↦
          rw (get-remove dec_source s j p.counts, holds_of_not (dec_source s j) e)
            (c.counted j ∙ sym (there j e))
    ];
    bounded = λ j. elim (dec_source s j) [
      | yes e ↦ rw (← e) (omega (arith, here))
      | no e ↦ omega (arith, there j e, c.bounded j)
    ];
    tidy = λ j q. elim (dec_source s j) [
      | yes e ↦ cc (rw (get-remove dec_source s j p.counts, holds_of (dec_source s j) e) at q)
      | no e ↦
          c.tidy j (rw (get-remove dec_source s j p.counts, holds_of_not (dec_source s j) e) at q)
    ];
  }

held-cons_self : (s : HostSource) (xs : List HostSource) → held s (s ∷ xs) ≡ suc (held s xs)
held-cons_self s xs = rw (holds_of (dec_source s s) refl)

held-cons_ne : (s j : HostSource) (xs : List HostSource) → s ≢ j → held j (s ∷ xs) ≡ held j xs
held-cons_ne s j xs h = rw (holds_of_not (dec_source s j) h)

connects-IsCounted :
    (limit : ℕ) (p : PendingByIp) (permits : List HostSource) (ip : IpAddr)
    → 0 < limit
    → IsCounted limit (p, permits)
    → IsCounted limit (step (p, permits) (connects ip))
unfolding step try_acquire active_for
connects-IsCounted limit p permits ip pos c =
    let s = host_source ip in
    let count = or_zero (get dec_source s p.counts) in
    let known : count ≡ held s permits = c.counted s in
    elim (Bool-cases (leb p.limit count)) [
      | inl e ↦
          rw (e, step)
            (recounted limit p permits s count permits c (ground (arith, c.fixed))
              (omega (arith, known, c.bounded s)) (sym known) (λ j _. refl))
      | inr e ↦
          rw (e, step)
            (recounted limit p permits s (count + 1) (s ∷ permits) c (omega arith)
              (ground (arith, c.fixed)) (omega (arith, held-cons_self s permits, known))
              (λ j n. held-cons_ne s j permits n))
    ]

leaves-IsCounted :
    (limit : ℕ) (p : PendingByIp) (permits : List HostSource) (s : HostSource)
    → IsCounted limit (p, permits)
    → IsCounted limit (step (p, permits) (leaves s))
unfolding step drop_permit active_for
leaves-IsCounted limit p permits s c = elim (Bool-cases (held s permits == 0)) [
  | inl e ↦ rw (e, step) c
  | inr e ↦ elim (Option-cases (get dec_source s p.counts)) [
    | inl f ↦ absurd (ground (arith, c.counted s))
    | inr (n, f) ↦
        let known : n ≡ held s permits = ground (arith, c.counted s) in
        let down : decrement n ≡ held s permits - 1 = ground arith in
        elim (Bool-cases (decrement n == 0)) [
          | inl z ↦
              rw (e, f, z, step, drop_permit)
                (forgotten limit p permits s (give_back s permits) c
                  (ground (arith, held-give_back s permits))
                  (λ j n. held-give_back_ne s j permits n))
          | inr z ↦
              rw (e, f, z, step, drop_permit)
                (recounted limit p permits s (decrement n) (give_back s permits) c (ground arith)
                  (ground (arith, c.bounded s)) (rw down (held-give_back s permits))
                  (λ j n. held-give_back_ne s j permits n))
        ]
  ]
]

-- Every event keeps the counts exact.
pub step-IsCounted :
    (limit : ℕ) (c : PendingByIp × List HostSource) (e : Event)
    → 0 < limit
    → IsCounted limit c
    → IsCounted limit (step c e)
step-IsCounted limit (p, permits) (connects ip) pos h = connects-IsCounted limit p permits ip pos h
step-IsCounted limit (p, permits) (leaves s) pos h = leaves-IsCounted limit p permits s h

run-IsCounted :
    (limit : ℕ) (c : PendingByIp × List HostSource) (es : List Event)
    → 0 < limit
    → IsCounted limit c
    → IsCounted limit (run c es)
unfolding run
run-IsCounted limit c [] pos h = h
run-IsCounted limit c (e ∷ es) pos h =
    run-IsCounted limit (step c e) es pos (step-IsCounted limit c e pos h)

pub new-IsCounted : (limit : ℕ) → IsCounted limit (new limit, [])
unfolding new active_for get
new-IsCounted limit = record {
  fixed = refl;
  counted = λ s. refl;
  bounded = λ s. omega arith;
  tidy = λ s e. cc;
}

-- With a positive limit, after any sequence of connections and departures from the start, each
-- network's count is the number of permits held for it, at most the limit, and never kept at zero.
pub run_new-IsCounted :
    (limit : ℕ) (es : List Event) → 0 < limit → IsCounted limit (run (new limit, []) es)
run_new-IsCounted limit es pos = run-IsCounted limit (new limit, []) es pos (new-IsCounted limit)
