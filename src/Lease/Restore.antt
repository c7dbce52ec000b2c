-- ===== src/Lease/Restore.antt =====
-- A saved table loads again: `restore` accepts what `snapshot` wrote, and keeps what has not expired.
mod Accept
use gamenet.Base.{
  ℕ, ◌+◌, ◌-◌, ◌≤◌, ◌≡◌, refl, sym, ◌∙◌, ◌≢◌, Bool, true, false, Option, none, some, List, [], ◌∷◌,
  map, inl, inr, arith, holds_of_not, holds_of, if◌then◌else◌, leb, any, contains,
  contains_of-NotIn, any-of-false, length, All, Pairwise, NotIn, Distinct, Disjoint, Disjoint-sym,
  All-weaken, All-zip, Bool-cases, ok, ℕ_discrete,
}
use gamenet.HashMap.{HashMap, get, insert, get-insert_self, get-insert_ne}
use gamenet.Lease.{
  TokenId, dec_token, grace, Lease, LeaseTable, Entry, new, max_retired_identities, port_start,
  port_end,
}
use gamenet.Lease.Capacity.{length-leases-le}
use gamenet.Lease.WellFormed.{IsEntry, Apart, IsWellFormed, OtherKey}
use gamenet.Lease.Runs.{Call, run, run_new-IsWellFormed}
use gamenet.Lease.Records.{
  to_record, expiry, snapshot, Restored, add_recovery, add_retired, in_pool, restored_entry,
  add_unexpired, restore_one, restore_all, nothing_restored, restore,
}
use gamenet.Lease.Restore.Accept.{
  reverse_onto, All-reverse_onto, add_retired-ok, seen_key, UnseenKey, add_recovery-ok, accept,
  Unseen, restore_one-accept, UnseenKey-seen_key, Unseen-accept, accept_all, restore_all-accept_all,
  ApartSets, accept-ApartSets, accept_all-ApartSets,
}

-- What is left of a claim that was saved at `now` and is read at `later`.
abbrev pub survivor : ℕ → ℕ → Option Lease → Option Lease
survivor now later none = none
survivor now later (some l) =
    if leb (expiry now l.status) later
    then none
    else some (record l { status = grace (expiry now l.status) })

abbrev else_in : Option Lease → Option Lease → Option Lease
else_in none b = b
else_in (some a) b = some a

get-add_unexpired_self :
    (now later : ℕ) (k : TokenId) (l : Lease) (t : LeaseTable)
    → get dec_token k (add_unexpired later (to_record now (k, l)) t).leases
      ≡ else_in (survivor now later (some l)) (get dec_token k t.leases)
get-add_unexpired_self now later k l t = elim (Bool-cases (leb (expiry now l.status) later)) [
  | inl e ↦ rw e
  | inr e ↦ rw e (get-insert_self dec_token k _ t.leases)
]

get-add_unexpired_ne :
    (now later : ℕ) (k j : TokenId) (l : Lease) (t : LeaseTable)
    → k ≢ j
    → get dec_token j (add_unexpired later (to_record now (k, l)) t).leases
      ≡ get dec_token j t.leases
get-add_unexpired_ne now later k j l t h = elim (Bool-cases (leb (expiry now l.status) later)) [
  | inl e ↦ rw e
  | inr e ↦ rw e (get-insert_ne dec_token k j _ t.leases h)
]

get_absent :
    (k : TokenId) (m : HashMap TokenId Lease) → All (λ e. e.0 ≢ k) m → get dec_token k m ≡ none
unfolding get
get_absent k [] h = refl
get_absent k (e ∷ m) h = rw (holds_of_not (dec_token e.0 k) h.0) (get_absent k m h.1)

get-accept_all :
    (now later : ℕ) (s : Restored) (es : List Entry) (j : TokenId)
    → Pairwise Apart es
    → get dec_token j (accept_all now later s es).table.leases
      ≡ else_in (survivor now later (get dec_token j es)) (get dec_token j s.table.leases)
unfolding get
get-accept_all now later s [] j a = refl
get-accept_all now later s ((k, l) ∷ es) j a = elim (dec_token k j) [
  | yes p ↦
      let gone : get dec_token j es ≡ none =
        get_absent j es
          (All-weaken (Apart (k, l)) (λ e. e.0 ≢ j) es (λ e f q. f.key (q ∙ sym p)) a.0) in
      rw (holds_of (dec_token k j) p) (
        get-accept_all now later (accept now later s (k, l)) es j a.1
        ∙ rw gone (rw (← p) (get-add_unexpired_self now later k l s.table)))
  | no p ↦ rw (holds_of_not (dec_token k j) p) (
      get-accept_all now later (accept now later s (k, l)) es j a.1
      ∙ rw (get-add_unexpired_ne now later k j l s.table p))
]

next-accept_all :
    (now later : ℕ) (s : Restored) (es : List Entry)
    → (accept_all now later s es).table.next_session_id ≡ s.table.next_session_id
next-accept_all now later s [] = refl
next-accept_all now later s ((k, l) ∷ es) =
    next-accept_all now later (accept now later s (k, l)) es
    ∙ kept (leb (expiry now l.status) later)
  where
    kept :
        (b : Bool)
        → (if b then s.table else record s.table {
          leases = insert dec_token k (restored_entry (to_record now (k, l))) s.table.leases;
        }).next_session_id
          ≡ s.table.next_session_id
    kept true = refl
    kept false = refl

Unseen-nothing : (e : Entry) → Unseen nothing_restored e
unfolding new
Unseen-nothing (k, l) = record {
  port = tt;
  token = tt;
  recovery = unseen l.recovery_id;
  retired =
      All-weaken (λ x. Unit {0}) _ l.retired_token_ids (λ x _. tt) (all_unit l.retired_token_ids);
  left = tt;
  right = tt;
}
  where
    unseen : (r : Option TokenId) → UnseenKey [] r
    unseen none = tt
    unseen (some r) = tt

    all_unit : (xs : List TokenId) → All (λ x. Unit {0}) xs
    all_unit [] = tt
    all_unit (x ∷ xs) = (tt, all_unit xs)

length-map_records : (now : ℕ) (m : List Entry) → length (map (to_record now) m) ≡ length m
length-map_records now [] = refl
length-map_records now (e ∷ m) = omega (arith, length-map_records now m)

All-always {ℓ κ} : {A : Type ℓ} (P : A → Type κ) (xs : List A) → ((x : A) → P x) → All P xs
All-always P [] h = tt
All-always P (x ∷ xs) h = (h x, All-always P xs h)

-- A table that is well formed can be saved at `now` and read at `later`: `restore` accepts the
-- records. Each identity then has the claim that it had, in grace until the saved expiry, unless
-- that time has come; sessions are numbered afresh.
pub restore-snapshot :
    (t : LeaseTable) (now later : ℕ)
    → IsWellFormed t
    → (t' : LeaseTable) × (restore (snapshot t now) later ≡ ok t')
      × (t'.next_session_id ≡ 0)
      × ((k : TokenId) → get dec_token k t'.leases ≡ survivor now later (get dec_token k t.leases))
unfolding restore snapshot new get
restore-snapshot t now later w = (
  final.table,
  rw (
    fits,
    restore_all-accept_all now later t.next_session_id nothing_restored t.leases w.entries w.apart
        unseen,
    apart,
  ),
  next-accept_all now later nothing_restored t.leases,
  λ k.
      get-accept_all now later nothing_restored t.leases k w.apart
      ∙ else_none (survivor now later (get dec_token k t.leases)),
)
  where
    final : Restored
    final = accept_all now later nothing_restored t.leases

    unseen : All (Unseen nothing_restored) t.leases
    unseen = All-always (Unseen nothing_restored) t.leases Unseen-nothing

    few : length (map (to_record now) t.leases) ≤ 1000
    few = omega (arith, length-map_records now t.leases, length-leases-le t w)

    fits : leb (length (map (to_record now) t.leases)) (port_end - port_start + 1) ≡ true
    fits = ground (arith, few)

    apart : any (contains dec_token final.retired) final.tokens ≡ false
    apart = any-of-false _ final.tokens (
        All-weaken (λ x. NotIn x final.retired) _ final.tokens
          (λ x n. contains_of-NotIn dec_token final.retired x n)
          (accept_all-ApartSets now later t.next_session_id nothing_restored t.leases w.entries
            w.apart unseen tt))

    else_none : (o : Option Lease) → else_in o none ≡ o
    else_none none = refl
    else_none (some l) = refl

-- No sequence of calls on the empty table, with any arguments, makes it hold more than 1000 claims,
-- which is the most that `restore` reads; and `restore` accepts what is saved of it at any time.
pub restore-run :
    (cs : List Call) (now later : ℕ)
    → (length (snapshot (run new cs) now) ≤ 1000)
      × ((t' : LeaseTable) × (restore (snapshot (run new cs) now) later ≡ ok t'))
unfolding snapshot
restore-run cs now later =
    let w = run_new-IsWellFormed cs in
    let (t', restored, _, _) = restore-snapshot (run new cs) now later w in
    (
      omega (arith, length-map_records now (run new cs).leases, length-leases-le (run new cs) w),
      (t', restored),
    )
