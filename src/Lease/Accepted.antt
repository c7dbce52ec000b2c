-- ===== src/Lease/Accepted.antt =====
-- Whatever records the relay is given, those that `restore` of crates/server/src/lease.rs accepts make
-- a well-formed table.
mod Sets
use gamenet.Base.{
  ℕ, zero, suc, ◌+◌, ◌-◌, ◌≤◌, ◌≡◌, refl, sym, ap, subst, ◌∙◌, ◌≢◌, Bool, true, false, not,
  not-eq-true, ◌&&◌, ◌||◌, Option, none, some, List, [], ◌∷◌, inl, inr, arith, if◌then◌else◌, holds,
  holds-eq-false, leb, any, contains, length, Result, ok, err, ◌>>=◌, ◌>>◌, ensure, >>=-eq-ok,
  ensure-eq-ok, Bool-cases, All, All-weaken, All-zip, Pairwise, NotIn, Distinct, Disjoint,
  any-eq-false, ℕ_discrete,
}
use gamenet.HashMap.{HashMap, insert, remove, All-remove, Pairwise-remove}
use gamenet.Errors.{Error}
use gamenet.Lease.{
  TokenId, dec_token, LeaseStatus, grace, Lease, LeaseTable, Entry, new, max_retired_identities,
  port_start, port_end,
}
use gamenet.Lease.Records.{
  LeaseRecord, Restored, add_recovery, add_retired, in_pool, restored_entry, add_unexpired,
  restore_one, restore_all, nothing_restored, restore,
}
use gamenet.Lease.WellFormed.{IsEntry, OtherKey, OtherSession, Apart, IsWellFormed}
use gamenet.Lease.WellFormed.Facts.{All-contains}
use gamenet.Lease.Accepted.Sets.{
  contains-differ, KeyIn, KeyNotIn, IsKnown, IsSeparate, IsRestored, Grows, IsHistory,
  add_retired-eq-ok, add_recovery-eq-ok, after, after-IsKnown, IsKnown-IsSeparate, contains-first,
}

add_unexpired-IsRestored :
    (now : ℕ) (s : Restored) (r : LeaseRecord) (ids seen : List TokenId)
    → in_pool r.port ≡ true
    → contains ℕ_discrete s.ports r.port ≡ false
    → contains dec_token s.tokens r.token_id ≡ false
    → KeyNotIn s.recovery_ids r.recovery_id
    → KeyIn ids r.recovery_id
    → Grows s.recovery_ids ids
    → length r.retired_token_ids ≤ max_retired_identities
    → IsHistory r.token_id s.retired seen r.retired_token_ids
    → IsRestored s
    → IsRestored (after (add_unexpired now r s.table) s r ids seen)
unfolding insert
add_unexpired-IsRestored now s r ids seen pool p t k k' g few h w = go (leb r.expires_at_ms now)
  where
    inserted : LeaseTable
    inserted = record s.table {
      leases = insert dec_token r.token_id (restored_entry r) s.table.leases;
    }

    entry : IsEntry 0 (r.token_id, restored_entry r)
    entry = record {
      from_start = ground (arith, pool);
      to_end = ground (arith, pool);
      own = h.own;
      distinct = h.distinct;
      capped = few;
      session = tt;
    }

    grown :
        (u : LeaseTable) (m : List Entry)
        → All (IsKnown s) m
        → All (IsKnown (after u s r ids seen)) m
    grown u m known =
        All-weaken (IsKnown s) (IsKnown (after u s r ids seen)) m
          (after-IsKnown u s r ids seen h.grows g) known

    itself : (u : LeaseTable) → IsKnown (after u s r ids seen) (r.token_id, restored_entry r)
    itself u = record {
      port = contains-first ℕ_discrete s.ports r.port;
      token = contains-first dec_token s.tokens r.token_id;
      retired = h.seen_now;
      recovery = k';
    }

    go : (expired : Bool) → IsRestored (after (if expired then s.table else inserted) s r ids seen)
    go true = record {
      entries = w.entries;
      separate = w.separate;
      known = grown s.table s.table.leases w.known;
      sessions = w.sessions;
    }
    go false = record {
      entries = (entry, All-remove dec_token (IsEntry 0) r.token_id s.table.leases w.entries);
      separate = (
        All-remove dec_token (IsSeparate (r.token_id, restored_entry r)) r.token_id s.table.leases (
            All-weaken (IsKnown s) (IsSeparate (r.token_id, restored_entry r)) s.table.leases
              (IsKnown-IsSeparate inserted s r ids seen p t k h) w.known),
        Pairwise-remove dec_token IsSeparate r.token_id s.table.leases w.separate,
      );
      known = (
        itself inserted,
        grown inserted (remove dec_token r.token_id s.table.leases)
            (All-remove dec_token (IsKnown s) r.token_id s.table.leases w.known),
      );
      sessions = w.sessions;
    }

restore_one-IsRestored :
    (now : ℕ) (s s' : Restored) (r : LeaseRecord)
    → restore_one now s r ≡ ok s'
    → IsRestored s
    → IsRestored s'
unfolding restore_one
restore_one-IsRestored now s s' r h w =
    let (pool, h₁) = ensure-eq-ok (in_pool r.port) _ _ h in
    let (p, h₂) = ensure-eq-ok (not (contains ℕ_discrete s.ports r.port)) _ _ h₁ in
    let (t, h₃) = ensure-eq-ok (not (contains dec_token s.tokens r.token_id)) _ _ h₂ in
    let (ids, added, h₄) = >>=-eq-ok (add_recovery s.recovery_ids r.recovery_id) _ h₃ in
    let (few, h₅) = ensure-eq-ok (leb (length r.retired_token_ids) max_retired_identities) _ _ h₄ in
    let (seen, history, h₆) =
      >>=-eq-ok (add_retired r.token_id s.retired r.retired_token_ids) _ h₅ in
    let (k, k', g) = add_recovery-eq-ok s.recovery_ids ids r.recovery_id added in
    let same : after (add_unexpired now r s.table) s r ids seen ≡ s' = ground (arith, h₆) in
    rw (← same) (
      add_unexpired-IsRestored now s r ids seen pool (not-eq-true p) (not-eq-true t) k k' g
        (ground (arith, few))
        (add_retired-eq-ok r.token_id s.retired r.retired_token_ids seen history) w)

restore_all-IsRestored :
    (now : ℕ) (s s' : Restored) (rs : List LeaseRecord)
    → restore_all now s rs ≡ ok s'
    → IsRestored s
    → IsRestored s'
unfolding restore_all
restore_all-IsRestored now s s' [] h w = let same : s ≡ s' = ground arith in rw (← same) w
restore_all-IsRestored now s s' (r ∷ rs) h w =
    let (t, one, rest) = >>=-eq-ok (restore_one now s r) _ h in
    restore_all-IsRestored now t s' rs rest (restore_one-IsRestored now s t r one w)

-- The test after the loop: no identity in the table is retired.
module _ (s : Restored) (apart : All (λ t. contains dec_token s.retired t ≡ false) s.tokens) where
  not_retired_by : (e e' : Entry) → IsKnown s e → IsKnown s e' → NotIn e.0 e'.1.retired_token_ids
  not_retired_by e e' k k' =
      All-weaken (λ x. contains dec_token s.retired x ≡ true) (λ x. x ≢ e.0) e'.1.retired_token_ids
        (λ x seen. contains-differ dec_token s.retired x e.0 seen (
          All-contains (λ t. contains dec_token s.retired t ≡ false) dec_token s.tokens e.0 apart
            k.token))
        k'.retired

  Apart-known : (e e' : Entry) → IsKnown s e → IsKnown s e' → IsSeparate e e' → Apart e e'
  Apart-known e e' k k' h = record {
    key = h.key;
    port = h.port;
    recovery = h.recovery;
    retired = h.retired;
    left = not_retired_by e e' k k';
    right = not_retired_by e' e k' k;
    session = h.session;
  }

  Apart-all : (m : List Entry) → All (IsKnown s) m → Pairwise IsSeparate m → Pairwise Apart m
  Apart-all [] k h = tt
  Apart-all (e ∷ m) k h = (
    All-zip (IsKnown s) (IsSeparate e) (Apart e) m (λ e' k' d. Apart-known e e' k.0 k' d) k.1 h.0,
    Apart-all m k.1 h.1,
  )

-- Whatever the records are, a table that `restore` makes of them is well formed, and numbers its
-- sessions from the start.
pub restore-IsWellFormed :
    (records : List LeaseRecord) (now : ℕ) (t : LeaseTable)
    → restore records now ≡ ok t
    → IsWellFormed t × (t.next_session_id ≡ 0)
unfolding restore new
restore-IsWellFormed records now t h =
    let (_, h₁) = ensure-eq-ok (leb (length records) (port_end - port_start + 1)) _ _ h in
    let (s, all, h₂) = >>=-eq-ok (restore_all now nothing_restored records) _ h₁ in
    let (disjoint, h₃) =
      ensure-eq-ok (not (any (contains dec_token s.retired) s.tokens)) _ (ok s.table) h₂ in
    let w =
      restore_all-IsRestored now nothing_restored s records all
        (record { entries = tt; separate = tt; known = tt; sessions = refl }) in
    let same : s.table ≡ t = ground arith in
    let apart = any-eq-false (contains dec_token s.retired) s.tokens (not-eq-true disjoint) in
    rw (← same) (
      record {
        entries = subst (λ n. All (IsEntry n) s.table.leases) (sym w.sessions) w.entries;
        apart = Apart-all s apart s.table.leases w.known w.separate;
      },
      w.sessions,
    )
