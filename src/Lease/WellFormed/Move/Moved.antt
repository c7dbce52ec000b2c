-- ===== src/Lease/WellFormed/Move/Moved.antt =====
-- A claim that moves to a new identity stays apart from the others: crates/server/src/lease.rs.
use gamenet.Base.{
  ℕ, ◌≤◌, ◌≡◌, sym, ◌≢◌, false, Option, none, some, List, [], ◌∷◌, ◌++◌, arith, length, drop, All,
  NotIn, Distinct, All-zip, All-append, All-drop, Distinct-drop, Distinct-snoc,
}
use gamenet.HashMap.{HashMap, get, remove, All-get, All-remove, remove_ne, remove_absent}
use gamenet.Address.{IpAddr}
use gamenet.Lease.{
  TokenId, dec_token, grace, Lease, LeaseTable, Entry, is_retired, max_retired_identities,
}
use gamenet.Lease.Claims.{move_claim}
use gamenet.Lease.WellFormed.{IsEntry, Apart, IsWellFormed}
use gamenet.Lease.WellFormed.Facts.{
  insert-IsWellFormed, remove-IsWellFormed, get-Apart, not_retired,
}

-- A lease of the same port and key, in grace, with other retired identities.
abbrev pub moved : Lease → List TokenId → Option IpAddr → ℕ → Lease
moved l ids ip expires = record l { retired_token_ids = ids; last_ip = ip; status = grace expires }

module _ (t : LeaseTable) (old new : TokenId) (l : Lease) (w : IsWellFormed t)
    (found : get dec_token old t.leases ≡ some l) (differ : old ≢ new)
    (absent : get dec_token new t.leases ≡ none) (unused : is_retired new t.leases ≡ false) where
  abbrev rest : HashMap TokenId Lease
  rest = remove dec_token old t.leases

  abbrev ids : List TokenId
  ids = l.retired_token_ids ++ old ∷ []

  claim : IsEntry t.next_session_id (old, l)
  claim = All-get dec_token (IsEntry t.next_session_id) old t.leases w.entries found

  unused_here : All (λ e. NotIn new e.1.retired_token_ids) rest
  unused_here = All-remove dec_token _ old t.leases (not_retired new t.leases unused)

  unused_claim : NotIn new l.retired_token_ids
  unused_claim =
      All-get dec_token (λ (e : Entry). NotIn new e.1.retired_token_ids) old t.leases
        (not_retired new t.leases unused) found

  not_new : All (λ e. e.0 ≢ new) rest
  not_new =
      All-remove dec_token _ old t.leases
        (rw (remove_absent dec_token new t.leases absent) at (remove_ne dec_token new t.leases))

  ids-own : NotIn new ids
  ids-own = All-append _ l.retired_token_ids (old ∷ []) unused_claim (differ, tt)

  ids-Distinct : Distinct ids
  ids-Distinct = Distinct-snoc l.retired_token_ids old claim.distinct claim.own

  -- The history that is kept may drop its oldest entries.
  module _ (n : ℕ) (ip : Option IpAddr) (expires : ℕ) where
    abbrev kept : List TokenId
    kept = drop n ids

    moved-Apart : All (Apart (new, moved l kept ip expires)) rest
    moved-Apart =
        All-zip (λ e. NotIn new e.1.retired_token_ids × (e.0 ≢ new)) (Apart (old, l)) _ rest
          (λ e f a. record {
            key = f.1;
            port = a.port;
            recovery = a.recovery;
            retired =
                All-drop _ n ids
                  (All-append _ l.retired_token_ids (old ∷ []) a.retired (a.left, tt));
            left = f.0;
            right =
                All-drop _ n ids
                  (All-append _ l.retired_token_ids (old ∷ []) a.right ((λ q. a.key (sym q)), tt));
            session = tt;
          })
          (All-zip _ _ _ rest (λ e f g. (f, g)) unused_here not_new) (get-Apart t old w found)

    pub moved-IsWellFormed :
        length kept ≤ max_retired_identities
        → IsWellFormed (move_claim t old new (moved l kept ip expires))
    moved-IsWellFormed h =
        insert-IsWellFormed (record t { leases = rest }) new _ t.next_session_id (omega arith)
          (remove-IsWellFormed t old w)
          (record {
            from_start = claim.from_start;
            to_end = claim.to_end;
            own = All-drop _ n ids ids-own;
            distinct = Distinct-drop n ids ids-Distinct;
            capped = h;
            session = tt;
          })
          (All-remove dec_token _ new rest moved-Apart)
