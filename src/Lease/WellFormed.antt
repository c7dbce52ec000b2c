-- ===== src/Lease/WellFormed.antt =====
-- What a lease table keeps: every port from the pool is promised once, every identity, recovery
-- key and session is in one claim, and a retired identity is in one history and owns nothing.
pub mod Facts
pub mod Activate
pub mod Move
use gamenet.Base.{
  ℕ, suc, ◌≤◌, ◌≡◌, sym, ◌≢◌, Option, none, some, List, [], ◌∷◌, All, Pairwise, NotIn, Distinct,
  Disjoint, Disjoint-sym, length,
}
use gamenet.Lease.{
  TokenId, SessionId, LeaseStatus, active, grace, Lease, LeaseTable, Entry, port_start, port_end,
  max_retired_identities,
}

abbrev pub SessionUpTo : ℕ → LeaseStatus → Type 0
SessionUpTo n (active s) = s ≤ n
SessionUpTo n (grace t) = Unit

pub record IsEntry (n : ℕ) (e : Entry) : Type 0 where
  pub from_start : port_start ≤ e.1.port
  pub to_end : e.1.port ≤ port_end
  pub own : NotIn e.0 e.1.retired_token_ids
  pub distinct : Distinct e.1.retired_token_ids
  pub capped : length e.1.retired_token_ids ≤ max_retired_identities
  pub session : SessionUpTo n e.1.status

abbrev pub OtherKey : Option TokenId → Option TokenId → Type 0
OtherKey (some a) (some b) = b ≢ a
OtherKey (some a) none = Unit
OtherKey none b = Unit

abbrev pub OtherSession : LeaseStatus → LeaseStatus → Type 0
OtherSession (active a) (active b) = b ≢ a
OtherSession (active a) (grace t) = Unit
OtherSession (grace t) b = Unit

-- Two claims have nothing in common.
pub record Apart (e e' : Entry) : Type 0 where
  pub key : e'.0 ≢ e.0
  pub port : e'.1.port ≢ e.1.port
  pub recovery : OtherKey e.1.recovery_id e'.1.recovery_id
  pub retired : Disjoint e.1.retired_token_ids e'.1.retired_token_ids
  pub left : NotIn e.0 e'.1.retired_token_ids
  pub right : NotIn e'.0 e.1.retired_token_ids
  pub session : OtherSession e.1.status e'.1.status

pub record IsWellFormed (t : LeaseTable) : Type 0 where
  pub entries : All (IsEntry t.next_session_id) t.leases
  pub apart : Pairwise Apart t.leases

OtherKey-sym : (a b : Option TokenId) → OtherKey a b → OtherKey b a
OtherKey-sym (some a) (some b) h = λ e. h (sym e)
OtherKey-sym (some a) none h = tt
OtherKey-sym none (some b) h = tt
OtherKey-sym none none h = tt

OtherSession-sym : (a b : LeaseStatus) → OtherSession a b → OtherSession b a
OtherSession-sym (active a) (active b) h = λ e. h (sym e)
OtherSession-sym (active a) (grace t) h = tt
OtherSession-sym (grace t) (active b) h = tt
OtherSession-sym (grace t) (grace u) h = tt

pub Apart-sym : (e e' : Entry) → Apart e e' → Apart e' e
Apart-sym e e' h = record {
  key = λ p. h.key (sym p);
  port = λ p. h.port (sym p);
  recovery = OtherKey-sym e.1.recovery_id e'.1.recovery_id h.recovery;
  retired = Disjoint-sym _ _ h.retired;
  left = h.right;
  right = h.left;
  session = OtherSession-sym e.1.status e'.1.status h.session;
}
