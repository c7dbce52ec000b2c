-- ===== src/Lease/Restore/Accept.antt =====
-- The records of a well-formed table pass every test of `restore`: crates/server/src/lease.rs.
use gamenet.Base.{
  ℕ, ◌≡◌, refl, sym, ◌≢◌, true, Option, none, some, List, [], ◌∷◌, map, arith, holds_of_not, leb,
  contains_of-NotIn, length, All, Pairwise, NotIn, Distinct, Disjoint, Disjoint-sym, All-zip, ok,
  ℕ_discrete,
}
use gamenet.Lease.{TokenId, dec_token, Lease, Entry, max_retired_identities}
use gamenet.Lease.WellFormed.{IsEntry, Apart, OtherKey}
use gamenet.Lease.Records.{
  to_record, Restored, add_recovery, add_retired, in_pool, add_unexpired, restore_one, restore_all,
}

-- The elements of the first list are put in front of the second, one by one.
pub reverse_onto {ℓ} : {A : Type ℓ} → List A → List A → List A
reverse_onto [] ys = ys
reverse_onto (x ∷ xs) ys = reverse_onto xs (x ∷ ys)

pub All-reverse_onto {ℓ κ} :
    {A : Type ℓ} (P : A → Type κ) (xs ys : List A)
    → All P xs
    → All P ys
    → All P (reverse_onto xs ys)
unfolding reverse_onto
All-reverse_onto P [] ys h k = k
All-reverse_onto P (x ∷ xs) ys h k = All-reverse_onto P xs (x ∷ ys) h.1 (h.0, k)

-- The history of an entry is recorded if none of it was seen before.
pub add_retired-ok :
    (token : TokenId) (seen ids : List TokenId)
    → NotIn token ids
    → Distinct ids
    → Disjoint ids seen
    → add_retired token seen ids ≡ ok (reverse_onto ids seen)
unfolding add_retired reverse_onto
add_retired-ok token seen [] n d f = refl
add_retired-ok token seen (old ∷ ids) n d f =
    rw (holds_of_not (dec_token old token) n.0, contains_of-NotIn dec_token seen old f.0)
      (add_retired-ok token (old ∷ seen) ids n.1 d.1 (
        All-zip (λ x. x ≢ old) (λ x. NotIn x seen) (λ x. NotIn x (old ∷ seen)) ids
          (λ x a b. ((λ e. a (sym e)), b)) d.0 f.1))

abbrev pub seen_key : Option TokenId → List TokenId → List TokenId
seen_key none ids = ids
seen_key (some r) ids = r ∷ ids

abbrev pub UnseenKey : List TokenId → Option TokenId → Type 0
UnseenKey ids none = Unit
UnseenKey ids (some r) = NotIn r ids

pub add_recovery-ok :
    (ids : List TokenId) (r : Option TokenId)
    → UnseenKey ids r
    → add_recovery ids r ≡ ok (seen_key r ids)
add_recovery-ok ids none h = refl
add_recovery-ok ids (some r) h = rw (contains_of-NotIn dec_token ids r h)

-- The state of the loop after an entry that it accepts.
abbrev pub accept : ℕ → ℕ → Restored → Entry → Restored
accept now later s (k, l) = record {
  table = add_unexpired later (to_record now (k, l)) s.table;
  ports = l.port ∷ s.ports;
  tokens = k ∷ s.tokens;
  retired = reverse_onto l.retired_token_ids s.retired;
  recovery_ids = seen_key l.recovery_id s.recovery_ids;
}

-- Nothing of the entry has been seen.
pub record Unseen (s : Restored) (e : Entry) : Type 0 where
  pub port : NotIn e.1.port s.ports
  pub token : NotIn e.0 s.tokens
  pub recovery : UnseenKey s.recovery_ids e.1.recovery_id
  pub retired : Disjoint e.1.retired_token_ids s.retired
  pub left : NotIn e.0 s.retired
  pub right : All (λ k. NotIn k e.1.retired_token_ids) s.tokens

pub restore_one-accept :
    (now later n : ℕ) (s : Restored) (k : TokenId) (l : Lease)
    → IsEntry n (k, l)
    → Unseen s (k, l)
    → restore_one later s (to_record now (k, l)) ≡ ok (accept now later s (k, l))
unfolding restore_one
restore_one-accept now later n s k l i u =
    let pool : in_pool l.port ≡ true = ground (arith, i.from_start, i.to_end) in
    let few : leb (length l.retired_token_ids) max_retired_identities ≡ true =
      ground (arith, i.capped) in
    rw (
      pool,
      contains_of-NotIn ℕ_discrete s.ports l.port u.port,
      contains_of-NotIn dec_token s.tokens k u.token,
      add_recovery-ok s.recovery_ids l.recovery_id u.recovery,
      few,
      add_retired-ok k s.retired l.retired_token_ids i.own i.distinct u.retired,
    )

pub UnseenKey-seen_key :
    (ids : List TokenId) (a b : Option TokenId)
    → UnseenKey ids b
    → OtherKey a b
    → UnseenKey (seen_key a ids) b
UnseenKey-seen_key ids none b h o = h
UnseenKey-seen_key ids (some a) none h o = tt
UnseenKey-seen_key ids (some a) (some b) h o = ((λ e. o (sym e)), h)

pub Unseen-accept :
    (now later : ℕ) (s : Restored) (e e' : Entry)
    → Apart e e'
    → Unseen s e'
    → Unseen (accept now later s e) e'
Unseen-accept now later s e e' a u = record {
  port = ((λ q. a.port (sym q)), u.port);
  token = ((λ q. a.key (sym q)), u.token);
  recovery =
      UnseenKey-seen_key s.recovery_ids e.1.recovery_id e'.1.recovery_id u.recovery a.recovery;
  retired =
      All-zip (λ x. NotIn x e.1.retired_token_ids) (λ x. NotIn x s.retired) _ e'.1.retired_token_ids
        (λ x f g. All-reverse_onto (λ y. y ≢ x) e.1.retired_token_ids s.retired f g)
        (Disjoint-sym _ _ a.retired) u.retired;
  left = All-reverse_onto _ e.1.retired_token_ids s.retired a.right u.left;
  right = (a.left, u.right);
}

abbrev pub accept_all : ℕ → ℕ → Restored → List Entry → Restored
accept_all now later s [] = s
accept_all now later s (e ∷ es) = accept_all now later (accept now later s e) es

pub restore_all-accept_all :
    (now later n : ℕ) (s : Restored) (es : List Entry)
    → All (IsEntry n) es
    → Pairwise Apart es
    → All (Unseen s) es
    → restore_all later s (map (to_record now) es) ≡ ok (accept_all now later s es)
unfolding restore_all
restore_all-accept_all now later n s [] i a u = refl
restore_all-accept_all now later n s ((k, l) ∷ es) i a u =
    rw (restore_one-accept now later n s k l i.0 u.0) (
      restore_all-accept_all now later n (accept now later s (k, l)) es i.1 a.1 (
        All-zip (Apart (k, l)) (Unseen s) (Unseen (accept now later s (k, l))) es
          (Unseen-accept now later s (k, l)) a.0 u.1))

-- No identity is both current and retired.
abbrev pub ApartSets : Restored → Type 0
ApartSets s = Disjoint s.tokens s.retired

pub accept-ApartSets :
    (now later n : ℕ) (s : Restored) (k : TokenId) (l : Lease)
    → IsEntry n (k, l)
    → Unseen s (k, l)
    → ApartSets s
    → ApartSets (accept now later s (k, l))
accept-ApartSets now later n s k l i u d = (
  All-reverse_onto (λ y. y ≢ k) l.retired_token_ids s.retired i.own u.left,
  All-zip (λ x. NotIn x l.retired_token_ids) (λ x. NotIn x s.retired) _ s.tokens
      (λ x f g. All-reverse_onto (λ y. y ≢ x) l.retired_token_ids s.retired f g) u.right d,
)

pub accept_all-ApartSets :
    (now later n : ℕ) (s : Restored) (es : List Entry)
    → All (IsEntry n) es
    → Pairwise Apart es
    → All (Unseen s) es
    → ApartSets s
    → ApartSets (accept_all now later s es)
accept_all-ApartSets now later n s [] i a u d = d
accept_all-ApartSets now later n s ((k, l) ∷ es) i a u d =
    accept_all-ApartSets now later n (accept now later s (k, l)) es i.1 a.1
      (All-zip (Apart (k, l)) (Unseen s) (Unseen (accept now later s (k, l))) es
        (Unseen-accept now later s (k, l)) a.0 u.1)
      (accept-ApartSets now later n s k l i.0 u.0 d)
