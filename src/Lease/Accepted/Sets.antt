-- ===== src/Lease/Accepted/Sets.antt =====
-- The sets that the loop of `restore` fills, and what they say of the entries read so far:
-- crates/server/src/lease.rs.
use gamenet.Base.{
  ◌≡◌, refl, sym, ap, ◌∙◌, ◌≢◌, true, false, not, not-eq-true, Option, none, some, List, [], ◌∷◌,
  arith, holds, holds-eq-false, contains, ok, ensure-eq-ok, All, All-weaken, Pairwise, NotIn,
  Distinct, Disjoint, ℕ_discrete,
}
use gamenet.Lease.{TokenId, dec_token, LeaseTable, Entry}
use gamenet.Lease.Records.{LeaseRecord, Restored, add_recovery, add_retired, restored_entry}
use gamenet.Lease.WellFormed.{IsEntry, OtherKey, OtherSession}

-- An element of a set is no element that the set lacks.
pub contains-differ {ℓ} :
    {A : Type ℓ} (dec : Discrete A) (xs : List A) (a b : A)
    → contains dec xs a ≡ true
    → contains dec xs b ≡ false
    → a ≢ b
contains-differ dec xs a b h k e = let q : true ≡ false = sym h ∙ ap (contains dec xs) e ∙ k in cc

pub contains-later {ℓ} :
    {A : Type ℓ} (dec : Discrete A) (xs : List A) (x a : A)
    → contains dec xs a ≡ true
    → contains dec (x ∷ xs) a ≡ true
unfolding contains
contains-later dec xs x a h = ground (arith, h)

abbrev pub KeyIn : List TokenId → Option TokenId → Type 0
KeyIn ids none = Unit
KeyIn ids (some r) = contains dec_token ids r ≡ true

abbrev pub KeyNotIn : List TokenId → Option TokenId → Type 0
KeyNotIn ids none = Unit
KeyNotIn ids (some r) = contains dec_token ids r ≡ false

-- What the sets know of an entry of the table.
pub record IsKnown (s : Restored) (e : Entry) : Type 0 where
  pub port : contains ℕ_discrete s.ports e.1.port ≡ true
  pub token : contains dec_token s.tokens e.0 ≡ true
  pub retired : All (λ x. contains dec_token s.retired x ≡ true) e.1.retired_token_ids
  pub recovery : KeyIn s.recovery_ids e.1.recovery_id

-- `Apart`, without what the test after the loop adds.
pub record IsSeparate (e e' : Entry) : Type 0 where
  pub key : e'.0 ≢ e.0
  pub port : e'.1.port ≢ e.1.port
  pub recovery : OtherKey e.1.recovery_id e'.1.recovery_id
  pub retired : Disjoint e.1.retired_token_ids e'.1.retired_token_ids
  pub session : OtherSession e.1.status e'.1.status

pub record IsRestored (s : Restored) : Type 0 where
  pub entries : All (IsEntry 0) s.table.leases
  pub separate : Pairwise IsSeparate s.table.leases
  pub known : All (IsKnown s) s.table.leases
  pub sessions : s.table.next_session_id ≡ 0

pub record Grows (seen seen' : List TokenId) : Type 0 where
  pub keeps : (x : TokenId) → contains dec_token seen x ≡ true → contains dec_token seen' x ≡ true

-- What the loop over the retired identities has found.
pub record IsHistory (token : TokenId) (seen seen' ids : List TokenId) : Type 0 where
  pub own : NotIn token ids
  pub distinct : Distinct ids
  pub unseen : All (λ x. contains dec_token seen x ≡ false) ids
  pub seen_now : All (λ x. contains dec_token seen' x ≡ true) ids
  pub grows : Grows seen seen'

unseen_tail :
    (seen : List TokenId) (old x : TokenId)
    → contains dec_token (old ∷ seen) x ≡ false
    → (x ≢ old) × (contains dec_token seen x ≡ false)
unfolding contains
unseen_tail seen old x h =
    ((λ e. holds-eq-false (dec_token old x) (ground (arith, h)) (sym e)), ground (arith, h))

pub contains-first {ℓ} :
    {A : Type ℓ} (dec : Discrete A) (seen : List A) (x : A) → contains dec (x ∷ seen) x ≡ true
unfolding contains
contains-first dec seen x = elim (dec x x) [ yes p ↦ ground arith | no n ↦ absurd (n refl) ]

pub add_retired-eq-ok :
    (token : TokenId) (seen ids seen' : List TokenId)
    → add_retired token seen ids ≡ ok seen'
    → IsHistory token seen seen' ids
unfolding add_retired
add_retired-eq-ok token seen [] seen' h =
    let same : seen ≡ seen' = ground arith in
    record {
      own = tt;
      distinct = tt;
      unseen = tt;
      seen_now = tt;
      grows = record { keeps = λ x k. ap (λ xs. contains dec_token xs x) (sym same) ∙ k };
    }
add_retired-eq-ok token seen (old ∷ ids) seen' h =
    let (other, h₁) = ensure-eq-ok (not (holds (dec_token old token))) _ _ h in
    let (fresh, h₂) = ensure-eq-ok (not (contains dec_token seen old)) _ _ h₁ in
    let rest = add_retired-eq-ok token (old ∷ seen) ids seen' h₂ in
    record {
      own = (holds-eq-false (dec_token old token) (not-eq-true other), rest.own);
      distinct = (
        All-weaken (λ x. contains dec_token (old ∷ seen) x ≡ false) (λ x. x ≢ old) ids
            (λ x k. (unseen_tail seen old x k).0) rest.unseen,
        rest.distinct,
      );
      unseen = (
        not-eq-true fresh,
        All-weaken (λ x. contains dec_token (old ∷ seen) x ≡ false)
            (λ x. contains dec_token seen x ≡ false) ids (λ x k. (unseen_tail seen old x k).1)
            rest.unseen,
      );
      seen_now = (rest.grows.keeps old (contains-first dec_token seen old), rest.seen_now);
      grows = record { keeps = λ x k. rest.grows.keeps x (contains-later dec_token seen old x k) };
    }

pub add_recovery-eq-ok :
    (ids ids' : List TokenId) (o : Option TokenId)
    → add_recovery ids o ≡ ok ids'
    → KeyNotIn ids o × KeyIn ids' o × Grows ids ids'
add_recovery-eq-ok ids ids' none h =
    let same : ids ≡ ids' = ground arith in
    (tt, tt, record { keeps = λ x k. ap (λ xs. contains dec_token xs x) (sym same) ∙ k })
add_recovery-eq-ok ids ids' (some r) h =
    let (fresh, last) = ensure-eq-ok (not (contains dec_token ids r)) _ (ok (r ∷ ids)) h in
    let same : r ∷ ids ≡ ids' = ground arith in
    (
      not-eq-true fresh,
      ap (λ xs. contains dec_token xs r) (sym same) ∙ contains-first dec_token ids r,
      record {
        keeps = λ x k.
            ap (λ xs. contains dec_token xs x) (sym same) ∙ contains-later dec_token ids r x k;
      },
    )

-- The sets of a record that has been read.
module _ (t : LeaseTable) (s : Restored) (r : LeaseRecord) (ids seen : List TokenId) where
  abbrev pub after : Restored
  after = record {
    table = t;
    ports = r.port ∷ s.ports;
    tokens = r.token_id ∷ s.tokens;
    retired = seen;
    recovery_ids = ids;
  }

  KeyIn-grows :
      (o : Option TokenId) → Grows s.recovery_ids ids → KeyIn s.recovery_ids o → KeyIn ids o
  KeyIn-grows none g h = tt
  KeyIn-grows (some k) g h = g.keeps k h

  pub after-IsKnown :
      Grows s.retired seen → Grows s.recovery_ids ids → (e : Entry) → IsKnown s e → IsKnown after e
  after-IsKnown g g' e k = record {
    port = contains-later ℕ_discrete s.ports r.port e.1.port k.port;
    token = contains-later dec_token s.tokens r.token_id e.0 k.token;
    retired =
        All-weaken (λ x. contains dec_token s.retired x ≡ true)
          (λ x. contains dec_token seen x ≡ true) e.1.retired_token_ids g.keeps k.retired;
    recovery = KeyIn-grows e.1.recovery_id g' k.recovery;
  }

  OtherKey-known :
      (o o' : Option TokenId) → KeyNotIn s.recovery_ids o → KeyIn s.recovery_ids o' → OtherKey o o'
  OtherKey-known none o' h k = tt
  OtherKey-known (some a) none h k = tt
  OtherKey-known (some a) (some b) h k = contains-differ dec_token s.recovery_ids b a k h

  pub IsKnown-IsSeparate :
      contains ℕ_discrete s.ports r.port ≡ false
      → contains dec_token s.tokens r.token_id ≡ false
      → KeyNotIn s.recovery_ids r.recovery_id
      → IsHistory r.token_id s.retired seen r.retired_token_ids
      → (e : Entry) → IsKnown s e
      → IsSeparate (r.token_id, restored_entry r) e
  IsKnown-IsSeparate p q k h e known = record {
    key = contains-differ dec_token s.tokens e.0 r.token_id known.token q;
    port = contains-differ ℕ_discrete s.ports e.1.port r.port known.port p;
    recovery = OtherKey-known r.recovery_id e.1.recovery_id k known.recovery;
    retired =
        All-weaken (λ x. contains dec_token s.retired x ≡ false)
          (λ x. NotIn x e.1.retired_token_ids) r.retired_token_ids
          (λ x unseen.
            All-weaken (λ y. contains dec_token s.retired y ≡ true) (λ y. y ≢ x)
              e.1.retired_token_ids
              (λ y seen_y. contains-differ dec_token s.retired y x seen_y unseen) known.retired)
          h.unseen;
    session = tt;
  }
