-- ===== src/Store/Reload.antt =====
-- A lease table that is saved and read back: the records are ordered by their ports in between.
use gamenet.Base.{
  ℕ, ◌≤◌, ◌≡◌, refl, sym, ap, ◌∙◌, true, some, List, [], ◌∷◌, map, All, Pairwise, Bool-cases, inl,
  inr, if◌then◌else◌, leb, length, holds, ok, arith,
}
use gamenet.HashMap.{get}
use gamenet.Lease.{TokenId, dec_token, LeaseTable, Entry}
use gamenet.Lease.Records.{to_record, snapshot, restore}
use gamenet.Lease.Restore.{survivor, restore-snapshot}
use gamenet.Lease.WellFormed.{IsEntry, Apart, Apart-sym, IsWellFormed}
use gamenet.Store.{
  PersistedLease, PersistedV2, Json, current, max_state_bytes, from_record, insert_by_port,
  sort_by_port, parse_v2, parse_state, encode_state,
}
use gamenet.Store.Records.{IsRecord, into_records-from_record}

-- The entries in the order of their ports.
abbrev insert_entry : Entry → List Entry → List Entry
insert_entry e [] = e ∷ []
insert_entry e (x ∷ xs) =
    let rest = insert_entry e xs in if leb e.1.port x.1.port then e ∷ x ∷ xs else x ∷ rest

abbrev by_port : List Entry → List Entry
by_port [] = []
by_port (e ∷ es) = insert_entry e (by_port es)

abbrev saved : ℕ → Entry → PersistedLease
saved now e = from_record (to_record now e)

insert_by_port-saved :
    (now : ℕ) (e : Entry) (es : List Entry)
    → insert_by_port (saved now e) (map (saved now) es) ≡ map (saved now) (insert_entry e es)
unfolding from_record
insert_by_port-saved now e [] = refl
insert_by_port-saved now e (x ∷ xs) = elim (Bool-cases (leb e.1.port x.1.port)) [
  | inl t ↦ rw t
  | inr t ↦ rw (t, insert_by_port-saved now e xs)
]

sort_by_port-saved :
    (now : ℕ) (es : List Entry)
    → sort_by_port (map from_record (map (to_record now) es)) ≡ map (saved now) (by_port es)
unfolding sort_by_port
sort_by_port-saved now [] = refl
sort_by_port-saved now (e ∷ es) =
    ap (insert_by_port (saved now e)) (sort_by_port-saved now es)
    ∙ insert_by_port-saved now e (by_port es)

module _ {κ} (P : Entry → Type κ) where
  All-insert_entry : (e : Entry) (es : List Entry) → P e → All P es → All P (insert_entry e es)
  All-insert_entry e [] p h = (p, tt)
  All-insert_entry e (x ∷ xs) p h = elim (Bool-cases (leb e.1.port x.1.port)) [
    | inl t ↦ rw t (p, h)
    | inr t ↦ rw t (h.0, All-insert_entry e xs p h.1)
  ]

  All-by_port : (es : List Entry) → All P es → All P (by_port es)
  All-by_port [] h = tt
  All-by_port (e ∷ es) h = All-insert_entry e (by_port es) h.0 (All-by_port es h.1)

Apart-insert_entry :
    (e : Entry) (es : List Entry)
    → All (Apart e) es
    → Pairwise Apart es
    → Pairwise Apart (insert_entry e es)
Apart-insert_entry e [] h k = (tt, tt)
Apart-insert_entry e (x ∷ xs) h k = elim (Bool-cases (leb e.1.port x.1.port)) [
  | inl t ↦ rw t (h, k)
  | inr t ↦
      rw t
        (All-insert_entry (Apart x) e xs (Apart-sym e x h.0) k.0, Apart-insert_entry e xs h.1 k.1)
]

Apart-by_port : (es : List Entry) → Pairwise Apart es → Pairwise Apart (by_port es)
Apart-by_port [] h = tt
Apart-by_port (e ∷ es) h =
    Apart-insert_entry e (by_port es) (All-by_port (Apart e) es h.0) (Apart-by_port es h.1)

get-insert_entry :
    (e : Entry) (es : List Entry) (k : TokenId)
    → All (Apart e) es
    → get dec_token k (insert_entry e es) ≡ get dec_token k (e ∷ es)
unfolding get
get-insert_entry e [] k h = refl
get-insert_entry e (x ∷ xs) k h = elim (Bool-cases (leb e.1.port x.1.port)) [
  | inl t ↦ rw t
  | inr t ↦ rw (t, get-insert_entry e xs k h.1) (swap (dec_token e.0 k) (dec_token x.0 k))
]
  where
    swap :
        (d : Dec (e.0 ≡ k)) (d' : Dec (x.0 ≡ k))
        → (if holds d' then some x.1 else (if holds d then some e.1 else get dec_token k xs))
          ≡ (if holds d then some e.1 else (if holds d' then some x.1 else get dec_token k xs))
    swap (yes p) (yes q) = absurd (h.0.key (q ∙ sym p))
    swap (yes p) (no q) = refl
    swap (no p) d' = refl

get-by_port :
    (es : List Entry) (k : TokenId)
    → Pairwise Apart es
    → get dec_token k (by_port es) ≡ get dec_token k es
unfolding get
get-by_port [] k h = refl
get-by_port (e ∷ es) k h =
    get-insert_entry e (by_port es) k (All-by_port (Apart e) es h.0)
    ∙ ap (λ rest. if holds (dec_token e.0 k) then some e.1 else rest) (get-by_port es k h.1)

All-map-IsRecord :
    (now : ℕ) (es : List Entry)
    → All (λ (e : Entry). IsRecord (to_record now e)) es
    → All IsRecord (map (to_record now) es)
All-map-IsRecord now [] h = tt
All-map-IsRecord now (e ∷ es) h = (h.0, All-map-IsRecord now es h.1)

map-saved :
    (now : ℕ) (es : List Entry) → map (saved now) es ≡ map from_record (map (to_record now) es)
map-saved now [] = refl
map-saved now (e ∷ es) = ap (λ rest. saved now e ∷ rest) (map-saved now es)

-- What the theorem on reading back assumes of the crate `serde_json`: the bytes of a document are
-- read as a value that has a version and is that document.
pub record Reads {V : Type 0} (json : Json V) (document : PersistedV2) (bytes : List ℕ)
    : Type 0 where
  pub value : V
  pub written : json.to_vec_pretty document ≡ ok bytes
  pub parsed : json.from_slice bytes ≡ ok value
  pub versioned : json.has_version value ≡ true
  pub decoded : json.to_v2 value ≡ ok document

-- The document that `save` writes.
abbrev pub document : LeaseTable → ℕ → PersistedV2
document t now = record { version = 2; leases = sort_by_port (map from_record (snapshot t now)) }

parse_v2-document :
    (t : LeaseTable) (now later : ℕ)
    → All (λ (e : Entry). IsRecord (to_record now e)) t.leases
    → parse_v2 (document t now) later
      ≡ restore (snapshot (record t { leases = by_port t.leases }) now) later
unfolding snapshot
parse_v2-document t now later h = rw (
  sort_by_port-saved now t.leases,
  map-saved now (by_port t.leases),
  into_records-from_record (map (to_record now) (by_port t.leases)) (
      All-map-IsRecord now (by_port t.leases)
        (All-by_port (λ (e : Entry). IsRecord (to_record now e)) t.leases h)),
)

module _ {V : Type 0} (json : Json V) (sha256 : List ℕ → List ℕ) where
  -- A well-formed table whose fingerprints are 32 bytes each is saved at `now`, in at most 1 MiB,
  -- and read at `later`, if `serde_json` reads back the document that it writes: each claim whose
  -- expiry has not come by then is there, in grace until that expiry, and no other claim is.
  pub parse_state-encode_state :
      (t : LeaseTable) (now later : ℕ) (bytes : List ℕ)
      → IsWellFormed t
      → All (λ (e : Entry). IsRecord (to_record now e)) t.leases
      → Reads json (document t now) bytes
      → length bytes ≤ max_state_bytes
      → (encode_state json sha256 (snapshot t now) ≡ ok bytes)
        × ((t' : LeaseTable) × (parse_state json sha256 bytes later ≡ ok (current t'))
            × ((k : TokenId)
                → get dec_token k t'.leases ≡ survivor now later (get dec_token k t.leases)))
  unfolding encode_state parse_state
  parse_state-encode_state t now later bytes w h r fits =
      let small : leb (length bytes) max_state_bytes ≡ true = ground arith in
      let ordered : LeaseTable = record t { leases = by_port t.leases } in
      let well : IsWellFormed ordered = record {
        entries = All-by_port (IsEntry t.next_session_id) t.leases w.entries;
        apart = Apart-by_port t.leases w.apart;
      } in
      let (t', restored, _, found) = restore-snapshot ordered now later well in
      (
        rw (r.written, small),
        (
          t',
          rw (small, r.parsed, r.versioned, r.decoded, parse_v2-document t now later h, restored),
          λ k. found k ∙ ap (survivor now later) (get-by_port t.leases k w.apart),
        ),
      )
