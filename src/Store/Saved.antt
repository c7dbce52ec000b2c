-- ===== src/Store/Saved.antt =====
-- A state file that is read after it was saved: `save` and `load_or_create` of
-- crates/server/src/lease_store.rs.
use gamenet.Base.{
  ℕ, ◌≤◌, ◌≡◌, refl, ap, ◌∙◌, true, none, some, List, leb, length, ok, All, holds_of, arith,
}
use gamenet.HashMap.{get}
use gamenet.Lease.{TokenId, dec_token, LeaseTable, Entry}
use gamenet.Lease.Records.{LeaseRecord, to_record, snapshot}
use gamenet.Lease.Restore.{survivor}
use gamenet.Lease.WellFormed.{IsWellFormed}
use gamenet.Identity.{
  FilePath, dec_path, FileSystem, update, file, Faults, stat, read, temporary, chmod, write_all,
  sync, persist, sync_directory, attempt, symlink_metadata,
}
use gamenet.Identity.Success.{attempt-eq-ok, after_attempt}
use gamenet.Store.{Json, current, max_state_bytes, parse_state, encode_state}
use gamenet.Store.Records.{IsRecord}
use gamenet.Store.Reload.{Reads, document, parse_state-encode_state}
use gamenet.Store.Disk.{replace_file, save, load_node, load_or_create}

replace_file-update :
    (faults : Faults) (p : FilePath) (bytes : List ℕ) (fs fs' : FileSystem) (u : Unit {0})
    → replace_file faults p bytes fs ≡ (fs', ok u)
    → fs' ≡ update fs p (some (file bytes true))
unfolding replace_file
replace_file-update faults p bytes fs fs' u h =
    let h₁ = after_attempt faults temporary _ fs fs' u h in
    let h₂ = after_attempt faults chmod _ fs fs' u h₁ in
    let h₃ = after_attempt faults write_all _ fs fs' u h₂ in
    let h₄ = after_attempt faults sync _ fs fs' u h₃ in
    let h₅ = after_attempt faults persist _ fs fs' u h₄ in
    attempt-eq-ok faults sync_directory (update fs p (some (file bytes true))) fs' u h₅

module _ {V : Type 0} (json : Json V) (sha256 : List ℕ → List ℕ) where
  save-file :
      (faults : Faults) (p : FilePath) (records : List LeaseRecord) (bytes : List ℕ)
      (fs fs' : FileSystem) (u : Unit {0})
      → encode_state json sha256 records ≡ ok bytes
      → save json sha256 faults p records fs ≡ (fs', ok u)
      → fs' p ≡ some (file bytes true)
  unfolding save
  save-file faults p records bytes fs fs' u encoded h =
      let there = replace_file-update faults p bytes fs fs' u (rw (encoded, save) at h) in
      ap (λ (x : FileSystem). x p) there ∙ rw (holds_of (dec_path p p) refl) refl

  load_or_create-file :
      (faults : Faults) (partial : ℕ) (p : FilePath) (now : ℕ) (bytes : List ℕ) (t : LeaseTable)
      (fs : FileSystem)
      → fs p ≡ some (file bytes true)
      → faults stat ≡ none
      → faults read ≡ none
      → length bytes ≤ max_state_bytes
      → parse_state json sha256 bytes now ≡ ok (current t)
      → load_or_create json sha256 faults partial p now fs ≡ (fs, ok t)
  unfolding load_or_create
  load_or_create-file faults partial p now bytes t fs there found readable small parsed =
      let fits : leb (length bytes) max_state_bytes ≡ true = ground arith in
      rw (found, attempt, symlink_metadata, load_node, there, fits, readable, parsed) refl

  -- A well-formed table whose fingerprints are 32 bytes each is saved, in at most 1 MiB, and its file
  -- can be read later on: then it loads, and each claim whose expiry has not come by then is there,
  -- in grace until that expiry, and no other claim is.
  pub load_or_create-save :
      (t : LeaseTable) (now later : ℕ) (bytes : List ℕ) (faults faults' : Faults) (partial : ℕ)
      (p : FilePath) (fs fs' : FileSystem)
      → IsWellFormed t
      → All (λ (e : Entry). IsRecord (to_record now e)) t.leases
      → Reads json (document t now) bytes
      → length bytes ≤ max_state_bytes
      → save json sha256 faults p (snapshot t now) fs ≡ (fs', ok tt)
      → faults' stat ≡ none
      → faults' read ≡ none
      → (t' : LeaseTable) × (load_or_create json sha256 faults' partial p later fs' ≡ (fs', ok t'))
        × ((k : TokenId)
            → get dec_token k t'.leases ≡ survivor now later (get dec_token k t.leases))
  load_or_create-save t now later bytes faults faults' partial p fs fs' w h r small saved found
        readable =
      let (encoded, (t', parsed, left)) =
        parse_state-encode_state json sha256 t now later bytes w h r small in
      let there = save-file faults p (snapshot t now) bytes fs fs' tt encoded saved in
      (
        t',
        load_or_create-file faults' partial p later bytes t' fs' there found readable small parsed,
        left,
      )
