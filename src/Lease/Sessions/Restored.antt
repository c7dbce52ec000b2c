-- ===== src/Lease/Sessions/Restored.antt =====
-- crates/server/src/lease.rs: no session runs in a table that `restore` makes.
use gamenet.Base.{
  ℕ, ◌≡◌, subst, List, [], ◌∷◌, inl, inr, leb, Bool-cases, >>=-eq-ok, ensure-eq-ok, ok, not,
  contains, any, length, ◌-◌, ◌+◌, ℕ_discrete, arith,
}
use gamenet.Lease.{
  TokenId, dec_token, SessionId, LeaseTable, new, max_retired_identities, port_start, port_end,
}
use gamenet.Lease.Records.{
  LeaseRecord, Restored, restored_entry, add_unexpired, add_recovery, add_retired, in_pool,
  restore_one, restore_all, nothing_restored, restore,
}
use gamenet.Lease.Sessions.{RunsOnly, insert-Owned}

module _ {κ} (Q : TokenId → SessionId → Type κ) where
  add_unexpired-RunsOnly :
      (now : ℕ) (r : LeaseRecord) (t : LeaseTable)
      → RunsOnly Q t
      → RunsOnly Q (add_unexpired now r t)
  add_unexpired-RunsOnly now r t h = elim (Bool-cases (leb r.expires_at_ms now)) [
    | inl e ↦ rw (e, add_unexpired) h
    | inr e ↦ rw (e, add_unexpired) (insert-Owned Q r.token_id (restored_entry r) t.leases tt h)
  ]

  restore_one-RunsOnly :
      (now : ℕ) (s s' : Restored) (r : LeaseRecord)
      → restore_one now s r ≡ ok s'
      → RunsOnly Q s.table
      → RunsOnly Q s'.table
  unfolding restore_one
  restore_one-RunsOnly now s s' r h w =
      let (_, h₁) = ensure-eq-ok (in_pool r.port) _ _ h in
      let (_, h₂) = ensure-eq-ok (not (contains ℕ_discrete s.ports r.port)) _ _ h₁ in
      let (_, h₃) = ensure-eq-ok (not (contains dec_token s.tokens r.token_id)) _ _ h₂ in
      let (ids, _, h₄) = >>=-eq-ok (add_recovery s.recovery_ids r.recovery_id) _ h₃ in
      let (_, h₅) = ensure-eq-ok (leb (length r.retired_token_ids) max_retired_identities) _ _ h₄ in
      let (seen, _, h₆) = >>=-eq-ok (add_retired r.token_id s.retired r.retired_token_ids) _ h₅ in
      let same : add_unexpired now r s.table ≡ s'.table = ground arith in
      subst (RunsOnly Q) same (add_unexpired-RunsOnly now r s.table w)

  restore_all-RunsOnly :
      (now : ℕ) (s s' : Restored) (rs : List LeaseRecord)
      → restore_all now s rs ≡ ok s'
      → RunsOnly Q s.table
      → RunsOnly Q s'.table
  unfolding restore_all
  restore_all-RunsOnly now s s' [] h w =
      let same : s ≡ s' = ground arith in subst (λ (x : Restored). RunsOnly Q x.table) same w
  restore_all-RunsOnly now s s' (r ∷ rs) h w =
      let (t, one, rest) = >>=-eq-ok (restore_one now s r) _ h in
      restore_all-RunsOnly now t s' rs rest (restore_one-RunsOnly now s t r one w)

  pub restore-RunsOnly :
      (records : List LeaseRecord) (now : ℕ) (t : LeaseTable)
      → restore records now ≡ ok t
      → RunsOnly Q t
  unfolding restore new
  restore-RunsOnly records now t h =
      let (_, h₁) = ensure-eq-ok (leb (length records) (port_end - port_start + 1)) _ _ h in
      let (s, all, h₂) = >>=-eq-ok (restore_all now nothing_restored records) _ h₁ in
      let (_, h₃) =
        ensure-eq-ok (not (any (contains dec_token s.retired) s.tokens)) _ (ok s.table) h₂ in
      let same : s.table ≡ t = ground arith in
      subst (RunsOnly Q) same (restore_all-RunsOnly now nothing_restored s records all tt)
