-- ===== src/State/Runs.antt =====
-- Histories of the server state: the requests of hosts, the end of tunnels and the timer, with the
-- outcome of every write and every bind.
use gamenet.Base.{
  ℕ, ◌≡◌, refl, Bool, true, false, Option, List, [], ◌∷◌, ◌⊎◌, inl, inr, if◌then◌else◌, Bool-cases,
  Result, ok, err, All,
}
use gamenet.Address.{IpAddr}
use gamenet.Errors.{Error}
use gamenet.Lease.{TokenId, SessionId, LeaseTable, reap_expired, candidate_ports, end as end_lease}
use gamenet.Lease.Claims.{
  RotationResult, RecoveryResult, transferred, unchanged, rotate_claim, recover_claim,
}
use gamenet.Lease.Records.{LeaseRecord, snapshot}
use gamenet.Lease.Runs.{
  Call, reaps, asks, activates, ends as ends_lease, rotates as rotates_claim,
  recovers as recovers_claim, step as step_lease, step-IsWellFormed,
}
use gamenet.Lease.WellFormed.{IsWellFormed}
use gamenet.Lease.Quota.{IsWithinQuota, step-IsWithinQuota}
use gamenet.State.{
  SaveOutcome, written, not_written, written_unsynced, BindOutcome, bound, in_use, refused,
  ServerState, save, finish_registration, try_ports, try_candidates, finish_rotation,
  finish_recovery, register_with_recovery, end, rotate, recover, refresh_and_save,
}

pub data Request (C : Type 0) : Type 0 where
  registers :
      TokenId → Option TokenId → IpAddr → ℕ → Option C → (ℕ → BindOutcome) → SaveOutcome → Request C
  ends : TokenId → SessionId → ℕ → SaveOutcome → Request C
  rotates : TokenId → TokenId → ℕ → SaveOutcome → Request C
  recovers : TokenId → TokenId → IpAddr → ℕ → SaveOutcome → Request C
  refreshes : ℕ → SaveOutcome → Request C

module _ {C : Type 0} where
  unfoldable pub step : ServerState C → Request C → ServerState C
  step st (registers token r ip now c bind o) =
      (register_with_recovery st token r ip now c bind o).0
  step st (ends token s now o) = (end st token s now o).0
  step st (rotates old new now o) = (rotate st old new now o).0
  step st (recovers r new ip now o) = (recover st r new ip now o).0
  step st (refreshes now o) = (refresh_and_save st now o).0

  unfoldable pub run : ServerState C → List (Request C) → ServerState C
  run st [] = st
  run st (q ∷ qs) = run (step st q) qs

  -- What both the committed table and the kept table satisfy, the table after the write does.
  pub save-keeps {κ} :
      {A : Type 0} (P : LeaseTable → Type κ) (o : SaveOutcome) (records : List LeaseRecord)
      (fails st : ServerState C) (a : A)
      → P fails.leases
      → P st.leases
      → P (save o records fails st a).0.leases
  unfolding save
  save-keeps P written records fails st a f h = h
  save-keeps P (not_written e) records fails st a f h = f
  save-keeps P (written_unsynced e) records fails st a f h = f

pub BindOutcome-cases :
    (b : BindOutcome) → (b ≡ bound) ⊎ (b ≡ in_use) ⊎ ((e : Error) × (b ≡ refused e))
BindOutcome-cases bound = inl refl
BindOutcome-cases in_use = inr (inl refl)
BindOutcome-cases (refused e) = inr (inr (e, refl))

-- The request makes only calls of the lease table that are allowed.
abbrev pub Allows : {C : Type 0} → (Call → Type 0) → Request C → Type 0
Allows A (registers token r ip now c bind o) =
    A (asks token ip now) × ((port : ℕ) → A (activates token r ip port now))
Allows A (ends token s now o) = A (ends_lease token s now)
Allows A (rotates old new now o) = A (rotates_claim old new now)
Allows A (recovers r new ip now o) = A (recovers_claim r new ip now)
Allows A (refreshes now o) = A (reaps now)

-- A property of the lease table that its operations keep at the calls that are allowed.
module _ {κ} {C : Type 0} (P : LeaseTable → Type κ) (A : Call → Type 0)
    (keeps : (t : LeaseTable) (c : Call) → A c → P t → P (step_lease t c)) where
  finish_registration-keeps :
      (st : ServerState C) (token : TokenId) (now : ℕ) (c : Option C) (o : SaveOutcome) (port : ℕ)
      (staged : LeaseTable × Result Error SessionId)
      → P st.leases
      → P staged.0
      → P (finish_registration st token now c o port staged).0.leases
  unfolding finish_registration
  finish_registration-keeps st token now c o port (t, err e) h k = h
  finish_registration-keeps st token now c o port (t, ok s) h k = save-keeps P o _ st _ _ h k

  try_ports-keeps :
      (st : ServerState C) (token : TokenId) (r : Option TokenId) (ip : IpAddr) (now : ℕ)
      (c : Option C) (bind : ℕ → BindOutcome) (o : SaveOutcome) (ports : List ℕ)
      → ((port : ℕ) → A (activates token r ip port now))
      → P st.leases
      → P (try_ports st token r ip now c bind o ports).0.leases
  unfolding try_ports step_lease
  try_ports-keeps st token r ip now c bind o [] a h = h
  try_ports-keeps st token r ip now c bind o (p ∷ ps) a h = elim (BindOutcome-cases (bind p)) [
    | inl e ↦
        rw (e, try_ports)
          (finish_registration-keeps st token now c o p _ h
            (keeps st.leases (activates token r ip p now) (a p) h))
    | inr (inl e) ↦ rw (e, try_ports) (try_ports-keeps st token r ip now c bind o ps a h)
    | inr (inr (x, e)) ↦ rw (e, try_ports) h
  ]

  try_candidates-keeps :
      (st : ServerState C) (token : TokenId) (r : Option TokenId) (ip : IpAddr) (now : ℕ)
      (c : Option C) (bind : ℕ → BindOutcome) (o : SaveOutcome) (ports : Result Error (List ℕ))
      → ((port : ℕ) → A (activates token r ip port now))
      → P st.leases
      → P (try_candidates st token r ip now c bind o ports).0.leases
  unfolding try_candidates
  try_candidates-keeps st token r ip now c bind o (err e) a h = h
  try_candidates-keeps st token r ip now c bind o (ok ports) a h =
      try_ports-keeps st token r ip now c bind o ports a h

  finish_rotation-keeps :
      (st : ServerState C) (now : ℕ) (o : SaveOutcome)
      (staged : LeaseTable × Result Error RotationResult)
      → P st.leases
      → P staged.0
      → P (finish_rotation st now o staged).0.leases
  unfolding finish_rotation
  finish_rotation-keeps st now o (t, err e) h k = h
  finish_rotation-keeps st now o (t, ok (unchanged p)) h k = h
  finish_rotation-keeps st now o (t, ok (transferred p)) h k = save-keeps P o _ st _ _ h k

  finish_recovery-keeps :
      (st : ServerState C) (now : ℕ) (o : SaveOutcome)
      (staged : LeaseTable × Result Error RecoveryResult)
      → P st.leases
      → P staged.0
      → P (finish_recovery st now o staged).0.leases
  unfolding finish_recovery
  finish_recovery-keeps st now o (t, err e) h k = h
  finish_recovery-keeps st now o (t, ok result) h k = elim (Bool-cases result.changed) [
    | inl e ↦ rw e (save-keeps P o _ st _ _ h k)
    | inr e ↦ rw e h
  ]

  if-keeps :
      {A : Type 0} (b : Bool) (x y : ServerState C × A)
      → P x.0.leases
      → P y.0.leases
      → P (if b then x else y).0.leases
  if-keeps true x y h k = h
  if-keeps false x y h k = k

  -- Every such request keeps it, whatever the outcome of a write or a bind.
  pub step-allowed :
      (st : ServerState C) (q : Request C) → Allows A q → P st.leases → P (step st q).leases
  unfolding step step_lease register_with_recovery end rotate recover refresh_and_save
  step-allowed st (registers token r ip now c bind o) a h =
      let asked = candidate_ports st.leases token ip now in
      if-keeps st.persistence_healthy _ _
        (try_candidates-keeps (record st { leases = asked.0 }) token r ip now c bind o asked.1 a.1
          (keeps st.leases (asks token ip now) a.0 h))
        h
  step-allowed st (ends token s now o) a h =
      let k = keeps st.leases (ends_lease token s now) a h in
      if-keeps (end_lease st.leases token s now).1 _ _ (save-keeps P o _ _ _ _ k k) h
  step-allowed st (rotates old new now o) a h =
      if-keeps st.persistence_healthy _ _
        (finish_rotation-keeps st now o (rotate_claim st.leases old new now) h
          (keeps st.leases (rotates_claim old new now) a h))
        h
  step-allowed st (recovers r new ip now o) a h =
      if-keeps st.persistence_healthy _ _
        (finish_recovery-keeps st now o (recover_claim st.leases r new ip now) h
          (keeps st.leases (recovers_claim r new ip now) a h))
        h
  step-allowed st (refreshes now o) a h =
      let k = keeps st.leases (reaps now) a h in
      save-keeps P o (snapshot (reap_expired st.leases now) now)
        (record st { leases = reap_expired st.leases now })
        (record st { leases = reap_expired st.leases now; persistence_healthy = true }) tt k k

  pub run-allowed :
      (st : ServerState C) (qs : List (Request C))
      → All (Allows A) qs
      → P st.leases
      → P (run st qs).leases
  unfolding run
  run-allowed st [] a h = h
  run-allowed st (q ∷ qs) a h = run-allowed (step st q) qs a.1 (step-allowed st q a.0 h)

-- A property of the lease table that all its operations keep.
module _ {κ} {C : Type 0} (P : LeaseTable → Type κ)
    (keeps : (t : LeaseTable) (c : Call) → P t → P (step_lease t c)) where
  any_call : (q : Request C) → Allows (λ _. Unit {0}) q
  any_call (registers token r ip now c bind o) = (tt, λ _. tt)
  any_call (ends token s now o) = tt
  any_call (rotates old new now o) = tt
  any_call (recovers r new ip now o) = tt
  any_call (refreshes now o) = tt

  pub step-keeps : (st : ServerState C) (q : Request C) → P st.leases → P (step st q).leases
  step-keeps st q h = step-allowed P (λ _. Unit {0}) (λ t c _ k. keeps t c k) st q (any_call q) h

  pub run-keeps : (st : ServerState C) (qs : List (Request C)) → P st.leases → P (run st qs).leases
  unfolding run
  run-keeps st [] h = h
  run-keeps st (q ∷ qs) h = run-keeps (step st q) qs (step-keeps st q h)

-- From a server state whose lease table is well formed and within the limit on tunnels for each
-- network, any sequence of requests, with any outcomes of writes and binds, leads to such a state.
pub run-IsSound :
    {C : Type 0} (st : ServerState C) (qs : List (Request C))
    → IsWellFormed st.leases
    → IsWithinQuota st.leases
    → IsWellFormed (run st qs).leases × IsWithinQuota (run st qs).leases
run-IsSound st qs w q =
    run-keeps (λ t. IsWellFormed t × IsWithinQuota t)
      (λ t c h. (step-IsWellFormed t c h.0, step-IsWithinQuota t c h.0 h.1)) st qs (w, q)
