-- ===== src/Agent/Recovered/Outcomes.antt =====
-- What the parts of a recovery that succeed have done: crates/cli/src/tunnel.rs.
use gamenet.Base.{
  ℕ, ◌≡◌, refl, sym, ap, ◌∙◌, Bool, true, false, not, none, some, ◌++◌, Result, ok, err,
}
use gamenet.Errors.{
  Error, not_found, closed_early, rejected, unexpected_response, pending_equals_current,
}
use gamenet.Hex.{Text, parse_recovery_code}
use gamenet.Protocol.{
  TunnelToken, register, tunnel_ready, new_connection, error, rotate_identity, identity_rotated,
  recover_identity, identity_recovered,
}
use gamenet.Identity.{
  FilePath, FileSystem, Faults, pure, ensure, read_existing, load_or_create_at, current_token,
  same_token, pending_suffix, pending_path, PendingRecovery, prepare_recovery_at, finish_recovery,
}
use gamenet.Identity.Files.{
  content, Keeps, Keeps-bind, Keeps-ensure, Keeps-read_existing, Keeps-current_token,
  Keeps-load_or_create_at,
}
use gamenet.Identity.Paths.{
  Environment, identity_name, identity_path, recovery_path, recovery_path-ne-pending,
}
use gamenet.Identity.Success.{bind-eq-ok, outcome-eq, no_outcome}
use gamenet.Identity.Rotation.{content-read}
use gamenet.Agent.{Answer, store_if, finish_if_recovered, typed, prompt, or_prompt, recovery_secret}

-- Where the key of a recovery comes from: a code that was typed, or the file, where it then is.
abbrev pub ComesFrom :
    FilePath → Result Error Text → FileSystem → FileSystem → TunnelToken → Bool → Type 0
ComesFrom recovery code fs fs' secret true =
    (text : Text) × (code ≡ ok text) × (parse_recovery_code text ≡ ok secret)
ComesFrom recovery code fs fs' secret false =
    (content (fs recovery) ≡ some secret) × (content (fs' recovery) ≡ some secret)

abbrev Chosen : Type 0
Chosen = TunnelToken × Bool

pub typed-eq-ok :
    (text : Text) (r : Result Error TunnelToken) (fs fs' : FileSystem) (secret : TunnelToken)
    (b : Bool)
    → parse_recovery_code text ≡ r
    → typed r fs ≡ (fs', ok (secret, b))
    → (parse_recovery_code text ≡ ok secret) × (b ≡ true)
typed-eq-ok text (err e) fs fs' secret b q h = absurd (no_outcome fs fs' e (secret, b) h)
typed-eq-ok text (ok s) fs fs' secret b q h =
    let (_, same) = outcome-eq fs fs' (s, true) (secret, b) h in
    (q ∙ ap (λ (c : Chosen). ok c.0) (sym same), ap (λ (c : Chosen). c.1) same)

prompt-eq-ok :
    (recovery : FilePath) (code : Result Error Text) (before fs fs' : FileSystem)
    (secret : TunnelToken) (b : Bool)
    → prompt code fs ≡ (fs', ok (secret, b))
    → ComesFrom recovery code before fs' secret b
prompt-eq-ok recovery (err e) before fs fs' secret b h = absurd (no_outcome fs fs' e (secret, b) h)
prompt-eq-ok recovery (ok text) before fs fs' secret b h =
    let (parsed, backup) = typed-eq-ok text (parse_recovery_code text) fs fs' secret b refl h in
    rw backup (text, refl, parsed)

or_prompt-eq-ok :
    (faults : Faults) (recovery : FilePath) (code : Result Error Text) (fs fs' : FileSystem)
    (secret : TunnelToken) (b : Bool) (r : FileSystem × Result Error TunnelToken)
    → read_existing faults recovery fs ≡ r
    → or_prompt code r ≡ (fs', ok (secret, b))
    → ComesFrom recovery code fs fs' secret b
or_prompt-eq-ok faults recovery code fs fs' secret b (fs₁, ok s) q h =
    let (last, same) = outcome-eq fs₁ fs' (s, false) (secret, b) h in
    let token : secret ≡ s = ap (λ (c : Chosen). c.0) same in
    let from_file : b ≡ false = ap (λ (c : Chosen). c.1) same in
    let (before, _) = content-read faults recovery fs fs₁ s q in
    let kept = Keeps-read_existing recovery faults recovery fs in
    let after : content (fs₁ recovery) ≡ some s =
      ap (λ (o : FileSystem × Result Error TunnelToken). content (o.0 recovery)) (sym q)
      ∙ kept
      ∙ before in
    rw (from_file, token, last) (before, after)
or_prompt-eq-ok faults recovery code fs fs' secret b (fs₁, err not_found) q h =
    prompt-eq-ok recovery code fs fs₁ fs' secret b h
or_prompt-eq-ok faults recovery code fs fs' secret b (fs₁, err e) q h =
    absurd (no_outcome fs₁ fs' e (secret, b) h)

pub recovery_secret-eq-ok :
    (faults : Faults) (recovery : FilePath) (use_backup_code : Bool) (code : Result Error Text)
    (fs fs' : FileSystem) (secret : TunnelToken) (b : Bool)
    → recovery_secret faults recovery use_backup_code code fs ≡ (fs', ok (secret, b))
    → ComesFrom recovery code fs fs' secret b
unfolding recovery_secret
recovery_secret-eq-ok faults recovery true code fs fs' secret b h =
    prompt-eq-ok recovery code fs fs fs' secret b h
recovery_secret-eq-ok faults recovery false code fs fs' secret b h =
    or_prompt-eq-ok faults recovery code fs fs' secret b (read_existing faults recovery fs) refl h

pub finish_if_recovered-eq-ok :
    (faults : Faults) (recovery : FilePath) (r : PendingRecovery) (secret : TunnelToken) (b : Bool)
    (answer : Answer) (fs fs' : FileSystem) (port : ℕ)
    → finish_if_recovered faults recovery r secret b answer fs ≡ (fs', ok port)
    → (answer ≡ ok (some (identity_recovered port)))
      × ((fs₁ : FileSystem) × (u v : Unit {0}) × (store_if faults recovery secret b fs
            ≡ (fs₁, ok u))
          × (finish_recovery faults r fs₁ ≡ (fs', ok v)))
unfolding finish_if_recovered
finish_if_recovered-eq-ok faults recovery r secret b (err e) fs fs' port h =
    absurd (no_outcome fs fs' e port h)
finish_if_recovered-eq-ok faults recovery r secret b (ok none) fs fs' port h =
    absurd (no_outcome fs fs' closed_early port h)
finish_if_recovered-eq-ok faults recovery r secret b (ok (some (identity_recovered q))) fs fs' port
      h =
    let (fs₁, u, e₁, h₁) = bind-eq-ok (store_if faults recovery secret b) _ fs fs' port h in
    let (fs₂, v, e₂, h₂) = bind-eq-ok (finish_recovery faults r) (λ _. pure q) fs₁ fs' port h₁ in
    let (last, same) = outcome-eq fs₂ fs' q port h₂ in
    (
      ap (λ x. ok (some (identity_recovered x))) (sym same),
      (fs₁, u, v, e₁, e₂ ∙ ap (λ x. (x, ok v)) (sym last)),
    )
finish_if_recovered-eq-ok faults recovery r secret b (ok (some (error text))) fs fs' port h =
    absurd (no_outcome fs fs' rejected port h)
finish_if_recovered-eq-ok faults recovery r secret b (ok (some (register q l t k))) fs fs' port h =
    absurd (no_outcome fs fs' unexpected_response port h)
finish_if_recovered-eq-ok faults recovery r secret b (ok (some (tunnel_ready q))) fs fs' port h =
    absurd (no_outcome fs fs' unexpected_response port h)
finish_if_recovered-eq-ok faults recovery r secret b (ok (some (new_connection i))) fs fs' port h =
    absurd (no_outcome fs fs' unexpected_response port h)
finish_if_recovered-eq-ok faults recovery r secret b (ok (some (rotate_identity c d))) fs fs' port
      h =
    absurd (no_outcome fs fs' unexpected_response port h)
finish_if_recovered-eq-ok faults recovery r secret b (ok (some (recover_identity c d))) fs fs' port
      h =
    absurd (no_outcome fs fs' unexpected_response port h)
finish_if_recovered-eq-ok faults recovery r secret b (ok (some (identity_rotated q))) fs fs' port
      h =
    absurd (no_outcome fs fs' unexpected_response port h)

-- To prepare a recovery changes nothing in the file of the key.
pub prepare_recovery-Keeps :
    (faults : Faults) (env : Environment) (candidate : TunnelToken)
    → Keeps (recovery_path env) (prepare_recovery_at faults (identity_path env) candidate)
unfolding prepare_recovery_at pending_path
prepare_recovery-Keeps faults env candidate =
    Keeps-bind recovery (current_token faults p) _ (Keeps-current_token recovery faults p) λ old fs.
      unfold identity_path in
      Keeps-bind recovery (load_or_create_at faults pending candidate) _
        (Keeps-load_or_create_at recovery faults pending candidate
          (λ e. recovery_path-ne-pending env (sym e)))
        (λ new.
          Keeps-bind recovery (ensure (not (same_token (some new) old)) pending_equals_current) _
            (Keeps-ensure recovery (not (same_token (some new) old)) pending_equals_current)
            λ _ fs. refl)
        fs
  where
    p : FilePath
    p = identity_path env

    recovery : FilePath
    recovery = recovery_path env

    pending : FilePath
    pending = record (identity_path env) { file_name = some (identity_name ++ pending_suffix) }
