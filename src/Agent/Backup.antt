-- ===== src/Agent/Backup.antt =====
-- The `show-recovery-code` command of crates/cli/src/main.rs, and a code that it has shown.
use gamenet.Base.{
  ℕ, ◌≡◌, sym, ap, ◌∙◌, ◌<◌, true, false, ◌⊎◌, inl, inr, Option, some, ◌++◌, Result, ok, arith, All,
}
use gamenet.Errors.{Error}
use gamenet.Hex.{Text, is_whitespace, format_recovery_code, parse_recovery_code}
use gamenet.Hex.Codes.{IsToken, parse_recovery_code-format}
use gamenet.Protocol.{TunnelToken, recover_identity, identity_recovered}
use gamenet.Identity.{FileSystem, Faults, M, ◌>>=◌, pure, read_existing}
use gamenet.Identity.Files.{content}
use gamenet.Identity.Paths.{Environment, identity_path, recovery_path, read_recovery}
use gamenet.Identity.Success.{bind-eq-ok, outcome-eq, read_existing-eq-ok}
use gamenet.Agent.{Relay, recover_identity_at}
use gamenet.Agent.Recovered.{IsRecovered, recover_identity_at-IsRecovered}

-- What is printed.
unfoldable pub show_recovery_code : Faults → Environment → M Text
show_recovery_code faults env = do
  secret ← read_recovery faults env
  pure (format_recovery_code secret)

-- A code that is shown is that of the key in the file.
show_recovery_code-eq-ok :
    (faults : Faults) (env : Environment) (fs fs' : FileSystem) (text : Text)
    → show_recovery_code faults env fs ≡ (fs', ok text)
    → ((t : TunnelToken) → content (fs (recovery_path env)) ≡ some t → All (λ b. b < 256) t)
    → (secret : TunnelToken) × IsToken secret
      × (text ≡ format_recovery_code secret)
      × (content (fs (recovery_path env)) ≡ some secret)
unfolding show_recovery_code read_recovery
show_recovery_code-eq-ok faults env fs fs' text h octets =
    let (fs₁, secret, e, k) =
      bind-eq-ok (read_existing faults (recovery_path env)) (λ s. pure (format_recovery_code s)) fs
        fs' text h in
    let (_, there, _, sized) = read_existing-eq-ok faults (recovery_path env) fs fs₁ secret e in
    let here = ap content there in
    (
      secret,
      record { sized = sized; octets = octets secret here },
      (outcome-eq fs₁ fs' (format_recovery_code secret) text k).1,
      here,
    )

-- What a recovery with the code of this key has done.
pub record IsRecoveredWith (secret : TunnelToken) (env : Environment) (relay : Relay)
    (fs' : FileSystem) (port : ℕ) : Type 0 where
  pub new : TunnelToken
  pub acknowledged : relay (recover_identity secret new) ≡ ok (some (identity_recovered port))
  pub identity : content (fs' (identity_path env)) ≡ some new
  pub key : content (fs' (recovery_path env)) ≡ some secret

with_key :
    (env : Environment) (relay : Relay) (fs fs' : FileSystem) (text : Text) (secret : TunnelToken)
    (port : ℕ)
    → parse_recovery_code text ≡ ok secret
    → IsRecovered env true (ok text) relay fs fs' port
    → IsRecoveredWith secret env relay fs' port
with_key env relay fs fs' text secret port parsed r =
    let same : r.secret ≡ secret = token r.source in
    record {
      new = r.new;
      acknowledged = ap (λ s. relay (recover_identity s r.new)) (sym same) ∙ r.acknowledged;
      identity = r.after;
      key = r.key ∙ ap some same;
    }
  where
    token :
        ((code : Text) × (◌≡◌ {A = Result Error Text} (ok text) (ok code))
            × (parse_recovery_code code ≡ ok r.secret))
          ⊎ ((true ≡ false) × (content (fs (recovery_path env)) ≡ some r.secret))
        → r.secret ≡ secret
    token (inl (code, typed, e)) =
        let same : text ≡ code = ground arith in
        let again : parse_recovery_code text ≡ ok r.secret = ap parse_recovery_code same ∙ e in
        ground (arith, sym again ∙ parsed)
    token (inr (differ, e)) = absurd (ground arith)

-- A code that one machine has shown, typed on another one with blanks around it, is the key of the
-- first: a recovery with it that succeeds has asked the relay for the claim of that key, and the
-- second machine then holds the key and the new identity. The bytes of the first machine's file are
-- numbers below 256.
pub show_recovery_code-recovers :
    (faults faults' : Faults) (env env' : Environment) (fs fs₁ gs gs' : FileSystem)
    (text before after : Text) (candidate : TunnelToken) (connected : Option Error) (relay : Relay)
    (port : ℕ)
    → show_recovery_code faults env fs ≡ (fs₁, ok text)
    → ((t : TunnelToken) → content (fs (recovery_path env)) ≡ some t → All (λ b. b < 256) t)
    → All (λ c. is_whitespace c ≡ true) before
    → All (λ c. is_whitespace c ≡ true) after
    → recover_identity_at faults'
        (identity_path env')
        (recovery_path env')
        candidate
        true
        (ok (before ++ (text ++ after)))
        connected
        relay
        gs
      ≡ (gs', ok port)
    → (secret : TunnelToken) × (content (fs (recovery_path env)) ≡ some secret)
      × IsRecoveredWith secret env' relay gs' port
show_recovery_code-recovers faults faults' env env' fs fs₁ gs gs' text before after candidate
      connected relay port h octets b a k =
    let typed = before ++ (text ++ after) in
    let (secret, token, shown, there) = show_recovery_code-eq-ok faults env fs fs₁ text h octets in
    let parsed : parse_recovery_code typed ≡ ok secret =
      ap (λ t. parse_recovery_code (before ++ (t ++ after))) shown
      ∙ parse_recovery_code-format before after secret token b a in
    let done =
      recover_identity_at-IsRecovered faults' env' candidate true (ok typed) connected relay gs gs'
        port k in
    (secret, there, with_key env' relay gs gs' typed secret port parsed done)
