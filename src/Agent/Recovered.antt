-- ===== src/Agent/Recovered.antt =====
-- What a recovery that succeeds has done: crates/cli/src/tunnel.rs.
mod Outcomes
use gamenet.Base.{
  ℕ, ◌≡◌, refl, sym, ap, ◌∙◌, ◌≢◌, ◌⊎◌, inl, inr, Bool, true, false, not, Option, none, some, ◌++◌,
  Result, ok, err, arith,
}
use gamenet.Errors.{
  Error, not_found, closed_early, rejected, unexpected_response, pending_equals_current,
}
use gamenet.Hex.{Text, parse_recovery_code}
use gamenet.Protocol.{
  TunnelToken, register, tunnel_ready, new_connection, error, rotate_identity, identity_rotated,
  recover_identity, identity_recovered,
}
use gamenet.Identity.{
  FilePath, FileSystem, Faults, pure, ensure, read_existing, load_or_create_at, current_token,
  same_token, pending_suffix, pending_path, PendingRecovery, prepare_recovery_at, finish_recovery,
}
use gamenet.Identity.Files.{
  content, Keeps, Keeps-bind, Keeps-ensure, Keeps-read_existing, Keeps-current_token,
  Keeps-load_or_create_at,
}
use gamenet.Identity.Paths.{
  Environment, identity_name, identity_path, recovery_path, recovery_path-ne,
  recovery_path-ne-pending,
}
use gamenet.Identity.Success.{bind-eq-ok, outcome-eq, no_outcome}
use gamenet.Identity.Rotation.{content-read}
use gamenet.Identity.Recovery.{
  prepare_recovery_at-eq-ok, finish_recovery-eq-ok, Keeps-finish_recovery, store_recovery_at-eq-ok,
}
use gamenet.Agent.{
  Answer, Relay, connect_quic, store_if, finish_if_recovered, recover_on_connection, typed, prompt,
  or_prompt, recovery_secret, recover_identity_at,
}
use gamenet.Agent.Acknowledged.{Keeps-connect_quic}
use gamenet.Agent.Recovered.Outcomes.{
  ComesFrom, typed-eq-ok, recovery_secret-eq-ok, finish_if_recovered-eq-ok, prepare_recovery-Keeps,
}

-- The relay was asked to give the claim of the key to the new identity, and said that it had; the new
-- identity is in its file, and the key in the file of the key.
pub record IsRecovered (env : Environment) (use_backup_code : Bool) (code : Result Error Text)
    (relay : Relay) (fs fs' : FileSystem) (port : ℕ) : Type 0 where
  pub secret : TunnelToken
  pub new : TunnelToken
  pub acknowledged : relay (recover_identity secret new) ≡ ok (some (identity_recovered port))
  pub after : content (fs' (identity_path env)) ≡ some new
  pub key : content (fs' (recovery_path env)) ≡ some secret
  pub source :
      ((text : Text) × (code ≡ ok text) × (parse_recovery_code text ≡ ok secret))
      ⊎ ((use_backup_code ≡ false) × (content (fs (recovery_path env)) ≡ some secret))

-- The key is in its file before the new identity is installed.
stored :
    (faults : Faults) (env : Environment) (code : Result Error Text) (secret : TunnelToken)
    (b : Bool) (fs fs₁ fs₃ fs₄ : FileSystem) (u : Unit {0})
    → ComesFrom (recovery_path env) code fs fs₁ secret b
    → content (fs₃ (recovery_path env)) ≡ content (fs₁ (recovery_path env))
    → store_if faults (recovery_path env) secret b fs₃ ≡ (fs₄, ok u)
    → content (fs₄ (recovery_path env)) ≡ some secret
stored faults env code secret true fs fs₁ fs₃ fs₄ u from same h =
    ap content (store_recovery_at-eq-ok faults (recovery_path env) secret fs₃ fs₄ u h)
stored faults env code secret false fs fs₁ fs₃ fs₄ u from same h =
    let (last, _) = outcome-eq fs₃ fs₄ tt u h in
    ap (λ (s : FileSystem). content (s (recovery_path env))) last ∙ same ∙ from.1

-- A code that is typed is a backup.
prompt-backup :
    (code : Result Error Text) (fs fs' : FileSystem) (secret : TunnelToken) (b : Bool)
    → prompt code fs ≡ (fs', ok (secret, b))
    → b ≡ true
prompt-backup (err e) fs fs' secret b h = absurd (no_outcome fs fs' e (secret, b) h)
prompt-backup (ok text) fs fs' secret b h =
    (typed-eq-ok text (parse_recovery_code text) fs fs' secret b refl h).1

came_from :
    (faults : Faults) (recovery : FilePath) (use_backup_code : Bool) (code : Result Error Text)
    (fs fs₁ : FileSystem) (secret : TunnelToken) (b : Bool)
    → recovery_secret faults recovery use_backup_code code fs ≡ (fs₁, ok (secret, b))
    → ComesFrom recovery code fs fs₁ secret b
    → ((text : Text) × (code ≡ ok text) × (parse_recovery_code text ≡ ok secret))
      ⊎ ((use_backup_code ≡ false) × (content (fs recovery) ≡ some secret))
unfolding recovery_secret
came_from faults recovery backup code fs fs₁ secret true e h = inl h
came_from faults recovery false code fs fs₁ secret false e h = inr (refl, h.0)
came_from faults recovery true code fs fs₁ secret false e h =
    let typed_in = prompt-backup code fs fs₁ secret false e in absurd (ground arith)

-- A recovery of the user's identity that succeeds, with a code that was typed or the key of the file,
-- has been acknowledged by the relay for that key and the new identity; then the new identity is in
-- its file, and the key, also one that was typed, in the file of the key.
pub recover_identity_at-IsRecovered :
    (faults : Faults) (env : Environment) (candidate : TunnelToken) (use_backup_code : Bool)
    (code : Result Error Text) (connected : Option Error) (relay : Relay) (fs fs' : FileSystem)
    (port : ℕ)
    → recover_identity_at faults
        (identity_path env)
        (recovery_path env)
        candidate
        use_backup_code
        code
        connected
        relay
        fs
      ≡ (fs', ok port)
    → IsRecovered env use_backup_code code relay fs fs' port
unfolding recover_identity_at recover_on_connection
recover_identity_at-IsRecovered faults env candidate backup code connected relay fs fs' port h =
    let p = identity_path env in
    let recovery = recovery_path env in
    let (fs₁, chosen, e₁, h₁) =
      bind-eq-ok (recovery_secret faults recovery backup code) _ fs fs' port h in
    let secret : TunnelToken = chosen.0 in
    let b : Bool = chosen.1 in
    let from = recovery_secret-eq-ok faults recovery backup code fs fs₁ secret b e₁ in
    let (fs₂, r, e₂, h₂) = bind-eq-ok (prepare_recovery_at faults p candidate) _ fs₁ fs' port h₁ in
    let (fs₃, _, e₃, h₃) = bind-eq-ok (connect_quic connected) _ fs₂ fs' port h₂ in
    let answer = relay (recover_identity secret r.new_token) in
    let (said, (fs₄, u, v, e₄, e₅)) =
      finish_if_recovered-eq-ok faults recovery r secret b answer fs₃ fs' port h₃ in
    let (here, apart, named) = prepare_recovery_at-eq-ok faults p candidate fs₁ fs₂ r e₂ in
    let elsewhere : r.pending ≢ recovery = λ z.
      recovery_path-ne-pending env (sym z ∙ named identity_name (unfold identity_path in refl)) in
    let (new, _) = finish_recovery-eq-ok faults r fs₄ fs' v (λ z. apart (z ∙ here)) e₅ in
    let prepared =
      ap (λ (o : FileSystem × Result Error PendingRecovery). content (o.0 recovery)) (sym e₂)
      ∙ prepare_recovery-Keeps faults env candidate fs₁ in
    let connecting =
      ap (λ (o : FileSystem × Result Error (Unit {0})). content (o.0 recovery)) (sym e₃)
      ∙ Keeps-connect_quic recovery connected fs₂ in
    let finished =
      ap (λ (o : FileSystem × Result Error (Unit {0})). content (o.0 recovery)) (sym e₅)
      ∙ Keeps-finish_recovery recovery faults r elsewhere (λ z. recovery_path-ne env (sym z ∙ here))
          fs₄ in
    record {
      secret = secret;
      new = r.new_token;
      acknowledged = said;
      after = sym (ap (λ q. content (fs' q)) here) ∙ new;
      key =
          finished
          ∙ stored faults env code secret b fs fs₁ fs₃ fs₄ u from (connecting ∙ prepared) e₄;
      source = came_from faults recovery backup code fs fs₁ secret b e₁ from;
    }
