-- ===== src/Agent/Main.antt =====
-- crates/cli/src/main.rs: the commands, and what `main` does with them.
use gamenet.Base.{ℕ, ◌≡◌, ◌≢◌, Bool, Option, some, List, [], ◌∷◌, Result, ok, err}
use gamenet.Errors.{Error}
use gamenet.Hex.{Text}
use gamenet.Protocol.{TunnelToken, ControlMessage, identity_rotated, identity_recovered}
use gamenet.Presets.{local_port_for}
use gamenet.Identity.{FileSystem, Faults, M, ◌>>=◌, pure, read_existing}
use gamenet.Identity.Files.{content, Keeps-read_existing}
use gamenet.Identity.Paths.{Environment, identity_path, recovery_path, read_recovery}
use gamenet.Agent.{rotate_identity_at, recover_identity_at, one_second}
use gamenet.Agent.Acknowledged.{rotate_identity_at-Keeps, recover_identity_at-Keeps}
use gamenet.Agent.Backup.{show_recovery_code as show_code}
use gamenet.Agent.Hosting.{Attempt, connect, host_loop, after_first, with_local_port, host}
use gamenet.Agent.Hosting.Stays.{Stays, Stays-bind, Stays-Keeps, connect-Stays_identity}

-- The server and `--insecure` are left to `connect_quic`.
pub data Commands : Type 0 where
  host_game : Option Text → Option ℕ → Commands
  rotate_identity : Commands
  show_recovery_code : Commands
  recover_identity : Bool → Commands

-- What a command has printed, or the attempts of a host.
pub data Printed : Type 0 where
  code : Text → Printed
  recovered : ℕ → Printed
  rotated : Option ℕ → Printed
  hosted : List (ℕ × Result Error ℕ) → Printed

module _ (sha256 : List ℕ → List ℕ) (env : Environment) where
  -- `first` is what is outside at the command, or at the first attempt of a host; `attempts` are the
  -- later ones; `typed` is what is typed at the prompt.
  unfoldable pub main : Commands → Attempt → List Attempt → Result Error Text → M Printed
  main (host_game game port) first attempts typed = do
    log ← host sha256 env game port first attempts
    pure (hosted log)
  main Commands.rotate_identity first attempts typed = do
    port ←
        rotate_identity_at first.faults (identity_path env) first.candidate first.connected
          first.relay
    pure (rotated port)
  main Commands.show_recovery_code first attempts typed = do
    text ← show_code first.faults env
    pure (code text)
  main (Commands.recover_identity use_backup_code) first attempts typed = do
    port ←
        recover_identity_at first.faults (identity_path env) (recovery_path env) first.candidate
          use_backup_code typed first.connected first.relay
    pure (recovered port)

  module _ (t : TunnelToken) where
    host_loop-Stays :
        (local_port : ℕ) (attempts : List Attempt) (delay : ℕ) (fs : FileSystem)
        → content (fs (identity_path env)) ≡ some t
        → content ((host_loop sha256 env local_port delay attempts fs).0 (identity_path env))
          ≡ some t
    unfolding host_loop
    host_loop-Stays local_port [] delay fs h = h
    host_loop-Stays local_port (a ∷ attempts) delay fs h =
        host_loop-Stays local_port attempts _ (connect sha256 env local_port a fs).0
          (connect-Stays_identity sha256 env local_port a t fs h)

    host-Stays :
        (game : Option Text) (port : Option ℕ) (first : Attempt) (attempts : List Attempt)
        → Stays (identity_path env) t (host sha256 env game port first attempts)
    unfolding host
    host-Stays game port first attempts fs h = with_port (local_port_for game port)
      where
        looped :
            (local_port : ℕ) (r : FileSystem × Result Error ℕ)
            → content (r.0 (identity_path env)) ≡ some t
            → content (
                (after_first r (host_loop sha256 env local_port one_second attempts)).0
                  (identity_path env))
              ≡ some t
        looped local_port (fs₁, err e) k = k
        looped local_port (fs₁, ok p) k = host_loop-Stays local_port attempts one_second fs₁ k

        with_port :
            (o : Result Error ℕ)
            → content (
                (with_local_port fs o (λ local_port.
                    after_first
                      (connect sha256 env local_port first fs)
                      (host_loop sha256 env local_port one_second attempts))).0
                  (identity_path env))
              ≡ some t
        with_port (err e) = h
        with_port (ok local_port) =
            looped local_port (connect sha256 env local_port first fs)
              (connect-Stays_identity sha256 env local_port first t fs h)

    show_recovery_code-Stays :
        (faults : Faults) → Stays (identity_path env) t (show_code faults env)
    unfolding show_code read_recovery
    show_recovery_code-Stays faults =
        let p = identity_path env in
        Stays-bind p t (read_existing faults (recovery_path env)) _
          (Stays-Keeps p t (read_existing faults (recovery_path env))
            (Keeps-read_existing p faults (recovery_path env)))
          λ s fs h. h

    -- While the relay acknowledges neither a rotation nor a recovery, the identity of the user stays
    -- what it is, whatever command is run and however often a host connects, whatever the operating
    -- system refuses and whatever is typed.
    pub main-Stays :
        (command : Commands) (first : Attempt) (attempts : List Attempt) (typed : Result Error Text)
        → ((m : ControlMessage) (port : Option ℕ)
            → first.relay m ≢ ok (some (identity_rotated port)))
        → ((m : ControlMessage) (port : ℕ) → first.relay m ≢ ok (some (identity_recovered port)))
        → (fs : FileSystem) → content (fs (identity_path env)) ≡ some t
        → content ((main command first attempts typed fs).0 (identity_path env)) ≡ some t
    unfolding main
    main-Stays (host_game game port) first attempts typed n n' =
        Stays-bind (identity_path env) t (host sha256 env game port first attempts) _
          (host-Stays game port first attempts) λ log fs h. h
    main-Stays Commands.rotate_identity first attempts typed n n' =
        let p = identity_path env in
        let m = rotate_identity_at first.faults p first.candidate first.connected first.relay in
        Stays-bind p t m _
          (Stays-Keeps p t m
            (rotate_identity_at-Keeps first.faults p first.candidate first.connected first.relay n))
          λ port fs h. h
    main-Stays Commands.show_recovery_code first attempts typed n n' =
        Stays-bind (identity_path env) t (show_code first.faults env) _
          (show_recovery_code-Stays first.faults) λ text fs h. h
    main-Stays (Commands.recover_identity backup) first attempts typed n n' =
        let p = identity_path env in
        let q = recovery_path env in
        let m =
          recover_identity_at first.faults p q first.candidate backup typed first.connected
            first.relay in
        Stays-bind p t m _
          (Stays-Keeps p t m (
            recover_identity_at-Keeps first.faults p q first.candidate backup typed first.connected
              first.relay n'))
          λ port fs h. h
