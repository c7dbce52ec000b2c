-- ===== src/Agent/Hosting/Same.antt =====
-- A host that reconnects is the same host: crates/cli/src/tunnel.rs and main.rs.
use gamenet.Base.{
  ℕ, ◌≡◌, refl, ap, subst, Bool, true, false, Option, some, List, [], ◌∷◌, Result, ok, err, arith,
}
use gamenet.Errors.{Error}
use gamenet.Hex.{Text}
use gamenet.Protocol.{TunnelToken, tunnel_ready}
use gamenet.Presets.{local_port_for}
use gamenet.Identity.{FileSystem}
use gamenet.Identity.Files.{content}
use gamenet.Identity.Paths.{Environment, identity_path, recovery_path}
use gamenet.Agent.{one_second, next_retry_delay, reconnects}
use gamenet.Agent.Hosting.Stays.{connect-Stays_identity, connect-Stays_recovery}
use gamenet.Agent.Hosting.Connected.{connect-eq-ok}
use gamenet.Agent.Hosting.{
  Attempt, registration, connect, host_loop, after_first, with_local_port, host,
}

module _ (sha256 : List ℕ → List ℕ) (env : Environment) (local_port : ℕ) where
  -- Each attempt that has succeeded has registered this identity with this key.
  abbrev pub Registered :
      TunnelToken → TunnelToken → List Attempt → List (ℕ × Result Error ℕ) → Type 0
  Registered token secret [] [] = Unit {0}
  Registered token secret [] (x ∷ log) = ⊥
  Registered token secret (a ∷ attempts) [] = ⊥
  Registered token secret (a ∷ attempts) ((delay, err e) ∷ log) =
      Registered token secret attempts log
  Registered token secret (a ∷ attempts) ((delay, ok port) ∷ log) =
      (a.relay (registration sha256 env local_port token secret) ≡ ok (some (tunnel_ready port)))
      × Registered token secret attempts log

abbrev pub succeeded : List (ℕ × Result Error ℕ) → List Bool
succeeded [] = []
succeeded ((delay, err e) ∷ log) = false ∷ succeeded log
succeeded ((delay, ok port) ∷ log) = true ∷ succeeded log

abbrev pub delays : List (ℕ × Result Error ℕ) → List ℕ
delays [] = []
delays ((delay, r) ∷ log) = delay ∷ delays log

module _ (sha256 : List ℕ → List ℕ) (env : Environment) (local_port : ℕ) where
  -- The files of the host hold the identity and the key.
  abbrev pub Holds : FileSystem → TunnelToken → TunnelToken → Type 0
  Holds fs token secret =
      (content (fs (identity_path env)) ≡ some token)
      × (content (fs (recovery_path env)) ≡ some secret)

  -- What the attempts have logged, from the delay before the first on.
  record IsLogged (token secret : TunnelToken) (delay : ℕ) (attempts : List Attempt)
      (r : FileSystem × List (ℕ × Result Error ℕ)) : Type 0 where
    same_host : Registered sha256 env local_port token secret attempts r.1
    files : Holds r.0 token secret
    waits : delays r.1 ≡ reconnects delay (succeeded r.1)

  pub connected :
      (a : Attempt) (fs fs' : FileSystem) (port : ℕ) (token secret : TunnelToken)
      → connect sha256 env local_port a fs ≡ (fs', ok port)
      → Holds fs' token secret
      → a.relay (registration sha256 env local_port token secret) ≡ ok (some (tunnel_ready port))
  connected a fs fs' port token secret h holds =
      let (token', secret', host) = connect-eq-ok sha256 env local_port a fs fs' port h in
      let same : token' ≡ token = ground (arith, host.identity, holds.0) in
      let same' : secret' ≡ secret = ground (arith, host.key, holds.1) in
      subst
        (λ t. a.relay (registration sha256 env local_port t secret) ≡ ok (some (tunnel_ready port)))
        same
        (subst
          (λ s.
            a.relay (registration sha256 env local_port token' s) ≡ ok (some (tunnel_ready port)))
          same' host.told)

  pub attempt-Holds :
      (a : Attempt) (fs : FileSystem) (token secret : TunnelToken)
      → Holds fs token secret
      → Holds (connect sha256 env local_port a fs).0 token secret
  attempt-Holds a fs token secret holds = (
    connect-Stays_identity sha256 env local_port a token fs holds.0,
    connect-Stays_recovery sha256 env local_port a secret fs holds.1,
  )

  host_loop-IsLogged :
      (delay : ℕ) (attempts : List Attempt) (fs : FileSystem) (token secret : TunnelToken)
      → Holds fs token secret
      → IsLogged token secret delay attempts (host_loop sha256 env local_port delay attempts fs)
  unfolding host_loop reconnects
  host_loop-IsLogged delay [] fs token secret holds = record {
    same_host = tt;
    files = holds;
    waits = refl;
  }
  host_loop-IsLogged delay (a ∷ attempts) fs token secret holds =
      go (connect sha256 env local_port a fs) refl (attempt-Holds a fs token secret holds)
        (λ next fs' h. host_loop-IsLogged next attempts fs' token secret h)
    where
      go :
          (r : FileSystem × Result Error ℕ)
          → connect sha256 env local_port a fs ≡ r
          → Holds r.0 token secret
          → ((next : ℕ) (fs' : FileSystem)
              → Holds fs' token secret
              → IsLogged token secret next attempts
                  (host_loop sha256 env local_port next attempts fs'))
          → IsLogged token secret delay
              (a ∷ attempts)
              (host_loop sha256 env local_port delay (a ∷ attempts) fs)
      go (fs', err e) q h later =
          let rest = later (next_retry_delay delay) fs' h in
          rw (q, host_loop)
            (record {
              same_host = rest.same_host;
              files = rest.files;
              waits = ap (λ ds. delay ∷ ds) rest.waits;
            })
      go (fs', ok port) q h later =
          let rest = later one_second fs' h in
          rw (q, host_loop)
            (record {
              same_host = (connected a fs fs' port token secret q h, rest.same_host);
              files = rest.files;
              waits = ap (λ ds. delay ∷ ds) rest.waits;
            })

-- What a `host` command that has got a tunnel has done, however its later attempts have gone.
pub record IsHosting (sha256 : List ℕ → List ℕ) (env : Environment) (game : Option Text)
    (port : Option ℕ) (first : Attempt) (attempts : List Attempt) (fs' : FileSystem)
    (log : List (ℕ × Result Error ℕ)) : Type 0 where
  pub local_port : ℕ
  pub token : TunnelToken
  pub secret : TunnelToken
  pub public_port : ℕ
  pub chosen : local_port_for game port ≡ ok local_port
  pub told :
      first.relay (registration sha256 env local_port token secret)
      ≡ ok (some (tunnel_ready public_port))
  pub same_host : Registered sha256 env local_port token secret attempts log
  pub files : Holds sha256 env local_port fs' token secret
  pub waits : delays log ≡ reconnects one_second (succeeded log)

-- Once a `host` command has a tunnel, each later attempt that succeeds, after whatever failures, has
-- registered the same identity, with the fingerprint of the same recovery key, for the same local
-- port; both are still in their files, whatever the operating system has refused and whatever random
-- bytes it has drawn; and the delays before the attempts are those of the reconnect loop.
pub host-IsHosting :
    (sha256 : List ℕ → List ℕ) (env : Environment) (game : Option Text) (port : Option ℕ)
    (first : Attempt) (attempts : List Attempt) (fs fs' : FileSystem)
    (log : List (ℕ × Result Error ℕ))
    → host sha256 env game port first attempts fs ≡ (fs', ok log)
    → IsHosting sha256 env game port first attempts fs' log
unfolding host
host-IsHosting sha256 env game port first attempts fs fs' log h =
    with_port (local_port_for game port) refl h
  where
    looped :
        (local_port : ℕ) (r : FileSystem × Result Error ℕ)
        → local_port_for game port ≡ ok local_port
        → connect sha256 env local_port first fs ≡ r
        → after_first r (host_loop sha256 env local_port one_second attempts) ≡ (fs', ok log)
        → IsHosting sha256 env game port first attempts fs' log
    looped local_port (fs₁, err e) c q k = absurd (ground arith)
    looped local_port (fs₁, ok public_port) c q k =
        let (token, secret, host) =
          connect-eq-ok sha256 env local_port first fs fs₁ public_port q in
        let logged =
          host_loop-IsLogged sha256 env local_port one_second attempts fs₁ token secret
            (host.identity, host.key) in
        let files : (host_loop sha256 env local_port one_second attempts fs₁).0 ≡ fs' =
          ground arith in
        let same : (host_loop sha256 env local_port one_second attempts fs₁).1 ≡ log =
          ground arith in
        record {
          local_port = local_port;
          token = token;
          secret = secret;
          public_port = public_port;
          chosen = c;
          told = host.told;
          same_host =
              subst (Registered sha256 env local_port token secret attempts) same logged.same_host;
          files = subst (λ s. Holds sha256 env local_port s token secret) files logged.files;
          waits = subst (λ l. delays l ≡ reconnects one_second (succeeded l)) same logged.waits;
        }

    with_port :
        (o : Result Error ℕ)
        → local_port_for game port ≡ o
        → with_local_port fs o (λ local_port.
          after_first
            (connect sha256 env local_port first fs)
            (host_loop sha256 env local_port one_second attempts))
          ≡ (fs', ok log)
        → IsHosting sha256 env game port first attempts fs' log
    with_port (err e) c k = absurd (ground arith)
    with_port (ok local_port) c k =
        looped local_port (connect sha256 env local_port first fs) c refl k
