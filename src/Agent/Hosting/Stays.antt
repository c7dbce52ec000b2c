-- ===== src/Agent/Hosting/Stays.antt =====
-- An attempt to connect leaves the identity and the key that are there: `AgentTunnel::connect`
-- of crates/cli/src/tunnel.rs.
use gamenet.Base.{ℕ, ◌≡◌, refl, sym, ◌∙◌, Option, none, some, List, Result, ok, err, arith}
use gamenet.Errors.{Error}
use gamenet.Protocol.{TunnelToken}
use gamenet.Identity.{
  FilePath, Node, FileSystem, stat, Faults, M, and_then, ◌>>=◌, symlink_metadata, load_node,
  load_or_create_at,
}
use gamenet.Identity.Files.{content, Keeps, Keeps-read_existing, Keeps-load_or_create_at}
use gamenet.Identity.Paths.{
  Environment, identity_path, recovery_path, recovery_path-ne, load_or_create,
  load_or_create_recovery,
}
use gamenet.Agent.{connect_quic, registered_port}
use gamenet.Agent.Acknowledged.{Keeps-connect_quic}
use gamenet.Agent.Hosting.{Attempt, registration_answer, registration, connect}

-- The action leaves these bytes at the path where they are.
abbrev pub Stays : FilePath → TunnelToken → {A : Type 0} → M A → Type 0
Stays p t m = (fs : FileSystem) → content (fs p) ≡ some t → content ((m fs).0 p) ≡ some t

module _ (p : FilePath) (t : TunnelToken) where
  pub Stays-bind :
      {A B : Type 0} (m : M A) (f : A → M B)
      → Stays p t m
      → ((a : A) → Stays p t (f a))
      → Stays p t (m >>= f)
  Stays-bind {A} m f h k fs e = go (m fs) (h fs e)
    where
      go :
          (r : FileSystem × Result Error A)
          → content (r.0 p) ≡ some t
          → content ((and_then r f).0 p) ≡ some t
      go (fs', ok a) q = k a fs' q
      go (fs', err x) q = q

  pub Stays-Keeps : {A : Type 0} (m : M A) → Keeps p m → Stays p t m
  Stays-Keeps m k fs e = k fs ∙ e

  Stays-registration_answer : (r : Result Error ℕ) → Stays p t (registration_answer r)
  Stays-registration_answer (ok port) fs e = e
  Stays-registration_answer (err x) fs e = e

  -- An identity that is there is loaded, and not replaced.
  Stays-load_or_create_at :
      (faults : Faults) (candidate : TunnelToken) → Stays p t (load_or_create_at faults p candidate)
  unfolding load_or_create_at
  Stays-load_or_create_at faults candidate fs e = go (faults stat)
    where
      node :
          (o : Option Node)
          → content o ≡ some t
          → fs p ≡ o
          → content ((load_node faults p candidate o fs).0 p) ≡ some t
      node none c q = absurd (ground arith)
      node (some x) c q = Keeps-read_existing p faults p fs ∙ e

      go :
          (o : Option Error)
          → content
              (((symlink_metadata (λ _. o) p >>= (λ n. load_node faults p candidate n)) fs).0 p)
            ≡ some t
      go none = node (fs p) e refl
      go (some x) = e

module _ (sha256 : List ℕ → List ℕ) (env : Environment) (local_port : ℕ) where
  pub connect-Stays_identity :
      (a : Attempt) (t : TunnelToken)
      → Stays (identity_path env) t (connect sha256 env local_port a)
  unfolding connect load_or_create load_or_create_recovery
  connect-Stays_identity a t =
      let p = identity_path env in
      Stays-bind p t (load_or_create_at a.faults p a.candidate) _
        (Stays-load_or_create_at p t a.faults a.candidate)
        λ token.
          Stays-bind p t (load_or_create_at a.faults (recovery_path env) a.recovery_candidate) _
            (Stays-Keeps p t (load_or_create_at a.faults (recovery_path env) a.recovery_candidate) (
              Keeps-load_or_create_at p a.faults (recovery_path env) a.recovery_candidate
                (recovery_path-ne env)))
            λ secret.
              Stays-bind p t (connect_quic a.connected) _
                (Stays-Keeps p t (connect_quic a.connected) (Keeps-connect_quic p a.connected))
                λ _.
                  Stays-registration_answer p t
                    (registered_port (a.relay (registration sha256 env local_port token secret)))

  pub connect-Stays_recovery :
      (a : Attempt) (s : TunnelToken)
      → Stays (recovery_path env) s (connect sha256 env local_port a)
  unfolding connect load_or_create load_or_create_recovery
  connect-Stays_recovery a s =
      let p = recovery_path env in
      Stays-bind p s (load_or_create_at a.faults (identity_path env) a.candidate) _
        (Stays-Keeps p s (load_or_create_at a.faults (identity_path env) a.candidate) (
          Keeps-load_or_create_at p a.faults (identity_path env) a.candidate
            (λ e. recovery_path-ne env (sym e))))
        λ token.
          Stays-bind p s (load_or_create_at a.faults p a.recovery_candidate) _
            (Stays-load_or_create_at p s a.faults a.recovery_candidate)
            λ secret.
              Stays-bind p s (connect_quic a.connected) _
                (Stays-Keeps p s (connect_quic a.connected) (Keeps-connect_quic p a.connected))
                λ _.
                  Stays-registration_answer p s
                    (registered_port (a.relay (registration sha256 env local_port token secret)))
