-- ===== src/Agent/Acknowledged.antt =====
-- The identity of a host changes only once the relay has acknowledged the change.
use gamenet.Base.{
  ℕ, ◌≡◌, refl, sym, ap, ◌∙◌, ◌≢◌, Bool, true, false, Option, none, some, Result, ok, err,
}
use gamenet.Errors.{Error, not_found, closed_early, rejected, unexpected_response}
use gamenet.Hex.{Text, parse_recovery_code}
use gamenet.Protocol.{
  TunnelToken, ControlMessage, register, tunnel_ready, new_connection, error, rotate_identity,
  identity_rotated, recover_identity, identity_recovered,
}
use gamenet.Identity.{
  FilePath, FileSystem, Faults, pure, read_existing, PendingRotation, PendingRecovery,
  prepare_rotation_at, prepare_recovery_at, finish_rotation,
}
use gamenet.Identity.Files.{
  content, Keeps, Keeps-bind, Keeps-read_existing, prepare_rotation_at-Keeps,
  prepare_recovery_at-Keeps,
}
use gamenet.Identity.Success.{bind-eq-ok, outcome-eq, no_outcome}
use gamenet.Identity.Rotation.{prepare_rotation_at-eq-ok, finish_rotation-eq-ok}
use gamenet.Agent.{
  Answer, Relay, finish_if_rotated, rotate_on_connection, connect_quic, rotate_identity_at,
  finish_if_recovered, recover_on_connection, typed, prompt, or_prompt, recovery_secret,
  recover_identity_at,
}

-- The relay never says that an identity was rotated, or recovered.
abbrev pub NeverRotates : Relay → Type 0
NeverRotates relay =
    (m : ControlMessage) (port : Option ℕ) → relay m ≢ ok (some (identity_rotated port))

abbrev pub NeverRecovers : Relay → Type 0
NeverRecovers relay =
    (m : ControlMessage) (port : ℕ) → relay m ≢ ok (some (identity_recovered port))

pub Keeps-connect_quic : (p : FilePath) (o : Option Error) → Keeps p (connect_quic o)
Keeps-connect_quic p none fs = refl
Keeps-connect_quic p (some e) fs = refl

Keeps-finish_if_rotated :
    (p : FilePath) (faults : Faults) (r : PendingRotation) (answer : Answer)
    → ((port : Option ℕ) → answer ≢ ok (some (identity_rotated port)))
    → Keeps p (finish_if_rotated faults r answer)
unfolding finish_if_rotated
Keeps-finish_if_rotated p faults r (err e) n fs = refl
Keeps-finish_if_rotated p faults r (ok none) n fs = refl
Keeps-finish_if_rotated p faults r (ok (some (identity_rotated port))) n fs = absurd (n port refl)
Keeps-finish_if_rotated p faults r (ok (some (error text))) n fs = refl
Keeps-finish_if_rotated p faults r (ok (some (register q l t k))) n fs = refl
Keeps-finish_if_rotated p faults r (ok (some (tunnel_ready q))) n fs = refl
Keeps-finish_if_rotated p faults r (ok (some (new_connection i))) n fs = refl
Keeps-finish_if_rotated p faults r (ok (some (rotate_identity a b))) n fs = refl
Keeps-finish_if_rotated p faults r (ok (some (recover_identity a b))) n fs = refl
Keeps-finish_if_rotated p faults r (ok (some (identity_recovered q))) n fs = refl

-- When the relay does not say that the identity was rotated, the identity is as it was, whatever it
-- says instead, and whatever the operating system refuses.
pub rotate_identity_at-Keeps :
    (faults : Faults) (p : FilePath) (candidate : TunnelToken) (connected : Option Error)
    (relay : Relay)
    → NeverRotates relay
    → Keeps p (rotate_identity_at faults p candidate connected relay)
unfolding rotate_identity_at rotate_on_connection
rotate_identity_at-Keeps faults p candidate connected relay n =
    Keeps-bind p (prepare_rotation_at faults p candidate) _
      (prepare_rotation_at-Keeps faults p candidate)
      λ r. Keeps-bind p (connect_quic connected) _ (Keeps-connect_quic p connected) λ _.
        Keeps-finish_if_rotated p faults r (relay (rotate_identity r.old_token r.new_token))
          (n (rotate_identity r.old_token r.new_token))

Keeps-finish_if_recovered :
    (p : FilePath) (faults : Faults) (recovery : FilePath) (r : PendingRecovery)
    (secret : TunnelToken) (b : Bool) (answer : Answer)
    → ((port : ℕ) → answer ≢ ok (some (identity_recovered port)))
    → Keeps p (finish_if_recovered faults recovery r secret b answer)
unfolding finish_if_recovered
Keeps-finish_if_recovered p faults recovery r s b (err e) n fs = refl
Keeps-finish_if_recovered p faults recovery r s b (ok none) n fs = refl
Keeps-finish_if_recovered p faults recovery r s b (ok (some (identity_recovered port))) n fs =
    absurd (n port refl)
Keeps-finish_if_recovered p faults recovery r s b (ok (some (error text))) n fs = refl
Keeps-finish_if_recovered p faults recovery r s b (ok (some (register q l t k))) n fs = refl
Keeps-finish_if_recovered p faults recovery r s b (ok (some (tunnel_ready q))) n fs = refl
Keeps-finish_if_recovered p faults recovery r s b (ok (some (new_connection i))) n fs = refl
Keeps-finish_if_recovered p faults recovery r s b (ok (some (rotate_identity c d))) n fs = refl
Keeps-finish_if_recovered p faults recovery r s b (ok (some (recover_identity c d))) n fs = refl
Keeps-finish_if_recovered p faults recovery r s b (ok (some (identity_rotated q))) n fs = refl

Keeps-prompt : (p : FilePath) (code : Result Error Text) → Keeps p (prompt code)
Keeps-prompt p (err e) fs = refl
Keeps-prompt p (ok code) fs = go (parse_recovery_code code)
  where
    go : (r : Result Error TunnelToken) → content ((typed r fs).0 p) ≡ content (fs p)
    go (ok secret) = refl
    go (err e) = refl

Keeps-or_prompt :
    (p : FilePath) (code : Result Error Text) (fs : FileSystem)
    (r : FileSystem × Result Error TunnelToken)
    → content (r.0 p) ≡ content (fs p)
    → content ((or_prompt code r).0 p) ≡ content (fs p)
Keeps-or_prompt p code fs (fs', ok secret) h = h
Keeps-or_prompt p code fs (fs', err not_found) h = Keeps-prompt p code fs' ∙ h
Keeps-or_prompt p code fs (fs', err e) h = h

Keeps-recovery_secret :
    (p : FilePath) (faults : Faults) (recovery : FilePath) (b : Bool) (code : Result Error Text)
    → Keeps p (recovery_secret faults recovery b code)
unfolding recovery_secret
Keeps-recovery_secret p faults recovery true code = Keeps-prompt p code
Keeps-recovery_secret p faults recovery false code = λ fs.
    Keeps-or_prompt p code fs (read_existing faults recovery fs)
      (Keeps-read_existing p faults recovery fs)

-- When the relay does not say that the identity was recovered, the identity is as it was, whatever
-- it says instead, whatever code is typed, and whatever the operating system refuses.
pub recover_identity_at-Keeps :
    (faults : Faults) (p recovery : FilePath) (candidate : TunnelToken) (use_backup_code : Bool)
    (code : Result Error Text) (connected : Option Error) (relay : Relay)
    → NeverRecovers relay
    → Keeps p (recover_identity_at faults p recovery candidate use_backup_code code connected relay)
unfolding recover_identity_at recover_on_connection
recover_identity_at-Keeps faults p recovery candidate use_backup_code code connected relay n =
    Keeps-bind p (recovery_secret faults recovery use_backup_code code) _
      (Keeps-recovery_secret p faults recovery use_backup_code code)
      λ chosen.
        Keeps-bind p (prepare_recovery_at faults p candidate) _
          (prepare_recovery_at-Keeps faults p candidate)
          λ r. Keeps-bind p (connect_quic connected) _ (Keeps-connect_quic p connected) λ _.
            Keeps-finish_if_recovered p faults recovery r chosen.0 chosen.1
              (relay (recover_identity chosen.0 r.new_token))
              (n (recover_identity chosen.0 r.new_token))

-- What a rotation that succeeds has done: the relay was asked to rotate the old identity to the new
-- one, and said that it had; the new identity is in the place of the old one.
pub record IsRotated (p : FilePath) (relay : Relay) (fs fs' : FileSystem) (port : Option ℕ)
    : Type 0 where
  pub old : TunnelToken
  pub new : TunnelToken
  pub before : content (fs p) ≡ some old
  pub after : content (fs' p) ≡ some new
  pub differ : old ≢ new
  pub acknowledged : relay (rotate_identity old new) ≡ ok (some (identity_rotated port))

finish_if_rotated-eq-ok :
    (faults : Faults) (r : PendingRotation) (answer : Answer) (fs fs' : FileSystem)
    (port : Option ℕ)
    → finish_if_rotated faults r answer fs ≡ (fs', ok port)
    → (answer ≡ ok (some (identity_rotated port)))
      × ((u : Unit {0}) × (finish_rotation faults r fs ≡ (fs', ok u)))
unfolding finish_if_rotated
finish_if_rotated-eq-ok faults r (err e) fs fs' port h = absurd (no_outcome fs fs' e port h)
finish_if_rotated-eq-ok faults r (ok none) fs fs' port h =
    absurd (no_outcome fs fs' closed_early port h)
finish_if_rotated-eq-ok faults r (ok (some (identity_rotated q))) fs fs' port h =
    let (fs₁, u, e, k) = bind-eq-ok (finish_rotation faults r) (λ _. pure q) fs fs' port h in
    let (last, same) = outcome-eq fs₁ fs' q port k in
    (ap (λ x. ok (some (identity_rotated x))) (sym same), (u, e ∙ ap (λ x. (x, ok u)) (sym last)))
finish_if_rotated-eq-ok faults r (ok (some (error text))) fs fs' port h =
    absurd (no_outcome fs fs' rejected port h)
finish_if_rotated-eq-ok faults r (ok (some (register q l t k))) fs fs' port h =
    absurd (no_outcome fs fs' unexpected_response port h)
finish_if_rotated-eq-ok faults r (ok (some (tunnel_ready q))) fs fs' port h =
    absurd (no_outcome fs fs' unexpected_response port h)
finish_if_rotated-eq-ok faults r (ok (some (new_connection i))) fs fs' port h =
    absurd (no_outcome fs fs' unexpected_response port h)
finish_if_rotated-eq-ok faults r (ok (some (rotate_identity a b))) fs fs' port h =
    absurd (no_outcome fs fs' unexpected_response port h)
finish_if_rotated-eq-ok faults r (ok (some (recover_identity a b))) fs fs' port h =
    absurd (no_outcome fs fs' unexpected_response port h)
finish_if_rotated-eq-ok faults r (ok (some (identity_recovered q))) fs fs' port h =
    absurd (no_outcome fs fs' unexpected_response port h)

-- A rotation that succeeds has been acknowledged by the relay for the old and the new identity,
-- which differ, and has put the new one in the place of the old one.
pub rotate_identity_at-IsRotated :
    (faults : Faults) (p : FilePath) (candidate : TunnelToken) (connected : Option Error)
    (relay : Relay) (fs fs' : FileSystem) (port : Option ℕ)
    → rotate_identity_at faults p candidate connected relay fs ≡ (fs', ok port)
    → IsRotated p relay fs fs' port
unfolding rotate_identity_at rotate_on_connection
rotate_identity_at-IsRotated faults p candidate connected relay fs fs' port h =
    let (fs₁, r, e₁, h₁) = bind-eq-ok (prepare_rotation_at faults p candidate) _ fs fs' port h in
    let (fs₂, _, e₂, h₂) = bind-eq-ok (connect_quic connected) _ fs₁ fs' port h₁ in
    let answer = relay (rotate_identity r.old_token r.new_token) in
    let (said, (u, e₃)) = finish_if_rotated-eq-ok faults r answer fs₂ fs' port h₂ in
    let (here, apart, old, differ) = prepare_rotation_at-eq-ok faults p candidate fs fs₁ r e₁ in
    let (_, new, _) = finish_rotation-eq-ok faults r fs₂ fs' u (λ z. apart (z ∙ here)) e₃ in
    record {
      old = r.old_token;
      new = r.new_token;
      before = old;
      after = sym (ap (λ q. content (fs' q)) here) ∙ new;
      differ = differ;
      acknowledged = said;
    }
