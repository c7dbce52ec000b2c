-- ===== src/Presets/LocalPort.antt =====
-- Which local port a host gets, for every game and every port that it may name.
use gamenet.Base.{
  ℕ, ◌≡◌, refl, ◌≢◌, ◌∙◌, ◌⊎◌, inl, inr, true, not, Option, none, some, ◌==◌, find, Bool-cases,
  Option-cases, Result, ok, err, ensure, >>=-eq-ok, >>-eq-ok, ensure-eq-ok, arith,
}
use gamenet.Errors.{Error, unknown_game, udp_game}
use gamenet.Hex.{Text}
use gamenet.Protocol.{Protocol, tcp, udp}
use gamenet.Presets.{
  GamePreset, minecraft, bedrock, valheim, terraria, presets, eq_ignore_ascii_case, find_preset,
  look_up, is_tcp, check_protocol, chosen, local_port_for,
}

-- The names are the same up to the case of their ASCII letters.
abbrev pub Spells : Text → Option Text → Type 0
Spells name none = ⊥
Spells name (some text) = eq_ignore_ascii_case name text ≡ true

-- A port that is accepted comes from `--port`, or is the default of Minecraft or of Terraria.
abbrev pub IsChosen : Option Text → Option ℕ → ℕ → Type 0
IsChosen game (some port) n = n ≡ port
IsChosen game none n = (Spells minecraft game × (n ≡ 25565)) ⊎ (Spells terraria game × (n ≡ 7777))

-- A game is none, or one of the two that use TCP.
abbrev pub IsTcpGame : Option Text → Type 0
IsTcpGame none = Unit
IsTcpGame (some text) = Spells minecraft (some text) ⊎ Spells terraria (some text)

-- What `find_preset` finds among the presets that use TCP.
found_tcp :
    (name : Text) (p : GamePreset)
    → find_preset name ≡ some p
    → is_tcp p.protocol ≡ true
    → (Spells minecraft (some name) × (p.default_port ≡ 25565))
      ⊎ (Spells terraria (some name) × (p.default_port ≡ 7777))
unfolding find_preset presets find
found_tcp name p h t = elim (Bool-cases (eq_ignore_ascii_case minecraft name)) [
  | inl e ↦ inl (e, ground arith)
  | inr e ↦ elim (Bool-cases (eq_ignore_ascii_case bedrock name)) [
    | inl f ↦ absurd (ground arith)
    | inr f ↦ elim (Bool-cases (eq_ignore_ascii_case valheim name)) [
      | inl g ↦ absurd (ground arith)
      | inr g ↦ elim (Bool-cases (eq_ignore_ascii_case terraria name)) [
        | inl k ↦ inr (k, ground arith)
        | inr k ↦ absurd (ground arith)
      ]
    ]
  ]
]

tcp_only : (q : Protocol) → ensure (is_tcp q) udp_game ≡ ok tt → is_tcp q ≡ true
tcp_only tcp h = refl
tcp_only udp h = absurd (ground arith)

chosen-IsChosen :
    (game : Option Text) (port : Option ℕ) (preset : Option GamePreset) (n : ℕ)
    → look_up game ≡ ok preset
    → check_protocol preset ≡ ok tt
    → chosen port preset ≡ ok n
    → IsTcpGame game × IsChosen game port n
chosen-IsChosen none (some q) preset n l c h = (tt, ground arith)
chosen-IsChosen none none preset n l c h = absurd (none_given preset (ground arith) h)
  where
    none_given : (o : Option GamePreset) → o ≡ none → chosen none o ≡ ok n → ⊥
    none_given none e k = ground arith
    none_given (some x) e k = ground arith
chosen-IsChosen (some text) port preset n l c h = elim (Option-cases (find_preset text)) [
  | inl e ↦ absurd (no_game (rw (e, look_up) at l))
  | inr (p, e) ↦ known p e
]
  where
    no_game : ¬ (◌≡◌ {A = Result Error (Option GamePreset)} (err unknown_game) (ok preset))
    no_game k = cc

    by_tcp :
        (p : GamePreset) (q : Option ℕ)
        → (Spells minecraft (some text) × (p.default_port ≡ 25565))
          ⊎ (Spells terraria (some text) × (p.default_port ≡ 7777))
        → chosen q (some p) ≡ ok n
        → IsTcpGame (some text) × IsChosen (some text) q n
    by_tcp p (some q) (inl s) k = (inl s.0, ground arith)
    by_tcp p (some q) (inr s) k = (inr s.0, ground arith)
    by_tcp p none (inl s) k = (inl s.0, inl (s.0, ground arith))
    by_tcp p none (inr s) k = (inr s.0, inr (s.0, ground arith))

    known :
        (p : GamePreset)
        → find_preset text ≡ some p
        → IsTcpGame (some text) × IsChosen (some text) port n
    known p e =
        let l' = rw (e, look_up) at l in
        let same : preset ≡ some p = ground arith in
        let c' = rw same at c in
        let t : is_tcp p.protocol ≡ true = tcp_only p.protocol c' in
        by_tcp p port (found_tcp text p e t) (rw same at h)

-- The local port of a host is not zero; it is the one of `--port`, or else the default of the game,
-- which is Minecraft or Terraria; and a game that is named is one of these two also when `--port`
-- is given.
pub local_port_for-IsChosen :
    (game : Option Text) (port : Option ℕ) (n : ℕ)
    → local_port_for game port ≡ ok n
    → (n ≢ 0) × (IsTcpGame game × IsChosen game port n)
unfolding local_port_for
local_port_for-IsChosen game port n h =
    let (preset, l, k) = >>=-eq-ok (look_up game) _ h in
    let (c, k') = >>-eq-ok (check_protocol preset) _ k in
    let (m, e, k'') = >>=-eq-ok (chosen port preset) _ k' in
    let (nonzero, last) = ensure-eq-ok (not (m == 0)) _ (ok m) k'' in
    let same : m ≡ n = ground arith in
    (ground arith, chosen-IsChosen game port preset n l c (e ∙ last))
