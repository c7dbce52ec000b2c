-- ===== src/Identity/Paths.antt =====
-- crates/core/src/identity.rs: where the identity and the recovery key of the user are, on a system
-- whose separator is a slash, and the operations on them.
use gamenet.Base.{
  ℕ, ◌≡◌, ◌≢◌, ap, Bool, false, ◌||◌, Option, none, some, List, [], ◌∷◌, ◌++◌, ◌==◌, is_empty,
  if◌then◌else◌, arith,
}
use gamenet.Protocol.{TunnelToken}
use gamenet.Identity.{FilePath, Faults, M, read_existing, load_or_create_at, pending_suffix}

-- The variables `HOME` and `USERPROFILE`, as far as they are set to text.
pub record Environment : Type 0 where
  pub home : Option (List ℕ)
  pub userprofile : Option (List ℕ)

abbrev pub ends_with_separator : List ℕ → Bool
ends_with_separator [] = false
ends_with_separator (c ∷ []) = c == b'/'
ends_with_separator (c ∷ d ∷ text) = ends_with_separator (d ∷ text)

-- `Path::join` of a name.
unfoldable pub join : List ℕ → List ℕ → List ℕ
join base name =
    if is_empty base || ends_with_separator base then base ++ name else base ++ (b'/' ∷ name)

abbrev pub or_else : Option (List ℕ) → Option (List ℕ) → List ℕ → List ℕ
or_else (some a) b c = a
or_else none (some b) c = b
or_else none none c = c

-- `.config`, `gamenet`, `identity.bin` and `recovery.bin`.
abbrev pub config_dir : List ℕ
config_dir = b'.' ∷ b'c' ∷ b'o' ∷ b'n' ∷ b'f' ∷ b'i' ∷ b'g' ∷ []

abbrev pub gamenet_dir : List ℕ
gamenet_dir = b'g' ∷ b'a' ∷ b'm' ∷ b'e' ∷ b'n' ∷ b'e' ∷ b't' ∷ []

abbrev pub identity_name : List ℕ
identity_name =
    b'i' ∷ b'd' ∷ b'e' ∷ b'n' ∷ b't' ∷ b'i' ∷ b't' ∷ b'y' ∷ b'.' ∷ b'b' ∷ b'i' ∷ b'n' ∷ []

abbrev pub recovery_name : List ℕ
recovery_name =
    b'r' ∷ b'e' ∷ b'c' ∷ b'o' ∷ b'v' ∷ b'e' ∷ b'r' ∷ b'y' ∷ b'.' ∷ b'b' ∷ b'i' ∷ b'n' ∷ []

unfoldable pub identity_path : Environment → FilePath
identity_path env = record {
  parent = join (join (or_else env.home env.userprofile (b'.' ∷ [])) config_dir) gamenet_dir;
  file_name = some identity_name;
}

-- `with_file_name`.
unfoldable pub recovery_path : Environment → FilePath
recovery_path env = record (identity_path env) { file_name = some recovery_name }

unfoldable pub load_or_create : Faults → Environment → TunnelToken → M TunnelToken
load_or_create faults env candidate = load_or_create_at faults (identity_path env) candidate

unfoldable pub load_or_create_recovery : Faults → Environment → TunnelToken → M TunnelToken
load_or_create_recovery faults env candidate =
    load_or_create_at faults (recovery_path env) candidate

unfoldable pub read_recovery : Faults → Environment → M TunnelToken
read_recovery faults env = read_existing faults (recovery_path env)

-- The key is kept beside the identity, in neither of the two files of the identity.
pub recovery_path-ne : (env : Environment) → recovery_path env ≢ identity_path env
unfolding recovery_path identity_path
recovery_path-ne env e =
    let names : some recovery_name ≡ some identity_name = ap (λ (p : FilePath). p.file_name) e in
    ground arith

pub recovery_path-ne-pending :
    (env : Environment)
    → recovery_path env
      ≢ record (identity_path env) { file_name = some (identity_name ++ pending_suffix) }
unfolding recovery_path identity_path
recovery_path-ne-pending env e =
    let names : some recovery_name ≡ some (identity_name ++ pending_suffix) =
      ap (λ (p : FilePath). p.file_name) e in
    ground arith
