-- ===== src/Identity.antt =====
-- crates/core/src/identity.rs: the files that hold the identity and the recovery key of a host. One
-- process works on them. A file is its bytes and whether only its owner may read it; what the
-- operating system refuses is an argument, and so are the bytes that `getrandom` draws.
pub mod Files
pub mod Success
pub mod Rotation
pub mod Stable
pub mod Paths
pub mod Recovery
pub mod Retry
use gamenet.Base.{
  ℕ, ◌≡◌, Bool, true, false, not, Option, none, some, List, [], ◌∷◌, ◌++◌, ◌==◌, if◌then◌else◌,
  holds, length, Result, ok, err, ℕ_discrete,
}
use gamenet.Errors.{
  Error, not_found, identity_not_regular, identity_corrupt, no_file_name, pending_equals_current,
  identity_changed, pending_changed,
}
use gamenet.Protocol.{TunnelToken}

pub record FilePath : Type 0 where
  pub parent : List ℕ
  pub file_name : Option (List ℕ)

unfoldable pub dec_path : Discrete FilePath
dec_path = hlevel ℕ_discrete

unfoldable pub dec_bytes : Discrete TunnelToken
dec_bytes = hlevel ℕ_discrete

-- A regular file, or something else, such as a link.
pub data Node : Type 0 where
  file : List ℕ → Bool → Node
  other : Node

abbrev pub FileSystem : Type 0
FileSystem = FilePath → Option Node

abbrev pub update : FileSystem → FilePath → Option Node → FileSystem
update fs p node q = if holds (dec_path p q) then node else fs q

-- The calls that the operating system may refuse: in one command, all calls of a kind or none.
pub data Op : Type 0 where
  stat chmod read temporary create write_all persist rename sync sync_directory random : Op

abbrev pub Faults : Type 0
Faults = Op → Option Error

-- What an action leaves on the disk stays there when it fails.
abbrev pub M : Type 0 → Type 0
M A = FileSystem → FileSystem × Result Error A

abbrev pub and_then :
    {A B : Type 0} → FileSystem × Result Error A → (A → M B) → FileSystem × Result Error B
and_then (fs, ok a) f = f a fs
and_then (fs, err e) f = (fs, err e)

infixl 5 ◌>>=◌ ◌>>◌
abbrev pub ◌>>=◌ : {A B : Type 0} → M A → (A → M B) → M B
◌>>=◌ m f fs = and_then (m fs) f

abbrev pub ◌>>◌ : {B : Type 0} → M (Unit {0}) → M B → M B
m >> k = m >>= λ _. k

abbrev pub pure : {A : Type 0} → A → M A
pure a fs = (fs, ok a)

abbrev pub fail : {A : Type 0} → Error → M A
fail e fs = (fs, err e)

abbrev pub ensure : Bool → Error → M (Unit {0})
ensure true e = pure tt
ensure false e = fail e

abbrev pub attempt : Faults → Op → M (Unit {0})
attempt faults op fs = elim (faults op) [ none ↦ (fs, ok tt) | some e ↦ (fs, err e) ]

abbrev pub write : FilePath → Option Node → M (Unit {0})
write p node fs = (update fs p node, ok tt)

-- `fs::symlink_metadata`, with `none` for `NotFound`.
abbrev pub symlink_metadata : Faults → FilePath → M (Option Node)
symlink_metadata faults p = do attempt faults stat; λ fs. (fs, ok (fs p))

abbrev pub token_of : List ℕ → M TunnelToken
token_of bytes = if length bytes == 32 then pure bytes else fail identity_corrupt

abbrev pub read_node : Faults → FilePath → Option Node → M TunnelToken
read_node faults p none = fail not_found
read_node faults p (some other) = fail identity_not_regular
read_node faults p (some (file bytes private)) = do
  attempt faults chmod
  write p (some (file bytes true))
  attempt faults read
  token_of bytes

unfoldable pub read_existing : Faults → FilePath → M TunnelToken
read_existing faults p = do node ← symlink_metadata faults p; read_node faults p node

-- `persist_noclobber`: an existing file is left, which is no error.
abbrev pub persist_noclobber : Faults → FilePath → TunnelToken → Option Node → M Bool
persist_noclobber faults p token (some node) = pure false
persist_noclobber faults p token none = do
  attempt faults persist
  write p (some (file token true))
  attempt faults sync
  pure true

unfoldable pub create_new_private : Faults → FilePath → TunnelToken → M Bool
create_new_private faults p token = do
  attempt faults temporary
  node ← λ fs. (fs, ok (fs p))
  persist_noclobber faults p token node

-- `candidate` is what `getrandom` draws.
abbrev pub create_or_read : Faults → FilePath → TunnelToken → M TunnelToken
create_or_read faults p candidate = do
  attempt faults random
  created ← create_new_private faults p candidate
  if created then pure candidate else read_existing faults p

abbrev pub load_node : Faults → FilePath → TunnelToken → Option Node → M TunnelToken
load_node faults p candidate (some node) = read_existing faults p
load_node faults p candidate none = create_or_read faults p candidate

unfoldable pub load_or_create_at : Faults → FilePath → TunnelToken → M TunnelToken
load_or_create_at faults p candidate = do
  node ← symlink_metadata faults p
  load_node faults p candidate node

-- `.pending`
abbrev pub pending_suffix : List ℕ
pending_suffix = b'.' ∷ b'p' ∷ b'e' ∷ b'n' ∷ b'd' ∷ b'i' ∷ b'n' ∷ b'g' ∷ []

abbrev pub with_pending : FilePath → Option (List ℕ) → M FilePath
with_pending p none = fail no_file_name
with_pending p (some name) = pure (record p { file_name = some (name ++ pending_suffix) })

unfoldable pub pending_path : FilePath → M FilePath
pending_path p = with_pending p p.file_name

pub record PendingRotation : Type 0 where
  pub path : FilePath
  pub pending : FilePath
  pub old_token : TunnelToken
  pub new_token : TunnelToken

unfoldable pub prepare_rotation_at : Faults → FilePath → TunnelToken → M PendingRotation
prepare_rotation_at faults p candidate = do
  old ← read_existing faults p
  pending ← pending_path p
  node ← symlink_metadata faults pending
  new ← load_node faults pending candidate node
  ensure (not (holds (dec_bytes old new))) pending_equals_current
  pure (record { path = p; pending = pending; old_token = old; new_token = new })

-- `fs::rename`, and the sync of the directory.
abbrev pub install : Faults → FilePath → FilePath → M (Unit {0})
install faults from to = do
  attempt faults rename
  λ fs. (update (update fs to (fs from)) from none, ok tt)
  attempt faults sync

-- `PendingRotation::finish`.
unfoldable pub finish_rotation : Faults → PendingRotation → M (Unit {0})
finish_rotation faults r = do
  current ← read_existing faults r.path
  ensure (holds (dec_bytes current r.old_token)) identity_changed
  new ← read_existing faults r.pending
  ensure (holds (dec_bytes new r.new_token)) pending_changed
  install faults r.pending r.path

pub record PendingRecovery : Type 0 where
  pub path : FilePath
  pub pending : FilePath
  pub old_token : Option TunnelToken
  pub new_token : TunnelToken

abbrev pub read_if_there : Faults → FilePath → Option Node → M (Option TunnelToken)
read_if_there faults p none = pure none
read_if_there faults p (some node) = do token ← read_existing faults p; pure (some token)

unfoldable pub current_token : Faults → FilePath → M (Option TunnelToken)
current_token faults p = do node ← symlink_metadata faults p; read_if_there faults p node

abbrev pub same_token : Option TunnelToken → Option TunnelToken → Bool
same_token none none = true
same_token (some a) (some b) = holds (dec_bytes a b)
same_token none (some b) = false
same_token (some a) none = false

unfoldable pub prepare_recovery_at : Faults → FilePath → TunnelToken → M PendingRecovery
prepare_recovery_at faults p candidate = do
  old ← current_token faults p
  pending ← pending_path p
  new ← load_or_create_at faults pending candidate
  ensure (not (same_token (some new) old)) pending_equals_current
  pure (record { path = p; pending = pending; old_token = old; new_token = new })

-- `PendingRecovery::finish`.
unfoldable pub finish_recovery : Faults → PendingRecovery → M (Unit {0})
finish_recovery faults r = do
  current ← current_token faults r.path
  ensure (same_token current r.old_token) identity_changed
  new ← read_existing faults r.pending
  ensure (holds (dec_bytes new r.new_token)) pending_changed
  install faults r.pending r.path

-- `persist`, which replaces.
abbrev pub replace : Faults → FilePath → TunnelToken → M (Unit {0})
replace faults p secret = do
  attempt faults temporary
  attempt faults persist
  write p (some (file secret true))
  attempt faults sync

abbrev pub replace_unless : Faults → FilePath → TunnelToken → Bool → M (Unit {0})
replace_unless faults p secret true = pure tt
replace_unless faults p secret false = replace faults p secret

abbrev pub store_existing : Faults → FilePath → TunnelToken → Bool → M (Unit {0})
store_existing faults p secret true = pure tt
store_existing faults p secret false = do
  existing ← read_existing faults p
  replace_unless faults p secret (holds (dec_bytes existing secret))

unfoldable pub store_recovery_at : Faults → FilePath → TunnelToken → M (Unit {0})
store_recovery_at faults p secret = do
  created ← create_new_private faults p secret
  store_existing faults p secret created
