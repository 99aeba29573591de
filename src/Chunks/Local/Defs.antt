-- ===== src/Chunks/Local/Defs.antt =====
-- LocalStore and its methods. The file system is a parameter: what it answers is a function of its
-- state.
use fusey.Base.{
  ℕ, Bytes, Bool, true, false, not, Option, none, some, List, [], ◌∷◌, ◌++◌, if◌then◌else◌, Result,
  ok, err, panic, store_failure,
}
use fusey.Base.Word.{le64}

-- The answer of os.Remove.
pub data Removal : Type 0 where
  removed missing refused : Removal

-- The functions of os and filepath that the store uses; `true` is success, and `none` is an error.
pub record FileSystem : Type 1 where
  pub World : Type 0
  pub join : Bytes → Bytes → Bytes
  pub mkdir_all : Bytes → World → World × Bool
  pub write_file : Bytes → Bytes → World → World × Bool
  pub rename : Bytes → Bytes → World → World × Bool
  -- Open, and ReadAt with a buffer of that length, which is an error unless it is filled.
  pub opens : Bytes → World → Bool
  pub read_at : Bytes → ℕ → ℕ → World → Option Bytes
  pub remove : Bytes → World → World × Removal
  -- The names of a directory, each with whether it is a directory.
  pub read_dir : Bytes → World → Option (List (Bytes × Bool))
  pub stat_size : Bytes → World → Option ℕ

pub record LocalStore : Type 0 where
  pub dir : Bytes

-- ".tmp"
abbrev pub tmp : Bytes
tmp = b'.' ∷ b't' ∷ b'm' ∷ b'p' ∷ []

-- The loop of List.
unfoldable pub file_names : List (Bytes × Bool) → List Bytes
file_names [] = []
file_names ((name, is_dir) ∷ es) =
    let names = file_names es in if not is_dir then name ∷ names else names

abbrev names_of : Option (List (Bytes × Bool)) → Option (List Bytes)
names_of none = none
names_of (some es) = some (file_names es)

abbrev range_of : Option Bytes → Result Bytes
range_of none = err store_failure
range_of (some r) = ok r

abbrev is_gone : Removal → Bool
is_gone removed = true
is_gone missing = true
is_gone refused = false

module _ (F : FileSystem) where
  -- NewLocalStore
  unfoldable pub new_local_store : Bytes → F.World → F.World × Option LocalStore
  new_local_store dir w =
      let (w', made) = F.mkdir_all dir w in (w', if made then some (record { dir = dir }) else none)

  abbrev pub path : LocalStore → Bytes → Bytes
  path s id = F.join s.dir id

  unfoldable pub local_put : LocalStore → Bytes → Bytes → F.World → F.World × Bool
  local_put s id data' w =
      let p = path s id in
      let (w', written) = F.write_file (p ++ tmp) data' w in
      if not written then (w', false) else F.rename (p ++ tmp) p w'

  -- A buffer of a negative length is a panic.
  unfoldable pub local_get_range : LocalStore → Bytes → ℕ → ℕ → F.World → Result Bytes
  local_get_range s id offset len w =
      if not (F.opens (path s id) w)
      then err store_failure
      else if not (le64 0 len)
      then panic
      else range_of (F.read_at (path s id) offset len w)

  -- A file that is missing is no error.
  unfoldable pub local_delete : LocalStore → Bytes → F.World → F.World × Bool
  local_delete s id w = let (w', removal) = F.remove (path s id) w in (w', is_gone removal)

  unfoldable pub local_list : LocalStore → F.World → Option (List Bytes)
  local_list s w = names_of (F.read_dir s.dir w)

  unfoldable pub local_size : LocalStore → Bytes → F.World → Option ℕ
  local_size s id w = F.stat_size (path s id) w
