-- ===== src/Index/Types.antt =====
-- internal/index/types.go, and the state of an Index (internal/index/index.go).
use Prim.Native.Nat.{bit_or}
use fusey.Base.{ℕ, Bytes, Bool, true, Option, none, some, List, [], nat_key}
use fusey.Base.Word.{add64, div64}
use fusey.Map.{Map}

-- The S_IF* constants of Linux.
abbrev pub regular : ℕ
regular = 0o100000

abbrev pub directory : ℕ
directory = 0o040000

abbrev pub symlink : ℕ
symlink = 0o120000

pub record Inode : Type 0 where
  pub ino : ℕ
  pub file_type : ℕ
  pub mode : ℕ
  pub nlink : ℕ
  pub uid : ℕ
  pub gid : ℕ
  pub size : ℕ
  pub atime : ℕ
  pub mtime : ℕ
  pub ctime : ℕ
  pub blksize : ℕ
  pub blocks : ℕ
  pub rdev : ℕ

-- FullMode
unfoldable pub full_mode : Inode → ℕ
full_mode n = bit_or n.file_type n.mode

pub record Extent : Type 0 where
  pub chunk_id : Bytes
  pub chunk_offset : ℕ
  pub len : ℕ
  pub file_offset : ℕ

pub record DirEntry : Type 0 where
  pub parent_ino : ℕ
  pub name : Bytes
  pub child_ino : ℕ

unfoldable pub blocks512 : ℕ → ℕ
blocks512 size = div64 (add64 size 511) 512

abbrev pub root_ino : ℕ
root_ino = 1

-- The fields of Index but its lock.
pub record Index : Type 0 where
  pub inodes : Map ℕ Inode
  pub dir_index : Map ℕ (Map Bytes ℕ)
  pub extents : Map ℕ (List Extent)
  pub symlinks : Map ℕ Bytes
  pub xattrs : Map ℕ (Map Bytes Bytes)
  pub next_ino : ℕ
  pub block_size : ℕ
  pub dirty : Bool
  pub remote_dirty : Bool

-- idx.dirty = true; idx.remoteDirty = true
abbrev pub mark_dirty : Index → Index
mark_dirty idx = record idx { dirty = true; remote_dirty = true }

-- n.Mtime = now; n.Ctime = now
abbrev pub touch : ℕ → Inode → Inode
touch now n = record n { mtime = now; ctime = now }

abbrev pub set_ctime : ℕ → Inode → Inode
set_ctime now n = record n { ctime = now }

-- A read of a nil map finds nothing: m[k] for a map that may be missing.
abbrev pub or_empty {ℓ} : {A : Type ℓ} → Option (List A) → List A
or_empty none = []
or_empty (some l) = l
