-- ===== src/Index/Links/Defs.antt =====
-- The number of entries that name an inode, and the link-count invariant.
use fusey.Base.{
  ℕ, ◌+◌, ◌^◌, ◌<◌, ◌≤◌, Bytes, Bool, true, false, Option, none, some, ◌≡◌, ◌==◌, nat_key,
  bytes_key, if◌then◌else◌,
}
use fusey.Map.{Map, lookup, weigh, Distinct}
use fusey.Index.Types.{Index, Inode, directory}
use fusey.Index.Tree.{children, own_links}

-- The entries of one directory that name the inode.
abbrev pub count : ℕ → Map Bytes ℕ → ℕ
count ino = weigh (λ child. if child == ino then 1 else 0)

-- The entries of all directories that name it.
abbrev pub refs : ℕ → Map ℕ (Map Bytes ℕ) → ℕ
refs ino = weigh (count ino)

-- Of a missing inode, 0.
abbrev pub nlink_of : Option Inode → ℕ
nlink_of none = 0
nlink_of (some n) = n.nlink

abbrev pub type_of : Option Inode → ℕ
type_of none = 0
type_of (some n) = n.file_type

abbrev pub is_some {ℓ} : {A : Type ℓ} → Option A → Bool
is_some none = false
is_some (some a) = true

abbrev pub nothing : ℕ → ℕ
nothing j = 0

abbrev pub once : ℕ → ℕ → ℕ
once ino j = if ino == j then 1 else 0

-- An inode's nlink is the number of entries that name it, and one more for a directory; no entry
-- names a missing inode. `pending` are the links that are dropped while their entries still stand.
pub record Links (pending : ℕ → ℕ) (idx : Index) : Type 0 where
  pub counted :
      (ino : ℕ)
      → nlink_of (lookup ino idx.inodes) + pending ino
        ≡ refs ino idx.dir_index + own_links (type_of (lookup ino idx.inodes))
  pub small : (ino : ℕ) → nlink_of (lookup ino idx.inodes) < 2 ^ 32
  -- Directories have a table of entries, and nothing else has.
  pub tables :
      (ino : ℕ)
      → is_some (lookup ino idx.dir_index) ≡ (type_of (lookup ino idx.inodes) == directory)
  pub fresh : (ino : ℕ) → idx.next_ino ≤ ino → is_some (lookup ino idx.inodes) ≡ false
  pub distinct_dirs : Distinct idx.dir_index
  pub distinct_names : (ino : ℕ) → Distinct (children ino idx)

abbrev pub LinksAreExact : Index → Type 0
LinksAreExact = Links nothing
