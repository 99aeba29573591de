-- ===== src/Index/Files/Defs.antt =====
-- The bytes of each file, and what every extent list satisfies.
use fusey.Base.{ℕ, ◌^◌, ◌<◌, ◌≤◌, Option, none, some, List, ◌≡◌, nat_key}
use fusey.Map.{lookup}
use fusey.Index.Types.{Index, Inode, Extent, or_empty}
use fusey.Index.Overwrite.{Place}
use fusey.Index.Content.{All, Fits, locate, coverage}

-- The extents of a file, none if it is missing.
abbrev pub file_extents : ℕ → Index → List Extent
file_extents ino idx = or_empty (lookup ino idx.extents)

-- Where the byte `p` of a file is stored; `none` is a hole.
abbrev pub file_place : ℕ → Index → ℕ → Option Place
file_place ino idx p = locate none (file_extents ino idx) p

abbrev pub size_or_zero : Option Inode → ℕ
size_or_zero none = 0
size_or_zero (some n) = n.size

abbrev pub file_size : ℕ → Index → ℕ
file_size ino idx = size_or_zero (lookup ino idx.inodes)

-- No sum of an extent overflows, no two extents of a file share a byte, and none has a byte at or
-- behind the end of the file.
pub record FilesAreSound (idx : Index) : Type 0 where
  pub fits : (ino : ℕ) → All Fits (file_extents ino idx)
  pub apart : (ino p : ℕ) → coverage (file_extents ino idx) p ≤ 1
  pub within : (ino p : ℕ) → file_size ino idx ≤ p → coverage (file_extents ino idx) p ≡ 0
  pub sized : (ino : ℕ) → file_size ino idx < 2 ^ 63
