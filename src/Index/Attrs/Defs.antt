-- ===== src/Index/Attrs/Defs.antt =====
-- SetAttr with trimExtents, TouchAtime, SetSymlink, SetXattr, RemoveXattr, UsedBytes.
use fusey.Base.{
  ℕ, Bytes, true, Option, none, some, List, [], ◌∷◌, ◌==◌, nat_key, bytes_key, if◌then◌else◌,
  length, Result, ok, err, inode_not_found, not_a_symlink, xattr_not_found,
}
use fusey.Base.Word.{add64, sub64, lt64, le64}
use fusey.Map.{Map, lookup, insert, delete, adjust}
use fusey.Index.Types.{
  Index, Inode, Extent, regular, symlink, mark_dirty, set_ctime, blocks512, or_empty,
}

-- The loop of trimExtents.
unfoldable pub trim : ℕ → List Extent → List Extent
trim new_size [] = []
trim new_size (e ∷ es) =
    let kept = trim new_size es in
    if le64 new_size e.file_offset
    then kept
    else if lt64 new_size (add64 e.file_offset e.len)
    then record e { len = sub64 new_size e.file_offset } ∷ kept
    else e ∷ kept

unfoldable pub trim_extents : ℕ → ℕ → Map ℕ (List Extent) → Map ℕ (List Extent)
trim_extents ino new_size m = insert ino (trim new_size (or_empty (lookup ino m))) m

abbrev pub or_old : Option ℕ → ℕ → ℕ
or_old none old = old
or_old (some v) old = v

-- The pointer arguments of SetAttr.
pub record Changes : Type 0 where
  pub mode : Option ℕ
  pub uid : Option ℕ
  pub gid : Option ℕ
  pub size : Option ℕ
  pub atime : Option ℕ
  pub mtime : Option ℕ

-- The attributes that are given, and the change time.
abbrev pub change : Changes → ℕ → Inode → Inode
change c now n = record n {
  mode = or_old c.mode n.mode;
  uid = or_old c.uid n.uid;
  gid = or_old c.gid n.gid;
  atime = or_old c.atime n.atime;
  mtime = or_old c.mtime n.mtime;
  ctime = now;
}

-- A new size sets the modification time as well, after the one that was given.
abbrev pub resize : ℕ → ℕ → Inode → Inode
resize size now n = record n { size = size; blocks = blocks512 size; mtime = now }

unfoldable pub set_attr : ℕ → Changes → ℕ → Index → Result Index
set_attr ino c now idx = elim (lookup ino idx.inodes) [
  | none ↦ err (inode_not_found ino)
  | some inode ↦
      let new_size = or_old c.size inode.size in
      ok (
        mark_dirty (
          if new_size == inode.size
          then record idx { inodes = adjust ino (change c now) idx.inodes }
          else record idx {
            inodes = adjust ino (λ n. resize new_size now (change c now n)) idx.inodes;
            extents =
                if inode.file_type == regular
                then trim_extents ino new_size idx.extents
                else idx.extents;
          }))
]

-- Reading a file changes no remote state: the remote flag stays.
unfoldable pub touch_atime : ℕ → ℕ → Index → Index
touch_atime ino now idx = elim (lookup ino idx.inodes) [
  | none ↦ idx
  | some _ ↦ record idx {
    inodes = adjust ino (λ n. record n { atime = now }) idx.inodes;
    dirty = true;
  }
]

unfoldable pub set_symlink : ℕ → Bytes → ℕ → Index → Result Index
set_symlink ino target now idx = elim (lookup ino idx.inodes) [
  | none ↦ err (inode_not_found ino)
  | some inode ↦
      if inode.file_type == symlink
      then ok (
          mark_dirty (record idx {
            symlinks = insert ino target idx.symlinks;
            inodes = adjust ino (λ n. record n { size = length target; ctime = now }) idx.inodes;
          }))
      else err (not_a_symlink ino)
]

unfoldable pub get_symlink : ℕ → Index → Option Bytes
get_symlink ino idx = lookup ino idx.symlinks

unfoldable pub get_xattrs : ℕ → Index → Map Bytes Bytes
get_xattrs ino idx = or_empty (lookup ino idx.xattrs)

unfoldable pub set_xattr : ℕ → Bytes → Bytes → ℕ → Index → Result Index
unfolding get_xattrs
set_xattr ino name value now idx = elim (lookup ino idx.inodes) [
  | none ↦ err (inode_not_found ino)
  | some _ ↦ ok (
      mark_dirty (record idx {
        xattrs = insert ino (insert name value (get_xattrs ino idx)) idx.xattrs;
        inodes = adjust ino (set_ctime now) idx.inodes;
      }))
]

unfoldable pub remove_xattr : ℕ → Bytes → ℕ → Index → Result Index
unfolding get_xattrs
remove_xattr ino name now idx = elim (lookup ino idx.inodes) [
  | none ↦ err (inode_not_found ino)
  | some _ ↦ elim (lookup name (get_xattrs ino idx)) [
    | none ↦ err (xattr_not_found ino name)
    | some _ ↦ ok (
        mark_dirty (record idx {
          xattrs = adjust ino (delete name) idx.xattrs;
          inodes = adjust ino (set_ctime now) idx.inodes;
        }))
  ]
]

-- The loop of UsedBytes.
unfoldable pub sum_sizes : ℕ → Map ℕ Inode → ℕ
sum_sizes total [] = total
sum_sizes total ((_, inode) ∷ m) =
    sum_sizes (if inode.file_type == regular then add64 total inode.size else total) m

unfoldable pub used_bytes : Index → ℕ
unfolding sum_sizes
used_bytes idx = sum_sizes 0 idx.inodes
