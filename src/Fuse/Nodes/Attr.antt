-- ===== src/Fuse/Nodes/Attr.antt =====
-- Getattr, Setattr, Statfs and the extended attributes of Node.
use fusey.Base.{
  ℕ, ◌+◌, ◌*◌, ◌/◌, ◌%◌, ◌^◌, Bytes, Option, none, some, [], ◌∷◌, ◌++◌, ◌==◌, nat_key, bytes_key,
  if◌then◌else◌, ltb, length, ok, err, panic, ◌-◌,
}
use fusey.Base.Word.{add64, sub64, lt64, div64, mod64}
use fusey.Map.{Map, lookup}
use fusey.Index.Types.{Index, Inode, full_mode}
use fusey.Index.Tree.{get_inode}
use fusey.Index.Attrs.{
  Changes, set_attr, used_bytes, get_symlink, get_xattrs, set_xattr, remove_xattr,
}
use fusey.Fuse.Replies.{Reply, done, fail, crash, enoent, eio, einval, enodata, erange}

-- fuse.Attr, as fillAttr fills it
pub record Attr : Type 0 where
  pub ino : ℕ
  pub size : ℕ
  pub blocks : ℕ
  pub atime : ℕ
  pub atime_nsec : ℕ
  pub mtime : ℕ
  pub mtime_nsec : ℕ
  pub ctime : ℕ
  pub ctime_nsec : ℕ
  pub mode : ℕ
  pub nlink : ℕ
  pub uid : ℕ
  pub gid : ℕ
  pub rdev : ℕ
  pub blksize : ℕ

abbrev billion : ℕ
billion = 1000000000

-- uint32(t % 1e9)
abbrev nsec : ℕ → ℕ
nsec t = mod64 t billion % 2 ^ 32

unfoldable pub fill_attr : Inode → Attr
fill_attr n = record {
  ino = n.ino;
  size = n.size;
  blocks = n.blocks;
  atime = div64 n.atime billion;
  atime_nsec = nsec n.atime;
  mtime = div64 n.mtime billion;
  mtime_nsec = nsec n.mtime;
  ctime = div64 n.ctime billion;
  ctime_nsec = nsec n.ctime;
  mode = full_mode n;
  nlink = n.nlink;
  uid = n.uid;
  gid = n.gid;
  rdev = n.rdev;
  blksize = n.blksize;
}

unfoldable pub getattr : ℕ → Index → Reply Attr
getattr ino idx = elim (get_inode ino idx) [ none ↦ fail enoent | some n ↦ done (fill_attr n) ]

-- fuse.SetAttrIn: a field is given when its bit of Valid is set. A time is its seconds and
-- nanoseconds.
pub record SetAttrIn : Type 0 where
  pub mode : Option ℕ
  pub uid : Option ℕ
  pub gid : Option ℕ
  pub size : Option ℕ
  pub atime : Option (ℕ × ℕ)
  pub mtime : Option (ℕ × ℕ)

-- m &^ S_IFMT: the bits of all file types are 0o170000.
unfoldable pub clear_type : ℕ → ℕ
clear_type m = m % 0o10000 + m / 0o200000 * 0o200000

-- int64(sec) * 1e9 + int64(nsec)
unfoldable pub nanos : ℕ × ℕ → ℕ
nanos (s, ns) = add64 (s * billion % 2 ^ 64) ns

abbrev given {ℓ κ} : {A : Type ℓ} {B : Type κ} → (A → B) → Option A → Option B
given f none = none
given f (some a) = some (f a)

unfoldable pub to_changes : SetAttrIn → Changes
to_changes i = record {
  mode = given clear_type i.mode;
  uid = i.uid;
  gid = i.gid;
  size = i.size;
  atime = given nanos i.atime;
  mtime = given nanos i.mtime;
}

unfoldable pub setattr : ℕ → SetAttrIn → ℕ → Index → Index × Reply Attr
setattr ino i now idx = elim (set_attr ino (to_changes i) now idx) [
  | ok idx' ↦ (idx', getattr ino idx')
  | err _ ↦ (idx, fail eio)
  | panic ↦ (idx, crash)
]

unfoldable pub readlink : ℕ → Index → Reply Bytes
readlink ino idx = elim (get_symlink ino idx) [ none ↦ fail einval | some target ↦ done target ]

-- fuse.StatfsOut, of the fields that Statfs sets
pub record StatfsOut : Type 0 where
  pub bsize : ℕ
  pub frsize : ℕ
  pub blocks : ℕ
  pub bfree : ℕ
  pub bavail : ℕ
  pub files : ℕ
  pub ffree : ℕ
  pub name_len : ℕ

-- uint64(int32)
abbrev sign_extended : ℕ → ℕ
sign_extended b = if ltb b (2 ^ 31) then b else b + (2 ^ 64 - 2 ^ 32)

-- total - used, and 0 if that is negative
unfoldable pub free_bytes : ℕ → Index → ℕ
free_bytes total idx = let free = sub64 total (used_bytes idx) in if lt64 free 0 then 0 else free

-- A division by a block size of 0 panics.
unfoldable pub statfs : ℕ → Index → Reply StatfsOut
statfs total idx =
    let bsize = sign_extended idx.block_size in
    if bsize == 0
    then crash
    else done (record {
      bsize = bsize % 2 ^ 32;
      frsize = bsize % 2 ^ 32;
      blocks = total / bsize;
      bfree = free_bytes total idx / bsize;
      bavail = free_bytes total idx / bsize;
      files = total / 4096;
      ffree = total / 4096;
      name_len = 255;
    })

-- The end of Getxattr and Listxattr: the size is asked for with an empty buffer.
abbrev into_buffer : ℕ → Bytes → Reply (ℕ × Bytes)
into_buffer want v =
    if want == 0
    then done (length v % 2 ^ 32, [])
    else if ltb want (length v)
    then fail erange
    else done (length v % 2 ^ 32, v)

unfoldable pub getxattr : ℕ → Bytes → ℕ → Index → Reply (ℕ × Bytes)
getxattr ino name want idx = elim (lookup name (get_xattrs ino idx)) [
  | none ↦ fail enodata
  | some v ↦ into_buffer want v
]

-- Each name with a zero byte behind it.
names : Map Bytes Bytes → Bytes
names [] = []
names ((name, v) ∷ m) = name ++ 0 ∷ names m

unfoldable pub listxattr : ℕ → ℕ → Index → Reply (ℕ × Bytes)
unfolding names
listxattr ino want idx = into_buffer want (names (get_xattrs ino idx))

unfoldable pub setxattr : ℕ → Bytes → Bytes → ℕ → Index → Index × Reply (Unit {0})
setxattr ino name d now idx = elim (set_xattr ino name d now idx) [
  | ok idx' ↦ (idx', done tt)
  | err _ ↦ (idx, fail eio)
  | panic ↦ (idx, crash)
]

unfoldable pub removexattr : ℕ → Bytes → ℕ → Index → Index × Reply (Unit {0})
removexattr ino name now idx = elim (remove_xattr ino name now idx) [
  | ok idx' ↦ (idx', done tt)
  | err _ ↦ (idx, fail enodata)
  | panic ↦ (idx, crash)
]
