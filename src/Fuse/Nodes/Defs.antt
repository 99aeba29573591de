-- ===== src/Fuse/Nodes/Defs.antt =====
-- Lookup, Readdir, Create, Mkdir, Symlink, Link, Unlink, Rmdir, Rename and Open of Node. The node
-- that is made for the kernel is its inode number.
use fusey.Base.{
  ℕ, ◌%◌, Bytes, Bool, true, false, not, Option, none, some, List, [], ◌∷◌, ◌==◌, nat_key,
  if◌then◌else◌, Error, ok, err, panic, directory_not_empty,
}
use fusey.Index.Types.{Index, Inode, DirEntry, regular, directory, symlink}
use fusey.Index.Tree.{
  get_inode, lookup_entry, readdir, get_parent_ino, create_inode, add_dir_entry, remove_dir_entry,
  rename,
}
use fusey.Index.Attrs.{set_symlink}
use fusey.Fuse.Replies.{
  Reply, done, fail, crash, enoent, eio, einval, eexist, eperm, enotdir, enotempty,
}
use fusey.Fuse.Nodes.Attr.{Attr, fill_attr}

-- The new node and its attributes. GetInode gives zeros for an inode that is missing.
abbrev zero_inode : Inode
zero_inode = record {
  ino = 0;
  file_type = 0;
  mode = 0;
  nlink = 0;
  uid = 0;
  gid = 0;
  size = 0;
  atime = 0;
  mtime = 0;
  ctime = 0;
  blksize = 0;
  blocks = 0;
  rdev = 0;
}

abbrev inode_or_zero : Option Inode → Inode
inode_or_zero none = zero_inode
inode_or_zero (some n) = n

unfoldable pub entry_of : ℕ → Index → ℕ × Attr
entry_of ino idx = (ino, fill_attr (inode_or_zero (get_inode ino idx)))

unfoldable pub lookup_node : ℕ → Bytes → Index → Reply (ℕ × Attr)
lookup_node parent name idx = elim (lookup_entry parent name idx) [
  | none ↦ fail enoent
  | some child ↦ elim (get_inode child idx) [
    | none ↦ fail enoent
    | some n ↦ done (child, fill_attr n)
  ]
]

-- fuse.DirEntry
pub record Listed : Type 0 where
  pub mode : ℕ
  pub name : Bytes
  pub ino : ℕ

-- The loop of Readdir: an entry of a missing inode is left out.
list_entries : Index → List DirEntry → List Listed
list_entries idx [] = []
list_entries idx (e ∷ es) =
    let rest = list_entries idx es in
    elim (get_inode e.child_ino idx) [
      | none ↦ rest
      | some n ↦ record { mode = n.file_type; name = e.name; ino = e.child_ino } ∷ rest
    ]

unfoldable pub readdir_node : ℕ → Index → Reply (List Listed)
unfolding list_entries
readdir_node ino idx = elim (get_inode ino idx) [
  | none ↦ fail enoent
  | some n ↦ if not (n.file_type == directory) then fail enotdir else elim (readdir ino idx) [
    | ok es ↦ done (
        record { mode = directory; name = b'.' ∷ []; ino = ino }
        ∷ record { mode = directory; name = b'.' ∷ b'.' ∷ []; ino = get_parent_ino ino idx }
        ∷ list_entries idx es)
    | err _ ↦ fail eio
    | panic ↦ crash
  ]
]

-- What Create, Mkdir and Symlink do: an inode is made and then entered. The caller is `uid`, `gid`.
unfoldable pub make_node : ℕ → ℕ → ℕ → ℕ → ℕ → ℕ → Bytes → Index → Index × Reply (ℕ × Attr)
make_node file_type perm uid gid now parent name idx =
    let (ino, idx') = create_inode file_type perm uid gid 0 now idx in
    elim (add_dir_entry parent name ino now idx') [
      | ok idx'' ↦ (idx'', done (entry_of ino idx''))
      | err _ ↦ (idx', fail eexist)
      | panic ↦ (idx', crash)
    ]

-- Create; the file handle is the inode number of the reply.
unfoldable pub create : ℕ → Bytes → ℕ → ℕ → ℕ → ℕ → Index → Index × Reply (ℕ × Attr)
create parent name mode uid gid now idx =
    make_node regular (mode % 0o10000) uid gid now parent name idx

unfoldable pub mkdir : ℕ → Bytes → ℕ → ℕ → ℕ → ℕ → Index → Index × Reply (ℕ × Attr)
mkdir parent name mode uid gid now idx =
    make_node directory (mode % 0o10000) uid gid now parent name idx

-- The end of Symlink.
abbrev pub set_target : Bytes → ℕ → Index × Reply (ℕ × Attr) → Index × Reply (ℕ × Attr)
set_target target now (idx, fail e) = (idx, fail e)
set_target target now (idx, crash) = (idx, crash)
set_target target now (idx, done (ino, attr)) = elim (set_symlink ino target now idx) [
  | ok idx' ↦ (idx', done (entry_of ino idx'))
  | err _ ↦ (idx, fail eio)
  | panic ↦ (idx, crash)
]

unfoldable pub symlink_node : Bytes → ℕ → Bytes → ℕ → ℕ → ℕ → Index → Index × Reply (ℕ × Attr)
symlink_node target parent name uid gid now idx =
    set_target target now (make_node symlink 0o777 uid gid now parent name idx)

-- Link; `none` is a target that is no node of this file system.
unfoldable pub link_node : Option ℕ → ℕ → Bytes → ℕ → Index → Index × Reply (ℕ × Attr)
link_node none parent name now idx = (idx, fail einval)
link_node (some target) parent name now idx = elim (get_inode target idx) [
  | none ↦ (idx, fail enoent)
  | some n ↦
      if n.file_type == directory
      then (idx, fail eperm)
      else elim (add_dir_entry parent name target now idx) [
        | ok idx' ↦ (idx', done (entry_of target idx'))
        | err _ ↦ (idx, fail eexist)
        | panic ↦ (idx, crash)
      ]
]

unfoldable pub unlink : ℕ → Bytes → ℕ → Index → Index × Reply (Unit {0})
unlink parent name now idx = elim (remove_dir_entry parent name now idx) [
  | ok idx' ↦ (idx', done tt)
  | err _ ↦ (idx, fail enoent)
  | panic ↦ (idx, crash)
]

-- strings.Contains(err.Error(), "not empty"), of the errors that RemoveDirEntry has for an entry
-- that is there
abbrev says_not_empty : Error → Bool
says_not_empty (directory_not_empty _) = true
says_not_empty _ = false

unfoldable pub rmdir : ℕ → Bytes → ℕ → Index → Index × Reply (Unit {0})
rmdir parent name now idx = elim (lookup_entry parent name idx) [
  | none ↦ (idx, fail enoent)
  | some child ↦ elim (get_inode child idx) [
    | none ↦ (idx, fail enoent)
    | some n ↦
        if not (n.file_type == directory)
        then (idx, fail enotdir)
        else elim (remove_dir_entry parent name now idx) [
          | ok idx' ↦ (idx', done tt)
          | err e ↦ (idx, fail (if says_not_empty e then enotempty else eio))
          | panic ↦ (idx, crash)
        ]
  ]
]

unfoldable pub rename_node : ℕ → Bytes → Option ℕ → Bytes → ℕ → Index → Index × Reply (Unit {0})
rename_node parent name none new_name now idx = (idx, fail einval)
rename_node parent name (some new_parent) new_name now idx =
    elim (rename parent name new_parent new_name now idx) [
      | ok idx' ↦ (idx', done tt)
      | err _ ↦ (idx, fail eio)
      | panic ↦ (idx, crash)
    ]

unfoldable pub open_node : ℕ → Index → Reply ℕ
open_node ino idx = elim (get_inode ino idx) [ none ↦ fail enoent | some n ↦ done ino ]
