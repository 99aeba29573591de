-- ===== src/Index/Tree/Defs.antt =====
-- New, CreateInode, AddDirEntry, RemoveDirEntry, Rename and the lookups.
use fusey.Base.{
  ℕ, ◌+◌, Bytes, Bool, true, false, Option, none, some, List, [], ◌∷◌, ◌&&◌, not, map, ◌==◌,
  nat_key, bytes_key, if◌then◌else◌, leb, Result, ok, err, panic, ◌>>=◌, inode_not_found,
  parent_not_found, child_not_found, not_a_directory, entry_exists, entry_not_found,
  source_not_found, directory_not_empty, destination_not_empty,
}
use fusey.Base.Word.{add64, inc32, dec32}
use fusey.Map.{Map, lookup, insert, delete, adjust}
use fusey.Index.Types.{
  Index, Inode, DirEntry, regular, directory, root_ino, mark_dirty, touch, set_ctime, or_empty,
}

-- New, at the time `now`
unfoldable pub new : ℕ → ℕ → Index
new block_size now = record {
  inodes =
      (
        root_ino,
        record {
          ino = root_ino;
          file_type = directory;
          mode = 0o755;
          nlink = 1;
          uid = 0;
          gid = 0;
          size = 0;
          atime = now;
          mtime = now;
          ctime = now;
          blksize = block_size;
          blocks = 0;
          rdev = 0;
        },
      )
      ∷ [];
  dir_index = (root_ino, []) ∷ [];
  extents = [];
  symlinks = [];
  xattrs = [];
  next_ino = root_ino + 1;
  block_size = block_size;
  dirty = false;
  remote_dirty = false;
}

-- idx.dirIndex[parentIno]
abbrev pub children : ℕ → Index → Map Bytes ℕ
children parent idx = or_empty (lookup parent idx.dir_index)

-- idx.dirIndex[parentIno][name], which is Lookup
unfoldable pub lookup_entry : ℕ → Bytes → Index → Option ℕ
lookup_entry parent name idx = lookup name (children parent idx)

abbrev pub is_directory : Inode → Bool
is_directory n = n.file_type == directory

abbrev pub is_empty {ℓ} : {A : Type ℓ} → List A → Bool
is_empty [] = true
is_empty (x ∷ xs) = false

unfoldable pub get_inode : ℕ → Index → Option Inode
get_inode ino idx = lookup ino idx.inodes

unfoldable pub readdir : ℕ → Index → Result (List DirEntry)
readdir ino idx = elim (lookup ino idx.inodes) [
  | none ↦ err (inode_not_found ino)
  | some inode ↦
      if is_directory inode
      then ok (
          map (λ (name, child). record { parent_ino = ino; name = name; child_ino = child })
            (children ino idx))
      else err (not_a_directory ino)
]

-- The number of links that an inode has of its own: the "." of a directory. It is also the number
-- at which an inode is freed.
abbrev pub own_links : ℕ → ℕ
own_links file_type = if file_type == directory then 1 else 0

unfoldable pub create_inode : ℕ → ℕ → ℕ → ℕ → ℕ → ℕ → Index → ℕ × Index
create_inode file_type mode uid gid rdev now idx =
    let ino = idx.next_ino in
    let inode : Inode = record {
      ino = ino;
      file_type = file_type;
      mode = mode;
      nlink = own_links file_type;
      uid = uid;
      gid = gid;
      size = 0;
      atime = now;
      mtime = now;
      ctime = now;
      blksize = idx.block_size;
      blocks = 0;
      rdev = rdev;
    } in
    (
      ino,
      mark_dirty (record idx {
        next_ino = add64 ino 1;
        inodes = insert ino inode idx.inodes;
        extents = if file_type == regular then insert ino [] idx.extents else idx.extents;
        dir_index = if file_type == directory then insert ino [] idx.dir_index else idx.dir_index;
      }),
    )

-- child.Nlink++; child.Ctime = now
abbrev pub link : ℕ → Inode → Inode
link now n = record n { nlink = inc32 n.nlink; ctime = now }

-- The writes of AddDirEntry, after its checks. The parent and the child may be one inode. A write
-- to a nil map panics.
unfoldable pub add_link : ℕ → Bytes → ℕ → ℕ → Index → Result Index
add_link parent name child now idx = elim (lookup parent idx.dir_index) [
  | none ↦ panic
  | some _ ↦ ok (
      mark_dirty (record idx {
        dir_index = adjust parent (insert name child) idx.dir_index;
        inodes = adjust parent (touch now) (adjust child (link now) idx.inodes);
      }))
]

unfoldable pub add_dir_entry : ℕ → Bytes → ℕ → ℕ → Index → Result Index
add_dir_entry parent name child now idx = elim (lookup parent idx.inodes) [
  | none ↦ err (parent_not_found parent)
  | some p ↦
      if is_directory p
      then elim (lookup child idx.inodes) [
        | none ↦ err (child_not_found child)
        | some _ ↦ elim (lookup_entry parent name idx) [
          | some _ ↦ err (entry_exists parent name)
          | none ↦ add_link parent name child now idx
        ]
      ]
      else err (not_a_directory parent)
]

-- The five deletions that free an inode.
abbrev pub free_inode : ℕ → Index → Index
free_inode ino idx = record idx {
  inodes = delete ino idx.inodes;
  extents = delete ino idx.extents;
  symlinks = delete ino idx.symlinks;
  xattrs = delete ino idx.xattrs;
  dir_index = delete ino idx.dir_index;
}

-- child.Nlink--, and the inode is freed at its threshold. `kept` is what is done to one that stays.
unfoldable pub drop_link : ℕ → Inode → (Inode → Inode) → Index → Index
drop_link ino child kept idx =
    let nlink = dec32 child.nlink in
    let inodes = adjust ino (λ n. record n { nlink = nlink }) idx.inodes in
    if leb nlink (own_links child.file_type)
    then free_inode ino (record idx { inodes = inodes })
    else record idx { inodes = adjust ino kept inodes }

-- A directory with entries cannot be removed.
abbrev pub is_full_directory : ℕ → Inode → Index → Bool
is_full_directory ino child idx = is_directory child && not (is_empty (children ino idx))

-- A missing child is a nil pointer, and reading its type panics.
unfoldable pub remove_dir_entry : ℕ → Bytes → ℕ → Index → Result Index
remove_dir_entry parent name now idx = elim (lookup parent idx.inodes) [
  | none ↦ err (parent_not_found parent)
  | some _ ↦ elim (lookup_entry parent name idx) [
    | none ↦ err (entry_not_found parent name)
    | some child_ino ↦ elim (lookup child_ino idx.inodes) [
      | none ↦ panic
      | some child ↦
          if is_full_directory child_ino child idx
          then err (directory_not_empty child_ino)
          else let unlinked = record idx {
            dir_index = adjust parent (delete name) idx.dir_index;
          } in
            let dropped = drop_link child_ino child (set_ctime now) unlinked in
            ok (mark_dirty (record dropped { inodes = adjust parent (touch now) dropped.inodes }))
    ]
  ]
]

-- The removal of an entry that Rename replaces: the inode loses a link.
unfoldable pub displace : ℕ → Bytes → Index → Result Index
displace parent name idx = elim (lookup_entry parent name idx) [
  | none ↦ ok idx
  | some ino ↦ elim (lookup ino idx.inodes) [
    | none ↦ panic
    | some child ↦
        if is_full_directory ino child idx
        then err (destination_not_empty ino)
        else ok (drop_link ino child (λ n. n) idx)
  ]
]

-- The writes of Rename behind the removal of the destination. A write to a nil map panics.
unfoldable pub move_entry : ℕ → Bytes → ℕ → Bytes → ℕ → ℕ → Index → Result Index
move_entry src_parent src_name dst_parent dst_name child now idx =
    let dirs = adjust src_parent (delete src_name) idx.dir_index in
    let inodes = adjust src_parent (touch now) (adjust child (set_ctime now) idx.inodes) in
    elim (lookup dst_parent dirs) [
      | none ↦ panic
      | some _ ↦ ok (
          mark_dirty (record idx {
            dir_index = adjust dst_parent (insert dst_name child) dirs;
            inodes =
                if dst_parent == src_parent then inodes else adjust dst_parent (touch now) inodes;
          }))
    ]

unfoldable pub rename : ℕ → Bytes → ℕ → Bytes → ℕ → Index → Result Index
rename src_parent src_name dst_parent dst_name now idx =
    elim (lookup_entry src_parent src_name idx) [
      | none ↦ err (source_not_found src_parent src_name)
      | some child ↦ elim (lookup child idx.inodes) [
        | none ↦ displace dst_parent dst_name idx >>= λ _. panic
        | some _ ↦
            displace dst_parent dst_name idx
            >>= move_entry src_parent src_name dst_parent dst_name child now
      ]
    ]

-- GetParentIno: the first directory that a range over the index meets with an entry for the inode
has_child : ℕ → Map Bytes ℕ → Bool
has_child ino [] = false
has_child ino ((name, child) ∷ entries) = if child == ino then true else has_child ino entries

find_parent : ℕ → Map ℕ (Map Bytes ℕ) → ℕ
unfolding has_child
find_parent ino [] = ino
find_parent ino ((parent, entries) ∷ dirs) =
    if has_child ino entries then parent else find_parent ino dirs

unfoldable pub get_parent_ino : ℕ → Index → ℕ
unfolding find_parent
get_parent_ino ino idx = if ino == root_ino then root_ino else find_parent ino idx.dir_index
