-- ===== src/Fuse/Nodes/Keeping.antt =====
-- The requests of the kernel that change the tree, and the link counts.
use fusey.Base.{
  ℕ, ◌+◌, ◌^◌, ◌<◌, Bytes, false, none, some, ◌≡◌, arith, ◌==◌, nat_key, bytes_key, ok, Result,
  Result-cases, inl, inr, ◌&&◌, ◌⊎◌,
}
use fusey.Map.{lookup, lookup-insert}
use fusey.Index.Types.{Index, Inode, regular, directory, symlink}
use fusey.Index.Tree.{create_inode, own_links, add_dir_entry, remove_dir_entry, rename}
use fusey.Index.Attrs.{set_symlink}
use fusey.Index.Links.{LinksAreExact, nlink_of}
use fusey.Index.Links.Adding.{create_inode-LinksAreExact, add_dir_entry-LinksAreExact}
use fusey.Index.Links.Removing.{remove_dir_entry-LinksAreExact}
use fusey.Index.Links.Moving.{rename-LinksAreExact}
use fusey.Index.Links.Unchanged.{set_symlink-LinksAreExact}
use fusey.Fuse.Replies.{Reply, done, fail, crash}
use fusey.Fuse.Nodes.Attr.{Attr}
use fusey.Fuse.Nodes.Defs.{
  make_node, set_target, create, mkdir, symlink_node, link_node, unlink, rmdir, rename_node,
}
use fusey.Fuse.Nodes.Requests.{
  Request, handle, onto_itself, creating, making_directory, making_symlink, linking, unlinking,
  removing_directory, renaming,
}

-- The index after an operation that leaves it as it was unless it succeeds.
abbrev pub left : Index → Result Index → Index
left idx (ok idx') = idx'
left idx _ = idx

module _ (file_type perm uid gid now : ℕ) (idx : Index) where
  abbrev new_inode : Inode
  new_inode = record {
    ino = idx.next_ino;
    file_type = file_type;
    mode = perm;
    nlink = own_links file_type;
    uid = uid;
    gid = gid;
    size = 0;
    atime = now;
    mtime = now;
    ctime = now;
    blksize = idx.block_size;
    blocks = 0;
    rdev = 0;
  }

  new_inode_has_room :
      nlink_of (lookup idx.next_ino (create_inode file_type perm uid gid 0 now idx).1.inodes) + 1
      < 2 ^ 32
  unfolding create_inode
  new_inode_has_room = ground (arith, lookup-insert idx.next_ino idx.next_ino new_inode idx.inodes)

  make_node-LinksAreExact :
      (parent : ℕ) (name : Bytes)
      → LinksAreExact idx
      → idx.next_ino + 1 < 2 ^ 63
      → LinksAreExact (make_node file_type perm uid gid now parent name idx).0
  unfolding make_node create_inode
  make_node-LinksAreExact parent name x room =
      let made = create_inode-LinksAreExact file_type perm uid gid 0 now idx x room in
      let between : Index = (create_inode file_type perm uid gid 0 now idx).1 in
      elim (Result-cases (add_dir_entry parent name idx.next_ino now between)) [
        | inl (idx', e) ↦
            rw (make_node, e)
              (add_dir_entry-LinksAreExact parent name idx.next_ino now between idx' e made
                new_inode_has_room)
        | inr (inl (failure, e)) ↦ rw (make_node, e) made
        | inr (inr e) ↦ rw (make_node, e) made
      ]

-- What the handlers leave.
module _ (now : ℕ) (idx : Index) where
  pub link_node-left :
      (target parent : ℕ) (name : Bytes)
      → ((link_node (some target) parent name now idx).0 ≡ idx)
        ⊎ ((link_node (some target) parent name now idx).0
            ≡ left idx (add_dir_entry parent name target now idx))
  unfolding link_node
  link_node-left target parent name = ground arith

  pub rmdir-left :
      (parent : ℕ) (name : Bytes)
      → ((rmdir parent name now idx).0 ≡ idx)
        ⊎ ((rmdir parent name now idx).0 ≡ left idx (remove_dir_entry parent name now idx))
  unfolding rmdir
  rmdir-left parent name = ground arith

  pub unlink-left :
      (parent : ℕ) (name : Bytes)
      → (unlink parent name now idx).0 ≡ left idx (remove_dir_entry parent name now idx)
  unfolding unlink
  unlink-left parent name = ground arith

  pub rename_node-left :
      (parent : ℕ) (name : Bytes) (new_parent : ℕ) (new_name : Bytes)
      → (rename_node parent name (some new_parent) new_name now idx).0
        ≡ left idx (rename parent name new_parent new_name now idx)
  unfolding rename_node
  rename_node-left parent name new_parent new_name = ground arith

module _ (now : ℕ) (idx : Index) (x : LinksAreExact idx) where
  set_target-LinksAreExact :
      (target : Bytes) (r : Index × Reply (ℕ × Attr))
      → LinksAreExact r.0
      → LinksAreExact (set_target target now r).0
  set_target-LinksAreExact target (made, fail e) h = h
  set_target-LinksAreExact target (made, crash) h = h
  set_target-LinksAreExact target (made, done (ino, attr)) h =
      elim (Result-cases (set_symlink ino target now made)) [
        | inl (idx', e) ↦
            rw (set_target, e) (set_symlink-LinksAreExact ino now made idx' target e h)
        | inr (inl (failure, e)) ↦ rw (set_target, e) h
        | inr (inr e) ↦ rw (set_target, e) h
      ]

  add_dir_entry-keeps :
      (parent : ℕ) (name : Bytes) (child : ℕ)
      → nlink_of (lookup child idx.inodes) + 1 < 2 ^ 32
      → LinksAreExact (left idx (add_dir_entry parent name child now idx))
  add_dir_entry-keeps parent name child room =
      elim (Result-cases (add_dir_entry parent name child now idx)) [
        | inl (idx', e) ↦ rw e (add_dir_entry-LinksAreExact parent name child now idx idx' e x room)
        | inr (inl (failure, e)) ↦ rw e x
        | inr (inr e) ↦ rw e x
      ]

  remove_dir_entry-keeps :
      (parent : ℕ) (name : Bytes) → LinksAreExact (left idx (remove_dir_entry parent name now idx))
  remove_dir_entry-keeps parent name = elim (Result-cases (remove_dir_entry parent name now idx)) [
    | inl (idx', e) ↦ rw e (remove_dir_entry-LinksAreExact parent name now idx x idx' e)
    | inr (inl (failure, e)) ↦ rw e x
    | inr (inr e) ↦ rw e x
  ]

  rename-keeps :
      (parent : ℕ) (name : Bytes) (new_parent : ℕ) (new_name : Bytes)
      → (parent == new_parent && name == new_name) ≡ false
      → LinksAreExact (left idx (rename parent name new_parent new_name now idx))
  rename-keeps parent name new_parent new_name other =
      elim (Result-cases (rename parent name new_parent new_name now idx)) [
        | inl (idx', e) ↦
            rw e (rename-LinksAreExact parent name new_parent new_name now idx idx' x e other)
        | inr (inl (failure, e)) ↦ rw e x
        | inr (inr e) ↦ rw e x
      ]

  module _ (room : idx.next_ino + 1 < 2 ^ 63) where
    create-keeps :
        (parent : ℕ) (name : Bytes) (mode uid gid : ℕ)
        → LinksAreExact (create parent name mode uid gid now idx).0
    unfolding create
    create-keeps parent name mode uid gid =
        make_node-LinksAreExact regular _ uid gid now idx parent name x room

    mkdir-keeps :
        (parent : ℕ) (name : Bytes) (mode uid gid : ℕ)
        → LinksAreExact (mkdir parent name mode uid gid now idx).0
    unfolding mkdir
    mkdir-keeps parent name mode uid gid =
        make_node-LinksAreExact directory _ uid gid now idx parent name x room

    symlink_node-keeps :
        (target : Bytes) (parent : ℕ) (name : Bytes) (uid gid : ℕ)
        → LinksAreExact (symlink_node target parent name uid gid now idx).0
    unfolding symlink_node
    symlink_node-keeps target parent name uid gid =
        set_target-LinksAreExact target _
          (make_node-LinksAreExact symlink 0o777 uid gid now idx parent name x room)

  -- A request of the kernel to create, make a directory or a symlink, link, unlink, remove a
  -- directory or rename keeps the link counts exact, whatever it answers: if it is no rename of
  -- an entry onto itself, and the next inode number and every link count have room for one more.
  pub handle-LinksAreExact :
      (r : Request)
      → idx.next_ino + 1 < 2 ^ 63
      → ((j : ℕ) → nlink_of (lookup j idx.inodes) + 1 < 2 ^ 32)
      → onto_itself r ≡ false
      → LinksAreExact (handle now r idx).0
  unfolding handle link_node rename_node
  handle-LinksAreExact (creating parent name mode uid gid) room few other =
      create-keeps room parent name mode uid gid
  handle-LinksAreExact (making_directory parent name mode uid gid) room few other =
      mkdir-keeps room parent name mode uid gid
  handle-LinksAreExact (making_symlink parent name target uid gid) room few other =
      symlink_node-keeps room target parent name uid gid
  handle-LinksAreExact (linking parent name none) room few other = x
  handle-LinksAreExact (linking parent name (some target)) room few other =
      elim (link_node-left now idx target parent name) [
        | inl same ↦ rw same x
        | inr same ↦ rw same (add_dir_entry-keeps parent name target (few target))
      ]
  handle-LinksAreExact (unlinking parent name) room few other =
      rw (unlink-left now idx parent name) (remove_dir_entry-keeps parent name)
  handle-LinksAreExact (removing_directory parent name) room few other =
      elim (rmdir-left now idx parent name) [
        | inl same ↦ rw same x
        | inr same ↦ rw same (remove_dir_entry-keeps parent name)
      ]
  handle-LinksAreExact (renaming parent name none new_name) room few other = x
  handle-LinksAreExact (renaming parent name (some new_parent) new_name) room few other =
      rw (rename_node-left now idx parent name new_parent new_name)
        (rename-keeps parent name new_parent new_name other)
