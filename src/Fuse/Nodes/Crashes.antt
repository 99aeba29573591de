-- ===== src/Fuse/Nodes/Crashes.antt =====
-- Which requests of the kernel crash the daemon, and what a Create that fails leaves behind.
use fusey.Base.{
  ℕ, ◌+◌, ◌^◌, ◌<◌, Bytes, Bool, true, false, Option, none, some, ◌≡◌, refl, arith, ◌==◌, nat_key,
  bytes_key, ◌∙◌,
}
use fusey.Map.{lookup}
use fusey.Index.Types.{Index, regular, directory, symlink}
use fusey.Index.Tree.{create_inode}
use fusey.Index.Attrs.{set_symlink}
use fusey.Index.Links.{LinksAreExact, type_of}
use fusey.Index.Links.Adding.{create_inode-LinksAreExact}
use fusey.Index.Links.Removing.{remove_dir_entry-ne-panic}
use fusey.Index.Links.Panics.{add_dir_entry-ne-panic, rename-ne-panic}
use fusey.Fuse.Replies.{Reply, done, fail, crash}
use fusey.Fuse.Nodes.Attr.{Attr}
use fusey.Fuse.Nodes.Defs.{
  make_node, set_target, create, mkdir, symlink_node, link_node, unlink, rmdir, rename_node,
}
use fusey.Fuse.Nodes.Requests.{
  Request, handle, crashed, creating, making_directory, making_symlink, linking, unlinking,
  removing_directory, renaming,
}

-- A rename has a directory for its destination.
abbrev pub into_directory : Request → Index → Bool
into_directory (renaming parent name (some new_parent) new_name) idx =
    type_of (lookup new_parent idx.inodes) == directory
into_directory _ idx = true

set_target-crashed :
    (target : Bytes) (now : ℕ) (r : Index × Reply (ℕ × Attr))
    → crashed (set_target target now r).1 ≡ crashed r.1
unfolding set_symlink
set_target-crashed target now (idx, fail e) = refl
set_target-crashed target now (idx, crash) = refl
set_target-crashed target now (idx, done (ino, attr)) = ground arith

module _ (now : ℕ) (idx : Index) (x : LinksAreExact idx) where
  make_node-crashed :
      (file_type perm uid gid parent : ℕ) (name : Bytes)
      → idx.next_ino + 1 < 2 ^ 63
      → crashed (make_node file_type perm uid gid now parent name idx).1 ≡ false
  unfolding make_node
  make_node-crashed file_type perm uid gid parent name room =
      let made = create_inode-LinksAreExact file_type perm uid gid 0 now idx x room in
      ground (
        arith,
        add_dir_entry-ne-panic parent name (create_inode file_type perm uid gid 0 now idx).0 now
            (create_inode file_type perm uid gid 0 now idx).1 made,
      )

  link_node-crashed :
      (target : Option ℕ) (parent : ℕ) (name : Bytes)
      → crashed (link_node target parent name now idx).1 ≡ false
  unfolding link_node
  link_node-crashed none parent name = refl
  link_node-crashed (some target) parent name =
      ground (arith, add_dir_entry-ne-panic parent name target now idx x)

  unlink-crashed : (parent : ℕ) (name : Bytes) → crashed (unlink parent name now idx).1 ≡ false
  unfolding unlink
  unlink-crashed parent name = ground (arith, remove_dir_entry-ne-panic parent name now idx x)

  rmdir-crashed : (parent : ℕ) (name : Bytes) → crashed (rmdir parent name now idx).1 ≡ false
  unfolding rmdir
  rmdir-crashed parent name = ground (arith, remove_dir_entry-ne-panic parent name now idx x)

  rename_node-crashed :
      (parent : ℕ) (name : Bytes) (new_parent : ℕ) (new_name : Bytes)
      → (type_of (lookup new_parent idx.inodes) == directory) ≡ true
      → crashed (rename_node parent name (some new_parent) new_name now idx).1 ≡ false
  unfolding rename_node
  rename_node-crashed parent name new_parent new_name h =
      ground (arith, rename-ne-panic parent name new_parent new_name now idx x)

  -- Such a request does not crash the daemon, if the link counts are exact, the next inode number
  -- has room for one more, and a rename is into a directory.
  pub handle-crashed :
      (r : Request)
      → idx.next_ino + 1 < 2 ^ 63
      → into_directory r idx ≡ true
      → (handle now r idx).1 ≡ false
  unfolding handle create mkdir symlink_node rename_node
  handle-crashed (creating parent name mode uid gid) room into =
      make_node-crashed regular _ uid gid parent name room
  handle-crashed (making_directory parent name mode uid gid) room into =
      make_node-crashed directory _ uid gid parent name room
  handle-crashed (making_symlink parent name target uid gid) room into =
      set_target-crashed target now _ ∙ make_node-crashed symlink 0o777 uid gid parent name room
  handle-crashed (linking parent name target) room into = link_node-crashed target parent name
  handle-crashed (unlinking parent name) room into = unlink-crashed parent name
  handle-crashed (removing_directory parent name) room into = rmdir-crashed parent name
  handle-crashed (renaming parent name none new_name) room into = refl
  handle-crashed (renaming parent name (some new_parent) new_name) room into =
      rename_node-crashed parent name new_parent new_name into
