-- ===== src/Fuse/Nodes/Failing.antt =====
-- What a Create that fails leaves behind.
use fusey.Base.{ℕ, ◌+◌, ◌^◌, ◌<◌, Bytes, true, some, ◌≡◌, refl, arith, nat_key, ◌%◌}
use fusey.Map.{lookup, lookup-insert}
use fusey.Index.Types.{Index, Inode, regular}
use fusey.Index.Tree.{create_inode}
use fusey.Index.Links.{LinksAreExact, is_some, refs}
use fusey.Index.Links.Adding.{create_inode-LinksAreExact}
use fusey.Fuse.Replies.{fail, eexist}
use fusey.Fuse.Nodes.Defs.{make_node, create}

module _ (parent : ℕ) (name : Bytes) (mode uid gid now : ℕ) (idx : Index) where
  abbrev made : Index
  made = (create_inode regular (mode % 0o10000) uid gid 0 now idx).1

  abbrev new_inode : Inode
  new_inode = record {
    ino = idx.next_ino;
    file_type = regular;
    mode = mode % 0o10000;
    nlink = 0;
    uid = uid;
    gid = gid;
    size = 0;
    atime = now;
    mtime = now;
    ctime = now;
    blksize = idx.block_size;
    blocks = 0;
    rdev = 0;
  }

  lookup-made : lookup idx.next_ino made.inodes ≡ some new_inode
  unfolding create_inode
  lookup-made = ground (arith, lookup-insert idx.next_ino idx.next_ino new_inode idx.inodes)

  create-left :
      (create parent name mode uid gid now idx).1 ≡ fail eexist
      → (create parent name mode uid gid now idx).0 ≡ made
  unfolding create make_node
  create-left h = ground arith

  -- A Create that answers EEXIST leaves behind an inode that no entry names, if the link counts
  -- are exact and the next inode number has room for one more.
  pub create_fail :
      LinksAreExact idx
      → idx.next_ino + 1 < 2 ^ 63
      → (create parent name mode uid gid now idx).1 ≡ fail eexist
      → (is_some (lookup idx.next_ino (create parent name mode uid gid now idx).0.inodes) ≡ true)
        × (refs idx.next_ino (create parent name mode uid gid now idx).0.dir_index ≡ 0)
  create_fail x room h =
      let links = create_inode-LinksAreExact regular (mode % 0o10000) uid gid 0 now idx x room in
      rw (create-left h)
        (rw lookup-made refl, ground (arith, links.counted idx.next_ino, lookup-made))
