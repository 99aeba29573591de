-- ===== src/Index/Links/Adding.antt =====
-- New, CreateInode and AddDirEntry, and the link counts.
use fusey.Base.{
  ℕ, ◌+◌, ◌^◌, ◌<◌, Bytes, [], ◌≡◌, ◌==◌, nat_key, bytes_key, if◌then◌else◌, arith, ◌&&◌, ok,
}
use fusey.Base.Word.{add64-eq, inc32, inc32-eq}
use fusey.Map.{
  Map, lookup, insert, adjust, weigh, weigh-insert, Distinct, lookup-adjust, lookup-insert,
  insert-Distinct, adjust-Distinct,
}
use fusey.Index.Types.{Index, Inode, touch}
use fusey.Index.Tree.{
  new, children, own_links, create_inode, add_dir_entry, link, add_link, lookup_entry,
}
use fusey.Index.Links.Defs.{LinksAreExact, once, refs, count, nlink_of, type_of, is_some}
use fusey.Index.Links.Counting.{refs-link}

pub new-LinksAreExact : (block_size now : ℕ) → LinksAreExact (new block_size now)
unfolding new lookup weigh
new-LinksAreExact block_size now = record {
  counted = λ j. ground arith;
  small = λ j. ground arith;
  tables = λ j. ground arith;
  fresh = λ j h. ground arith;
  distinct_dirs = ground arith;
  distinct_names = λ j. ground arith;
}

module _ (file_type mode uid gid rdev now : ℕ) (idx : Index) (x : LinksAreExact idx) where
  -- A new inode keeps the link counts exact, if the next inode number is an int64.
  pub create_inode-LinksAreExact :
      idx.next_ino + 1 < 2 ^ 63 → LinksAreExact (create_inode file_type mode uid gid rdev now idx).1
  unfolding create_inode weigh
  create_inode-LinksAreExact room = record {
    counted = λ j. ground (
      arith,
      x.counted j,
      lookup-insert idx.next_ino j (created) idx.inodes,
      weigh-insert (count j) idx.next_ino [] idx.dir_index x.distinct_dirs,
      x.fresh idx.next_ino,
      x.tables idx.next_ino,
    );
    small = λ j. ground (arith, x.small j, lookup-insert idx.next_ino j created idx.inodes);
    tables = λ j. ground (
      arith,
      x.tables j,
      x.fresh j,
      lookup-insert idx.next_ino j created idx.inodes,
      lookup-insert {V = Map Bytes ℕ} idx.next_ino j [] idx.dir_index,
    );
    fresh = λ j h. ground (
      arith,
      x.fresh j,
      lookup-insert idx.next_ino j created idx.inodes,
      add64-eq idx.next_ino 1,
    );
    distinct_dirs = ground (
      arith,
      x.distinct_dirs,
      insert-Distinct {V = Map Bytes ℕ} idx.next_ino [] idx.dir_index x.distinct_dirs,
    );
    distinct_names = λ j. ground (
      arith,
      x.distinct_names j,
      lookup-insert {V = Map Bytes ℕ} idx.next_ino j [] idx.dir_index,
    );
  }
    where
      created : Inode
      created = record {
        ino = idx.next_ino;
        file_type = file_type;
        mode = mode;
        nlink = own_links file_type;
        uid = uid;
        gid = gid;
        size = 0;
        atime = now;
        mtime = now;
        ctime = now;
        blksize = idx.block_size;
        blocks = 0;
        rdev = rdev;
      }

module _ (parent : ℕ) (name : Bytes) (child now : ℕ) (idx idx' : Index)
    (w : add_dir_entry parent name child now idx ≡ ok idx') where
  inodes_after :
      (j : ℕ)
      → (nlink_of (lookup j idx'.inodes) ≡ (
          if child == j
          then inc32 (nlink_of (lookup j idx.inodes))
          else nlink_of (lookup j idx.inodes)))
        × (type_of (lookup j idx'.inodes) ≡ type_of (lookup j idx.inodes))
        × (is_some (lookup j idx'.inodes) ≡ is_some (lookup j idx.inodes))
  unfolding add_dir_entry add_link lookup_entry
  inodes_after j = ground (
    arith,
    lookup-adjust parent j (touch now) (adjust child (link now) idx.inodes),
    lookup-adjust child j (link now) idx.inodes,
  )

  tables_after :
      (j : ℕ)
      → (is_some (lookup j idx'.dir_index) ≡ is_some (lookup j idx.dir_index))
        × (children j idx' ≡ (
            if parent == j && is_some (lookup j idx.dir_index)
            then insert name child (children j idx)
            else children j idx))
  unfolding add_dir_entry add_link lookup_entry
  tables_after j = ground (arith, lookup-adjust parent j (insert name child) idx.dir_index)

  refs_after :
      Distinct idx.dir_index
      → Distinct (children parent idx)
      → (j : ℕ) → refs j idx'.dir_index ≡ refs j idx.dir_index + once child j
  unfolding add_dir_entry add_link lookup_entry
  refs_after d e j = ground (arith, refs-link parent name idx.dir_index d e child j)

  -- A new entry keeps the link counts exact, if the link count of its inode has room in 32 bits.
  pub add_dir_entry-LinksAreExact :
      LinksAreExact idx → nlink_of (lookup child idx.inodes) + 1 < 2 ^ 32 → LinksAreExact idx'
  unfolding add_dir_entry add_link lookup_entry
  add_dir_entry-LinksAreExact x room = record {
    counted = λ j. ground (
      arith,
      x.counted j,
      refs_after x.distinct_dirs (x.distinct_names parent) j,
      inodes_after j,
      inc32-eq (nlink_of (lookup j idx.inodes)),
    );
    small =
        λ j. ground (arith, x.small j, inodes_after j, inc32-eq (nlink_of (lookup j idx.inodes)));
    tables = λ j. ground (arith, x.tables j, inodes_after j, tables_after j);
    fresh = λ j h. ground (arith, x.fresh j, inodes_after j);
    distinct_dirs =
        ground (arith, adjust-Distinct parent (insert name child) idx.dir_index x.distinct_dirs);
    distinct_names = λ j. ground (
      arith,
      x.distinct_names j,
      tables_after j,
      insert-Distinct name child (children j idx) (x.distinct_names j),
    );
  }
