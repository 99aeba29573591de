-- ===== src/Index/Files/Starting.antt =====
-- The bytes of the files of an empty index, and of one with a new inode.
use fusey.Base.{ℕ, none, List, [], ◌≡◌, refl, arith, nat_key}
use fusey.Map.{lookup, lookup-insert}
use fusey.Index.Types.{Index, Inode, Extent}
use fusey.Index.Tree.{own_links, new, create_inode}
use fusey.Index.Content.{coverage}
use fusey.Index.Files.Defs.{FilesAreSound}

pub new-FilesAreSound : (block_size now : ℕ) → FilesAreSound (new block_size now)
unfolding new coverage lookup
new-FilesAreSound block_size now = record {
  fits = λ j. tt;
  apart = λ j p. omega arith;
  within = λ j p short. refl;
  sized = λ j. ground arith;
}

module _ (file_type mode uid gid rdev now : ℕ) (idx : Index) where
  abbrev created : Index
  created = (create_inode file_type mode uid gid rdev now idx).1

  abbrev pub created_inode : Inode
  created_inode = record {
    ino = idx.next_ino;
    file_type = file_type;
    mode = mode;
    nlink = own_links file_type;
    uid = uid;
    gid = gid;
    size = 0;
    atime = now;
    mtime = now;
    ctime = now;
    blksize = idx.block_size;
    blocks = 0;
    rdev = rdev;
  }

  -- A new inode keeps the extents of every file disjoint, without overflow and within the size of
  -- the file, if no inode has the next number.
  pub create_inode-FilesAreSound :
      FilesAreSound idx → lookup idx.next_ino idx.inodes ≡ none → FilesAreSound created
  unfolding create_inode coverage
  create_inode-FilesAreSound sound unused = record {
    fits = λ j.
        ground (arith, sound.fits j, lookup-insert {V = List Extent} idx.next_ino j [] idx.extents);
    apart = λ j p.
        ground
          (arith, sound.apart j p, lookup-insert {V = List Extent} idx.next_ino j [] idx.extents);
    within = λ j p short. ground (
      arith,
      sound.within j p,
      lookup-insert {V = List Extent} idx.next_ino j [] idx.extents,
      lookup-insert idx.next_ino j created_inode idx.inodes,
    );
    sized =
        λ j. ground (arith, sound.sized j, lookup-insert idx.next_ino j created_inode idx.inodes);
  }
