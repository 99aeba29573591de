-- ===== src/Index/Links/Unchanged.antt =====
-- Operations that touch no entry and no link count.
use fusey.Base.{
  ℕ, length, Bytes, Option, none, some, ◌≡◌, refl, arith, nat_key, bytes_key, ok, inl, inr,
  Option-cases,
}
use fusey.Map.{lookup, adjust, lookup-adjust, map_option}
use fusey.Base.Word.{add64}
use fusey.Index.Types.{Index, Inode, Extent, touch, set_ctime}
use fusey.Index.Snapshots.{mark_clean}
use fusey.Index.Overwrite.{grow, write_extent}
use fusey.Index.Attrs.{
  Changes, change, resize, or_old, set_attr, set_symlink, touch_atime, set_xattr, remove_xattr,
}
use fusey.Index.Links.Defs.{LinksAreExact, nlink_of, type_of, is_some}

-- The fields that the link counts rest on.
pub record SameLinks (idx idx' : Index) : Type 0 where
  pub dirs : idx'.dir_index ≡ idx.dir_index
  pub next : idx'.next_ino ≡ idx.next_ino
  pub nlinks : (j : ℕ) → nlink_of (lookup j idx'.inodes) ≡ nlink_of (lookup j idx.inodes)
  pub types : (j : ℕ) → type_of (lookup j idx'.inodes) ≡ type_of (lookup j idx.inodes)
  pub known : (j : ℕ) → is_some (lookup j idx'.inodes) ≡ is_some (lookup j idx.inodes)

pub keep_links : (idx idx' : Index) → SameLinks idx idx' → LinksAreExact idx → LinksAreExact idx'
keep_links idx idx' same x = record {
  counted = λ j. rw same.dirs (ground (arith, x.counted j, same.nlinks j, same.types j));
  small = λ j. ground (arith, x.small j, same.nlinks j);
  tables = λ j. rw same.dirs (ground (arith, x.tables j, same.types j));
  fresh = λ j h. ground (arith, x.fresh j, same.next, same.known j);
  distinct_dirs = rw same.dirs x.distinct_dirs;
  distinct_names = λ j. rw same.dirs (x.distinct_names j);
}

module _ (ino now : ℕ) (idx idx' : Index) where
  set_attr-SameLinks : (c : Changes) → set_attr ino c now idx ≡ ok idx' → SameLinks idx idx'
  unfolding set_attr
  set_attr-SameLinks c w = record {
    dirs = ground arith;
    next = ground arith;
    nlinks = λ j. ground (
      arith,
      lookup-adjust ino j (change c now) idx.inodes,
      lookup-adjust ino j (λ n. resize (or_old c.size n.size) now (change c now n)) idx.inodes,
    );
    types = λ j. ground (
      arith,
      lookup-adjust ino j (change c now) idx.inodes,
      lookup-adjust ino j (λ n. resize (or_old c.size n.size) now (change c now n)) idx.inodes,
    );
    known = λ j. ground (
      arith,
      lookup-adjust ino j (change c now) idx.inodes,
      lookup-adjust ino j (λ n. resize (or_old c.size n.size) now (change c now n)) idx.inodes,
    );
  }

  set_symlink-SameLinks :
      (target : Bytes) → set_symlink ino target now idx ≡ ok idx' → SameLinks idx idx'
  unfolding set_symlink
  set_symlink-SameLinks target w = record {
    dirs = ground arith;
    next = ground arith;
    nlinks = λ j. ground (
      arith,
      lookup-adjust ino j (λ n. record n { size = length target; ctime = now }) idx.inodes,
    );
    types = λ j. ground (
      arith,
      lookup-adjust ino j (λ n. record n { size = length target; ctime = now }) idx.inodes,
    );
    known = λ j. ground (
      arith,
      lookup-adjust ino j (λ n. record n { size = length target; ctime = now }) idx.inodes,
    );
  }

  write_extent-SameLinks :
      (spare : ℕ) (ext : Extent) → write_extent spare ino ext now idx ≡ ok idx' → SameLinks idx idx'
  unfolding write_extent
  write_extent-SameLinks spare ext w =
      let grown = λ (n : Inode). touch now (grow (add64 ext.file_offset ext.len) n) in
      record {
        dirs = ground arith;
        next = ground arith;
        nlinks = λ j. ground (arith, lookup-adjust ino j grown idx.inodes);
        types = λ j. ground (arith, lookup-adjust ino j grown idx.inodes);
        known = λ j. ground (arith, lookup-adjust ino j grown idx.inodes);
      }

  -- Writing to a file touches no link.
  pub write_extent-LinksAreExact :
      (spare : ℕ) (ext : Extent)
      → write_extent spare ino ext now idx ≡ ok idx'
      → LinksAreExact idx
      → LinksAreExact idx'
  write_extent-LinksAreExact spare ext w = keep_links idx idx' (write_extent-SameLinks spare ext w)

  pub set_attr-LinksAreExact :
      (c : Changes) → set_attr ino c now idx ≡ ok idx' → LinksAreExact idx → LinksAreExact idx'
  set_attr-LinksAreExact c w = keep_links idx idx' (set_attr-SameLinks c w)

  pub set_symlink-LinksAreExact :
      (target : Bytes)
      → set_symlink ino target now idx ≡ ok idx'
      → LinksAreExact idx
      → LinksAreExact idx'
  set_symlink-LinksAreExact target w = keep_links idx idx' (set_symlink-SameLinks target w)

-- Nor do a read, a flag and the extended attributes.
pub mark_clean-LinksAreExact : (idx : Index) → LinksAreExact idx → LinksAreExact (mark_clean idx)
unfolding mark_clean
mark_clean-LinksAreExact idx =
    keep_links idx (mark_clean idx) (record {
      dirs = refl;
      next = refl;
      nlinks = λ j. refl;
      types = λ j. refl;
      known = λ j. refl;
    })

-- An inode whose link count and type stay.
module _ (ino : ℕ) (f : Inode → Inode) (nlink : (n : Inode) → (f n).nlink ≡ n.nlink)
    (file_type : (n : Inode) → (f n).file_type ≡ n.file_type) (idx idx' : Index) where
  map-SameLinks :
      (o : Option Inode)
      → (nlink_of (map_option f o) ≡ nlink_of o)
        × (type_of (map_option f o) ≡ type_of o)
        × (is_some (map_option f o) ≡ is_some o)
  map-SameLinks none = (refl, refl, refl)
  map-SameLinks (some n) = (nlink n, file_type n, refl)

  pub adjust-LinksAreExact :
      idx'.inodes ≡ adjust ino f idx.inodes
      → idx'.dir_index ≡ idx.dir_index
      → idx'.next_ino ≡ idx.next_ino
      → LinksAreExact idx
      → LinksAreExact idx'
  adjust-LinksAreExact inodes dirs next = keep_links idx idx' (record {
    dirs = dirs;
    next = next;
    nlinks = λ j.
        rw inodes
          (ground (arith, lookup-adjust ino j f idx.inodes, map-SameLinks (lookup j idx.inodes)));
    types = λ j.
        rw inodes
          (ground (arith, lookup-adjust ino j f idx.inodes, map-SameLinks (lookup j idx.inodes)));
    known = λ j.
        rw inodes
          (ground (arith, lookup-adjust ino j f idx.inodes, map-SameLinks (lookup j idx.inodes)));
  })

module _ (ino now : ℕ) (idx : Index) (x : LinksAreExact idx) where
  pub touch_atime-LinksAreExact : LinksAreExact (touch_atime ino now idx)
  unfolding touch_atime
  touch_atime-LinksAreExact = elim (Option-cases (lookup ino idx.inodes)) [
    | inl missing ↦ rw (touch_atime, missing) x
    | inr (n, found) ↦
        adjust-LinksAreExact ino (λ m. record m { atime = now }) (λ m. refl) (λ m. refl) idx
          (touch_atime ino now idx) (ground arith) (ground arith) (ground arith) x
  ]

  pub set_xattr-LinksAreExact :
      (name d : Bytes) (idx' : Index) → set_xattr ino name d now idx ≡ ok idx' → LinksAreExact idx'
  unfolding set_xattr
  set_xattr-LinksAreExact name d idx' w =
      adjust-LinksAreExact ino (set_ctime now) (λ m. refl) (λ m. refl) idx idx' (ground arith)
        (ground arith) (ground arith) x

  pub remove_xattr-LinksAreExact :
      (name : Bytes) (idx' : Index) → remove_xattr ino name now idx ≡ ok idx' → LinksAreExact idx'
  unfolding remove_xattr
  remove_xattr-LinksAreExact name idx' w =
      adjust-LinksAreExact ino (set_ctime now) (λ m. refl) (λ m. refl) idx idx' (ground arith)
        (ground arith) (ground arith) x
