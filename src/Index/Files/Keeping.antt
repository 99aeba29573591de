-- ===== src/Index/Files/Keeping.antt =====
-- What the operations on the tree do to the extents and sizes of files.
use fusey.Base.{
  ℕ, ◌^◌, ◌<◌, ◌≤◌, Bytes, List, [], ◌≡◌, Option, ◌⊎◌, inl, inr, arith, refl, none, some, ok,
  Result-cases, Option-cases, nat_key, bytes_key, length,
}
use fusey.Base.Word.{dec32}
use fusey.Map.{Map, lookup, adjust, delete, lookup-insert, lookup-delete, lookup-adjust, map_option}
use fusey.Index.Types.{Index, Inode, Extent, touch, set_ctime}
use fusey.Index.Tree.{
  create_inode, add_dir_entry, add_link, link, drop_link, remove_dir_entry, displace, move_entry,
  rename, lookup_entry,
}
use fusey.Index.Attrs.{Changes, change, set_attr, set_symlink, touch_atime, set_xattr, remove_xattr}
use fusey.Index.Content.{coverage}
use fusey.Index.Files.Starting.{created_inode}
use fusey.Index.Files.Defs.{file_extents, file_size, size_or_zero, FilesAreSound}

-- Each file keeps its extents and does not shrink, or loses them all; its size fits in an int64. Only
-- an empty file, or one that is gone, gets another list.
pub record Keeps (idx idx' : Index) : Type 0 where
  pub extents :
      (j : ℕ)
      → (file_extents j idx' ≡ [])
        ⊎ ((file_extents j idx' ≡ file_extents j idx) × (file_size j idx ≤ file_size j idx'))
  pub sizes : (j : ℕ) → (file_size j idx' ≤ file_size j idx) ⊎ (file_size j idx' < 2 ^ 63)
  pub fate :
      (j : ℕ)
      → (file_extents j idx' ≡ file_extents j idx)
        ⊎ ((file_size j idx ≡ 0) ⊎ (lookup j idx'.inodes ≡ none))

pub Keeps-refl : (idx : Index) → Keeps idx idx
Keeps-refl idx = record {
  extents = λ j. inr (refl, omega arith);
  sizes = λ j. inl (omega arith);
  fate = λ j. inl refl;
}

-- Keeps does not look at entries and flags, and a further step that leaves all extents is harmless.
pub Keeps-then :
    (a b c : Index)
    → Keeps a b
    → c.extents ≡ b.extents
    → ((j : ℕ) → file_size j b ≤ file_size j c)
    → ((j : ℕ) → (file_size j c ≡ file_size j b) ⊎ (file_size j c < 2 ^ 63))
    → ((j : ℕ) → lookup j b.inodes ≡ none → lookup j c.inodes ≡ none)
    → Keeps a c
Keeps-then a b c x same grows sizes gone = record {
  extents = λ j. ground (arith, x.extents j, same, grows j);
  sizes = λ j. ground (arith, x.sizes j, sizes j);
  fate = λ j. ground (arith, x.fate j, same, gone j);
}

pub Keeps-FilesAreSound :
    (idx idx' : Index) → Keeps idx idx' → FilesAreSound idx → FilesAreSound idx'
unfolding coverage
Keeps-FilesAreSound idx idx' k sound = record {
  fits = λ j. ground (arith, k.extents j, sound.fits j);
  apart = λ j p. ground (arith, k.extents j, sound.apart j p);
  within = λ j p short. ground (arith, k.extents j, sound.within j p);
  sized = λ j. ground (arith, k.sizes j, sound.sized j);
}

-- A change of an inode that leaves its size.
module _ (f : Inode → Inode) (same : (n : Inode) → (f n).size ≡ n.size) where
  size-map : (o : Option Inode) → size_or_zero (map_option f o) ≡ size_or_zero o
  size-map none = refl
  size-map (some n) = same n

  pub size-adjust :
      (ino j : ℕ) (m : Map ℕ Inode)
      → size_or_zero (lookup j (adjust ino f m)) ≡ size_or_zero (lookup j m)
  size-adjust ino j m = ground (arith, lookup-adjust ino j f m, size-map (lookup j m))

  pub gone-adjust :
      (ino j : ℕ) (m : Map ℕ Inode) → lookup j m ≡ none → lookup j (adjust ino f m) ≡ none
  gone-adjust ino j m h = ground (arith, lookup-adjust ino j f m)

-- The extents are the same, and so are the sizes.
pub record SameFiles (idx idx' : Index) : Type 0 where
  pub extents : idx'.extents ≡ idx.extents
  pub sizes : (j : ℕ) → file_size j idx' ≡ file_size j idx

pub same-Keeps : (idx idx' : Index) → SameFiles idx idx' → Keeps idx idx'
same-Keeps idx idx' x = record {
  extents = λ j. inr (rw x.extents refl, omega (arith, x.sizes j));
  sizes = λ j. inl (omega (arith, x.sizes j));
  fate = λ j. inl (rw x.extents refl);
}

module _ (now : ℕ) (idx : Index) where
  pub size-add_dir_entry :
      (parent : ℕ) (name : Bytes) (child : ℕ) (idx' : Index)
      → add_dir_entry parent name child now idx ≡ ok idx'
      → (j : ℕ) → file_size j idx' ≡ file_size j idx
  unfolding add_dir_entry add_link
  size-add_dir_entry parent name child idx' w j = ground (
    arith,
    size-adjust (touch now) (λ n. refl) parent j (adjust child (link now) idx.inodes),
    size-adjust (link now) (λ n. refl) child j idx.inodes,
  )

  pub add_dir_entry-Keeps :
      (parent : ℕ) (name : Bytes) (child : ℕ) (a idx' : Index)
      → Keeps a idx
      → add_dir_entry parent name child now idx ≡ ok idx'
      → Keeps a idx'
  unfolding add_dir_entry add_link
  add_dir_entry-Keeps parent name child a idx' k w =
      let sizes = size-add_dir_entry parent name child idx' w in
      Keeps-then a idx idx' k (ground arith) (λ j. omega (arith, sizes j)) (λ j. inl (sizes j))
        (λ j h. ground (
          arith,
          gone-adjust (touch now) (λ n. refl) parent j (adjust child (link now) idx.inodes),
          gone-adjust (link now) (λ n. refl) child j idx.inodes,
        ))

  pub drop_link-Keeps :
      (ino : ℕ) (child : Inode) (kept : Inode → Inode)
      → ((n : Inode) → (kept n).size ≡ n.size)
      → Keeps idx (drop_link ino child kept idx)
  unfolding drop_link
  drop_link-Keeps ino child kept same =
      let counted = λ (n : Inode). record n { nlink = dec32 child.nlink } in
      let inodes = adjust ino counted idx.inodes in
      record {
        extents = λ j. ground (
          arith,
          lookup-delete ino j idx.extents,
          lookup-delete ino j inodes,
          size-adjust kept same ino j inodes,
          size-adjust counted (λ n. refl) ino j idx.inodes,
        );
        sizes = λ j. ground (
          arith,
          lookup-delete ino j inodes,
          size-adjust kept same ino j inodes,
          size-adjust counted (λ n. refl) ino j idx.inodes,
        );
        fate = λ j. ground (arith, lookup-delete ino j idx.extents, lookup-delete ino j inodes);
      }

  through : (a b : Index) → Keeps idx a → b.extents ≡ a.extents → b.inodes ≡ a.inodes → Keeps idx b
  through a b k e i =
      Keeps-then idx a b k e (λ j. ground (arith, i)) (λ j. inl (rw i refl)) (λ j h. rw i h)

  pub displace-Keeps :
      (parent : ℕ) (name : Bytes) (idx' : Index)
      → displace parent name idx ≡ ok idx'
      → Keeps idx idx'
  unfolding displace
  displace-Keeps parent name idx' w = elim (Option-cases (lookup_entry parent name idx)) [
    | inl absent ↦
        same-Keeps idx idx' (record { extents = ground arith; sizes = λ j. ground arith })
    | inr (ino, entry) ↦ elim (Option-cases (lookup ino idx.inodes)) [
      | inl missing ↦ absurd (ground arith)
      | inr (child, found) ↦
          through (drop_link ino child (λ n. n) idx) idx'
            (drop_link-Keeps ino child (λ n. n) (λ n. refl)) (ground arith) (ground arith)
    ]
  ]

  move_entry-Keeps :
      (parent : ℕ) (name : Bytes) (new_parent : ℕ) (new_name : Bytes) (child : ℕ) (a idx' : Index)
      → Keeps idx a
      → move_entry parent name new_parent new_name child now a ≡ ok idx'
      → Keeps idx idx'
  unfolding move_entry
  move_entry-Keeps parent name new_parent new_name child a idx' k w =
      let b = adjust child (set_ctime now) a.inodes in
      let c = adjust parent (touch now) b in
      let sizes : (j : ℕ) → file_size j idx' ≡ file_size j a = λ j. ground (
        arith,
        size-adjust (touch now) (λ n. refl) new_parent j c,
        size-adjust (touch now) (λ n. refl) parent j b,
        size-adjust (set_ctime now) (λ n. refl) child j a.inodes,
      ) in
      Keeps-then idx a idx' k (ground arith) (λ j. omega (arith, sizes j)) (λ j. inl (sizes j))
        (λ j h. ground (
          arith,
          gone-adjust (touch now) (λ n. refl) new_parent j c,
          gone-adjust (touch now) (λ n. refl) parent j b,
          gone-adjust (set_ctime now) (λ n. refl) child j a.inodes,
        ))

module _ (now : ℕ) (idx : Index) where
  pub remove_dir_entry-Keeps :
      (parent : ℕ) (name : Bytes) (idx' : Index)
      → remove_dir_entry parent name now idx ≡ ok idx'
      → Keeps idx idx'
  unfolding remove_dir_entry
  remove_dir_entry-Keeps parent name idx' w = elim (Option-cases (lookup parent idx.inodes)) [
    | inl lost ↦ absurd (ground arith)
    | inr (p, has) ↦ elim (Option-cases (lookup_entry parent name idx)) [
      | inl absent ↦ absurd (ground arith)
      | inr (ino, entry) ↦ elim (Option-cases (lookup ino idx.inodes)) [
        | inl missing ↦ absurd (ground arith)
        | inr (child, found) ↦
            let unlinked = record idx { dir_index = adjust parent (delete name) idx.dir_index } in
            let dropped = drop_link ino child (set_ctime now) unlinked in
            let k = drop_link-Keeps now unlinked ino child (set_ctime now) (λ n. refl) in
            let sizes : (j : ℕ) → file_size j idx' ≡ file_size j dropped =
              λ j. ground (arith, size-adjust (touch now) (λ n. refl) parent j dropped.inodes) in
            Keeps-then idx dropped idx'
              (record { extents = k.extents; sizes = k.sizes; fate = k.fate }) (ground arith)
              (λ j. omega (arith, sizes j)) (λ j. inl (sizes j))
              (λ j h. ground (arith, gone-adjust (touch now) (λ n. refl) parent j dropped.inodes))
      ]
    ]
  ]

  pub rename-Keeps :
      (parent : ℕ) (name : Bytes) (new_parent : ℕ) (new_name : Bytes) (idx' : Index)
      → rename parent name new_parent new_name now idx ≡ ok idx'
      → Keeps idx idx'
  unfolding rename
  rename-Keeps parent name new_parent new_name idx' w =
      elim (Option-cases (lookup_entry parent name idx)) [
        | inl absent ↦ absurd (ground arith)
        | inr (child, entry) ↦ elim (Result-cases (displace new_parent new_name idx)) [
          | inr (inl (failure, failed)) ↦ absurd (ground arith)
          | inr (inr crashed) ↦ absurd (ground arith)
          | inl (between, displaced) ↦
              move_entry-Keeps now idx parent name new_parent new_name child between idx'
                (displace-Keeps now idx new_parent new_name between displaced) (ground arith)
        ]
      ]

  -- A new inode, whose number no inode has.
  pub create_inode-Keeps :
      (file_type mode uid gid rdev : ℕ)
      → file_size idx.next_ino idx ≡ 0
      → Keeps idx (create_inode file_type mode uid gid rdev now idx).1
        × (file_size idx.next_ino (create_inode file_type mode uid gid rdev now idx).1 ≡ 0)
  unfolding create_inode
  create_inode-Keeps file_type mode uid gid rdev unused =
      let inode = created_inode file_type mode uid gid rdev now idx in
      (
        record {
          extents = λ j. ground (
            arith,
            lookup-insert {V = List Extent} idx.next_ino j [] idx.extents,
            lookup-insert idx.next_ino j inode idx.inodes,
          );
          sizes = λ j. ground (arith, lookup-insert idx.next_ino j inode idx.inodes);
          fate = λ j.
              ground (arith, unused, lookup-insert {V = List Extent} idx.next_ino j [] idx.extents);
        },
        ground (arith, lookup-insert idx.next_ino idx.next_ino inode idx.inodes),
      )

  pub set_symlink-Keeps :
      (ino : ℕ) (target : Bytes) (a idx' : Index)
      → Keeps a idx
      → file_size ino idx ≡ 0
      → length target < 2 ^ 63
      → set_symlink ino target now idx ≡ ok idx'
      → Keeps a idx'
  unfolding set_symlink
  set_symlink-Keeps ino target a idx' k short fits w =
      let f = λ (n : Inode). record n { size = length target; ctime = now } in
      Keeps-then a idx idx' k (ground arith) (λ j. ground (arith, lookup-adjust ino j f idx.inodes))
        (λ j. ground (arith, lookup-adjust ino j f idx.inodes))
        (λ j h. ground (arith, lookup-adjust ino j f idx.inodes))

-- The requests that leave every extent and every size.
module _ (ino now : ℕ) (idx : Index) where
  pub touch_atime-SameFiles : SameFiles idx (touch_atime ino now idx)
  unfolding touch_atime
  touch_atime-SameFiles = record {
    extents = ground arith;
    sizes = λ j.
        ground (arith, size-adjust (λ m. record m { atime = now }) (λ n. refl) ino j idx.inodes);
  }

  pub set_xattr-SameFiles :
      (name d : Bytes) (idx' : Index) → set_xattr ino name d now idx ≡ ok idx' → SameFiles idx idx'
  unfolding set_xattr
  set_xattr-SameFiles name d idx' w = record {
    extents = ground arith;
    sizes = λ j. ground (arith, size-adjust (set_ctime now) (λ n. refl) ino j idx.inodes);
  }

  pub remove_xattr-SameFiles :
      (name : Bytes) (idx' : Index) → remove_xattr ino name now idx ≡ ok idx' → SameFiles idx idx'
  unfolding remove_xattr
  remove_xattr-SameFiles name idx' w = record {
    extents = ground arith;
    sizes = λ j. ground (arith, size-adjust (set_ctime now) (λ n. refl) ino j idx.inodes);
  }

  -- SetAttr without a size.
  pub set_attr-SameFiles :
      (c : Changes) (idx' : Index)
      → c.size ≡ none
      → set_attr ino c now idx ≡ ok idx'
      → SameFiles idx idx'
  unfolding set_attr
  set_attr-SameFiles c idx' unsized w = record {
    extents = ground arith;
    sizes = λ j. ground (arith, size-adjust (change c now) (λ n. refl) ino j idx.inodes);
  }
