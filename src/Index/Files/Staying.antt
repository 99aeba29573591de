-- ===== src/Index/Files/Staying.antt =====
-- Which inodes the operations on the tree leave as they are.
use fusey.Base.{
  ℕ, Bytes, List, [], ◌≡◌, Option, ◌⊎◌, inl, inr, arith, refl, none, some, ok, Result-cases,
  Option-cases, nat_key, bytes_key, length,
}
use fusey.Base.Word.{dec32}
use fusey.Map.{Map, lookup, adjust, delete, lookup-insert, lookup-delete, lookup-adjust}
use fusey.Index.Types.{Index, Inode, Extent, touch, set_ctime}
use fusey.Index.Tree.{
  create_inode, add_dir_entry, add_link, link, drop_link, remove_dir_entry, displace, move_entry,
  rename, lookup_entry,
}
use fusey.Index.Attrs.{set_symlink}
use fusey.Index.Links.{is_some}
use fusey.Index.Files.Starting.{created_inode}
use fusey.Index.Files.Defs.{file_extents, file_size}
use fusey.Index.Files.Keeping.{size-adjust, size-add_dir_entry}

-- The inode is there as before, with its size and its extents.
abbrev pub IsKept : Index → Index → ℕ → Type 0
IsKept a b j =
    (is_some (lookup j b.inodes) ≡ is_some (lookup j a.inodes))
    × (file_size j b ≡ file_size j a)
    × (file_extents j b ≡ file_extents j a)

-- Every inode that is there is kept, but for one that may be gone.
pub record Stays (victim : Option ℕ) (a b : Index) : Type 0 where
  pub fate :
      (j : ℕ)
      → (lookup j a.inodes ≡ none)
        ⊎ (((victim ≡ some j) × (lookup j b.inodes ≡ none)) ⊎ IsKept a b j)

pub Stays-refl : (victim : Option ℕ) (idx : Index) → Stays victim idx idx
Stays-refl victim idx = record { fate = λ j. inr (inr (refl, refl, refl)) }

pub Stays-then :
    (victim : Option ℕ) (a b c : Index)
    → Stays victim a b
    → ((j : ℕ) → (lookup j a.inodes ≡ none) ⊎ IsKept b c j)
    → Stays victim a c
Stays-then victim a b c x step = record {
  fate = λ j. elim (step j) [
    | inl unused ↦ inl unused
    | inr kept ↦ elim (x.fate j) [
      | inl unused ↦ inl unused
      | inr (inl (named, gone)) ↦ inr (inl (named, ground (arith, kept.0)))
      | inr (inr same) ↦ inr (inr (ground arith, ground arith, ground arith))
    ]
  ];
}

pub exists-adjust :
    (f : Inode → Inode) (ino j : ℕ) (m : Map ℕ Inode)
    → is_some (lookup j (adjust ino f m)) ≡ is_some (lookup j m)
exists-adjust f ino j m = ground (arith, lookup-adjust ino j f m)

module _ (now : ℕ) (idx : Index) where
  pub add_dir_entry-IsKept :
      (parent : ℕ) (name : Bytes) (child : ℕ) (idx' : Index)
      → add_dir_entry parent name child now idx ≡ ok idx'
      → (j : ℕ) → IsKept idx idx' j
  unfolding add_dir_entry add_link
  add_dir_entry-IsKept parent name child idx' w j =
      let inodes = adjust child (link now) idx.inodes in
      (
        ground (
          arith,
          exists-adjust (touch now) parent j inodes,
          exists-adjust (link now) child j idx.inodes,
        ),
        size-add_dir_entry now idx parent name child idx' w j,
        ground arith,
      )

  pub drop_link-Stays :
      (ino : ℕ) (child : Inode) (kept : Inode → Inode)
      → ((n : Inode) → (kept n).size ≡ n.size)
      → Stays (some ino) idx (drop_link ino child kept idx)
  unfolding drop_link
  drop_link-Stays ino child kept same =
      let counted = λ (n : Inode). record n { nlink = dec32 child.nlink } in
      let inodes = adjust ino counted idx.inodes in
      record {
        fate = λ j. ground (
          arith,
          lookup-delete ino j idx.extents,
          lookup-delete ino j inodes,
          exists-adjust kept ino j inodes,
          exists-adjust counted ino j idx.inodes,
          size-adjust kept same ino j inodes,
          size-adjust counted (λ n. refl) ino j idx.inodes,
        );
      }

  pub displace-Stays :
      (parent : ℕ) (name : Bytes) (idx' : Index)
      → displace parent name idx ≡ ok idx'
      → Stays (lookup_entry parent name idx) idx idx'
  unfolding displace
  displace-Stays parent name idx' w = elim (Option-cases (lookup_entry parent name idx)) [
    | inl absent ↦ record { fate = λ j. inr (inr (ground arith, ground arith, ground arith)) }
    | inr (ino, entry) ↦ elim (Option-cases (lookup ino idx.inodes)) [
      | inl missing ↦ absurd (ground arith)
      | inr (child, found) ↦
          let x = drop_link-Stays ino child (λ n. n) (λ n. refl) in
          rw entry (
            Stays-then (some ino) idx (drop_link ino child (λ n. n) idx) idx' x
              (λ j. inr (ground arith, ground arith, ground arith)))
    ]
  ]

  move_entry-IsKept :
      (parent : ℕ) (name : Bytes) (new_parent : ℕ) (new_name : Bytes) (child : ℕ) (idx' : Index)
      → move_entry parent name new_parent new_name child now idx ≡ ok idx'
      → (j : ℕ) → IsKept idx idx' j
  unfolding move_entry
  move_entry-IsKept parent name new_parent new_name child idx' w j =
      let b = adjust child (set_ctime now) idx.inodes in
      let c = adjust parent (touch now) b in
      (
        ground (
          arith,
          exists-adjust (touch now) new_parent j c,
          exists-adjust (touch now) parent j b,
          exists-adjust (set_ctime now) child j idx.inodes,
        ),
        ground (
          arith,
          size-adjust (touch now) (λ n. refl) new_parent j c,
          size-adjust (touch now) (λ n. refl) parent j b,
          size-adjust (set_ctime now) (λ n. refl) child j idx.inodes,
        ),
        ground arith,
      )

module _ (now : ℕ) (idx : Index) where
  pub remove_dir_entry-Stays :
      (parent : ℕ) (name : Bytes) (idx' : Index)
      → remove_dir_entry parent name now idx ≡ ok idx'
      → Stays (lookup_entry parent name idx) idx idx'
  unfolding remove_dir_entry
  remove_dir_entry-Stays parent name idx' w = elim (Option-cases (lookup parent idx.inodes)) [
    | inl lost ↦ absurd (ground arith)
    | inr (p, has) ↦ elim (Option-cases (lookup_entry parent name idx)) [
      | inl absent ↦ absurd (ground arith)
      | inr (ino, entry) ↦ elim (Option-cases (lookup ino idx.inodes)) [
        | inl missing ↦ absurd (ground arith)
        | inr (child, found) ↦
            let unlinked = record idx { dir_index = adjust parent (delete name) idx.dir_index } in
            let dropped = drop_link ino child (set_ctime now) unlinked in
            let x = drop_link-Stays now unlinked ino child (set_ctime now) (λ n. refl) in
            rw entry (
              Stays-then (some ino) idx dropped idx' (record { fate = x.fate })
                (λ j. inr (
                  ground (arith, exists-adjust (touch now) parent j dropped.inodes),
                  ground (arith, size-adjust (touch now) (λ n. refl) parent j dropped.inodes),
                  ground arith,
                )))
      ]
    ]
  ]

  pub rename-Stays :
      (parent : ℕ) (name : Bytes) (new_parent : ℕ) (new_name : Bytes) (idx' : Index)
      → rename parent name new_parent new_name now idx ≡ ok idx'
      → Stays (lookup_entry new_parent new_name idx) idx idx'
  unfolding rename
  rename-Stays parent name new_parent new_name idx' w =
      elim (Option-cases (lookup_entry parent name idx)) [
        | inl absent ↦ absurd (ground arith)
        | inr (child, entry) ↦ elim (Result-cases (displace new_parent new_name idx)) [
          | inr (inl (failure, failed)) ↦ absurd (ground arith)
          | inr (inr crashed) ↦ absurd (ground arith)
          | inl (between, displaced) ↦
              Stays-then (lookup_entry new_parent new_name idx) idx between idx'
                (displace-Stays now idx new_parent new_name between displaced)
                (λ j. inr (
                  move_entry-IsKept now between parent name new_parent new_name child idx'
                    (ground arith) j))
        ]
      ]

  -- A new inode, whose number no inode has.
  pub create_inode-Stays :
      (file_type mode uid gid rdev : ℕ)
      → lookup idx.next_ino idx.inodes ≡ none
      → Stays none idx (create_inode file_type mode uid gid rdev now idx).1
  unfolding create_inode
  create_inode-Stays file_type mode uid gid rdev unused =
      let inode = created_inode file_type mode uid gid rdev now idx in
      record {
        fate = λ j. ground (
          arith,
          unused,
          lookup-insert {V = List Extent} idx.next_ino j [] idx.extents,
          lookup-insert idx.next_ino j inode idx.inodes,
        );
      }

  pub set_symlink-IsKept :
      (ino : ℕ) (target : Bytes) (a idx' : Index)
      → lookup ino a.inodes ≡ none
      → set_symlink ino target now idx ≡ ok idx'
      → (j : ℕ) → (lookup j a.inodes ≡ none) ⊎ IsKept idx idx' j
  unfolding set_symlink
  set_symlink-IsKept ino target a idx' unused w j =
      let f = λ (n : Inode). record n { size = length target; ctime = now } in
      ground (arith, unused, lookup-adjust ino j f idx.inodes)
