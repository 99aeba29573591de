-- ===== src/Index/Links/Panics.antt =====
-- When the operations on directories follow a nil pointer or write to a nil map.
use fusey.Base.{
  ℕ, Bytes, false, some, ◌≡◌, ◌≢◌, nat_key, bytes_key, arith, refl, ok, panic, ◌↔◌, Option-cases,
  Result-cases, inl, inr, ap,
}
use fusey.Map.{lookup, delete, lookup-adjust}
use fusey.Index.Types.{Index}
use fusey.Index.Tree.{lookup_entry, displace, move_entry, rename, add_dir_entry, add_link}
use fusey.Index.Links.Defs.{LinksAreExact, is_some, type_of}
use fusey.Index.Links.Dropping
use fusey.Index.Links.Removing.{entry_found}
use fusey.Index.Links.Moving.{displace_some}

module _ (parent : ℕ) (name : Bytes) (child now : ℕ) (idx : Index) (x : LinksAreExact idx) where
  -- AddDirEntry never panics, if the link counts are exact.
  pub add_dir_entry-ne-panic : add_dir_entry parent name child now idx ≢ panic
  unfolding add_dir_entry add_link
  add_dir_entry-ne-panic w = ground (arith, x.tables parent)

module _ (parent : ℕ) (name : Bytes) (idx idx' : Index) (x : LinksAreExact idx)
    (w : displace parent name idx ≡ ok idx') where
  -- The destination directory itself is never what a rename frees.
  table-displace : is_some (lookup parent idx'.dir_index) ≡ is_some (lookup parent idx.dir_index)
  unfolding displace lookup_entry lookup
  table-displace = elim (Option-cases (lookup_entry parent name idx)) [
    | inl missing ↦ ground arith
    | inr (ino, e) ↦
        let (child, f) = entry_found parent name 0 idx x ino e in
        let (full, result) = displace_some parent name idx idx' x w ino child e f in
        ground (
          arith,
          ap (λ (i : Index). is_some (lookup parent i.dir_index)) result,
          (Dropping.tables_after ino child (λ n. n) idx (λ n. (refl, refl)) f x full parent).1,
          Dropping.children_empty ino child (λ n. n) idx (λ n. (refl, refl)) f x full,
        )
  ]

displace-ne-panic :
    (parent : ℕ) (name : Bytes) (idx : Index) → LinksAreExact idx → displace parent name idx ≢ panic
unfolding displace
displace-ne-panic parent name idx x w = elim (Option-cases (lookup_entry parent name idx)) [
  | inl missing ↦ absurd (ground arith)
  | inr (ino, e) ↦ let (child, f) = entry_found parent name 0 idx x ino e in absurd (ground arith)
]

module _ (src_parent : ℕ) (src_name : Bytes) (dst_parent : ℕ) (dst_name : Bytes) (now : ℕ)
    (idx : Index) (x : LinksAreExact idx) where
  move_entry-panic :
      (child : ℕ) (between : Index)
      → displace dst_parent dst_name idx ≡ ok between
      → (move_entry src_parent src_name dst_parent dst_name child now between ≡ panic)
        ↔ (is_some (lookup dst_parent idx.dir_index) ≡ false)
  unfolding move_entry
  move_entry-panic child between first = (
    (λ h. ground (
      arith,
      table-displace dst_parent dst_name idx between x first,
      lookup-adjust src_parent dst_parent (delete src_name) between.dir_index,
    )),
    (λ h. ground (
      arith,
      table-displace dst_parent dst_name idx between x first,
      lookup-adjust src_parent dst_parent (delete src_name) between.dir_index,
    )),
  )

  -- Rename into a directory never panics, if the link counts are exact.
  pub rename-ne-panic :
      type_of (lookup dst_parent idx.inodes) ≡ 0o040000
      → rename src_parent src_name dst_parent dst_name now idx ≢ panic
  unfolding rename
  rename-ne-panic is_dir w = elim (Option-cases (lookup_entry src_parent src_name idx)) [
    | inl missing ↦ absurd (ground arith)
    | inr (child, e) ↦
        let (inode, f) = entry_found src_parent src_name now idx x child e in
        elim (Result-cases (displace dst_parent dst_name idx)) [
          | inl (between, first) ↦
              absurd (ground (arith, (move_entry-panic child between first).0, x.tables dst_parent))
          | inr (inl (failure, first)) ↦ absurd (ground arith)
          | inr (inr first) ↦ displace-ne-panic dst_parent dst_name idx x first
        ]
  ]

  displace_no_table :
      type_of (lookup dst_parent idx.inodes) ≢ 0o040000 → displace dst_parent dst_name idx ≡ ok idx
  unfolding displace lookup_entry lookup
  displace_no_table no_dir = ground (arith, x.tables dst_parent)

  -- Rename of an entry that is there, into an inode that is not a directory, panics, if the link
  -- counts are exact.
  pub rename_into_file :
      (child : ℕ)
      → lookup_entry src_parent src_name idx ≡ some child
      → type_of (lookup dst_parent idx.inodes) ≢ 0o040000
      → rename src_parent src_name dst_parent dst_name now idx ≡ panic
  unfolding rename
  rename_into_file child e no_dir =
      let (inode, f) = entry_found src_parent src_name now idx x child e in
      let stays = displace_no_table no_dir in
      ground (arith, x.tables dst_parent, (move_entry-panic child idx stays).1)
