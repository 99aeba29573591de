-- ===== src/Index/Links/Removing.antt =====
-- RemoveDirEntry, and the link counts.
use fusey.Base.{
  ℕ, ◌<◌, Bytes, false, some, ◌≡◌, ◌≢◌, ◌==◌, nat_key, bytes_key, if◌then◌else◌, arith, refl, ap,
  ◌∙◌, ok, panic, Option-cases, inl, inr,
}
use fusey.Map.{
  Map, lookup, delete, adjust, lookup-adjust, delete-Distinct, adjust-Distinct, adjust-delete,
}
use fusey.Index.Types.{Index, Inode, touch, set_ctime, mark_dirty}
use fusey.Index.Tree.{children, lookup_entry, drop_link, is_full_directory, remove_dir_entry}
use fusey.Index.Links.Defs.{Links, LinksAreExact, once, refs, nlink_of, type_of, is_some}
use fusey.Index.Links.Counting.{refs-unlink}
use fusey.Index.Links.Dropping

-- The state after the removal of an entry whose link was dropped before.
abbrev pub unlinked : ℕ → Bytes → ℕ → Index → Index
unlinked parent name now idx = mark_dirty (record idx {
  dir_index = adjust parent (delete name) idx.dir_index;
  inodes = adjust parent (touch now) idx.inodes;
})

module _ (parent : ℕ) (name : Bytes) (now : ℕ) (idx : Index) where
  inodes_after :
      (j : ℕ)
      → (nlink_of (lookup j (unlinked parent name now idx).inodes) ≡ nlink_of (lookup j idx.inodes))
        × (type_of (lookup j (unlinked parent name now idx).inodes) ≡ type_of (lookup j idx.inodes))
        × (is_some (lookup j (unlinked parent name now idx).inodes) ≡ is_some (lookup j idx.inodes))
  inodes_after j = ground (arith, lookup-adjust parent j (touch now) idx.inodes)

  tables_after :
      (j : ℕ)
      → (is_some (lookup j (unlinked parent name now idx).dir_index)
          ≡ is_some (lookup j idx.dir_index))
        × (children j (unlinked parent name now idx)
            ≡ (if parent == j then delete name (children j idx) else children j idx))
  unfolding delete
  tables_after j = ground (arith, lookup-adjust parent j (delete name) idx.dir_index)

  unlinked-LinksAreExact :
      (ino : ℕ)
      → Links (once ino) idx
      → lookup_entry parent name idx ≡ some ino
      → LinksAreExact (unlinked parent name now idx)
  unfolding lookup_entry
  unlinked-LinksAreExact ino x e = record {
    counted = λ j. ground (
      arith,
      x.counted j,
      inodes_after j,
      refs-unlink parent name idx.dir_index x.distinct_dirs (x.distinct_names parent) ino j e,
    );
    small = λ j. ground (arith, x.small j, inodes_after j);
    tables = λ j. ground (arith, x.tables j, inodes_after j, tables_after j);
    fresh = λ j h. ground (arith, x.fresh j, inodes_after j);
    distinct_dirs = adjust-Distinct parent (delete name) idx.dir_index x.distinct_dirs;
    distinct_names = λ j. ground (
      arith,
      x.distinct_names j,
      tables_after j,
      delete-Distinct name (children j idx) (x.distinct_names j),
    );
  }

pub lookup_entry_congr :
    (parent : ℕ) (name : Bytes) (idx idx' : Index)
    → children parent idx ≡ children parent idx'
    → lookup_entry parent name idx ≡ lookup_entry parent name idx'
unfolding lookup_entry
lookup_entry_congr parent name idx idx' h = ap (lookup name) h

module _ (parent : ℕ) (name : Bytes) (now : ℕ) (idx : Index) (x : LinksAreExact idx) where
  -- An inode with an entry is there, and counts it.
  pub entry_named : (ino : ℕ) → lookup_entry parent name idx ≡ some ino → 0 < refs ino idx.dir_index
  unfolding lookup_entry
  entry_named ino e = ground (
    arith,
    refs-unlink parent name idx.dir_index x.distinct_dirs (x.distinct_names parent) ino ino e,
  )

  pub entry_found :
      (ino : ℕ)
      → lookup_entry parent name idx ≡ some ino
      → (child : Inode) × (lookup ino idx.inodes ≡ some child)
  entry_found ino e = ground (arith, entry_named ino e, x.counted ino)

  -- What a successful removal did.
  removed :
      (idx' : Index) (ino : ℕ) (child : Inode)
      → lookup_entry parent name idx ≡ some ino
      → lookup ino idx.inodes ≡ some child
      → remove_dir_entry parent name now idx ≡ ok idx'
      → (is_full_directory ino child idx ≡ false)
        × (idx' ≡ unlinked parent name now (drop_link ino child (set_ctime now) idx))
  unfolding remove_dir_entry drop_link
  removed idx' ino child e f w =
      ground (arith, adjust-delete {V = Map Bytes ℕ} parent ino (delete name) idx.dir_index)

  module _ (idx' : Index) (w : remove_dir_entry parent name now idx ≡ ok idx') where
    pub removed_entry : (ino : ℕ) × (lookup_entry parent name idx ≡ some ino)
    unfolding remove_dir_entry
    removed_entry = elim (Option-cases (lookup_entry parent name idx)) [
      | inl missing ↦ absurd (ground arith)
      | inr found ↦ found
    ]

    -- A removal of an entry that succeeds keeps the link counts exact.
    pub remove_dir_entry-LinksAreExact : LinksAreExact idx'
    remove_dir_entry-LinksAreExact =
        let (ino, e) = removed_entry in
        let (child, f) = entry_found ino e in
        let (full, result) = removed idx' ino child e f w in
        let dropped =
          Dropping.drop_link-Links ino child (set_ctime now) idx (λ n. (refl, refl)) f x full
            (entry_named ino e) in
        let same =
          Dropping.tables_after ino child (set_ctime now) idx (λ n. (refl, refl)) f x full parent in
        rw result (
          unlinked-LinksAreExact parent name now (drop_link ino child (set_ctime now) idx) ino
            dropped (lookup_entry_congr parent name _ idx same.0 ∙ e))

  -- RemoveDirEntry never panics, if the link counts are exact.
  pub remove_dir_entry-ne-panic : remove_dir_entry parent name now idx ≢ panic
  unfolding remove_dir_entry
  remove_dir_entry-ne-panic w = elim (Option-cases (lookup_entry parent name idx)) [
    | inl missing ↦ absurd (ground arith)
    | inr (ino, e) ↦ let (child, f) = entry_found ino e in absurd (ground arith)
  ]
