-- ===== src/Index/Snapshots/RoundTrip.antt =====
-- The entries of an index that is loaded from the snapshot of another.
use fusey.Base.{
  ℕ, Bytes, Option, none, some, List, [], ◌∷◌, ◌++◌, ◌≡◌, refl, arith, ◌∙◌, ap, ◌==◌, nat_key,
  bytes_key, bytes_beq_iff, if◌then◌else◌, ◌&&◌,
}
use fusey.Map.{Map, lookup, insert, lookup-insert, Distinct}
use fusey.Index.Types.{Index, Inode, DirEntry, or_empty}
use fusey.Index.Tree.{lookup_entry}
use fusey.Index.Links.{LinksAreExact}
use fusey.Index.Snapshots.Defs.{
  Snapshot, entries_of, all_entries, snapshot, add_entry, rebuild, add_table, add_tables,
  from_snapshot,
}

module _ (parent : ℕ) (name : Bytes) where
  abbrev entry : Map ℕ (Map Bytes ℕ) → Option ℕ
  entry dirs = lookup name (or_empty (lookup parent dirs))

  -- The last entry of a list for the name, or `found`.
  last_entry : Option ℕ → List DirEntry → Option ℕ
  last_entry found [] = found
  last_entry found (e ∷ es) =
      last_entry (if e.parent_ino == parent && e.name == name then some e.child_ino else found) es

  abbrev over : Option ℕ → Option ℕ → Option ℕ
  over found none = found
  over found (some c) = some c

  last_entry-append :
      (es fs : List DirEntry) (found : Option ℕ)
      → last_entry found (es ++ fs) ≡ last_entry (last_entry found es) fs
  unfolding last_entry
  last_entry-append [] fs found = refl
  last_entry-append (e ∷ es) fs found = last_entry-append es fs _

  entry-rebuild :
      (dirs : Map ℕ (Map Bytes ℕ)) (es : List DirEntry)
      → entry (rebuild dirs es) ≡ last_entry (entry dirs) es
  unfolding rebuild last_entry
  entry-rebuild dirs [] = refl
  entry-rebuild dirs (e ∷ es) =
      entry-rebuild (add_entry e dirs) es ∙ ap (λ (o : Option ℕ). last_entry o es) added
    where
      added :
          entry (add_entry e dirs)
          ≡ (if e.parent_ino == parent && e.name == name then some e.child_ino else entry dirs)
      added = ground (
        arith,
        lookup-insert e.parent_ino parent
            (insert e.name e.child_ino (or_empty (lookup e.parent_ino dirs))) dirs,
        lookup-insert e.name name e.child_ino (or_empty (lookup e.parent_ino dirs)),
      )

  last_entry-entries_of :
      (p : ℕ) (m : Map Bytes ℕ) (found : Option ℕ)
      → Distinct m
      → last_entry found (entries_of p m)
        ≡ (if p == parent then over found (lookup name m) else found)
  unfolding last_entry entries_of lookup
  last_entry-entries_of p [] found d = ground arith
  last_entry-entries_of p ((n, c) ∷ m) found d =
      last_entry-entries_of p m _ d.1 ∙ ground (arith, d.0, bytes_beq_iff n name)

  last_entry-all_entries :
      (dirs : Map ℕ (Map Bytes ℕ)) (found : Option ℕ)
      → Distinct dirs
      → ((p : ℕ) → Distinct (or_empty (lookup p dirs)))
      → last_entry found (all_entries dirs) ≡ over found (entry dirs)
  unfolding last_entry all_entries lookup
  last_entry-all_entries [] found d e = refl
  last_entry-all_entries ((p, m) ∷ dirs) found d e =
      last_entry-append (entries_of p m) (all_entries dirs) found
      ∙ last_entry-all_entries dirs _ d.1 (λ q. ground (arith, e q, d.0))
      ∙ ground (arith, last_entry-entries_of p m found, e p, d.0)

  entry-add_tables :
      (inodes : Map ℕ Inode) (dirs : Map ℕ (Map Bytes ℕ))
      → entry (add_tables inodes dirs) ≡ entry dirs
  unfolding add_tables lookup
  entry-add_tables [] dirs = refl
  entry-add_tables ((ino, n) ∷ inodes) dirs =
      entry-add_tables inodes (add_table ino n dirs)
      ∙ ground (arith, lookup-insert {V = Map Bytes ℕ} ino parent [] dirs)

  pub lookup_entry-restored :
      (idx : Index) (s : Snapshot) (block_size : ℕ)
      → s.dir_entries ≡ all_entries idx.dir_index
      → LinksAreExact idx
      → lookup_entry parent name (from_snapshot s block_size) ≡ lookup_entry parent name idx
  unfolding lookup_entry from_snapshot lookup
  lookup_entry-restored idx s block_size listed x =
      entry-add_tables s.inodes (rebuild [] s.dir_entries)
      ∙ ap (λ (es : List DirEntry). entry (rebuild [] es)) listed
      ∙ entry-rebuild [] (all_entries idx.dir_index)
      ∙ last_entry-all_entries idx.dir_index none x.distinct_dirs x.distinct_names
      ∙ ground arith

  -- The index that FromSnapshot builds from the snapshot of another finds the same inode under
  -- every name in every directory, if the link counts of the other are exact.
  pub lookup_entry-from_snapshot :
      (idx : Index) (block_size : ℕ)
      → LinksAreExact idx
      → lookup_entry parent name (from_snapshot (snapshot idx) block_size)
        ≡ lookup_entry parent name idx
  unfolding snapshot
  lookup_entry-from_snapshot idx block_size x =
      lookup_entry-restored idx (snapshot idx) block_size refl x
