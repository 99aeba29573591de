-- ===== src/Persist/Saving/RoundTrip.antt =====
-- What is loaded after a save.
use mathlib.Core.Path.{subst}
use fusey.Base.{
  ℕ, Bytes, true, Option, none, some, List, [], ◌∷◌, ◌≡◌, ◌≢◌, refl, arith, ap, sym, ◌∙◌, map,
  nat_key, bytes_key, ◌≤◌, length, length-map, Result, ok, inl, inr, Result-cases,
}
use fusey.Map.{Map, lookup, lookup-map, over_option}
use fusey.Index.Types.{Extent, Index, Inode, DirEntry, or_empty}
use fusey.Index.Tree.{lookup_entry}
use fusey.Index.Content.{All, All-map}
use fusey.Index.Links.{LinksAreExact}
use fusey.Index.Snapshots.{snapshot, from_snapshot, all_entries, mark_clean}
use fusey.Index.Snapshots.RoundTrip.{lookup_entry-restored}
use fusey.Persist.Defs.{
  WireSnapshot, WireInode, WireExtent, to_wire_snapshot, from_wire_snapshot, to_wire_inode,
  from_wire_inode, to_wire_entry, from_wire_entry, from_wire_map, from_wire_extent,
}
use fusey.Persist.RoundTrip.{IsNumbered, from_wire_map-to_wire_map}
use fusey.Persist.Saving.Defs.{
  Codec, Disk, DiskReplies, marshal, unmarshal, save, load, write_snapshot,
}

-- The same keys and values, whatever the order of the maps.
pub record SameWire (w v : WireSnapshot) : Type 0 where
  pub inodes : (ino : ℕ) → lookup ino v.inodes ≡ lookup ino w.inodes
  pub dir_entries : v.dir_entries ≡ w.dir_entries
  pub extent_map : (ino : ℕ) → lookup ino v.extent_map ≡ lookup ino w.extent_map
  pub symlink_targets : (ino : ℕ) → lookup ino v.symlink_targets ≡ lookup ino w.symlink_targets
  pub xattrs :
      (ino : ℕ) (name : Bytes)
      → lookup name (or_empty (lookup ino v.xattrs)) ≡ lookup name (or_empty (lookup ino w.xattrs))
  pub next_ino : v.next_ino ≡ w.next_ino

-- The elements of an array and the pairs of a map that Unmarshal takes by default.
abbrev pub max_elements : ℕ
max_elements = 131072

-- Unmarshal takes the snapshot: its strings are texts, and its lists and maps are not too long.
pub record IsDecodable (C : Codec) (w : WireSnapshot) : Type 0 where
  pub inodes : length w.inodes ≤ max_elements
  pub dir_entries :
      (length w.dir_entries ≤ max_elements) × All (λ e. C.takes_text e.name ≡ true) w.dir_entries
  pub extent_map :
      (length w.extent_map ≤ max_elements)
      × All (λ (ino, es). length es ≤ max_elements) w.extent_map
  pub symlink_targets :
      (length w.symlink_targets ≤ max_elements)
      × All (λ (ino, target). C.takes_text target ≡ true) w.symlink_targets
  pub xattrs :
      (length w.xattrs ≤ max_elements)
      × All
          (λ (ino, m).
            (length m ≤ max_elements)
            × All (λ (name, d). (C.takes_text name ≡ true) × (C.takes_text d ≡ true)) m)
          w.xattrs

-- The same of an index.
pub record IsStorable (C : Codec) (idx : Index) : Type 0 where
  pub inodes : length idx.inodes ≤ max_elements
  pub dir_entries :
      (length (all_entries idx.dir_index) ≤ max_elements)
      × All (λ e. C.takes_text e.name ≡ true) (all_entries idx.dir_index)
  pub extents :
      (length idx.extents ≤ max_elements) × All (λ (ino, es). length es ≤ max_elements) idx.extents
  pub symlinks :
      (length idx.symlinks ≤ max_elements)
      × All (λ (ino, target). C.takes_text target ≡ true) idx.symlinks
  pub xattrs :
      (length idx.xattrs ≤ max_elements)
      × All
          (λ (ino, m).
            (length m ≤ max_elements)
            × All (λ (name, d). (C.takes_text name ≡ true) × (C.takes_text d ≡ true)) m)
          idx.xattrs

-- What the CBOR library promises: decoding gives back what was encoded, within its limits.
pub record IsFaithful (C : Codec) : Type 0 where
  pub decode-encode :
      (w : WireSnapshot) (d : Bytes)
      → C.encode w ≡ some d
      → IsDecodable C w
      → (v : WireSnapshot) × (C.decode d ≡ some v) × SameWire w v

-- Two indexes answer every question about files alike.
pub record SameContents (a b : Index) : Type 0 where
  pub inodes : (ino : ℕ) → lookup ino b.inodes ≡ lookup ino a.inodes
  pub entries :
      (parent : ℕ) (name : Bytes) → lookup_entry parent name b ≡ lookup_entry parent name a
  pub extents : (ino : ℕ) → lookup ino b.extents ≡ lookup ino a.extents
  pub symlinks : (ino : ℕ) → lookup ino b.symlinks ≡ lookup ino a.symlinks
  pub xattrs :
      (ino : ℕ) (name : Bytes)
      → lookup name (or_empty (lookup ino b.xattrs)) ≡ lookup name (or_empty (lookup ino a.xattrs))
  pub next_ino : b.next_ino ≡ a.next_ino

-- The chunk ID of every extent is that of a 32-bit number.
abbrev pub AreNumbered : Index → Type 0
AreNumbered idx = All (λ (ino, es). All IsNumbered es) idx.extents

over_inodes : (o : Option Inode) → over_option from_wire_inode (over_option to_wire_inode o) ≡ o
unfolding from_wire_inode to_wire_inode
over_inodes none = refl
over_inodes (some n) = refl

entries_back : (es : List DirEntry) → map from_wire_entry (map to_wire_entry es) ≡ es
unfolding from_wire_entry to_wire_entry
entries_back [] = refl
entries_back (e ∷ es) = ap (λ l. e ∷ l) (entries_back es)

module _ (C : Codec) (faithful : IsFaithful C) (idx : Index) (block_size : ℕ)
    (links : LinksAreExact idx) (numbered : AreNumbered idx) (storable : IsStorable C idx) where
  wire :
      (w : WireSnapshot) × (to_wire_snapshot (snapshot idx) ≡ ok w)
      × (w.inodes ≡ map (λ (ino, n). (ino, to_wire_inode n)) idx.inodes)
      × (w.dir_entries ≡ map to_wire_entry (all_entries idx.dir_index))
      × (from_wire_map w.extent_map ≡ idx.extents)
      × (w.symlink_targets ≡ idx.symlinks)
      × (w.xattrs ≡ idx.xattrs)
      × (w.next_ino ≡ idx.next_ino)
  unfolding to_wire_snapshot snapshot
  wire =
      let (m, to, from) = from_wire_map-to_wire_map idx.extents numbered in
      (_, rw (to_wire_snapshot, to) refl, refl, refl, from, refl, refl, refl)

  restored :
      (w v : WireSnapshot)
      → w.inodes ≡ map (λ (ino, n). (ino, to_wire_inode n)) idx.inodes
      → w.dir_entries ≡ map to_wire_entry (all_entries idx.dir_index)
      → from_wire_map w.extent_map ≡ idx.extents
      → w.symlink_targets ≡ idx.symlinks
      → w.xattrs ≡ idx.xattrs
      → w.next_ino ≡ idx.next_ino
      → SameWire w v
      → SameContents idx (from_snapshot (from_wire_snapshot v) block_size)
  unfolding from_snapshot from_wire_snapshot from_wire_map
  restored w v inodes entries extents symlinks xattrs next s = record {
    inodes = λ ino.
        lookup-map from_wire_inode ino v.inodes
        ∙ ap (over_option from_wire_inode)
            (s.inodes ino ∙ ap (lookup ino) inodes ∙ lookup-map to_wire_inode ino idx.inodes)
        ∙ over_inodes (lookup ino idx.inodes);
    entries = λ parent name.
        lookup_entry-restored parent name idx (from_wire_snapshot v) block_size
          (ap (map from_wire_entry) (s.dir_entries ∙ entries)
            ∙ entries_back (all_entries idx.dir_index))
          links;
    extents = λ ino.
        lookup-map (map from_wire_extent) ino v.extent_map
        ∙ ap (over_option (map from_wire_extent)) (s.extent_map ino)
        ∙ sym (lookup-map (map from_wire_extent) ino w.extent_map)
        ∙ ap (lookup ino) extents;
    symlinks = λ ino. s.symlink_targets ino ∙ ap (lookup ino) symlinks;
    xattrs = λ ino name. s.xattrs ino name ∙ ap (λ m. lookup name (or_empty (lookup ino m))) xattrs;
    next_ino = s.next_ino ∙ next;
  }

  length-from_wire_map : (m : Map ℕ (List WireExtent)) → length (from_wire_map m) ≡ length m
  unfolding from_wire_map
  length-from_wire_map m =
      length-map {B = ℕ × List Extent} (λ (ino, ws). (ino, map from_wire_extent ws)) m

  extents_fit :
      (m : Map ℕ (List WireExtent))
      → All (λ (ino, es). length es ≤ max_elements) (from_wire_map m)
      → All (λ (ino, ws). length ws ≤ max_elements) m
  unfolding from_wire_map
  extents_fit [] h = tt
  extents_fit ((ino, ws) ∷ m) (h, hs) =
      (omega (arith, h, length-map from_wire_extent ws), extents_fit m hs)

  decodable :
      (w : WireSnapshot)
      → w.inodes ≡ map (λ (ino, n). (ino, to_wire_inode n)) idx.inodes
      → w.dir_entries ≡ map to_wire_entry (all_entries idx.dir_index)
      → from_wire_map w.extent_map ≡ idx.extents
      → w.symlink_targets ≡ idx.symlinks
      → w.xattrs ≡ idx.xattrs
      → IsDecodable C w
  unfolding to_wire_entry
  decodable w inodes entries extents symlinks xattrs = record {
    inodes = omega (
      arith,
      storable.inodes,
      ap length inodes,
      length-map {B = ℕ × WireInode} (λ (ino, n). (ino, to_wire_inode n)) idx.inodes,
    );
    dir_entries = (
      omega (
        arith,
        storable.dir_entries.0,
        ap length entries,
        length-map to_wire_entry (all_entries idx.dir_index),
      ),
      subst (All (λ e. C.takes_text e.name ≡ true)) (sym entries) (
          All-map (λ e. C.takes_text e.name ≡ true) to_wire_entry (all_entries idx.dir_index)
            storable.dir_entries.1),
    );
    extent_map = (
      omega (arith, storable.extents.0, ap length extents, length-from_wire_map w.extent_map),
      extents_fit w.extent_map
          (subst (All (λ (ino, es). length es ≤ max_elements)) (sym extents) storable.extents.1),
    );
    symlink_targets = rw symlinks storable.symlinks;
    xattrs = rw xattrs storable.xattrs;
  }

  pub unmarshal-marshal :
      (d : Bytes)
      → marshal C idx ≡ ok d
      → (idx' : Index) × (unmarshal C d block_size ≡ ok idx') × SameContents idx idx'
  unfolding marshal unmarshal
  unmarshal-marshal d done =
      let (w, to, inodes, entries, extents, symlinks, xattrs, next) = wire in
      let encoded : C.encode w ≡ some d = ground arith in
      let (v, back, same) =
        faithful.decode-encode w d encoded (decodable w inodes entries extents symlinks xattrs) in
      (
        from_snapshot (from_wire_snapshot v) block_size,
        rw (unmarshal, back) refl,
        restored w v inodes entries extents symlinks xattrs next same,
      )

  module _ (io : DiskReplies) (disk : Disk) (idx1 : Index) (disk1 : Disk) where
    -- A Save that succeeds changes only the dirty flag of the index, and Load of the disk that it
    -- leaves gives an index that answers every question about files as the saved one does: if the
    -- CBOR library is faithful, the strings of the index are texts that it decodes, its lists and
    -- maps keep to the library's limit, the link counts are exact, and every chunk ID is that of
    -- a 32-bit number.
    pub load-save :
        save C io idx disk ≡ ((idx1, disk1), ok tt)
        → (idx1 ≡ mark_clean idx)
          × ((idx' : Index) × (load C true disk1 block_size ≡ ok idx') × SameContents idx idx')
    unfolding save load write_snapshot
    load-save saved = elim (Result-cases (marshal C idx)) [
      | inl (d, made) ↦
          let (idx', loaded, same) = unmarshal-marshal d made in
          let on_disk : disk1.snapshot_file ≡ some d = ground arith in
          (ground arith, (idx', rw (load, on_disk) loaded, same))
      | inr (inl (e, made)) ↦ absurd (ground arith)
      | inr (inr made) ↦ absurd (ground arith)
    ]

module _ (C : Codec) (io : DiskReplies) (idx idx1 : Index) (disk disk1 : Disk)
    (r : Result (Unit {0})) where
  -- A Save that does not succeed, at any of its points, leaves the index, its dirty flag and the
  -- snapshot on the disk as they were.
  pub save_fail :
      save C io idx disk ≡ ((idx1, disk1), r)
      → r ≢ ok tt
      → (idx1 ≡ idx) × (disk1.snapshot_file ≡ disk.snapshot_file)
  unfolding save write_snapshot
  save_fail saved failed = ground arith
