-- ===== src/Index/Links/Moving.antt =====
-- Rename, and the link counts.
use fusey.Base.{
  ℕ, ◌+◌, Bytes, bytes_beq_iff, true, false, none, some, ◌≡◌, ◌==◌, nat_key, bytes_key,
  if◌then◌else◌, arith, refl, ap, sym, ◌∙◌, ◌&&◌, ok, Option-cases, inl, inr,
}
use fusey.Base.Word.{dec32-eq}
use fusey.Map.{
  Map, lookup, insert, delete, adjust, Distinct, lookup-adjust, lookup-delete, option_weight,
  delete-Distinct, adjust-Distinct, insert-Distinct, lookup-insert,
}
use fusey.Index.Types.{Index, Inode, or_empty, touch, set_ctime}
use fusey.Index.Tree.{
  children, lookup_entry, drop_link, is_full_directory, displace, move_entry, rename,
}
use fusey.Index.Links.Defs.{Links, LinksAreExact, nothing, once, refs, nlink_of, type_of, is_some}
use fusey.Index.Links.Counting.{refs-unlink, refs-link}
use fusey.Index.Links.Dropping
use fusey.Index.Links.Removing.{entry_named, entry_found, lookup_entry_congr}

-- The link of the entry that a rename replaces, if there is one.
abbrev replaced : ℕ → Bytes → Index → ℕ → ℕ
replaced parent name idx j = option_weight (λ child. once child j) (lookup_entry parent name idx)

module _ (src_parent : ℕ) (src_name : Bytes) (dst_parent : ℕ) (dst_name : Bytes) (child now : ℕ)
    (idx idx' : Index)
    (w : move_entry src_parent src_name dst_parent dst_name child now idx ≡ ok idx') where
  inodes_after :
      (j : ℕ)
      → (nlink_of (lookup j idx'.inodes) ≡ nlink_of (lookup j idx.inodes))
        × (type_of (lookup j idx'.inodes) ≡ type_of (lookup j idx.inodes))
        × (is_some (lookup j idx'.inodes) ≡ is_some (lookup j idx.inodes))
  unfolding move_entry
  inodes_after j = ground (
    arith,
    lookup-adjust child j (set_ctime now) idx.inodes,
    lookup-adjust src_parent j (touch now) (adjust child (set_ctime now) idx.inodes),
    lookup-adjust dst_parent j (touch now)
        (adjust src_parent (touch now) (adjust child (set_ctime now) idx.inodes)),
  )

  tables_after :
      (j : ℕ)
      → (is_some (lookup j idx'.dir_index) ≡ is_some (lookup j idx.dir_index))
        × (is_some (lookup dst_parent idx.dir_index) ≡ true)
        × (children j idx' ≡ (
            let rest =
              if src_parent == j then delete src_name (children j idx) else children j idx in
            if dst_parent == j then insert dst_name child rest else rest))
  unfolding move_entry delete
  tables_after j = ground (
    arith,
    lookup-adjust dst_parent j (insert dst_name child)
        (adjust src_parent (delete src_name) idx.dir_index),
    lookup-adjust src_parent j (delete src_name) idx.dir_index,
    lookup-adjust src_parent dst_parent (delete src_name) idx.dir_index,
  )

  module _ (d : Distinct idx.dir_index) (e : (j : ℕ) → Distinct (children j idx)) where
    abbrev without_source : Map ℕ (Map Bytes ℕ)
    without_source = adjust src_parent (delete src_name) idx.dir_index

    -- The destination entry is not the source entry, and is still there.
    destination :
        (src_parent == dst_parent && src_name == dst_name) ≡ false
        → lookup dst_name (or_empty (lookup dst_parent without_source))
          ≡ lookup_entry dst_parent dst_name idx
    unfolding lookup_entry lookup
    destination other = ground (
      arith,
      lookup-adjust src_parent dst_parent (delete src_name) idx.dir_index,
      lookup-delete src_name dst_name (children dst_parent idx),
    )

    without_source-Distinct : Distinct (or_empty (lookup dst_parent without_source))
    without_source-Distinct = ground (
      arith,
      e dst_parent,
      lookup-adjust src_parent dst_parent (delete src_name) idx.dir_index,
      delete-Distinct src_name (children dst_parent idx) (e dst_parent),
    )

    refs_after :
        lookup_entry src_parent src_name idx ≡ some child
        → (src_parent == dst_parent && src_name == dst_name) ≡ false
        → (j : ℕ)
        → refs j idx'.dir_index + replaced dst_parent dst_name idx j ≡ refs j idx.dir_index
    unfolding move_entry lookup_entry
    refs_after named other j = ground (
      arith,
      refs-unlink src_parent src_name idx.dir_index d (e src_parent) child j named,
      refs-link dst_parent dst_name without_source
          (adjust-Distinct src_parent (delete src_name) idx.dir_index d) without_source-Distinct
          child j,
      ap (option_weight (λ (c : ℕ). once c j)) (destination other),
    )

  move_entry-LinksAreExact :
      (pending : ℕ → ℕ)
      → Links pending idx
      → ((j : ℕ) → pending j ≡ replaced dst_parent dst_name idx j)
      → lookup_entry src_parent src_name idx ≡ some child
      → (src_parent == dst_parent && src_name == dst_name) ≡ false
      → LinksAreExact idx'
  unfolding move_entry
  move_entry-LinksAreExact pending x same named other = record {
    counted = λ j. ground (
      arith,
      x.counted j,
      same j,
      inodes_after j,
      refs_after x.distinct_dirs x.distinct_names named other j,
    );
    small = λ j. ground (arith, x.small j, inodes_after j);
    tables = λ j. ground (arith, x.tables j, inodes_after j, tables_after j);
    fresh = λ j h. ground (arith, x.fresh j, inodes_after j);
    distinct_dirs = ground (
      arith,
      adjust-Distinct src_parent (delete src_name) idx.dir_index x.distinct_dirs,
      adjust-Distinct dst_parent (insert dst_name child)
          (adjust src_parent (delete src_name) idx.dir_index),
    );
    distinct_names = λ j. ground (
      arith,
      x.distinct_names j,
      tables_after j,
      delete-Distinct src_name (children j idx) (x.distinct_names j),
      insert-Distinct dst_name child (children j idx),
      insert-Distinct dst_name child (delete src_name (children j idx)),
    );
  }

-- The removal of the destination drops its link and touches no entry.
module _ (parent : ℕ) (name : Bytes) (idx idx' : Index) (x : LinksAreExact idx)
    (w : displace parent name idx ≡ ok idx') where
  pub displace_some :
      (ino : ℕ) (child : Inode)
      → lookup_entry parent name idx ≡ some ino
      → lookup ino idx.inodes ≡ some child
      → (is_full_directory ino child idx ≡ false) × (idx' ≡ drop_link ino child (λ n. n) idx)
  unfolding displace
  displace_some ino child e f = ground arith

  displace-Links :
      (pending : ℕ → ℕ) × Links pending idx'
      × ((j : ℕ) → pending j ≡ replaced parent name idx j)
      × ((j : ℕ) → children j idx' ≡ children j idx)
  unfolding displace
  displace-Links = elim (Option-cases (lookup_entry parent name idx)) [
    | inl missing ↦
        let same : idx' ≡ idx = ground arith in
        (nothing, rw same x, (λ j. rw missing), (λ j. rw same))
    | inr (ino, e) ↦
        let (child, f) = entry_found parent name 0 idx x ino e in
        let (full, result) = displace_some ino child e f in
        (
          once ino,
          rw result (
              Dropping.drop_link-Links ino child (λ n. n) idx (λ n. (refl, refl)) f x full
                (entry_named parent name 0 idx x ino e)),
          (λ j. rw e),
          (λ j.
              rw result
                (Dropping.tables_after ino child (λ n. n) idx (λ n. (refl, refl)) f x full j).0),
        )
  ]

module _ (src_parent : ℕ) (src_name : Bytes) (dst_parent : ℕ) (dst_name : Bytes) (now : ℕ)
    (idx idx' : Index) (x : LinksAreExact idx)
    (w : rename src_parent src_name dst_parent dst_name now idx ≡ ok idx') where
  pub rename_steps :
      (child : ℕ) × (between : Index) × (lookup_entry src_parent src_name idx ≡ some child)
      × (displace dst_parent dst_name idx ≡ ok between)
      × (move_entry src_parent src_name dst_parent dst_name child now between ≡ ok idx')
  unfolding rename
  rename_steps = ground arith

  -- A rename that succeeds, of an entry that is not the destination itself, keeps the link counts
  -- exact: each inode's nlink is the number of entries that name it, and one more for a
  -- directory.
  pub rename-LinksAreExact :
      (src_parent == dst_parent && src_name == dst_name) ≡ false → LinksAreExact idx'
  rename-LinksAreExact other =
      let (child, between, named, first, second) = rename_steps in
      let (pending, links, same, kept) = displace-Links dst_parent dst_name idx between x first in
      move_entry-LinksAreExact src_parent src_name dst_parent dst_name child now between idx' second
        pending links
        (λ j.
          same j
          ∙ ap (option_weight (λ (c : ℕ). once c j))
              (sym (lookup_entry_congr dst_parent dst_name between idx (kept dst_parent))))
        (lookup_entry_congr src_parent src_name between idx (kept src_parent) ∙ named) other

-- Renaming an entry onto itself.
module _ (parent : ℕ) (name : Bytes) (now : ℕ) (idx idx' : Index) (x : LinksAreExact idx)
    (w : rename parent name parent name now idx ≡ ok idx') where
  lookup-move_entry_self :
      (child : ℕ) (between : Index)
      → move_entry parent name parent name child now between ≡ ok idx'
      → lookup_entry parent name idx' ≡ some child
  unfolding move_entry lookup_entry
  lookup-move_entry_self child between w = ground (
    arith,
    lookup-adjust parent parent (insert name child) (adjust parent (delete name) between.dir_index),
    lookup-adjust parent parent (delete name) between.dir_index,
    lookup-insert name name child (delete name (children parent between)),
    bytes_beq_iff name name,
  )

  -- A rename of an entry onto itself that succeeds, when no other entry names the inode and the
  -- link counts are exact, frees the inode and leaves the entry.
  pub rename_self :
      (child : ℕ)
      → lookup_entry parent name idx ≡ some child
      → refs child idx.dir_index ≡ 1
      → (lookup_entry parent name idx' ≡ some child) × (lookup child idx'.inodes ≡ none)
  rename_self child e single =
      let (source, between, named, first, second) =
        rename_steps parent name parent name now idx idx' x w in
      let same : source ≡ child = ground arith in
      let (inode, f) = entry_found parent name now idx x child e in
      let (full, result) = displace_some parent name idx between x first child inode e f in
      (
        lookup-move_entry_self source between second ∙ ap some same,
        ground (
          arith,
          ap (λ (i : Index). is_some (lookup child i.inodes)) result,
          x.counted child,
          x.small child,
          dec32-eq inode.nlink,
          (inodes_after parent name parent name source now between idx' second child).2,
          (Dropping.inodes_after child inode (λ n. n) idx (λ n. (refl, refl)) f child).2,
        ),
      )
