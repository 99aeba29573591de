-- ===== src/Index/Links/Dropping.antt =====
-- The link that RemoveDirEntry and Rename take from an inode, and the link counts.
use fusey.Base.{
  ℕ, ◌<◌, Bool, false, some, [], ◌≡◌, ◌==◌, nat_key, bytes_key, if◌then◌else◌, arith, ◌&&◌, leb,
}
use fusey.Base.Word.{dec32, dec32-eq}
use fusey.Map.{lookup, adjust, lookup-adjust, lookup-delete, delete-Distinct}
use fusey.Index.Types.{Index, Inode}
use fusey.Index.Tree.{children, own_links, drop_link, is_full_directory}
use fusey.Index.Links.Defs.{Links, LinksAreExact, once, refs, nlink_of, type_of, is_some}
use fusey.Index.Links.Counting.{refs-delete}

module _ (ino : ℕ) (child : Inode) (kept : Inode → Inode) (idx : Index) where
  -- The inode is freed.
  abbrev pub freed : Bool
  freed = leb (dec32 child.nlink) (own_links child.file_type)

  module _ (keeps : (n : Inode) → ((kept n).nlink ≡ n.nlink) × ((kept n).file_type ≡ n.file_type))
      (at : lookup ino idx.inodes ≡ some child) where
    pub inodes_after :
        (j : ℕ)
        → (nlink_of (lookup j (drop_link ino child kept idx).inodes) ≡ (
            if ino == j
            then if freed then 0 else dec32 child.nlink
            else nlink_of (lookup j idx.inodes)))
          × (type_of (lookup j (drop_link ino child kept idx).inodes)
              ≡ (if ino == j && freed then 0 else type_of (lookup j idx.inodes)))
          × (is_some (lookup j (drop_link ino child kept idx).inodes)
              ≡ (if ino == j && freed then false else is_some (lookup j idx.inodes)))
    unfolding drop_link
    inodes_after j = ground (
      arith,
      keeps (record child { nlink = dec32 child.nlink }),
      lookup-delete ino j (adjust ino (λ n. record n { nlink = dec32 child.nlink }) idx.inodes),
      lookup-adjust ino j kept
          (adjust ino (λ n. record n { nlink = dec32 child.nlink }) idx.inodes),
      lookup-adjust ino j (λ n. record n { nlink = dec32 child.nlink }) idx.inodes,
    )

    module _ (x : LinksAreExact idx) (full : is_full_directory ino child idx ≡ false) where
      pub children_empty : children ino idx ≡ []
      children_empty = ground (arith, x.tables ino)

      -- No directory's entries change: a freed inode had none.
      pub tables_after :
          (j : ℕ)
          → (children j (drop_link ino child kept idx) ≡ children j idx)
            × (is_some (lookup j (drop_link ino child kept idx).dir_index)
                ≡ (if ino == j && freed then false else is_some (lookup j idx.dir_index)))
      unfolding drop_link
      tables_after j = ground (arith, lookup-delete ino j idx.dir_index, children_empty)

      refs_after : (j : ℕ) → refs j (drop_link ino child kept idx).dir_index ≡ refs j idx.dir_index
      unfolding drop_link
      refs_after j = ground (arith, refs-delete ino j idx.dir_index x.distinct_dirs children_empty)

      pub drop_link-Links :
          0 < refs ino idx.dir_index → Links (once ino) (drop_link ino child kept idx)
      unfolding drop_link
      drop_link-Links named = record {
        counted = λ j.
            ground
              (arith, x.counted j, x.small j, refs_after j, inodes_after j, dec32-eq child.nlink);
        small = λ j. ground (arith, x.counted j, x.small j, inodes_after j, dec32-eq child.nlink);
        tables = λ j. ground (arith, x.tables j, inodes_after j, tables_after j);
        fresh = λ j h. ground (arith, x.fresh j, inodes_after j);
        distinct_dirs = ground (arith, delete-Distinct ino idx.dir_index x.distinct_dirs);
        distinct_names = λ j. ground (arith, x.distinct_names j, tables_after j);
      }
