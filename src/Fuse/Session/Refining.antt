-- ===== src/Fuse/Session/Refining.antt =====
-- Each request does to the files what the abstract store of bytes allows.
use mathlib.Core.Path.{subst}
use fusey.Base.{
  ℕ, ◌+◌, ◌^◌, ◌<◌, Bytes, Bool, Option, none, some, ◌≡◌, refl, arith, ap, sym, ◌∙◌, inl, inr, ok,
  Result-cases, Option-cases, Bool-cases, nat_key, ◌==◌, ◌&&◌, leb,
}
use fusey.Map.{lookup}
use fusey.Index.Types.{Index, Inode, regular}
use fusey.Index.Attrs.{Changes, set_attr, set_xattr, remove_xattr}
use fusey.Index.Overwrite.{Place}
use fusey.Index.Content.{locate}
use fusey.Index.Files.{file_extents, file_size}
use fusey.Index.Files.Keeping.{
  Keeps, SameFiles, set_attr-SameFiles, set_xattr-SameFiles, remove_xattr-SameFiles,
}
use fusey.Index.Files.Resizing.{place-set_attr, size-set_attr, locate_uncovered}
use fusey.Index.Links.{type_of}
use fusey.Chunks.Store.{Store, IsLawful}
use fusey.Chunks.ChunkStore.{flush_active}
use fusey.Fuse.Replies.{Reply}
use fusey.Fuse.Files.{Fusey, read}
use fusey.Fuse.Writing.{stored_byte, file_byte}
use fusey.Fuse.ReadBack.{IsReadable, byte_or_zero}
use fusey.Fuse.Nodes.{SetAttrIn, to_changes, setattr, setxattr, removexattr, handle}
use fusey.Fuse.Session.Defs.{
  IsResizable, Step, writes, reads, handles, sets_attr, sets_xattr, removes_xattr, syncs,
}
use fusey.Fuse.Nodes.Holding.{handle-Keeps}
use fusey.Fuse.Nodes.Victims.{victim, handle-Stays}
use fusey.Index.Files.Staying.{Stays}
use fusey.Fuse.Syncing.{fsync}
use fusey.Index.Snapshots.{mark_clean}
use fusey.Chunks.Cache.{Cache}
use fusey.Chunks.Syncing.{chunk_byte-flush_active}
use fusey.Persist.Saving.{Codec, Disk, DiskReplies}
use fusey.Fuse.Session.Overwriting.{same_files, write-Does}
use fusey.Fuse.Session.Contents.{IsSame, IsResized, IsArranged, Does, op_of, resize_op, view}
use fusey.Fuse.Session.Keeping.{IsHealthy}
use fusey.Fuse.Session.Handles.{read_keeps, fsync_outcome}

module _ (S : Store) (object : Bytes → S.State → Option Bytes) where
  module _ (f : Fusey S) (x : IsReadable S object f) where
    -- A new index over the same chunks.
    index-IsSame :
        (idx : Index)
        → SameFiles f.idx idx
        → IsSame (view S object f) (view S object (record f { idx = idx }))
    index-IsSame idx same = same_files S object f (record f { idx = idx }) x same (λ at b h. h)

    emptied_byte : (j p : ℕ) → file_size j f.idx ≡ 0 → byte_or_zero (file_byte S object j p f) ≡ 0
    emptied_byte j p empty =
        rw
          (locate_uncovered (file_extents j f.idx) p none
            (x.sound.files.within j p (omega (arith, empty))))
          refl

    -- The requests that change the tree.
    pub Keeps-IsArranged :
        (idx : Index) (victim : Option ℕ)
        → Keeps f.idx idx
        → Stays victim f.idx idx
        → IsArranged victim (view S object f) (view S object (record f { idx = idx }))
    unfolding locate
    Keeps-IsArranged idx victim k y = record {
      bytes = λ j. elim (k.fate j) [
        | inl same ↦ inl (λ p. rw same refl)
        | inr (inr gone) ↦ inr (rw gone refl)
        | inr (inl empty) ↦ inl (λ p. elim (k.extents j) [
          | inl emptied ↦ rw emptied (sym (emptied_byte j p empty))
          | inr (same, grows) ↦ rw same refl
        ])
      ];
      files = λ j. elim (y.fate j) [
        | inl unused ↦ inl (rw unused refl)
        | inr (inl (named, gone)) ↦ inr (inl (named, rw gone refl))
        | inr (inr (there, size, extents)) ↦ inr (inr (there, size))
      ];
    }

    resize-IsResized :
        (ino : ℕ) (c : Changes) (size now : ℕ) (n : Inode) (idx : Index)
        → lookup ino f.idx.inodes ≡ some n
        → n.file_type ≡ regular
        → c.size ≡ some size
        → size < 2 ^ 63
        → set_attr ino c now f.idx ≡ ok idx
        → IsResized ino size (view S object f) (view S object (record f { idx = idx }))
    resize-IsResized ino c size now n idx found is_file sized fits w = record {
      bytes = λ j p.
          rw
            (place-set_attr ino c size now n f.idx idx found is_file sized w x.sound.files fits j p)
            (elim (Bool-cases (ino == j && leb size p)) [
              | inl cut ↦ rw cut refl
              | inr left ↦ rw left refl
            ]);
      sizes = size-set_attr ino c size now n f.idx idx found is_file sized w;
    }

    -- The new size of a regular file is always accepted.
    accepted :
        (ino : ℕ) (c : Changes) (now : ℕ) (n : Inode)
        → lookup ino f.idx.inodes ≡ some n
        → (idx : Index) × (set_attr ino c now f.idx ≡ ok idx)
    unfolding set_attr
    accepted ino c now n found = elim (Result-cases (set_attr ino c now f.idx)) [
      | inl done ↦ done
      | inr (inl (failure, w)) ↦ absurd (ground arith)
      | inr (inr w) ↦ absurd (ground arith)
    ]

    sized-IsResized :
        (ino : ℕ) (i : SetAttrIn) (now size : ℕ)
        → i.size ≡ some size
        → IsResizable ino i f.idx
        → IsResized ino size
            (view S object f)
            (view S object (record f { idx = (setattr ino i now f.idx).0 }))
    unfolding setattr to_changes
    sized-IsResized ino i now size sized resizable =
        let (fits, is_file) = resizable size sized in
        elim (Option-cases (lookup ino f.idx.inodes)) [
          | inl missing ↦ absurd (ground (arith, ap type_of missing, is_file))
          | inr (n, found) ↦
              let (idx, w) = accepted ino (to_changes i) now n found in
              rw (setattr, w)
                (resize-IsResized ino (to_changes i) size now n idx found
                  (ap type_of (sym found) ∙ is_file) sized fits w)
        ]

    unsized-IsSame :
        (ino : ℕ) (i : SetAttrIn) (now : ℕ)
        → i.size ≡ none
        → IsSame (view S object f) (view S object (record f { idx = (setattr ino i now f.idx).0 }))
    unfolding setattr to_changes
    unsized-IsSame ino i now unsized = elim (Result-cases (set_attr ino (to_changes i) now f.idx)) [
      | inr (inl (failure, w)) ↦ rw (setattr, w) (index-IsSame f.idx unchanged)
      | inr (inr w) ↦ rw (setattr, w) (index-IsSame f.idx unchanged)
      | inl (idx, w) ↦
          rw (setattr, w)
            (index-IsSame idx (set_attr-SameFiles ino now f.idx (to_changes i) idx unsized w))
    ]
      where
        unchanged : SameFiles f.idx f.idx
        unchanged = record { extents = refl; sizes = λ j. refl }

    pub setattr-Does :
        (ino : ℕ) (i : SetAttrIn) (now : ℕ)
        → IsResizable ino i f.idx
        → Does
            (resize_op ino i.size)
            (view S object f)
            (view S object (record f { idx = (setattr ino i now f.idx).0 }))
    setattr-Does ino i now resizable = elim (Option-cases i.size) [
      | inl unsized ↦
          subst
            (λ size.
              Does (resize_op ino size) (view S object f)
                (view S object (record f { idx = (setattr ino i now f.idx).0 })))
            (sym unsized) (unsized-IsSame ino i now unsized)
      | inr (size, sized) ↦
          subst
            (λ size.
              Does (resize_op ino size) (view S object f)
                (view S object (record f { idx = (setattr ino i now f.idx).0 })))
            (sym sized) (sized-IsResized ino i now size sized resizable)
    ]

    pub setxattr-IsSame :
        (ino : ℕ) (name d : Bytes) (now : ℕ)
        → IsSame
            (view S object f)
            (view S object (record f { idx = (setxattr ino name d now f.idx).0 }))
    unfolding setxattr
    setxattr-IsSame ino name d now =
        index-IsSame (setxattr ino name d now f.idx).0
          (elim (Result-cases (set_xattr ino name d now f.idx)) [
            | inl (idx, w) ↦ rw (setxattr, w) (set_xattr-SameFiles ino now f.idx name d idx w)
            | inr (inl (failure, w)) ↦
                rw (setxattr, w) (record { extents = refl; sizes = λ j. refl })
            | inr (inr w) ↦ rw (setxattr, w) (record { extents = refl; sizes = λ j. refl })
          ])

    pub removexattr-IsSame :
        (ino : ℕ) (name : Bytes) (now : ℕ)
        → IsSame
            (view S object f)
            (view S object (record f { idx = (removexattr ino name now f.idx).0 }))
    unfolding removexattr
    removexattr-IsSame ino name now =
        index-IsSame (removexattr ino name now f.idx).0
          (elim (Result-cases (remove_xattr ino name now f.idx)) [
            | inl (idx, w) ↦ rw (removexattr, w) (remove_xattr-SameFiles ino now f.idx name idx w)
            | inr (inl (failure, w)) ↦
                rw (removexattr, w) (record { extents = refl; sizes = λ j. refl })
            | inr (inr w) ↦ rw (removexattr, w) (record { extents = refl; sizes = λ j. refl })
          ])

  module _ (law : IsLawful S object) (f f' : Fusey S) (x : IsHealthy S object f) where
    cache_byte :
        (c : Option Cache) (at : Option Place) (b : ℕ)
        → stored_byte S object at f.cs ≡ some b
        → stored_byte S object at (record f.cs { cache = c }) ≡ some b
    cache_byte c none b h = h
    cache_byte c (some at) b h = h

    read-IsSame :
        (ino want off now : ℕ) (a : Reply Bytes)
        → 0 < want
        → off + want < 2 ^ 63
        → read S ino want off now f ≡ (f', a)
        → IsSame (view S object f) (view S object f')
    read-IsSame ino want off now a some_bytes fits w =
        let (same, (c, kept)) =
          read_keeps S object law f f' x ino want off now some_bytes fits a w in
        same_files S object f f' x.readable same (λ at b h. rw kept (cache_byte c at b h))

    flushed_byte :
        (at : Option Place) (b : ℕ)
        → stored_byte S object at f.cs ≡ some b
        → stored_byte S object at (flush_active S f.cs).0 ≡ some b
    flushed_byte none b h = h
    flushed_byte (some (id, i)) b h = chunk_byte-flush_active S object law f.cs id i ∙ h

    fsync-IsSame :
        (C : Codec) (cached : Bool) (io : DiskReplies) (disk disk' : Disk) (a : Reply (Unit {0}))
        → fsync S C cached io f disk ≡ ((f', disk'), a)
        → IsSame (view S object f) (view S object f')
    unfolding mark_clean
    fsync-IsSame C cached io disk disk' a w =
        elim (fsync_outcome S object law f f' x C cached io disk disk' a w) [
          | inl e ↦ rw e (
              same_files S object f (record f { cs = (flush_active S f.cs).0 }) x.readable
                (record { extents = refl; sizes = λ j. refl }) flushed_byte)
          | inr e ↦ rw e (
              same_files S object f
                (record f { cs = (flush_active S f.cs).0; idx = mark_clean f.idx }) x.readable
                (record { extents = refl; sizes = λ j. refl }) flushed_byte)
        ]

    -- A request does to the sizes and bytes of files what it asks, as `reached-DoesAll` says: if
    -- the store is lawful, the state before is healthy, and the request keeps to its bounds.
    pub step-Does : (step : Step S f f') → Does (op_of S step) (view S object f) (view S object f')
    step-Does (writes spare ino d off now r some_bytes size end apart w) =
        write-Does S object law f f' x spare ino d off now size r end apart w
    step-Does (reads ino want off now r some_bytes fits w) =
        read-IsSame ino want off now r some_bytes fits w
    step-Does (handles now r room other short e) = rw e (
        Keeps-IsArranged f x.readable (handle now r f.idx).0 (victim r f.idx)
          (handle-Keeps now f.idx r x.links short) (handle-Stays now f.idx r x.links))
    step-Does (sets_attr ino i now resizable e) =
        rw e (setattr-Does f x.readable ino i now resizable)
    step-Does (sets_xattr ino name d now e) = rw e (setxattr-IsSame f x.readable ino name d now)
    step-Does (removes_xattr ino name now e) = rw e (removexattr-IsSame f x.readable ino name now)
    step-Does (syncs C cached io disk disk' r w) = fsync-IsSame C cached io disk disk' r w
