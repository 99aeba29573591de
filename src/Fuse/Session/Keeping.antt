-- ===== src/Fuse/Session/Keeping.antt =====
-- What every request keeps, and with it every run.
use mathlib.Core.Path.{subst}
use fusey.Base.{
  ℕ, Bytes, Option, ◌≡◌, arith, ap, sym, ◌∙◌, inl, inr, false, ok, Result-cases, Option-cases,
  nat_key, bytes_key,
}
use fusey.Map.{lookup}
use fusey.Index.Types.{Index}
use fusey.Index.Attrs.{set_attr, set_xattr, remove_xattr}
use fusey.Index.Content.{All}
use fusey.Index.Files.{file_extents, FilesAreSound}
use fusey.Index.Files.Keeping.{
  Keeps, same-Keeps, Keeps-FilesAreSound, set_xattr-SameFiles, remove_xattr-SameFiles,
  set_attr-SameFiles,
}
use fusey.Index.Files.Resizing.{extents-set_attr, set_attr-FilesAreSound}
use fusey.Index.Links.{LinksAreExact, type_of}
use fusey.Index.Links.Unchanged.{
  set_attr-LinksAreExact, set_xattr-LinksAreExact, remove_xattr-LinksAreExact,
}
use fusey.Chunks.Store.{Store}
use fusey.Chunks.Backing.{IsBacked, trim-IsBacked}
use fusey.Fuse.Files.{Fusey}
use fusey.Fuse.ReadBack.{IsReadable}
use fusey.Fuse.Nodes.{
  SetAttrIn, to_changes, setattr, setxattr, removexattr, Request, handle, onto_itself,
}
use fusey.Fuse.Nodes.Keeping.{handle-LinksAreExact}
use fusey.Fuse.Nodes.Holding.{IsShort, handle-Keeps}
use fusey.Fuse.Session.Defs.{HasRoom, IsResizable}

module _ (S : Store) (object : Bytes → S.State → Option Bytes) where
  -- Every byte of every file can be read, and the link counts are exact.
  pub record IsHealthy (f : Fusey S) : Type 0 where
    pub readable : IsReadable S object f
    pub links : LinksAreExact f.idx

  module _ (f : Fusey S) (idx : Index) (x : IsReadable S object f) where
    -- A new index over the same chunks.
    pub index-IsReadable :
        FilesAreSound idx
        → ((j : ℕ) → All (IsBacked S object f.cs) (file_extents j idx))
        → IsReadable S object (record f { idx = idx })
    index-IsReadable files backed = record {
      sound = record { files = files; fresh = x.sound.fresh; within = x.sound.within };
      coherent = x.coherent;
      measured = x.measured;
      backed = backed;
    }

    pub Keeps-IsReadable : Keeps f.idx idx → IsReadable S object (record f { idx = idx })
    Keeps-IsReadable k = index-IsReadable (Keeps-FilesAreSound f.idx idx k x.sound.files) (λ j.
        elim (k.extents j) [
          | inl emptied ↦ subst (All (IsBacked S object f.cs)) (sym emptied) tt
          | inr (same, grows) ↦ subst (All (IsBacked S object f.cs)) (sym same) (x.backed j)
        ])

  module _ (f : Fusey S) (x : IsHealthy f) where
    abbrev with_index : Index → Fusey S
    with_index idx = record f { idx = idx }

    pub handle-IsHealthy :
        (now : ℕ) (r : Request)
        → HasRoom f.idx
        → onto_itself r ≡ false
        → IsShort r
        → IsHealthy (with_index (handle now r f.idx).0)
    handle-IsHealthy now r room other short = record {
      readable =
          Keeps-IsReadable f (handle now r f.idx).0 x.readable
            (handle-Keeps now f.idx r x.links short);
      links = handle-LinksAreExact now f.idx x.links r room.next room.few other;
    }

    set_attr-IsHealthy :
        (ino : ℕ) (i : SetAttrIn) (now : ℕ) (idx : Index)
        → IsResizable ino i f.idx
        → set_attr ino (to_changes i) now f.idx ≡ ok idx
        → IsHealthy (with_index idx)
    unfolding to_changes
    set_attr-IsHealthy ino i now idx resizable w = record {
      readable = elim (Option-cases i.size) [
        | inl unsized ↦
            Keeps-IsReadable f idx x.readable
              (same-Keeps f.idx idx (set_attr-SameFiles ino now f.idx (to_changes i) idx unsized w))
        | inr (size, sized) ↦ elim (Option-cases (lookup ino f.idx.inodes)) [
          | inl missing ↦ absurd (ground (arith, ap type_of missing, resizable size sized))
          | inr (n, found) ↦
              let (fits, is_file) = resizable size sized in
              let is_regular = ap type_of (sym found) ∙ is_file in
              index-IsReadable f idx x.readable
                (set_attr-FilesAreSound ino (to_changes i) size now n f.idx idx found is_regular
                  sized w x.readable.sound.files fits)
                (λ j.
                  subst (All (IsBacked S object f.cs))
                    (sym (
                      extents-set_attr ino (to_changes i) size now n f.idx idx found is_regular
                        sized w j))
                    (ground (
                      arith,
                      x.readable.backed j,
                      trim-IsBacked S object f.cs size (file_extents ino f.idx) fits
                          (x.readable.sound.files.fits ino) (x.readable.backed ino),
                    )))
        ]
      ];
      links = set_attr-LinksAreExact ino now f.idx idx (to_changes i) w x.links;
    }

    pub setattr-IsHealthy :
        (ino : ℕ) (i : SetAttrIn) (now : ℕ)
        → IsResizable ino i f.idx
        → IsHealthy (with_index (setattr ino i now f.idx).0)
    unfolding setattr
    setattr-IsHealthy ino i now resizable =
        elim (Result-cases (set_attr ino (to_changes i) now f.idx)) [
          | inl (idx, w) ↦ rw (setattr, w) (set_attr-IsHealthy ino i now idx resizable w)
          | inr (inl (failure, w)) ↦ rw (setattr, w) x
          | inr (inr w) ↦ rw (setattr, w) x
        ]

    pub setxattr-IsHealthy :
        (ino : ℕ) (name d : Bytes) (now : ℕ)
        → IsHealthy (with_index (setxattr ino name d now f.idx).0)
    unfolding setxattr
    setxattr-IsHealthy ino name d now = elim (Result-cases (set_xattr ino name d now f.idx)) [
      | inl (idx, w) ↦
          rw (setxattr, w)
            (record {
              readable =
                  Keeps-IsReadable f idx x.readable
                    (same-Keeps f.idx idx (set_xattr-SameFiles ino now f.idx name d idx w));
              links = set_xattr-LinksAreExact ino now f.idx x.links name d idx w;
            })
      | inr (inl (failure, w)) ↦ rw (setxattr, w) x
      | inr (inr w) ↦ rw (setxattr, w) x
    ]

    pub removexattr-IsHealthy :
        (ino : ℕ) (name : Bytes) (now : ℕ)
        → IsHealthy (with_index (removexattr ino name now f.idx).0)
    unfolding removexattr
    removexattr-IsHealthy ino name now = elim (Result-cases (remove_xattr ino name now f.idx)) [
      | inl (idx, w) ↦
          rw (removexattr, w)
            (record {
              readable =
                  Keeps-IsReadable f idx x.readable
                    (same-Keeps f.idx idx (remove_xattr-SameFiles ino now f.idx name idx w));
              links = remove_xattr-LinksAreExact ino now f.idx x.links name idx w;
            })
      | inr (inl (failure, w)) ↦ rw (removexattr, w) x
      | inr (inr w) ↦ rw (removexattr, w) x
    ]
