-- ===== src/Index/Files/Resizing.antt =====
-- SetAttr, AppendExtent and writes inside an extent, on a whole index.
use Prim.Native.Nat.{max}
use fusey.Base.{
  ℕ, ◌+◌, ◌^◌, ◌<◌, ◌≤◌, Option, none, some, List, [], ◌∷◌, ◌++◌, ◌≡◌, refl, arith, ap, true, false,
  ◌&&◌, ◌==◌, nat_key, if◌then◌else◌, leb, ok,
}
use fusey.Base.Word.{add64, add64-eq, lt64-eq}
use fusey.Map.{lookup, lookup-insert, lookup-adjust}
use fusey.Index.Types.{Index, Inode, Extent, regular, touch}
use fusey.Index.Attrs.{Changes, set_attr, trim, trim_extents, change, resize}
use fusey.Index.Overwrite.{Place, pieces, grow, write_extent, append_extent}
use fusey.Index.Content.{
  All, All-append, Fits, covers, place, locate, locate-append, coverage, coverage-append,
}
use fusey.Index.Content.Trimming.{locate-trim, coverage-trim, trim-Fits}
use fusey.Index.Content.Clobber.{Inside, locate-clobber}
use fusey.Index.Files.Defs.{file_extents, file_place, file_size, size_or_zero, FilesAreSound}
use fusey.Index.Files.Writing.{extents-write_extent}

pub locate_uncovered :
    (es : List Extent) (p : ℕ) (found : Option Place)
    → coverage es p ≡ 0
    → locate found es p ≡ found
unfolding locate coverage
locate_uncovered [] p found h = refl
locate_uncovered (e ∷ es) p found h = ground (arith, locate_uncovered es p found)

module _ (ino : ℕ) (c : Changes) (size now : ℕ) (inode : Inode) (idx idx' : Index)
    (found : lookup ino idx.inodes ≡ some inode) (is_file : inode.file_type ≡ regular)
    (sized : c.size ≡ some size) (w : set_attr ino c now idx ≡ ok idx') where
  pub extents-set_attr :
      (j : ℕ)
      → file_extents j idx' ≡ (
          if ino == j && (if size == inode.size then false else true)
          then trim size (file_extents ino idx)
          else file_extents j idx)
  unfolding set_attr trim_extents
  extents-set_attr j =
      ground (arith, lookup-insert ino j (trim size (file_extents ino idx)) idx.extents)

  pub size-set_attr : (j : ℕ) → file_size j idx' ≡ (if ino == j then size else file_size j idx)
  unfolding set_attr
  size-set_attr j = ground (
    arith,
    lookup-adjust ino j (change c now) idx.inodes,
    lookup-adjust ino j (λ n. resize size now (change c now n)) idx.inodes,
  )

  module _ (sound : FilesAreSound idx) (h : size < 2 ^ 63) where
    -- A SetAttr that succeeds with a new size, below 2 ^ 63, of a regular file makes a hole of
    -- each byte of it from that size on, and leaves every other byte of every file where it was,
    -- if the index is sound.
    pub place-set_attr :
        (j p : ℕ)
        → file_place j idx' p ≡ (if ino == j && leb size p then none else file_place j idx p)
    place-set_attr j p = rw (extents-set_attr j) (
        ground (
          arith,
          locate-trim size h (file_extents ino idx) p none (sound.fits ino),
          locate_uncovered (file_extents ino idx) p none,
          sound.within ino p,
          ap size_or_zero found,
        ))

    -- Under the conditions of `place-set_attr`, SetAttr keeps the extents of every file disjoint,
    -- without overflow and within the size of the file.
    pub set_attr-FilesAreSound : FilesAreSound idx'
    set_attr-FilesAreSound = record {
      fits = λ j.
          rw (extents-set_attr j) (
            ground (arith, trim-Fits size h (file_extents ino idx) (sound.fits ino), sound.fits j));
      apart = λ j p. rw (extents-set_attr j) (
          ground (
            arith,
            coverage-trim size h (file_extents ino idx) p (sound.fits ino),
            sound.apart ino p,
            sound.apart j p,
          ));
      within = λ j p short. rw (extents-set_attr j) (
          ground (
            arith,
            coverage-trim size h (file_extents ino idx) p (sound.fits ino),
            size-set_attr j,
            sound.within j p,
            ap size_or_zero found,
          ));
      sized = λ j. ground (arith, size-set_attr j, sound.sized j);
    }

module _ (spare ino : ℕ) (ext : Extent) (now : ℕ) (idx idx' : Index) where
  -- A WriteExtent that succeeds, inside an extent that is not the last of its file and with bytes
  -- of it on both sides, loses what the extents behind that one hold: a byte that is neither in
  -- the extents before it, which the write leaves alone, nor in the cut extent, nor in the write,
  -- is a hole from then on.
  pub place-write_extent_lost :
      (pre rest : List Extent) (e : Extent) (p : ℕ)
      → file_extents ino idx ≡ pre ++ e ∷ rest
      → All (λ x. pieces ext x ≡ x ∷ []) pre
      → Fits ext
      → Fits e
      → Inside ext e
      → coverage pre p ≡ 0
      → covers e p ≡ false
      → covers ext p ≡ false
      → write_extent spare ino ext now idx ≡ ok idx'
      → file_place ino idx' p ≡ none
  place-write_extent_lost pre rest e p split apart h k inside nowhere out off w =
      rw (extents-write_extent spare ino ext now idx idx' w ino, split)
        (ground (
          arith,
          locate-clobber ext e h k inside spare pre rest apart p out off,
          locate_uncovered pre p none nowhere,
        ))

-- AppendExtent at or behind the end of the file is a write there.
module _ (ino : ℕ) (ext : Extent) (now : ℕ) (idx idx' : Index) where
  extents-append_extent :
      append_extent ino ext now idx ≡ ok idx'
      → (j : ℕ)
      → file_extents j idx'
        ≡ (if ino == j then file_extents ino idx ++ ext ∷ [] else file_extents j idx)
  unfolding append_extent
  extents-append_extent w j =
      ground (arith, lookup-insert ino j (file_extents ino idx ++ ext ∷ []) idx.extents)

  size-append_extent :
      file_size ino idx < 2 ^ 63
      → Fits ext
      → append_extent ino ext now idx ≡ ok idx'
      → (j : ℕ)
      → file_size j idx'
        ≡ (if ino == j then max (file_size j idx) (ext.file_offset + ext.len) else file_size j idx)
  unfolding append_extent
  size-append_extent k h w j = ground (
    arith,
    lookup-adjust ino j (λ n. touch now (grow (add64 ext.file_offset ext.len) n)) idx.inodes,
    add64-eq ext.file_offset ext.len,
    lt64-eq (file_size j idx) (ext.file_offset + ext.len),
  )

  module _ (sound : FilesAreSound idx) (h : Fits ext) (behind : file_size ino idx ≤ ext.file_offset)
      (w : append_extent ino ext now idx ≡ ok idx') where
    coverage-append_extent :
        (j p : ℕ)
        → coverage (file_extents j idx') p
          ≡ (if ino == j && covers ext p then 1 else coverage (file_extents j idx) p)
    unfolding coverage
    coverage-append_extent j p =
        rw (extents-append_extent w j)
          (ground (arith, coverage-append (file_extents ino idx) (ext ∷ []) p, sound.within ino p))

    -- After an AppendExtent that succeeds, at or behind the end of the file, the bytes that the
    -- extent covers are in its chunk, and every other byte of every file is where it was, if the
    -- index is sound and no sum of the extent overflows.
    pub place-append_extent :
        (j p : ℕ)
        → file_place j idx' p
          ≡ (if ino == j && covers ext p then some (place ext p) else file_place j idx p)
    unfolding locate
    place-append_extent j p =
        rw (extents-append_extent w j)
          (ground (arith, locate-append none (file_extents ino idx) (ext ∷ []) p))

    -- Under the conditions of `place-append_extent`, AppendExtent keeps the extents of every file
    -- disjoint, without overflow and within the size of the file.
    pub append_extent-FilesAreSound : FilesAreSound idx'
    append_extent-FilesAreSound = record {
      fits = λ j. rw (extents-append_extent w j) (
          ground (
            arith,
            All-append Fits (file_extents ino idx) (ext ∷ []) (sound.fits ino) (h, tt),
            sound.fits j,
          ));
      apart = λ j p. ground (arith, coverage-append_extent j p, sound.apart j p);
      within = λ j p short. ground (
        arith,
        coverage-append_extent j p,
        size-append_extent (sound.sized ino) h w j,
        sound.within j p,
      );
      sized = λ j. ground (arith, size-append_extent (sound.sized ino) h w j, sound.sized j);
    }
