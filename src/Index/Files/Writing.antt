-- ===== src/Index/Files/Writing.antt =====
-- WriteExtent on a whole index.
use Prim.Native.Nat.{max}
use fusey.Base.{ℕ, ◌+◌, ◌^◌, ◌<◌, some, ◌≡◌, arith, ◌&&◌, ◌==◌, nat_key, if◌then◌else◌, ok}
use fusey.Base.Word.{add64, add64-eq, lt64-eq}
use fusey.Map.{lookup-insert, lookup-adjust}
use fusey.Index.Types.{Index, Extent, touch}
use fusey.Index.Overwrite.{grow, write_list, write_extent}
use fusey.Index.Content.{Fits, covers, place, CutsInPlace, NoEarlyCut}
use fusey.Index.Content.Pieces.{cuts_in_place}
use fusey.Index.Content.Writing.{locate-write_list, coverage-write_list, write_list-Fits}
use fusey.Index.Files.Defs.{file_extents, file_place, file_size, FilesAreSound}

module _ (spare ino : ℕ) (ext : Extent) (now : ℕ) (idx idx' : Index) where
  -- A write that succeeds stored the list that the loop computes, and changed no other list.
  pub extents-write_extent :
      write_extent spare ino ext now idx ≡ ok idx'
      → (j : ℕ)
      → file_extents j idx'
        ≡ (if ino == j then write_list spare ext (file_extents ino idx) else file_extents j idx)
  unfolding write_extent
  extents-write_extent w j =
      ground (arith, lookup-insert ino j (write_list spare ext (file_extents ino idx)) idx.extents)

  -- A WriteExtent that succeeds makes the size of its file the maximum of the old one and the end
  -- of the extent, and keeps the size of every other, if the old size is below 2 ^ 63 and no sum
  -- of the extent overflows.
  pub size-write_extent :
      file_size ino idx < 2 ^ 63
      → Fits ext
      → write_extent spare ino ext now idx ≡ ok idx'
      → (j : ℕ)
      → file_size j idx'
        ≡ (if ino == j then max (file_size j idx) (ext.file_offset + ext.len) else file_size j idx)
  unfolding write_extent
  size-write_extent k h w j = ground (
    arith,
    lookup-adjust ino j (λ n. touch now (grow (add64 ext.file_offset ext.len) n)) idx.inodes,
    add64-eq ext.file_offset ext.len,
    lt64-eq (file_size j idx) (ext.file_offset + ext.len),
  )

  module _ (sound : FilesAreSound idx) (h : Fits ext)
      (apart : NoEarlyCut ext.file_offset ext.len (file_extents ino idx))
      (w : write_extent spare ino ext now idx ≡ ok idx') where
    in_place : CutsInPlace ext (file_extents ino idx)
    in_place = cuts_in_place ext (file_extents ino idx) h (sound.fits ino) apart

    -- After a WriteExtent that succeeds, the bytes that the extent covers are in its chunk, and
    -- every other byte of every file is where it was: if the index is sound, no sum of the extent
    -- overflows, and no extent of the file but the last reaches out of it on both sides.
    pub place-write_extent :
        (j p : ℕ)
        → file_place j idx' p
          ≡ (if ino == j && covers ext p then some (place ext p) else file_place j idx p)
    place-write_extent j p = rw (extents-write_extent w j) (
        ground
          (arith, locate-write_list ext h spare (file_extents ino idx) (sound.fits ino) in_place p))

    -- Under the conditions of `place-write_extent`, a WriteExtent that succeeds keeps the extents
    -- of every file disjoint, without overflow and within the size of the file.
    pub write_extent-FilesAreSound : FilesAreSound idx'
    write_extent-FilesAreSound = record {
      fits = λ j. rw (extents-write_extent w j) (
          ground (
            arith,
            write_list-Fits ext h spare (file_extents ino idx) (sound.fits ino) in_place,
            sound.fits j,
          ));
      apart = λ j p. rw (extents-write_extent w j) (
          ground (
            arith,
            coverage-write_list ext h spare (file_extents ino idx) (sound.fits ino) in_place p,
            sound.apart ino p,
            sound.apart j p,
          ));
      within = λ j p short. rw (extents-write_extent w j) (
          ground (
            arith,
            coverage-write_list ext h spare (file_extents ino idx) (sound.fits ino) in_place p,
            size-write_extent (sound.sized ino) h w j,
            sound.within j p,
          ));
      sized = λ j. ground (arith, size-write_extent (sound.sized ino) h w j, sound.sized j);
    }
