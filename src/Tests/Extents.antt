-- ===== src/Tests/Extents.antt =====
-- Writes and truncations of an extent list.
use fusey.Base.{none, some, [], ◌∷◌, ◌≡◌, refl, arith, nat_key}
use fusey.Index.Types.{Index, Inode, Extent, regular}
use fusey.Index.Attrs.{Changes, set_attr}
use fusey.Index.Overwrite.{write_extent, append_extent}
use fusey.Index.Files.{file_place, FilesAreSound}
use fusey.Index.Files.Writing.{place-write_extent, write_extent-FilesAreSound}
use fusey.Index.Files.Resizing.{place-set_attr, place-write_extent_lost}
use fusey.Chunks.Ids.{chunk_id}
use fusey.Tests.Samples.{program, index_of, with_file, with_file-FilesAreSound}

abbrev first : Extent
first = record { chunk_id = chunk_id 0; chunk_offset = 0; len = 10; file_offset = 0 }

abbrev second : Extent
second = record { chunk_id = chunk_id 0; chunk_offset = 10; len = 2; file_offset = 10 }

abbrev inside : Extent
inside = record { chunk_id = chunk_id 0; chunk_offset = 12; len = 2; file_offset = 4 }

abbrev one : Index
one = index_of (write_extent 0 2 first 5 with_file)

abbrev two : Index
two = index_of (append_extent 2 second 6 one)

abbrev cut : Index
cut = index_of (write_extent 0 2 inside 7 one)

-- The same write, with an extent behind the one that it cuts.
abbrev broken : Index
broken = index_of (write_extent 0 2 inside 7 two)

abbrev shorten : Changes
shorten = record { mode = none; uid = none; gid = none; size = some 3; atime = none; mtime = none }

abbrev short : Index
short = index_of (set_attr 2 shorten 8 one)

abbrev the_file : Inode
the_file = record {
  ino = 2;
  file_type = regular;
  mode = 0o644;
  nlink = 0;
  uid = 7;
  gid = 7;
  size = 10;
  atime = 1;
  mtime = 5;
  ctime = 5;
  blksize = 4096;
  blocks = 1;
  rdev = 0;
}

one-FilesAreSound : FilesAreSound one
unfolding program
one-FilesAreSound =
    write_extent-FilesAreSound 0 2 first 5 with_file one with_file-FilesAreSound
      (omega arith, omega arith) tt refl

-- The byte 6 lies behind the write, in the second half of the extent that it cuts.
place-write_extent_example : file_place 2 cut 6 ≡ some (chunk_id 0, 6)
unfolding program
place-write_extent_example =
    place-write_extent 0 2 inside 7 one cut one-FilesAreSound (omega arith, omega arith) tt refl 2 6

-- The byte 11 is the second extent's, which the write does not touch.
kept_before : file_place 2 two 11 ≡ some (chunk_id 0, 11)
unfolding program
kept_before = refl

place-write_extent_lost_example : file_place 2 broken 11 ≡ none
unfolding program
place-write_extent_lost_example =
    place-write_extent_lost 0 2 inside 7 two broken [] (second ∷ []) first 11 refl tt
      (omega arith, omega arith) (omega arith, omega arith) (omega arith, omega arith) refl refl
      refl refl

place-set_attr_example : file_place 2 short 3 ≡ none
unfolding program
place-set_attr_example =
    place-set_attr 2 shorten 3 8 the_file one short refl refl refl refl one-FilesAreSound
      (omega arith) 2 3

-- The end of the first extent and the start of the second.
abbrev across : Extent
across = record { chunk_id = chunk_id 1; chunk_offset = 0; len = 3; file_offset = 8 }
