-- ===== src/Tests/Writes.antt =====
-- Writes through a file handle and appends to the chunk store.
use fusey.Base.{
  ◌+◌, ◌%◌, ◌^◌, ◌⊎◌, map, none, ◌≤◌, Bytes, some, [], ◌∷◌, ◌≡◌, refl, arith, inl, inr, length,
}
use fusey.Index.Types.{Extent, regular}
use fusey.Chunks.Ids.{chunk_id}
use fusey.Chunks.ChunkStore.{ChunkStore, append}
use fusey.Chunks.AppendOnly.{
  IsFresh, WithinLimit, append-IsFresh, append-WithinLimit, bounds-append,
}
use fusey.Fuse.Replies.{done, eio}
use fusey.Fuse.Files.{Fusey, write}
use fusey.Fuse.Writing.{IsSound, file_byte, file_range, write-file_range, write-IsSound, write_fail}
use fusey.Fuse.Completing.{write-completes}
use fusey.Tests.Shelf.{
  shelf, on_shelf, shelf-IsLawful, empty_chunks, empty_chunks-IsFresh, empty_chunks-WithinLimit,
  hello,
}
use fusey.Tests.Samples.{program, mounted, mounted-IsSound}

-- "yak!"
abbrev yak : Bytes
yak = b'y' ∷ b'a' ∷ b'k' ∷ b'!' ∷ []

abbrev used_chunks : ChunkStore shelf
used_chunks = (append shelf hello 0 empty_chunks).0

used_chunks-IsFresh : IsFresh shelf on_shelf used_chunks
used_chunks-IsFresh =
    append-IsFresh shelf on_shelf shelf-IsLawful hello 0 empty_chunks empty_chunks-IsFresh

used_chunks-WithinLimit : WithinLimit shelf on_shelf used_chunks
used_chunks-WithinLimit =
    append-WithinLimit shelf on_shelf shelf-IsLawful hello 0 empty_chunks empty_chunks-IsFresh
      empty_chunks-WithinLimit (omega arith)

-- The active chunk is sealed, and the data starts a new one.
abbrev fresh_extent : Extent
fresh_extent = record { chunk_id = chunk_id 1; chunk_offset = 0; len = 4; file_offset = 2 }

bounds-append_example : 0 + 4 ≤ 8
unfolding program
bounds-append_example =
    bounds-append shelf on_shelf shelf-IsLawful yak 2 used_chunks used_chunks-IsFresh fresh_extent
      used_chunks-WithinLimit (omega arith) refl

-- The file of one extent, "hello", is overwritten from its third byte on.
abbrev written : Fusey shelf
written = (write shelf 0 2 hello 0 5 mounted).0

abbrev overwritten : Fusey shelf
overwritten = (write shelf 0 2 yak 2 6 written).0

written-IsSound : IsSound shelf on_shelf written
unfolding program
written-IsSound =
    write-IsSound shelf on_shelf shelf-IsLawful 0 2 hello 0 5 mounted written mounted-IsSound 5
      (omega arith) (omega arith) tt refl

write-file_range_example :
    (4 ≡ length yak % 2 ^ 32)
    × (file_range shelf on_shelf 2 2 (length yak) overwritten ≡ map some yak)
unfolding program
write-file_range_example =
    write-file_range shelf on_shelf shelf-IsLawful 0 2 yak 2 6 written overwritten written-IsSound 4
      (omega arith) (omega arith) tt refl

-- Nine bytes do not fit in a chunk.
abbrev too_long : Bytes
too_long = 1 ∷ 2 ∷ 3 ∷ 4 ∷ 5 ∷ 6 ∷ 7 ∷ 8 ∷ 9 ∷ []

write_fail_example :
    (written.idx ≡ written.idx)
    × ((file_byte shelf on_shelf 2 0 written ≡ none)
        ⊎ (file_byte shelf on_shelf 2 0 written ≡ file_byte shelf on_shelf 2 0 written))
unfolding program
write_fail_example =
    write_fail shelf on_shelf shelf-IsLawful 0 2 too_long 0 6 written written written-IsSound eio 2
      0 refl

write-completes_example : (write shelf 0 2 hello 0 5 mounted).1 ≡ done 5
unfolding program
write-completes_example =
    write-completes shelf on_shelf 0 2 hello 0 5 mounted
      (record {
        ino = 2;
        file_type = regular;
        mode = 0o644;
        nlink = 0;
        uid = 7;
        gid = 7;
        size = 0;
        atime = 1;
        mtime = 1;
        ctime = 1;
        blksize = 4096;
        blocks = 0;
        rdev = 0;
      })
      refl refl (omega arith) (omega arith) (omega arith) (omega arith) (inr (omega arith))
      empty_chunks-WithinLimit (omega arith) (inl (omega arith))
