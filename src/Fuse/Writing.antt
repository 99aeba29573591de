-- ===== src/Fuse/Writing.antt =====
-- What a write through a file handle does to the bytes of every file.
use fusey.Base.{
  ℕ, ◌+◌, ◌-◌, ◌^◌, ◌%◌, map, tabulate, tabulate-some, List, ◌<◌, ◌≤◌, Bytes, Option, none, some,
  ◌≡◌, ◌≢◌, arith, ap, ◌==◌, nat_key, bytes_key, if◌then◌else◌, ◌&&◌, length, ok, get_elem?, ◌⊎◌,
  inl, inr, Option-cases,
}
use fusey.Index.Types.{Extent}
use fusey.Index.Tree
use fusey.Index.Tree.{get_inode}
use fusey.Index.Files.Starting.{new-FilesAreSound}
use fusey.Chunks.Ids.{chunk_id}
use fusey.Chunks.Starting.{new-IsFresh, new-WithinLimit}
use fusey.Index.Overwrite.{write_extent, Place}
use fusey.Index.Content.{Fits, covers, place, NoEarlyCut}
use fusey.Index.Files.{file_extents, file_place, FilesAreSound}
use fusey.Index.Files.Writing.{place-write_extent, write_extent-FilesAreSound}
use fusey.Chunks.Store.{Store, IsLawful}
use fusey.Chunks.ChunkStore
use fusey.Chunks.ChunkStore.{ChunkStore}
use fusey.Chunks.AppendOnly.{
  chunk_byte, IsFresh, WithinLimit, append-IsFresh, append-WithinLimit, chunk_byte-append,
  stored-append, extent-append, bounds-append,
}
use fusey.Fuse.Replies.{Errno, done, fail}
use fusey.Fuse.Files.{Fusey, write, record_write}

module _ (S : Store) (object : Bytes → S.State → Option Bytes) where
  -- The byte `p` of a file; none in a hole, and where its chunk has no such byte.
  abbrev pub stored_byte : Option Place → ChunkStore S → Option ℕ
  stored_byte none cs = none
  stored_byte (some (id, i)) cs = chunk_byte S object id i cs

  abbrev pub file_byte : ℕ → ℕ → Fusey S → Option ℕ
  file_byte ino p f = stored_byte (file_place ino f.idx p) f.cs

  pub record IsSound (f : Fusey S) : Type 0 where
    pub files : FilesAreSound f.idx
    pub fresh : IsFresh S object f.cs
    pub within : WithinLimit S object f.cs

  -- The bytes of a file in a range.
  abbrev pub file_range : ℕ → ℕ → ℕ → Fusey S → List (Option ℕ)
  file_range ino off len f = tabulate (λ p. file_byte ino p f) off len

  module _ (law : IsLawful S object) (spare ino : ℕ) (d : Bytes) (off now : ℕ) (f f' : Fusey S)
      (sound : IsSound f) where
    pub written :
        (n : ℕ)
        → write S spare ino d off now f ≡ (f', done n)
        → (ext : Extent) × ((ChunkStore.append S d off f.cs).1 ≡ ok ext)
          × (write_extent spare ino ext now f.idx ≡ ok f'.idx)
          × (f'.cs ≡ (ChunkStore.append S d off f.cs).0)
          × (n ≡ length d % 2 ^ 32)
    unfolding write record_write
    written n w = ground arith

    pub stored_byte-append :
        (at : Option Place) (b : ℕ)
        → stored_byte at f.cs ≡ some b
        → stored_byte at (ChunkStore.append S d off f.cs).0 ≡ some b
    stored_byte-append none b h = h
    stored_byte-append (some (id, i)) b h =
        chunk_byte-append S object law d off f.cs sound.fresh id i b h

    -- A failed write leaves the index, and the chunk store as it was or as Append left it.
    failed :
        (e : Errno)
        → write S spare ino d off now f ≡ (f', fail e)
        → (f'.idx ≡ f.idx) × ((f'.cs ≡ f.cs) ⊎ (f'.cs ≡ (ChunkStore.append S d off f.cs).0))
    unfolding write record_write
    failed e w = ground arith

    place_back :
        (ext : Extent) (i : ℕ)
        → ext.file_offset ≡ off
        → ext.chunk_offset + (off + i - ext.file_offset) ≡ ext.chunk_offset + i
    place_back ext i at = omega arith

    module _ (n : ℕ) (size : length d < 2 ^ 62) (end : off + length d < 2 ^ 63)
        (apart : NoEarlyCut off (length d) (file_extents ino f.idx))
        (w : write S spare ino d off now f ≡ (f', done n)) where
      pub Fits-written : (ext : Extent) → (ChunkStore.append S d off f.cs).1 ≡ ok ext → Fits ext
      Fits-written ext stored =
          let (at, len) = extent-append S object law d off f.cs sound.fresh ext stored in
          (
            omega arith,
            omega (
              arith,
              bounds-append S object law d off f.cs sound.fresh ext sound.within size stored,
              sound.within.1,
            ),
          )

      located :
          (ext : Extent) × ((ChunkStore.append S d off f.cs).1 ≡ ok ext)
          × (f'.cs ≡ (ChunkStore.append S d off f.cs).0)
          × (ext.file_offset ≡ off)
          × (ext.len ≡ length d)
          × ((j p : ℕ)
              → file_place j f'.idx p
                ≡ (if ino == j && covers ext p then some (place ext p) else file_place j f.idx p))
      located =
          let (ext, stored, recorded, chunks, count) = written n w in
          let (at, len) = extent-append S object law d off f.cs sound.fresh ext stored in
          (
            ext,
            stored,
            chunks,
            at,
            len,
            place-write_extent spare ino ext now f.idx f'.idx sound.files (Fits-written ext stored)
                (rw (at, len) apart) recorded,
          )

      -- A write of `d` at `off` through a file handle that is done answers the length of `d`, and
      -- each byte of `d` is from then on the byte of the file at `off` and its index: if the
      -- store is lawful, the state before is sound, `d` is shorter than 2 ^ 62, the range ends
      -- below 2 ^ 63, and no extent of the file but the last reaches out of the range on both
      -- sides.
      pub write_done :
          (i : ℕ)
          → i < length d
          → (n ≡ length d % 2 ^ 32) × (file_byte ino (off + i) f' ≡ get_elem? d i)
      write_done i h =
          let (ext, stored, chunks, at, len, where_) = located in
          (
            ground (arith, written n w),
            rw (where_ ino (off + i), chunks)
                (ground (
                  arith,
                  stored-append S object law d off f.cs sound.fresh ext i stored,
                  ap
                      (λ (k : ℕ).
                        chunk_byte S object ext.chunk_id k (ChunkStore.append S d off f.cs).0)
                      (place_back ext i at),
                )),
          )

      -- A write of `d` at `off` through a file handle that is done answers the length of `d` as a
      -- uint32, and the bytes of the file from `off` on are from then on those of `d`: if the
      -- store is lawful, the state before is sound, `d` is shorter than 2 ^ 62, the range ends
      -- below 2 ^ 63, and no extent of the file but the last reaches out of the range on both
      -- sides.
      pub write-file_range :
          (n ≡ length d % 2 ^ 32) × (file_range ino off (length d) f' ≡ map some d)
      write-file_range = (
        ground (arith, written n w),
        tabulate-some (λ p. file_byte ino p f') off d (λ i h. (write_done i h).1),
      )

      -- Under the conditions of `write_done`, a write that is done keeps every byte that could be
      -- read and lies in another file or outside of the range.
      pub write-keeps_byte :
          (j p b : ℕ)
          → (j ≢ ino) ⊎ ((p < off) ⊎ (off + length d ≤ p))
          → file_byte j p f ≡ some b
          → file_byte j p f' ≡ some b
      write-keeps_byte j p b out h =
          let (ext, stored, chunks, at, len, where_) = located in
          rw (where_ j p, chunks) (ground (arith, stored_byte-append (file_place j f.idx p) b h))

      -- Under the conditions of `write_done`, a write that is done keeps every hole that lies in
      -- another file or outside of the range.
      pub write-keeps_hole :
          (j p : ℕ)
          → (j ≢ ino) ⊎ ((p < off) ⊎ (off + length d ≤ p))
          → file_place j f.idx p ≡ none
          → file_place j f'.idx p ≡ none
      write-keeps_hole j p out h =
          let (ext, stored, chunks, at, len, where_) = located in ground (arith, where_ j p)

      -- Under the conditions of `write_done`, the state behind a write that is done is sound: the
      -- extents of each file are disjoint and end at its size, unused chunk IDs have no object,
      -- and the active chunk keeps to its limit.
      pub write-IsSound : IsSound f'
      write-IsSound =
          let (ext, stored, recorded, chunks, count) = written n w in
          let (at, len) = extent-append S object law d off f.cs sound.fresh ext stored in
          record {
            files =
                write_extent-FilesAreSound spare ino ext now f.idx f'.idx sound.files
                  (Fits-written ext stored) (rw (at, len) apart) recorded;
            fresh = rw chunks (append-IsFresh S object law d off f.cs sound.fresh);
            within =
                rw chunks
                  (append-WithinLimit S object law d off f.cs sound.fresh sound.within size);
          }

    -- A write that fails, at any of its points, leaves the index as it was, and every byte of
    -- every file, unless it could not be read before: if the store is lawful and the state before
    -- is sound.
    pub write_fail :
        (e : Errno) (j p : ℕ)
        → write S spare ino d off now f ≡ (f', fail e)
        → (f'.idx ≡ f.idx) × ((file_byte j p f ≡ none) ⊎ (file_byte j p f' ≡ file_byte j p f))
    write_fail e j p w =
        let kept = failed e w in
        (
          kept.0,
          elim (Option-cases (file_byte j p f)) [
            | inl unread ↦ inl unread
            | inr (b, h) ↦
                inr (
                  rw kept.0
                    (ground (arith, kept.1, h, stored_byte-append (file_place j f.idx p) b)))
          ],
        )

    -- The state behind a write that fails is sound, if the store is lawful, the state before is
    -- sound and the data is shorter than 2 ^ 62.
    pub write_fail-IsSound :
        (e : Errno) → length d < 2 ^ 62 → write S spare ino d off now f ≡ (f', fail e) → IsSound f'
    write_fail-IsSound e size w =
        let kept = failed e w in
        record {
          files = rw kept.0 sound.files;
          fresh =
              ground
                (arith, kept.1, sound.fresh, append-IsFresh S object law d off f.cs sound.fresh);
          within = ground (
            arith,
            kept.1,
            sound.within,
            append-WithinLimit S object law d off f.cs sound.fresh sound.within size,
          );
        }

  -- A file system with a new index and a new chunk store is sound, if no object of the store has
  -- a chunk ID and the limit of chunks is below 2 ^ 62.
  pub new-IsSound :
      (block_size now limit max_fs_size : ℕ) (s : S.State)
      → ((n : ℕ) → object (chunk_id n) s ≡ none)
      → limit < 2 ^ 62
      → IsSound (record {
        idx = Tree.new block_size now;
        cs = ChunkStore.new S s limit;
        max_fs_size = max_fs_size;
      })
  new-IsSound block_size now limit max_fs_size s unused h = record {
    files = new-FilesAreSound block_size now;
    fresh = new-IsFresh S object s limit unused;
    within = new-WithinLimit S object s limit h;
  }
