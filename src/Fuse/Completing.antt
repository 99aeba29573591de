-- ===== src/Fuse/Completing.antt =====
-- When a write through a file handle succeeds.
use fusey.Base.{
  ℕ, ◌+◌, ◌-◌, ◌%◌, ◌^◌, ◌<◌, ◌≤◌, Bytes, Option, some, false, ◌⊎◌, length, ◌≡◌, true, arith,
}
use fusey.Index.Types.{Inode, regular}
use fusey.Index.Tree.{get_inode}
use fusey.Index.Overwrite.{write_extent}
use fusey.Chunks.Store.{Store}
use fusey.Chunks.AppendOnly.{WithinLimit}
use fusey.Chunks.Completing.{append-completes}
use fusey.Fuse.Replies.{done}
use fusey.Fuse.Files.{Fusey, no_space, write, record_write}
use fusey.Base.Word.{add64, add64-eq, sub64-eq, lt64-eq}
use fusey.Index.Attrs.{used_bytes}

module _ (S : Store) (object : Bytes → S.State → Option Bytes) where
  -- Room within the capacity, in exact arithmetic.
  enough :
      (f : Fusey S) (inode : Inode) (off len : ℕ)
      → inode.size < 2 ^ 63
      → off + len < 2 ^ 63
      → f.max_fs_size < 2 ^ 63
      → used_bytes f.idx + (off + len) < 2 ^ 63
      → (off + len ≤ inode.size) ⊎ (used_bytes f.idx + (off + len - inode.size) ≤ f.max_fs_size)
      → no_space S (add64 off len) inode f ≡ false
  unfolding no_space
  enough f inode off len sized end small used space = ground (
    arith,
    add64-eq off len,
    lt64-eq inode.size (off + len),
    sub64-eq (off + len) inode.size,
    add64-eq (used_bytes f.idx) (off + len - inode.size),
    lt64-eq f.max_fs_size (used_bytes f.idx + (off + len - inode.size)),
  )

  -- A write to a regular file is done and answers the length of the data as a uint32: if it ends
  -- within the file, or the bytes it adds behind the end fit in the capacity with those that are
  -- used, the active chunk keeps to its limit, the data fits in a chunk, the active chunk has
  -- room for it or the store takes the active chunk, and the sums are below 2 ^ 63.
  pub write-completes :
      (spare ino : ℕ) (d : Bytes) (off now : ℕ) (f : Fusey S) (inode : Inode)
      → get_inode ino f.idx ≡ some inode
      → inode.file_type ≡ regular
      → inode.size < 2 ^ 63
      → off + length d < 2 ^ 63
      → f.max_fs_size < 2 ^ 63
      → used_bytes f.idx + (off + length d) < 2 ^ 63
      → (off + length d ≤ inode.size)
        ⊎ (used_bytes f.idx + (off + length d - inode.size) ≤ f.max_fs_size)
      → WithinLimit S object f.cs
      → length d ≤ f.cs.max_chunk_size
      → (length f.cs.active_buf + length d ≤ f.cs.max_chunk_size)
        ⊎ ((S.put f.cs.active_id f.cs.active_buf f.cs.store).1 ≡ true)
      → (write S spare ino d off now f).1 ≡ done (length d % 2 ^ 32)
  unfolding write record_write write_extent get_inode
  write-completes spare ino d off now f inode found is_file sized end small used space within fits
        room =
      let (ext, stored) = append-completes S object d off f.cs within fits room in
      let has_space = enough f inode off (length d) sized end small used space in ground arith
