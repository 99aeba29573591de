-- ===== src/Fuse/Files/Defs.antt =====
-- The filesystem object, and Write and Read of a file handle.
use fusey.Base.{
  ℕ, zero, suc, Bytes, Bool, none, some, List, [], ◌∷◌, nat_key, bytes_key, if◌then◌else◌, ◌&&◌,
  ◌||◌, ◌%◌, ◌^◌, length, Result, ok, err, panic, replicate,
}
use fusey.Base.Word.{add64, sub64, lt64, le64}
use fusey.Index.Types.{Index, Inode, Extent}
use fusey.Index.Tree.{get_inode}
use fusey.Index.Attrs.{used_bytes, touch_atime}
use fusey.Index.Overwrite.{write_extent, get_extents}
use fusey.Chunks.Store.{Store}
use fusey.Fuse.Replies.{Reply, enoent, enospc, eio, done, fail, crash}
use fusey.Chunks.ChunkStore
use fusey.Chunks.ChunkStore.{ChunkStore}

-- copy(buf[at:], data)
unfoldable pub copy_at : ℕ → Bytes → Bytes → Bytes
copy_at at [] buf = buf
copy_at at (b ∷ d) [] = []
copy_at zero (b ∷ d) (x ∷ buf) = b ∷ copy_at zero d buf
copy_at (suc at) (b ∷ d) (x ∷ buf) = x ∷ copy_at at (b ∷ d) buf

unfoldable pub max64 : ℕ → ℕ → ℕ
max64 a b = if lt64 b a then a else b

unfoldable pub min64 : ℕ → ℕ → ℕ
min64 a b = if lt64 a b then a else b

module _ (S : Store) where
  pub record Fusey : Type 0 where
    pub idx : Index
    pub cs : ChunkStore S
    pub max_fs_size : ℕ

  -- Whether a write up to `new_end` would pass the capacity: only bytes behind the end count.
  unfoldable pub no_space : ℕ → Inode → Fusey → Bool
  no_space new_end inode f =
      lt64 inode.size new_end
      && lt64 f.max_fs_size (add64 (used_bytes f.idx) (sub64 new_end inode.size))

  -- The end of Write, after Append. The answer is a uint32.
  unfoldable pub record_write :
      ℕ → ℕ → ℕ → ℕ → Fusey → ChunkStore S × Result Extent → Fusey × Reply ℕ
  record_write spare ino len now f (cs, err _) = (record f { cs = cs }, fail eio)
  record_write spare ino len now f (cs, panic) = (record f { cs = cs }, crash)
  record_write spare ino len now f (cs, ok ext) = elim (write_extent spare ino ext now f.idx) [
    | ok idx ↦ (record f { cs = cs; idx = idx }, done (len % 2 ^ 32))
    | err _ ↦ (record f { cs = cs }, fail eio)
    | panic ↦ (record f { cs = cs }, crash)
  ]

  -- Write. `spare` is the spare capacity of the file's extent slice.
  unfoldable pub write : ℕ → ℕ → Bytes → ℕ → ℕ → Fusey → Fusey × Reply ℕ
  write spare ino d off now f = elim (get_inode ino f.idx) [
    | none ↦ (f, fail enoent)
    | some inode ↦
        if no_space (add64 off (length d)) inode f
        then (f, fail enospc)
        else record_write spare ino (length d) now f (ChunkStore.append S d off f.cs)
  ]

  -- The loop of Read over the extents, for the range [off, end) of the file.
  unfoldable pub read_extents :
      List Extent → ℕ → ℕ → Bytes → ChunkStore S → ChunkStore S × Reply Bytes
  read_extents [] off end buf cs = (cs, done buf)
  read_extents (e ∷ es) off end buf cs =
      let e_end = add64 e.file_offset e.len in
      let start = max64 off e.file_offset in
      let stop = min64 end e_end in
      let chunk_offset = add64 e.chunk_offset (sub64 start e.file_offset) in
      let skipped = read_extents es off end buf cs in
      if le64 e_end off || le64 end e.file_offset
      then skipped
      else let (cs', r) = ChunkStore.read S e.chunk_id chunk_offset (sub64 stop start) cs in
        elim r [
          | ok d ↦ read_extents es off end (copy_at (sub64 start off) d buf) cs'
          | err _ ↦ (cs', fail eio)
          | panic ↦ (cs', crash)
        ]

  finish_read : ℕ → ℕ → Fusey → ChunkStore S × Reply Bytes → Fusey × Reply Bytes
  finish_read ino now f (cs, done d) =
      (record f { cs = cs; idx = touch_atime ino now f.idx }, done d)
  finish_read ino now f (cs, fail e) = (record f { cs = cs }, fail e)
  finish_read ino now f (cs, crash) = (record f { cs = cs }, crash)

  -- Read into a buffer of `want` bytes.
  unfoldable pub read : ℕ → ℕ → ℕ → ℕ → Fusey → Fusey × Reply Bytes
  unfolding finish_read
  read ino want off now f = elim (get_inode ino f.idx) [
    | none ↦ (f, fail enoent)
    | some inode ↦
        if le64 inode.size off
        then (f, done [])
        else let wanted = add64 off want in
          let end = if lt64 inode.size wanted then inode.size else wanted in
          elim (get_extents ino f.idx) [
            | none ↦ (f, done [])
            | some es ↦
                finish_read ino now f (read_extents es off end (replicate (sub64 end off) 0) f.cs)
          ]
  ]
