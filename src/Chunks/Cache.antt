-- ===== src/Chunks/Cache.antt =====
-- internal/chunks/cache.go without its concurrency: the files under <dir>/chunks/ and reads through
-- them. A file is written whole or not at all, since it is renamed into place.
use fusey.Base.{
  ℕ, ◌+◌, Bytes, Bool, true, false, Option, none, some, [], ◌||◌, ◌&&◌, ◌==◌, nat_key, bytes_key,
  if◌then◌else◌, leb, length, Result, ok, err, panic, store_failure,
}
use fusey.Map.{Map, lookup, insert}
use fusey.Chunks.Store.{Store, slice, between}
use fusey.Base.Word.{add64, lt64, le64}

pub record Cache : Type 0 where
  pub files : Map Bytes Bytes
  -- Whether the disk takes a file of that name.
  pub writable : Bytes → Bool

unfoldable pub new_cache : (Bytes → Bool) → Cache
new_cache writable = record { files = []; writable = writable }

-- writeAtomic, which is also put
unfoldable pub write_atomic : Bytes → Bytes → Cache → Cache × Bool
write_atomic id d c =
    if c.writable id then (record c { files = insert id d c.files }, true) else (c, false)

-- readFileSlice: make panics at a negative length, and ReadAt fails at a negative offset or short of
-- the length.
unfoldable pub read_file_slice : Bytes → ℕ → ℕ → Cache → Result Bytes
read_file_slice id offset len c = elim (lookup id c.files) [
  | none ↦ err store_failure
  | some d ↦
      if lt64 len 0
      then panic
      else if leb (offset + len) (length d) || (len == 0 && le64 0 offset)
      then ok (slice offset len d)
      else err store_failure
]

module _ (S : Store) where
  -- fetchFullChunk
  unfoldable pub fetch_full_chunk : Bytes → S.State → Option Bytes
  fetch_full_chunk id s = elim (S.size id s) [ none ↦ none | some size ↦ S.get_range id 0 size s ]

  -- readRange by one goroutine
  unfoldable pub read_range : Bytes → ℕ → ℕ → S.State → Cache → Cache × Result Bytes
  read_range id offset len s c = elim (read_file_slice id offset len c) [
    | ok d ↦ (c, ok d)
    | panic ↦ (c, panic)
    | err _ ↦ elim (fetch_full_chunk id s) [
      | none ↦ (c, err store_failure)
      | some d ↦
          let (c', written) = write_atomic id d c in
          if written then (c', between offset (add64 offset len) d) else (c', err store_failure)
    ]
  ]
