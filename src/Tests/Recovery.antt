-- ===== src/Tests/Recovery.antt =====
-- A chunk store that finds a chunk of an earlier run.
use fusey.Base.{ℕ, Bytes, some, none, [], ◌∷◌, ◌≡◌, refl, arith, bytes_key, bytes_beq_iff}
use fusey.Map.{Map, lookup}
use fusey.Chunks.Ids.{chunk_id, cut_prefix, scan_int8, skip_blanks, scan_digits}
use fusey.Chunks.Ids.RoundTrip.{chunk_id-injective}
use fusey.Chunks.ChunkStore
use fusey.Chunks.ChunkStore.{recover_next_seq}
use fusey.Chunks.AppendOnly.{IsFresh}
use fusey.Chunks.Recovering.{recover_next_seq-unused}
use fusey.Compaction.{compacted_id}
use fusey.Tests.Shelf.{shelf, on_shelf, hello}
use fusey.Tests.Samples.{program}

abbrev old_chunks : Map Bytes Bytes
old_chunks = (chunk_id 3, hello) ∷ []

-- What Compact has written does not count.
recovered :
    (recover_next_seq shelf
      (ChunkStore.new shelf ((compacted_id 99 0, hello) ∷ old_chunks) 8)).0.active_id
    ≡ chunk_id 4
unfolding program recover_next_seq ChunkStore.max_seq cut_prefix scan_int8 skip_blanks compacted_id
    scan_digits
recovered = refl

held_3 : (n : ℕ) (d : Bytes) → on_shelf (chunk_id n) old_chunks ≡ some d → chunk_id n ≡ chunk_id 3
unfolding lookup
held_3 n d h = ground (arith, bytes_beq_iff (chunk_id 3) (chunk_id n))

abbrev back : ChunkStore.ChunkStore shelf
back = (recover_next_seq shelf (ChunkStore.new shelf old_chunks 8)).0

recover_next_seq-unused_example :
    IsFresh shelf on_shelf back × (on_shelf back.active_id back.store ≡ none)
recover_next_seq-unused_example =
    recover_next_seq-unused shelf on_shelf old_chunks 8 (chunk_id 3 ∷ []) refl
      (λ n d h. ground (arith, held_3 n d h, bytes_beq_iff (chunk_id n) (chunk_id 3)))
      (λ n d h. omega (arith, chunk_id-injective n 3 (held_3 n d h)))
