-- ===== src/Tests/Compacting.antt =====
-- A cycle of Compact that drops one chunk of two.
use fusey.Base.{ℕ, ◌*◌, Bytes, Bool, false, none, some, [], ◌∷◌, ◌≡◌, refl, inl, ok, ltb}
use fusey.Map
use fusey.Map.{Map, lookup, insert}
use fusey.Index.Overwrite.{live_extents, remap_extents}
use fusey.Chunks.Ids.{chunk_id, cut_prefix}
use fusey.Chunks.ChunkStore.{put_sealed, sealed_size, list_sealed, delete_chunks}
use fusey.Compaction.{
  Compactor, targets, compact, compact_targets, delete_targets, move_extents, pack, pack_extent,
  first_output, write_outputs, live_in, live_in_all, total_length,
}
use fusey.Compaction.Keeping.{compact-keeps}
use fusey.Tests.Shelf.{shelf, on_shelf, shelf-IsLawful, hello}
use fusey.Tests.Samples.{program}
use fusey.Tests.Reads.{hello_file}

unfoldable compacting : Unit {0}
unfolding program Map.delete put_sealed sealed_size list_sealed delete_chunks targets compact
    compact_targets delete_targets move_extents pack pack_extent first_output write_outputs live_in
    live_in_all total_length live_extents remap_extents cut_prefix
compacting = tt

-- The chunk 0 is in use, and of the chunk 1 nothing is.
abbrev two_chunks : Map Bytes Bytes
two_chunks = (chunk_id 0, hello) ∷ (chunk_id 1, 9 ∷ 9 ∷ []) ∷ []

abbrev half : ℕ → ℕ → Bool
half total live = ltb (live * 2) total

abbrev compactor : Compactor shelf half (λ n. n) 8
compactor = record {
  idx = hello_file.idx;
  cs = record hello_file.cs {
    store = two_chunks;
    active_id = chunk_id 2;
    active_buf = [];
    active_dirty = false;
    next_seq = 3;
  };
}

dropped :
    on_shelf (chunk_id 1) (compact shelf half (λ n. n) 8 (λ c. (c, ok tt)) compactor).0.cs.store
    ≡ none
unfolding compacting
dropped = refl

compact-keeps_example :
    on_shelf (chunk_id 0) (compact shelf half (λ n. n) 8 (λ c. (c, ok tt)) compactor).0.cs.store
    ≡ some hello
unfolding compacting
compact-keeps_example =
    compact-keeps shelf on_shelf shelf-IsLawful half (λ n. n) 8 (chunk_id 0) refl (λ c. (c, ok tt))
      (λ c. refl) compactor (chunk_id 0 ∷ chunk_id 1 ∷ []) refl (inl refl)
