-- ===== src/Compaction/Cycle.antt =====
-- Compact (internal/compaction/compactor.go). The comparison of the orphan fraction with the threshold,
-- in floating point, the clock and the function that persists are parameters.
use fusey.Base.{
  ℕ, ◌+◌, Bytes, Bool, List, [], ◌∷◌, ◌++◌, ◌&&◌, ◌==◌, nat_key, bytes_key, if◌then◌else◌, ltb,
  length, Result, ok, err, panic,
}
use fusey.Base.Word.{add64, lt64}
use fusey.Index.Types.{Index, Extent}
use fusey.Index.Overwrite.{Place, live_extents, remap_extents}
use fusey.Chunks.Store.{Store}
use fusey.Chunks.ChunkStore
use fusey.Chunks.ChunkStore.{ChunkStore, put_sealed, sealed_size, list_sealed, delete_chunks}
use fusey.Compaction.Defs.{compacted_id}

-- liveByChunk[id]
unfoldable pub live_in : Bytes → List Extent → List Extent
live_in id [] = []
live_in id (e ∷ es) = let rest = live_in id es in if e.chunk_id == id then e ∷ rest else rest

unfoldable pub total_length : List Extent → ℕ → ℕ
total_length [] live = live
total_length (e ∷ es) live = total_length es (add64 live e.len)

-- The output chunks: those that are full, and the last, with its number; and the table of new places,
-- the newest entry first.
pub record Packing : Type 0 where
  pub full : List (Bytes × Bytes)
  pub id : Bytes
  pub buf : Bytes
  pub next_seq : ℕ
  pub remap : List (Place × Extent)

module _ (S : Store) (is_sparse : ℕ → ℕ → Bool) (clock : ℕ → ℕ) (chunk_size : ℕ) where
  pub record Compactor : Type 0 where
    pub idx : Index
    pub cs : ChunkStore S

  -- The loop over the sealed chunks. A chunk whose size cannot be read is left alone.
  unfoldable pub targets : List Extent → ChunkStore S → List Bytes → List Bytes
  targets live cs [] = []
  targets live cs (id ∷ ids) =
      let rest = targets live cs ids in
      elim (sealed_size S id cs) [
        | ok total ↦
            if total == 0
            then id ∷ rest
            else if is_sparse total (total_length (live_in id live) 0)
            then id ∷ rest
            else rest
        | err _ ↦ rest
        | panic ↦ rest
      ]

  -- newOutput, at the first call and at the others
  unfoldable pub first_output : Packing
  first_output = record {
    full = [];
    id = compacted_id (clock 0) 0;
    buf = [];
    next_seq = 1;
    remap = [];
  }

  abbrev new_output : Packing → Packing
  new_output p = record p {
    full = p.full ++ (p.id, p.buf) ∷ [];
    id = compacted_id (clock p.next_seq) p.next_seq;
    buf = [];
    next_seq = p.next_seq + 1;
  }

  abbrev put_extent : Extent → Bytes → Packing → Packing
  put_extent e d p = record p {
    buf = p.buf ++ d;
    remap =
        (
          (e.chunk_id, e.chunk_offset),
          record {
            chunk_id = p.id;
            chunk_offset = length p.buf;
            len = e.len;
            file_offset = e.file_offset;
          },
        )
        ∷ p.remap;
  }

  unfoldable pub pack_extent : Extent → Bytes → Packing → Packing
  pack_extent e d p =
      if ltb 0 (length p.buf) && lt64 chunk_size (add64 (length p.buf) e.len)
      then put_extent e d (new_output p)
      else put_extent e d p

  -- The loop over the live extents of the targets; the first read that fails ends it.
  unfoldable pub pack : List Extent → Packing → ChunkStore S → ChunkStore S × Result Packing
  pack [] p cs = (cs, ok p)
  pack (e ∷ es) p cs =
      let (cs', r) = ChunkStore.read S e.chunk_id e.chunk_offset e.len cs in
      elim r [
        | ok d ↦ pack es (pack_extent e d p) cs'
        | err x ↦ (cs', err x)
        | panic ↦ (cs', panic)
      ]

  unfoldable pub live_in_all : List Bytes → List Extent → List Extent
  live_in_all [] live = []
  live_in_all (id ∷ ids) live = live_in id live ++ live_in_all ids live

  -- The loop that writes the output chunks, but the empty ones.
  unfoldable pub write_outputs :
      List (Bytes × Bytes) → ChunkStore S → ChunkStore S × Result (Unit {0})
  write_outputs [] cs = (cs, ok tt)
  write_outputs ((id, buf) ∷ outputs) cs =
      let (cs', r) = put_sealed S id buf cs in
      let rest = write_outputs outputs cs' in
      let skipped = write_outputs outputs cs in
      if length buf == 0
      then skipped
      else elim r [ ok _ ↦ rest | err x ↦ (cs', err x) | panic ↦ (cs', panic) ]

  abbrev outputs : Packing → List (Bytes × Bytes)
  outputs p = p.full ++ (p.id, p.buf) ∷ []

  -- The steps 3 to 5: packing, writing and remapping.
  unfoldable pub move_extents : List Extent → Compactor → Compactor × Result (Unit {0})
  move_extents moved c =
      let (cs1, r) = pack moved first_output c.cs in
      elim r [
        | err x ↦ (record c { cs = cs1 }, err x)
        | panic ↦ (record c { cs = cs1 }, panic)
        | ok p ↦
            let (cs2, written) = write_outputs (outputs p) cs1 in
            elim written [
              | ok _ ↦ (record { idx = remap_extents p.remap c.idx; cs = cs2 }, ok tt)
              | err x ↦ (record c { cs = cs2 }, err x)
              | panic ↦ (record c { cs = cs2 }, panic)
            ]
      ]

  -- The step 7, behind a persist that succeeds.
  unfoldable pub delete_targets : List Bytes → Compactor → Compactor × Result (Unit {0})
  delete_targets ids c =
      let (s, r) = delete_chunks S ids c.cs.store in
      (record c { cs = record c.cs { store = s } }, r)

  abbrev and_then :
      Compactor × Result (Unit {0})
      → (Compactor → Compactor × Result (Unit {0}))
      → Compactor × Result (Unit {0})
  and_then (c, ok _) step = step c
  and_then (c, err x) step = (c, err x)
  and_then (c, panic) step = (c, panic)

  -- The cycle for the targets.
  unfoldable pub compact_targets :
      (Compactor → Compactor × Result (Unit {0}))
      → List Bytes
      → Compactor
      → Compactor × Result (Unit {0})
  compact_targets persist [] c = (c, ok tt)
  compact_targets persist (id ∷ ids) c =
      and_then (and_then (move_extents (live_in_all (id ∷ ids) (live_extents c.idx)) c) persist)
        (delete_targets (id ∷ ids))

  -- Compact
  unfoldable pub compact :
      (Compactor → Compactor × Result (Unit {0})) → Compactor → Compactor × Result (Unit {0})
  compact persist c = elim (list_sealed S c.cs) [
    | err x ↦ (c, err x)
    | panic ↦ (c, panic)
    | ok ids ↦ compact_targets persist (targets (live_extents c.idx) c.cs ids) c
  ]
