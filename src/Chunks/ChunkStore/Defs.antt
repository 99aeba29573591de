-- ===== src/Chunks/ChunkStore/Defs.antt =====
-- The state of a ChunkStore and its methods.
use fusey.Base.{
  ℕ, ◌+◌, Bytes, Bool, true, false, not, Option, none, some, List, [], ◌∷◌, ◌++◌, ◌==◌, nat_key,
  bytes_key, if◌then◌else◌, ltb, length, Result, ok, err, panic, store_failure, write_exceeds_chunk,
  read_out_of_bounds,
}
use fusey.Base.Word.{add64, lt64}
use fusey.Index.Types.{Extent}
use fusey.Chunks.Ids.{chunk_id, chunk_id_prefix, cut_prefix, scan_int8}
use fusey.Chunks.Store.{Store, between}
use fusey.Chunks.Cache.{Cache, write_atomic, read_range}

-- The loop of RecoverNextSeq: the highest number of the IDs that Sscanf can read, `none` for -1.
abbrev pub higher : Option ℕ → Option ℕ → Option ℕ
higher found none = found
higher none (some seq) = some seq
higher (some m) (some seq) = some (if ltb m seq then seq else m)

abbrev pub recovered_seq : Bytes → Option ℕ
recovered_seq id = elim (cut_prefix chunk_id_prefix id) [ none ↦ none | some s ↦ scan_int8 s ]

unfoldable pub max_seq : Option ℕ → List Bytes → Option ℕ
max_seq found [] = found
max_seq found (id ∷ ids) = max_seq (higher found (recovered_seq id)) ids

module _ (S : Store) where
  pub record ChunkStore : Type 0 where
    pub store : S.State
    pub max_chunk_size : ℕ
    pub cache : Option Cache
    pub active_id : Bytes
    pub active_buf : Bytes
    pub active_dirty : Bool
    pub next_seq : ℕ

  unfoldable pub new : S.State → ℕ → ChunkStore
  new s max_chunk_size = record {
    store = s;
    max_chunk_size = max_chunk_size;
    cache = none;
    active_id = chunk_id 0;
    active_buf = [];
    active_dirty = false;
    next_seq = 1;
  }

  -- cs.activeID = cs.chunkID(cs.nextSeq); cs.nextSeq++
  abbrev pub rotate : ChunkStore → ChunkStore
  rotate cs = record cs { active_id = chunk_id cs.next_seq; next_seq = cs.next_seq + 1 }

  -- A failed cache write is ignored.
  abbrev pub cache_put : Bytes → Bytes → Option Cache → Option Cache
  cache_put id d none = none
  cache_put id d (some c) = some (write_atomic id d c).0

  -- Seal and sealLocked
  unfoldable pub seal : ChunkStore → ChunkStore × Result (Unit {0})
  seal cs = elim cs.active_buf [
    | [] ↦ (rotate cs, ok tt)
    | _ ↦
        let (s', done) = S.put cs.active_id cs.active_buf cs.store in
        if done
        then (
          rotate (record cs {
            store = s';
            cache = cache_put cs.active_id cs.active_buf cs.cache;
            active_buf = [];
            active_dirty = false;
          }),
          ok tt,
        )
        else (record cs { store = s' }, err store_failure)
  ]

  -- The end of Append: the data goes behind the active buffer.
  abbrev pub extend : Bytes → ℕ → ChunkStore → ChunkStore × Result Extent
  extend d file_offset cs = (
    record cs { active_buf = cs.active_buf ++ d; active_dirty = true },
    ok (record {
      chunk_id = cs.active_id;
      chunk_offset = length cs.active_buf;
      len = length d;
      file_offset = file_offset;
    }),
  )

  abbrev after_seal : Bytes → ℕ → ChunkStore × Result (Unit {0}) → ChunkStore × Result Extent
  after_seal d file_offset (cs, ok _) = extend d file_offset cs
  after_seal d file_offset (cs, err e) = (cs, err e)
  after_seal d file_offset (cs, panic) = (cs, panic)

  unfoldable pub append : Bytes → ℕ → ChunkStore → ChunkStore × Result Extent
  append d file_offset cs =
      if lt64 cs.max_chunk_size (length d)
      then (cs, err write_exceeds_chunk)
      else if lt64 cs.max_chunk_size (add64 (length cs.active_buf) (length d))
      then after_seal d file_offset (seal cs)
      else extend d file_offset cs

  -- Read. A miss in the cache may write to it.
  unfoldable pub read : Bytes → ℕ → ℕ → ChunkStore → ChunkStore × Result Bytes
  read id offset len cs =
      if id == cs.active_id
      then (
        cs,
        if lt64 (length cs.active_buf) (add64 offset len)
            then err read_out_of_bounds
            else between offset (add64 offset len) cs.active_buf,
      )
      else elim cs.cache [
        | some c ↦
            let (c', d) = read_range S id offset len cs.store c in
            (record cs { cache = some c' }, d)
        | none ↦ (
          cs,
          elim (S.get_range id offset len cs.store) [ none ↦ err store_failure | some d ↦ ok d ],
        )
      ]

  unfoldable pub flush_active : ChunkStore → ChunkStore × Result (Unit {0})
  flush_active cs =
      if not cs.active_dirty
      then (cs, ok tt)
      else let (s', done) = S.put cs.active_id cs.active_buf cs.store in
        if done
        then (record cs { store = s'; active_dirty = false }, ok tt)
        else (record cs { store = s' }, err store_failure)

  -- The loop of DeleteChunks over the object store.
  unfoldable pub delete_chunks : List Bytes → S.State → S.State × Result (Unit {0})
  delete_chunks [] s = (s, ok tt)
  delete_chunks (id ∷ ids) s =
      let rest = delete_chunks ids (S.delete id s).0 in
      if (S.delete id s).1 then rest else ((S.delete id s).0, err store_failure)

  -- PutSealed
  unfoldable pub put_sealed : Bytes → Bytes → ChunkStore → ChunkStore × Result (Unit {0})
  put_sealed id d cs =
      let (s', done) = S.put id d cs.store in
      (record cs { store = s' }, if done then ok tt else err store_failure)

  unfoldable pub sealed_size : Bytes → ChunkStore → Result ℕ
  sealed_size id cs =
      if id == cs.active_id
      then ok (length cs.active_buf)
      else elim (S.size id cs.store) [ none ↦ err store_failure | some n ↦ ok n ]

  without : Bytes → List Bytes → List Bytes
  without active [] = []
  without active (id ∷ ids) =
      let rest = without active ids in if id == active then rest else id ∷ rest

  unfoldable pub list_sealed : ChunkStore → Result (List Bytes)
  unfolding without
  list_sealed cs = elim (S.list cs.store) [
    | none ↦ err store_failure
    | some all ↦ ok (without cs.active_id all)
  ]

  unfoldable pub recover_next_seq : ChunkStore → ChunkStore × Result (Unit {0})
  recover_next_seq cs = elim (S.list cs.store) [
    | none ↦ (cs, err store_failure)
    | some ids ↦ elim (max_seq none ids) [
      | none ↦ (cs, ok tt)
      | some m ↦ (record cs { active_id = chunk_id (m + 1); next_seq = m + 2 }, ok tt)
    ]
  ]
