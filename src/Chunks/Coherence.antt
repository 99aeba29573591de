-- ===== src/Chunks/Coherence.antt =====
-- The cache of chunks and the store: the files of the cache are copies of objects.
use fusey.Base.{
  ℕ, ◌+◌, ◌-◌, ◌^◌, ◌<◌, ◌≤◌, Bytes, Option, none, some, ◌≡◌, refl, arith, ap, ◌∙◌, ◌==◌, nat_key,
  bytes_key, bytes_beq_iff, length, take_all, ok, Option-cases, inl, inr, ◌⊎◌, Bool-cases,
}
use fusey.Base.Word.{add64, add64-eq, lt64-eq, le64-eq}
use fusey.Map.{lookup, lookup-insert}
use fusey.Chunks.Ids.{chunk_id}
use fusey.Chunks.Store.{Store, IsLawful, slice, between}
use fusey.Chunks.Cache.{Cache, write_atomic, read_file_slice, fetch_full_chunk, read_range}
use fusey.Chunks.ChunkStore.{ChunkStore, read, seal, append, cache_put}
use fusey.Chunks.AppendOnly.{IsFresh}

-- The file of a chunk in the cache; none without a cache.
abbrev pub cached : Option Cache → Bytes → Option Bytes
cached none id = none
cached (some c) id = lookup id c.files

pub between-eq :
    (o len : ℕ) (d : Bytes)
    → o + len ≤ length d
    → length d < 2 ^ 63
    → between o (add64 o len) d ≡ ok (slice o len d)
unfolding between
between-eq o len d h k =
    let e : o + len - o ≡ len = omega arith in
    ground (
      arith,
      add64-eq o len,
      le64-eq 0 o,
      le64-eq o (o + len),
      le64-eq (o + len) (length d),
      e,
      ap (λ (n : ℕ). slice o n d) e,
    )

module _ (S : Store) (object : Bytes → S.State → Option Bytes) where
  -- A file in the cache is the object of its chunk, where there is one; the active chunk and those
  -- that are still to be given have no file.
  pub record IsCoherent (cs : ChunkStore S) : Type 0 where
    pub agree :
        (id d d' : Bytes) → cached cs.cache id ≡ some d → object id cs.store ≡ some d' → d ≡ d'
    pub active : cached cs.cache cs.active_id ≡ none
    pub unused : (n : ℕ) → cs.next_seq ≤ n → cached cs.cache (chunk_id n) ≡ none

  cached-cache_put :
      (id d j : Bytes) (c : Option Cache)
      → (cached (cache_put S id d c) j ≡ cached c j)
        ⊎ ((id ≡ j) × (cached (cache_put S id d c) j ≡ some d))
  unfolding write_atomic
  cached-cache_put id d j none = inl refl
  cached-cache_put id d j (some c) =
      ground (arith, lookup-insert id j d c.files, bytes_beq_iff id j)

  module _ (law : IsLawful S object) (cs : ChunkStore S) (fresh : IsFresh S object cs)
      (x : IsCoherent cs) where
    seal-IsCoherent : IsCoherent (seal S cs).0
    unfolding seal
    seal-IsCoherent = record {
      agree = λ id d d' held stored. ground (
        arith,
        x.agree id d d',
        x.active,
        cached-cache_put cs.active_id cs.active_buf id cs.cache,
        bytes_beq_iff cs.active_id id,
        law.object-put cs.active_id cs.active_buf id cs.store,
        law.object-put_ne cs.active_id cs.active_buf id cs.store,
      );
      active = ground (
        arith,
        x.active,
        x.unused cs.next_seq,
        fresh.active cs.next_seq,
        cached-cache_put cs.active_id cs.active_buf (chunk_id cs.next_seq) cs.cache,
        bytes_beq_iff (chunk_id cs.next_seq) cs.active_id,
      );
      unused = λ n h. ground (
        arith,
        x.unused n,
        fresh.active n,
        cached-cache_put cs.active_id cs.active_buf (chunk_id n) cs.cache,
        bytes_beq_iff (chunk_id n) cs.active_id,
      );
    }

    pub append-IsCoherent : (d : Bytes) (file_offset : ℕ) → IsCoherent (append S d file_offset cs).0
    unfolding append
    append-IsCoherent d file_offset = record {
      agree = λ id e e' held stored. ground (arith, x.agree id e e', seal-IsCoherent.agree id e e');
      active = ground (arith, x.active, seal-IsCoherent.active);
      unused = λ n h. ground (arith, x.unused n, seal-IsCoherent.unused n);
    }

  module _ (law : IsLawful S object) (cs : ChunkStore S) (id : Bytes) (o len : ℕ) where
    -- Reading changes nothing but the cache.
    pub read-keeps : (c : Option Cache) × ((read S id o len cs).0 ≡ record cs { cache = c })
    unfolding read
    read-keeps = elim (Bool-cases (id == cs.active_id)) [
      | inl same ↦ (cs.cache, ground arith)
      | inr other ↦ elim (Option-cases cs.cache) [
        | inl missing ↦ (cs.cache, ground arith)
        | inr (c, e) ↦ (some (read_range S id o len cs.store c).0, ground arith)
      ]
    ]

    pub fetch_full_chunk-object :
        (whole d : Bytes)
        → object id cs.store ≡ some whole
        → fetch_full_chunk S id cs.store ≡ some d
        → d ≡ whole
    unfolding fetch_full_chunk
    fetch_full_chunk-object whole d held fetched = elim (Option-cases (S.size id cs.store)) [
      | inl missing ↦ absurd (ground arith)
      | inr (n, sized) ↦
          let e : n ≡ length whole = law.size-object id cs.store n whole sized held in
          law.get_range-object id 0 n cs.store whole d held (omega (arith, e)) (inr e)
            (ground arith)
          ∙ take_all n whole (omega (arith, e))
    ]

    pub file_slice :
        (c : Cache) (whole d : Bytes)
        → lookup id c.files ≡ some whole
        → o + len ≤ length whole
        → length whole < 2 ^ 63
        → read_file_slice id o len c ≡ ok (slice o len whole)
    unfolding read_file_slice
    file_slice c whole d held fits small = ground (arith, lt64-eq len 0)
