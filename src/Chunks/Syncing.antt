-- ===== src/Chunks/Syncing.antt =====
-- FlushActive and what is known of the chunks: it keeps all of it, whether or not the store takes the
-- active chunk.
use fusey.Base.{ℕ, ◌+◌, Bytes, Option, List, [], ◌∷◌, ◌≡◌, arith, ◌∙◌, bytes_key, bytes_beq_iff}
use fusey.Index.Types.{Extent}
use fusey.Index.Content.{All}
use fusey.Chunks.Ids.{chunk_id}
use fusey.Chunks.Store.{Store, IsLawful}
use fusey.Chunks.ChunkStore.{ChunkStore, flush_active}
use fusey.Chunks.AppendOnly.{IsFresh, WithinLimit, chunk_byte}
use fusey.Chunks.Backing.{IsBacked, IsMeasured}
use fusey.Chunks.Coherence.{IsCoherent}

module _ (S : Store) (object : Bytes → S.State → Option Bytes) (law : IsLawful S object)
    (cs : ChunkStore S) where
  abbrev flushed_store : ChunkStore S
  flushed_store = (flush_active S cs).0

  pub chunk_byte-flush_active :
      (id : Bytes) (i : ℕ) → chunk_byte S object id i flushed_store ≡ chunk_byte S object id i cs
  unfolding flush_active
  chunk_byte-flush_active id i = ground (
    arith,
    bytes_beq_iff id cs.active_id,
    law.object-put_ne cs.active_id cs.active_buf id cs.store,
  )

  pub flush_active-IsFresh : IsFresh S object cs → IsFresh S object flushed_store
  unfolding flush_active
  flush_active-IsFresh fresh = record {
    active = λ n h. ground (arith, fresh.active n);
    unused = λ n h. ground (
      arith,
      fresh.active n,
      fresh.unused n,
      bytes_beq_iff (chunk_id n) cs.active_id,
      law.object-put_ne cs.active_id cs.active_buf (chunk_id n) cs.store,
    );
  }

  pub flush_active-WithinLimit : WithinLimit S object cs → WithinLimit S object flushed_store
  unfolding flush_active
  flush_active-WithinLimit within = ground arith

  pub flush_active-IsCoherent : IsCoherent S object cs → IsCoherent S object flushed_store
  unfolding flush_active
  flush_active-IsCoherent x = record {
    agree = λ id d e held stored. ground (
      arith,
      x.agree id d e,
      x.active,
      bytes_beq_iff id cs.active_id,
      law.object-put_ne cs.active_id cs.active_buf id cs.store,
    );
    active = ground (arith, x.active);
    unused = λ n h. ground (arith, x.unused n);
  }

  pub flush_active-IsMeasured : IsMeasured S object cs → IsMeasured S object flushed_store
  unfolding flush_active
  flush_active-IsMeasured m = (
    ground (arith, m.0),
    λ id d other held. ground (
      arith,
      m.1 id d,
      bytes_beq_iff id cs.active_id,
      law.object-put_ne cs.active_id cs.active_buf id cs.store,
    ),
  )

  pub flush_active-AllBacked :
      (es : List Extent) → All (IsBacked S object cs) es → All (IsBacked S object flushed_store) es
  flush_active-AllBacked [] h = tt
  flush_active-AllBacked (e ∷ es) h = (
    record {
      filled = h.0.filled;
      bytes = λ k s.
          let (b, held) = h.0.bytes k s in
          (b, chunk_byte-flush_active e.chunk_id (e.chunk_offset + k) ∙ held);
    },
    flush_active-AllBacked es h.1,
  )
