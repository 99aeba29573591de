-- ===== src/Chunks/Flushing.antt =====
-- What FlushActive leaves in the store (internal/chunks/chunk_store.go).
use fusey.Base.{
  ℕ, Bytes, false, Option, some, [], ◌≡◌, refl, arith, ◌⊎◌, inl, ok, bytes_key, bytes_beq_iff,
}
use fusey.Index.Types.{Extent}
use fusey.Chunks.Store.{Store, IsLawful}
use fusey.Chunks.ChunkStore
use fusey.Chunks.ChunkStore.{ChunkStore, flush_active}
use fusey.Chunks.AppendOnly.{chunk_byte, byte_at}

module _ (S : Store) (object : Bytes → S.State → Option Bytes) where
  -- A clean active chunk is stored as it is.
  pub record IsFlushed (cs : ChunkStore S) : Type 0 where
    pub stored :
        cs.active_dirty ≡ false
        → (cs.active_buf ≡ []) ⊎ (object cs.active_id cs.store ≡ some cs.active_buf)

  pub new-IsFlushed : (s : S.State) (limit : ℕ) → IsFlushed (ChunkStore.new S s limit)
  unfolding ChunkStore.new
  new-IsFlushed s limit = record { stored = λ h. inl refl }

  pub append-IsFlushed :
      (d : Bytes) (file_offset : ℕ) (cs : ChunkStore S) (ext : Extent)
      → (ChunkStore.append S d file_offset cs).1 ≡ ok ext
      → IsFlushed (ChunkStore.append S d file_offset cs).0
  unfolding ChunkStore.append
  append-IsFlushed d file_offset cs ext done = record { stored = λ clean. absurd (ground arith) }

  module _ (law : IsLawful S object) (cs : ChunkStore S)
      (done : (flush_active S cs).1 ≡ ok tt) where
    -- After FlushActive, every byte of a chunk is in its object.
    pub flushed :
        (id : Bytes) (i b : ℕ)
        → IsFlushed cs
        → chunk_byte S object id i cs ≡ some b
        → byte_at S object (object id (flush_active S cs).0.store) i ≡ some b
    unfolding flush_active
    flushed id i b x h = ground (
      arith,
      x.stored,
      bytes_beq_iff id cs.active_id,
      bytes_beq_iff cs.active_id id,
      bytes_beq_iff cs.active_id cs.active_id,
      law.object-put cs.active_id cs.active_buf id cs.store,
      law.object-put_ne cs.active_id cs.active_buf id cs.store,
    )
