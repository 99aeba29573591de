-- ===== src/Chunks/Starting.antt =====
-- A new chunk store over a store without chunks.
use fusey.Base.{ℕ, ◌^◌, ◌<◌, Bytes, Option, none, ◌≡◌, bytes_key, bytes_beq_iff, arith}
use fusey.Chunks.Ids.{chunk_id}
use fusey.Chunks.Ids.RoundTrip.{chunk_id-injective}
use fusey.Chunks.Store.{Store}
use fusey.Chunks.ChunkStore.{new}
use fusey.Chunks.AppendOnly.{IsFresh, WithinLimit}

module _ (S : Store) (object : Bytes → S.State → Option Bytes) (s : S.State) (limit : ℕ) where
  -- Every chunk ID of a new chunk store is fresh, if the store holds no object under one.
  pub new-IsFresh : ((n : ℕ) → object (chunk_id n) s ≡ none) → IsFresh S object (new S s limit)
  unfolding new
  new-IsFresh empty = record {
    active = λ n h. ground (arith, chunk_id-injective n 0, bytes_beq_iff (chunk_id n) (chunk_id 0));
    unused = λ n h. empty n;
  }

  pub new-WithinLimit : limit < 2 ^ 62 → WithinLimit S object (new S s limit)
  unfolding new
  new-WithinLimit h = ground arith
