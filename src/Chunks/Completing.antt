-- ===== src/Chunks/Completing.antt =====
-- When an append succeeds.
use fusey.Base.{
  ℕ, ◌+◌, ◌≤◌, Bytes, Option, ◌⊎◌, length, ◌≡◌, true, arith, Result, ok, err, panic, Bool, false,
  refl,
}
use fusey.Base.Word.{add64-eq, lt64-eq}
use fusey.Index.Types.{Extent}
use fusey.Chunks.Store.{Store}
use fusey.Chunks.ChunkStore.{ChunkStore, seal, append}
use fusey.Chunks.AppendOnly.{WithinLimit}

abbrev returned {ℓ} : {A : Type ℓ} → Result A → Bool
returned (ok a) = true
returned _ = false

ok-returned {ℓ} : {A : Type ℓ} (r : Result A) → returned r ≡ true → (a : A) × (r ≡ ok a)
ok-returned (ok a) h = (a, refl)
ok-returned (err e) h = ground arith
ok-returned panic h = ground arith

module _ (S : Store) (object : Bytes → S.State → Option Bytes) where
  seal-completes :
      (cs : ChunkStore S)
      → (S.put cs.active_id cs.active_buf cs.store).1 ≡ true
      → (seal S cs).1 ≡ ok tt
  unfolding seal
  seal-completes cs put = ground arith

  append-returns :
      (d : Bytes) (file_offset : ℕ) (cs : ChunkStore S)
      → WithinLimit S object cs
      → length d ≤ cs.max_chunk_size
      → (length cs.active_buf + length d ≤ cs.max_chunk_size)
        ⊎ ((S.put cs.active_id cs.active_buf cs.store).1 ≡ true)
      → returned (append S d file_offset cs).1 ≡ true
  unfolding append
  append-returns d file_offset cs within fits room = ground (
    arith,
    lt64-eq cs.max_chunk_size (length d),
    lt64-eq cs.max_chunk_size (length cs.active_buf + length d),
    add64-eq (length cs.active_buf) (length d),
    seal-completes cs,
  )

  -- Append succeeds if the active chunk keeps to its limit, the data fits in a chunk, and the
  -- active chunk has room for it or the store takes the active chunk.
  pub append-completes :
      (d : Bytes) (file_offset : ℕ) (cs : ChunkStore S)
      → WithinLimit S object cs
      → length d ≤ cs.max_chunk_size
      → (length cs.active_buf + length d ≤ cs.max_chunk_size)
        ⊎ ((S.put cs.active_id cs.active_buf cs.store).1 ≡ true)
      → (ext : Extent) × ((append S d file_offset cs).1 ≡ ok ext)
  append-completes d file_offset cs within fits room =
      ok-returned (append S d file_offset cs).1 (append-returns d file_offset cs within fits room)
