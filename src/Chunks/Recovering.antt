-- ===== src/Chunks/Recovering.antt =====
-- RecoverNextSeq, and the chunk IDs that are given after it (internal/chunks/chunk_store.go).
use fusey.Base.{
  ℕ, ◌+◌, ◌^◌, ◌<◌, Bytes, Bool, true, false, Option, none, some, List, [], ◌∷◌, ◌≡◌, refl, arith,
  ap, ◌∙◌, ◌==◌, nat_key, bytes_key, bytes_beq_iff, leb, Option-cases, Bool-cases, inl, inr,
}
use fusey.Chunks.Ids.{chunk_id, padded, chunk_id_prefix}
use fusey.Chunks.Ids.RoundTrip.{chunk_id-injective, scan_int8-padded, cut_prefix-append}
use fusey.Chunks.Store.{Store, has}
use fusey.Chunks.ChunkStore.{new, recover_next_seq, max_seq, recovered_seq, higher}
use fusey.Chunks.AppendOnly.{IsFresh}

recovered_seq-chunk_id : (n : ℕ) → n < 10 ^ 8 → recovered_seq (chunk_id n) ≡ some n
unfolding chunk_id
recovered_seq-chunk_id n h =
    rw (recovered_seq, cut_prefix-append chunk_id_prefix (padded n)) (scan_int8-padded n h)

-- The highest number so far is at least `n`.
abbrev reaches : Option ℕ → ℕ → Bool
reaches none n = false
reaches (some m) n = leb n m

max_seq-reaches :
    (ids : List Bytes) (found : Option ℕ) (n : ℕ)
    → reaches found n ≡ true
    → reaches (max_seq found ids) n ≡ true
unfolding max_seq
max_seq-reaches [] found n h = h
max_seq-reaches (id ∷ ids) found n h = max_seq-reaches ids _ n (grown found (recovered_seq id) h)
  where
    grown : (found o : Option ℕ) → reaches found n ≡ true → reaches (higher found o) n ≡ true
    grown none o h = ground arith
    grown (some m) none h = h
    grown (some m) (some seq) h = ground arith

newest : (found : Option ℕ) (n : ℕ) → reaches (higher found (some n)) n ≡ true
newest none n = ground arith
newest (some m) n = ground arith

max_seq-has :
    (ids : List Bytes) (found : Option ℕ) (n : ℕ)
    → n < 10 ^ 8
    → has (chunk_id n) ids ≡ true
    → reaches (max_seq found ids) n ≡ true
unfolding max_seq
max_seq-has [] found n small h = ground arith
max_seq-has (id ∷ ids) found n small h = elim (Bool-cases (chunk_id n == id)) [
  | inl same ↦ max_seq-reaches ids _ n (
      rw (← (bytes_beq_iff (chunk_id n) id).0 same, recovered_seq-chunk_id n small)
        (newest found n))
  | inr other ↦ max_seq-has ids _ n small (ground arith)
]

module _ (S : Store) (object : Bytes → S.State → Option Bytes) (s : S.State) (limit : ℕ)
    (ids : List Bytes) where
  module _ (listed : S.list s ≡ some ids)
      (complete : (n : ℕ) (d : Bytes)
        → object (chunk_id n) s ≡ some d
        → has (chunk_id n) ids ≡ true)
      (short : (n : ℕ) (d : Bytes) → object (chunk_id n) s ≡ some d → n < 10 ^ 8) where
    differ : (n m : ℕ) → m < n → (chunk_id n == chunk_id m) ≡ false
    differ n m h = ground (arith, chunk_id-injective n m, bytes_beq_iff (chunk_id n) (chunk_id m))

    unheld : (n : ℕ) → reaches (max_seq none ids) n ≡ false → object (chunk_id n) s ≡ none
    unheld n beyond = elim (Option-cases (object (chunk_id n) s)) [
      | inl free ↦ free
      | inr (d, held) ↦
          absurd (ground (arith, max_seq-has ids none n (short n d held) (complete n d held)))
    ]

    -- After RecoverNextSeq of a new chunk store, no chunk ID that is still to be given is that of
    -- an object or of the active chunk, if the store lists its objects, and none of them has the
    -- chunk ID of a number of 10 ^ 8 or more.
    pub recover_next_seq-IsFresh : IsFresh S object (recover_next_seq S (new S s limit)).0
    unfolding recover_next_seq new
    recover_next_seq-IsFresh = elim (Option-cases (max_seq none ids)) [
      | inl none_yet ↦
          rw (recover_next_seq, listed, none_yet)
            (record {
              active = λ n h. differ n 0 (omega arith);
              unused = λ n h. unheld n (rw none_yet refl);
            })
      | inr (m, highest) ↦
          rw (recover_next_seq, listed, highest)
            (record {
              active = λ n h. differ n (m + 1) (omega arith);
              unused = λ n h. unheld n (rw highest (ground arith));
            })
    ]

    -- The active chunk is new, and empty.
    pub recover_next_seq-active :
        (object (recover_next_seq S (new S s limit)).0.active_id s ≡ none)
        × ((recover_next_seq S (new S s limit)).0.store ≡ s)
    unfolding recover_next_seq new
    recover_next_seq-active = elim (Option-cases (max_seq none ids)) [
      | inl none_yet ↦ rw (recover_next_seq, listed, none_yet) (unheld 0 (rw none_yet refl), refl)
      | inr (m, highest) ↦
          rw (recover_next_seq, listed, highest) (unheld (m + 1) (rw highest (ground arith)), refl)
    ]

    -- After RecoverNextSeq of a new chunk store, the active chunk has the ID of no object, and no
    -- chunk ID that is still to be given is that of an object or of the active chunk: if the
    -- store lists its objects, and none of them has the chunk ID of a number of 10 ^ 8 or more.
    pub recover_next_seq-unused :
        IsFresh S object (recover_next_seq S (new S s limit)).0
        × (object
              (recover_next_seq S (new S s limit)).0.active_id
              (recover_next_seq S (new S s limit)).0.store
            ≡ none)
    recover_next_seq-unused =
        let (free, kept) = recover_next_seq-active in
        (
          recover_next_seq-IsFresh,
          ap (object (recover_next_seq S (new S s limit)).0.active_id) kept ∙ free,
        )
