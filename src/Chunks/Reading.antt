-- ===== src/Chunks/Reading.antt =====
-- What Read of the chunk store returns.
use fusey.Base.{
  ℕ, ◌+◌, ◌^◌, ◌<◌, ◌≤◌, Bytes, true, false, Option, some, ◌≡◌, arith, ap, ◌==◌, nat_key, bytes_key,
  bytes_beq_iff, length, ok, Option-cases, Bool-cases, Result-cases, inl, inr,
}
use fusey.Base.Word.{add64-eq, lt64-eq}
use fusey.Map.{lookup, lookup-insert}
use fusey.Chunks.Ids.{chunk_id}
use fusey.Chunks.Store.{Store, IsLawful, slice}
use fusey.Chunks.Cache.{Cache, write_atomic, read_file_slice, fetch_full_chunk, read_range}
use fusey.Chunks.ChunkStore.{ChunkStore, read}
use fusey.Chunks.AppendOnly.{IsFresh, chunk_bytes}
use fusey.Chunks.Coherence.{IsCoherent, between-eq, fetch_full_chunk-object, file_slice}

module _ (S : Store) (object : Bytes → S.State → Option Bytes) (law : IsLawful S object)
    (cs : ChunkStore S) (fresh : IsFresh S object cs) (x : IsCoherent S object cs) (id : Bytes)
    (o len : ℕ) (whole : Bytes) (held : chunk_bytes S object id cs ≡ some whole) where
  -- A read of a range of a chunk that succeeds returns the bytes of the range.
  module _ (some_bytes : 0 < len) (fits : o + len ≤ length whole)
      (small : length whole < 2 ^ 63) where
    read_active : (id == cs.active_id) ≡ true → (read S id o len cs).1 ≡ ok (slice o len whole)
    unfolding read
    read_active same =
        ground (
          arith,
          add64-eq o len,
          lt64-eq (length whole) (o + len),
          between-eq o len whole fits small,
        )

    read_range-slice :
        (c : Cache) (d : Bytes)
        → (id == cs.active_id) ≡ false
        → cs.cache ≡ some c
        → (read_range S id o len cs.store c).1 ≡ ok d
        → d ≡ slice o len whole
    unfolding read_range write_atomic read_file_slice
    read_range-slice c d other e r = elim (Option-cases (lookup id c.files)) [
      | inr (file, f) ↦
          let same : file ≡ whole = x.agree id file whole (ground arith) (ground arith) in
          ground (arith, file_slice S object law cs id o len c whole d (ground arith) fits small)
      | inl missing ↦ elim (Option-cases (fetch_full_chunk S id cs.store)) [
        | inl failed ↦ absurd (ground arith)
        | inr (w, fetched) ↦
            let same : w ≡ whole =
              fetch_full_chunk-object S object law cs id o len whole w (ground arith) fetched in
            ground (arith, between-eq o len whole fits small)
      ]
    ]

    pub read-slice : (d : Bytes) → (read S id o len cs).1 ≡ ok d → d ≡ slice o len whole
    unfolding read
    read-slice d r = elim (Bool-cases (id == cs.active_id)) [
      | inl same ↦ ground (arith, read_active same)
      | inr other ↦ elim (Option-cases cs.cache) [
        | inr (c, e) ↦ read_range-slice c d other e (ground arith)
        | inl missing ↦ elim (Option-cases (S.get_range id o len cs.store)) [
          | inl failed ↦ absurd (ground arith)
          | inr (r', got) ↦ ground (
            arith,
            law.get_range-object id o len cs.store whole r' (ground arith) fits (inl some_bytes)
                got,
          )
        ]
      ]
    ]

  fetched :
      (c : Cache) (d : Bytes)
      → cs.cache ≡ some c
      → (id == cs.active_id) ≡ false
      → fetch_full_chunk S id cs.store ≡ some d
      → IsCoherent S object (record cs { cache = some (write_atomic id d c).0 })
  unfolding write_atomic
  fetched c d e other got =
      let same : d ≡ whole =
        fetch_full_chunk-object S object law cs id o len whole d (ground arith) got in
      let stored_whole : object id cs.store ≡ some whole = ground arith in
      record {
        agree = λ j a b held stored. ground (
          arith,
          lookup-insert id j d c.files,
          bytes_beq_iff id j,
          x.agree j a b,
          same,
          stored_whole,
          λ (h : id ≡ j). ap (λ (k : Bytes). object k cs.store) h,
        );
        active = ground (arith, lookup-insert id cs.active_id d c.files, x.active);
        unused = λ n h. ground (
          arith,
          lookup-insert id (chunk_id n) d c.files,
          x.unused n h,
          fresh.unused n h,
          bytes_beq_iff id (chunk_id n),
        );
      }

  pub read-IsCoherent : IsCoherent S object (read S id o len cs).0
  unfolding read read_range
  read-IsCoherent = elim (Bool-cases (id == cs.active_id)) [
    | inl same ↦ rw (read, same) x
    | inr other ↦ elim (Option-cases cs.cache) [
      | inl missing ↦ rw (read, other, missing) x
      | inr (c, e) ↦ elim (Result-cases (read_file_slice id o len c)) [
        | inl (d, ready) ↦ rw (read, other, e, read_range, ready) (rw (← e) x)
        | inr (inr crashed) ↦ rw (read, other, e, read_range, crashed) (rw (← e) x)
        | inr (inl (failure, miss)) ↦ elim (Option-cases (fetch_full_chunk S id cs.store)) [
          | inl failed ↦ rw (read, other, e, read_range, miss, failed) (rw (← e) x)
          | inr (d, got) ↦ elim (Bool-cases (write_atomic id d c).1) [
            | inl stored ↦
                rw (read, other, e, read_range, miss, got, stored) (fetched c d e other got)
            | inr refused ↦
                rw (read, other, e, read_range, miss, got, refused) (fetched c d e other got)
          ]
        ]
      ]
    ]
  ]
