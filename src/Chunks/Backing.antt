-- ===== src/Chunks/Backing.antt =====
-- Extents whose bytes the chunk store has, and chunks of a length that an int64 can say.
use fusey.Base.{
  ℕ, ◌+◌, ◌-◌, ◌^◌, ◌<◌, Bytes, Option, some, List, [], ◌∷◌, ◌≡◌, refl, arith, ap, ◌∙◌, true, false,
  ◌||◌, if◌then◌else◌, ltb, leb, length, get_elem?, ok, bytes_key, bytes_beq_iff, nat_key,
  Bool-cases, inl, inr, zero, suc, Bool, ◌==◌,
}
use fusey.Base.Word.{add64, add64-eq, sub64-eq, lt64, lt64-eq, le64, le64-eq}
use fusey.Index.Attrs.{trim}
use fusey.Index.Types.{Extent}
use fusey.Index.Overwrite.{pieces, write_list}
use fusey.Index.Content.{All, All-append, Fits, carve, CutsInPlace}
use fusey.Index.Content.Pieces.{head_of, tail_of, exact_pieces, pieces-exact}
use fusey.Index.Content.Writing.{write_list-carve}
use fusey.Chunks.Store.{Store, IsLawful}
use fusey.Chunks.Cache.{Cache}
use fusey.Chunks.ChunkStore.{ChunkStore, seal, append}
use fusey.Chunks.AppendOnly.{
  IsFresh, WithinLimit, chunk_bytes, chunk_byte, chunk_byte-append, append-WithinLimit,
  stored-append, extent-append,
}

pub get_elem?-some : (d : Bytes) (i : ℕ) → i < length d → (b : ℕ) × (get_elem? d i ≡ some b)
get_elem?-some [] i h = elim h [ ]
get_elem?-some (x ∷ d) zero h = (x, refl)
get_elem?-some (x ∷ d) (suc i) h = get_elem?-some d i (omega arith)

module _ (S : Store) (object : Bytes → S.State → Option Bytes) where
  -- The extent has bytes, and its chunk has each of them.
  pub record IsBacked (cs : ChunkStore S) (e : Extent) : Type 0 where
    pub filled : 0 < e.len
    pub bytes :
        (k : ℕ)
        → k < e.len
        → (b : ℕ) × (chunk_byte S object e.chunk_id (e.chunk_offset + k) cs ≡ some b)

  -- No chunk is longer than an int64 can say. Of the active one, the buffer counts, and not what a
  -- failed Put may have left in the store.
  abbrev pub IsMeasured : ChunkStore S → Type 0
  IsMeasured cs =
      (length cs.active_buf < 2 ^ 63)
      × ((id d : Bytes)
          → (id == cs.active_id) ≡ false
          → object id cs.store ≡ some d
          → length d < 2 ^ 63)

  pub measured_chunk :
      (cs : ChunkStore S) (id d : Bytes)
      → IsMeasured cs
      → chunk_bytes S object id cs ≡ some d
      → length d < 2 ^ 63
  measured_chunk cs id d m h = ground (arith, m.0, m.1 id d)

  -- The cache holds nothing up.
  pub cache-IsBacked :
      (cs : ChunkStore S) (c : Option Cache) (es : List Extent)
      → All (IsBacked cs) es
      → All (IsBacked (record cs { cache = c })) es
  cache-IsBacked cs c [] h = tt
  cache-IsBacked cs c (e ∷ es) h =
      (record { filled = h.0.filled; bytes = h.0.bytes }, cache-IsBacked cs c es h.1)

  module _ (cs : ChunkStore S) where
    head_of-IsBacked :
        (ext e : Extent)
        → IsBacked cs e
        → e.file_offset < ext.file_offset
        → ext.file_offset < e.file_offset + e.len
        → IsBacked cs (head_of ext e)
    head_of-IsBacked ext e b h k = record {
      filled = omega (arith, h);
      bytes = λ i s. b.bytes i (omega (arith, s, h, k));
    }

    tail_of-IsBacked :
        (ext e : Extent)
        → IsBacked cs e
        → e.file_offset < ext.file_offset + ext.len
        → ext.file_offset + ext.len < e.file_offset + e.len
        → IsBacked cs (tail_of ext e)
    tail_of-IsBacked ext e b h k = record {
      filled = omega (arith, k);
      bytes = λ i s.
          let d = ext.file_offset + ext.len - e.file_offset in
          let (x, held) = b.bytes (d + i) (omega (arith, s, h, k)) in
          (
            x,
            ap (λ (n : ℕ). chunk_byte S object e.chunk_id n cs)
                  (let same : e.chunk_offset + d + i ≡ e.chunk_offset + (d + i) = omega arith in
                    same)
                ∙ held,
          );
    }

    -- A shorter file needs fewer bytes.
    pub trim-IsBacked :
        (size : ℕ) (es : List Extent)
        → size < 2 ^ 63
        → All Fits es
        → All (IsBacked cs) es
        → All (IsBacked cs) (trim size es)
    unfolding trim
    trim-IsBacked size [] h k b = tt
    trim-IsBacked size (e ∷ es) h k b =
        let rest = trim-IsBacked size es h k.1 b.1 in
        elim (Bool-cases (le64 size e.file_offset)) [
          | inl beyond ↦ rw (trim, beyond) rest
          | inr starts ↦ elim (Bool-cases (lt64 size (add64 e.file_offset e.len))) [
            | inr ends ↦ rw (trim, starts, ends) (b.0, rest)
            | inl cut ↦
                let start : e.file_offset < size =
                  ground (arith, le64-eq size e.file_offset, k.0) in
                let stop : size < e.file_offset + e.len = ground (
                  arith,
                  add64-eq e.file_offset e.len,
                  lt64-eq size (e.file_offset + e.len),
                  k.0,
                ) in
                rw (trim, starts, cut, sub64-eq size e.file_offset (omega (arith, start)) h)
                  (
                    record {
                      filled = omega (arith, start);
                      bytes = λ i s. b.0.bytes i (omega (arith, s, start, stop));
                    },
                    rest,
                  )
          ]
        ]

    if_kept :
        (t : Bool) (e : Extent)
        → (t ≡ true → IsBacked cs e)
        → All (IsBacked cs) (if t then e ∷ [] else [])
    if_kept true e h = (h refl, tt)
    if_kept false e h = tt

    module _ (ext : Extent) (h : Fits ext) where
      pieces-IsBacked : (e : Extent) → Fits e → IsBacked cs e → All (IsBacked cs) (pieces ext e)
      unfolding exact_pieces
      pieces-IsBacked e k b =
          rw (pieces-exact ext e h k)
            (elim (Bool-cases (
              leb (e.file_offset + e.len) ext.file_offset
              || leb (ext.file_offset + ext.len) e.file_offset)) [
                | inl clear ↦ rw (exact_pieces, clear) (b, tt)
                | inr meets ↦
                    rw (exact_pieces, meets)
                      (All-append (IsBacked cs) _ _
                        (if_kept (ltb e.file_offset ext.file_offset) (head_of ext e)
                          (λ t. head_of-IsBacked ext e b (ground arith) (ground arith)))
                        (if_kept (ltb (ext.file_offset + ext.len) (e.file_offset + e.len))
                          (tail_of ext e)
                          (λ t. tail_of-IsBacked ext e b (ground arith) (ground arith))))
              ])

      carve-IsBacked :
          (es : List Extent) → All Fits es → All (IsBacked cs) es → All (IsBacked cs) (carve ext es)
      unfolding carve
      carve-IsBacked [] k b = tt
      carve-IsBacked (e ∷ es) k b =
          All-append (IsBacked cs) (pieces ext e) (carve ext es) (pieces-IsBacked e k.0 b.0)
            (carve-IsBacked es k.1 b.1)

      pub write_list-IsBacked :
          (spare : ℕ) (es : List Extent)
          → All Fits es
          → CutsInPlace ext es
          → All (IsBacked cs) es
          → IsBacked cs ext
          → All (IsBacked cs) (write_list spare ext es)
      write_list-IsBacked spare es k c b x =
          rw (write_list-carve spare ext es c)
            (All-append (IsBacked cs) (carve ext es) (ext ∷ []) (carve-IsBacked es k b) (x, tt))

  module _ (law : IsLawful S object) (d : Bytes) (file_offset : ℕ) (cs : ChunkStore S)
      (fresh : IsFresh S object cs) where
    pub append-AllBacked :
        (es : List Extent) → All (IsBacked cs) es → All (IsBacked (append S d file_offset cs).0) es
    append-AllBacked [] h = tt
    append-AllBacked (e ∷ es) h = (
      record {
        filled = h.0.filled;
        bytes = λ k s.
            let (b, held) = h.0.bytes k s in
            (
              b,
              chunk_byte-append S object law d file_offset cs fresh e.chunk_id (e.chunk_offset + k)
                  b held,
            );
      },
      append-AllBacked es h.1,
    )

    pub append-IsBacked :
        (ext : Extent)
        → 0 < length d
        → (append S d file_offset cs).1 ≡ ok ext
        → IsBacked (append S d file_offset cs).0 ext
    append-IsBacked ext h stored =
        let (at, len) = extent-append S object law d file_offset cs fresh ext stored in
        record {
          filled = omega (arith, len, h);
          bytes = λ k s.
              let (b, held) = get_elem?-some d k (omega (arith, s, len)) in
              (b, stored-append S object law d file_offset cs fresh ext k stored ∙ held);
        }

    -- Whether or not the store takes the chunk.
    seal-IsMeasured : 0 < length cs.active_buf → IsMeasured cs → IsMeasured (seal S cs).0
    unfolding seal
    seal-IsMeasured some_bytes m = (
      ground (arith, m.0),
      λ id e other h. ground (
        arith,
        m.0,
        m.1 id e,
        bytes_beq_iff cs.active_id id,
        bytes_beq_iff id cs.active_id,
        law.object-put cs.active_id cs.active_buf id cs.store,
        law.object-put_ne cs.active_id cs.active_buf id cs.store,
      ),
    )

    -- Append, whatever its outcome, leaves no chunk that is too long.
    pub append-IsMeasured :
        WithinLimit S object cs
        → length d < 2 ^ 62
        → IsMeasured cs
        → IsMeasured (append S d file_offset cs).0
    unfolding append
    append-IsMeasured within size m =
        let room : lt64 cs.max_chunk_size (length d) ≡ false
            → lt64 cs.max_chunk_size (add64 (length cs.active_buf) (length d)) ≡ true
            → 0 < length cs.active_buf =
          λ fits full. ground (arith, add64-eq (length cs.active_buf) (length d)) in
        (
          ground (arith, append-WithinLimit S object law d file_offset cs fresh within size),
          λ id e other h. ground (
            arith,
            m.1 id e,
            λ (a : lt64 cs.max_chunk_size (length d) ≡ false)
                  (b : lt64 cs.max_chunk_size (add64 (length cs.active_buf) (length d)) ≡ true).
                (seal-IsMeasured (room a b) m).1 id e,
          ),
        )
