-- ===== src/Chunks/AppendOnly.antt =====
-- The bytes of chunks, and what Append does to them.
use Prim.Native.Nat.{ℕ}
use fusey.Base.{
  ◌+◌, ◌^◌, ◌<◌, ◌≤◌, Bytes, false, Option, none, some, [], ◌∷◌, ◌≡◌, arith, ◌==◌, nat_key,
  bytes_key, bytes_beq_iff, if◌then◌else◌, length, length-append, ok, get_elem?,
  get_elem?-append_left, get_elem?-append_right, zero, suc,
}
use fusey.Base.Word.{add64-eq, lt64-eq}
use fusey.Index.Types.{Extent}
use fusey.Chunks.Ids.{chunk_id}
use fusey.Chunks.Ids.RoundTrip.{chunk_id-injective}
use fusey.Chunks.Store.{Store, IsLawful}
use fusey.Chunks.ChunkStore.{ChunkStore, seal, append, extend}

pub get_elem?-lt : (d : Bytes) (i b : ℕ) → get_elem? d i ≡ some b → i < length d
get_elem?-lt [] i b h = ground arith
get_elem?-lt (x ∷ d) zero b h = omega arith
get_elem?-lt (x ∷ d) (suc i) b h = omega (arith, get_elem?-lt d i b h)

module _ (S : Store) (object : Bytes → S.State → Option Bytes) where
  -- The bytes of a chunk: the buffer of the active one, the object of any other.
  abbrev pub chunk_bytes : Bytes → ChunkStore S → Option Bytes
  chunk_bytes id cs = if id == cs.active_id then some cs.active_buf else object id cs.store

  abbrev pub byte_at : Option Bytes → ℕ → Option ℕ
  byte_at none i = none
  byte_at (some d) i = get_elem? d i

  abbrev pub chunk_byte : Bytes → ℕ → ChunkStore S → Option ℕ
  chunk_byte id i cs = byte_at (chunk_bytes id cs) i

  -- An ID that is still to be given is neither that of an object nor of the active chunk.
  pub record IsFresh (cs : ChunkStore S) : Type 0 where
    pub active : (n : ℕ) → cs.next_seq ≤ n → (chunk_id n == cs.active_id) ≡ false
    pub unused : (n : ℕ) → cs.next_seq ≤ n → object (chunk_id n) cs.store ≡ none

  -- The active chunk keeps within the size limit.
  abbrev pub WithinLimit : ChunkStore S → Type 0
  WithinLimit cs = (length cs.active_buf ≤ cs.max_chunk_size) × (cs.max_chunk_size < 2 ^ 62)

  -- Sealing, when the store takes the chunk.
  module _ (law : IsLawful S object) (cs : ChunkStore S) (fresh : IsFresh cs) where
    new_ids_differ : (m n : ℕ) → m < n → (chunk_id n == chunk_id m) ≡ false
    new_ids_differ m n h =
        ground (arith, chunk_id-injective n m, bytes_beq_iff (chunk_id n) (chunk_id m))

    -- Whether or not the store takes the chunk.
    seal-IsFresh : IsFresh (seal S cs).0
    unfolding seal
    seal-IsFresh = record {
      active = λ n h. ground (arith, fresh.active n, new_ids_differ cs.next_seq n);
      unused = λ n h. ground (
        arith,
        fresh.active n,
        fresh.unused n,
        bytes_beq_iff cs.active_id (chunk_id n),
        bytes_beq_iff (chunk_id n) cs.active_id,
        law.object-put cs.active_id cs.active_buf (chunk_id n) cs.store,
        law.object-put_ne cs.active_id cs.active_buf (chunk_id n) cs.store,
      );
    }

    chunk_byte-seal :
        (id : Bytes) (i b : ℕ)
        → chunk_byte id i cs ≡ some b
        → chunk_byte id i (seal S cs).0 ≡ some b
    unfolding seal
    chunk_byte-seal id i b h = ground (
      arith,
      fresh.unused cs.next_seq,
      fresh.active cs.next_seq,
      bytes_beq_iff id cs.active_id,
      bytes_beq_iff cs.active_id id,
      bytes_beq_iff id (chunk_id cs.next_seq),
      law.object-put cs.active_id cs.active_buf id cs.store,
      law.object-put_ne cs.active_id cs.active_buf id cs.store,
    )

    limit-seal :
        ((seal S cs).0.max_chunk_size ≡ cs.max_chunk_size)
        × (length (seal S cs).0.active_buf ≤ length cs.active_buf)
        × ((seal S cs).1 ≡ ok tt → (seal S cs).0.active_buf ≡ [])
    unfolding seal
    limit-seal = ground arith

  module _ (d : Bytes) (file_offset : ℕ) (cs : ChunkStore S) where
    chunk_byte-extend :
        (id : Bytes) (i b : ℕ)
        → chunk_byte id i cs ≡ some b
        → chunk_byte id i (extend S d file_offset cs).0 ≡ some b
    chunk_byte-extend id i b h =
        ground (arith, get_elem?-append_left cs.active_buf d i, get_elem?-lt cs.active_buf i b)

    stored-extend :
        (i : ℕ)
        → chunk_byte cs.active_id (length cs.active_buf + i) (extend S d file_offset cs).0
          ≡ get_elem? d i
    stored-extend i =
        ground
          (arith, get_elem?-append_right cs.active_buf d i, bytes_beq_iff cs.active_id cs.active_id)

  module _ (law : IsLawful S object) (d : Bytes) (file_offset : ℕ) (cs : ChunkStore S)
      (fresh : IsFresh cs) where
    -- Append, whatever its outcome, leaves no object under an unused chunk ID, if that is so
    -- before and the store is lawful.
    pub append-IsFresh : IsFresh (append S d file_offset cs).0
    unfolding append
    append-IsFresh = record {
      active = λ n h. ground (arith, fresh.active n, (seal-IsFresh law cs fresh).active n);
      unused = λ n h. ground (arith, fresh.unused n, (seal-IsFresh law cs fresh).unused n);
    }

    -- Append, whatever its outcome, keeps every byte of every chunk, if the store is lawful and
    -- unused chunk IDs are fresh.
    pub chunk_byte-append :
        (id : Bytes) (i b : ℕ)
        → chunk_byte id i cs ≡ some b
        → chunk_byte id i (append S d file_offset cs).0 ≡ some b
    unfolding append
    chunk_byte-append id i b h = ground (
      arith,
      chunk_byte-seal law cs fresh id i b h,
      chunk_byte-extend d file_offset cs id i b h,
      chunk_byte-extend d file_offset (seal S cs).0 id i b,
    )

    pub extent-append :
        (ext : Extent)
        → (append S d file_offset cs).1 ≡ ok ext
        → (ext.file_offset ≡ file_offset) × (ext.len ≡ length d)
    unfolding append
    extent-append ext done = (ground arith, ground arith)

    -- The extent that a successful Append returns is where the data can be read from: its byte at
    -- an index of the data is the data's, and it has none beyond the end of the data; if the
    -- store is lawful and unused chunk IDs are fresh.
    pub stored-append :
        (ext : Extent) (i : ℕ)
        → (append S d file_offset cs).1 ≡ ok ext
        → chunk_byte ext.chunk_id (ext.chunk_offset + i) (append S d file_offset cs).0
          ≡ get_elem? d i
    unfolding append
    stored-append ext i done =
        ground
          (arith, stored-extend d file_offset cs i, stored-extend d file_offset (seal S cs).0 i)

    -- Append, whatever its outcome, keeps the active chunk within the size limit, if the store is
    -- lawful, unused chunk IDs are fresh and the data is shorter than 2 ^ 62.
    pub append-WithinLimit :
        WithinLimit cs → length d < 2 ^ 62 → WithinLimit (append S d file_offset cs).0
    unfolding append
    append-WithinLimit within size = ground (
      arith,
      limit-seal law cs fresh,
      length-append cs.active_buf d,
      length-append (seal S cs).0.active_buf d,
      lt64-eq cs.max_chunk_size (length d),
      lt64-eq cs.max_chunk_size (length cs.active_buf + length d),
      add64-eq (length cs.active_buf) (length d),
    )

    -- The extent that a successful Append returns ends within the size limit of chunks, if the
    -- store is lawful, unused chunk IDs are fresh, the active chunk keeps to the limit and the
    -- data is shorter than 2 ^ 62.
    pub bounds-append :
        (ext : Extent)
        → WithinLimit cs
        → length d < 2 ^ 62
        → (append S d file_offset cs).1 ≡ ok ext
        → ext.chunk_offset + ext.len ≤ cs.max_chunk_size
    unfolding append
    bounds-append ext within size done = ground (
      arith,
      limit-seal law cs fresh,
      lt64-eq cs.max_chunk_size (length d),
      lt64-eq cs.max_chunk_size (length cs.active_buf + length d),
      add64-eq (length cs.active_buf) (length d),
    )
