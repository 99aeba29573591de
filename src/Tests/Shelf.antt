-- ===== src/Tests/Shelf.antt =====
-- A store of objects in an association list, which keeps what the interface promises.
use fusey.Base.{
  ℕ, Bytes, true, Option, none, some, [], ◌∷◌, refl, arith, map, length, bytes_key, bytes_beq_iff,
}
use fusey.Map.{Map, lookup, insert, delete, lookup-insert, lookup-delete}
use fusey.Chunks.Store.{Store, IsLawful, slice}
use fusey.Chunks.ChunkStore
use fusey.Chunks.ChunkStore.{ChunkStore}
use fusey.Chunks.AppendOnly.{IsFresh, WithinLimit}
use fusey.Chunks.Starting.{new-IsFresh, new-WithinLimit}

abbrev pub slice_of : ℕ → ℕ → Option Bytes → Option Bytes
slice_of offset len none = none
slice_of offset len (some d) = some (slice offset len d)

abbrev pub size_of : Option Bytes → Option ℕ
size_of none = none
size_of (some d) = some (length d)

abbrev pub shelf : Store
shelf = record {
  State = Map Bytes Bytes;
  put = λ id d s. (insert id d s, true);
  get_range = λ id offset len s. slice_of offset len (lookup id s);
  delete = λ id s. (delete id s, true);
  list = λ s. some (map (λ (id, d). id) s);
  size = λ id s. size_of (lookup id s);
}

abbrev pub on_shelf : Bytes → Map Bytes Bytes → Option Bytes
on_shelf id s = lookup id s

pub shelf-IsLawful : IsLawful shelf on_shelf
shelf-IsLawful = record {
  object-put = λ id d j s done. lookup-insert id j d s;
  object-put_ne = λ id d j s other. ground (arith, lookup-insert id j d s, bytes_beq_iff id j);
  get_range-object = λ id offset len s d r held fits some_bytes read. ground arith;
  size-object = λ id s n d sized held. ground arith;
  object-delete_ne = λ id j s other. ground (arith, lookup-delete id j s, bytes_beq_iff id j);
}

-- A chunk store with chunks of at most 8 bytes.
abbrev pub empty_chunks : ChunkStore shelf
empty_chunks = ChunkStore.new shelf [] 8

pub empty_chunks-IsFresh : IsFresh shelf on_shelf empty_chunks
unfolding lookup
empty_chunks-IsFresh = new-IsFresh shelf on_shelf [] 8 (λ n. refl)

pub empty_chunks-WithinLimit : WithinLimit shelf on_shelf empty_chunks
empty_chunks-WithinLimit = new-WithinLimit shelf on_shelf [] 8 (omega arith)

-- "hello"
abbrev pub hello : Bytes
hello = b'h' ∷ b'e' ∷ b'l' ∷ b'l' ∷ b'o' ∷ []
