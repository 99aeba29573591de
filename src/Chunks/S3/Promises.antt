-- ===== src/Chunks/S3/Promises.antt =====
-- The rest of what the interface of the object store promises, for the store in a bucket: Delete, and
-- List of the chunks.
use fusey.Base.{
  ℕ, ◌<◌, Bytes, Bool, true, false, Option, none, some, List, [], ◌∷◌, ◌≡◌, ◌≢◌, ◌||◌, refl, arith,
  ap, sym, ◌∙◌, ◌==◌, bytes_key, bytes_beq_iff, length, map, inl, inr, Bool-cases,
}
use fusey.Chunks.Ids.{chunk_id, cut_prefix, chunk_id_prefix}
use fusey.Chunks.Ids.RoundTrip.{cut_prefix-append}
use fusey.Chunks.Store.{IsLawful, IsComplete, has}
use fusey.Chunks.S3.Defs.{Client, S3Store, chunk_key, index_name, s3_index_key, s3_delete, s3_list}
use fusey.Chunks.S3.Listing.{IsPaged, other_keys, s3_list_done}
use fusey.Chunks.S3.Storing.{
  ids_of, s3_store, IsS3, s3_object, s3_store-IsLawful, chunk_key-injective,
}

-- No chunk has the name of the index.
pub chunk_id-ne-index_name : (n : ℕ) → index_name ≢ chunk_id n
unfolding chunk_id cut_prefix
chunk_id-ne-index_name n h = absurd (
    let parted : cut_prefix chunk_id_prefix index_name ≡ cut_prefix chunk_id_prefix (chunk_id n) =
      ap (cut_prefix chunk_id_prefix) h in
    cc (parted ∙ cut_prefix-append chunk_id_prefix _))

abbrev pub has_key : Bytes → List (Option Bytes) → Bool
has_key key [] = false
has_key key (none ∷ keys) = has_key key keys
has_key key (some k ∷ keys) = key == k || has_key key keys

has-other_keys :
    (out key : Bytes) (keys : List (Option Bytes))
    → key ≢ out
    → has_key key keys ≡ true
    → has key (other_keys out keys) ≡ true
unfolding other_keys
has-other_keys out key [] other h = absurd (ground arith)
has-other_keys out key (none ∷ keys) other h = has-other_keys out key keys other h
has-other_keys out key (some k ∷ keys) other h = elim (Bool-cases (k == out)) [
  | inl dropped ↦ elim (Bool-cases (key == k)) [
    | inl same ↦ absurd (other ((bytes_beq_iff key k).0 same ∙ (bytes_beq_iff k out).0 dropped))
    | inr differ ↦ rw (other_keys, dropped) (has-other_keys out key keys other (ground arith))
  ]
  | inr kept ↦ elim (Bool-cases (key == k)) [
    | inl same ↦ rw (other_keys, kept, same) refl
    | inr differ ↦ rw (other_keys, kept, differ) (has-other_keys out key keys other (ground arith))
  ]
]

module _ (C : Client) (s : S3Store) where
  has-chunk_key :
      (id : Bytes) (ids : List Bytes)
      → has (chunk_key s id) (map (chunk_key s) ids) ≡ true
      → has id ids ≡ true
  has-chunk_key id [] h = absurd (ground arith)
  has-chunk_key id (x ∷ ids) h = elim (Bool-cases (id == x)) [
    | inl same ↦ ground arith
    | inr other ↦ elim (Bool-cases (chunk_key s id == chunk_key s x)) [
      | inl same ↦
          let e =
            chunk_key-injective C s id x
              ((bytes_beq_iff (chunk_key s id) (chunk_key s x)).0 same) in
          absurd (ground (arith, bytes_beq_iff id x))
      | inr apart ↦ ground (arith, has-chunk_key id ids)
    ]
  ]

  module _ (held : Bytes → C.World → Option Bytes) (law : IsS3 C s held) (pages : C.World → ℕ)
      (rest : Option Bytes → C.World → List (Option Bytes)) (paged : IsPaged C s rest)
      (complete : (id d : Bytes) (w : C.World)
        → held (chunk_key s id) w ≡ some d
        → has_key (chunk_key s id) (rest none w) ≡ true)
      (enough : (w : C.World) → length (rest none w) < pages w) where
    listed_all :
        (n : ℕ) (d : Bytes) (w : C.World) (ids : List Bytes)
        → ids_of (s3_list C s (pages w) w) ≡ some ids
        → held (chunk_key s (chunk_id n)) w ≡ some d
        → has (chunk_id n) ids ≡ true
    unfolding s3_index_key
    listed_all n d w ids got there = elim (s3_list_done C s rest paged w (pages w) (enough w)) [
      | inl lost ↦ absurd (ground arith)
      | inr (found, e, keys) ↦
          let same : found ≡ ids = ground arith in
          let chunk : chunk_key s (chunk_id n) ≢ s3_index_key s = λ k.
            chunk_id-ne-index_name n
              (sym (chunk_key-injective C s (chunk_id n) index_name (unfold chunk_key in k))) in
          let here =
            has-other_keys (s3_index_key s) (chunk_key s (chunk_id n)) (rest none w) chunk
              (complete (chunk_id n) d w there) in
          rw (← same)
            (has-chunk_key (chunk_id n) found (ap (has (chunk_key s (chunk_id n))) keys ∙ here))
    ]

    -- The store in an S3 bucket keeps the promises of the object store's interface for Put,
    -- GetRange, Delete and Size, and List, if it does not fail, has the IDs of all chunks: if S3
    -- does what it documents, no object has 2 ^ 62 bytes, every key that is held is listed, and
    -- List may take more pages than there are keys.
    pub s3_store-keeps_promises :
        IsLawful (s3_store C s pages) (s3_object C s held law pages)
        × IsComplete (s3_store C s pages) (s3_object C s held law pages)
    unfolding s3_delete
    s3_store-keeps_promises = (
      s3_store-IsLawful C s held law pages,
      record {
        object-delete = λ id w done. law.held-delete (chunk_key s id) w done;
        list-object = λ n d w ids got there. listed_all n d w ids got there;
      },
    )
