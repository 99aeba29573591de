-- ===== src/Tests/Bucket.antt =====
-- A bucket in memory, with a key on the first page of a listing and the others on the second.
use fusey.Base.{
  ℕ, zero, suc, ◌+◌, ◌-◌, ◌^◌, ◌<◌, Bytes, Bool, true, false, Option, none, some, List, [], ◌∷◌,
  ◌++◌, ◌≡◌, ◌⊎◌, refl, arith, ltb, if◌then◌else◌, map, length, bytes_key, bytes_beq_iff, take,
  take_all, ap, ◌∙◌, ◌==◌, Option-cases, Bool-cases, inl, inr,
}
use fusey.Map.{Map, lookup, insert, delete, lookup-insert, lookup-delete}
use fusey.Chunks.Ids.{chunk_id, cut_prefix}
use fusey.Chunks.Store.{IsLawful, IsComplete, slice}
use fusey.Chunks.S3.{
  Client, S3Store, Got, refused, received, no_such_key, Page, listed, failed, client_options,
  page_ids, to_bool, s3_list, list_pages, s3_index_key, index_name, trim_prefix, chunk_key,
}
use fusey.Chunks.S3.Listing.{IsPaged, IsUnder, other_keys, s3_list_done}
use fusey.Chunks.S3.Storing.{IsS3, s3_store, s3_object}
use fusey.Chunks.S3.Promises.{has_key, s3_store-keeps_promises}
use fusey.Index.Content.{All}
use fusey.Index.Links.{is_some}
use fusey.Chunks.Ids.RoundTrip.{cut_prefix-append}
use fusey.Tests.Samples.{program}
use fusey.Daemon.Persisting.{IsRawLawful}
use fusey.Daemon.Bucket.{s3_objects, s3_objects-IsRawLawful}

abbrev fits : Bytes → Bool
fits d = ltb (length d) (2 ^ 62)

-- An object that is too large is none.
abbrev when_small : Option Bytes → Option Bytes
when_small none = none
when_small (some d) = if fits d then some d else none

abbrev in_bucket : Bytes → Map Bytes Bytes → Option Bytes
in_bucket key w = when_small (lookup key w)

abbrev part : Option (ℕ × ℕ) → Option Bytes → Got
part range none = refused no_such_key
part none (some d) = received (some d)
part (some (first, last)) (some d) = received (some (slice first (last + 1 - first) d))

abbrev size_of : Option Bytes → Option (Option ℕ)
size_of none = none
size_of (some d) = some (some (length d))

abbrev keys_from : Option Bytes → List (Option Bytes) → List (Option Bytes)
keys_from none keys = keys
keys_from (some token) [] = []
keys_from (some token) (key ∷ keys) = keys

abbrev page_from : Option Bytes → List (Option Bytes) → Page
page_from none [] = record { contents = []; is_truncated = none; next_token = none }
page_from none (key ∷ keys) = record {
  contents = key ∷ [];
  is_truncated = some true;
  next_token = some [];
}
page_from (some token) keys = record {
  contents = keys_from (some token) keys;
  is_truncated = some false;
  next_token = none;
}

-- The keys that begin with the prefix.
unfoldable keys_under : Bytes → Map Bytes Bytes → List (Option Bytes)
keys_under prefix [] = []
keys_under prefix ((key, d) ∷ w) = elim (cut_prefix prefix key) [
  | none ↦ keys_under prefix w
  | some id ↦ some (prefix ++ id) ∷ keys_under prefix w
]

abbrev memory : Client
memory = record {
  World = Map Bytes Bytes;
  put = λ bucket key d w. if fits d then (insert key d w, true) else (w, false);
  delete = λ bucket key w. (delete key w, true);
  get = λ bucket key range w. part range (in_bucket key w);
  head = λ bucket key w. size_of (in_bucket key w);
  list = λ bucket prefix token w. some (page_from token (keys_under prefix w));
  accepts = λ options. true;
}

-- "p/" of the bucket "b"
abbrev pods : S3Store
pods = record {
  options = client_options [] [] [] [] false;
  bucket = b'b' ∷ [];
  prefix = b'p' ∷ b'/' ∷ [];
}

memory-IsS3 : IsS3 memory pods in_bucket
memory-IsS3 = record {
  held-put = λ key d w done. ground (arith, lookup-insert key key d w, bytes_beq_iff key key);
  held-put_ne = λ key d j w other. ground (arith, lookup-insert key j d w, bytes_beq_iff key j);
  held-delete = λ key w done. ground (arith, lookup-delete key key w, bytes_beq_iff key key);
  held-delete_ne = λ key j w other. ground (arith, lookup-delete key j w, bytes_beq_iff key j);
  ranged = λ key d r first last w has order inside got. ground arith;
  ranged_empty = λ key r range w has got. empty_part range r (rw (← has) got);
  whole = λ key d r w has got. ground arith;
  found = λ key d e w has got. absurd (ground arith);
  measured = λ key d n w has got. ground arith;
  small = λ key d w has. small_object (lookup key w) d has;
}
  where
    no_part : (n : ℕ) → take {A = ℕ} n [] ≡ []
    no_part n = take_all {A = ℕ} n [] (omega arith)

    empty_part :
        (range : Option (ℕ × ℕ)) (r : Bytes) → part range (some []) ≡ received (some r) → r ≡ []
    empty_part none r h = ground arith
    empty_part (some (zero, last)) r h = ground (arith, no_part (last + 1 - 0))
    empty_part (some (suc first, last)) r h = ground (arith, no_part (last + 1 - suc first))

    small_object : (o : Option Bytes) (d : Bytes) → when_small o ≡ some d → length d < 2 ^ 62
    small_object none d h = ground arith
    small_object (some e) d h = ground arith

all-IsUnder : (w : Map Bytes Bytes) → All (IsUnder pods.prefix) (keys_under pods.prefix w)
unfolding keys_under
all-IsUnder [] = tt
all-IsUnder ((key, d) ∷ w) = elim (Option-cases (cut_prefix pods.prefix key)) [
  | inl outside ↦ rw (keys_under, outside) (all-IsUnder w)
  | inr (id, cut) ↦ rw (keys_under, cut) ((id, refl), all-IsUnder w)
]

memory-IsPaged : IsPaged memory pods (λ token w. keys_from token (keys_under pods.prefix w))
memory-IsPaged = record {
  under = λ w. all-IsUnder w;
  last_page = λ token w page got last. one_page token (keys_under pods.prefix w) page got last;
  full_page = λ token w page got more. two_pages token (keys_under pods.prefix w) page got more;
}
  where
    one_page :
        (token : Option Bytes) (keys : List (Option Bytes)) (page : Page)
        → some (page_from token keys) ≡ some page
        → to_bool page.is_truncated ≡ false
        → keys_from token keys ≡ page.contents
    one_page none [] page got last = ground arith
    one_page none (key ∷ keys) page got last = ground arith
    one_page (some token) keys page got last = ground arith

    two_pages :
        (token : Option Bytes) (keys : List (Option Bytes)) (page : Page)
        → some (page_from token keys) ≡ some page
        → to_bool page.is_truncated ≡ true
        → (keys_from token keys ≡ page.contents ++ keys_from page.next_token keys)
          × (0 < length page.contents)
    two_pages none [] page got more = ground arith
    two_pages none (key ∷ keys) page got more = ground arith
    two_pages (some token) keys page got more = ground arith

abbrev one_page_more : Map Bytes Bytes → ℕ
one_page_more w = length (keys_under pods.prefix w) + 1

-- Every key that is held is listed.
listed_under :
    (id : Bytes) (w : Map Bytes Bytes)
    → is_some (lookup (chunk_key pods id) w) ≡ true
    → has_key (chunk_key pods id) (keys_under pods.prefix w) ≡ true
unfolding keys_under lookup chunk_key
listed_under id [] h = absurd (ground arith)
listed_under id ((key, d) ∷ w) h = elim (Bool-cases (key == pods.prefix ++ id)) [
  | inl here ↦
      let e : key ≡ pods.prefix ++ id = (bytes_beq_iff key (pods.prefix ++ id)).0 here in
      let cut = ap (cut_prefix pods.prefix) e ∙ cut_prefix-append pods.prefix id in
      rw (keys_under, cut) (ground (arith, bytes_beq_iff (pods.prefix ++ id) (pods.prefix ++ id)))
  | inr other ↦ elim (Option-cases (cut_prefix pods.prefix key)) [
    | inl outside ↦ rw (keys_under, outside) (listed_under id w (ground arith))
    | inr (found, cut) ↦ rw (keys_under, cut) (ground (arith, listed_under id w (ground arith)))
  ]
]

held_there : (o : Option Bytes) (d : Bytes) → when_small o ≡ some d → is_some o ≡ true
held_there none d h = ground arith
held_there (some e) d h = refl

s3_store-keeps_promises_example :
    IsLawful
      (s3_store memory pods one_page_more)
      (s3_object memory pods in_bucket memory-IsS3 one_page_more)
    × IsComplete
        (s3_store memory pods one_page_more)
        (s3_object memory pods in_bucket memory-IsS3 one_page_more)
s3_store-keeps_promises_example =
    s3_store-keeps_promises memory pods in_bucket memory-IsS3 one_page_more
      (λ token w. keys_from token (keys_under pods.prefix w)) memory-IsPaged
      (λ id d w h. listed_under id w (held_there (lookup (chunk_key pods id) w) d h))
      (λ w. omega arith)

s3_objects-IsRawLawful_example :
    IsRawLawful
      (s3_objects memory pods one_page_more)
      (s3_object memory pods in_bucket memory-IsS3 one_page_more)
      in_bucket
s3_objects-IsRawLawful_example =
    s3_objects-IsRawLawful memory pods in_bucket memory-IsS3 one_page_more

-- A chunk, the index, and another chunk.
abbrev stored_pods : Map Bytes Bytes
stored_pods =
    (chunk_key pods (chunk_id 0), [])
    ∷ (chunk_key pods index_name, [])
    ∷ (chunk_key pods (chunk_id 1), [])
    ∷ []

s3_list_done_example :
    (s3_list memory pods 4 stored_pods ≡ failed)
    ⊎ ((ids : List Bytes) × (s3_list memory pods 4 stored_pods ≡ listed ids)
        × (map (chunk_key pods) ids
            ≡ other_keys (s3_index_key pods) (keys_under pods.prefix stored_pods)))
unfolding program s3_list list_pages keys_under cut_prefix chunk_key
s3_list_done_example =
    s3_list_done memory pods (λ token w. keys_from token (keys_under pods.prefix w)) memory-IsPaged
      stored_pods 4 (omega arith)

both_chunks : s3_list memory pods 4 stored_pods ≡ listed (chunk_id 0 ∷ chunk_id 1 ∷ [])
unfolding program s3_list list_pages keys_under page_ids trim_prefix cut_prefix chunk_key
both_chunks = refl
