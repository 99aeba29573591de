-- ===== src/Chunks/S3/Defs.antt =====
-- S3Store and its methods. The AWS client is a parameter: what it answers is a function of the state
-- of the bucket's service, which only puts and deletes change.
use fusey.Base.{
  ℕ, zero, suc, Bytes, Bool, true, false, Option, none, some, List, [], ◌∷◌, ◌++◌, ◌==◌, ◌&&◌, not,
  nat_key, bytes_key, if◌then◌else◌, Result, ok, err, object_not_found, store_failure,
}
use fusey.Base.Word.{add64, sub64}
use fusey.Chunks.Ids.{cut_prefix}

-- The errors of the client that isS3NotFound tells apart: NoSuchKey, any other with an HTTP status, and
-- the rest.
pub data ClientError : Type 0 where
  no_such_key : ClientError
  http_status : ℕ → ClientError
  other_error : ClientError

-- What GetObject answers: an error, or the body, which is none if reading it fails.
pub data Got : Type 0 where
  refused : ClientError → Got
  received : Option Bytes → Got

-- ListObjectsV2Output: the keys, which are pointers, and whether and where the listing goes on.
pub record Page : Type 0 where
  pub contents : List (Option Bytes)
  pub is_truncated : Option Bool
  pub next_token : Option Bytes

-- The options that NewS3Store sets; an empty string is an option that is not set.
pub record ClientOptions : Type 0 where
  pub region : Bytes
  pub credentials : Option (Bytes × Bytes)
  pub base_endpoint : Option Bytes
  pub use_path_style : Bool

pub record Client : Type 1 where
  pub World : Type 0
  -- `true` is success.
  pub put : (bucket key body : Bytes) → World → World × Bool
  pub delete : (bucket key : Bytes) → World → World × Bool
  -- The range is the two numbers of the Range header.
  pub get : (bucket key : Bytes) → (range : Option (ℕ × ℕ)) → World → Got
  -- HeadObject: the content length, if there is one.
  pub head : (bucket key : Bytes) → World → Option (Option ℕ)
  pub list : (bucket prefix : Bytes) → (token : Option Bytes) → World → Option Page
  -- Whether LoadDefaultConfig accepts the options.
  pub accepts : ClientOptions → Bool

pub record S3Store : Type 0 where
  pub options : ClientOptions
  pub bucket : Bytes
  pub prefix : Bytes

abbrev is_set : Bytes → Bool
is_set [] = false
is_set _ = true

-- Static credentials need both keys.
unfoldable pub client_options : Bytes → Bytes → Bytes → Bytes → Bool → ClientOptions
client_options endpoint region access_key secret_key path_style = record {
  region = region;
  credentials =
      if is_set access_key && is_set secret_key then some (access_key, secret_key) else none;
  base_endpoint = if is_set endpoint then some endpoint else none;
  use_path_style = path_style;
}

-- "index.cbor"
abbrev pub index_name : Bytes
index_name = b'i' ∷ b'n' ∷ b'd' ∷ b'e' ∷ b'x' ∷ b'.' ∷ b'c' ∷ b'b' ∷ b'o' ∷ b'r' ∷ []

-- chunkKey
unfoldable pub chunk_key : S3Store → Bytes → Bytes
chunk_key s id = s.prefix ++ id

-- IndexKey
unfoldable pub s3_index_key : S3Store → Bytes
s3_index_key s = s.prefix ++ index_name

-- strings.TrimPrefix
unfoldable pub trim_prefix : Bytes → Bytes → Bytes
trim_prefix prefix key = elim (cut_prefix prefix key) [ none ↦ key | some rest ↦ rest ]

-- isS3NotFound
unfoldable pub is_s3_not_found : ClientError → Bool
is_s3_not_found no_such_key = true
is_s3_not_found (http_status status) = status == 404
is_s3_not_found other_error = false

-- The inner loop of List, over the keys of a page.
unfoldable pub page_ids : Bytes → List (Option Bytes) → List Bytes
page_ids prefix [] = []
page_ids prefix (none ∷ keys) = page_ids prefix keys
page_ids prefix (some key ∷ keys) =
    let rest = page_ids prefix keys in
    let id = trim_prefix prefix key in if id == index_name then rest else id ∷ rest

-- aws.ToBool
abbrev pub to_bool : Option Bool → Bool
to_bool none = false
to_bool (some b) = b

-- What List comes to; `unfinished` is a listing that goes on behind the pages that are allowed here.
pub data ListResult : Type 0 where
  listed : List Bytes → ListResult
  failed : ListResult
  unfinished : ListResult

abbrev pub body_of : Got → Option Bytes
body_of (refused e) = none
body_of (received body) = body

abbrev pub raw_result : Got → Result Bytes
raw_result (refused e) = if is_s3_not_found e then err object_not_found else err store_failure
raw_result (received none) = err store_failure
raw_result (received (some d)) = ok d

module _ (C : Client) where
  -- NewS3Store; `none` is an error.
  unfoldable pub new_s3_store :
      Bytes → Bytes → Bytes → Bytes → Bytes → Bytes → Bool → Option S3Store
  new_s3_store bucket endpoint region access_key secret_key prefix path_style =
      let options = client_options endpoint region access_key secret_key path_style in
      if C.accepts options
      then some (record { options = options; bucket = bucket; prefix = prefix })
      else none

  module _ (s : S3Store) where
    -- Put
    unfoldable pub s3_put : Bytes → Bytes → C.World → C.World × Bool
    s3_put id d w = C.put s.bucket (chunk_key s id) d w

    -- GetRange
    unfoldable pub s3_get_range : Bytes → ℕ → ℕ → C.World → Option Bytes
    s3_get_range id offset len w =
        body_of (C.get s.bucket (chunk_key s id) (some (offset, sub64 (add64 offset len) 1)) w)

    -- Delete
    unfoldable pub s3_delete : Bytes → C.World → C.World × Bool
    s3_delete id w = C.delete s.bucket (chunk_key s id) w

    -- List from a token on, with `ids` from the pages before it, over at most `pages` pages.
    unfoldable pub list_pages : ℕ → Option Bytes → List Bytes → C.World → ListResult
    list_pages zero token ids w = unfinished
    list_pages (suc pages) token ids w = elim (C.list s.bucket s.prefix token w) [
      | none ↦ failed
      | some page ↦
          let found = ids ++ page_ids s.prefix page.contents in
          let rest = list_pages pages page.next_token found w in
          if not (to_bool page.is_truncated) then listed found else rest
    ]

    unfoldable pub s3_list : ℕ → C.World → ListResult
    s3_list pages w = list_pages pages none [] w

    -- Size
    unfoldable pub s3_size : Bytes → C.World → Option ℕ
    s3_size id w = elim (C.head s.bucket (chunk_key s id) w) [
      | none ↦ none
      | some none ↦ some 0
      | some (some n) ↦ some n
    ]

    -- PutRaw
    unfoldable pub s3_put_raw : Bytes → Bytes → C.World → C.World × Bool
    s3_put_raw key d w = C.put s.bucket key d w

    -- GetRaw
    unfoldable pub s3_get_raw : Bytes → C.World → Result Bytes
    s3_get_raw key w = raw_result (C.get s.bucket key none w)
