-- ===== src/Chunks/Broker/Requests.antt =====
-- The requests of BrokerStore. The three of Put and the reads are tried anew as a whole.
use fusey.Base.{
  ℕ, Bytes, Option, none, some, List, [], ◌∷◌, ◌++◌, ◌==◌, nat_key, bytes_key, if◌then◌else◌,
}
use fusey.Base.Word.{add64, sub64, lt64}
use fusey.Chunks.Broker.Defs.{
  Http, BrokerStore, Request, Response, Method, get, put, delete, head, Cause, Attempt, done, fail,
  retryable, ◌>>=◌, not_found, bad_json, bad_body, no_length, check_broker_status,
  check_storage_status, object_url, objects_url, upload_path, download_path, broker_index_key,
  with_retry, exchange,
}

-- The test of a status, in a step.
abbrev pub checked {ℓ} :
    {W : Type ℓ} → (ℕ → Attempt (Unit {0})) → W → Response → W × Attempt Response
checked check w resp = elim (check resp.status) [
  | done _ ↦ (w, done resp)
  | fail e ↦ (w, fail e)
  | retryable e ↦ (w, retryable e)
]

-- An error that is not retryable, where there is no value.
abbrev pub or_fail {ℓ κ} : {W : Type ℓ} {A : Type κ} → Cause → W → Option A → W × Attempt A
or_fail e w none = (w, fail e)
or_fail e w (some a) = (w, done a)

abbrev pub json_body {ℓ} : {A : Type ℓ} → (Bytes → Option A) → Option Bytes → Option A
json_body decode none = none
json_body decode (some body) = decode body

module _ (H : Http) (s : BrokerStore) where
  abbrev pub broker_request : Method → Bytes → Request
  broker_request method url = record {
    method = method;
    url = url;
    auth = some (s.auth_header, s.auth_value);
    range = none;
    body = [];
  }

  -- uploadURL and downloadURL
  unfoldable pub presigned_url : Bytes → Bytes → H.World → H.World × Attempt Bytes
  presigned_url path id w =
      exchange H (broker_request get (object_url s id ++ path)) w
      >>= checked check_broker_status
      >>= λ w1 resp. or_fail bad_json w1 (json_body H.decode_url resp.body)

  -- One attempt of Put.
  unfoldable pub put_once : Bytes → Bytes → H.World → H.World × Attempt (Unit {0})
  put_once id d w =
      presigned_url upload_path id w
      >>= (λ w1 url.
          exchange H (record { method = put; url = url; auth = none; range = none; body = d }) w1)
      >>= λ w2 resp. (w2, check_storage_status resp.status)

  unfoldable pub put_object : Bytes → Bytes → H.World → H.World × Attempt (Unit {0})
  put_object id d w = with_retry H s tt (put_once id d) w

  -- One attempt of GetRange, and of GetRaw, which sends no Range header.
  unfoldable pub get_once : Option (ℕ × ℕ) → Bytes → H.World → H.World × Attempt Bytes
  get_once range id w =
      presigned_url download_path id w
      >>= (λ w1 url.
          exchange H (record { method = get; url = url; auth = none; range = range; body = [] }) w1)
      >>= checked check_storage_status
      >>= λ w2 resp. or_fail bad_body w2 resp.body

  unfoldable pub get_range : Bytes → ℕ → ℕ → H.World → H.World × Attempt Bytes
  get_range id offset len w =
      with_retry H s [] (get_once (some (offset, sub64 (add64 offset len) 1)) id) w

  unfoldable pub get_raw : Bytes → H.World → H.World × Attempt Bytes
  get_raw key w = with_retry H s [] (get_once none key) w

  -- PutRaw
  unfoldable pub put_raw : Bytes → Bytes → H.World → H.World × Attempt (Unit {0})
  put_raw key d w = put_object key d w

  -- A missing object is no error.
  abbrev unless_missing : Attempt (Unit {0}) → Attempt (Unit {0})
  unless_missing (done u) = done u
  unless_missing (fail not_found) = done tt
  unless_missing (fail e) = fail e
  unless_missing (retryable e) = retryable e

  unfoldable pub delete_object : Bytes → H.World → H.World × Attempt (Unit {0})
  delete_object id w =
      with_retry H s tt
        (λ w1. exchange H (broker_request delete (object_url s id)) w1 >>= λ w2 resp.
          (w2, unless_missing (check_broker_status resp.status)))
        w

  -- The loop of List leaves the index out.
  without_index : List Bytes → List Bytes
  without_index [] = []
  without_index (id ∷ ids) =
      let rest = without_index ids in if id == broker_index_key then rest else id ∷ rest

  unfoldable pub list_objects : H.World → H.World × Attempt (List Bytes)
  unfolding without_index
  list_objects w =
      with_retry H s []
        (λ w1.
          exchange H (broker_request get (objects_url s)) w1
          >>= checked check_broker_status
          >>= λ w2 resp. or_fail bad_json w2 (some_list (json_body H.decode_ids resp.body)))
        w
    where
      some_list : Option (List Bytes) → Option (List Bytes)
      some_list none = none
      some_list (some ids) = some (without_index ids)

  unfoldable pub size_of_object : Bytes → H.World → H.World × Attempt ℕ
  size_of_object id w =
      with_retry H s 0
        (λ w1.
          exchange H (broker_request head (object_url s id)) w1
          >>= checked check_broker_status
          >>= λ w2 resp.
              (w2, if lt64 resp.content_length 0 then fail no_length else done resp.content_length))
        w
