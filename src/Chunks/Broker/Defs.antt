-- ===== src/Chunks/Broker/Defs.antt =====
-- BrokerStore and its methods. The HTTP client and JSON are parameters; a response that is received
-- has its body whole, or fails while it is read.
use fusey.Base.{
  ℕ, zero, suc, ◌+◌, ◌*◌, ◌^◌, ◌%◌, ◌-◌, Bytes, Bool, false, Option, none, some, List, [], ◌∷◌,
  ◌++◌, ◌||◌, ◌==◌, nat_key, bytes_key, if◌then◌else◌, leb,
}
use fusey.Base.Word.{lt64}

pub data Method : Type 0 where
  get put delete head : Method

-- A request: the authentication header that newRequest sets, the Range header's two numbers, and the
-- body.
pub record Request : Type 0 where
  pub method : Method
  pub url : Bytes
  pub auth : Option (Bytes × Bytes)
  pub range : Option (ℕ × ℕ)
  pub body : Bytes

-- A response. `body` is none if reading it fails; `content_length` is an int64, -1 if it is not known.
pub record Response : Type 0 where
  pub status : ℕ
  pub body : Option Bytes
  pub content_length : ℕ

-- The errors, without their texts.
pub data Cause : Type 0 where
  not_found unauthorized forbidden bad_request network bad_json bad_body no_length : Cause
  bad_status : ℕ → Cause

-- What fn returns: a value, an error, or an error in a retryableError.
pub data Attempt {ℓ} (A : Type ℓ) : Type ℓ where
  done : A → Attempt A
  fail retryable : Cause → Attempt A

infixl 5 ◌>>=◌
abbrev pub ◌>>=◌ {ℓ κ} :
    {W : Type ℓ} {A : Type κ} {B : Type κ} → W × Attempt A → (W → A → W × Attempt B) → W × Attempt B
(w, done a) >>= f = f w a
(w, fail e) >>= f = (w, fail e)
(w, retryable e) >>= f = (w, retryable e)

-- checkBrokerStatus and checkStorageStatus
abbrev pub is_success : ℕ → Bool
is_success status = status == 200 || status == 201 || status == 204 || status == 206

abbrev other_status : ℕ → Attempt (Unit {0})
other_status status =
    if leb 500 status then retryable (bad_status status) else fail (bad_status status)

unfoldable pub check_broker_status : ℕ → Attempt (Unit {0})
check_broker_status status =
    if is_success status
    then done tt
    else if status == 401
    then fail unauthorized
    else if status == 404
    then fail not_found
    else other_status status

unfoldable pub check_storage_status : ℕ → Attempt (Unit {0})
check_storage_status status =
    if is_success status
    then done tt
    else if status == 404
    then fail not_found
    else if status == 403
    then retryable forbidden
    else other_status status

-- maxRetryDelay in nanoseconds, and the delay before an attempt but the first.
abbrev pub max_retry_delay : ℕ
max_retry_delay = 8000000000

unfoldable pub retry_delay : ℕ → ℕ → ℕ
retry_delay base attempt =
    let delay = base * 2 ^ (attempt - 1) % 2 ^ 64 in
    if lt64 max_retry_delay delay then max_retry_delay else delay

-- The HTTP client: `send` is Do, with none for a network error, `wait` is whether the context ends
-- before the delay is over, and `is_valid` whether a request can be made for the URL.
pub record Http : Type 1 where
  pub World : Type 0
  pub send : Request → World → World × Option Response
  pub wait : ℕ → World → World × Bool
  pub is_valid : Bytes → Bool
  pub decode_url : Bytes → Option Bytes
  pub decode_ids : Bytes → Option (List Bytes)

pub record BrokerStore : Type 0 where
  pub base_url : Bytes
  pub auth_header : Bytes
  pub auth_value : Bytes
  pub max_attempts : ℕ
  pub base_delay : ℕ

-- "index.cbor"
abbrev pub broker_index_key : Bytes
broker_index_key = b'i' ∷ b'n' ∷ b'd' ∷ b'e' ∷ b'x' ∷ b'.' ∷ b'c' ∷ b'b' ∷ b'o' ∷ b'r' ∷ []

-- strings.TrimRight(url, "/")
unfoldable pub trim_slashes : Bytes → Bytes
trim_slashes [] = []
trim_slashes (c ∷ s) = elim (trim_slashes s) [
  | [] ↦ if c == b'/' then [] else c ∷ []
  | x ∷ t ↦ c ∷ x ∷ t
]

-- NewBrokerStore
unfoldable pub new_broker_store : Bytes → Bytes → Bytes → BrokerStore
new_broker_store base_url auth_header auth_value = record {
  base_url = trim_slashes base_url;
  auth_header = auth_header;
  auth_value = auth_value;
  max_attempts = 4;
  base_delay = 200000000;
}

abbrev objects_path : Bytes
objects_path = b'/' ∷ b'o' ∷ b'b' ∷ b'j' ∷ b'e' ∷ b'c' ∷ b't' ∷ b's' ∷ []

abbrev pub upload_path : Bytes
upload_path = b'/' ∷ b'u' ∷ b'p' ∷ b'l' ∷ b'o' ∷ b'a' ∷ b'd' ∷ b'-' ∷ b'u' ∷ b'r' ∷ b'l' ∷ []

abbrev pub download_path : Bytes
download_path =
    b'/' ∷ b'd' ∷ b'o' ∷ b'w' ∷ b'n' ∷ b'l' ∷ b'o' ∷ b'a' ∷ b'd' ∷ b'-' ∷ b'u' ∷ b'r' ∷ b'l' ∷ []

abbrev pub objects_url : BrokerStore → Bytes
objects_url s = s.base_url ++ objects_path

unfoldable pub object_url : BrokerStore → Bytes → Bytes
object_url s id = objects_url s ++ b'/' ∷ id

-- What the loop returns at its end: the last error, or nil with the zero value if there was no
-- attempt.
abbrev pub last_error {ℓ} : {A : Type ℓ} → A → Option Cause → Attempt A
last_error blank none = done blank
last_error blank (some e) = fail e

module _ (H : Http) where
  -- The loop of withRetry, `left` attempts before its end.
  unfoldable pub retry {ℓ} :
      {A : Type ℓ}
      → A
      → ℕ
      → (H.World → H.World × Attempt A)
      → ℕ
      → ℕ
      → Option Cause
      → H.World
      → H.World × Attempt A
  retry blank base fn zero attempt last w = (w, last_error blank last)
  retry blank base fn (suc left) attempt last w =
      let (w1, cancelled) =
        if attempt == 0 then (w, false) else H.wait (retry_delay base attempt) w in
      let (w2, r) = fn w1 in
      if cancelled then (w1, last_error blank last) else elim r [
        | done a ↦ (w2, done a)
        | fail e ↦ (w2, fail e)
        | retryable e ↦ retry blank base fn left (attempt + 1) (some e) w2
      ]

  -- withRetry
  unfoldable pub with_retry {ℓ} :
      {A : Type ℓ}
      → BrokerStore
      → A
      → (H.World → H.World × Attempt A)
      → H.World
      → H.World × Attempt A
  with_retry s blank fn w = retry blank s.base_delay fn s.max_attempts 0 none w

  -- client.Do, and newRequest before it.
  unfoldable pub exchange : Request → H.World → H.World × Attempt Response
  exchange req w = if H.is_valid req.url then received (H.send req w) else (w, fail bad_request)
    where
      received : H.World × Option Response → H.World × Attempt Response
      received (w', none) = (w', retryable network)
      received (w', some resp) = (w', done resp)
