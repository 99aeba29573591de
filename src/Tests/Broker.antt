-- ===== src/Tests/Broker.antt =====
-- A broker and a storage that keep to their protocol, of which the storage turns the first uploads away.
use fusey.Base.{
  ℕ, zero, suc, ◌<◌, Bytes, true, false, Option, none, some, [], ◌∷◌, ◌++◌, ◌≡◌, ◌≢◌, refl, arith,
  ap, bytes_key, bytes_beq_iff, bytes_beq, length, length-append,
}
use fusey.Map
use fusey.Map.{Map, lookup, insert, lookup-insert}
use fusey.Chunks.Broker.{
  Http, BrokerStore, Request, Response, Method, get, put, delete, head, Attempt, done, retryable,
  forbidden, is_success, Cause, check_storage_status, check_broker_status, object_url, upload_path,
  with_retry, exchange, retry, retry_delay, new_broker_store, trim_slashes, presigned_url, put_once,
  put_object,
}
use fusey.Chunks.Broker.Retrying.{world_at}
use fusey.Chunks.Broker.Attempts.{with_retry-recovers}
use fusey.Chunks.Broker.Storing.{IsProtocol, put_object-stores}
use fusey.Base.Word.{lt64}

unfoldable brokers : Unit {0}
unfolding lookup insert Map.delete bytes_beq check_storage_status check_broker_status object_url
    with_retry exchange retry retry_delay lt64 new_broker_store trim_slashes presigned_url put_once
    put_object
brokers = tt

append_cancel_right : (xs ys zs : Bytes) → xs ++ zs ≡ ys ++ zs → xs ≡ ys
append_cancel_right [] [] zs h = refl
append_cancel_right [] (y ∷ ys) zs h =
    absurd (omega (arith, ap length h, length-append (y ∷ ys) zs))
append_cancel_right (x ∷ xs) [] zs h =
    absurd (omega (arith, ap length h, length-append (x ∷ xs) zs))
append_cancel_right (x ∷ xs) (y ∷ ys) zs h =
    let tails : xs ++ zs ≡ ys ++ zs = cc h in
    let rest = append_cancel_right xs ys zs tails in cc (h, rest)

abbrev World : Type 0
World = Map Bytes Bytes × ℕ

abbrev answer : ℕ → Bytes → Option Response
answer status body = some (record { status = status; body = some body; content_length = 0 })

-- A URL is presigned by a byte in front.
abbrev store_bytes : Bytes → Bytes → World → World × Option Response
store_bytes url d (objects, zero) = ((insert url d objects, 0), answer 200 [])
store_bytes url d (objects, suc n) = ((objects, n), answer 403 [])

abbrev serve_method : Method → Request → World → World × Option Response
serve_method get req w = (w, answer 200 (b'p' ∷ req.url))
serve_method put req w = store_bytes req.url req.body w
serve_method delete req w = (w, answer 204 [])
serve_method head req w = (w, answer 200 [])

abbrev server : Http
server = record {
  World = World;
  send = λ req w. serve_method req.method req w;
  wait = λ delay w. (w, false);
  is_valid = λ url. true;
  decode_url = λ body. some body;
  decode_ids = λ body. none;
}

-- "b/" with the header "k: v"
abbrev client : BrokerStore
client = new_broker_store (b'b' ∷ b'/' ∷ []) (b'k' ∷ []) (b'v' ∷ [])

abbrev presigned : Bytes → Bytes
presigned id = b'p' ∷ (object_url client id ++ upload_path)

abbrev held : Bytes → World → Option Bytes
held id (objects, n) = lookup (presigned id) objects

presigned-injective : (id j : Bytes) → presigned id ≡ presigned j → id ≡ j
unfolding object_url new_broker_store trim_slashes
presigned-injective id j h = append_cancel_right id j upload_path (cc h)

uploads_apart :
    (url id j d : Bytes) (w : World)
    → url ≡ presigned id
    → id ≢ j
    → held j (store_bytes url d w).0 ≡ held j w
uploads_apart url id j d (objects, zero) grants other = ground (
  arith,
  lookup-insert url (presigned j) d objects,
  bytes_beq_iff url (presigned j),
  presigned-injective id j,
)
uploads_apart url id j d (objects, suc n) grants other = refl

uploads_stored :
    (url id d : Bytes) (resp : Response) (w : World)
    → url ≡ presigned id
    → (store_bytes url d w).1 ≡ some resp
    → is_success resp.status ≡ true
    → held id (store_bytes url d w).0 ≡ some d
uploads_stored url id d resp (objects, zero) grants got good =
    ground (arith, lookup-insert url (presigned id) d objects, bytes_beq_iff url (presigned id))
uploads_stored url id d resp (objects, suc n) grants got good = absurd (ground arith)

server-IsProtocol : IsProtocol server client held (λ url id w. url ≡ presigned id)
server-IsProtocol = record {
  wait-keeps = λ id delay w. refl;
  get-keeps = λ id req w h. ground arith;
  granted = λ id url body resp w got good whole decoded. ground arith;
  upload-keeps = λ url id j d w grants other. uploads_apart url id j d w grants other;
  upload-stores = λ url id d resp w grants got good. uploads_stored url id d resp w grants got good;
}

abbrev a_name : Bytes
a_name = b'a' ∷ []

abbrev b_name : Bytes
b_name = b'b' ∷ []

-- The storage turns two uploads away, and then nine.
abbrev busy : World
busy = ([], 2)

abbrev down : World
down = ([], 9)

abbrev put_a : World → World × Attempt (Unit {0})
put_a = put_once server client a_name (1 ∷ 2 ∷ [])

put_object-stores_example :
    held a_name (put_object server client a_name (1 ∷ 2 ∷ []) busy).0 ≡ some (1 ∷ 2 ∷ [])
unfolding brokers
put_object-stores_example =
    put_object-stores server client held (λ url id w. url ≡ presigned id) server-IsProtocol a_name
      (1 ∷ 2 ∷ []) busy (omega arith) refl

with_retry-recovers_example : (with_retry server client tt put_a busy).1 ≡ done tt
unfolding brokers
with_retry-recovers_example =
    with_retry-recovers server tt client put_a busy (λ delay w. refl) 2 tt (omega arith) twice refl
  where
    twice :
        (i : ℕ)
        → i < 2
        → (e : Cause) × ((put_a (world_at server tt client.base_delay put_a i 0 busy)).1
            ≡ retryable e)
    twice zero h = (forbidden, refl)
    twice (suc zero) h = (forbidden, refl)
    twice (suc (suc i)) h = absurd (omega (arith, h))
