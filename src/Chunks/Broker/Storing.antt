-- ===== src/Chunks/Broker/Storing.antt =====
-- What Put and GetRange do, with a broker and a storage that keep to their protocol.
use mathlib.Core.Path.{subst}
use fusey.Base.{
  ℕ, ◌<◌, Bytes, true, Option, none, some, ◌++◌, ◌≡◌, ◌≢◌, refl, arith, ◌∙◌, inl, inr, Bool-cases,
  Option-cases, nat_key,
}
use fusey.Chunks.Broker.Defs.{
  Http, BrokerStore, Request, Response, get, put, done, check_storage_status, check_broker_status,
  is_success, object_url, upload_path, with_retry, exchange,
}
use fusey.Chunks.Broker.Requests.{presigned_url, put_once, put_object, broker_request}
use fusey.Chunks.Broker.Retrying.{Attempt-cases, retry-keeps, retry-gives}

abbrev upload : Bytes → Bytes → Request
upload url d = record { method = put; url = url; auth = none; range = none; body = d }

-- What the broker and the storage promise. `object` is what the storage holds, and `Grants` says that
-- a presigned URL is one for an object.
pub record IsProtocol (H : Http) (s : BrokerStore) (object : Bytes → H.World → Option Bytes)
    (Grants : Bytes → Bytes → H.World → Type 0) : Type 0 where
  -- Neither time nor a request of the kind GET changes an object.
  pub wait-keeps :
      (id : Bytes) (delay : ℕ) (w : H.World) → object id (H.wait delay w).0 ≡ object id w
  pub get-keeps :
      (id : Bytes) (req : Request) (w : H.World)
      → req.method ≡ get
      → object id (H.send req w).0 ≡ object id w
  -- The URL that the broker answers is one for the object.
  pub granted :
      (id url body : Bytes) (resp : Response) (w : H.World)
      → (H.send (broker_request H s get (object_url s id ++ upload_path)) w).1 ≡ some resp
      → is_success resp.status ≡ true
      → resp.body ≡ some body
      → H.decode_url body ≡ some url
      → Grants url id (H.send (broker_request H s get (object_url s id ++ upload_path)) w).0
  -- An upload to it touches no other object, and stores the bytes when it is answered by success.
  pub upload-keeps :
      (url id j d : Bytes) (w : H.World)
      → Grants url id w
      → id ≢ j
      → object j (H.send (upload url d) w).0 ≡ object j w
  pub upload-stores :
      (url id d : Bytes) (resp : Response) (w : H.World)
      → Grants url id w
      → (H.send (upload url d) w).1 ≡ some resp
      → is_success resp.status ≡ true
      → object id (H.send (upload url d) w).0 ≡ some d

module _ (H : Http) (s : BrokerStore) (object : Bytes → H.World → Option Bytes)
    (Grants : Bytes → Bytes → H.World → Type 0) (law : IsProtocol H s object Grants)
    (id d : Bytes) where
  abbrev ask : Request
  ask = broker_request H s get (object_url s id ++ upload_path)

  module _ (w : H.World) where
    -- The first request keeps every object, and a URL that it gives is for this object.
    presigned-keeps : (j : Bytes) → object j (presigned_url H s upload_path id w).0 ≡ object j w
    unfolding presigned_url exchange
    presigned-keeps j = ground (arith, law.get-keeps j ask w)

    presigned-granted :
        (url : Bytes)
        → (presigned_url H s upload_path id w).1 ≡ done url
        → Grants url id (presigned_url H s upload_path id w).0
    unfolding presigned_url exchange check_broker_status
    presigned-granted url h = elim (Bool-cases (H.is_valid ask.url)) [
      | inr refused ↦ absurd (ground arith)
      | inl valid ↦ elim (Option-cases (H.send ask w).1) [
        | inl lost ↦ absurd (ground arith)
        | inr (resp, got) ↦ elim (Bool-cases (is_success resp.status)) [
          | inr bad ↦ absurd (ground arith)
          | inl good ↦ elim (Option-cases resp.body) [
            | inl broken ↦ absurd (ground arith)
            | inr (body, whole) ↦
                let decoded : H.decode_url body ≡ some url = ground arith in
                subst (Grants url id) (ground arith)
                  (law.granted id url body resp w got good whole decoded)
          ]
        ]
      ]
    ]

    put_once-keeps : (j : Bytes) → id ≢ j → object j (put_once H s id d w).0 ≡ object j w
    unfolding put_once exchange
    put_once-keeps j other =
        let w1 = (presigned_url H s upload_path id w).0 in
        elim (Attempt-cases (presigned_url H s upload_path id w).1) [
          | inl (url, got) ↦ ground (
            arith,
            presigned-keeps j,
            law.upload-keeps url id j d w1 (presigned-granted url got) other,
          )
          | inr (inl (e, got)) ↦ ground (arith, presigned-keeps j)
          | inr (inr (e, got)) ↦ ground (arith, presigned-keeps j)
        ]

    put_once-stores : (put_once H s id d w).1 ≡ done tt → object id (put_once H s id d w).0 ≡ some d
    unfolding put_once exchange check_storage_status
    put_once-stores h =
        let w1 = (presigned_url H s upload_path id w).0 in
        elim (Attempt-cases (presigned_url H s upload_path id w).1) [
          | inl (url, got) ↦ elim (Option-cases (H.send (upload url d) w1).1) [
            | inl lost ↦ absurd (ground arith)
            | inr (resp, answer) ↦ elim (Bool-cases (is_success resp.status)) [
              | inl good ↦ ground (
                arith,
                law.upload-stores url id d resp w1 (presigned-granted url got) answer good,
              )
              | inr bad ↦ absurd (ground arith)
            ]
          ]
          | inr (inl (e, got)) ↦ absurd (ground arith)
          | inr (inr (e, got)) ↦ absurd (ground arith)
        ]

  module _ (w : H.World) where
    -- A Put of the broker's store, whatever its outcome, touches no object of another ID, if the
    -- broker and the storage keep to the protocol of presigned URLs.
    pub put_object-keeps : (j : Bytes) → id ≢ j → object j (put_object H s id d w).0 ≡ object j w
    unfolding put_object with_retry
    put_object-keeps j other =
        retry-keeps H tt s.base_delay (put_once H s id d) (λ u. object j u ≡ object j w)
          (λ delay u same. law.wait-keeps j delay u ∙ same)
          (λ u same. put_once-keeps u j other ∙ same) s.max_attempts 0 none w refl

    -- A Put of the broker's store that returns no error has stored the bytes under the ID, as the
    -- interface of the object store promises, however many attempts it took: if the broker and
    -- the storage keep to the protocol of presigned URLs, and at least one attempt is allowed.
    pub put_object-stores :
        0 < s.max_attempts
        → (put_object H s id d w).1 ≡ done tt
        → object id (put_object H s id d w).0 ≡ some d
    unfolding put_object with_retry
    put_object-stores some_attempt h =
        retry-gives H tt s.base_delay (put_once H s id d) (λ u v. object id v ≡ some d)
          (λ u a good. put_once-stores u good) s.max_attempts 0 none w tt
          (λ same. (refl, some_attempt)) h
