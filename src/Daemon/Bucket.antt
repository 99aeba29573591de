-- ===== src/Daemon/Bucket.antt =====
-- The S3 store as the daemon's object store (internal/chunks/s3.go and cmd/fusey/main.go).
use fusey.Base.{
  ℕ, Bytes, false, Option, none, some, ◌≡◌, ◌≢◌, refl, arith, ap, ok, err, Error, Bool-cases, inl,
  inr, nat_key, ◌==◌,
}
use fusey.Chunks.Ids.{chunk_id}
use fusey.Chunks.S3.{
  Client, S3Store, Got, refused, received, raw_result, chunk_key, index_name, s3_index_key,
  s3_put_raw, s3_get_raw, ClientError, no_such_key, http_status, other_error, is_s3_not_found,
}
use fusey.Chunks.S3.Storing.{s3_store, IsS3, s3_object, chunk_key-injective}
use fusey.Chunks.S3.Promises.{chunk_id-ne-index_name}
use fusey.Daemon.Defs.{ObjectStore, is_missing}
use fusey.Daemon.Persisting.{IsRawLawful}

abbrev pub s3_objects : (C : Client) → S3Store → (C.World → ℕ) → ObjectStore
s3_objects C s pages = record {
  base = s3_store C s pages;
  put_raw = s3_put_raw C s;
  get_raw = s3_get_raw C s;
  index_key = s3_index_key s;
}

module _ (C : Client) (s : S3Store) (held : Bytes → C.World → Option Bytes) (law : IsS3 C s held)
    (pages : C.World → ℕ) where
  got_result : (g : Got) (r : Bytes) → raw_result g ≡ ok r → g ≡ received (some r)
  got_result (refused e) r h = ground arith
  got_result (received none) r h = ground arith
  got_result (received (some d)) r h = ground arith

  is_found : (e : ClientError) → e ≢ no_such_key → e ≢ http_status 404 → is_s3_not_found e ≡ false
  unfolding is_s3_not_found
  is_found no_such_key named status = absurd (named refl)
  is_found (http_status n) named status = elim (Bool-cases (n == 404)) [
    | inl same ↦ absurd (status (ap http_status (ground arith)))
    | inr other ↦ other
  ]
  is_found other_error named status = refl

  -- A body that breaks off is no missing object.
  not_missing :
      (key d : Bytes) (w : C.World) (e : Error)
      → held key w ≡ some d
      → (g : Got) → C.get s.bucket key none w ≡ g
      → raw_result g ≡ err e
      → is_missing e ≡ false
  unfolding is_missing
  not_missing key d w e has (refused failure) answer h =
      let (named, status) = law.found key d failure w has answer in
      ground (arith, is_found failure named status)
  not_missing key d w e has (received none) answer h = ground arith
  not_missing key d w e has (received (some b)) answer h = ground arith

  -- PutRaw and GetRaw of the S3 store keep what the daemon relies on: the index that is stored is
  -- read back, it is never said to be missing, and writing it touches no chunk; if S3 does what
  -- it documents.
  pub s3_objects-IsRawLawful :
      IsRawLawful (s3_objects C s pages) (s3_object C s held law pages) held
  unfolding s3_put_raw s3_get_raw s3_index_key chunk_key
  s3_objects-IsRawLawful = record {
    raw-put_raw = λ key d w done. law.held-put key d w done;
    object-put_raw = λ n d w.
        law.held-put_ne (chunk_key s index_name) d (chunk_key s (chunk_id n)) w
          (λ e. chunk_id-ne-index_name n (chunk_key-injective C s index_name (chunk_id n) e));
    get_raw-raw =
        λ key d r w has got. law.whole key d r w has (got_result (C.get s.bucket key none w) r got);
    get_raw-found =
        λ key d w e has got. not_missing key d w e has (C.get s.bucket key none w) refl got;
  }
