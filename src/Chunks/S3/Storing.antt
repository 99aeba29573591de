-- ===== src/Chunks/S3/Storing.antt =====
-- The store in a bucket keeps what the interface of the object store promises.
use fusey.Base.{
  ℕ, ◌+◌, ◌-◌, ◌<◌, ◌≤◌, ◌^◌, Bytes, true, Option, none, some, List, [], ◌∷◌, ◌≡◌, ◌≢◌, ◌⊎◌, inl,
  inr, refl, arith, ap, sym, ◌∙◌, ◌==◌, bytes_key, bytes_beq_iff, length, Option-cases, Bool-cases,
}
use fusey.Base.Word.{add64, add64-eq, sub64, sub64-eq}
use fusey.Chunks.Ids.{cut_prefix}
use fusey.Chunks.Ids.RoundTrip.{cut_prefix-append}
use fusey.Chunks.Store.{Store, IsLawful, slice}
use fusey.Chunks.S3.Defs.{
  no_such_key, http_status, body_of, Client, S3Store, ClientError, Got, refused, received,
  chunk_key, ListResult, listed, failed, unfinished, s3_put, s3_get_range, s3_delete, s3_list,
  s3_size,
}

abbrev pub ids_of : ListResult → Option (List Bytes)
ids_of (listed ids) = some ids
ids_of failed = none
ids_of unfinished = none

-- S3Store as an object store; `pages` is how many pages a listing may take.
abbrev pub s3_store : (C : Client) → S3Store → (C.World → ℕ) → Store
s3_store C s pages = record {
  State = C.World;
  put = s3_put C s;
  get_range = s3_get_range C s;
  delete = s3_delete C s;
  list = λ w. ids_of (s3_list C s (pages w) w);
  size = s3_size C s;
}

-- What the documentation of S3 promises of the objects `held` under the keys of the bucket.
pub record IsS3 (C : Client) (s : S3Store) (held : Bytes → C.World → Option Bytes) : Type 0 where
  pub held-put :
      (key d : Bytes) (w : C.World)
      → (C.put s.bucket key d w).1 ≡ true
      → held key (C.put s.bucket key d w).0 ≡ some d
  pub held-put_ne :
      (key d j : Bytes) (w : C.World) → key ≢ j → held j (C.put s.bucket key d w).0 ≡ held j w
  pub held-delete :
      (key : Bytes) (w : C.World)
      → (C.delete s.bucket key w).1 ≡ true
      → held key (C.delete s.bucket key w).0 ≡ none
  pub held-delete_ne :
      (key j : Bytes) (w : C.World) → key ≢ j → held j (C.delete s.bucket key w).0 ≡ held j w
  -- A range from its first byte to its last, inside of the object.
  pub ranged :
      (key d r : Bytes) (first last : ℕ) (w : C.World)
      → held key w ≡ some d
      → first ≤ last
      → last < length d
      → C.get s.bucket key (some (first, last)) w ≡ received (some r)
      → r ≡ slice first (last + 1 - first) d
  -- Of an empty object there is no part: a request for one gives nothing.
  pub ranged_empty :
      (key r : Bytes) (range : Option (ℕ × ℕ)) (w : C.World)
      → held key w ≡ some []
      → C.get s.bucket key range w ≡ received (some r)
      → r ≡ []
  pub whole :
      (key d r : Bytes) (w : C.World)
      → held key w ≡ some d
      → C.get s.bucket key none w ≡ received (some r)
      → r ≡ d
  -- GetObject answers NoSuchKey, or 404, only for a key without an object.
  pub found :
      (key d : Bytes) (e : ClientError) (w : C.World)
      → held key w ≡ some d
      → C.get s.bucket key none w ≡ refused e
      → (e ≢ no_such_key) × (e ≢ http_status 404)
  pub measured :
      (key d : Bytes) (n : Option ℕ) (w : C.World)
      → held key w ≡ some d
      → C.head s.bucket key w ≡ some n
      → n ≡ some (length d)
  -- No object is larger than 5 TiB.
  pub small : (key d : Bytes) (w : C.World) → held key w ≡ some d → length d < 2 ^ 62

body_received : (g : Got) (r : Bytes) → body_of g ≡ some r → g ≡ received (some r)
body_received (refused e) r h = ground arith
body_received (received body) r h = ap received h

head : Bytes → Option ℕ
head [] = none
head (b ∷ d) = some b

no_head : (d : Bytes) → head d ≡ none → d ≡ []
unfolding head
no_head [] h = refl
no_head (b ∷ d) h = ground arith

head_filled : (d : Bytes) (b : ℕ) → head d ≡ some b → 0 < length d
unfolding head
head_filled [] b h = ground arith
head_filled (c ∷ d) b h = omega arith

module _ (C : Client) (s : S3Store) where
  -- Keys differ where IDs do.
  pub chunk_key-injective : (a b : Bytes) → chunk_key s a ≡ chunk_key s b → a ≡ b
  unfolding chunk_key
  chunk_key-injective a b h =
      let same : some a ≡ some b =
        sym (cut_prefix-append s.prefix a)
        ∙ ap (cut_prefix s.prefix) h
        ∙ cut_prefix-append s.prefix b in
      cc same

  module _ (held : Bytes → C.World → Option Bytes) (law : IsS3 C s held) (pages : C.World → ℕ) where
    -- What the store holds under an ID.
    abbrev pub s3_object : Bytes → C.World → Option Bytes
    s3_object id w = held (chunk_key s id) w

    range_slice :
        (id d r : Bytes) (offset len : ℕ) (w : C.World)
        → s3_object id w ≡ some d
        → offset + len ≤ length d
        → (0 < len) ⊎ (len ≡ length d)
        → s3_get_range C s id offset len w ≡ some r
        → r ≡ slice offset len d
    unfolding s3_get_range
    range_slice id d r offset len w has fits some_bytes got =
        let last = sub64 (add64 offset len) 1 in
        let answer =
          body_received (C.get s.bucket (chunk_key s id) (some (offset, last)) w) r got in
        elim (Option-cases (head d)) [
          | inl no_bytes ↦
              let e = no_head d no_bytes in
              let none_left : len ≡ 0 = ground (arith, e) in
              law.ranged_empty (chunk_key s id) r (some (offset, last)) w (has ∙ ap some e) answer
              ∙ rw (e, none_left) refl
          | inr (b, has_head) ↦
              let filled : 0 < len = ground (arith, head_filled d b has_head) in
              let small = law.small (chunk_key s id) d w has in
              let e : last ≡ offset + len - 1 =
                ground (arith, add64-eq offset len, sub64-eq (offset + len) 1) in
              law.ranged (chunk_key s id) d r offset last w has (omega (arith, e, filled))
                (omega (arith, e, filled, fits)) answer
              ∙ ap (λ (n : ℕ). slice offset n d)
                  (let span : last + 1 - offset ≡ len = omega (arith, e, filled) in span)
        ]

    -- The store in an S3 bucket keeps every promise of the object store's interface, if S3 does
    -- what it documents and no object has 2 ^ 62 bytes.
    pub s3_store-IsLawful : IsLawful (s3_store C s pages) s3_object
    unfolding s3_put s3_delete s3_size
    s3_store-IsLawful = record {
      object-put = λ id d j w done. elim (Bool-cases (id == j)) [
        | inl same ↦
            let e : id ≡ j = ground (arith, bytes_beq_iff id j) in
            rw (same, ← e) (law.held-put (chunk_key s id) d w done)
        | inr other ↦ rw other (
            law.held-put_ne (chunk_key s id) d (chunk_key s j) w
              (λ e. absurd (ground (arith, bytes_beq_iff id j, chunk_key-injective id j e))))
      ];
      object-put_ne = λ id d j w other.
          law.held-put_ne (chunk_key s id) d (chunk_key s j) w
            (λ e. other (chunk_key-injective id j e));
      get_range-object = λ id offset len w d r has fits some_bytes got.
          range_slice id d r offset len w has fits some_bytes got;
      size-object = λ id w n d sized has. elim (Option-cases (C.head s.bucket (chunk_key s id) w)) [
        | inl lost ↦ absurd (ground arith)
        | inr (m, answer) ↦ ground (arith, law.measured (chunk_key s id) d m w has answer)
      ];
      object-delete_ne = λ id j w other.
          law.held-delete_ne (chunk_key s id) (chunk_key s j) w
            (λ e. other (chunk_key-injective id j e));
    }
