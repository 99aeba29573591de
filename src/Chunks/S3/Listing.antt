-- ===== src/Chunks/S3/Listing.antt =====
-- List over the pages of a bucket.
use mathlib.Core.List.{append_assoc}
use fusey.Base.{
  ℕ, zero, suc, ◌<◌, Bytes, true, false, Option, none, some, List, [], ◌∷◌, ◌++◌, ◌≡◌, ◌⊎◌, inl,
  inr, refl, arith, ap, sym, ◌∙◌, bytes_key, length, Option-cases, Bool-cases, length-append, map,
  ◌==◌, if◌then◌else◌, bytes_beq_iff,
}
use fusey.Index.Content.{All}
use fusey.Chunks.Ids.RoundTrip.{cut_prefix-append}
use fusey.Chunks.Ids.{cut_prefix}
use fusey.Chunks.S3.Defs.{
  s3_index_key, index_name, chunk_key, trim_prefix, Client, S3Store, Page, listed, failed, page_ids,
  to_bool, list_pages, s3_list,
}

-- A key begins with the prefix.
abbrev pub IsUnder : Bytes → Option Bytes → Type 0
IsUnder prefix none = Unit
IsUnder prefix (some key) = (id : Bytes) × (key ≡ prefix ++ id)

-- The keys but one, without nil.
unfoldable pub other_keys : Bytes → List (Option Bytes) → List Bytes
other_keys key [] = []
other_keys key (none ∷ keys) = other_keys key keys
other_keys key (some k ∷ keys) =
    let rest = other_keys key keys in if k == key then rest else k ∷ rest

-- What the documentation of ListObjectsV2 says of a bucket that does not change: `rest` are the keys
-- under the prefix that a listing has still to give from a token on. A page has the first of them, and
-- its token, if it is truncated, those behind; a truncated page has at least one.
pub record IsPaged (C : Client) (s : S3Store) (rest : Option Bytes → C.World → List (Option Bytes))
    : Type 0 where
  pub under : (w : C.World) → All (IsUnder s.prefix) (rest none w)
  pub last_page :
      (token : Option Bytes) (w : C.World) (page : Page)
      → C.list s.bucket s.prefix token w ≡ some page
      → to_bool page.is_truncated ≡ false
      → rest token w ≡ page.contents
  pub full_page :
      (token : Option Bytes) (w : C.World) (page : Page)
      → C.list s.bucket s.prefix token w ≡ some page
      → to_bool page.is_truncated ≡ true
      → (rest token w ≡ page.contents ++ rest page.next_token w) × (0 < length page.contents)

page_ids-append :
    (prefix : Bytes) (xs ys : List (Option Bytes))
    → page_ids prefix (xs ++ ys) ≡ page_ids prefix xs ++ page_ids prefix ys
unfolding page_ids
page_ids-append prefix [] ys = refl
page_ids-append prefix (none ∷ xs) ys = page_ids-append prefix xs ys
page_ids-append prefix (some key ∷ xs) ys = ground (arith, page_ids-append prefix xs ys)

trim_prefix-append : (prefix id : Bytes) → trim_prefix prefix (prefix ++ id) ≡ id
unfolding trim_prefix
trim_prefix-append prefix id = rw (trim_prefix, cut_prefix-append prefix id) refl

page_ids-keys :
    (s : S3Store) (keys : List (Option Bytes))
    → All (IsUnder s.prefix) keys
    → map (chunk_key s) (page_ids s.prefix keys) ≡ other_keys (s3_index_key s) keys
unfolding page_ids other_keys chunk_key s3_index_key
page_ids-keys s [] h = refl
page_ids-keys s (none ∷ keys) h = page_ids-keys s keys h.1
page_ids-keys s (some key ∷ keys) ((id, e), h) =
    let trim : trim_prefix s.prefix key ≡ id =
      ap (trim_prefix s.prefix) e ∙ trim_prefix-append s.prefix id in
    let rest = page_ids-keys s keys h in
    elim (Bool-cases (id == index_name)) [
      | inl same ↦
          let here : id ≡ index_name = ground (arith, bytes_beq_iff id index_name) in
          let there : (key == s.prefix ++ index_name) ≡ true =
            (bytes_beq_iff key (s.prefix ++ index_name)).1
              (e ∙ ap (λ (t : Bytes). s.prefix ++ t) here) in
          rw (page_ids, other_keys, trim, same, there) rest
      | inr other ↦ elim (Bool-cases (key == s.prefix ++ index_name)) [
        | inl there ↦
            let whole : s.prefix ++ id ≡ s.prefix ++ index_name =
              sym e ∙ (bytes_beq_iff key (s.prefix ++ index_name)).0 there in
            let same : some id ≡ some index_name =
              sym (cut_prefix-append s.prefix id)
              ∙ ap (cut_prefix s.prefix) whole
              ∙ cut_prefix-append s.prefix index_name in
            absurd (ground (arith, bytes_beq_iff id index_name, same))
        | inr apart ↦ rw (page_ids, other_keys, trim, other, apart) (cc (sym e, rest))
      ]
    ]

module _ (C : Client) (s : S3Store) (rest : Option Bytes → C.World → List (Option Bytes))
    (law : IsPaged C s rest) (w : C.World) where
  -- Either a page cannot be had, or the listing has all that is left.
  list_pages_lem :
      (pages : ℕ) (token : Option Bytes) (ids : List Bytes)
      → length (rest token w) < pages
      → (list_pages C s pages token ids w ≡ failed)
        ⊎ (list_pages C s pages token ids w ≡ listed (ids ++ page_ids s.prefix (rest token w)))
  unfolding list_pages
  list_pages_lem zero token ids h = absurd (omega (arith, h))
  list_pages_lem (suc pages) token ids h = elim (Option-cases (C.list s.bucket s.prefix token w)) [
    | inl lost ↦ inl (ground arith)
    | inr (page, got) ↦ elim (Bool-cases (to_bool page.is_truncated)) [
      | inr last ↦
          let same = law.last_page token w page got last in
          inr (rw (list_pages, got, last, same) refl)
      | inl more ↦
          let (split, some_keys) = law.full_page token w page got more in
          let found = ids ++ page_ids s.prefix page.contents in
          let shorter : length (rest page.next_token w) < pages = omega (
            arith,
            h,
            some_keys,
            ap length split ∙ length-append page.contents (rest page.next_token w),
          ) in
          let step : list_pages C s (suc pages) token ids w
              ≡ list_pages C s pages page.next_token found w =
            rw (list_pages, got, more) refl in
          elim (list_pages_lem pages page.next_token found shorter) [
            | inl lost ↦ inl (step ∙ lost)
            | inr all ↦ inr (
                step
                ∙ all
                ∙ ap listed (
                    append_assoc ids (page_ids s.prefix page.contents)
                      (page_ids s.prefix (rest page.next_token w))
                    ∙ ap (λ (l : List Bytes). ids ++ l)
                        (sym (page_ids-append s.prefix page.contents (rest page.next_token w))
                          ∙ ap (page_ids s.prefix) (sym split))))
          ]
    ]
  ]

  -- List of the S3 store ends: if it may take more pages than there are keys under the prefix, it
  -- fails, or it returns IDs that make with the prefix all of these keys but that of the index,
  -- in their order; if the service pages as it documents, and lists only keys that begin with the
  -- prefix.
  pub s3_list_done :
      (pages : ℕ)
      → length (rest none w) < pages
      → (s3_list C s pages w ≡ failed)
        ⊎ ((ids : List Bytes) × (s3_list C s pages w ≡ listed ids)
            × (map (chunk_key s) ids ≡ other_keys (s3_index_key s) (rest none w)))
  unfolding s3_list
  s3_list_done pages h = elim (list_pages_lem pages none [] h) [
    | inl lost ↦ inl lost
    | inr all ↦
        inr (page_ids s.prefix (rest none w), all, page_ids-keys s (rest none w) (law.under w))
  ]
