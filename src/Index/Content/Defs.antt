-- ===== src/Index/Content/Defs.antt =====
-- Where a byte lies, how many extents claim it, and the ranges in which the arithmetic is exact.
use fusey.Base.{
  ℕ, ◌+◌, ◌-◌, ◌^◌, ◌<◌, ◌≤◌, Bool, Option, some, List, [], ◌∷◌, ◌++◌, map, ◌&&◌, ◌≡◌, refl, arith,
  if◌then◌else◌, ltb, leb, length, ◌⊎◌,
}
use fusey.Index.Types.{Extent}
use fusey.Index.Overwrite.{Place, pieces}

abbrev pub All {ℓ κ} : {A : Type ℓ} → (A → Type κ) → List A → Type κ
All P [] = Unit
All P (x ∷ xs) = P x × All P xs

-- The int64 sums of the extent do not overflow.
abbrev pub Fits : Extent → Type 0
Fits e = (e.file_offset + e.len < 2 ^ 63) × (e.chunk_offset + e.len < 2 ^ 63)

-- The byte `p` of the file lies in the extent.
abbrev pub covers : Extent → ℕ → Bool
covers e p = leb e.file_offset p && ltb p (e.file_offset + e.len)

-- Its place in the chunk.
abbrev pub place : Extent → ℕ → Place
place e p = (e.chunk_id, e.chunk_offset + (p - e.file_offset))

-- A later extent of the list hides an earlier one.
unfoldable pub locate : Option Place → List Extent → ℕ → Option Place
locate found [] p = found
locate found (e ∷ es) p = locate (if covers e p then some (place e p) else found) es p

-- The number of extents that cover a byte.
unfoldable pub coverage : List Extent → ℕ → ℕ
coverage [] p = 0
coverage (e ∷ es) p = (if covers e p then 1 else 0) + coverage es p

-- The old list without the bytes of `ext`, had each step of the loop an array of its own.
unfoldable pub carve : Extent → List Extent → List Extent
carve ext [] = []
carve ext (e ∷ es) = pieces ext e ++ carve ext es

-- No extent but the last is cut in two.
abbrev pub CutsInPlace : Extent → List Extent → Type 0
CutsInPlace ext [] = Unit
CutsInPlace ext (e ∷ []) = Unit
CutsInPlace ext (e ∷ f ∷ es) = (length (pieces ext e) ≤ 1) × CutsInPlace ext (f ∷ es)

-- The same in the bounds: no extent but the last reaches out of the range [off, off + len) on both
-- sides.
abbrev pub NoEarlyCut : ℕ → ℕ → List Extent → Type 0
NoEarlyCut off len [] = Unit
NoEarlyCut off len (e ∷ []) = Unit
NoEarlyCut off len (e ∷ f ∷ es) =
    ((off ≤ e.file_offset) ⊎ (e.file_offset + e.len ≤ off + len)) × NoEarlyCut off len (f ∷ es)

pub locate-append :
    (found : Option Place) (xs ys : List Extent) (p : ℕ)
    → locate found (xs ++ ys) p ≡ locate (locate found xs p) ys p
unfolding locate
locate-append found [] ys p = refl
locate-append found (x ∷ xs) ys p =
    locate-append (if covers x p then some (place x p) else found) xs ys p

pub coverage-append :
    (xs ys : List Extent) (p : ℕ) → coverage (xs ++ ys) p ≡ coverage xs p + coverage ys p
unfolding coverage
coverage-append [] ys p = omega arith
coverage-append (x ∷ xs) ys p = omega (arith, coverage-append xs ys p)

pub All-map {ℓ κ μ} :
    {A : Type ℓ} {B : Type μ} (P : B → Type κ) (f : A → B) (xs : List A)
    → All (λ x. P (f x)) xs
    → All P (map f xs)
All-map P f [] h = tt
All-map P f (x ∷ xs) h = (h.0, All-map P f xs h.1)

pub All-append {ℓ κ} :
    {A : Type ℓ} (P : A → Type κ) (xs ys : List A) → All P xs → All P ys → All P (xs ++ ys)
All-append P [] ys hx hy = hy
All-append P (x ∷ xs) ys hx hy = (hx.0, All-append P xs ys hx.1 hy)
