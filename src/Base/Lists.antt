-- ===== src/Base/Lists.antt =====
-- Lists measured and indexed by native numbers, under the library's names.
use Prim.Native.Nat.{ℕ, zero, suc, ◌+◌, ◌<◌, ◌≤◌}
use mathlib.Core.Path.{◌≡◌, refl, ap, ◌∙◌}
use mathlib.Core.List.{List, [], ◌∷◌, ◌++◌, map}
use mathlib.Core.Option.{Option, none, some}
use native.Mathlib.Omega.{arith}

-- f from, f (from + 1), and so on, n values.
abbrev pub tabulate {ℓ} : {A : Type ℓ} → (ℕ → A) → ℕ → ℕ → List A
tabulate f from zero = []
tabulate f from (suc n) = f from ∷ tabulate f (from + 1) n

module _ {ℓ} {A : Type ℓ} where
  abbrev pub length : List A → ℕ
  length [] = 0
  length (x ∷ xs) = suc (length xs)

  abbrev pub get_elem? : List A → ℕ → Option A
  get_elem? [] i = none
  get_elem? (x ∷ xs) zero = some x
  get_elem? (x ∷ xs) (suc i) = get_elem? xs i

  -- A write out of bounds changes nothing.
  abbrev pub set : List A → ℕ → A → List A
  set [] i v = []
  set (x ∷ xs) zero v = v ∷ xs
  set (x ∷ xs) (suc i) v = x ∷ set xs i v

  abbrev pub take : ℕ → List A → List A
  take zero xs = []
  take (suc n) [] = []
  take (suc n) (x ∷ xs) = x ∷ take n xs

  abbrev pub drop : ℕ → List A → List A
  drop zero xs = xs
  drop (suc n) [] = []
  drop (suc n) (x ∷ xs) = drop n xs

  abbrev pub replicate : ℕ → A → List A
  replicate zero a = []
  replicate (suc n) a = a ∷ replicate n a

  pub tabulate-ext :
      (f : ℕ → A) (from n : ℕ) (l : List A)
      → length l ≡ n
      → ((i : ℕ) → i < n → get_elem? l i ≡ some (f (from + i)))
      → l ≡ tabulate f from n
  tabulate-ext f from zero [] len same = refl
  tabulate-ext f from zero (x ∷ xs) len same = absurd (omega (arith, len))
  tabulate-ext f from (suc n) [] len same = absurd (omega (arith, len))
  tabulate-ext f from (suc n) (x ∷ xs) len same =
      let first : some x ≡ some (f from) =
        same 0 (omega arith)
        ∙ ap (λ (k : ℕ). some (f k)) (let e : from + 0 ≡ from = omega arith in e) in
      let rest = tabulate-ext f (from + 1) n xs (omega (arith, len)) (λ i h.
        same (suc i) (omega (arith, h))
        ∙ ap (λ (k : ℕ). some (f k)) (let e : from + suc i ≡ from + 1 + i = omega arith in e)) in
      cc (first, rest)

  pub tabulate-some :
      (f : ℕ → Option A) (from : ℕ) (l : List A)
      → ((i : ℕ) → i < length l → f (from + i) ≡ get_elem? l i)
      → tabulate f from (length l) ≡ map some l
  tabulate-some f from [] same = refl
  tabulate-some f from (x ∷ xs) same =
      let first : f from ≡ some x =
        ap f (let e : from ≡ from + 0 = omega arith in e) ∙ same 0 (omega arith) in
      let rest = tabulate-some f (from + 1) xs (λ i h.
        ap f (let e : from + 1 + i ≡ from + suc i = omega arith in e)
        ∙ same (suc i) (omega (arith, h))) in
      cc (first, rest)

  pub length-append : (xs ys : List A) → length (xs ++ ys) ≡ length xs + length ys
  length-append [] ys = omega arith
  length-append (x ∷ xs) ys = omega (arith, length-append xs ys)

  pub length-set : (xs : List A) (i : ℕ) (v : A) → length (set xs i v) ≡ length xs
  length-set [] i v = refl
  length-set (x ∷ xs) zero v = refl
  length-set (x ∷ xs) (suc i) v = ap suc (length-set xs i v)

  pub length-replicate : (n : ℕ) (a : A) → length (replicate n a) ≡ n
  length-replicate zero a = refl
  length-replicate (suc n) a = ap suc (length-replicate n a)

  pub get_elem?-replicate : (n : ℕ) (a : A) (i : ℕ) → i < n → get_elem? (replicate n a) i ≡ some a
  get_elem?-replicate zero a i h = elim h [ ]
  get_elem?-replicate (suc n) a zero h = refl
  get_elem?-replicate (suc n) a (suc i) h = get_elem?-replicate n a i (omega arith)

  pub get_elem?-append_left :
      (xs ys : List A) (i : ℕ) → i < length xs → get_elem? (xs ++ ys) i ≡ get_elem? xs i
  get_elem?-append_left [] ys i h = elim h [ ]
  get_elem?-append_left (x ∷ xs) ys zero h = refl
  get_elem?-append_left (x ∷ xs) ys (suc i) h = get_elem?-append_left xs ys i (omega arith)

  pub get_elem?-append_right :
      (xs ys : List A) (i : ℕ) → get_elem? (xs ++ ys) (length xs + i) ≡ get_elem? ys i
  get_elem?-append_right [] ys i = ap (get_elem? ys) (omega arith)
  get_elem?-append_right (x ∷ xs) ys i =
      ap (get_elem? (x ∷ (xs ++ ys)))
        (let e : suc (length xs) + i ≡ suc (length xs + i) = omega arith in e)
      ∙ get_elem?-append_right xs ys i

  pub take_all : (k : ℕ) (xs : List A) → length xs ≤ k → take k xs ≡ xs
  take_all zero [] h = refl
  take_all zero (x ∷ xs) h = absurd (omega (arith, h))
  take_all (suc k) [] h = refl
  take_all (suc k) (x ∷ xs) h = ap (λ t. x ∷ t) (take_all k xs (omega (arith, h)))

  pub length-slice :
      (offset len : ℕ) (xs : List A)
      → offset + len ≤ length xs
      → length (take len (drop offset xs)) ≡ len
  length-slice zero zero xs h = refl
  length-slice zero (suc len) [] h = absurd (omega (arith, h))
  length-slice zero (suc len) (x ∷ xs) h = ap suc (length-slice zero len xs (omega (arith, h)))
  length-slice (suc offset) len [] h = absurd (omega (arith, h))
  length-slice (suc offset) len (x ∷ xs) h = length-slice offset len xs (omega (arith, h))

  pub get_elem?-slice :
      (offset len : ℕ) (xs : List A) (i : ℕ)
      → i < len
      → get_elem? (take len (drop offset xs)) i ≡ get_elem? xs (offset + i)
  get_elem?-slice zero zero xs i h = elim h [ ]
  get_elem?-slice zero (suc len) [] i h = refl
  get_elem?-slice zero (suc len) (x ∷ xs) zero h = refl
  get_elem?-slice zero (suc len) (x ∷ xs) (suc i) h =
      get_elem?-slice zero len xs i (omega arith)
      ∙ ap (get_elem? (x ∷ xs)) (let e : suc (0 + i) ≡ 0 + suc i = omega arith in e)
  get_elem?-slice (suc offset) zero [] i h = elim h [ ]
  get_elem?-slice (suc offset) (suc len) [] i h = refl
  get_elem?-slice (suc offset) len (x ∷ xs) i h =
      get_elem?-slice offset len xs i h
      ∙ ap (get_elem? (x ∷ xs)) (let e : suc (offset + i) ≡ suc offset + i = omega arith in e)

  -- Lists of one length with the same elements are equal.
  pub get_elem?-ext :
      (xs ys : List A)
      → length xs ≡ length ys
      → ((i : ℕ) → i < length xs → get_elem? xs i ≡ get_elem? ys i)
      → xs ≡ ys
  get_elem?-ext [] [] h same = refl
  get_elem?-ext [] (y ∷ ys) h same = absurd (omega (arith, h))
  get_elem?-ext (x ∷ xs) [] h same = absurd (omega (arith, h))
  get_elem?-ext (x ∷ xs) (y ∷ ys) h same =
      let first : some x ≡ some y = same zero (omega arith) in
      let rest = get_elem?-ext xs ys (omega (arith, h)) (λ i k. same (suc i) (omega (arith, k))) in
      cc (first, rest)

pub length-map {ℓ κ} :
    {A : Type ℓ} {B : Type κ} (f : A → B) (xs : List A) → length (map f xs) ≡ length xs
length-map f [] = refl
length-map f (x ∷ xs) = ap suc (length-map f xs)
