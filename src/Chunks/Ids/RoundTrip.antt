-- ===== src/Chunks/Ids/RoundTrip.antt =====
-- Scanning the chunk ID of a number.
use fusey.Base.{take_all}
use fusey.Base.{
  ℕ, zero, suc, ◌+◌, ◌-◌, ◌*◌, ◌/◌, ◌%◌, ◌^◌, ◌<◌, ◌≤◌, ◌≡◌, refl, ap, ◌∙◌, sym, arith, Bytes, [],
  ◌∷◌, ◌++◌, length, replicate, some, true, length-append,
}
use fusey.Chunks.Ids.Defs.{
  print, decimal, padded, chunk_id, chunk_id_prefix, cut_prefix, scan_digits, starts_with_digit,
  skip_blanks, scan_int8,
}

-- The value that a scan has read before `rest`.
pub scan-print :
    (fuel n : ℕ) (rest : Bytes) → n < fuel → scan_digits (print fuel n rest) 0 ≡ scan_digits rest n
unfolding scan_digits print
scan-print zero n rest h = elim h [ ]
scan-print (suc fuel) n rest h = ground (arith, scan-print fuel (n / 10) ((48 + n % 10) ∷ rest))

scan-zeros : (k : ℕ) (s : Bytes) → scan_digits (replicate k 48 ++ s) 0 ≡ scan_digits s 0
unfolding scan_digits
scan-zeros zero s = refl
scan-zeros (suc k) s = ground (arith, scan-zeros k s)

pub scan-padded : (n : ℕ) → scan_digits (padded n) 0 ≡ n
unfolding scan_digits
scan-padded n =
    scan-zeros (8 - length (decimal n)) (decimal n) ∙ scan-print (suc n) n [] (omega arith)

pub cut_prefix-append : (p s : Bytes) → cut_prefix p (p ++ s) ≡ some s
unfolding cut_prefix
cut_prefix-append [] s = refl
cut_prefix-append (c ∷ p) s = ground (arith, cut_prefix-append p s)

-- Two numbers with the same chunk ID are equal.
pub chunk_id-injective : (a b : ℕ) → chunk_id a ≡ chunk_id b → a ≡ b
unfolding chunk_id
chunk_id-injective a b h =
    let same : some (padded a) ≡ some (padded b) =
      sym (cut_prefix-append chunk_id_prefix (padded a))
      ∙ ap (cut_prefix chunk_id_prefix) h
      ∙ cut_prefix-append chunk_id_prefix (padded b) in
    let padded-eq : padded a ≡ padded b = cc same in
    sym (scan-padded a) ∙ ap (λ s. scan_digits s 0) padded-eq ∙ scan-padded b

pub print-starts_with_digit :
    (fuel n : ℕ) (rest : Bytes) → n < fuel → starts_with_digit (print fuel n rest) ≡ true
unfolding print
print-starts_with_digit zero n rest h = elim h [ ]
print-starts_with_digit (suc fuel) n rest h =
    ground (arith, print-starts_with_digit fuel (n / 10) ((48 + n % 10) ∷ rest))

padded-starts_with_digit :
    (k : ℕ) (s : Bytes)
    → starts_with_digit s ≡ true
    → starts_with_digit (replicate k 48 ++ s) ≡ true
padded-starts_with_digit zero s h = h
padded-starts_with_digit (suc k) s h = refl

pub skip_blanks-digit : (s : Bytes) → starts_with_digit s ≡ true → skip_blanks s ≡ s
unfolding skip_blanks
skip_blanks-digit [] h = refl
skip_blanks-digit (c ∷ s) h = ground arith

pub padded_starts : (n : ℕ) → starts_with_digit (padded n) ≡ true
padded_starts n =
    padded-starts_with_digit (8 - length (decimal n)) (decimal n)
      (print-starts_with_digit (suc n) n [] (omega arith))

-- Powers of ten.
abbrev tens : ℕ → ℕ
tens zero = 1
tens (suc k) = tens k * 10

length-print :
    (k fuel n : ℕ) (rest : Bytes)
    → n < fuel
    → n < tens (suc k)
    → length (print fuel n rest) ≤ suc k + length rest
unfolding print
length-print k zero n rest h small = elim h [ ]
length-print zero (suc fuel) n rest h small = ground arith
length-print (suc k) (suc fuel) n rest h small =
    ground (arith, length-print k fuel (n / 10) ((48 + n % 10) ∷ rest))

length-padded : (n : ℕ) → n < 10 ^ 8 → length (padded n) ≤ 8
length-padded n h = omega (
  arith,
  length-append (replicate (8 - length (decimal n)) 48) (decimal n),
  length-zeros (8 - length (decimal n)),
  length-print 7 (suc n) n [] (omega arith) (omega arith),
)
  where
    length-zeros : (k : ℕ) → length (replicate {A = ℕ} k 48) ≡ k
    length-zeros zero = refl
    length-zeros (suc k) = ap suc (length-zeros k)

scan_int8-digits :
    (s : Bytes) → starts_with_digit s ≡ true → length s ≤ 8 → scan_int8 s ≡ some (scan_digits s 0)
unfolding scan_int8
scan_int8-digits [] h short = ground arith
scan_int8-digits (c ∷ t) h short =
    rw (scan_int8, skip_blanks-digit (c ∷ t) h) (ground (arith, take_all 8 (c ∷ t) short))

-- %08d reads the number of every chunk ID below 10 ^ 8.
pub scan_int8-padded : (n : ℕ) → n < 10 ^ 8 → scan_int8 (padded n) ≡ some n
scan_int8-padded n h =
    scan_int8-digits (padded n) (padded_starts n) (length-padded n h) ∙ ap some (scan-padded n)
