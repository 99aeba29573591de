-- ===== src/Chunks/Ids/Defs.antt =====
-- Decimal digits as fmt prints and scans them.
use fusey.Base.{
  ℕ, zero, suc, ◌+◌, ◌-◌, ◌*◌, ◌/◌, ◌%◌, Bytes, Bool, false, Option, none, some, [], ◌∷◌, ◌++◌,
  ◌&&◌, ◌||◌, not, take, if◌then◌else◌, ltb, leb, ◌==◌, nat_key, length, replicate,
}

-- The digits of a number; `fuel` bounds their count.
unfoldable pub print : ℕ → ℕ → Bytes → Bytes
print zero n rest = rest
print (suc fuel) n rest =
    let more = print fuel (n / 10) ((b'0' + n % 10) ∷ rest) in
    if ltb n 10 then (b'0' + n) ∷ rest else more

-- %d of an int that is not negative
abbrev pub decimal : ℕ → Bytes
decimal n = print (suc n) n []

-- %08d
abbrev pub padded : ℕ → Bytes
padded n = replicate (8 - length (decimal n)) b'0' ++ decimal n

-- "chunk-"
abbrev pub chunk_id_prefix : Bytes
chunk_id_prefix = b'c' ∷ b'h' ∷ b'u' ∷ b'n' ∷ b'k' ∷ b'-' ∷ []

-- chunkID and chunkSeqToID
unfoldable pub chunk_id : ℕ → Bytes
chunk_id seq = chunk_id_prefix ++ padded seq

abbrev pub is_digit : ℕ → Bool
is_digit c = leb b'0' c && leb c b'9'

-- strings.HasPrefix(s, prefix), and s[len(prefix):]
unfoldable pub cut_prefix : Bytes → Bytes → Option Bytes
cut_prefix [] s = some s
cut_prefix (p ∷ prefix) [] = none
cut_prefix (p ∷ prefix) (c ∷ s) = if p == c then cut_prefix prefix s else none

-- The digits at the front of the input, and their value; a scan stops at the first other byte.
unfoldable pub scan_digits : Bytes → ℕ → ℕ
scan_digits [] n = n
scan_digits (c ∷ s) n =
    let more = scan_digits s (n * 10 + (c - b'0')) in if is_digit c then more else n

abbrev pub starts_with_digit : Bytes → Bool
starts_with_digit [] = false
starts_with_digit (c ∷ s) = is_digit c

-- The blanks that Sscanf skips in front of %d, of those in ASCII.
abbrev is_blank : ℕ → Bool
is_blank c = c == b' ' || (leb 9 c && leb c 13 && not (c == 10))

unfoldable pub skip_blanks : Bytes → Bytes
skip_blanks [] = []
skip_blanks (c ∷ s) = let rest = skip_blanks s in if is_blank c then rest else c ∷ s

-- %08d into an int, of a number that is not negative: at most eight bytes, a sign among them.
unfoldable pub scan_int8 : Bytes → Option ℕ
scan_int8 s = elim (skip_blanks s) [
  | [] ↦ none
  | c ∷ t ↦
      let digits = if c == b'+' || c == b'-' then take 7 t else take 8 (c ∷ t) in
      if starts_with_digit digits && not (c == b'-' && ltb 0 (scan_digits digits 0))
      then some (scan_digits digits 0)
      else none
]
