-- ===== src/Fuse/Copying.antt =====
-- The steps of Read's loop: the copy of one extent into the buffer, and which extent a byte comes from.
use fusey.Base.{
  ℕ, zero, suc, ◌+◌, ◌-◌, ◌^◌, ◌<◌, ◌≤◌, Bytes, Option, none, some, List, [], ◌∷◌, ◌≡◌, refl, arith,
  ap, ◌&&◌, if◌then◌else◌, ltb, leb, length, get_elem?,
}
use fusey.Base.Word.{add64, add64-eq, lt64-eq}
use fusey.Index.Types.{Extent}
use fusey.Index.Overwrite.{Place}
use fusey.Index.Content.{Fits, place, locate}
use fusey.Fuse.Files.{copy_at, max64, min64}

pub length-copy_at : (at : ℕ) (d buf : Bytes) → length (copy_at at d buf) ≡ length buf
unfolding copy_at
length-copy_at at [] buf = refl
length-copy_at at (b ∷ d) [] = refl
length-copy_at zero (b ∷ d) (x ∷ buf) = ap suc (length-copy_at zero d buf)
length-copy_at (suc at) (b ∷ d) (x ∷ buf) = ap suc (length-copy_at at (b ∷ d) buf)

pub get_elem?-copy_at :
    (at : ℕ) (d buf : Bytes) (i : ℕ)
    → at + length d ≤ length buf
    → get_elem? (copy_at at d buf) i
      ≡ (if leb at i && ltb i (at + length d) then get_elem? d (i - at) else get_elem? buf i)
unfolding copy_at
get_elem?-copy_at at [] buf i h = ground arith
get_elem?-copy_at at (b ∷ d) [] i h = ground arith
get_elem?-copy_at zero (b ∷ d) (x ∷ buf) zero h = ground arith
get_elem?-copy_at zero (b ∷ d) (x ∷ buf) (suc i) h =
    ground (arith, get_elem?-copy_at zero d buf i (omega arith))
get_elem?-copy_at (suc at) (b ∷ d) (x ∷ buf) zero h = ground arith
get_elem?-copy_at (suc at) (b ∷ d) (x ∷ buf) (suc i) h =
    ground (arith, get_elem?-copy_at at (b ∷ d) buf i (omega arith))

-- The place that a list gives, or else the one before it.
abbrev pub or_else : Option Place → Option Place → Option Place
or_else found none = found
or_else found (some at) = some at

pub locate-or_else :
    (es : List Extent) (p : ℕ) (found : Option Place)
    → locate found es p ≡ or_else found (locate none es p)
unfolding locate
locate-or_else [] p found = refl
locate-or_else (e ∷ es) p found =
    ground (arith, locate-or_else es p found, locate-or_else es p (some (place e p)))

-- The part of the range that the extent covers.
abbrev pub start_of : Extent → ℕ → ℕ
start_of e off = if ltb e.file_offset off then off else e.file_offset

abbrev pub stop_of : Extent → ℕ → ℕ
stop_of e end = if ltb end (e.file_offset + e.len) then end else e.file_offset + e.len

module _ (e : Extent) (off end : ℕ) (fits : Fits e) (h : off < end) (small : end < 2 ^ 63) where
  pub max64-start_of : max64 off e.file_offset ≡ start_of e off
  unfolding max64
  max64-start_of = ground (arith, lt64-eq e.file_offset off)

  pub min64-stop_of : min64 end (add64 e.file_offset e.len) ≡ stop_of e end
  unfolding min64
  min64-stop_of = ground (arith, add64-eq e.file_offset e.len, lt64-eq end (e.file_offset + e.len))
