-- ===== src/Index/Content/Trimming.antt =====
-- The loop of trimExtents, byte by byte.
use fusey.Base.{ℕ, ◌+◌, ◌-◌, ◌^◌, ◌<◌, Option, some, List, [], ◌∷◌, ◌≡◌, arith, if◌then◌else◌, ltb}
use fusey.Base.Word.{add64-eq, sub64-eq, lt64-eq, le64-eq}
use fusey.Index.Types.{Extent}
use fusey.Index.Attrs.{trim}
use fusey.Index.Overwrite.{Place}
use fusey.Index.Content.Defs.{All, Fits, locate, coverage}

module _ (size : ℕ) (h : size < 2 ^ 63) where
  pub locate-trim :
      (es : List Extent) (p : ℕ) (found : Option Place)
      → All Fits es
      → locate found (trim size es) p ≡ (if ltb p size then locate found es p else found)
  unfolding trim locate
  locate-trim [] p found k = ground arith
  locate-trim (e ∷ es) p found k = ground (
    arith,
    add64-eq e.file_offset e.len,
    le64-eq size e.file_offset,
    lt64-eq size (e.file_offset + e.len),
    sub64-eq size e.file_offset,
    locate-trim es p found k.1,
    locate-trim es p (some (e.chunk_id, e.chunk_offset + (p - e.file_offset))) k.1,
  )

  pub coverage-trim :
      (es : List Extent) (p : ℕ)
      → All Fits es
      → coverage (trim size es) p ≡ (if ltb p size then coverage es p else 0)
  unfolding trim coverage
  coverage-trim [] p k = ground arith
  coverage-trim (e ∷ es) p k = ground (
    arith,
    add64-eq e.file_offset e.len,
    le64-eq size e.file_offset,
    lt64-eq size (e.file_offset + e.len),
    sub64-eq size e.file_offset,
    coverage-trim es p k.1,
  )

  pub trim-Fits : (es : List Extent) → All Fits es → All Fits (trim size es)
  unfolding trim
  trim-Fits [] k = tt
  trim-Fits (e ∷ es) k = ground (
    arith,
    add64-eq e.file_offset e.len,
    le64-eq size e.file_offset,
    lt64-eq size (e.file_offset + e.len),
    sub64-eq size e.file_offset,
    trim-Fits es k.1,
  )
