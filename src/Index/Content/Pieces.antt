-- ===== src/Index/Content/Pieces.antt =====
-- One step of WriteExtent's loop, without overflow.
use fusey.Base.{
  ℕ, ◌+◌, ◌-◌, Option, some, List, [], ◌∷◌, ◌++◌, ◌≡◌, arith, if◌then◌else◌, ltb, leb, ◌||◌,
}
use fusey.Base.Word.{add64-eq, sub64-eq, lt64-eq, le64-eq}
use fusey.Index.Types.{Extent}
use fusey.Index.Overwrite.{Place, pieces}
use fusey.Index.Content.Defs.{All, Fits, covers, place, locate, coverage, CutsInPlace, NoEarlyCut}

abbrev pub head_of : Extent → Extent → Extent
head_of ext e = record e { len = ext.file_offset - e.file_offset }

abbrev pub tail_of : Extent → Extent → Extent
tail_of ext e = record {
  chunk_id = e.chunk_id;
  chunk_offset = e.chunk_offset + (ext.file_offset + ext.len - e.file_offset);
  len = e.file_offset + e.len - (ext.file_offset + ext.len);
  file_offset = ext.file_offset + ext.len;
}

-- The loop body in exact arithmetic.
unfoldable pub exact_pieces : Extent → Extent → List Extent
exact_pieces ext e =
    if leb (e.file_offset + e.len) ext.file_offset || leb (ext.file_offset + ext.len) e.file_offset
    then e ∷ []
    else (if ltb e.file_offset ext.file_offset then head_of ext e ∷ [] else [])
      ++ (if ltb (ext.file_offset + ext.len) (e.file_offset + e.len)
          then tail_of ext e ∷ []
          else [])

module _ (ext e : Extent) (h : Fits ext) (k : Fits e) where
  pub pieces-exact : pieces ext e ≡ exact_pieces ext e
  unfolding pieces exact_pieces
  pieces-exact = ground (
    arith,
    add64-eq ext.file_offset ext.len,
    add64-eq e.file_offset e.len,
    le64-eq (e.file_offset + e.len) ext.file_offset,
    le64-eq (ext.file_offset + ext.len) e.file_offset,
    lt64-eq e.file_offset ext.file_offset,
    lt64-eq (ext.file_offset + ext.len) (e.file_offset + e.len),
    sub64-eq ext.file_offset e.file_offset,
    sub64-eq (ext.file_offset + ext.len) e.file_offset,
    sub64-eq (e.file_offset + e.len) (ext.file_offset + ext.len),
    add64-eq e.chunk_offset (ext.file_offset + ext.len - e.file_offset),
  )

  pub pieces-Fits : All Fits (pieces ext e)
  unfolding exact_pieces
  pieces-Fits = rw pieces-exact (ground arith)

  pub locate-pieces :
      (found : Option Place) (p : ℕ)
      → locate found (pieces ext e) p
        ≡ (if covers ext p then found else if covers e p then some (place e p) else found)
  unfolding exact_pieces locate
  locate-pieces found p = rw pieces-exact (ground arith)

  pub coverage-pieces :
      (p : ℕ)
      → coverage (pieces ext e) p ≡ (if covers ext p then 0 else if covers e p then 1 else 0)
  unfolding exact_pieces coverage
  coverage-pieces p = rw pieces-exact (ground arith)

pub cuts_in_place :
    (ext : Extent) (es : List Extent)
    → Fits ext
    → All Fits es
    → NoEarlyCut ext.file_offset ext.len es
    → CutsInPlace ext es
cuts_in_place ext [] h k c = tt
cuts_in_place ext (e ∷ []) h k c = tt
cuts_in_place ext (e ∷ f ∷ es) h k c = (
  rw (pieces-exact ext e h k.0) (unfold exact_pieces in ground arith),
  cuts_in_place ext (f ∷ es) h k.1 c.1,
)
