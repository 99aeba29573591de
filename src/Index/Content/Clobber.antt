-- ===== src/Index/Content/Clobber.antt =====
-- WriteExtent's loop over the shared array, when an extent that is not the last is cut in two: its
-- tail takes the slot of the next extent before that one is read.
use fusey.Base.{
  ℕ, zero, suc, ◌+◌, ◌<◌, ◌≤◌, Option, none, List, [], ◌∷◌, ◌++◌, ◌≡◌, refl, arith, ap, ◌∙◌, false,
  length, length-append, replicate,
}
use mathlib.Core.List.{append_assoc, append-nil}
use fusey.Index.Types.{Extent}
use fusey.Index.Overwrite.{Place, pieces, Survivors, push, push_all, overwrite, write_list}
use fusey.Index.Content.Defs.{All, Fits, covers, locate, locate-append}
use fusey.Index.Content.Pieces.{exact_pieces, pieces-exact, head_of, tail_of}
use fusey.Index.Content.Writing.{kept-push_all}

abbrev in_array : List Extent → Survivors
in_array kept = record { kept = kept; moved = false }

module _ (capacity : ℕ) where
  push_read :
      (read : ℕ) (x : Extent) (u kept : List Extent)
      → length kept < read
      → read ≤ capacity
      → push capacity read x (u, in_array kept) ≡ (u, in_array (kept ++ x ∷ []))
  unfolding push
  push_read read x u kept h k = ground arith

  push_unread :
      (read : ℕ) (x f : Extent) (u kept : List Extent)
      → length kept ≡ read
      → read < capacity
      → push capacity read x (f ∷ u, in_array kept) ≡ (x ∷ u, in_array (kept ++ x ∷ []))
  unfolding push
  push_unread read x f u kept h k = ground arith

  module _ (ext : Extent) where
    overwrite_step :
        (x : Extent) (n read : ℕ) (u kept : List Extent)
        → pieces ext x ≡ x ∷ []
        → length kept ≤ read
        → read + 1 ≤ capacity
        → overwrite capacity ext (suc n) read (x ∷ u) (in_array kept)
          ≡ overwrite capacity ext n (read + 1) u (in_array (kept ++ x ∷ []))
    unfolding overwrite push_all
    overwrite_step x n read u kept e h k =
        rw (overwrite, e, push_all, push_read (read + 1) x u kept (omega arith) k)

    overwrite-apart :
        (pre u kept : List Extent)
        → All (λ x. pieces ext x ≡ x ∷ []) pre
        → length kept + length pre ≤ capacity
        → overwrite capacity ext (length (pre ++ u)) (length kept) (pre ++ u) (in_array kept)
          ≡ overwrite capacity ext (length u) (length (kept ++ pre)) u (in_array (kept ++ pre))
    overwrite-apart [] u kept h k = rw append-nil
    overwrite-apart (x ∷ pre) u kept h k =
        let e : length (kept ++ x ∷ []) ≡ length kept + 1 =
          omega (arith, length-append kept (x ∷ [])) in
        overwrite_step x (length (pre ++ u)) (length kept) (pre ++ u) kept h.0 (omega arith)
          (omega arith)
        ∙ rw (← e) (overwrite-apart pre u (kept ++ x ∷ []) h.1 (omega arith) ∙ rw append_assoc)

    overwrite-repeats :
        (tail : Extent) (rest kept : List Extent) (read : ℕ)
        → pieces ext tail ≡ tail ∷ []
        → length kept ≡ read + 1
        → read + 1 + length rest ≤ capacity
        → overwrite capacity ext (suc (length rest)) read (tail ∷ rest) (in_array kept)
          ≡ kept ++ replicate (suc (length rest)) tail
    unfolding overwrite push_all
    overwrite-repeats tail [] kept read e h k =
        rw (overwrite, e) (kept-push_all capacity (read + 1) (tail ∷ []) [] (in_array kept))
    overwrite-repeats tail (f ∷ rest) kept read e h k =
        rw (overwrite, e, push_all, push_unread (read + 1) tail f rest kept h (omega arith))
          (overwrite-repeats tail rest (kept ++ tail ∷ []) (read + 1) e
              (omega (arith, length-append kept (tail ∷ []), h)) (omega arith)
            ∙ append_assoc kept (tail ∷ []) (replicate (suc (length rest)) tail))

    -- One extent is cut in two with others behind it.
    overwrite_cut :
        (e head tail : Extent) (rest kept : List Extent)
        → pieces ext e ≡ head ∷ tail ∷ []
        → pieces ext tail ≡ tail ∷ []
        → length kept + suc (length rest) ≤ capacity
        → overwrite capacity ext (suc (length rest)) (length kept) (e ∷ rest) (in_array kept)
          ≡ kept ++ head ∷ tail ∷ replicate (length rest) tail
    unfolding overwrite push_all
    overwrite_cut e head tail [] kept cut apart k =
        rw (overwrite, cut)
          (kept-push_all capacity (length kept + 1) (head ∷ tail ∷ []) [] (in_array kept))
    overwrite_cut e head tail (f ∷ rest) kept cut apart k =
        let h : length (kept ++ head ∷ []) ≡ length kept + 1 =
          omega (arith, length-append kept (head ∷ [])) in
        let h' : length ((kept ++ head ∷ []) ++ tail ∷ []) ≡ length kept + 1 + 1 =
          omega (arith, length-append (kept ++ head ∷ []) (tail ∷ []), h) in
        rw
          (
            overwrite,
            cut,
            push_all,
            push_read (length kept + 1) head (f ∷ rest) kept (omega arith) (omega arith),
            push_unread (length kept + 1) tail f rest (kept ++ head ∷ []) h (omega arith),
          )
          (overwrite-repeats tail rest ((kept ++ head ∷ []) ++ tail ∷ []) (length kept + 1) apart h'
              (omega arith)
            ∙ rw (append_assoc, append_assoc))

-- The write lies inside the extent, with bytes left on both sides.
abbrev pub Inside : Extent → Extent → Type 0
Inside ext e =
    (e.file_offset < ext.file_offset) × (ext.file_offset + ext.len < e.file_offset + e.len)

-- The write and the extent have no byte in common.
abbrev pub Apart : Extent → Extent → Type 0
Apart ext e = exact_pieces ext e ≡ e ∷ []

module _ (ext e : Extent) (h : Fits ext) (k : Fits e) (inside : Inside ext e) where
  pieces_cut : pieces ext e ≡ head_of ext e ∷ tail_of ext e ∷ []
  unfolding exact_pieces
  pieces_cut = rw (pieces-exact ext e h k) (ground arith)

  pieces_tail : pieces ext (tail_of ext e) ≡ tail_of ext e ∷ []
  unfolding exact_pieces
  pieces_tail = rw (pieces-exact ext (tail_of ext e) h (omega arith, omega arith)) (ground arith)

  module _ (spare : ℕ) (pre rest : List Extent) (apart : All (λ x. pieces ext x ≡ x ∷ []) pre) where
    -- The slots behind the cut extent all get its tail.
    pub write_list-clobber :
        write_list spare ext (pre ++ e ∷ rest)
        ≡ (pre ++ head_of ext e ∷ tail_of ext e ∷ replicate (length rest) (tail_of ext e))
          ++ ext ∷ []
    unfolding write_list
    write_list-clobber =
        let capacity = length (pre ++ e ∷ rest) + spare in
        let size = length-append pre (e ∷ rest) in
        ap (λ l. l ++ ext ∷ [])
          (overwrite-apart capacity ext pre (e ∷ rest) [] apart (omega (arith, size))
            ∙ overwrite_cut capacity ext e (head_of ext e) (tail_of ext e) rest pre pieces_cut
                pieces_tail (omega (arith, size)))

    locate-replicate :
        (n p : ℕ) (x : Extent) (found : Option Place)
        → covers x p ≡ false
        → locate found (replicate n x) p ≡ found
    unfolding locate
    locate-replicate zero p x found h = refl
    locate-replicate (suc n) p x found h = rw (locate, h) (locate-replicate n p x found h)

    -- A byte outside the cut extent and the write is where the extents before the cut one say it is:
    -- what the extents behind it say is lost.
    pub locate-clobber :
        (p : ℕ)
        → covers e p ≡ false
        → covers ext p ≡ false
        → locate none (write_list spare ext (pre ++ e ∷ rest)) p ≡ locate none pre p
    unfolding locate
    locate-clobber p he hx =
        rw (write_list-clobber, locate-append, locate-append, hx, locate)
          (locate-replicate (length rest) p (tail_of ext e) _ tail_misses ∙ ground arith)
      where
        tail_misses : covers (tail_of ext e) p ≡ false
        tail_misses = ground arith
