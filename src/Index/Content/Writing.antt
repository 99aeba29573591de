-- ===== src/Index/Content/Writing.antt =====
-- WriteExtent's loop over the shared array, when no extent but the last is cut in two.
use fusey.Base.{
  ℕ, ◌+◌, ◌<◌, ◌≤◌, Option, none, some, List, [], ◌∷◌, ◌++◌, ◌≡◌, refl, sym, arith, ap, ◌∙◌,
  if◌then◌else◌, false, length, length-append,
}
use mathlib.Core.List.{append-nil, append_assoc}
use fusey.Index.Types.{Extent}
use fusey.Index.Overwrite.{Place, pieces, Survivors, push, push_all, overwrite, write_list}
use fusey.Index.Content.Defs.{
  All, Fits, covers, place, locate, coverage, carve, CutsInPlace, locate-append, coverage-append,
  All-append,
}
use fusey.Index.Content.Pieces.{pieces-Fits, locate-pieces, coverage-pieces}

pub kept-push :
    (capacity read : ℕ) (x : Extent) (u : List Extent) (s : Survivors)
    → (push capacity read x (u, s)).1.kept ≡ s.kept ++ x ∷ []
unfolding push
kept-push capacity read x u s = ground arith

pub kept-push_all :
    (capacity read : ℕ) (xs u : List Extent) (s : Survivors)
    → (push_all capacity read xs (u, s)).1.kept ≡ s.kept ++ xs
unfolding push_all
kept-push_all capacity read [] u s = sym (append-nil s.kept)
kept-push_all capacity read (x ∷ xs) u s = rw (
  kept-push_all capacity read xs (push capacity read x (u, s)).0 (push capacity read x (u, s)).1,
  kept-push,
  append_assoc,
)

-- An append to a slot that has been read leaves the rest alone.
unread-push :
    (capacity read : ℕ) (x : Extent) (u : List Extent) (s : Survivors)
    → length s.kept < read
    → (push capacity read x (u, s)).0 ≡ u
unfolding push
unread-push capacity read x u s h = ground arith

unread-push_nil :
    (capacity read : ℕ) (x : Extent) (s : Survivors) → (push capacity read x ([], s)).0 ≡ []
unfolding push
unread-push_nil capacity read x s = ground arith

unread-push_all_nil :
    (capacity read : ℕ) (xs : List Extent) (s : Survivors)
    → (push_all capacity read xs ([], s)).0 ≡ []
unfolding push_all
unread-push_all_nil capacity read [] s = refl
unread-push_all_nil capacity read (x ∷ xs) s =
    rw (push_all, unread-push_nil capacity read x s)
      (unread-push_all_nil capacity read xs (push capacity read x ([], s)).1)

unread-push_all :
    (capacity read : ℕ) (xs u : List Extent) (s : Survivors)
    → length s.kept < read
    → length xs ≤ 1
    → (push_all capacity read xs (u, s)).0 ≡ u
unfolding push_all
unread-push_all capacity read [] u s h k = refl
unread-push_all capacity read (x ∷ []) u s h k = unread-push capacity read x u s h
unread-push_all capacity read (x ∷ y ∷ xs) u s h k = absurd (omega arith)

length-kept :
    (capacity read : ℕ) (xs u : List Extent) (s : Survivors)
    → length (push_all capacity read xs (u, s)).1.kept ≡ length s.kept + length xs
length-kept capacity read xs u s =
    ap length (kept-push_all capacity read xs u s) ∙ length-append s.kept xs

module _ (capacity : ℕ) (ext : Extent) where
  overwrite-carve :
      (u : List Extent) (read : ℕ) (s : Survivors)
      → length s.kept ≤ read
      → CutsInPlace ext u
      → overwrite capacity ext (length u) read u s ≡ s.kept ++ carve ext u
  unfolding overwrite carve
  overwrite-carve [] read s h c = sym (append-nil s.kept)
  overwrite-carve (e ∷ []) read s h c =
      kept-push_all capacity (read + 1) (pieces ext e) [] s
      ∙ ap (λ l. s.kept ++ l) (sym (append-nil (pieces ext e)))
  overwrite-carve (e ∷ f ∷ u) read s h c =
      let t = (push_all capacity (read + 1) (pieces ext e) (f ∷ u, s)).1 in
      let short : length t.kept ≤ read + 1 =
        omega (arith, length-kept capacity (read + 1) (pieces ext e) (f ∷ u) s, c.0) in
      rw (overwrite, unread-push_all capacity (read + 1) (pieces ext e) (f ∷ u) s (omega arith) c.0)
        (overwrite-carve (f ∷ u) (read + 1) t short c.1
          ∙ rw (kept-push_all capacity (read + 1) (pieces ext e) (f ∷ u) s, append_assoc))

-- The extent list that WriteExtent builds in the array of the old one is what the loop body leaves of
-- each old extent, in their order, and then the new one: if no extent but the last is cut in two.
pub write_list-carve :
    (spare : ℕ) (ext : Extent) (es : List Extent)
    → CutsInPlace ext es
    → write_list spare ext es ≡ carve ext es ++ ext ∷ []
unfolding write_list
write_list-carve spare ext es c =
    ap (λ l. l ++ ext ∷ [])
      (overwrite-carve (length es + spare) ext es 0 (record { kept = []; moved = false })
        (omega arith) c)

module _ (ext : Extent) (h : Fits ext) where
  locate-carve :
      (es : List Extent) (p : ℕ) (found : Option Place)
      → All Fits es
      → locate found (carve ext es) p ≡ (if covers ext p then found else locate found es p)
  unfolding carve locate
  locate-carve [] p found k = ground arith
  locate-carve (e ∷ es) p found k =
      rw (locate-append, locate-pieces ext e h k.0, locate-carve es p _ k.1) (ground arith)

  coverage-carve :
      (es : List Extent) (p : ℕ)
      → All Fits es
      → coverage (carve ext es) p ≡ (if covers ext p then 0 else coverage es p)
  unfolding carve coverage
  coverage-carve [] p k = ground arith
  coverage-carve (e ∷ es) p k =
      rw (coverage-append, coverage-pieces ext e h k.0, coverage-carve es p k.1) (ground arith)

  carve-Fits : (es : List Extent) → All Fits es → All Fits (carve ext es)
  unfolding carve
  carve-Fits [] k = tt
  carve-Fits (e ∷ es) k =
      All-append Fits (pieces ext e) (carve ext es) (pieces-Fits ext e h k.0) (carve-Fits es k.1)

  module _ (spare : ℕ) (es : List Extent) (k : All Fits es) (c : CutsInPlace ext es) where
    -- Every byte of the written range is in the new extent, and every other byte where it was.
    pub locate-write_list :
        (p : ℕ)
        → locate none (write_list spare ext es) p
          ≡ (if covers ext p then some (place ext p) else locate none es p)
    unfolding locate
    locate-write_list p =
        rw (write_list-carve spare ext es c, locate-append, locate-carve es p none k) (ground arith)

    -- A written byte is in one extent, and every other byte in as many as before.
    pub coverage-write_list :
        (p : ℕ) → coverage (write_list spare ext es) p ≡ (if covers ext p then 1 else coverage es p)
    unfolding coverage
    coverage-write_list p =
        rw (write_list-carve spare ext es c, coverage-append, coverage-carve es p k) (ground arith)

    pub write_list-Fits : All Fits (write_list spare ext es)
    write_list-Fits =
        rw (write_list-carve spare ext es c)
          (All-append Fits (carve ext es) (ext ∷ []) (carve-Fits es k) (h, tt))
