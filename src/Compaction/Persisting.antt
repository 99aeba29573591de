-- ===== src/Compaction/Persisting.antt =====
-- Compact remaps the index and then persists it: whether what it persists can be written.
use fusey.Base.{ℕ, bytes_key, none, List, [], ◌∷◌, ◌++◌, ◌≡◌, refl, arith, ap, map}
use fusey.Map.{Map}
use fusey.Index.Types.{Index, Extent}
use fusey.Index.Overwrite.{Place, remapped, remap_all, remap_extents}
use fusey.Chunks.Ids.{cut_prefix}
use fusey.Persist.{parse_chunk_seq, to_wire_extent, to_wire_extents, to_wire_map}
use fusey.Compaction.Defs.{compacted_id}

parse_chunk_seq-compacted_id : (nanos seq : ℕ) → parse_chunk_seq (compacted_id nanos seq) ≡ none
unfolding parse_chunk_seq compacted_id cut_prefix
parse_chunk_seq-compacted_id nanos seq = refl

to_wire_extents-bad :
    (pre : List Extent) (e : Extent) (rest : List Extent)
    → to_wire_extent e ≡ none
    → to_wire_extents (pre ++ e ∷ rest) ≡ none
unfolding to_wire_extents
to_wire_extents-bad [] e rest h = ground arith
to_wire_extents-bad (x ∷ pre) e rest h = ground (arith, to_wire_extents-bad pre e rest h)

to_wire_map-bad :
    (m : Map ℕ (List Extent)) (ino : ℕ) (es : List Extent) (m' : Map ℕ (List Extent))
    → to_wire_extents es ≡ none
    → to_wire_map (m ++ (ino, es) ∷ m') ≡ none
unfolding to_wire_map
to_wire_map-bad [] ino es m' h = ground arith
to_wire_map-bad ((i, xs) ∷ m) ino es m' h = ground (arith, to_wire_map-bad m ino es m' h)

map-append {ℓ κ} :
    {A : Type ℓ} {B : Type κ} (f : A → B) (xs ys : List A) → map f (xs ++ ys) ≡ map f xs ++ map f ys
map-append f [] ys = refl
map-append f (x ∷ xs) ys = ap (λ l. f x ∷ l) (map-append f xs ys)

-- Once RemapExtents has moved an extent to a chunk that Compact has named, the index has no wire
-- form: persisting it fails.
pub to_wire_map-compacted :
    (remap : List (Place × Extent)) (idx : Index) (nanos seq : ℕ) (e : Extent) (ino : ℕ)
    (m m' : Map ℕ (List Extent)) (pre rest : List Extent)
    → idx.extents ≡ m ++ (ino, pre ++ e ∷ rest) ∷ m'
    → (remapped remap e).chunk_id ≡ compacted_id nanos seq
    → to_wire_map (remap_extents remap idx).extents ≡ none
unfolding remap_extents remap_all to_wire_extent
to_wire_map-compacted remap idx nanos seq e ino m m' pre rest split moved =
    let bad : to_wire_extent (remapped remap e) ≡ none =
      rw (moved, to_wire_extent, parse_chunk_seq-compacted_id nanos seq) refl in
    rw (split, map-append, map-append)
      (to_wire_map-bad _ ino _ _ (to_wire_extents-bad _ (remapped remap e) _ bad))
