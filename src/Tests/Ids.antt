-- ===== src/Tests/Ids.antt =====
-- Chunk IDs and the wire form on concrete numbers.
use fusey.Base.{ℕ, bytes_beq, none, List, [], ◌∷◌, ◌≡◌, refl}
use fusey.Map.{Map}
use fusey.Index.Types.{Index, Extent}
use fusey.Index.Tree.{new}
use fusey.Index.Overwrite.{Place, remap_extents, remapped}
use fusey.Chunks.Ids.{chunk_id, print}
use fusey.Persist.{to_wire_map}
use fusey.Compaction.{compacted_id}
use fusey.Compaction.Persisting.{to_wire_map-compacted}

chunk_id_7 :
    chunk_id 7
    ≡ b'c' ∷ b'h' ∷ b'u' ∷ b'n' ∷ b'k' ∷ b'-' ∷ b'0' ∷ b'0' ∷ b'0' ∷ b'0' ∷ b'0' ∷ b'0' ∷ b'0'
      ∷ b'7' ∷ []
unfolding chunk_id print
chunk_id_7 = refl

abbrev of_seven : Extent
of_seven = record { chunk_id = chunk_id 7; chunk_offset = 16; len = 4; file_offset = 0 }

abbrev files : Map ℕ (List Extent)
files = (2, []) ∷ (3, of_seven ∷ []) ∷ []

-- What Compact does to the extent: it moves it to the first output of a run.
abbrev moved : List (Place × Extent)
moved = ((chunk_id 7, 16), record of_seven { chunk_id = compacted_id 99 0; chunk_offset = 0 }) ∷ []

abbrev before : Index
before = record (new 4096 0) { extents = files }

to_wire_map-compacted_example : to_wire_map (remap_extents moved before).extents ≡ none
unfolding remapped chunk_id print bytes_beq compacted_id
to_wire_map-compacted_example =
    to_wire_map-compacted moved before 99 0 of_seven 3 ((2, []) ∷ []) [] [] [] refl refl
