-- ===== src/Persist/RoundTrip.antt =====
-- The wire form of extents, and what is loaded from it.
use fusey.Base.{ℕ, ◌^◌, ◌<◌, Bytes, some, List, [], ◌∷◌, ◌≡◌, refl, arith, ap, sym, nat_key, map}
use fusey.Map.{Map}
use fusey.Index.Types.{Extent}
use fusey.Index.Content.{All}
use fusey.Chunks.Ids.{chunk_id, chunk_id_prefix, padded}
use fusey.Chunks.Ids.RoundTrip.{scan-padded, padded_starts, skip_blanks-digit, cut_prefix-append}
use fusey.Persist.Defs.{
  scan_uint32, parse_chunk_seq, to_wire_extent, from_wire_extent, to_wire_extents, to_wire_map,
  from_wire_map, WireExtent,
}

-- Parsing the chunk ID of a number below 2 ^ 32 gives the number back.
pub parse_chunk_seq-chunk_id : (seq : ℕ) → seq < 2 ^ 32 → parse_chunk_seq (chunk_id seq) ≡ some seq
unfolding parse_chunk_seq chunk_id scan_uint32
parse_chunk_seq-chunk_id seq h =
    let digit = padded_starts seq in
    rw (cut_prefix-append chunk_id_prefix (padded seq), parse_chunk_seq)
      (rw (skip_blanks-digit (padded seq) digit, scan_uint32)
        (rw (digit, scan-padded) (ground arith)))

-- The chunk ID is one that the chunk store gives, of a 32-bit number.
abbrev pub IsNumbered : Extent → Type 0
IsNumbered e = (seq : ℕ) × (seq < 2 ^ 32) × (e.chunk_id ≡ chunk_id seq)

from_wire_extent-to_wire_extent :
    (e : Extent)
    → IsNumbered e
    → (w : WireExtent) × (to_wire_extent e ≡ some w) × (from_wire_extent w ≡ e)
unfolding to_wire_extent from_wire_extent
from_wire_extent-to_wire_extent e (seq, small, named) =
    let w : WireExtent = record {
      chunk_seq = seq;
      chunk_offset = e.chunk_offset;
      len = e.len;
      file_offset = e.file_offset;
    } in
    (
      w,
      rw (named, to_wire_extent, parse_chunk_seq-chunk_id seq small) refl,
      ap (λ (id : Bytes). record e { chunk_id = id }) (sym named),
    )

from_wire_extents-to_wire_extents :
    (es : List Extent)
    → All IsNumbered es
    → (ws : List WireExtent) × (to_wire_extents es ≡ some ws) × (map from_wire_extent ws ≡ es)
unfolding to_wire_extents
from_wire_extents-to_wire_extents [] h = ([], refl, refl)
from_wire_extents-to_wire_extents (e ∷ es) (h, hs) =
    let (w, to, from) = from_wire_extent-to_wire_extent e h in
    let (ws, tos, froms) = from_wire_extents-to_wire_extents es hs in
    (w ∷ ws, rw (to_wire_extents, to, tos) refl, cc (from, froms))

-- An extent map in which every chunk ID is that of a number below 2 ^ 32 has a wire form, from
-- which loading restores it.
pub from_wire_map-to_wire_map :
    (m : Map ℕ (List Extent))
    → All (λ (ino, es). All IsNumbered es) m
    → (w : Map ℕ (List WireExtent)) × (to_wire_map m ≡ some w) × (from_wire_map w ≡ m)
unfolding to_wire_map from_wire_map
from_wire_map-to_wire_map [] h = ([], refl, refl)
from_wire_map-to_wire_map ((ino, es) ∷ m) (h, hs) =
    let (ws, to, from) = from_wire_extents-to_wire_extents es h in
    let (w, tos, froms) = from_wire_map-to_wire_map m hs in
    ((ino, ws) ∷ w, rw (to_wire_map, to, tos) refl, cc (from, froms))
