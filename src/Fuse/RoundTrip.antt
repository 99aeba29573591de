-- ===== src/Fuse/RoundTrip.antt =====
-- Write of a file handle, and then Read of the same range.
use fusey.Base.{
  ℕ, ◌+◌, ◌^◌, ◌<◌, ◌≤◌, Bytes, Option, some, List, ◌≡◌, arith, sym, ◌∙◌, ap, length, get_elem?-ext,
  ok, inl, inr, Option-cases, nat_key,
}
use fusey.Map.{lookup, lookup-insert}
use fusey.Index.Types.{Inode, Extent}
use fusey.Index.Overwrite.{write_extent, write_list}
use fusey.Index.Content.{NoEarlyCut}
use fusey.Index.Files.{file_extents}
use fusey.Index.Files.Writing.{size-write_extent}
use fusey.Chunks.Store.{Store, IsLawful}
use fusey.Chunks.AppendOnly.{extent-append}
use fusey.Chunks.Backing.{get_elem?-some}
use fusey.Fuse.Replies.{done}
use fusey.Fuse.Files.{Fusey, read, write}
use fusey.Fuse.Writing.{written, Fits-written, write_done}
use fusey.Fuse.ReadBack.{IsReadable, read_done, length-read, write-IsReadable, byte_or_zero}

module _ (S : Store) (object : Bytes → S.State → Option Bytes) (law : IsLawful S object)
    (spare ino : ℕ) (d : Bytes) (off now later : ℕ) (f f' f'' : Fusey S) (out : Bytes)
    (x : IsReadable S object f) (n : ℕ) (some_bytes : 0 < length d) (size : length d < 2 ^ 62)
    (end : off + length d < 2 ^ 63) (apart : NoEarlyCut off (length d) (file_extents ino f.idx))
    (w : write S spare ino d off now f ≡ (f', done n)) where
  listed : (es : List Extent) × (lookup ino f'.idx.extents ≡ some es)
  listed =
      let (ext, stored, recorded, chunks, count) =
        written S object law spare ino d off now f f' x.sound n w in
      (write_list spare ext (file_extents ino f.idx), from ext recorded)
    where
      from :
          (ext : Extent)
          → write_extent spare ino ext now f.idx ≡ ok f'.idx
          → lookup ino f'.idx.extents ≡ some (write_list spare ext (file_extents ino f.idx))
      from ext recorded =
          unfold write_extent in
          ground (
            arith,
            lookup-insert ino ino (write_list spare ext (file_extents ino f.idx)) f.idx.extents,
          )

  grown : (m : Inode) × (lookup ino f'.idx.inodes ≡ some m) × (off + length d ≤ m.size)
  grown =
      let (ext, stored, recorded, chunks, count) =
        written S object law spare ino d off now f f' x.sound n w in
      let (at, len) = extent-append S object law d off f.cs x.sound.fresh ext stored in
      let fits =
        Fits-written S object law spare ino d off now f f' x.sound n size end apart w ext stored in
      let sized =
        size-write_extent spare ino ext now f.idx f'.idx (x.sound.files.sized ino) fits recorded
          ino in
      elim (Option-cases (lookup ino f'.idx.inodes)) [
        | inl missing ↦ absurd (ground (arith, sized))
        | inr (m, found) ↦ (m, found, ground (arith, sized))
      ]

  -- A read through a file handle that is done, of the range that a write through a handle has
  -- just written, returns the bytes that were written: if the store is lawful, the state before
  -- the write is readable, the data is not empty and shorter than 2 ^ 62, the range ends below 2
  -- ^ 63, and no extent of the file but the last reaches out of the range on both sides.
  pub read-write : read S ino (length d) off later f' ≡ (f'', done out) → out ≡ d
  read-write r =
      let (es, has) = listed in
      let (m, found, reach) = grown in
      let y =
        write-IsReadable S object law spare ino d off now f f' x n some_bytes size end apart w in
      let whole : length out ≡ length d = omega (
        arith,
        length-read S object law ino (length d) off later f' f'' y m es out found has some_bytes end
            (omega (arith, reach, some_bytes)) r,
        reach,
        end,
      ) in
      get_elem?-ext out d whole (λ i h.
        let (k, back) =
          read_done S object law ino (length d) off later f' f'' y m es out found has some_bytes end
            (omega (arith, reach, some_bytes)) r i h in
        let (count, stored) =
          write_done S object law spare ino d off now f f' x.sound n size end apart w i
            (omega (arith, h, whole)) in
        let (b, given) = get_elem?-some d i (omega (arith, h, whole)) in
        back ∙ ap (λ (o : Option ℕ). some (byte_or_zero o)) (stored ∙ given) ∙ sym given)
