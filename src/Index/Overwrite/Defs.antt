-- ===== src/Index/Overwrite/Defs.antt =====
-- AppendExtent, WriteExtent, LiveExtents, RemapExtents, GetExtents.
use fusey.Base.{
  ℕ, zero, suc, ◌+◌, ◌-◌, Bytes, Bool, true, false, Option, none, some, List, [], ◌∷◌, ◌++◌, ◌||◌,
  ◌&&◌, ◌==◌, nat_key, bytes_key, if◌then◌else◌, ltb, leb, length, set, map, Result, ok, err,
  inode_not_found, not_a_regular_file,
}
use fusey.Base.Word.{add64, sub64, lt64, le64}
use fusey.Map.{Map, lookup, insert, adjust}
use fusey.Index.Types.{Index, Inode, Extent, regular, mark_dirty, touch, blocks512, or_empty}

unfoldable pub get_extents : ℕ → Index → Option (List Extent)
get_extents ino idx = lookup ino idx.extents

-- newSize > inode.Size, and the update of size and block count
abbrev pub grow : ℕ → Inode → Inode
grow end n = if lt64 n.size end then record n { size = end; blocks = blocks512 end } else n

-- The end of AppendExtent and WriteExtent: the new list, and the inode's size and times.
abbrev pub record_extents : ℕ → List Extent → ℕ → ℕ → Index → Index
record_extents ino es end now idx = mark_dirty (record idx {
  extents = insert ino es idx.extents;
  inodes = adjust ino (λ n. touch now (grow end n)) idx.inodes;
})

unfoldable pub append_extent : ℕ → Extent → ℕ → Index → Result Index
append_extent ino ext now idx = elim (lookup ino idx.inodes) [
  | none ↦ err (inode_not_found ino)
  | some inode ↦
      if inode.file_type == regular
      then ok (
          record_extents ino (or_empty (lookup ino idx.extents) ++ ext ∷ [])
            (add64 ext.file_offset ext.len) now idx)
      else err (not_a_regular_file ino)
]

-- What the loop body of WriteExtent appends for an old extent `e` when `ext` is written.
unfoldable pub pieces : Extent → Extent → List Extent
pieces ext e =
    let end = add64 ext.file_offset ext.len in
    let e_end = add64 e.file_offset e.len in
    if le64 e_end ext.file_offset || le64 end e.file_offset
    then e ∷ []
    else (if lt64 e.file_offset ext.file_offset
        then record e { len = sub64 ext.file_offset e.file_offset } ∷ []
        else [])
      ++ (if lt64 end e_end
          then record {
            chunk_id = e.chunk_id;
            chunk_offset = add64 e.chunk_offset (sub64 end e.file_offset);
            len = sub64 e_end end;
            file_offset = end;
          }
            ∷ []
          else [])

-- `surviving` starts as idx.extents[ino][:0], so it shares the array that the loop reads, until an
-- append finds the capacity used up and moves it to a new array.
pub record Survivors : Type 0 where
  pub kept : List Extent
  pub moved : Bool

-- surviving = append(surviving, x), with `read` slots read and `unread` the contents of the others.
-- An append in place writes the slot len(surviving), which may be one that is not read yet.
unfoldable pub push : ℕ → ℕ → Extent → List Extent × Survivors → List Extent × Survivors
push capacity read x (unread, s) =
    let at = length s.kept in
    let kept = s.kept ++ x ∷ [] in
    if s.moved || leb capacity at then (unread, record { kept = kept; moved = true }) else (
      if ltb at read then unread else set unread (at - read) x,
      record { kept = kept; moved = false },
    )

unfoldable pub push_all : ℕ → ℕ → List Extent → List Extent × Survivors → List Extent × Survivors
push_all capacity read [] s = s
push_all capacity read (x ∷ xs) s = push_all capacity read xs (push capacity read x s)

-- The loop of WriteExtent over the slots of the shared array, `left` of them still to be read.
unfoldable pub overwrite : ℕ → Extent → ℕ → ℕ → List Extent → Survivors → List Extent
overwrite capacity ext zero read unread s = s.kept
overwrite capacity ext (suc left) read [] s = s.kept
overwrite capacity ext (suc left) read (e ∷ unread) s =
    let (unread', s') = push_all capacity (read + 1) (pieces ext e) (unread, s) in
    overwrite capacity ext left (read + 1) unread' s'

-- The new list. `spare` is the capacity of the old slice behind its length, which depends on how the
-- runtime grew it.
unfoldable pub write_list : ℕ → Extent → List Extent → List Extent
write_list spare ext es =
    overwrite (length es + spare) ext (length es) 0 es (record { kept = []; moved = false })
    ++ ext ∷ []

unfoldable pub write_extent : ℕ → ℕ → Extent → ℕ → Index → Result Index
write_extent spare ino ext now idx = elim (lookup ino idx.inodes) [
  | none ↦ err (inode_not_found ino)
  | some inode ↦
      if inode.file_type == regular
      then ok (
          record_extents ino (write_list spare ext (or_empty (lookup ino idx.extents)))
            (add64 ext.file_offset ext.len) now idx)
      else err (not_a_regular_file ino)
]

-- LiveExtents
unfoldable pub all_extents : Map ℕ (List Extent) → List Extent
all_extents [] = []
all_extents ((_, es) ∷ m) = es ++ all_extents m

unfoldable pub live_extents : Index → List Extent
unfolding all_extents
live_extents idx = all_extents idx.extents

-- The key [2]interface{}{e.ChunkID, e.ChunkOffset} of the remap table.
abbrev pub Place : Type 0
Place = Bytes × ℕ

abbrev pub place_beq : Place → Place → Bool
place_beq p q = p.0 == q.0 && p.1 == q.1

unfoldable pub remapped : List (Place × Extent) → Extent → Extent
remapped [] e = e
remapped ((p, x) ∷ remap) e =
    if place_beq p (e.chunk_id, e.chunk_offset) then x else remapped remap e

unfoldable pub remap_all : List (Place × Extent) → Map ℕ (List Extent) → Map ℕ (List Extent)
remap_all remap = map (λ (ino, es). (ino, map (remapped remap) es))

unfoldable pub remap_extents : List (Place × Extent) → Index → Index
remap_extents remap idx = mark_dirty (record idx { extents = remap_all remap idx.extents })
