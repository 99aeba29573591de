-- ===== src/Persist/Defs.antt =====
-- parseChunkSeq, and the wire form of the index: the extents have a sequence number in place of the
-- chunk ID.
use fusey.Base.{
  ℕ, ◌^◌, Bytes, Option, none, some, List, [], ◌∷◌, ◌&&◌, nat_key, if◌then◌else◌, ltb, map, Result,
  ok, err, bad_chunk_id,
}
use fusey.Map.{Map}
use fusey.Index.Types.{Extent, Inode, DirEntry}
use fusey.Index.Snapshots.{Snapshot}
use fusey.Chunks.Ids.{
  chunk_id, chunk_id_prefix, cut_prefix, scan_digits, starts_with_digit, skip_blanks,
}

-- %d into a uint32: digits, of a number that fits. What follows them is not looked at.
unfoldable pub scan_uint32 : Bytes → Option ℕ
scan_uint32 s =
    if starts_with_digit s && ltb (scan_digits s 0) (2 ^ 32) then some (scan_digits s 0) else none

-- `none` is the error.
unfoldable pub parse_chunk_seq : Bytes → Option ℕ
parse_chunk_seq id = elim (cut_prefix chunk_id_prefix id) [
  | none ↦ none
  | some rest ↦ scan_uint32 (skip_blanks rest)
]

-- cborExtent
pub record WireExtent : Type 0 where
  pub chunk_seq : ℕ
  pub chunk_offset : ℕ
  pub len : ℕ
  pub file_offset : ℕ

unfoldable pub to_wire_extent : Extent → Option WireExtent
to_wire_extent e = elim (parse_chunk_seq e.chunk_id) [
  | none ↦ none
  | some seq ↦ some (record {
    chunk_seq = seq;
    chunk_offset = e.chunk_offset;
    len = e.len;
    file_offset = e.file_offset;
  })
]

unfoldable pub from_wire_extent : WireExtent → Extent
from_wire_extent w = record {
  chunk_id = chunk_id w.chunk_seq;
  chunk_offset = w.chunk_offset;
  len = w.len;
  file_offset = w.file_offset;
}

-- The loops of toWireSnapshot over the extents; the first bad chunk ID ends them with an error.
unfoldable pub to_wire_extents : List Extent → Option (List WireExtent)
to_wire_extents [] = some []
to_wire_extents (e ∷ es) = elim (to_wire_extent e) [
  | none ↦ none
  | some w ↦ elim (to_wire_extents es) [ none ↦ none | some ws ↦ some (w ∷ ws) ]
]

unfoldable pub to_wire_map : Map ℕ (List Extent) → Option (Map ℕ (List WireExtent))
to_wire_map [] = some []
to_wire_map ((ino, es) ∷ m) = elim (to_wire_extents es) [
  | none ↦ none
  | some ws ↦ elim (to_wire_map m) [ none ↦ none | some rest ↦ some ((ino, ws) ∷ rest) ]
]

-- The loops of fromWireSnapshot over the extents.
unfoldable pub from_wire_map : Map ℕ (List WireExtent) → Map ℕ (List Extent)
from_wire_map = map (λ (ino, ws). (ino, map from_wire_extent ws))

-- cborInode. A FileType is a uint32.
pub record WireInode : Type 0 where
  pub ino : ℕ
  pub file_type : ℕ
  pub mode : ℕ
  pub nlink : ℕ
  pub uid : ℕ
  pub gid : ℕ
  pub size : ℕ
  pub atime : ℕ
  pub mtime : ℕ
  pub ctime : ℕ
  pub blksize : ℕ
  pub blocks : ℕ
  pub rdev : ℕ

unfoldable pub to_wire_inode : Inode → WireInode
to_wire_inode n = record {
  ino = n.ino;
  file_type = n.file_type;
  mode = n.mode;
  nlink = n.nlink;
  uid = n.uid;
  gid = n.gid;
  size = n.size;
  atime = n.atime;
  mtime = n.mtime;
  ctime = n.ctime;
  blksize = n.blksize;
  blocks = n.blocks;
  rdev = n.rdev;
}

unfoldable pub from_wire_inode : WireInode → Inode
from_wire_inode w = record {
  ino = w.ino;
  file_type = w.file_type;
  mode = w.mode;
  nlink = w.nlink;
  uid = w.uid;
  gid = w.gid;
  size = w.size;
  atime = w.atime;
  mtime = w.mtime;
  ctime = w.ctime;
  blksize = w.blksize;
  blocks = w.blocks;
  rdev = w.rdev;
}

-- cborDirEntry
pub record WireDirEntry : Type 0 where
  pub parent_ino : ℕ
  pub name : Bytes
  pub child_ino : ℕ

unfoldable pub to_wire_entry : DirEntry → WireDirEntry
to_wire_entry e = record { parent_ino = e.parent_ino; name = e.name; child_ino = e.child_ino }

unfoldable pub from_wire_entry : WireDirEntry → DirEntry
from_wire_entry w = record { parent_ino = w.parent_ino; name = w.name; child_ino = w.child_ino }

-- cborSnapshot
pub record WireSnapshot : Type 0 where
  pub inodes : Map ℕ WireInode
  pub dir_entries : List WireDirEntry
  pub extent_map : Map ℕ (List WireExtent)
  pub symlink_targets : Map ℕ Bytes
  pub xattrs : Map ℕ (Map Bytes Bytes)
  pub next_ino : ℕ

unfoldable pub to_wire_snapshot : Snapshot → Result WireSnapshot
to_wire_snapshot s = elim (to_wire_map s.extent_map) [
  | none ↦ err bad_chunk_id
  | some extent_map ↦ ok (record {
    inodes = map (λ (ino, n). (ino, to_wire_inode n)) s.inodes;
    dir_entries = map to_wire_entry s.dir_entries;
    extent_map = extent_map;
    symlink_targets = s.symlink_targets;
    xattrs = s.xattrs;
    next_ino = s.next_ino;
  })
]

unfoldable pub from_wire_snapshot : WireSnapshot → Snapshot
from_wire_snapshot w = record {
  inodes = map (λ (ino, n). (ino, from_wire_inode n)) w.inodes;
  dir_entries = map from_wire_entry w.dir_entries;
  extent_map = from_wire_map w.extent_map;
  symlink_targets = w.symlink_targets;
  xattrs = w.xattrs;
  next_ino = w.next_ino;
}
