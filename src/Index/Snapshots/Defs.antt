-- ===== src/Index/Snapshots/Defs.antt =====
-- Snapshot and FromSnapshot. A nil map is empty.
use fusey.Base.{
  ℕ, Bytes, Bool, false, none, some, List, [], ◌∷◌, ◌++◌, ◌==◌, nat_key, bytes_key, if◌then◌else◌,
}
use fusey.Map.{Map, lookup, insert}
use fusey.Index.Types.{Index, Inode, Extent, DirEntry, directory, or_empty}

pub record Snapshot : Type 0 where
  pub inodes : Map ℕ Inode
  pub dir_entries : List DirEntry
  pub extent_map : Map ℕ (List Extent)
  pub symlink_targets : Map ℕ Bytes
  pub xattrs : Map ℕ (Map Bytes Bytes)
  pub next_ino : ℕ

-- The loops of Snapshot over the entries of one directory, and of all.
unfoldable pub entries_of : ℕ → Map Bytes ℕ → List DirEntry
entries_of parent [] = []
entries_of parent ((name, child) ∷ m) =
    record { parent_ino = parent; name = name; child_ino = child } ∷ entries_of parent m

unfoldable pub all_entries : Map ℕ (Map Bytes ℕ) → List DirEntry
all_entries [] = []
all_entries ((parent, m) ∷ dirs) = entries_of parent m ++ all_entries dirs

unfoldable pub snapshot : Index → Snapshot
snapshot idx = record {
  inodes = idx.inodes;
  dir_entries = all_entries idx.dir_index;
  extent_map = idx.extents;
  symlink_targets = idx.symlinks;
  xattrs = idx.xattrs;
  next_ino = idx.next_ino;
}

-- The loops of FromSnapshot: the entries, and a table for each directory that has none.
abbrev pub add_entry : DirEntry → Map ℕ (Map Bytes ℕ) → Map ℕ (Map Bytes ℕ)
add_entry e dirs =
    insert e.parent_ino (insert e.name e.child_ino (or_empty (lookup e.parent_ino dirs))) dirs

unfoldable pub rebuild : Map ℕ (Map Bytes ℕ) → List DirEntry → Map ℕ (Map Bytes ℕ)
rebuild dirs [] = dirs
rebuild dirs (e ∷ es) = rebuild (add_entry e dirs) es

abbrev pub add_table : ℕ → Inode → Map ℕ (Map Bytes ℕ) → Map ℕ (Map Bytes ℕ)
add_table ino n dirs =
    if n.file_type == directory
    then elim (lookup ino dirs) [ none ↦ insert ino [] dirs | some m ↦ dirs ]
    else dirs

unfoldable pub add_tables : Map ℕ Inode → Map ℕ (Map Bytes ℕ) → Map ℕ (Map Bytes ℕ)
add_tables [] dirs = dirs
add_tables ((ino, n) ∷ inodes) dirs = add_tables inodes (add_table ino n dirs)

unfoldable pub from_snapshot : Snapshot → ℕ → Index
from_snapshot s block_size = record {
  inodes = s.inodes;
  dir_index = add_tables s.inodes (rebuild [] s.dir_entries);
  extents = s.extent_map;
  symlinks = s.symlink_targets;
  xattrs = s.xattrs;
  next_ino = s.next_ino;
  block_size = block_size;
  dirty = false;
  remote_dirty = false;
}

-- IsDirty, MarkClean, IsRemoteDirty and MarkRemoteClean
unfoldable pub is_dirty : Index → Bool
is_dirty idx = idx.dirty

unfoldable pub mark_clean : Index → Index
mark_clean idx = record idx { dirty = false }

unfoldable pub is_remote_dirty : Index → Bool
is_remote_dirty idx = idx.remote_dirty

unfoldable pub mark_remote_clean : Index → Index
mark_remote_clean idx = record idx { remote_dirty = false }
