-- ===== src/Tests/Samples.antt =====
-- A tree with a file and a directory, and a file system with an open file.
use fusey.Base.{Bytes, [], ◌∷◌, refl, arith, Result, ok, bytes_beq}
use fusey.Base.Word.{add64, sub64, lt64, le64, div64, mod64, inc32, dec32}
use fusey.Map.{lookup, insert, delete, adjust, weigh}
use fusey.Index.Types.{Index, regular, directory, root_ino, blocks512}
use fusey.Index.Tree.{
  new, create_inode, add_dir_entry, add_link, lookup_entry, remove_dir_entry, drop_link, displace,
  move_entry, rename, get_inode, readdir,
}
use fusey.Index.Attrs.{set_attr, trim, trim_extents, used_bytes, resize, sum_sizes}
use fusey.Index.Overwrite.{
  write_extent, write_list, overwrite, pieces, push, push_all, append_extent, get_extents,
}
use fusey.Index.Content.{locate, coverage}
use fusey.Index.Files.{FilesAreSound}
use fusey.Index.Files.Starting.{new-FilesAreSound, create_inode-FilesAreSound}
use fusey.Index.Links.{LinksAreExact}
use fusey.Index.Links.Adding.{
  new-LinksAreExact, create_inode-LinksAreExact, add_dir_entry-LinksAreExact,
}
use fusey.Chunks.Ids.{chunk_id, print}
use fusey.Chunks.ChunkStore
use fusey.Fuse.Files.{Fusey, write, record_write, no_space}
use fusey.Fuse.Writing.{IsSound}
use fusey.Tests.Shelf.{
  shelf, on_shelf, empty_chunks, empty_chunks-IsFresh, empty_chunks-WithinLimit,
}

unfoldable pub program : Unit {0}
unfolding bytes_beq add64 sub64 lt64 le64 div64 mod64 inc32 dec32 lookup insert delete adjust weigh
    blocks512 new create_inode add_dir_entry add_link lookup_entry remove_dir_entry drop_link
    displace move_entry rename get_inode readdir set_attr trim trim_extents used_bytes resize
    sum_sizes write_extent write_list overwrite pieces push push_all append_extent get_extents
    locate coverage chunk_id print ChunkStore.new ChunkStore.append ChunkStore.seal write
    record_write no_space
program = tt

abbrev pub index_of : Result Index → Index
index_of (ok idx) = idx
index_of _ = new 0 0

abbrev pub empty : Index
empty = new 4096 0

-- The inode 2 is a regular file without an entry.
abbrev pub with_file : Index
with_file = (create_inode regular 0o644 7 7 0 1 empty).1

abbrev pub a_name : Bytes
a_name = b'a' ∷ []

abbrev pub b_name : Bytes
b_name = b'b' ∷ []

abbrev pub named_file : Index
named_file = index_of (add_dir_entry root_ino a_name 2 1 with_file)

abbrev pub with_directory : Index
with_directory = (create_inode directory 0o755 0 0 0 2 named_file).1

-- The root with the file "a", inode 2, and the directory "b", inode 3.
abbrev pub tree : Index
tree = index_of (add_dir_entry root_ino b_name 3 2 with_directory)

pub with_file-LinksAreExact : LinksAreExact with_file
unfolding program
with_file-LinksAreExact =
    create_inode-LinksAreExact regular 0o644 7 7 0 1 empty (new-LinksAreExact 4096 0) (omega arith)

pub named_file-LinksAreExact : LinksAreExact named_file
unfolding program
named_file-LinksAreExact =
    add_dir_entry-LinksAreExact root_ino a_name 2 1 with_file named_file refl
      with_file-LinksAreExact (omega arith)

pub with_directory-LinksAreExact : LinksAreExact with_directory
unfolding program
with_directory-LinksAreExact =
    create_inode-LinksAreExact directory 0o755 0 0 0 2 named_file named_file-LinksAreExact
      (omega arith)

pub tree-LinksAreExact : LinksAreExact tree
unfolding program
tree-LinksAreExact =
    add_dir_entry-LinksAreExact root_ino b_name 3 2 with_directory tree refl
      with_directory-LinksAreExact (omega arith)

pub with_file-FilesAreSound : FilesAreSound with_file
unfolding program
with_file-FilesAreSound =
    create_inode-FilesAreSound regular 0o644 7 7 0 1 empty (new-FilesAreSound 4096 0) refl

abbrev pub mounted : Fusey shelf
mounted = record { idx = with_file; cs = empty_chunks; max_fs_size = 1000 }

pub mounted-IsSound : IsSound shelf on_shelf mounted
mounted-IsSound = record {
  files = with_file-FilesAreSound;
  fresh = empty_chunks-IsFresh;
  within = empty_chunks-WithinLimit;
}
