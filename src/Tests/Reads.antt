-- ===== src/Tests/Reads.antt =====
-- Reads through a file handle.
use fusey.Base.{tabulate, List, ℕ, sym, ◌-◌, Bytes, [], ◌∷◌, ◌≡◌, refl, arith}
use mathlib.Core.Path.{subst}
use fusey.Chunks.Backing.{IsBacked}
use fusey.Index.Content.{All}
use fusey.Index.Files.{file_extents}
use fusey.Index.Types.{Inode, Extent, regular}
use fusey.Index.Attrs.{touch_atime}
use fusey.Chunks.Store.{between}
use fusey.Chunks.Cache.{write_atomic, read_file_slice, fetch_full_chunk, read_range}
use fusey.Chunks.ChunkStore
use fusey.Chunks.ChunkStore.{ChunkStore}
use fusey.Fuse.Replies.{Reply, done}
use fusey.Fuse.Files.{Fusey, read, read_extents, copy_at, max64, min64, write}
use fusey.Fuse.Writing.{file_byte}
use fusey.Fuse.ReadBack.{IsReadable, byte_or_zero, read-file_range, write-IsReadable}
use fusey.Tests.Shelf.{shelf, on_shelf, shelf-IsLawful, hello}
use fusey.Tests.Samples.{program, mounted, mounted-IsSound}

unfoldable pub reading : Unit {0}
unfolding program read read_extents copy_at max64 min64 touch_atime between write_atomic
    read_file_slice fetch_full_chunk read_range ChunkStore.read
reading = tt

-- "yak!"
abbrev yak : Bytes
yak = b'y' ∷ b'a' ∷ b'k' ∷ b'!' ∷ []

no_extents : (ino : ℕ) → file_extents ino mounted.idx ≡ []
unfolding program
no_extents ino = ground arith

mounted-IsReadable : IsReadable shelf on_shelf mounted
unfolding program
mounted-IsReadable = record {
  sound = mounted-IsSound;
  coherent = record { agree = λ id d d' h k. ground arith; active = refl; unused = λ n h. refl };
  measured = (omega arith, λ id d other h. ground arith);
  backed = λ ino. subst (All (IsBacked shelf on_shelf mounted.cs)) (sym (no_extents ino)) tt;
}

abbrev pub hello_file : Fusey shelf
hello_file = (write shelf 0 2 hello 0 5 mounted).0

-- A hole, and then "yak!" in a chunk of its own.
abbrev pub holed_file : Fusey shelf
holed_file = (write shelf 0 2 yak 7 6 hello_file).0

pub hello_file-IsReadable : IsReadable shelf on_shelf hello_file
unfolding program
hello_file-IsReadable =
    write-IsReadable shelf on_shelf shelf-IsLawful 0 2 hello 0 5 mounted hello_file
      mounted-IsReadable 5 (omega arith) (omega arith) (omega arith) tt refl

holed_file-IsReadable : IsReadable shelf on_shelf holed_file
unfolding program
holed_file-IsReadable =
    write-IsReadable shelf on_shelf shelf-IsLawful 0 2 yak 7 6 hello_file holed_file
      hello_file-IsReadable 4 (omega arith) (omega arith) (omega arith) tt refl

abbrev data_of : Reply Bytes → Bytes
data_of (done d) = d
data_of _ = []

-- The five bytes from the fourth on: two of "hello", two of the hole, and one of "yak!".
abbrev middle : Bytes
middle = data_of (read shelf 2 5 3 7 holed_file).1

abbrev holed_inode : Inode
holed_inode = record {
  ino = 2;
  file_type = regular;
  mode = 0o644;
  nlink = 0;
  uid = 7;
  gid = 7;
  size = 11;
  atime = 1;
  mtime = 6;
  ctime = 6;
  blksize = 4096;
  blocks = 1;
  rdev = 0;
}

abbrev holed_extents : List Extent
holed_extents = file_extents 2 holed_file.idx

read-file_range_example :
    middle ≡ tabulate (λ p. byte_or_zero (file_byte shelf on_shelf 2 p holed_file)) 3 (8 - 3)
unfolding reading
read-file_range_example =
    read-file_range shelf on_shelf shelf-IsLawful 2 5 3 7 holed_file
      (read shelf 2 5 3 7 holed_file).0 holed_file-IsReadable holed_inode holed_extents middle refl
      refl (omega arith) (omega arith) (omega arith) refl

abbrev read_back : Bytes
read_back = data_of (read shelf 2 5 0 7 hello_file).1
