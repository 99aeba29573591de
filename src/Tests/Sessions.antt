-- ===== src/Tests/Sessions.antt =====
-- A run of the daemon: a file is created, written and read.
use fusey.Base.{Bytes, Bool, true, none, [], ◌∷◌, ◌≡◌, refl, arith}
use fusey.Index.Types.{root_ino}
use fusey.Chunks.Cache.{new_cache}
use fusey.Fuse.Replies.{Reply, done}
use fusey.Fuse.Files.{Fusey, read, write}
use fusey.Fuse.Nodes.{Request, creating, handle, create, make_node}
use fusey.Fuse.Session.{HasRoom, Step, handles, writes, Reach, here, next, started}
use fusey.Fuse.Session.Contents.{DoesAll, Does, overwrites, arranges, view}
use fusey.Fuse.Session.Keeping.{IsHealthy}
use fusey.Fuse.Session.Refining.{step-Does}
use fusey.Fuse.Session.Runs.{reached-IsHealthy, reached-read-write, reached-DoesAll}
use fusey.Tests.Shelf.{shelf, on_shelf, shelf-IsLawful, hello}
use fusey.Tests.Samples.{program, a_name}
use fusey.Tests.Reads.{reading}

abbrev any_file : Bytes → Bool
any_file id = true

abbrev fresh_mount : Fusey shelf
fresh_mount = started shelf 4096 0 8 1000 any_file []

abbrev create_a : Request
create_a = creating root_ino a_name 0o644 7 7

abbrev with_a : Fusey shelf
with_a = record fresh_mount { idx = (handle 1 create_a fresh_mount.idx).0 }

fresh_mount-HasRoom : HasRoom fresh_mount.idx
unfolding program
fresh_mount-HasRoom = record { next = omega arith; few = λ j. ground arith }

unfoldable session : Unit {0}
unfolding reading program handle create make_node new_cache
session = tt

created : Reach shelf fresh_mount with_a
unfolding session
created = next here (handles 1 create_a fresh_mount-HasRoom refl tt refl)

abbrev written_a : Fusey shelf
written_a = (write shelf 0 2 hello 0 5 with_a).0

writing : Step shelf with_a written_a
unfolding session
writing = writes 0 2 hello 0 5 (done 5) (omega arith) (omega arith) (omega arith) tt refl

reached-IsHealthy_example : IsHealthy shelf on_shelf written_a
unfolding session
reached-IsHealthy_example =
    reached-IsHealthy shelf on_shelf shelf-IsLawful 4096 0 8 1000 any_file [] (λ id. refl)
      (omega arith) written_a (next created writing)

reached-DoesAll_example :
    DoesAll
      (view shelf on_shelf fresh_mount)
      (overwrites 2 0 hello ∷ arranges none ∷ [])
      (view shelf on_shelf written_a)
unfolding session created writing
reached-DoesAll_example =
    reached-DoesAll shelf on_shelf shelf-IsLawful 4096 0 8 1000 any_file [] (λ id. refl)
      (omega arith) written_a (next created writing)

with_a-IsHealthy : IsHealthy shelf on_shelf with_a
unfolding session
with_a-IsHealthy =
    reached-IsHealthy shelf on_shelf shelf-IsLawful 4096 0 8 1000 any_file [] (λ id. refl)
      (omega arith) with_a created

step-Does_example :
    Does (overwrites 2 0 hello) (view shelf on_shelf with_a) (view shelf on_shelf written_a)
unfolding session created writing
step-Does_example =
    step-Does shelf on_shelf shelf-IsLawful with_a written_a with_a-IsHealthy writing

abbrev data_of : Reply Bytes → Bytes
data_of (done d) = d
data_of _ = []

abbrev read_back : Bytes
read_back = data_of (read shelf 2 5 0 7 written_a).1

reached-read-write_example : read_back ≡ hello
unfolding session
reached-read-write_example =
    reached-read-write shelf on_shelf shelf-IsLawful 4096 0 8 1000 any_file [] (λ id. refl)
      (omega arith) with_a created 0 2 hello 0 5 7 written_a (read shelf 2 5 0 7 written_a).0
      read_back 5 (omega arith) (omega arith) (omega arith) tt refl refl
