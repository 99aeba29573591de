-- ===== src/Tests/Directory.antt =====
-- The store in a directory, on a disk in memory.
use fusey.Base.{
  Bytes, Bool, true, false, Option, none, some, [], ◌∷◌, ◌++◌, ◌≡◌, ◌≢◌, refl, arith, map,
  bytes_beq, bytes_key, bytes_beq_iff,
}
use fusey.Map.{Map, lookup, insert, delete, lookup-insert, lookup-delete}
use fusey.Chunks.Local.{
  FileSystem, LocalStore, Removal, removed, missing, tmp, file_names, local_put, local_list,
}
use fusey.Chunks.Local.Storing.{IsPosix, local_put_atomic}
use fusey.Tests.Shelf.{slice_of, size_of, hello}

abbrev has_file : Option Bytes → Bool
has_file none = false
has_file (some d) = true

abbrev moved : Bytes → Bytes → Map Bytes Bytes → Option Bytes → Map Bytes Bytes × Bool
moved p q w none = (w, false)
moved p q w (some d) = (insert q d (delete p w), true)

abbrev taken : Bytes → Map Bytes Bytes → Option Bytes → Map Bytes Bytes × Removal
taken p w none = (w, missing)
taken p w (some d) = (delete p w, removed)

-- A directory of files without a name for itself.
abbrev disk : FileSystem
disk = record {
  World = Map Bytes Bytes;
  join = λ dir id. id;
  mkdir_all = λ dir w. (w, true);
  write_file = λ p d w. (insert p d w, true);
  rename = λ p q w. moved p q w (lookup p w);
  opens = λ p w. has_file (lookup p w);
  read_at = λ p offset len w. slice_of offset len (lookup p w);
  remove = λ p w. taken p w (lookup p w);
  read_dir = λ dir w. some (map (λ (name, d). (name, false)) w);
  stat_size = λ p w. size_of (lookup p w);
}

abbrev on_disk : Bytes → Map Bytes Bytes → Option Bytes
on_disk p w = lookup p w

moved_done :
    (p q : Bytes) (w : Map Bytes Bytes) (o : Option Bytes)
    → (moved p q w o).1 ≡ true
    → lookup q (moved p q w o).0 ≡ o
moved_done p q w none done = absurd (ground arith)
moved_done p q w (some d) done = ground (arith, lookup-insert q q d (delete p w), bytes_beq_iff q q)

moved_other :
    (p q r : Bytes) (w : Map Bytes Bytes) (o : Option Bytes)
    → p ≢ r
    → q ≢ r
    → lookup r (moved p q w o).0 ≡ lookup r w
moved_other p q r w none from_p to_q = refl
moved_other p q r w (some d) from_p to_q = ground (
  arith,
  lookup-insert q r d (delete p w),
  lookup-delete p r w,
  bytes_beq_iff q r,
  bytes_beq_iff p r,
)

moved_fail :
    (p q r : Bytes) (w : Map Bytes Bytes) (o : Option Bytes)
    → (moved p q w o).1 ≡ false
    → lookup r (moved p q w o).0 ≡ lookup r w
moved_fail p q r w none fails = refl
moved_fail p q r w (some d) fails = absurd (ground arith)

disk-IsPosix : IsPosix disk on_disk
disk-IsPosix = record {
  file-write = λ p d w done. ground (arith, lookup-insert p p d w, bytes_beq_iff p p);
  file-write_ne = λ p d q w other. ground (arith, lookup-insert p q d w, bytes_beq_iff p q);
  file-rename = λ p q w done. moved_done p q w (lookup p w) done;
  file-rename_ne = λ p q r w from_p to_q. moved_other p q r w (lookup p w) from_p to_q;
  file-rename_fail = λ p q r w fails. moved_fail p q r w (lookup p w) fails;
}

differ : (s t : Bytes) → bytes_beq s t ≡ false → s ≢ t
differ s t h e = absurd (ground (arith, bytes_beq_iff s t))

unfoldable directory_runs : Unit {0}
unfolding bytes_beq lookup insert delete file_names local_put local_list
directory_runs = tt

abbrev chunks : LocalStore
chunks = record { dir = [] }

abbrev a_file : Bytes
a_file = b'a' ∷ []

local_put_atomic_example : on_disk a_file (local_put disk chunks a_file hello []).0 ≡ some hello
unfolding directory_runs
local_put_atomic_example =
    local_put_atomic disk on_disk disk-IsPosix chunks a_file hello a_file []
      (differ (a_file ++ tmp) a_file refl)

-- Put takes the object whose ID is that of the temporary file.
put_takes :
    local_list disk chunks (local_put disk chunks a_file hello ((a_file ++ tmp, hello) ∷ [])).0
    ≡ some (a_file ∷ [])
unfolding directory_runs
put_takes = refl
