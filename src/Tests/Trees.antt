-- ===== src/Tests/Trees.antt =====
-- Operations on directories of a small tree.
use fusey.Base.{
  none, some, ◌≡◌, refl, arith, err, panic, entry_exists, directory_not_empty, nat_key,
}
use fusey.Map.{lookup}
use fusey.Index.Types.{Index, root_ino}
use fusey.Index.Tree.{add_dir_entry, lookup_entry, remove_dir_entry, rename}
use fusey.Index.Links.Moving.{rename_self}
use fusey.Index.Links.Panics.{rename_into_file}
use fusey.Tests.Samples.{program, index_of, tree, a_name, b_name, tree-LinksAreExact}

abbrev without_directory : Index
without_directory = index_of (remove_dir_entry root_ino b_name 3 tree)

abbrev moved : Index
moved = index_of (rename root_ino a_name 3 b_name 3 tree)

abbrev onto_itself : Index
onto_itself = index_of (rename root_ino a_name root_ino a_name 3 tree)

-- A second entry of one name, and a directory that is not empty.
refusals :
    (add_dir_entry root_ino a_name 3 5 tree ≡ err (entry_exists root_ino a_name))
    × (remove_dir_entry root_ino b_name 5 moved ≡ err (directory_not_empty 3))
unfolding program
refusals = (refl, refl)

rename_self_example :
    (lookup_entry root_ino a_name onto_itself ≡ some 2) × (lookup 2 onto_itself.inodes ≡ none)
unfolding program
rename_self_example =
    rename_self root_ino a_name 3 tree onto_itself tree-LinksAreExact refl 2 refl refl

-- The destination directory is the file "a".
rename_into_file_example : rename root_ino b_name 2 a_name 3 tree ≡ panic
unfolding program
rename_into_file_example =
    rename_into_file root_ino b_name 2 a_name 3 tree tree-LinksAreExact 3 refl
      (λ e. omega (arith, e))
