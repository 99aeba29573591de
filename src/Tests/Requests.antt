-- ===== src/Tests/Requests.antt =====
-- Requests of the kernel on a small tree.
use fusey.Base.{ℕ, ◌+◌, ◌<◌, ◌^◌, true, false, some, [], ◌∷◌, ◌≡◌, refl, arith, nat_key}
use fusey.Map.{lookup}
use fusey.Index.Types.{root_ino}
use fusey.Index.Links.{LinksAreExact, is_some, refs, nlink_of}
use fusey.Fuse.Replies.{fail, eexist, enotdir, eperm}
use fusey.Fuse.Nodes.{
  Request, handle, renaming, create, mkdir, symlink_node, link_node, unlink, rmdir, rename_node,
  make_node,
}
use fusey.Fuse.Nodes.Keeping.{handle-LinksAreExact}
use fusey.Fuse.Nodes.Crashes.{handle-crashed}
use fusey.Fuse.Nodes.Failing.{create_fail}
use fusey.Tests.Samples.{program, tree, a_name, tree-LinksAreExact}

unfoldable handlers : Unit {0}
unfolding handle create mkdir symlink_node link_node unlink rmdir rename_node make_node
handlers = tt

few_links : (j : ℕ) → nlink_of (lookup j tree.inodes) + 1 < 2 ^ 32
unfolding program
few_links j = ground arith

-- Directories have no hard links, and Rmdir is for directories.
refusals :
    ((link_node (some 3) root_ino (b'c' ∷ []) 5 tree).1 ≡ fail eperm)
    × ((rmdir root_ino a_name 5 tree).1 ≡ fail enotdir)
    × ((create root_ino a_name 0o644 7 7 5 tree).1 ≡ fail eexist)
unfolding program handlers
refusals = (refl, refl, refl)

-- The file "a" moves into the directory "b".
abbrev moving : Request
moving = renaming root_ino a_name (some 3) a_name

handle-LinksAreExact_example : LinksAreExact (handle 5 moving tree).0
unfolding program
handle-LinksAreExact_example =
    handle-LinksAreExact 5 tree tree-LinksAreExact moving (omega arith) few_links refl

handle-crashed_example : (handle 5 moving tree).1 ≡ false
unfolding program
handle-crashed_example = handle-crashed 5 tree tree-LinksAreExact moving (omega arith) refl

create_fail_example :
    (is_some (lookup 4 (create root_ino a_name 0o644 7 7 5 tree).0.inodes) ≡ true)
    × (refs 4 (create root_ino a_name 0o644 7 7 5 tree).0.dir_index ≡ 0)
unfolding program handlers
create_fail_example =
    create_fail root_ino a_name 0o644 7 7 5 tree tree-LinksAreExact (omega arith) refl
