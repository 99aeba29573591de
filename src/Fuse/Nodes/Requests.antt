-- ===== src/Fuse/Nodes/Requests.antt =====
-- The requests that change the tree, as one step on the index.
use fusey.Base.{ℕ, Bytes, Bool, true, false, Option, some, ◌==◌, nat_key, bytes_key, ◌&&◌}
use fusey.Index.Types.{Index}
use fusey.Fuse.Nodes.Defs.{create, mkdir, symlink_node, link_node, unlink, rmdir, rename_node}
use fusey.Fuse.Replies.{Reply, crash}

-- The arguments of the handlers, the directory that a request is for first.
pub data Request : Type 0 where
  creating : ℕ → Bytes → ℕ → ℕ → ℕ → Request
  making_directory : ℕ → Bytes → ℕ → ℕ → ℕ → Request
  making_symlink : ℕ → Bytes → Bytes → ℕ → ℕ → Request
  linking : ℕ → Bytes → Option ℕ → Request
  unlinking : ℕ → Bytes → Request
  removing_directory : ℕ → Bytes → Request
  renaming : ℕ → Bytes → Option ℕ → Bytes → Request

abbrev pub crashed {ℓ} : {A : Type ℓ} → Reply A → Bool
crashed crash = true
crashed _ = false

-- The index that the handler leaves, and whether it crashes.
unfoldable pub handle : ℕ → Request → Index → Index × Bool
handle now (creating parent name mode uid gid) idx =
    let r = create parent name mode uid gid now idx in (r.0, crashed r.1)
handle now (making_directory parent name mode uid gid) idx =
    let r = mkdir parent name mode uid gid now idx in (r.0, crashed r.1)
handle now (making_symlink parent name target uid gid) idx =
    let r = symlink_node target parent name uid gid now idx in (r.0, crashed r.1)
handle now (linking parent name target) idx =
    let r = link_node target parent name now idx in (r.0, crashed r.1)
handle now (unlinking parent name) idx = let r = unlink parent name now idx in (r.0, crashed r.1)
handle now (removing_directory parent name) idx =
    let r = rmdir parent name now idx in (r.0, crashed r.1)
handle now (renaming parent name new_parent new_name) idx =
    let r = rename_node parent name new_parent new_name now idx in (r.0, crashed r.1)

-- A rename of an entry onto itself.
abbrev pub onto_itself : Request → Bool
onto_itself (renaming parent name (some new_parent) new_name) =
    parent == new_parent && name == new_name
onto_itself _ = false
