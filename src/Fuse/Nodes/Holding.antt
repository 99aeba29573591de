-- ===== src/Fuse/Nodes/Holding.antt =====
-- The requests of the kernel that change the tree, and the bytes of files.
use fusey.Base.{
  ℕ, ◌^◌, ◌<◌, Bytes, none, some, ◌≡◌, refl, arith, inl, inr, Result-cases, nat_key, bytes_key,
  length,
}
use fusey.Index.Types.{Index, regular, directory, symlink}
use fusey.Index.Tree.{create_inode, add_dir_entry, remove_dir_entry, rename}
use fusey.Index.Attrs.{set_symlink}
use fusey.Index.Files.{file_size}
use fusey.Index.Files.Keeping.{
  Keeps, Keeps-refl, add_dir_entry-Keeps, remove_dir_entry-Keeps, rename-Keeps, create_inode-Keeps,
  set_symlink-Keeps, size-add_dir_entry,
}
use fusey.Index.Links.{LinksAreExact}
use fusey.Fuse.Replies.{Reply, done, fail, crash}
use fusey.Fuse.Nodes.Attr.{Attr}
use fusey.Fuse.Nodes.Defs.{
  entry_of, make_node, set_target, create, mkdir, symlink_node, link_node, rename_node,
}
use fusey.Fuse.Nodes.Keeping.{left, link_node-left, unlink-left, rmdir-left, rename_node-left}
use fusey.Fuse.Nodes.Requests.{
  Request, handle, creating, making_directory, making_symlink, linking, unlinking,
  removing_directory, renaming,
}

-- The target of a symlink has a length that an int64 can say.
abbrev pub IsShort : Request → Type 0
IsShort (making_symlink parent name target uid gid) = length target < 2 ^ 63
IsShort _ = Unit

module _ (now : ℕ) (idx : Index) where
  unused_size : LinksAreExact idx → file_size idx.next_ino idx ≡ 0
  unused_size x = ground (arith, x.fresh idx.next_ino)

  module _ (file_type perm uid gid : ℕ) (parent : ℕ) (name : Bytes) (x : LinksAreExact idx) where
    abbrev made : Index × Reply (ℕ × Attr)
    made = make_node file_type perm uid gid now parent name idx

    -- The inode that the reply names is new and empty.
    make_node-Keeps :
        Keeps idx made.0
        × ((ino : ℕ) (attr : Attr) → made.1 ≡ done (ino, attr) → file_size ino made.0 ≡ 0)
    unfolding make_node create_inode entry_of
    make_node-Keeps =
        let between : Index = (create_inode file_type perm uid gid 0 now idx).1 in
        let (kept, short) = create_inode-Keeps now idx file_type perm uid gid 0 (unused_size x) in
        elim (Result-cases (add_dir_entry parent name idx.next_ino now between)) [
          | inl (idx', e) ↦ (
            rw (make_node, e)
                (add_dir_entry-Keeps now between parent name idx.next_ino idx idx' kept e),
            λ ino attr r.
                ground (
                  arith,
                  short,
                  size-add_dir_entry now between parent name idx.next_ino idx' e ino,
                ),
          )
          | inr (inl (failure, e)) ↦ (rw (make_node, e) kept, λ ino attr r. absurd (ground arith))
          | inr (inr e) ↦ (rw (make_node, e) kept, λ ino attr r. absurd (ground arith))
        ]

  set_target-Keeps :
      (target : Bytes) (r : Index × Reply (ℕ × Attr))
      → Keeps idx r.0
      → ((ino : ℕ) (attr : Attr) → r.1 ≡ done (ino, attr) → file_size ino r.0 ≡ 0)
      → length target < 2 ^ 63
      → Keeps idx (set_target target now r).0
  set_target-Keeps target (idx1, fail e) k short fits = k
  set_target-Keeps target (idx1, crash) k short fits = k
  set_target-Keeps target (idx1, done (ino, attr)) k short fits =
      elim (Result-cases (set_symlink ino target now idx1)) [
        | inl (idx', e) ↦
            rw (set_target, e)
              (set_symlink-Keeps now idx1 ino target idx idx' k (short ino attr refl) fits e)
        | inr (inl (failure, e)) ↦ rw (set_target, e) k
        | inr (inr e) ↦ rw (set_target, e) k
      ]

  add_dir_entry-left :
      (parent : ℕ) (name : Bytes) (child : ℕ)
      → Keeps idx (left idx (add_dir_entry parent name child now idx))
  add_dir_entry-left parent name child =
      elim (Result-cases (add_dir_entry parent name child now idx)) [
        | inl (idx', e) ↦
            rw e (add_dir_entry-Keeps now idx parent name child idx idx' (Keeps-refl idx) e)
        | inr (inl (failure, e)) ↦ rw e (Keeps-refl idx)
        | inr (inr e) ↦ rw e (Keeps-refl idx)
      ]

  remove_dir_entry-left :
      (parent : ℕ) (name : Bytes) → Keeps idx (left idx (remove_dir_entry parent name now idx))
  remove_dir_entry-left parent name = elim (Result-cases (remove_dir_entry parent name now idx)) [
    | inl (idx', e) ↦ rw e (remove_dir_entry-Keeps now idx parent name idx' e)
    | inr (inl (failure, e)) ↦ rw e (Keeps-refl idx)
    | inr (inr e) ↦ rw e (Keeps-refl idx)
  ]

  rename-left :
      (parent : ℕ) (name : Bytes) (new_parent : ℕ) (new_name : Bytes)
      → Keeps idx (left idx (rename parent name new_parent new_name now idx))
  rename-left parent name new_parent new_name =
      elim (Result-cases (rename parent name new_parent new_name now idx)) [
        | inl (idx', e) ↦ rw e (rename-Keeps now idx parent name new_parent new_name idx' e)
        | inr (inl (failure, e)) ↦ rw e (Keeps-refl idx)
        | inr (inr e) ↦ rw e (Keeps-refl idx)
      ]

  -- Such a request, whatever it answers, leaves each file its extents and a size that covers them, or
  -- takes all of its extents, if the link counts are exact.
  pub handle-Keeps : (r : Request) → LinksAreExact idx → IsShort r → Keeps idx (handle now r idx).0
  unfolding handle create mkdir symlink_node link_node rename_node
  handle-Keeps (creating parent name mode uid gid) x short =
      (make_node-Keeps regular _ uid gid parent name x).0
  handle-Keeps (making_directory parent name mode uid gid) x short =
      (make_node-Keeps directory _ uid gid parent name x).0
  handle-Keeps (making_symlink parent name target uid gid) x short =
      let (kept, empty) = make_node-Keeps symlink 0o777 uid gid parent name x in
      set_target-Keeps target _ kept empty short
  handle-Keeps (linking parent name none) x short = Keeps-refl idx
  handle-Keeps (linking parent name (some target)) x short =
      elim (link_node-left now idx target parent name) [
        | inl same ↦ rw same (Keeps-refl idx)
        | inr same ↦ rw same (add_dir_entry-left parent name target)
      ]
  handle-Keeps (unlinking parent name) x short =
      rw (unlink-left now idx parent name) (remove_dir_entry-left parent name)
  handle-Keeps (removing_directory parent name) x short = elim (rmdir-left now idx parent name) [
    | inl same ↦ rw same (Keeps-refl idx)
    | inr same ↦ rw same (remove_dir_entry-left parent name)
  ]
  handle-Keeps (renaming parent name none new_name) x short = Keeps-refl idx
  handle-Keeps (renaming parent name (some new_parent) new_name) x short =
      rw (rename_node-left now idx parent name new_parent new_name)
        (rename-left parent name new_parent new_name)
