-- ===== src/Fuse/Nodes/Victims.antt =====
-- The requests of the kernel that change the tree, and the inodes that they leave.
use fusey.Base.{
  ℕ, Bytes, Option, none, some, ◌≡◌, refl, arith, inl, inr, Result-cases, Option-cases, nat_key,
}
use fusey.Map.{lookup}
use fusey.Index.Types.{Index, regular, directory, symlink}
use fusey.Index.Tree.{create_inode, add_dir_entry, remove_dir_entry, rename, lookup_entry}
use fusey.Index.Attrs.{set_symlink}
use fusey.Index.Files.Staying.{
  Stays, Stays-refl, Stays-then, add_dir_entry-IsKept, remove_dir_entry-Stays, rename-Stays,
  create_inode-Stays, set_symlink-IsKept,
}
use fusey.Index.Links.{LinksAreExact}
use fusey.Fuse.Replies.{Reply, done, fail, crash}
use fusey.Fuse.Nodes.Attr.{Attr}
use fusey.Fuse.Nodes.Defs.{
  entry_of, make_node, set_target, create, mkdir, symlink_node, link_node, rename_node,
}
use fusey.Fuse.Nodes.Keeping.{left, link_node-left, unlink-left, rmdir-left, rename_node-left}
use fusey.Fuse.Nodes.Requests.{
  Request, handle, creating, making_directory, making_symlink, linking, unlinking,
  removing_directory, renaming,
}

-- The inode whose entry a request takes away or replaces.
abbrev pub victim : Request → Index → Option ℕ
victim (unlinking parent name) idx = lookup_entry parent name idx
victim (removing_directory parent name) idx = lookup_entry parent name idx
victim (renaming parent name (some new_parent) new_name) idx = lookup_entry new_parent new_name idx
victim _ idx = none

module _ (now : ℕ) (idx : Index) where
  unused : LinksAreExact idx → lookup idx.next_ino idx.inodes ≡ none
  unused x = elim (Option-cases (lookup idx.next_ino idx.inodes)) [
    | inl free ↦ free
    | inr (n, taken) ↦ absurd (ground (arith, x.fresh idx.next_ino))
  ]

  module _ (file_type perm uid gid : ℕ) (parent : ℕ) (name : Bytes) (x : LinksAreExact idx) where
    abbrev made : Index × Reply (ℕ × Attr)
    made = make_node file_type perm uid gid now parent name idx

    -- The inode that the reply names was not there.
    make_node-Stays :
        Stays none idx made.0
        × ((ino : ℕ) (attr : Attr) → made.1 ≡ done (ino, attr) → lookup ino idx.inodes ≡ none)
    unfolding make_node create_inode entry_of
    make_node-Stays =
        let between : Index = (create_inode file_type perm uid gid 0 now idx).1 in
        let k = create_inode-Stays now idx file_type perm uid gid 0 (unused x) in
        elim (Result-cases (add_dir_entry parent name idx.next_ino now between)) [
          | inl (idx', e) ↦ (
            rw (make_node, e)
                (Stays-then none idx between idx' k
                  (λ j. inr (add_dir_entry-IsKept now between parent name idx.next_ino idx' e j))),
            λ ino attr r. ground (arith, unused x),
          )
          | inr (inl (failure, e)) ↦ (rw (make_node, e) k, λ ino attr r. absurd (ground arith))
          | inr (inr e) ↦ (rw (make_node, e) k, λ ino attr r. absurd (ground arith))
        ]

  set_target-Stays :
      (target : Bytes) (r : Index × Reply (ℕ × Attr))
      → Stays none idx r.0
      → ((ino : ℕ) (attr : Attr) → r.1 ≡ done (ino, attr) → lookup ino idx.inodes ≡ none)
      → Stays none idx (set_target target now r).0
  set_target-Stays target (idx1, fail e) k fresh = k
  set_target-Stays target (idx1, crash) k fresh = k
  set_target-Stays target (idx1, done (ino, attr)) k fresh =
      elim (Result-cases (set_symlink ino target now idx1)) [
        | inl (idx', e) ↦
            rw (set_target, e)
              (Stays-then none idx idx1 idx' k
                (set_symlink-IsKept now idx1 ino target idx idx' (fresh ino attr refl) e))
        | inr (inl (failure, e)) ↦ rw (set_target, e) k
        | inr (inr e) ↦ rw (set_target, e) k
      ]

  add_dir_entry-left :
      (parent : ℕ) (name : Bytes) (child : ℕ)
      → Stays none idx (left idx (add_dir_entry parent name child now idx))
  add_dir_entry-left parent name child =
      elim (Result-cases (add_dir_entry parent name child now idx)) [
        | inl (idx', e) ↦ rw e (
            Stays-then none idx idx idx' (Stays-refl none idx)
              (λ j. inr (add_dir_entry-IsKept now idx parent name child idx' e j)))
        | inr (inl (failure, e)) ↦ rw e (Stays-refl none idx)
        | inr (inr e) ↦ rw e (Stays-refl none idx)
      ]

  remove_dir_entry-left :
      (parent : ℕ) (name : Bytes)
      → Stays (lookup_entry parent name idx) idx (left idx (remove_dir_entry parent name now idx))
  remove_dir_entry-left parent name = elim (Result-cases (remove_dir_entry parent name now idx)) [
    | inl (idx', e) ↦ rw e (remove_dir_entry-Stays now idx parent name idx' e)
    | inr (inl (failure, e)) ↦ rw e (Stays-refl (lookup_entry parent name idx) idx)
    | inr (inr e) ↦ rw e (Stays-refl (lookup_entry parent name idx) idx)
  ]

  rename-left :
      (parent : ℕ) (name : Bytes) (new_parent : ℕ) (new_name : Bytes)
      → Stays
          (lookup_entry new_parent new_name idx)
          idx
          (left idx (rename parent name new_parent new_name now idx))
  rename-left parent name new_parent new_name =
      elim (Result-cases (rename parent name new_parent new_name now idx)) [
        | inl (idx', e) ↦ rw e (rename-Stays now idx parent name new_parent new_name idx' e)
        | inr (inl (failure, e)) ↦ rw e (Stays-refl (lookup_entry new_parent new_name idx) idx)
        | inr (inr e) ↦ rw e (Stays-refl (lookup_entry new_parent new_name idx) idx)
      ]

  -- Such a request, whatever it answers, leaves every inode its size and its extents, but for the one
  -- whose entry it takes away, which may be gone; if the link counts are exact.
  pub handle-Stays :
      (r : Request) → LinksAreExact idx → Stays (victim r idx) idx (handle now r idx).0
  unfolding handle create mkdir symlink_node link_node rename_node
  handle-Stays (creating parent name mode uid gid) x =
      (make_node-Stays regular _ uid gid parent name x).0
  handle-Stays (making_directory parent name mode uid gid) x =
      (make_node-Stays directory _ uid gid parent name x).0
  handle-Stays (making_symlink parent name target uid gid) x =
      let (kept, fresh) = make_node-Stays symlink 0o777 uid gid parent name x in
      set_target-Stays target _ kept fresh
  handle-Stays (linking parent name none) x = Stays-refl none idx
  handle-Stays (linking parent name (some target)) x =
      elim (link_node-left now idx target parent name) [
        | inl same ↦ rw same (Stays-refl none idx)
        | inr same ↦ rw same (add_dir_entry-left parent name target)
      ]
  handle-Stays (unlinking parent name) x =
      rw (unlink-left now idx parent name) (remove_dir_entry-left parent name)
  handle-Stays (removing_directory parent name) x = elim (rmdir-left now idx parent name) [
    | inl same ↦ rw same (Stays-refl (lookup_entry parent name idx) idx)
    | inr same ↦ rw same (remove_dir_entry-left parent name)
  ]
  handle-Stays (renaming parent name none new_name) x = Stays-refl none idx
  handle-Stays (renaming parent name (some new_parent) new_name) x =
      rw (rename_node-left now idx parent name new_parent new_name)
        (rename-left parent name new_parent new_name)
