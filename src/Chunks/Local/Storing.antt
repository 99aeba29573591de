-- ===== src/Chunks/Local/Storing.antt =====
-- What Put of the store in a directory does to the files.
use fusey.Base.{
  Bytes, true, false, Option, some, ◌++◌, ◌≡◌, ◌≢◌, ◌==◌, ◌&&◌, ◌∙◌, bytes_key, bytes_beq_iff,
  if◌then◌else◌, arith, Bool-cases, inl, inr,
}
use fusey.Chunks.Local.Defs.{FileSystem, LocalStore, path, tmp, local_put}

-- What os documents of the contents `file` of regular files.
pub record IsPosix (F : FileSystem) (file : Bytes → F.World → Option Bytes) : Type 0 where
  pub file-write :
      (p d : Bytes) (w : F.World)
      → (F.write_file p d w).1 ≡ true
      → file p (F.write_file p d w).0 ≡ some d
  pub file-write_ne :
      (p d q : Bytes) (w : F.World) → p ≢ q → file q (F.write_file p d w).0 ≡ file q w
  -- Rename replaces the file of the new name; a Rename that fails changes nothing.
  pub file-rename :
      (p q : Bytes) (w : F.World) → (F.rename p q w).1 ≡ true → file q (F.rename p q w).0 ≡ file p w
  pub file-rename_ne :
      (p q r : Bytes) (w : F.World) → p ≢ r → q ≢ r → file r (F.rename p q w).0 ≡ file r w
  pub file-rename_fail :
      (p q r : Bytes) (w : F.World)
      → (F.rename p q w).1 ≡ false
      → file r (F.rename p q w).0 ≡ file r w

module _ (F : FileSystem) (file : Bytes → F.World → Option Bytes) (law : IsPosix F file) where
  rename_atomic :
      (p q r d : Bytes) (w : F.World)
      → file p w ≡ some d
      → p ≢ r
      → file r (F.rename p q w).0 ≡ (if (F.rename p q w).1 && q == r then some d else file r w)
  rename_atomic p q r d w held other = elim (Bool-cases (F.rename p q w).1) [
    | inl done ↦ elim (Bool-cases (q == r)) [
      | inl same ↦
          let e : q ≡ r = ground (arith, bytes_beq_iff q r) in
          rw (done, same, ← e) (law.file-rename p q w done ∙ held)
      | inr differ ↦
          rw (done, differ)
            (law.file-rename_ne p q r w other (λ e. absurd (ground (arith, bytes_beq_iff q r))))
    ]
    | inr fails ↦ rw fails (law.file-rename_fail p q r w fails)
  ]

  -- Put of the store in a directory is atomic: whether it is done or fails at any step, the file
  -- of the object holds all of the new data or what it held before, the new data exactly if Put
  -- says that it is done, and every file but this one and its temporary file is as it was; if the
  -- file system does what os documents.
  pub local_put_atomic :
      (s : LocalStore) (id d r : Bytes) (w : F.World)
      → path F s id ++ tmp ≢ r
      → file r (local_put F s id d w).0
        ≡ (if (local_put F s id d w).1 && path F s id == r then some d else file r w)
  unfolding local_put
  local_put_atomic s id d r w other =
      let p = path F s id in
      let before = law.file-write_ne (p ++ tmp) d r w other in
      elim (Bool-cases (F.write_file (p ++ tmp) d w).1) [
        | inl written ↦
            rw (written, ← before)
              (rename_atomic (p ++ tmp) p r d (F.write_file (p ++ tmp) d w).0
                (law.file-write (p ++ tmp) d w written) other)
        | inr fails ↦ rw fails before
      ]
