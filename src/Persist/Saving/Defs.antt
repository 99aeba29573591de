-- ===== src/Persist/Saving/Defs.antt =====
-- The snapshot of the index as bytes, and as the file index.cbor. The CBOR library is a parameter.
use fusey.Base.{
  ℕ, Bytes, Bool, true, false, Option, none, some, Result, ok, err, panic, if◌then◌else◌,
  encoding_failure, decoding_failure, disk_failure, no_snapshot,
}
use fusey.Index.Types.{Index}
use fusey.Index.Snapshots.{snapshot, from_snapshot, mark_clean}
use fusey.Persist.Defs.{WireSnapshot, to_wire_snapshot, from_wire_snapshot}

-- cbor.Marshal and cbor.Unmarshal of a cborSnapshot; `none` is the error.
pub record Codec : Type 0 where
  pub encode : WireSnapshot → Option Bytes
  pub decode : Bytes → Option WireSnapshot
  -- Whether Unmarshal takes a text string: by default it has to be valid UTF-8.
  pub takes_text : Bytes → Bool

-- The files index.cbor and index.cbor.tmp of the cache directory.
pub record Disk : Type 0 where
  pub snapshot_file : Option Bytes
  pub temp_file : Option Bytes

-- What the disk answers: whether MkdirAll succeeds, what a failing WriteFile leaves of the temporary
-- file (`none` if it succeeds), and whether Rename succeeds.
pub record DiskReplies : Type 0 where
  pub mkdir_done : Bool
  pub left_behind : Option (Option Bytes)
  pub rename_done : Bool

module _ (C : Codec) where
  unfoldable pub marshal : Index → Result Bytes
  marshal idx = elim (to_wire_snapshot (snapshot idx)) [
    | err e ↦ err e
    | panic ↦ panic
    | ok w ↦ elim (C.encode w) [ none ↦ err encoding_failure | some d ↦ ok d ]
  ]

  unfoldable pub unmarshal : Bytes → ℕ → Result Index
  unmarshal d block_size = elim (C.decode d) [
    | none ↦ err decoding_failure
    | some w ↦ ok (from_snapshot (from_wire_snapshot w) block_size)
  ]

  -- The end of Save: the file system calls, in their order.
  unfoldable pub write_snapshot : DiskReplies → Bytes → Disk → Disk × Bool
  write_snapshot io d disk =
      if io.mkdir_done
      then elim io.left_behind [
        | some rest ↦ (record disk { temp_file = rest }, false)
        | none ↦
            if io.rename_done
            then (record { snapshot_file = some d; temp_file = none }, true)
            else (record disk { temp_file = some d }, false)
      ]
      else (disk, false)

  unfoldable pub save : DiskReplies → Index → Disk → (Index × Disk) × Result (Unit {0})
  save io idx disk = elim (marshal idx) [
    | err e ↦ ((idx, disk), err e)
    | panic ↦ ((idx, disk), panic)
    | ok d ↦
        let (disk', written) = write_snapshot io d disk in
        if written then ((mark_clean idx, disk'), ok tt) else ((idx, disk'), err disk_failure)
  ]

  -- Load. `readable` is whether a file that is there can be read.
  unfoldable pub load : Bool → Disk → ℕ → Result Index
  load readable disk block_size = elim disk.snapshot_file [
    | none ↦ err no_snapshot
    | some d ↦ if readable then unmarshal d block_size else err disk_failure
  ]
