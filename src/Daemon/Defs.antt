-- ===== src/Daemon/Defs.antt =====
-- buildPersistFn, loadIndex and mustBuildStore (cmd/fusey/main.go). The object store is a parameter,
-- with its raw objects, of which the index is one.
use fusey.Base.{
  ℕ, Bytes, Bool, true, false, not, Option, none, some, Result, ok, err, panic, if◌then◌else◌,
  Error, object_not_found, no_snapshot, store_failure,
}
use fusey.Index.Types.{Index}
use fusey.Index.Tree
use fusey.Index.Snapshots.{is_dirty, is_remote_dirty, mark_remote_clean}
use fusey.Persist.Saving.{Codec, Disk, DiskReplies, save, load, marshal, unmarshal}
use fusey.Chunks.Store.{Store}
use fusey.Chunks.Cache.{new_cache}
use fusey.Chunks.ChunkStore
use fusey.Chunks.ChunkStore.{ChunkStore, flush_active, recover_next_seq}

-- ObjectStore: PutRaw, GetRaw and IndexKey beside the operations of Store.
pub record ObjectStore : Type 1 where
  pub base : Store
  pub put_raw : Bytes → Bytes → base.State → base.State × Bool
  pub get_raw : Bytes → base.State → Result Bytes
  pub index_key : Bytes

-- os.IsNotExist, and errors.Is(err, ErrNotFound)
unfoldable pub is_missing : Error → Bool
is_missing no_snapshot = true
is_missing object_not_found = true
is_missing _ = false

module _ (O : ObjectStore) (C : Codec) where
  -- What persistFn works on.
  pub record Daemon : Type 0 where
    pub idx : Index
    pub cs : ChunkStore O.base
    pub disk : Disk

  -- The next step, unless one has failed.
  abbrev pub and_then :
      Daemon × Result (Unit {0})
      → (Daemon → Daemon × Result (Unit {0}))
      → Daemon × Result (Unit {0})
  and_then (g, ok _) step = step g
  and_then (g, err e) step = (g, err e)
  and_then (g, panic) step = (g, panic)

  abbrev with_saved : Daemon → (Index × Disk) × Result (Unit {0}) → Daemon × Result (Unit {0})
  with_saved g ((idx, disk), r) = (record g { idx = idx; disk = disk }, r)

  unfoldable pub persist_local : DiskReplies → Daemon → Daemon × Result (Unit {0})
  persist_local io g = if is_dirty g.idx then with_saved g (save C io g.idx g.disk) else (g, ok tt)

  unfoldable pub persist_chunks : Daemon → Daemon × Result (Unit {0})
  persist_chunks g = let (cs, r) = flush_active O.base g.cs in (record g { cs = cs }, r)

  -- PutRaw of the encoded index, and MarkRemoteClean.
  unfoldable pub put_index : Bytes → Daemon → Daemon × Result (Unit {0})
  put_index d g =
      let (s, done) = O.put_raw O.index_key d g.cs.store in
      let cs = record g.cs { store = s } in
      if done
      then (record g { cs = cs; idx = mark_remote_clean g.idx }, ok tt)
      else (record g { cs = cs }, err store_failure)

  unfoldable pub persist_remote : Daemon → Daemon × Result (Unit {0})
  persist_remote g =
      if not (is_remote_dirty g.idx)
      then (g, ok tt)
      else elim (marshal C g.idx) [ err e ↦ (g, err e) | panic ↦ (g, panic) | ok d ↦ put_index d g ]

  -- The function that buildPersistFn returns.
  unfoldable pub persist : DiskReplies → Daemon → Daemon × Result (Unit {0})
  persist io g = and_then (and_then (persist_local io g) persist_chunks) persist_remote

  -- loadIndex without a local snapshot; `none` is log.Fatalf. A failed Save is only logged.
  unfoldable pub load_remote : DiskReplies → Disk → ℕ → ℕ → O.base.State → Option (Index × Disk)
  load_remote io disk block_size now s = elim (O.get_raw O.index_key s) [
    | ok d ↦ elim (unmarshal C d block_size) [
      | ok idx ↦ some (save C io idx disk).0
      | err _ ↦ none
      | panic ↦ none
    ]
    | err e ↦ if is_missing e then some (Tree.new block_size now, disk) else none
    | panic ↦ none
  ]

  unfoldable pub load_index :
      Bool → DiskReplies → Disk → ℕ → ℕ → O.base.State → Option (Index × Disk)
  load_index readable io disk block_size now s = elim (load C readable disk block_size) [
    | ok idx ↦ some (idx, disk)
    | err e ↦ if is_missing e then load_remote io disk block_size now s else none
    | panic ↦ none
  ]

  -- The end of mustBuildStore, on a cache directory without chunks. `cache_dir` is whether SetCacheDir
  -- succeeds, and `writable` says which files the disk takes.
  unfoldable pub build_store : Bool → (Bytes → Bool) → ℕ → O.base.State → Option (ChunkStore O.base)
  build_store cache_dir writable limit s =
      let (cs, r) = recover_next_seq O.base (ChunkStore.new O.base s limit) in
      elim r [
        | ok _ ↦ if cache_dir then some (record cs { cache = some (new_cache writable) }) else none
        | err _ ↦ none
        | panic ↦ none
      ]
