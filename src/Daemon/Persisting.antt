-- ===== src/Daemon/Persisting.antt =====
-- What a run of persistFn leaves in the object store.
use mathlib.Core.Path.{subst₂}
use fusey.Base.{
  ℕ, Bytes, true, false, Option, none, some, ◌≡◌, refl, arith, ap, ◌∙◌, ◌⊎◌, inl, inr, Error,
  Result, ok, err, panic, bytes_key, Result-cases, Option-cases, sym,
}
use fusey.Index.Types.{Index}
use fusey.Index.Snapshots.{snapshot, is_dirty, mark_clean, is_remote_dirty, mark_remote_clean}
use fusey.Persist.Saving.{Codec, Disk, DiskReplies, save, marshal, write_snapshot}
use fusey.Chunks.Ids.{chunk_id}
use fusey.Chunks.Flushing.{IsFlushed, flushed}
use fusey.Chunks.Store.{IsLawful}
use fusey.Chunks.ChunkStore.{ChunkStore, flush_active}
use fusey.Chunks.AppendOnly.{chunk_byte, byte_at}
use fusey.Daemon.Defs.{
  ObjectStore, Daemon, persist, persist_local, persist_chunks, persist_remote, put_index, and_then,
  is_missing,
}

-- What the comments of ObjectStore promise, with `raw` for what the store holds under a key.
pub record IsRawLawful (O : ObjectStore) (object raw : Bytes → O.base.State → Option Bytes)
    : Type 0 where
  pub raw-put_raw :
      (key d : Bytes) (s : O.base.State)
      → (O.put_raw key d s).1 ≡ true
      → raw key (O.put_raw key d s).0 ≡ some d
  -- Writing the index touches no chunk.
  pub object-put_raw :
      (n : ℕ) (d : Bytes) (s : O.base.State)
      → object (chunk_id n) (O.put_raw O.index_key d s).0 ≡ object (chunk_id n) s
  -- What is read is what is there, and it is never said to be missing.
  pub get_raw-raw :
      (key d r : Bytes) (s : O.base.State) → raw key s ≡ some d → O.get_raw key s ≡ ok r → r ≡ d
  pub get_raw-found :
      (key d : Bytes) (s : O.base.State) (e : Error)
      → raw key s ≡ some d
      → O.get_raw key s ≡ err e
      → is_missing e ≡ false

module _ (O : ObjectStore) (C : Codec) (object raw : Bytes → O.base.State → Option Bytes)
    (law : IsLawful O.base object) (raw_law : IsRawLawful O object raw) where
  -- Saving changes no more than the dirty flag, which the snapshot does not have.
  pub saved_index :
      (io : DiskReplies) (idx : Index) (disk : Disk)
      → ((save C io idx disk).0.0 ≡ idx) ⊎ ((save C io idx disk).0.0 ≡ mark_clean idx)
  unfolding save
  saved_index io idx disk = ground arith

  marshal-mark_clean : (idx : Index) → marshal C (mark_clean idx) ≡ marshal C idx
  unfolding marshal mark_clean snapshot
  marshal-mark_clean idx = refl

  local_index :
      (io : DiskReplies) (g : Daemon O C)
      → (((persist_local O C io g).0.idx ≡ g.idx)
          ⊎ ((persist_local O C io g).0.idx ≡ mark_clean g.idx))
        × ((persist_local O C io g).0.cs ≡ g.cs)
  unfolding persist_local
  local_index io g = (ground (arith, saved_index io g.idx g.disk), ground arith)

  local_marshal :
      (io : DiskReplies) (g : Daemon O C)
      → (marshal C (persist_local O C io g).0.idx ≡ marshal C g.idx)
        × (is_remote_dirty (persist_local O C io g).0.idx ≡ is_remote_dirty g.idx)
  unfolding is_remote_dirty mark_clean
  local_marshal io g = elim ((local_index io g).0) [
    | inl same ↦ (ap (marshal C) same, ap (λ (idx : Index). idx.remote_dirty) same)
    | inr clean ↦ (
      ap (marshal C) clean ∙ marshal-mark_clean g.idx,
      ap (λ (idx : Index). idx.remote_dirty) clean,
    )
  ]

  remote_steps :
      (g g' : Daemon O C)
      → is_remote_dirty g.idx ≡ true
      → persist_remote O C g ≡ (g', ok tt)
      → (d : Bytes) × (marshal C g.idx ≡ ok d)
        × ((O.put_raw O.index_key d g.cs.store).1 ≡ true)
        × (g'.cs.store ≡ (O.put_raw O.index_key d g.cs.store).0)
        × (g'.idx ≡ mark_remote_clean g.idx)
  unfolding persist_remote put_index
  remote_steps g g' changed run = elim (Result-cases (marshal C g.idx)) [
    | inl (d, made) ↦ (d, made, ground arith, ground arith, ground arith)
    | inr (inl (e, made)) ↦ absurd (ground arith)
    | inr (inr made) ↦ absurd (ground arith)
  ]

  -- The steps behind Save, from a chunk store and what Marshal makes of the index.
  AreDone : ChunkStore O.base → Result Bytes → Daemon O C → Type 0
  AreDone cs made g' =
      (d : Bytes) × (made ≡ ok d)
      × ((flush_active O.base cs).1 ≡ ok tt)
      × ((O.put_raw O.index_key d (flush_active O.base cs).0.store).1 ≡ true)
      × (g'.cs.store ≡ (O.put_raw O.index_key d (flush_active O.base cs).0.store).0)

  later_steps :
      (g g' : Daemon O C)
      → is_remote_dirty g.idx ≡ true
      → and_then O C (persist_chunks O C g) (persist_remote O C) ≡ (g', ok tt)
      → AreDone g.cs (marshal C g.idx) g'
  unfolding persist_chunks AreDone
  later_steps g g' changed run =
      let (d, made, done, stored, clean) =
        remote_steps (record g { cs = (flush_active O.base g.cs).0 }) g' changed (ground arith) in
      (d, made, ground arith, done, stored)

  first_done :
      (r : Daemon O C × Result (Unit {0})) (g' : Daemon O C)
      → and_then O C (and_then O C r (persist_chunks O C)) (persist_remote O C) ≡ (g', ok tt)
      → and_then O C (persist_chunks O C r.0) (persist_remote O C) ≡ (g', ok tt)
  first_done (g, ok tt) g' h = h
  first_done (g, err e) g' h = absurd (ground (arith, ap (λ p. p.1) h))
  first_done (g, panic) g' h = absurd (ground (arith, ap (λ p. p.1) h))

  module _ (io : DiskReplies) (g g' : Daemon O C) (changed : is_remote_dirty g.idx ≡ true)
      (run : persist O C io g ≡ (g', ok tt)) where
    persist_steps : AreDone g.cs (marshal C g.idx) g'
    unfolding persist
    persist_steps =
        let (same_marshal, same_flag) = local_marshal io g in
        let (index, chunks) = local_index io g in
        subst₂ (λ cs made. AreDone cs made g') chunks same_marshal
          (later_steps (persist_local O C io g).0 g' (same_flag ∙ changed)
            (first_done (persist_local O C io g) g' run))

    -- When a run of persistFn on an index that has changed succeeds, the store holds the encoding
    -- of the index as it was before the run, and every byte of a numbered chunk is in the object
    -- of that chunk, unless it could not be read before: if the store and its raw objects do what
    -- they promise, and a clean active chunk is stored.
    pub persist-stores :
        (n i : ℕ)
        → IsFlushed O.base object g.cs
        → (d : Bytes) × (marshal C g.idx ≡ ok d)
          × (raw O.index_key g'.cs.store ≡ some d)
          × ((chunk_byte O.base object (chunk_id n) i g.cs ≡ none)
              ⊎ (byte_at O.base object (object (chunk_id n) g'.cs.store) i
                  ≡ chunk_byte O.base object (chunk_id n) i g.cs))
    unfolding AreDone
    persist-stores n i x =
        let (d, made, sealed, done, stored) = persist_steps in
        (
          d,
          made,
          rw stored (raw_law.raw-put_raw O.index_key d (flush_active O.base g.cs).0.store done),
          elim (Option-cases (chunk_byte O.base object (chunk_id n) i g.cs)) [
            | inl unread ↦ inl unread
            | inr (b, h) ↦ inr (
                rw (stored, raw_law.object-put_raw n d (flush_active O.base g.cs).0.store)
                  (flushed O.base object law g.cs sealed (chunk_id n) i b x h ∙ sym h))
          ],
        )

  -- A run of persistFn on an index that has changed succeeds, if the index can be encoded, the
  -- disk takes the snapshot and the store takes the active chunk and the index.
  module _ (io : DiskReplies) (g : Daemon O C) (d : Bytes) (changed : is_dirty g.idx ≡ true)
      (changed_remote : is_remote_dirty g.idx ≡ true) (made : marshal C g.idx ≡ ok d)
      (dir : io.mkdir_done ≡ true) (whole : io.left_behind ≡ none) (moved : io.rename_done ≡ true)
      (sealed : (flush_active O.base g.cs).1 ≡ ok tt)
      (taken : (O.put_raw O.index_key d (flush_active O.base g.cs).0.store).1 ≡ true) where
    abbrev after : Daemon O C
    after = record {
      idx = mark_remote_clean (mark_clean g.idx);
      cs = record (flush_active O.base g.cs).0 {
        store = (O.put_raw O.index_key d (flush_active O.base g.cs).0.store).0;
      };
      disk = record { snapshot_file = some d; temp_file = none };
    }

    abbrev saved : Daemon O C
    saved = record g {
      idx = mark_clean g.idx;
      disk = record { snapshot_file = some d; temp_file = none };
    }

    local_done : persist_local O C io g ≡ (saved, ok tt)
    unfolding persist_local save write_snapshot
    local_done = rw (persist_local, changed, save, made, write_snapshot, dir, whole, moved) refl

    chunks_done :
        persist_chunks O C saved ≡ (record saved { cs = (flush_active O.base g.cs).0 }, ok tt)
    unfolding persist_chunks
    chunks_done = rw (persist_chunks, sealed) refl

    remote_done :
        persist_remote O C (record saved { cs = (flush_active O.base g.cs).0 }) ≡ (after, ok tt)
    unfolding persist_remote put_index
    remote_done =
        let dirty : is_remote_dirty (mark_clean g.idx) ≡ true =
          unfold is_remote_dirty mark_clean in changed_remote in
        rw (persist_remote, dirty, marshal-mark_clean g.idx, made, put_index, taken) refl

    -- A run of persistFn on an index that has changed since both of its flags were reset
    -- succeeds, clears both flags, and leaves the encoding on the disk and in the store: if the
    -- index can be encoded, the disk takes the snapshot, and the store takes the active chunk and
    -- the index.
    pub persist-completes : persist O C io g ≡ (after, ok tt)
    unfolding persist
    persist-completes = rw (persist, local_done, chunks_done) remote_done
