-- ===== src/Fuse/Syncing.antt =====
-- Fsync of a file handle (internal/fuse/fs.go), and what it makes durable.
use fusey.Base.{
  ℕ, none, ◌⊎◌, inl, inr, sym, ◌∙◌, Option-cases, Bytes, Bool, true, Option, ◌≡◌, arith,
  if◌then◌else◌, Result, ok, err, panic,
}
use fusey.Index.Links.{LinksAreExact}
use fusey.Index.Types.{Index}
use fusey.Persist.Saving.{Codec, Disk, DiskReplies, save, load}
use fusey.Persist.Saving.RoundTrip.{IsFaithful, SameContents, AreNumbered, IsStorable, load-save}
use fusey.Chunks.Store.{Store, IsLawful}
use fusey.Chunks.ChunkStore.{flush_active}
use fusey.Chunks.AppendOnly.{chunk_byte, byte_at}
use fusey.Chunks.Flushing.{IsFlushed, flushed}
use fusey.Fuse.Replies.{Reply, done, fail, crash, eio}
use fusey.Fuse.Files.{Fusey}

module _ (S : Store) (C : Codec) where
  -- The end of Fsync, after Save.
  abbrev pub after_save :
      Fusey S → (Index × Disk) × Result (Unit {0}) → (Fusey S × Disk) × Reply (Unit {0})
  after_save f ((idx, disk), ok _) = ((record f { idx = idx }, disk), done tt)
  after_save f ((idx, disk), err _) = ((record f { idx = idx }, disk), fail eio)
  after_save f ((idx, disk), panic) = ((record f { idx = idx }, disk), crash)

  -- Fsync. `cached` is whether there is a cache directory.
  unfoldable pub fsync : Bool → DiskReplies → Fusey S → Disk → (Fusey S × Disk) × Reply (Unit {0})
  fsync cached io f disk =
      let (cs, r) = flush_active S f.cs in
      let f1 = record f { cs = cs } in
      elim r [
        | ok _ ↦ if cached then after_save f1 (save C io f.idx disk) else ((f1, disk), done tt)
        | err _ ↦ ((f1, disk), fail eio)
        | panic ↦ ((f1, disk), crash)
      ]

  module _ (object : Bytes → S.State → Option Bytes) (law : IsLawful S object)
      (faithful : IsFaithful C) (io : DiskReplies) (f f' : Fusey S) (disk disk' : Disk)
      (block_size : ℕ) (links : LinksAreExact f.idx) (numbered : AreNumbered f.idx)
      (storable : IsStorable C f.idx) (clean : IsFlushed S object f.cs)
      (run : fsync true io f disk ≡ ((f', disk'), done tt)) where
    fsync_steps :
        ((flush_active S f.cs).1 ≡ ok tt)
        × (save C io f.idx disk ≡ ((f'.idx, disk'), ok tt))
        × (f'.cs ≡ (flush_active S f.cs).0)
    unfolding fsync
    fsync_steps = ground arith

    -- After an Fsync with a cache directory that is done, every byte of a chunk is in the object
    -- of the chunk, unless it could not be read before, and Load of the disk gives an index that
    -- answers every question about files as the one before does: if the store is lawful, the CBOR
    -- library is faithful, the strings of the index are texts that it decodes, its lists and maps
    -- keep to the library's limit, a clean active chunk is stored, the link counts are exact, and
    -- every chunk ID is that of a 32-bit number.
    pub fsync_done :
        (id : Bytes) (i : ℕ)
        → ((chunk_byte S object id i f.cs ≡ none)
            ⊎ (byte_at S object (object id f'.cs.store) i ≡ chunk_byte S object id i f.cs))
          × ((idx : Index) × (load C true disk' block_size ≡ ok idx) × SameContents f.idx idx)
    fsync_done id i =
        let (sealed, saved, chunks) = fsync_steps in
        let (marked, loads) =
          load-save C faithful f.idx block_size links numbered storable io disk f'.idx disk'
            saved in
        (
          elim (Option-cases (chunk_byte S object id i f.cs)) [
            | inl unread ↦ inl unread
            | inr (b, h) ↦ inr (rw chunks (flushed S object law f.cs sealed id i b clean h ∙ sym h))
          ],
          loads,
        )
