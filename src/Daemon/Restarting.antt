-- ===== src/Daemon/Restarting.antt =====
-- A daemon on another machine, behind a run of persistFn.
use mathlib.Core.Path.{subst}
use fusey.Base.{
  ℕ, ◌^◌, ◌<◌, Bytes, Bool, true, Option, none, some, List, [], ◌∷◌, ◌≡◌, arith, ap, sym, ◌∙◌, ◌⊎◌,
  inl, inr, ok, bytes_key, nat_key, bytes_beq_iff, Bool-cases, Result-cases, Option-cases,
}
use fusey.Map.{Map, lookup}
use fusey.Index.Types.{Index, Extent, or_empty}
use fusey.Index.Tree.{lookup_entry}
use fusey.Index.Overwrite.{Place}
use fusey.Index.Content.{All, covers, place, locate}
use fusey.Index.Files.{file_extents, file_place}
use fusey.Index.Links.{LinksAreExact}
use fusey.Index.Snapshots.{is_remote_dirty, mark_clean}
use fusey.Persist.RoundTrip.{IsNumbered}
use fusey.Persist.Saving.{Codec, Disk, DiskReplies, save, load, marshal, unmarshal}
use fusey.Persist.Saving.RoundTrip.{
  IsFaithful, SameContents, AreNumbered, IsStorable, unmarshal-marshal,
}
use fusey.Chunks.Ids.{chunk_id}
use fusey.Chunks.Flushing.{IsFlushed}
use fusey.Chunks.Store.{IsLawful, has}
use fusey.Chunks.ChunkStore
use fusey.Chunks.ChunkStore.{ChunkStore, recover_next_seq}
use fusey.Chunks.AppendOnly.{chunk_byte, byte_at}
use fusey.Chunks.Recovering.{recover_next_seq-active}
use fusey.Fuse.Writing.{stored_byte}
use fusey.Daemon.Defs.{
  ObjectStore, Daemon, persist, load_index, load_remote, build_store, is_missing,
}
use fusey.Daemon.Persisting.{IsRawLawful, persist-stores, saved_index}

lookup-IsNumbered :
    (m : Map ℕ (List Extent)) (j : ℕ)
    → All (λ (ino, es). All IsNumbered es) m
    → All IsNumbered (or_empty (lookup j m))
unfolding lookup
lookup-IsNumbered [] j h = tt
lookup-IsNumbered ((ino, es) ∷ m) j h = ground (arith, lookup-IsNumbered m j h.1, h.0)

numbered_place :
    (es : List Extent) (found : Option Place) (p : ℕ) (at : Place)
    → All IsNumbered es
    → locate found es p ≡ some at
    → (found ≡ some at) ⊎ ((n : ℕ) × (at.0 ≡ chunk_id n))
unfolding locate
numbered_place [] found p at h l = inl l
numbered_place (e ∷ es) found p at h l = elim (Bool-cases (covers e p)) [
  | inl inside ↦ elim (numbered_place es (some (place e p)) p at h.1 (ground arith)) [
    | inl here ↦ let (n, small, named) = h.0 in inr (n, ground arith)
    | inr later ↦ inr later
  ]
  | inr outside ↦ numbered_place es found p at h.1 (ground arith)
]

SameContents-mark_clean : (a b : Index) → SameContents a b → SameContents a (mark_clean b)
unfolding mark_clean lookup_entry
SameContents-mark_clean a b s = record {
  inodes = s.inodes;
  entries = s.entries;
  extents = s.extents;
  symlinks = s.symlinks;
  xattrs = s.xattrs;
  next_ino = s.next_ino;
}

module _ (O : ObjectStore) (C : Codec) (object raw : Bytes → O.base.State → Option Bytes)
    (law : IsLawful O.base object) (raw_law : IsRawLawful O object raw)
    (faithful : IsFaithful C) where
  module _ (s : O.base.State) (ids : List Bytes) (listed : O.base.list s ≡ some ids)
      (complete : (n : ℕ) (d : Bytes)
        → object (chunk_id n) s ≡ some d
        → has (chunk_id n) ids ≡ true)
      (short : (n : ℕ) (d : Bytes) → object (chunk_id n) s ≡ some d → n < 10 ^ 8) (cache_dir : Bool)
      (writable : Bytes → Bool) (limit : ℕ) (cs : ChunkStore O.base)
      (built : build_store O C cache_dir writable limit s ≡ some cs) where
    chunk_byte-build_store :
        (n i b : ℕ)
        → byte_at O.base object (object (chunk_id n) s) i ≡ some b
        → chunk_byte O.base object (chunk_id n) i cs ≡ some b
    unfolding build_store
    chunk_byte-build_store n i b h =
        let (free, kept) =
          recover_next_seq-active O.base object s limit ids listed complete short in
        ground (
          arith,
          bytes_beq_iff (chunk_id n)
              (recover_next_seq O.base (ChunkStore.new O.base s limit)).0.active_id,
        )

  module _ (io : DiskReplies) (readable : Bool) (disk disk2 : Disk) (block_size now : ℕ)
      (s : O.base.State) (idx idx2 : Index) (d : Bytes) (links : LinksAreExact idx)
      (numbered : AreNumbered idx) (storable : IsStorable C idx) (made : marshal C idx ≡ ok d)
      (kept : raw O.index_key s ≡ some d) (fresh_disk : disk.snapshot_file ≡ none)
      (loaded : load_index O C readable io disk block_size now s ≡ some (idx2, disk2)) where
    from_remote : load_remote O C io disk block_size now s ≡ some (idx2, disk2)
    unfolding load_index load is_missing
    from_remote = ground arith

    loaded_contents : SameContents idx idx2
    unfolding load_remote
    loaded_contents =
        let (idx', back, same) =
          unmarshal-marshal C faithful idx block_size links numbered storable d made in
        elim (Result-cases (O.get_raw O.index_key s)) [
          | inl (r, got) ↦
              let whole : r ≡ d = raw_law.get_raw-raw O.index_key d r s kept got in
              let opened : unmarshal C r block_size ≡ ok idx' =
                ap (λ (k : Bytes). unmarshal C k block_size) whole ∙ back in
              let final : (save C io idx' disk).0.0 ≡ idx2 = ground (arith, from_remote) in
              elim (saved_index O C object raw law raw_law io idx' disk) [
                | inl plain ↦ subst (SameContents idx) (sym plain ∙ final) same
                | inr clean ↦
                    subst (SameContents idx) (sym clean ∙ final)
                      (SameContents-mark_clean idx idx' same)
              ]
          | inr (inl (e, got)) ↦
              absurd (ground (arith, raw_law.get_raw-found O.index_key d s e kept got, from_remote))
          | inr (inr got) ↦ absurd (ground (arith, from_remote))
        ]

  -- A run of persistFn that succeeds, and a daemon with a fresh disk that starts afterwards.
  module _ (io io2 : DiskReplies) (g g' : Daemon O C) (flushed : IsFlushed O.base object g.cs)
      (links : LinksAreExact g.idx) (numbered : AreNumbered g.idx) (storable : IsStorable C g.idx)
      (changed : is_remote_dirty g.idx ≡ true) (run : persist O C io g ≡ (g', ok tt))
      (ids : List Bytes) (listed : O.base.list g'.cs.store ≡ some ids)
      (complete : (n : ℕ) (d : Bytes)
        → object (chunk_id n) g'.cs.store ≡ some d
        → has (chunk_id n) ids ≡ true)
      (short : (n : ℕ) (d : Bytes) → object (chunk_id n) g'.cs.store ≡ some d → n < 10 ^ 8)
      (readable cache_dir : Bool) (writable : Bytes → Bool) (disk disk2 : Disk)
      (block_size now limit : ℕ) (idx2 : Index) (cs2 : ChunkStore O.base)
      (fresh_disk : disk.snapshot_file ≡ none)
      (loaded : load_index O C readable io2 disk block_size now g'.cs.store ≡ some (idx2, disk2))
      (built : build_store O C cache_dir writable limit g'.cs.store ≡ some cs2) where
    same_contents : SameContents g.idx idx2
    same_contents =
        let (d, made, kept, stored) =
          persist-stores O C object raw law raw_law io g g' changed run 0 0 flushed in
        loaded_contents io2 readable disk disk2 block_size now g'.cs.store g.idx idx2 d links
          numbered storable made kept fresh_disk loaded

    kept_byte :
        (j p b : ℕ)
        → stored_byte O.base object (file_place j g.idx p) g.cs ≡ some b
        → stored_byte O.base object (file_place j idx2 p) cs2 ≡ some b
    kept_byte j p b h = elim (Option-cases (file_place j g.idx p)) [
      | inl hole ↦ absurd (ground arith)
      | inr ((id, i), at) ↦
          elim (numbered_place (file_extents j g.idx) none p (id, i)
            (lookup-IsNumbered g.idx.extents j numbered) at) [
              | inl absent ↦ absurd (ground arith)
              | inr (n, named) ↦
                  let held : chunk_byte O.base object (chunk_id n) i g.cs ≡ some b =
                    sym (ap (λ k. chunk_byte O.base object k i g.cs) named)
                    ∙ sym (ap (λ o. stored_byte O.base object o g.cs) at)
                    ∙ h in
                  let (d, made, kept, stored) =
                    persist-stores O C object raw law raw_law io g g' changed run n i flushed in
                  let there : file_place j idx2 p ≡ some (id, i) =
                    ap (λ o. locate none (or_empty o) p) (same_contents.extents j) ∙ at in
                  ap (λ o. stored_byte O.base object o cs2) there
                  ∙ ap (λ k. chunk_byte O.base object k i cs2) named
                  ∙ chunk_byte-build_store g'.cs.store ids listed complete short cache_dir writable
                      limit cs2 built n i b (ground (arith, stored, held))
            ]
    ]

    -- When a run of persistFn on an index that has changed succeeds, and later a daemon with an
    -- empty disk loads its index from that store and recovers the chunk numbers, the index that
    -- it loads answers every question about files as the old one did, and every byte of a file is
    -- stored where the new index says, unless it could not be read before: if the store, its raw
    -- objects and the CBOR library do what they promise, the strings of the index are texts that
    -- the library decodes and its lists and maps keep to the library's limit, a clean active
    -- chunk is stored, the link counts are exact, every chunk ID is that of a 32-bit number, the
    -- store lists its objects, and no object has the chunk ID of a number of 10 ^ 8 or more.
    pub restart-keeps :
        (j p : ℕ)
        → SameContents g.idx idx2
          × ((stored_byte O.base object (file_place j g.idx p) g.cs ≡ none)
              ⊎ (stored_byte O.base object (file_place j idx2 p) cs2
                  ≡ stored_byte O.base object (file_place j g.idx p) g.cs))
    restart-keeps j p = (
      same_contents,
      elim (Option-cases (stored_byte O.base object (file_place j g.idx p) g.cs)) [
        | inl unread ↦ inl unread
        | inr (b, h) ↦ inr (kept_byte j p b h ∙ sym h)
      ],
    )
