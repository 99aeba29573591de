-- ===== src/Fuse/Session/Handles.antt =====
-- What the requests on a file handle keep, whatever they answer.
use mathlib.Core.Path.{subst}
use fusey.Base.{
  ℕ, ◌+◌, ◌-◌, ◌^◌, ◌<◌, Bytes, Bool, Option, some, List, ◌≡◌, refl, arith, ◌⊎◌, inl, inr,
  Option-cases, Bool-cases, nat_key, length, length-replicate, replicate,
}
use fusey.Base.Word.{add64-eq, sub64-eq, lt64-eq, le64, le64-eq}
use fusey.Map.{lookup}
use fusey.Index.Types.{Inode, Extent}
use fusey.Index.Tree.{get_inode}
use fusey.Index.Overwrite.{get_extents}
use fusey.Index.Attrs.{touch_atime}
use fusey.Index.Content.{All, Fits, NoEarlyCut}
use fusey.Index.Files.{file_extents}
use fusey.Index.Files.Keeping.{SameFiles, touch_atime-SameFiles, same-Keeps}
use fusey.Index.Links.Unchanged.{
  write_extent-LinksAreExact, touch_atime-LinksAreExact, mark_clean-LinksAreExact,
}
use fusey.Index.Snapshots.{mark_clean}
use fusey.Persist.Saving.{Codec, Disk, DiskReplies, save}
use fusey.Chunks.Store.{Store, IsLawful}
use fusey.Chunks.Cache.{Cache}
use fusey.Chunks.ChunkStore
use fusey.Chunks.ChunkStore.{ChunkStore, flush_active}
use fusey.Chunks.AppendOnly.{append-IsFresh, append-WithinLimit}
use fusey.Chunks.Backing.{IsBacked, append-AllBacked, append-IsMeasured, cache-IsBacked}
use fusey.Chunks.Coherence.{IsCoherent, append-IsCoherent}
use fusey.Chunks.Syncing.{
  flush_active-IsFresh, flush_active-WithinLimit, flush_active-IsCoherent, flush_active-IsMeasured,
  flush_active-AllBacked,
}
use fusey.Fuse.Replies.{Reply, done}
use fusey.Fuse.Files.{Fusey, write, record_write, read, read_extents}
use fusey.Fuse.Writing.{written}
use fusey.Fuse.Reading.{read_extents-IsCoherent}
use fusey.Fuse.ReadBack.{IsReadable, write-IsReadable, read_end}
use fusey.Fuse.Syncing.{fsync}
use fusey.Fuse.Session.Keeping.{IsHealthy, Keeps-IsReadable}

module _ (S : Store) (object : Bytes → S.State → Option Bytes) (law : IsLawful S object)
    (f f' : Fusey S) (x : IsHealthy S object f) where
  abbrev r : IsReadable S object f
  r = x.readable

  -- A Write that is not done leaves the index.
  module _ (spare ino : ℕ) (d : Bytes) (off now : ℕ) (size : length d < 2 ^ 62) where
    abbrev pub appended : ChunkStore S
    appended = (ChunkStore.append S d off f.cs).0

    appended-IsReadable : IsReadable S object (record f { cs = appended })
    appended-IsReadable = record {
      sound = record {
        files = r.sound.files;
        fresh = append-IsFresh S object law d off f.cs r.sound.fresh;
        within = append-WithinLimit S object law d off f.cs r.sound.fresh r.sound.within size;
      };
      coherent = append-IsCoherent S object law f.cs r.sound.fresh r.coherent d off;
      measured =
          append-IsMeasured S object law d off f.cs r.sound.fresh r.sound.within size r.measured;
      backed = λ j.
          append-AllBacked S object law d off f.cs r.sound.fresh (file_extents j f.idx)
            (r.backed j);
    }

    pub write_outcome :
        (a : Reply ℕ)
        → write S spare ino d off now f ≡ (f', a)
        → ((n : ℕ) × (a ≡ done n)) ⊎ ((f' ≡ f) ⊎ (f' ≡ record f { cs = appended }))
    unfolding write record_write
    write_outcome a w = ground arith

    pub write-IsHealthy :
        (a : Reply ℕ)
        → 0 < length d
        → off + length d < 2 ^ 63
        → NoEarlyCut off (length d) (file_extents ino f.idx)
        → write S spare ino d off now f ≡ (f', a)
        → IsHealthy S object f'
    write-IsHealthy a some_bytes end apart w = elim (write_outcome a w) [
      | inl (n, e) ↦
          let w' = subst (λ b. write S spare ino d off now f ≡ (f', b)) e w in
          let (ext, stored, recorded, chunks, count) =
            written S object law spare ino d off now f f' r.sound n w' in
          record {
            readable =
                write-IsReadable S object law spare ino d off now f f' r n some_bytes size end apart
                  w';
            links = write_extent-LinksAreExact ino now f.idx f'.idx spare ext recorded x.links;
          }
      | inr (inl e) ↦ rw e x
      | inr (inr e) ↦ rw e (record { readable = appended-IsReadable; links = x.links })
    ]

  module _ (ino want off now : ℕ) (some_bytes : 0 < want) (fits : off + want < 2 ^ 63) where
    -- A Read changes no more than the cache and an access time.
    cache-IsHealthy :
        (c : Option Cache)
        → IsCoherent S object (record f.cs { cache = c })
        → IsHealthy S object (record f { cs = record f.cs { cache = c } })
    cache-IsHealthy c y = record {
      readable = record {
        sound = record {
          files = r.sound.files;
          fresh = record { active = r.sound.fresh.active; unused = r.sound.fresh.unused };
          within = r.sound.within;
        };
        coherent = y;
        measured = r.measured;
        backed = λ j. cache-IsBacked S object f.cs c (file_extents j f.idx) (r.backed j);
      };
      links = x.links;
    }

    touch-IsHealthy :
        (g : Fusey S)
        → IsHealthy S object g
        → IsHealthy S object (record g { idx = touch_atime ino now g.idx })
    touch-IsHealthy g y = record {
      readable =
          Keeps-IsReadable S object g (touch_atime ino now g.idx) y.readable
            (same-Keeps g.idx (touch_atime ino now g.idx) (touch_atime-SameFiles ino now g.idx));
      links = touch_atime-LinksAreExact ino now g.idx y.links;
    }

    abbrev pub loop : Inode → List Extent → ChunkStore S × Reply Bytes
    loop n es =
        read_extents S es off (read_end S object off want n)
          (replicate (read_end S object off want n - off) 0) f.cs

    pub read_outcome :
        (a : Reply Bytes)
        → read S ino want off now f ≡ (f', a)
        → (f' ≡ f)
          ⊎ ((n : Inode) × (es : List Extent) × (lookup ino f.idx.extents ≡ some es)
              × (off < read_end S object off want n)
              × ((f' ≡ record f { cs = (loop n es).0 })
                  ⊎ (f' ≡ record f { cs = (loop n es).0; idx = touch_atime ino now f.idx })))
    unfolding read get_inode get_extents
    read_outcome a w = elim (Option-cases (lookup ino f.idx.inodes)) [
      | inl missing ↦ inl (ground arith)
      | inr (n, found) ↦ elim (Bool-cases (le64 n.size off)) [
        | inl beyond ↦ inl (ground arith)
        | inr before ↦ elim (Option-cases (lookup ino f.idx.extents)) [
          | inl unlisted ↦ inl (ground arith)
          | inr (es, listed) ↦
              let sized : n.size < 2 ^ 63 = ground (arith, r.sound.files.sized ino) in
              let range : off < read_end S object off want n = ground (arith, le64-eq n.size off) in
              inr (
                n,
                es,
                listed,
                range,
                ground (
                  arith,
                  add64-eq off want,
                  lt64-eq n.size (off + want),
                  sub64-eq (read_end S object off want n) off,
                ),
              )
        ]
      ]
    ]

    -- The two results of a read that reaches the loop.
    looped :
        (n : Inode) (es : List Extent)
        → lookup ino f.idx.extents ≡ some es
        → off < read_end S object off want n
        → IsCoherent S object (loop n es).0
          × ((c : Option Cache) × ((loop n es).0 ≡ record f.cs { cache = c }))
    looped n es listed range =
        let same : file_extents ino f.idx ≡ es = ground arith in
        read_extents-IsCoherent S object law off (read_end S object off want n) range
          (omega (arith, fits)) es (replicate (read_end S object off want n - off) 0) f.cs
          (loop n es).0 (loop n es).1 (subst (All Fits) same (r.sound.files.fits ino))
          (subst (All (IsBacked S object f.cs)) same (r.backed ino)) r.measured r.sound.fresh
          r.coherent (length-replicate (read_end S object off want n - off) 0) refl

    pub read-IsHealthy :
        (a : Reply Bytes) → read S ino want off now f ≡ (f', a) → IsHealthy S object f'
    read-IsHealthy a w = elim (read_outcome a w) [
      | inl same ↦ rw same x
      | inr (n, es, listed, range, outcome) ↦
          let (y, (c, kept)) = looped n es listed range in
          let after = cache-IsHealthy c (subst (IsCoherent S object) kept y) in
          elim outcome [
            | inl untouched ↦ rw (untouched, kept) after
            | inr touched ↦ rw (touched, kept) (touch-IsHealthy _ after)
          ]
    ]

    pub read_keeps :
        (a : Reply Bytes)
        → read S ino want off now f ≡ (f', a)
        → SameFiles f.idx f'.idx × ((c : Option Cache) × (f'.cs ≡ record f.cs { cache = c }))
    read_keeps a w = elim (read_outcome a w) [
      | inl same ↦ rw same (record { extents = refl; sizes = λ j. refl }, (f.cs.cache, refl))
      | inr (n, es, listed, range, outcome) ↦
          let (y, (c, kept)) = looped n es listed range in
          elim outcome [
            | inl untouched ↦ rw untouched (record { extents = refl; sizes = λ j. refl }, (c, kept))
            | inr touched ↦ rw touched (touch_atime-SameFiles ino now f.idx, (c, kept))
          ]
    ]

  module _ (C : Codec) (cached : Bool) (io : DiskReplies) (disk disk' : Disk) where
    abbrev pub flushed_chunks : ChunkStore S
    flushed_chunks = (flush_active S f.cs).0

    flushed-IsHealthy : IsHealthy S object (record f { cs = flushed_chunks })
    flushed-IsHealthy = record {
      readable = record {
        sound = record {
          files = r.sound.files;
          fresh = flush_active-IsFresh S object law f.cs r.sound.fresh;
          within = flush_active-WithinLimit S object law f.cs r.sound.within;
        };
        coherent = flush_active-IsCoherent S object law f.cs r.coherent;
        measured = flush_active-IsMeasured S object law f.cs r.measured;
        backed = λ j. flush_active-AllBacked S object law f.cs (file_extents j f.idx) (r.backed j);
      };
      links = x.links;
    }

    clean-IsHealthy :
        (g : Fusey S)
        → IsHealthy S object g
        → IsHealthy S object (record g { idx = mark_clean g.idx })
    unfolding mark_clean
    clean-IsHealthy g y = record {
      readable =
          Keeps-IsReadable S object g (mark_clean g.idx) y.readable
            (same-Keeps g.idx (mark_clean g.idx) (record { extents = refl; sizes = λ j. refl }));
      links = mark_clean-LinksAreExact g.idx y.links;
    }

    pub fsync_outcome :
        (a : Reply (Unit {0}))
        → fsync S C cached io f disk ≡ ((f', disk'), a)
        → (f' ≡ record f { cs = flushed_chunks })
          ⊎ (f' ≡ record f { cs = flushed_chunks; idx = mark_clean f.idx })
    unfolding fsync save
    fsync_outcome a w = ground arith

    pub fsync-IsHealthy :
        (a : Reply (Unit {0}))
        → fsync S C cached io f disk ≡ ((f', disk'), a)
        → IsHealthy S object f'
    fsync-IsHealthy a w = elim (fsync_outcome a w) [
      | inl same ↦ rw same flushed-IsHealthy
      | inr clean ↦ rw clean (clean-IsHealthy _ flushed-IsHealthy)
    ]
