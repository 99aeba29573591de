-- ===== src/Fuse/Session/Runs.antt =====
-- Every state that a run of requests reaches.
use fusey.Base.{
  ℕ, ◌+◌, ◌^◌, ◌<◌, Bytes, Bool, Option, none, ◌≡◌, refl, arith, bytes_key, nat_key, length,
}
use fusey.Map.{lookup}
use fusey.Index.Tree
use fusey.Index.Content.{NoEarlyCut}
use fusey.Index.Files.{file_extents}
use fusey.Index.Files.Starting.{new-FilesAreSound}
use fusey.Index.Links.Adding.{new-LinksAreExact}
use fusey.Chunks.Ids.{chunk_id}
use fusey.Chunks.Store.{Store, IsLawful}
use fusey.Chunks.Cache.{new_cache}
use fusey.Chunks.ChunkStore
use fusey.Chunks.Starting.{new-IsFresh, new-WithinLimit}
use fusey.Fuse.Replies.{done}
use fusey.Fuse.Files.{Fusey, read, write}
use fusey.Fuse.RoundTrip.{read-write}
use fusey.Fuse.Session.Defs.{
  Step, writes, reads, handles, sets_attr, sets_xattr, removes_xattr, syncs, Reach, here, next,
  started,
}
use fusey.Fuse.Session.Contents.{DoesAll, idle, then, ops_of, view}
use fusey.Fuse.Session.Refining.{step-Does}
use fusey.Fuse.Session.Keeping.{
  IsHealthy, handle-IsHealthy, setattr-IsHealthy, setxattr-IsHealthy, removexattr-IsHealthy,
}
use fusey.Fuse.Session.Handles.{write-IsHealthy, read-IsHealthy, fsync-IsHealthy}

module _ (S : Store) (object : Bytes → S.State → Option Bytes) where
  started-IsHealthy :
      (block_size now limit max_fs_size : ℕ) (writable : Bytes → Bool) (s : S.State)
      → ((id : Bytes) → object id s ≡ none)
      → limit < 2 ^ 62
      → IsHealthy S object (started S block_size now limit max_fs_size writable s)
  unfolding Tree.new ChunkStore.new new_cache lookup
  started-IsHealthy block_size now limit max_fs_size writable s empty h =
      let fresh = new-IsFresh S object s limit (λ n. empty (chunk_id n)) in
      record {
        readable = record {
          sound = record {
            files = new-FilesAreSound block_size now;
            fresh = record { active = fresh.active; unused = fresh.unused };
            within = new-WithinLimit S object s limit h;
          };
          coherent = record {
            agree = λ id d d' held stored. ground arith;
            active = refl;
            unused = λ n k. refl;
          };
          measured = (omega arith, λ id d other held. ground (arith, empty id));
          backed = λ j. tt;
        };
        links = new-LinksAreExact block_size now;
      }

  module _ (law : IsLawful S object) where
    Step-IsHealthy : (f f' : Fusey S) → Step S f f' → IsHealthy S object f → IsHealthy S object f'
    Step-IsHealthy f f' (writes spare ino d off now r some_bytes size end apart w) x =
        write-IsHealthy S object law f f' x spare ino d off now size r some_bytes end apart w
    Step-IsHealthy f f' (reads ino want off now r some_bytes fits w) x =
        read-IsHealthy S object law f f' x ino want off now some_bytes fits r w
    Step-IsHealthy f f' (handles now r room other short e) x =
        rw e (handle-IsHealthy S object f x now r room other short)
    Step-IsHealthy f f' (sets_attr ino i now resizable e) x =
        rw e (setattr-IsHealthy S object f x ino i now resizable)
    Step-IsHealthy f f' (sets_xattr ino name d now e) x =
        rw e (setxattr-IsHealthy S object f x ino name d now)
    Step-IsHealthy f f' (removes_xattr ino name now e) x =
        rw e (removexattr-IsHealthy S object f x ino name now)
    Step-IsHealthy f f' (syncs C cached io disk disk' r w) x =
        fsync-IsHealthy S object law f f' x C cached io disk disk' r w

    -- Every run of requests, whatever they answer, keeps the state healthy.
    pub Reach-IsHealthy :
        (f f' : Fusey S) → Reach S f f' → IsHealthy S object f → IsHealthy S object f'
    Reach-IsHealthy f f' here x = x
    Reach-IsHealthy f f' (next {g} run step) x =
        Step-IsHealthy g f' step (Reach-IsHealthy f g run x)

    Reach-DoesAll :
        (f f' : Fusey S) (run : Reach S f f')
        → IsHealthy S object f
        → DoesAll (view S object f) (ops_of S run) (view S object f')
    Reach-DoesAll f f' here x = idle
    Reach-DoesAll f f' (next {g} run step) x =
        then (Reach-DoesAll f g run x)
          (step-Does S object law g f' (Reach-IsHealthy f g run x) step)

    module _ (block_size now limit max_fs_size : ℕ) (writable : Bytes → Bool) (s : S.State)
        (empty : (id : Bytes) → object id s ≡ none) (h : limit < 2 ^ 62) (f : Fusey S)
        (run : Reach S (started S block_size now limit max_fs_size writable s) f) where
      -- Every state that such a run reaches is healthy: the extents of each file are disjoint and
      -- within its size, every byte of them is in its chunk, the cache is a copy of the store,
      -- unused chunk IDs are fresh, the active chunk keeps to its limit, and the link counts are
      -- exact.
      pub reached-IsHealthy : IsHealthy S object f
      reached-IsHealthy =
          Reach-IsHealthy _ f run
            (started-IsHealthy block_size now limit max_fs_size writable s empty h)

      -- A run of a daemon that starts on an empty object store does to an abstract store of bytes
      -- what its requests ask, one after another: a write that is done puts its bytes at its
      -- offset into its file, SetAttr with a size cuts or extends its file, a change of the tree
      -- keeps every file with its size, but for the one that loses a name by it, which may be
      -- gone, and the bytes of every file that is still there, and all other requests, and writes
      -- that are not done, change no byte and no size; if the store is lawful, the limit of
      -- chunks is below 2 ^ 62, and each request keeps to its bounds: a write lets no extent of
      -- the file but the last reach out of its range on both sides, no entry is renamed onto
      -- itself, numbers have room, and a new size is one of a regular file.
      pub reached-DoesAll :
          DoesAll
            (view S object (started S block_size now limit max_fs_size writable s))
            (ops_of S run)
            (view S object f)
      reached-DoesAll =
          Reach-DoesAll _ f run
            (started-IsHealthy block_size now limit max_fs_size writable s empty h)

      -- In every state that such a run reaches, a read that is done, of the range that a write
      -- has just written, returns the bytes that were written: if the data is not empty and
      -- shorter than 2 ^ 62, the range ends below 2 ^ 63, and no extent of the file but the last
      -- reaches out of the range on both sides.
      pub reached-read-write :
          (spare ino : ℕ) (d : Bytes) (off at later : ℕ) (f' f'' : Fusey S) (out : Bytes) (n : ℕ)
          → 0 < length d
          → length d < 2 ^ 62
          → off + length d < 2 ^ 63
          → NoEarlyCut off (length d) (file_extents ino f.idx)
          → write S spare ino d off at f ≡ (f', done n)
          → read S ino (length d) off later f' ≡ (f'', done out)
          → out ≡ d
      reached-read-write spare ino d off at later f' f'' out n some_bytes size end apart w r =
          read-write S object law spare ino d off at later f f' f'' out reached-IsHealthy.readable n
            some_bytes size end apart w r
