-- ===== src/Fuse/Session/Defs.antt =====
-- A run of the daemon: the requests of the kernel, one after another, and Fsync.
use fusey.Base.{ℕ, ◌+◌, ◌^◌, ◌<◌, Bytes, Bool, false, some, ◌≡◌, nat_key, length}
use fusey.Map.{lookup}
use fusey.Index.Types.{Index, regular}
use fusey.Index.Tree
use fusey.Index.Content.{NoEarlyCut}
use fusey.Index.Files.{file_extents}
use fusey.Index.Links.{nlink_of, type_of}
use fusey.Persist.Saving.{Codec, Disk, DiskReplies}
use fusey.Chunks.Store.{Store}
use fusey.Chunks.Cache.{new_cache}
use fusey.Chunks.ChunkStore
use fusey.Fuse.Replies.{Reply}
use fusey.Fuse.Files.{Fusey, read, write}
use fusey.Fuse.Nodes.{SetAttrIn, setattr, setxattr, removexattr, Request, handle, onto_itself}
use fusey.Fuse.Nodes.Holding.{IsShort}
use fusey.Fuse.Syncing.{fsync}

-- The next inode number and every link count have room for one more.
pub record HasRoom (idx : Index) : Type 0 where
  pub next : idx.next_ino + 1 < 2 ^ 63
  pub few : (j : ℕ) → nlink_of (lookup j idx.inodes) + 1 < 2 ^ 32

-- A new size is one of a regular file, and an int64.
abbrev pub IsResizable : ℕ → SetAttrIn → Index → Type 0
IsResizable ino i idx =
    (size : ℕ) → i.size ≡ some size → (size < 2 ^ 63) × (type_of (lookup ino idx.inodes) ≡ regular)

module _ (S : Store) where
  -- One request, whatever it answers. The kernel neither reads nor writes zero bytes.
  pub data Step (f f' : Fusey S) : Type 1 where
    writes :
        (spare ino : ℕ) (d : Bytes) (off now : ℕ) (r : Reply ℕ)
        → 0 < length d
        → length d < 2 ^ 62
        → off + length d < 2 ^ 63
        → NoEarlyCut off (length d) (file_extents ino f.idx)
        → write S spare ino d off now f ≡ (f', r)
        → Step f f'
    reads :
        (ino want off now : ℕ) (r : Reply Bytes)
        → 0 < want
        → off + want < 2 ^ 63
        → read S ino want off now f ≡ (f', r)
        → Step f f'
    handles :
        (now : ℕ) (r : Request)
        → HasRoom f.idx
        → onto_itself r ≡ false
        → IsShort r
        → f' ≡ record f { idx = (handle now r f.idx).0 }
        → Step f f'
    sets_attr :
        (ino : ℕ) (i : SetAttrIn) (now : ℕ)
        → IsResizable ino i f.idx
        → f' ≡ record f { idx = (setattr ino i now f.idx).0 }
        → Step f f'
    sets_xattr :
        (ino : ℕ) (name d : Bytes) (now : ℕ)
        → f' ≡ record f { idx = (setxattr ino name d now f.idx).0 }
        → Step f f'
    removes_xattr :
        (ino : ℕ) (name : Bytes) (now : ℕ)
        → f' ≡ record f { idx = (removexattr ino name now f.idx).0 }
        → Step f f'
    syncs :
        (C : Codec) (cached : Bool) (io : DiskReplies) (disk disk' : Disk) (r : Reply (Unit {0}))
        → fsync S C cached io f disk ≡ ((f', disk'), r)
        → Step f f'

  pub data Reach (f : Fusey S) : Fusey S → Type 1 where
    here : Reach f f
    next : {g h : Fusey S} → Reach f g → Step g h → Reach f h

  -- A daemon that has just been started, with an empty cache, on an object store without an index.
  abbrev pub started : ℕ → ℕ → ℕ → ℕ → (Bytes → Bool) → S.State → Fusey S
  started block_size now limit max_fs_size writable s = record {
    idx = Tree.new block_size now;
    cs = record (ChunkStore.new S s limit) { cache = some (new_cache writable) };
    max_fs_size = max_fs_size;
  }
