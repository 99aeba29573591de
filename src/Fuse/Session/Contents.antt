-- ===== src/Fuse/Session/Contents.antt =====
-- What a user of the file system sees of files, and what a request may do to it: the abstract store
-- of bytes, which knows neither extents nor chunks.
use fusey.Base.{
  ℕ, ◌+◌, ◌-◌, Bytes, Bool, false, ◌≡◌, ◌⊎◌, ◌==◌, nat_key, ◌&&◌, if◌then◌else◌, leb, ltb, length,
  get_elem?, Option, none, some, List, [], ◌∷◌,
}
use Prim.Native.Nat.{max}
use fusey.Map.{lookup}
use fusey.Index.Files.{file_size}
use fusey.Index.Links.{is_some}
use fusey.Chunks.Store.{Store}
use fusey.Fuse.Files.{Fusey}
use fusey.Fuse.Replies.{Reply, done}
use fusey.Fuse.Nodes.Victims.{victim}
use fusey.Fuse.Session.Defs.{
  Step, writes, reads, handles, sets_attr, sets_xattr, removes_xattr, syncs, Reach, here, next,
}
use fusey.Fuse.Writing.{file_byte}
use fusey.Fuse.ReadBack.{byte_or_zero}

-- The files by their inode numbers: whether there is one, its size, and its bytes, zero in the holes
-- and behind the end.
pub record Contents : Type 0 where
  pub exists : ℕ → Bool
  pub size : ℕ → ℕ
  pub byte : ℕ → ℕ → ℕ

-- The byte `p` of a file after `d` has been written at `off`.
abbrev pub overwritten : ℕ → Bytes → (ℕ → ℕ) → ℕ → ℕ
overwritten off d old p =
    if leb off p && ltb p (off + length d) then byte_or_zero (get_elem? d (p - off)) else old p

-- What a request asks of the store of bytes, with its answer.
pub data Op : Type 0 where
  -- A write that is done, to a file at an offset.
  overwrites : ℕ → ℕ → Bytes → Op
  -- A new size of a file.
  resizes : ℕ → ℕ → Op
  -- A change of the tree, with the file that loses a name by it.
  arranges : Option ℕ → Op
  -- Any other.
  passes : Op

pub record IsSame (c c' : Contents) : Type 0 where
  pub bytes : (j p : ℕ) → c'.byte j p ≡ c.byte j p
  pub sizes : (j : ℕ) → c'.size j ≡ c.size j

-- The file has the bytes at the offset, and grows to hold them; nothing else changes.
pub record IsOverwritten (ino off : ℕ) (d : Bytes) (c c' : Contents) : Type 0 where
  pub bytes :
      (j p : ℕ) → c'.byte j p ≡ (if ino == j then overwritten off d (c.byte j) p else c.byte j p)
  pub sizes : (j : ℕ) → c'.size j ≡ (if ino == j then max (c.size j) (off + length d) else c.size j)

-- The file is cut, or extended with zeros; nothing else changes.
pub record IsResized (ino size : ℕ) (c c' : Contents) : Type 0 where
  pub bytes : (j p : ℕ) → c'.byte j p ≡ (if ino == j && leb size p then 0 else c.byte j p)
  pub sizes : (j : ℕ) → c'.size j ≡ (if ino == j then size else c.size j)

-- A file that is still there keeps its bytes, and a new one has none but zeros, as before. Every file
-- that was there stays, with its size, but for the one that loses a name, which may be gone.
pub record IsArranged (victim : Option ℕ) (c c' : Contents) : Type 0 where
  pub bytes : (j : ℕ) → ((p : ℕ) → c'.byte j p ≡ c.byte j p) ⊎ (c'.exists j ≡ false)
  pub files :
      (j : ℕ)
      → (c.exists j ≡ false)
        ⊎ (((victim ≡ some j) × (c'.exists j ≡ false))
            ⊎ ((c'.exists j ≡ c.exists j) × (c'.size j ≡ c.size j)))

abbrev pub Does : Op → Contents → Contents → Type 0
Does (overwrites ino off d) c c' = IsOverwritten ino off d c c'
Does (resizes ino size) c c' = IsResized ino size c c'
Does (arranges victim) c c' = IsArranged victim c c'
Does passes c c' = IsSame c c'

-- A run that does what is asked, the last request first.
pub data DoesAll (c : Contents) : List Op → Contents → Type 0 where
  idle : DoesAll c [] c
  then :
      {ops : List Op} {op : Op} {c' c'' : Contents}
      → DoesAll c ops c'
      → Does op c' c''
      → DoesAll c (op ∷ ops) c''

module _ (S : Store) (object : Bytes → S.State → Option Bytes) where
  -- What the daemon's state shows.
  abbrev pub view : Fusey S → Contents
  view f = record {
    exists = λ j. is_some (lookup j f.idx.inodes);
    size = λ j. file_size j f.idx;
    byte = λ j p. byte_or_zero (file_byte S object j p f);
  }

abbrev pub write_op : ℕ → ℕ → Bytes → Reply ℕ → Op
write_op ino off d (done n) = overwrites ino off d
write_op ino off d _ = passes

abbrev pub resize_op : ℕ → Option ℕ → Op
resize_op ino none = passes
resize_op ino (some size) = resizes ino size

module _ (S : Store) where
  -- What a request of a run asks.
  abbrev pub op_of : {f f' : Fusey S} → Step S f f' → Op
  op_of (writes spare ino d off now r some_bytes size end apart w) = write_op ino off d r
  op_of (reads ino want off now r some_bytes fits w) = passes
  op_of {f} (handles now r room other short e) = arranges (victim r f.idx)
  op_of (sets_attr ino i now resizable e) = resize_op ino i.size
  op_of (sets_xattr ino name d now e) = passes
  op_of (removes_xattr ino name now e) = passes
  op_of (syncs C cached io disk disk' r w) = passes

  abbrev pub ops_of : {f f' : Fusey S} → Reach S f f' → List Op
  ops_of here = []
  ops_of (next run step) = op_of step ∷ ops_of run
