-- ===== src/Fuse/ReadBack.antt =====
-- Read of a file handle as a whole, and Read behind Write.
use fusey.Base.{
  ℕ, ◌+◌, ◌-◌, ◌^◌, ◌<◌, Bytes, Option, none, some, List, [], ◌∷◌, ◌≡◌, refl, arith, ap, sym, ◌∙◌,
  true, length, get_elem?, Bool-cases, inl, inr, ◌⊎◌, length-replicate, get_elem?-replicate,
  Option-cases, bytes_key, tabulate, tabulate-ext, nat_key, replicate,
}
use Prim.Native.Nat.{min}
use mathlib.Core.Path.{subst}
use fusey.Base.Word.{add64-eq, sub64-eq, lt64-eq, le64-eq}
use fusey.Map.{lookup, lookup-adjust}
use fusey.Index.Types.{Inode, Extent}
use fusey.Index.Attrs.{touch_atime}
use fusey.Index.Overwrite.{Place, get_extents}
use fusey.Index.Content.{All, Fits, covers, place, locate, NoEarlyCut}
use fusey.Index.Content.Pieces.{cuts_in_place}
use fusey.Index.Files.{file_extents, file_place, file_size}
use fusey.Index.Files.Writing.{extents-write_extent}
use fusey.Index.Tree.{get_inode}
use fusey.Chunks.Store.{Store, IsLawful}
use fusey.Chunks.Cache.{Cache}
use fusey.Chunks.ChunkStore
use fusey.Chunks.ChunkStore.{ChunkStore}
use fusey.Chunks.AppendOnly.{extent-append}
use fusey.Chunks.Backing.{
  cache-IsBacked, IsBacked, IsMeasured, append-AllBacked, append-IsBacked, append-IsMeasured,
  write_list-IsBacked,
}
use fusey.Chunks.Coherence.{IsCoherent, append-IsCoherent}
use fusey.Fuse.Replies.{done}
use fusey.Fuse.Files.{Fusey, read_extents, read, write}
use fusey.Fuse.Writing.{stored_byte, file_byte, IsSound, written, Fits-written, write-IsSound}
use fusey.Fuse.Reading.{IsRead, overlay, read_extents-IsRead}

-- A hole reads as zeros.
abbrev pub byte_or_zero : Option ℕ → ℕ
byte_or_zero none = 0
byte_or_zero (some b) = b

module _ (S : Store) (object : Bytes → S.State → Option Bytes) where
  -- The state is sound, the cache agrees with the store, and every byte of every extent is stored.
  pub record IsReadable (f : Fusey S) : Type 0 where
    pub sound : IsSound S object f
    pub coherent : IsCoherent S object f.cs
    pub measured : IsMeasured S object f.cs
    pub backed : (ino : ℕ) → All (IsBacked S object f.cs) (file_extents ino f.idx)

  backed_at :
      (cs : ChunkStore S) (e : Extent) (p : ℕ)
      → IsBacked S object cs e
      → covers e p ≡ true
      → (b : ℕ) × (stored_byte S object (some (place e p)) cs ≡ some b)
  backed_at cs e p b h = b.bytes (p - e.file_offset) (ground arith)

  pub backed_locate :
      (cs : ChunkStore S) (es : List Extent) (found : Option Place) (p : ℕ) (at : Place)
      → All (IsBacked S object cs) es
      → locate found es p ≡ some at
      → (found ≡ some at) ⊎ ((b : ℕ) × (stored_byte S object (some at) cs ≡ some b))
  unfolding locate
  backed_locate cs [] found p at h l = inl l
  backed_locate cs (e ∷ es) found p at h l = elim (Bool-cases (covers e p)) [
    | inl inside ↦ elim (backed_locate cs es (some (place e p)) p at h.1 (ground arith)) [
      | inl here ↦
          let (b, held) = backed_at cs e p h.0 inside in
          inr (b, ap (λ o. stored_byte S object o cs) (sym here) ∙ held)
      | inr stored ↦ inr stored
    ]
    | inr outside ↦ backed_locate cs es found p at h.1 (ground arith)
  ]

  overlay_zero :
      (law : IsLawful S object) (off end : ℕ) (range : off < end) (small : end < 2 ^ 63)
      (cs : ChunkStore S) (es : List Extent) (p : ℕ)
      → All (IsBacked S object cs) es
      → overlay S object law off end range small cs (locate none es p) (some 0)
        ≡ some (byte_or_zero (stored_byte S object (locate none es p) cs))
  unfolding overlay
  overlay_zero law off end range small cs es p h = elim (Option-cases (locate none es p)) [
    | inl hole ↦ rw (hole, overlay) refl
    | inr (at, found) ↦ elim (backed_locate cs es none p at h found) [
      | inl absent ↦ absurd (ground arith)
      | inr (b, stored) ↦ rw (found, overlay, stored) refl
    ]
  ]

  pub stored_byte-cache :
      (cs : ChunkStore S) (c : Option Cache) (at : Option Place)
      → stored_byte S object at (record cs { cache = c }) ≡ stored_byte S object at cs
  stored_byte-cache cs c none = refl
  stored_byte-cache cs c (some at) = refl

  -- The end of the range that Read reads.
  abbrev pub read_end : ℕ → ℕ → Inode → ℕ
  read_end off want n = min (off + want) n.size

  module _ (law : IsLawful S object) (ino want off now : ℕ) (f f' : Fusey S) (x : IsReadable f)
      (n : Inode) (es : List Extent) (out : Bytes) (open_inode : lookup ino f.idx.inodes ≡ some n)
      (listed : lookup ino f.idx.extents ≡ some es) (some_bytes : 0 < want)
      (fits : off + want < 2 ^ 63) (before_end : off < n.size)
      (r : read S ino want off now f ≡ (f', done out)) where
    small : read_end off want n < 2 ^ 63
    small = ground arith

    range : off < read_end off want n
    range = ground arith

    sized : n.size < 2 ^ 63
    sized = ground (arith, x.sound.files.sized ino)

    -- The call of the loop.
    looped :
        (read_extents S es off (read_end off want n) (replicate (read_end off want n - off) 0) f.cs
          ≡ (f'.cs, done out))
        × (f'.idx ≡ touch_atime ino now f.idx)
        × (f'.max_fs_size ≡ f.max_fs_size)
    unfolding read get_inode get_extents
    looped = ground (
      arith,
      sized,
      add64-eq off want,
      le64-eq n.size off,
      lt64-eq n.size (off + want),
      sub64-eq (read_end off want n) off,
    )

    same : file_extents ino f.idx ≡ es
    same = ground arith

    listed-IsBacked : All (IsBacked S object f.cs) es
    listed-IsBacked = subst (All (IsBacked S object f.cs)) same (x.backed ino)

    is_read :
        IsRead S object law off
          (read_end off want n)
          range
          small
          es
          (replicate (read_end off want n - off) 0)
          f.cs
          f'.cs
          out
    is_read =
        read_extents-IsRead S object law off (read_end off want n) range small es _ f.cs f'.cs out
          (subst (All Fits) same (x.sound.files.fits ino)) listed-IsBacked x.measured x.sound.fresh
          x.coherent (length-replicate (read_end off want n - off) 0) looped.0

    pub length-read : length out ≡ read_end off want n - off
    length-read = let (len, bytes, y, kept) = is_read in len

    -- A read of `want` bytes at `off` through a file handle that is done returns the bytes of the
    -- file from `off` on, zeros in the holes, up to the smaller of `off` + `want` and the size of
    -- the file: if the store is lawful, the state is readable, the file has an extent list,
    -- `want` is not 0, `off` is before the end of the file and the range ends below 2 ^ 63.
    pub read_done :
        (i : ℕ)
        → i < length out
        → (length out ≡ read_end off want n - off)
          × (get_elem? out i ≡ some (byte_or_zero (file_byte S object ino (off + i) f)))
    read_done i h =
        let (len, bytes, y, kept) = is_read in
        (
          len,
          bytes i (omega (arith, h, len))
              ∙ ap
                  (λ (o : Option ℕ).
                    overlay S object law off (read_end off want n) range small f.cs
                      (locate none es (off + i)) o)
                  (get_elem?-replicate (read_end off want n - off) 0 i (omega (arith, h, len)))
              ∙ overlay_zero law off (read_end off want n) range small f.cs es (off + i)
                  listed-IsBacked
              ∙ ap
                  (λ (l : List Extent).
                    some (byte_or_zero (stored_byte S object (locate none l (off + i)) f.cs)))
                  (sym same),
        )

    -- A read of `want` bytes at `off` through a file handle that is done returns the bytes of the
    -- file from `off` to the smaller of `off` + `want` and the size of the file, all of them, and
    -- zeros in the holes: if the store is lawful, the state is readable, the file has an extent
    -- list, `want` is not 0, `off` is before the end of the file and the range ends below 2 ^ 63.
    pub read-file_range :
        out
        ≡ tabulate (λ p. byte_or_zero (file_byte S object ino p f)) off (read_end off want n - off)
    read-file_range =
        tabulate-ext (λ p. byte_or_zero (file_byte S object ino p f)) off
          (read_end off want n - off) out length-read (λ i h. (read_done i (rw length-read h)).1)

    -- Reading touches the access time and the cache.
    touched :
        ((j : ℕ) → file_extents j f'.idx ≡ file_extents j f.idx)
        × ((j : ℕ) → file_size j f'.idx ≡ file_size j f.idx)
    unfolding touch_atime
    touched =
        let (run, idx, room) = looped in
        (
          λ j. ground arith,
          λ j. ground (arith, lookup-adjust ino j (λ m. record m { atime = now }) f.idx.inodes),
        )

    chunks_kept : (c : Option Cache) × (f'.cs ≡ record f.cs { cache = c })
    chunks_kept = let (len, bytes, y, kept) = is_read in kept

    -- A read that is done keeps the state readable, under the conditions of `read_done`.
    pub read-IsReadable : IsReadable f'
    read-IsReadable =
        let (extents, sizes) = touched in
        let (len, bytes, y, (c, kept)) = is_read in
        record {
          sound = record {
            files = record {
              fits = λ j. rw (extents j) (x.sound.files.fits j);
              apart = λ j p. rw (extents j) (x.sound.files.apart j p);
              within = λ j p h. rw (extents j) (x.sound.files.within j p (rw (sym (sizes j)) h));
              sized = λ j. rw (sizes j) (x.sound.files.sized j);
            };
            fresh =
                rw kept (record { active = x.sound.fresh.active; unused = x.sound.fresh.unused });
            within = rw kept x.sound.within;
          };
          coherent = y;
          measured = rw kept x.measured;
          backed = λ j.
              rw (extents j, kept)
                (cache-IsBacked S object f.cs c (file_extents j f.idx) (x.backed j));
        }

    pub read-keeps_bytes : (j p : ℕ) → file_byte S object j p f' ≡ file_byte S object j p f
    read-keeps_bytes j p =
        let (extents, sizes) = touched in
        let (c, kept) = chunks_kept in
        rw (extents j, kept) (stored_byte-cache f.cs c (file_place j f.idx p))

  module _ (law : IsLawful S object) (spare ino : ℕ) (d : Bytes) (off now : ℕ) (f f' : Fusey S)
      (x : IsReadable f) (n : ℕ) (some_bytes : 0 < length d) (size : length d < 2 ^ 62)
      (end : off + length d < 2 ^ 63) (apart : NoEarlyCut off (length d) (file_extents ino f.idx))
      (w : write S spare ino d off now f ≡ (f', done n)) where
    -- A write of at least one byte that is done keeps the state readable, under the conditions of
    -- `read-write`: it is sound, the files in the cache are copies of their objects, and every
    -- byte of every extent is in its chunk.
    pub write-IsReadable : IsReadable f'
    write-IsReadable =
        let (ext, stored, recorded, chunks, count) =
          written S object law spare ino d off now f f' x.sound n w in
        let (at, len) = extent-append S object law d off f.cs x.sound.fresh ext stored in
        let fits =
          Fits-written S object law spare ino d off now f f' x.sound n size end apart w ext
            stored in
        let cs' = (ChunkStore.append S d off f.cs).0 in
        let old : (j : ℕ) → All (IsBacked S object cs') (file_extents j f.idx) = λ j.
          append-AllBacked S object law d off f.cs x.sound.fresh (file_extents j f.idx)
            (x.backed j) in
        let cuts =
          cuts_in_place ext (file_extents ino f.idx) fits (x.sound.files.fits ino)
            (rw (at, len) apart) in
        record {
          sound = write-IsSound S object law spare ino d off now f f' x.sound n size end apart w;
          coherent = rw chunks (append-IsCoherent S object law f.cs x.sound.fresh x.coherent d off);
          measured = rw chunks (
              append-IsMeasured S object law d off f.cs x.sound.fresh x.sound.within size
                x.measured);
          backed = λ j.
              rw (chunks, extents-write_extent spare ino ext now f.idx f'.idx recorded j)
                (ground (
                  arith,
                  old j,
                  write_list-IsBacked S object cs' ext fits spare (file_extents ino f.idx)
                      (x.sound.files.fits ino) cuts (old ino)
                      (append-IsBacked S object law d off f.cs x.sound.fresh ext some_bytes stored),
                ));
        }
