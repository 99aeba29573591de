-- ===== src/Fuse/Session/Overwriting.antt =====
-- What a write does to the abstract store of bytes, whatever it answers.
use Prim.Native.Nat.{max}
use fusey.Base.{
  ℕ, ◌+◌, ◌-◌, ◌^◌, ◌<◌, ◌≤◌, Bytes, Option, none, some, ◌≡◌, ◌≢◌, refl, arith, ap, sym, ◌∙◌, ◌⊎◌,
  inl, inr, Option-cases, Bool-cases, nat_key, ◌==◌, ◌&&◌, if◌then◌else◌, leb, ltb, length,
  get_elem?,
}
use fusey.Index.Overwrite.{Place}
use fusey.Index.Content.{NoEarlyCut}
use fusey.Index.Files.{file_extents, file_place, file_size}
use fusey.Index.Files.Keeping.{SameFiles}
use fusey.Index.Files.Writing.{size-write_extent}
use fusey.Chunks.Store.{Store, IsLawful}
use fusey.Chunks.ChunkStore
use fusey.Chunks.ChunkStore.{ChunkStore}
use fusey.Chunks.AppendOnly.{extent-append}
use fusey.Fuse.Replies.{Reply, done, fail, crash}
use fusey.Fuse.Files.{Fusey, write}
use fusey.Fuse.Writing.{
  stored_byte, stored_byte-append, file_byte, written, Fits-written, write_done, write-keeps_byte,
  write-keeps_hole,
}
use fusey.Fuse.ReadBack.{IsReadable, byte_or_zero, backed_locate}
use fusey.Fuse.Session.Contents.{IsSame, IsOverwritten, Does, write_op, view}
use fusey.Fuse.Session.Keeping.{IsHealthy}
use fusey.Fuse.Session.Handles.{write_outcome}

module _ (S : Store) (object : Bytes → S.State → Option Bytes) where
  -- A place of a readable file has a byte.
  byte_there :
      (f : Fusey S) (j p : ℕ)
      → IsReadable S object f
      → (file_place j f.idx p ≡ none) ⊎ ((b : ℕ) × (file_byte S object j p f ≡ some b))
  byte_there f j p x = elim (Option-cases (file_place j f.idx p)) [
    | inl hole ↦ inl hole
    | inr (at, found) ↦
        elim (backed_locate S object f.cs (file_extents j f.idx) none p at (x.backed j) found) [
          | inl absent ↦ absurd (ground arith)
          | inr (b, stored) ↦ inr (b, ap (λ o. stored_byte S object o f.cs) found ∙ stored)
        ]
  ]

  -- The same files over chunks that keep their bytes.
  pub same_files :
      (f f' : Fusey S)
      → IsReadable S object f
      → SameFiles f.idx f'.idx
      → ((at : Option Place) (b : ℕ)
          → stored_byte S object at f.cs ≡ some b
          → stored_byte S object at f'.cs ≡ some b)
      → IsSame (view S object f) (view S object f')
  same_files f f' x same kept = record {
    bytes = λ j p. rw same.extents (elim (byte_there f j p x) [
      | inl hole ↦ rw hole refl
      | inr (b, h) ↦ ap byte_or_zero (kept (file_place j f.idx p) b h ∙ sym h)
    ]);
    sizes = same.sizes;
  }

  module _ (law : IsLawful S object) (f f' : Fusey S) (y : IsHealthy S object f) (spare ino : ℕ)
      (d : Bytes) (off now : ℕ) (size : length d < 2 ^ 62) where
    abbrev x : IsReadable S object f
    x = y.readable

    module _ (n : ℕ) (end : off + length d < 2 ^ 63)
        (apart : NoEarlyCut off (length d) (file_extents ino f.idx))
        (w : write S spare ino d off now f ≡ (f', done n)) where
      untouched :
          (j p : ℕ)
          → (j ≢ ino) ⊎ ((p < off) ⊎ (off + length d ≤ p))
          → byte_or_zero (file_byte S object j p f') ≡ byte_or_zero (file_byte S object j p f)
      untouched j p out = elim (byte_there f j p x) [
        | inl hole ↦
            rw
              (
                hole,
                write-keeps_hole S object law spare ino d off now f f' x.sound n size end apart w j
                    p out hole,
              )
              refl
        | inr (b, h) ↦ ap byte_or_zero (
            write-keeps_byte S object law spare ino d off now f f' x.sound n size end apart w j p b
              out h
            ∙ sym h)
      ]

      inside :
          (p : ℕ)
          → off ≤ p
          → p < off + length d
          → byte_or_zero (file_byte S object ino p f') ≡ byte_or_zero (get_elem? d (p - off))
      inside p h k =
          let e : off + (p - off) ≡ p = omega (arith, h) in
          ap (λ (q : ℕ). byte_or_zero (file_byte S object ino q f')) (sym e)
          ∙ ap byte_or_zero
              (write_done S object law spare ino d off now f f' x.sound n size end apart w (p - off)
                (omega (arith, h, k))).1

      grown :
          (j : ℕ)
          → file_size j f'.idx
            ≡ (if ino == j then max (file_size j f.idx) (off + length d) else file_size j f.idx)
      grown j =
          let (ext, stored, recorded, chunks, count) =
            written S object law spare ino d off now f f' x.sound n w in
          let (at, len) = extent-append S object law d off f.cs x.sound.fresh ext stored in
          let fits =
            Fits-written S object law spare ino d off now f f' x.sound n size end apart w ext
              stored in
          ground (
            arith,
            at,
            len,
            size-write_extent spare ino ext now f.idx f'.idx (x.sound.files.sized ino) fits recorded
                j,
          )

      write-overwrites : IsOverwritten ino off d (view S object f) (view S object f')
      write-overwrites = record {
        bytes = (λ j p. elim (Bool-cases (ino == j)) [
          | inr other ↦ ground (arith, untouched j p)
          | inl same ↦
              let e : ino ≡ j = ground arith in
              elim (Bool-cases (leb off p && ltb p (off + length d))) [
                | inl within ↦ rw (same, within, ← e) (inside p (ground arith) (ground arith))
                | inr out ↦ rw (same, out) (untouched j p (ground arith))
              ]
        ]);
        sizes = grown;
      }

    -- A write that is not done, at any of its points.
    write-IsSame :
        (a : Reply ℕ)
        → ((n : ℕ) → a ≢ done n)
        → write S spare ino d off now f ≡ (f', a)
        → IsSame (view S object f) (view S object f')
    write-IsSame a not_done w =
        elim (write_outcome S object law f f' y spare ino d off now size a w) [
          | inl (n, e) ↦ absurd (not_done n e)
          | inr (inl e) ↦
              rw e (same_files f f x (record { extents = refl; sizes = λ j. refl }) (λ at b h. h))
          | inr (inr e) ↦ rw e (
              same_files f (record f { cs = (ChunkStore.append S d off f.cs).0 }) x
                (record { extents = refl; sizes = λ j. refl })
                (stored_byte-append S object law spare ino d off now f f' x.sound))
        ]

    -- Whatever a write answers.
    pub write-Does :
        (a : Reply ℕ)
        → off + length d < 2 ^ 63
        → NoEarlyCut off (length d) (file_extents ino f.idx)
        → write S spare ino d off now f ≡ (f', a)
        → Does (write_op ino off d a) (view S object f) (view S object f')
    write-Does (done n) end apart w = write-overwrites n end apart w
    write-Does (fail e) end apart w = write-IsSame (fail e) (λ n h. ground arith) w
    write-Does crash end apart w = write-IsSame crash (λ n h. ground arith) w
