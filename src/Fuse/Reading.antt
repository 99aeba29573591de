-- ===== src/Fuse/Reading.antt =====
-- What a read through a file handle returns.
use fusey.Base.{
  ℕ, ◌+◌, ◌-◌, ◌^◌, ◌<◌, ◌≤◌, Bytes, Option, none, some, List, [], ◌∷◌, ◌≡◌, refl, arith, ap, sym,
  ◌∙◌, false, ◌||◌, if◌then◌else◌, length, get_elem?, length-slice, get_elem?-slice, Error, ok, err,
  panic, Result-cases, Bool-cases, inl, inr, bytes_key,
}
use fusey.Base.Word.{add64, add64-eq, sub64, sub64-eq, le64, le64-eq}
use fusey.Index.Types.{Extent}
use fusey.Index.Overwrite.{Place}
use fusey.Index.Content.{All, Fits, covers, place, locate}
use fusey.Chunks.Store.{Store, IsLawful}
use fusey.Chunks.Cache.{Cache}
use fusey.Chunks.ChunkStore
use fusey.Chunks.ChunkStore.{ChunkStore}
use fusey.Chunks.AppendOnly.{IsFresh, chunk_bytes, chunk_byte, byte_at, get_elem?-lt}
use fusey.Chunks.Coherence.{IsCoherent, read-keeps}
use fusey.Chunks.Backing.{IsBacked, IsMeasured, measured_chunk, cache-IsBacked}
use fusey.Chunks.Reading.{read-slice, read-IsCoherent}
use fusey.Fuse.Replies.{Reply, done, fail, crash, eio}
use fusey.Fuse.Files.{copy_at, max64, min64, read_extents}
use fusey.Fuse.Writing.{stored_byte}
use fusey.Fuse.Copying.{
  length-copy_at, get_elem?-copy_at, locate-or_else, start_of, stop_of, max64-start_of,
  min64-stop_of,
}

module _ (S : Store) (object : Bytes → S.State → Option Bytes) where
  byte_at-some :
      (o : Option Bytes) (i b : ℕ)
      → byte_at S object o i ≡ some b
      → (d : Bytes) × (o ≡ some d) × (i < length d)
  byte_at-some none i b h = ground arith
  byte_at-some (some d) i b h = (d, refl, get_elem?-lt d i b h)

  module _ (law : IsLawful S object) (off end : ℕ) (range : off < end) (small : end < 2 ^ 63) where
    -- One extent that meets the range.
    module _ (e : Extent) (cs : ChunkStore S) (fits : Fits e) (backed : IsBacked S object cs e)
        (measured : IsMeasured S object cs) (before : off < e.file_offset + e.len)
        (behind : e.file_offset < end) where
      abbrev from : ℕ
      from = e.chunk_offset + (start_of e off - e.file_offset)

      abbrev span : ℕ
      span = stop_of e end - start_of e off

      whole_chunk :
          (whole : Bytes) × (chunk_bytes S object e.chunk_id cs ≡ some whole)
          × (from + span ≤ length whole)
      whole_chunk =
          let last = stop_of e end - 1 - e.file_offset in
          let (b, h) = backed.bytes last (ground (arith, backed.filled)) in
          let (whole, held, fit) =
            byte_at-some (chunk_bytes S object e.chunk_id cs) (e.chunk_offset + last) b h in
          (whole, held, ground (arith, backed.filled))

      copied :
          (IsFresh S object cs)
          → IsCoherent S object cs
          → (d : Bytes) → (ChunkStore.read S e.chunk_id from span cs).1 ≡ ok d
          → (length d ≡ span)
            × ((i : ℕ) → i < span → get_elem? d i ≡ chunk_byte S object e.chunk_id (from + i) cs)
      copied fresh x d r =
          let (whole, held, fit) = whole_chunk in
          let same =
            read-slice S object law cs fresh x e.chunk_id from span whole held
              (ground (arith, backed.filled)) fit
              (measured_chunk S object cs e.chunk_id whole measured held) d r in
          (
            rw same (length-slice from span whole fit),
            (λ i h. rw (same, held) (get_elem?-slice from span whole i h)),
          )

      -- The numbers that the loop computes.
      exact :
          (add64 e.chunk_offset (sub64 (max64 off e.file_offset) e.file_offset) ≡ from)
          × (sub64 (min64 end (add64 e.file_offset e.len)) (max64 off e.file_offset) ≡ span)
          × (sub64 (max64 off e.file_offset) off ≡ start_of e off - off)
      exact =
          rw (max64-start_of e off end fits range small, min64-stop_of e off end fits range small)
            (ground (
              arith,
              sub64-eq (start_of e off) e.file_offset,
              add64-eq e.chunk_offset (start_of e off - e.file_offset),
              sub64-eq (stop_of e end) (start_of e off),
              sub64-eq (start_of e off) off,
            ))

      -- The loop stops at a read that fails.
      module _ (es : List Extent) (buf : Bytes)
          (meets : (le64 (add64 e.file_offset e.len) off || le64 end e.file_offset) ≡ false) where
        loop_failed :
            (failure : Error)
            → (ChunkStore.read S e.chunk_id from span cs).1 ≡ err failure
            → read_extents S (e ∷ es) off end buf cs
              ≡ ((ChunkStore.read S e.chunk_id from span cs).0, fail eio)
        unfolding read_extents
        loop_failed failure r =
            let (chunk_offset, len, at) = exact in
            rw (read_extents, meets, chunk_offset, len, r, chunk_offset, len) refl

        loop_crashed :
            (ChunkStore.read S e.chunk_id from span cs).1 ≡ panic
            → read_extents S (e ∷ es) off end buf cs
              ≡ ((ChunkStore.read S e.chunk_id from span cs).0, crash)
        unfolding read_extents
        loop_crashed r =
            let (chunk_offset, len, at) = exact in
            rw (read_extents, meets, chunk_offset, len, r, chunk_offset, len) refl

      module _ (fresh : IsFresh S object cs) (x : IsCoherent S object cs) (d buf : Bytes)
          (size : length buf ≡ end - off)
          (r : (ChunkStore.read S e.chunk_id from span cs).1 ≡ ok d) where
        -- The loop goes on with the copy.
        loop_step :
            (es : List Extent)
            → (le64 (add64 e.file_offset e.len) off || le64 end e.file_offset) ≡ false
            → read_extents S (e ∷ es) off end buf cs
              ≡ read_extents S es off end
                  (copy_at (start_of e off - off) d buf)
                  (ChunkStore.read S e.chunk_id from span cs).0
        unfolding read_extents
        loop_step es meets =
            let (chunk_offset, len, at) = exact in
            rw (read_extents, meets, chunk_offset, len, r, at, chunk_offset, len) refl

        byte_of_copy :
            (i : ℕ)
            → i < end - off
            → get_elem? (copy_at (start_of e off - off) d buf) i ≡ (
                if covers e (off + i)
                then stored_byte S object (some (place e (off + i))) cs
                else get_elem? buf i)
        byte_of_copy i h =
            let (len, bytes) = copied fresh x d r in
            let at = start_of e off - off in
            get_elem?-copy_at at d buf i (ground (arith, len))
            ∙ elim (Bool-cases (covers e (off + i))) [
              | inl inside ↦ ground (
                arith,
                len,
                bytes (i - at),
                ap (λ (k : ℕ). chunk_byte S object e.chunk_id k cs)
                    (let same : from + (i - at) ≡ e.chunk_offset + (off + i - e.file_offset) =
                        ground arith in
                      same),
              )
              | inr outside ↦ ground (arith, len)
            ]

    -- The byte that the last extent over it gives, or else the one before.
    unfoldable pub overlay : ChunkStore S → Option Place → Option ℕ → Option ℕ
    overlay cs none b = b
    overlay cs (some at) b = stored_byte S object (some at) cs

    abbrev pub IsRead : List Extent → Bytes → ChunkStore S → ChunkStore S → Bytes → Type 0
    IsRead es buf cs cs' out =
        (length out ≡ end - off)
        × ((i : ℕ)
            → i < end - off
            → get_elem? out i ≡ overlay cs (locate none es (off + i)) (get_elem? buf i))
        × IsCoherent S object cs'
        × ((c : Option Cache) × (cs' ≡ record cs { cache = c }))

    pub read_extents-IsRead :
        (es : List Extent) (buf : Bytes) (cs cs' : ChunkStore S) (out : Bytes)
        → All Fits es
        → All (IsBacked S object cs) es
        → IsMeasured S object cs
        → IsFresh S object cs
        → IsCoherent S object cs
        → length buf ≡ end - off
        → read_extents S es off end buf cs ≡ (cs', done out)
        → IsRead es buf cs cs' out
    unfolding read_extents IsRead overlay locate
    read_extents-IsRead [] buf cs cs' out fits backed measured fresh x size r =
        (ground arith, (λ i h. ground arith), rw (← ap (λ p. p.0) r) x, (cs.cache, ground arith))
    read_extents-IsRead (e ∷ es) buf cs cs' out fits backed measured fresh x size r =
        elim (Bool-cases (le64 (add64 e.file_offset e.len) off || le64 end e.file_offset)) [
          | inl skips ↦
              let (len, bytes, y, kept) =
                read_extents-IsRead es buf cs cs' out fits.1 backed.1 measured fresh x size
                  (ground arith) in
              (
                len,
                (λ i h. ground (
                  arith,
                  bytes i h,
                  add64-eq e.file_offset e.len,
                  le64-eq (e.file_offset + e.len) off,
                  le64-eq end e.file_offset,
                )),
                y,
                kept,
              )
          | inr meets ↦
              let before : off < e.file_offset + e.len = ground (
                arith,
                add64-eq e.file_offset e.len,
                le64-eq (e.file_offset + e.len) off,
                fits.0,
              ) in
              let behind : e.file_offset < end =
                ground (arith, le64-eq end e.file_offset, fits.0) in
              let o = from e cs fits.0 backed.0 measured before behind in
              let n = span e cs fits.0 backed.0 measured before behind in
              elim (Result-cases (ChunkStore.read S e.chunk_id o n cs).1) [
                | inl (d, got) ↦
                    let (c, kept) = read-keeps S object law cs e.chunk_id o n in
                    let (whole, held, fit) =
                      whole_chunk e cs fits.0 backed.0 measured before behind in
                    let step =
                      loop_step e cs fits.0 backed.0 measured before behind fresh x d buf size got
                        es meets in
                    let y : IsCoherent S object (record cs { cache = c }) =
                      rw (← kept)
                        (read-IsCoherent S object law cs fresh x e.chunk_id o n whole held) in
                    let (len, bytes, z, (c', rest)) =
                      read_extents-IsRead es (copy_at (start_of e off - off) d buf)
                        (record cs { cache = c }) cs' out fits.1
                        (cache-IsBacked S object cs c es backed.1) measured
                        (record { active = fresh.active; unused = fresh.unused }) y
                        (length-copy_at (start_of e off - off) d buf ∙ size)
                        (ap (read_extents S es off end (copy_at (start_of e off - off) d buf))
                            (sym kept)
                          ∙ sym step
                          ∙ r) in
                    (
                      len,
                      (λ i h.
                          bytes i h
                          ∙ ground (
                            arith,
                            byte_of_copy e cs fits.0 backed.0 measured before behind fresh x d buf
                                size got i h,
                            locate-or_else es (off + i) (some (place e (off + i))),
                          )),
                      z,
                      (c', rest),
                    )
                | inr (inl (failure, got)) ↦ absurd (
                    ground (
                      arith,
                      ap (λ p. p.1)
                          (loop_failed e cs fits.0 backed.0 measured before behind es buf meets
                            failure got),
                      ap (λ p. p.1) r,
                    ))
                | inr (inr got) ↦ absurd (
                    ground (
                      arith,
                      ap (λ p. p.1)
                          (loop_crashed e cs fits.0 backed.0 measured before behind es buf meets
                            got),
                      ap (λ p. p.1) r,
                    ))
              ]
        ]

    -- Whatever comes of it, the loop changes no more than the cache, and keeps that a copy.
    pub read_extents-IsCoherent :
        (es : List Extent) (buf : Bytes) (cs cs' : ChunkStore S) (r : Reply Bytes)
        → All Fits es
        → All (IsBacked S object cs) es
        → IsMeasured S object cs
        → IsFresh S object cs
        → IsCoherent S object cs
        → length buf ≡ end - off
        → read_extents S es off end buf cs ≡ (cs', r)
        → IsCoherent S object cs' × ((c : Option Cache) × (cs' ≡ record cs { cache = c }))
    unfolding read_extents
    read_extents-IsCoherent [] buf cs cs' r fits backed measured fresh x size e =
        (rw (← ap (λ p. p.0) e) x, (cs.cache, ground arith))
    read_extents-IsCoherent (ext ∷ es) buf cs cs' r fits backed measured fresh x size e =
        elim (Bool-cases (le64 (add64 ext.file_offset ext.len) off || le64 end ext.file_offset)) [
          | inl skips ↦
              read_extents-IsCoherent es buf cs cs' r fits.1 backed.1 measured fresh x size
                (ground arith)
          | inr meets ↦
              let before : off < ext.file_offset + ext.len = ground (
                arith,
                add64-eq ext.file_offset ext.len,
                le64-eq (ext.file_offset + ext.len) off,
                fits.0,
              ) in
              let behind : ext.file_offset < end =
                ground (arith, le64-eq end ext.file_offset, fits.0) in
              let o = from ext cs fits.0 backed.0 measured before behind in
              let n = span ext cs fits.0 backed.0 measured before behind in
              let (whole, held, fit) = whole_chunk ext cs fits.0 backed.0 measured before behind in
              let after = read-IsCoherent S object law cs fresh x ext.chunk_id o n whole held in
              let (c, kept) = read-keeps S object law cs ext.chunk_id o n in
              elim (Result-cases (ChunkStore.read S ext.chunk_id o n cs).1) [
                | inl (d, got) ↦
                    let step =
                      loop_step ext cs fits.0 backed.0 measured before behind fresh x d buf size got
                        es meets in
                    let (y, (c', rest)) =
                      read_extents-IsCoherent es (copy_at (start_of ext off - off) d buf)
                        (record cs { cache = c }) cs' r fits.1
                        (cache-IsBacked S object cs c es backed.1) measured
                        (record { active = fresh.active; unused = fresh.unused })
                        (rw (← kept) after) (length-copy_at (start_of ext off - off) d buf ∙ size)
                        (ap (read_extents S es off end (copy_at (start_of ext off - off) d buf))
                            (sym kept)
                          ∙ sym step
                          ∙ e) in
                    (y, (c', rest))
                | inr (inl (failure, got)) ↦
                    let same =
                      ap (λ p. p.0)
                        (sym e
                          ∙ loop_failed ext cs fits.0 backed.0 measured before behind es buf meets
                              failure got) in
                    (rw same after, (c, same ∙ kept))
                | inr (inr got) ↦
                    let same =
                      ap (λ p. p.0)
                        (sym e
                          ∙ loop_crashed ext cs fits.0 backed.0 measured before behind es buf meets
                              got) in
                    (rw same after, (c, same ∙ kept))
              ]
        ]
