-- ===== src/Compaction/Keeping.antt =====
-- Which chunks a cycle of Compact leaves as they are.
use mathlib.Core.Path.{subst}
use fusey.Base.{
  ℕ, Bytes, Bool, false, Option, none, List, [], ◌∷◌, ◌++◌, ◌&&◌, ◌≡◌, ◌≢◌, refl, arith, ap, sym,
  ◌∙◌, ◌⊎◌, inl, inr, bytes_key, bytes_beq_iff, nat_key, ltb, length, Result, ok, Result-cases,
  Bool-cases,
}
use fusey.Base.Word.{add64, lt64}
use fusey.Index.Types.{Extent}
use fusey.Index.Overwrite.{live_extents}
use fusey.Index.Content.{All, All-append}
use fusey.Chunks.Ids.{cut_prefix, decimal}
use fusey.Chunks.Ids.RoundTrip.{cut_prefix-append}
use fusey.Chunks.Store.{Store, IsLawful, has}
use fusey.Chunks.ChunkStore
use fusey.Chunks.ChunkStore.{ChunkStore, put_sealed, list_sealed, delete_chunks}
use fusey.Chunks.Coherence.{read-keeps}
use fusey.Compaction.Defs.{compacted_id, compacted_id_prefix}
use fusey.Compaction.Cycle.{
  Packing, Compactor, targets, first_output, pack_extent, pack, write_outputs, move_extents,
  delete_targets, compact_targets, compact, live_in_all,
}

compacted_apart :
    (j : Bytes) (nanos seq : ℕ)
    → cut_prefix compacted_id_prefix j ≡ none
    → compacted_id nanos seq ≢ j
unfolding compacted_id
compacted_apart j nanos seq h = λ same. absurd (
    ground (
      arith,
      sym (cut_prefix-append compacted_id_prefix (decimal nanos ++ b'-' ∷ decimal seq))
          ∙ ap (cut_prefix compacted_id_prefix) same,
    ))

module _ (S : Store) (object : Bytes → S.State → Option Bytes) (law : IsLawful S object)
    (is_sparse : ℕ → ℕ → Bool) (clock : ℕ → ℕ) (chunk_size : ℕ) (j : Bytes)
    (plain : cut_prefix compacted_id_prefix j ≡ none) where
  -- No output has the ID `j`.
  abbrev Apart : Packing → Type 0
  Apart p = All (λ (o : Bytes × Bytes). o.0 ≢ j) p.full × (p.id ≢ j)

  pack_extent-Apart :
      (e : Extent) (d : Bytes) (p : Packing)
      → Apart p
      → Apart (pack_extent S is_sparse clock chunk_size e d p)
  unfolding pack_extent
  pack_extent-Apart e d p h =
      elim (Bool-cases (ltb 0 (length p.buf) && lt64 chunk_size (add64 (length p.buf) e.len))) [
        | inl rotates ↦
            rw (pack_extent, rotates)
              (
                All-append _ p.full ((p.id, p.buf) ∷ []) h.0 (h.1, tt),
                compacted_apart j (clock p.next_seq) p.next_seq plain,
              )
        | inr stays ↦ rw (pack_extent, stays) h
      ]

  -- Packing reads chunks, and changes nothing in the store.
  pack-keeps :
      (es : List Extent) (p : Packing) (cs : ChunkStore S)
      → (pack S is_sparse clock chunk_size es p cs).0.store ≡ cs.store
  unfolding pack
  pack-keeps [] p cs = refl
  pack-keeps (e ∷ es) p cs =
      let (c, kept) = read-keeps S object law cs e.chunk_id e.chunk_offset e.len in
      let same : (ChunkStore.read S e.chunk_id e.chunk_offset e.len cs).0.store ≡ cs.store =
        ap (λ (x : ChunkStore S). x.store) kept in
      elim (Result-cases (ChunkStore.read S e.chunk_id e.chunk_offset e.len cs).1) [
        | inl (d, got) ↦
            rw (pack, got)
              (pack-keeps es (pack_extent S is_sparse clock chunk_size e d p)
                  (ChunkStore.read S e.chunk_id e.chunk_offset e.len cs).0
                ∙ same)
        | inr (inl (x, got)) ↦ rw (pack, got) same
        | inr (inr got) ↦ rw (pack, got) same
      ]

  pack-Apart :
      (es : List Extent) (p q : Packing) (cs : ChunkStore S)
      → Apart p
      → (pack S is_sparse clock chunk_size es p cs).1 ≡ ok q
      → Apart q
  unfolding pack
  pack-Apart [] p q cs h done = subst Apart {x = p} {y = q} (ground arith) h
  pack-Apart (e ∷ es) p q cs h done =
      elim (Result-cases (ChunkStore.read S e.chunk_id e.chunk_offset e.len cs).1) [
        | inl (d, got) ↦
            pack-Apart es (pack_extent S is_sparse clock chunk_size e d p) q
              (ChunkStore.read S e.chunk_id e.chunk_offset e.len cs).0 (pack_extent-Apart e d p h)
              (ground arith)
        | inr (inl (x, got)) ↦ absurd (ground arith)
        | inr (inr got) ↦ absurd (ground arith)
      ]

  write_outputs-keeps :
      (outputs : List (Bytes × Bytes)) (cs : ChunkStore S)
      → All (λ (o : Bytes × Bytes). o.0 ≢ j) outputs
      → object j (write_outputs S is_sparse clock chunk_size outputs cs).0.store ≡ object j cs.store
  unfolding write_outputs put_sealed
  write_outputs-keeps [] cs h = refl
  write_outputs-keeps ((id, buf) ∷ outputs) cs h = ground (
    arith,
    law.object-put_ne id buf j cs.store h.0,
    write_outputs-keeps outputs cs h.1,
    write_outputs-keeps outputs (record cs { store = (S.put id buf cs.store).0 }) h.1,
  )

  delete_chunks-keeps :
      (ids : List Bytes) (s : S.State)
      → has j ids ≡ false
      → object j (delete_chunks S ids s).0 ≡ object j s
  unfolding delete_chunks
  delete_chunks-keeps [] s h = refl
  delete_chunks-keeps (id ∷ ids) s h = ground (
    arith,
    law.object-delete_ne id j s,
    bytes_beq_iff j id,
    delete_chunks-keeps ids (S.delete id s).0,
  )

  first_output-Apart : Apart (first_output S is_sparse clock chunk_size)
  unfolding first_output
  first_output-Apart = (tt, compacted_apart j (clock 0) 0 plain)

  move_extents-keeps :
      (moved : List Extent) (c : Compactor S is_sparse clock chunk_size)
      → object j (move_extents S is_sparse clock chunk_size moved c).0.cs.store
        ≡ object j c.cs.store
  unfolding move_extents
  move_extents-keeps moved c =
      let same = pack-keeps moved (first_output S is_sparse clock chunk_size) c.cs in
      elim (Result-cases
        (pack S is_sparse clock chunk_size moved (first_output S is_sparse clock chunk_size)
          c.cs).1) [
            | inl (p, packed) ↦
                let h =
                  pack-Apart moved (first_output S is_sparse clock chunk_size) p c.cs
                    first_output-Apart packed in
                ground (
                  arith,
                  same,
                  write_outputs-keeps (p.full ++ (p.id, p.buf) ∷ [])
                      (pack S is_sparse clock chunk_size moved
                        (first_output S is_sparse clock chunk_size) c.cs).0
                      (All-append _ p.full ((p.id, p.buf) ∷ []) h.0 (h.1, tt)),
                )
            | inr (inl (x, failed)) ↦ rw (move_extents, failed) (ap (object j) same)
            | inr (inr crashed) ↦ rw (move_extents, crashed) (ap (object j) same)
          ]

  module _
      (persist : Compactor S is_sparse clock chunk_size
        → Compactor S is_sparse clock chunk_size × Result (Unit {0}))
      (persist-keeps : (c : Compactor S is_sparse clock chunk_size)
        → object j (persist c).0.cs.store ≡ object j c.cs.store)
      (c : Compactor S is_sparse clock chunk_size) where
    delete_targets-keeps :
        (ids : List Bytes) (x : Compactor S is_sparse clock chunk_size)
        → has j ids ≡ false
        → object j (delete_targets S is_sparse clock chunk_size ids x).0.cs.store
          ≡ object j x.cs.store
    unfolding delete_targets
    delete_targets-keeps ids x h = delete_chunks-keeps ids x.cs.store h

    module _ (ids : List Bytes) where
      abbrev pub moved : Compactor S is_sparse clock chunk_size × Result (Unit {0})
      moved =
          move_extents S is_sparse clock chunk_size
            (live_in_all S is_sparse clock chunk_size ids (live_extents c.idx)) c

      moved_kept : object j moved.0.cs.store ≡ object j c.cs.store
      moved_kept =
          move_extents-keeps (live_in_all S is_sparse clock chunk_size ids (live_extents c.idx)) c

    compact_targets-keeps :
        (ids : List Bytes)
        → (has j ids ≡ false) ⊎ ((persist (moved ids).0).1 ≢ ok tt)
        → object j (compact_targets S is_sparse clock chunk_size persist ids c).0.cs.store
          ≡ object j c.cs.store
    unfolding compact_targets
    compact_targets-keeps [] h = refl
    compact_targets-keeps (id ∷ ids) h =
        let m = moved (id ∷ ids) in
        elim (Result-cases m.1) [
          | inl (u, moves) ↦ elim (Result-cases (persist m.0).1) [
            | inl (v, persisted) ↦ elim h [
              | inl out ↦ ground (
                arith,
                moved_kept (id ∷ ids),
                persist-keeps m.0,
                delete_targets-keeps (id ∷ ids) (persist m.0).0 out,
              )
              | inr failing ↦ absurd (failing persisted)
            ]
            | inr (inl (x, failed)) ↦ ground (arith, moved_kept (id ∷ ids), persist-keeps m.0)
            | inr (inr crashed) ↦ ground (arith, moved_kept (id ∷ ids), persist-keeps m.0)
          ]
          | inr (inl (x, failed)) ↦ ground (arith, moved_kept (id ∷ ids))
          | inr (inr crashed) ↦ ground (arith, moved_kept (id ∷ ids))
        ]

    -- A cycle of Compact, whatever its outcome, keeps the object of a chunk that Compact has not
    -- named, if the chunk is no target, or the function that persists fails on the remapped
    -- index; and if the store is lawful and persisting keeps that object.
    pub compact-keeps :
        (ids : List Bytes)
        → list_sealed S c.cs ≡ ok ids
        → (has j (targets S is_sparse clock chunk_size (live_extents c.idx) c.cs ids) ≡ false)
          ⊎ ((persist
                (moved (targets S is_sparse clock chunk_size (live_extents c.idx) c.cs ids)).0).1
              ≢ ok tt)
        → object j (compact S is_sparse clock chunk_size persist c).0.cs.store ≡ object j c.cs.store
    unfolding compact
    compact-keeps ids listed h =
        rw (compact, listed)
          (compact_targets-keeps
            (targets S is_sparse clock chunk_size (live_extents c.idx) c.cs ids) h)
