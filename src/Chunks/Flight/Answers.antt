-- ===== src/Chunks/Flight/Answers.antt =====
-- What the goroutines get, and that no chunk is fetched whose file is there.
use fusey.Base.{
  ℕ, ◌+◌, ◌<◌, ◌≤◌, ◌^◌, Bytes, Bool, true, false, Option, none, some, ◌≡◌, ◌⊎◌, inl, inr, refl,
  arith, ap, sym, ◌∙◌, ◌==◌, nat_key, bytes_key, bytes_beq_iff, length, Result, ok, Option-cases,
  Bool-cases,
}
use fusey.Base.Word.{add64}
use fusey.Map.{lookup, lookup-insert, lookup-delete}
use fusey.Index.Links.{is_some}
use fusey.Chunks.Store.{Store, IsLawful, slice, between}
use fusey.Chunks.Cache.{Cache, write_atomic, read_file_slice, fetch_full_chunk}
use fusey.Chunks.ChunkStore
use fusey.Chunks.Coherence.{file_slice, fetch_full_chunk-object, between-eq}
use fusey.Chunks.Flight.Defs.{
  Call, Shared, Pc, locked, rechecked, fetching, fetched, wrote, closing, returned, update, step,
  System, Run, begin, moves,
}
use fusey.Chunks.Flight.Flying.{IsFlying, leads}
use fusey.Chunks.Flight.Collapsing.{Run-IsFlying}

abbrev is_ok : Result Bytes → Bool
is_ok (ok d) = true
is_ok _ = false

-- The chunk that a goroutine has fetched.
abbrev pub data_of : Pc → Option Bytes
data_of (fetched n d) = d
data_of (wrote n d) = d
data_of (closing n d) = d
data_of _ = none

-- The chunk that is called for is stored, and has the range.
pub record IsValid (r : Call) (whole : Bytes) : Type 0 where
  pub fits : r.offset + r.len ≤ length whole
  pub small : length whole < 2 ^ 63

module _ (S : Store) (object : Bytes → S.State → Option Bytes) (law : IsLawful S object)
    (s : S.State) (calls : ℕ → Call) (whole : ℕ → Bytes)
    (stored : (i : ℕ) → object (calls i).id s ≡ some (whole i))
    (valid : (i : ℕ) → IsValid (calls i) (whole i)) where
  pub record IsAnswering (m : Shared) (pc : ℕ → Pc) : Type 0 where
    pub right : (i : ℕ) (d : Bytes) → lookup (calls i).id m.files.files ≡ some d → d ≡ whole i
    pub carried : (i : ℕ) (d : Bytes) → data_of (pc i) ≡ some d → d ≡ whole i
    pub answers :
        (i : ℕ) (d : Bytes)
        → pc i ≡ returned (ok d)
        → d ≡ slice (calls i).offset (calls i).len (whole i)
    pub unfetched :
        (i : ℕ)
        → pc i ≡ rechecked
        → (lookup (calls i).id m.files.files ≡ none)
          ⊎ (is_some (lookup (calls i).id m.inflight) ≡ true)

  same_chunk : (i j : ℕ) → (calls i).id ≡ (calls j).id → whole i ≡ whole j
  same_chunk i j h =
      let same : some (whole i) ≡ some (whole j) =
        sym (stored i) ∙ ap (λ (id : Bytes). object id s) h ∙ stored j in
      cc same

  -- A file that is a copy is read right, and it is never missed.
  module _ (i : ℕ) (c : Cache)
      (right : (d : Bytes) → lookup (calls i).id c.files ≡ some d → d ≡ whole i) where
    abbrev asked : Result Bytes
    asked = read_file_slice (calls i).id (calls i).offset (calls i).len c

    read_there :
        (d : Bytes)
        → lookup (calls i).id c.files ≡ some d
        → asked ≡ ok (slice (calls i).offset (calls i).len (whole i))
    read_there d h =
        let v = valid i in
        file_slice S object law (ChunkStore.new S s 0) (calls i).id (calls i).offset (calls i).len c
          (whole i) d (h ∙ ap some (right d h)) v.fits v.small

    read_right : (d : Bytes) → asked ≡ ok d → d ≡ slice (calls i).offset (calls i).len (whole i)
    unfolding read_file_slice
    read_right d h = elim (Option-cases (lookup (calls i).id c.files)) [
      | inl missing ↦ absurd (ground arith)
      | inr (e, found) ↦ ground (arith, read_there e found)
    ]

  module _ (m m' : Shared) (pc : ℕ → Pc) (p' : Pc) (x : IsFlying calls m pc) (y : IsAnswering m pc)
      (i : ℕ) (lucky : Bool) (p : Pc) (at : pc i ≡ p)
      (e : step S s lucky (calls i) i m p ≡ some (m', p')) where
    -- The files change by no more than the data of this goroutine.
    written :
        (id d : Bytes)
        → lookup id m'.files.files ≡ some d
        → (lookup id m.files.files ≡ some d)
          ⊎ (((calls i).id ≡ id)
              × (data_of p ≡ some d)
              × (is_some (leads p) ≡ true)
              × (m'.inflight ≡ m.inflight))
    unfolding step write_atomic
    written id d h = elim (Option-cases (data_of p)) [
      | inl nothing_yet ↦ inl (ground arith)
      | inr (b, has) ↦
          ground
            (arith, lookup-insert (calls i).id id b m.files.files, bytes_beq_iff (calls i).id id)
    ]

    step_right : (j : ℕ) (d : Bytes) → lookup (calls j).id m'.files.files ≡ some d → d ≡ whole j
    step_right j d h = elim (written (calls j).id d h) [
      | inl before ↦ y.right j d before
      | inr (mine, carries, led, kept) ↦ y.carried i d (ground arith) ∙ same_chunk i j mine
    ]

    brings :
        (d : Bytes)
        → data_of p' ≡ some d
        → (data_of p ≡ some d) ⊎ (fetch_full_chunk S (calls i).id s ≡ some d)
    unfolding step
    brings d h = ground arith

    step_carried : (j : ℕ) (d : Bytes) → data_of (update pc i p' j) ≡ some d → d ≡ whole j
    unfolding ChunkStore.new
    step_carried j d h = elim (Bool-cases (i == j)) [
      | inr other ↦ y.carried j d (ground arith)
      | inl mine ↦
          let same : i ≡ j = ground arith in
          (elim (brings d (ground arith)) [
            | inl had ↦ y.carried i d (ground arith)
            | inr got ↦
                fetch_full_chunk-object S object law (ChunkStore.new S s 0) (calls i).id 0 0
                  (whole i) d (stored i) got
          ])
          ∙ ap whole same
    ]

    answered :
        (d : Bytes)
        → p' ≡ returned (ok d)
        → (read_file_slice (calls i).id (calls i).offset (calls i).len m.files ≡ ok d)
          ⊎ ((b : Bytes) × (data_of p ≡ some b)
              × (between (calls i).offset (add64 (calls i).offset (calls i).len) b ≡ ok d))
    unfolding step
    answered d h = elim (Option-cases (data_of p)) [
      | inl nothing_yet ↦ inl (ground arith)
      | inr (b, has) ↦ inr (b, has, ground arith)
    ]

    step_answers :
        (j : ℕ) (d : Bytes)
        → update pc i p' j ≡ returned (ok d)
        → d ≡ slice (calls j).offset (calls j).len (whole j)
    step_answers j d h = elim (Bool-cases (i == j)) [
      | inr other ↦ y.answers j d (ground arith)
      | inl mine ↦
          let same : i ≡ j = ground arith in
          (elim (answered d (ground arith)) [
            | inl at_once ↦ read_right i m.files (y.right i) d at_once
            | inr (b, has, part) ↦
                let v = valid i in
                let e : b ≡ whole i = y.carried i b (ground arith) in
                ground (
                  arith,
                  between-eq (calls i).offset (calls i).len (whole i) v.fits v.small,
                  ap (between (calls i).offset (add64 (calls i).offset (calls i).len)) e,
                )
          ])
          ∙ ap (λ (k : ℕ). slice (calls k).offset (calls k).len (whole k)) same
    ]

    -- A goroutine that checks again and misses has no file; while another has the mutex, none is
    -- taken out of flight.
    checked :
        p' ≡ rechecked
        → ((p ≡ locked)
            × (m'.files ≡ m.files)
            × (is_ok (read_file_slice (calls i).id (calls i).offset (calls i).len m.files) ≡ false))
    unfolding step
    checked h = ground arith

    stays :
        (id : Bytes)
        → is_some (lookup id m.inflight) ≡ true
        → (is_some (lookup id m'.inflight) ≡ true) ⊎ (m.lock ≡ none)
    unfolding step
    stays id h = ground (
      arith,
      lookup-insert (calls i).id id m.next m.inflight,
      lookup-delete (calls i).id id m.inflight,
    )

    step_unfetched :
        (j : ℕ)
        → update pc i p' j ≡ rechecked
        → (lookup (calls j).id m'.files.files ≡ none)
          ⊎ (is_some (lookup (calls j).id m'.inflight) ≡ true)
    step_unfetched j h = elim (Option-cases (lookup (calls j).id m'.files.files)) [
      | inl missing ↦ inl missing
      | inr (d, found) ↦ elim (Bool-cases (i == j)) [
        | inl mine ↦
            let same : i ≡ j = ground arith in
            let (before, kept, missed_it) = checked (ground arith) in
            let found' : lookup (calls i).id m.files.files ≡ some d =
              ap (λ (k : ℕ). lookup (calls k).id m.files.files) same
              ∙ ap (λ (c : Cache). lookup (calls j).id c.files) (sym kept)
              ∙ found in
            absurd (ground (arith, read_there i m.files (y.right i) d found'))
        | inr other ↦
            let held : m.lock ≡ some j = ground (arith, x.held j) in
            elim (written (calls j).id d found) [
              | inl before ↦ inr (ground (arith, y.unfetched j, stays (calls j).id))
              | inr (mine, carries, led, kept) ↦ elim (Option-cases (leads p)) [
                | inl not_led ↦ absurd (ground arith)
                | inr (n, lead) ↦ inr (
                    ground (
                      arith,
                      x.registered i n (ap leads at ∙ lead),
                      ap (λ (id : Bytes). lookup id m.inflight) mine,
                      kept,
                    ))
              ]
            ]
      ]
    ]

    pub step-IsAnswering : IsAnswering m' (update pc i p')
    step-IsAnswering = record {
      right = step_right;
      carried = step_carried;
      answers = step_answers;
      unfetched = step_unfetched;
    }

  module _ (files : Cache)
      (copies : (i : ℕ) (d : Bytes) → lookup (calls i).id files.files ≡ some d → d ≡ whole i) where
    Run-IsAnswering : (y : System S s) → Run S s calls files y → IsAnswering y.shared y.pc
    Run-IsAnswering y begin = record {
      right = copies;
      carried = λ i d h. ground arith;
      answers = λ i d h. ground arith;
      unfetched = λ i h. ground arith;
    }
    Run-IsAnswering y (moves {y = z} {m} {p} i lucky run e) =
        step-IsAnswering z.shared m z.pc p (Run-IsFlying S s calls files z run)
          (Run-IsAnswering z run) i lucky (z.pc i) refl e

    -- Whatever the interleaving, a goroutine that returns data returns the range of the chunk it
    -- asked for: if the store is lawful, the chunks that are asked for are stored, have the
    -- ranges and are shorter than 2 ^ 63, and the files that were there before are copies of
    -- them.
    pub returned-slice :
        (y : System S s) (i : ℕ) (d : Bytes)
        → Run S s calls files y
        → y.pc i ≡ returned (ok d)
        → d ≡ slice (calls i).offset (calls i).len (whole i)
    returned-slice y i d run h = (Run-IsAnswering y run).answers i d h

    -- A goroutine that begins a fetch does so for a chunk whose file is not there: the file that
    -- another has put there since the fast path is not fetched again; under the conditions of
    -- `returned-slice`.
    pub never_fetched_twice :
        (y : System S s) (i n : ℕ) (lucky : Bool) (m : Shared)
        → Run S s calls files y
        → y.pc i ≡ rechecked
        → step S s lucky (calls i) i y.shared (y.pc i) ≡ some (m, fetching n)
        → lookup (calls i).id y.shared.files.files ≡ none
    unfolding step
    never_fetched_twice y i n lucky m run h e =
        ground (arith, (Run-IsAnswering y run).unfetched i h)
