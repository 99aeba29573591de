-- ===== src/Chunks/Flight/Flying.antt =====
-- Who fetches which chunk, and who waits for it.
use fusey.Base.{
  ℕ, ◌+◌, ◌<◌, Bytes, Bool, true, false, Option, none, some, ◌≡◌, ◌⊎◌, inl, inr, arith, ◌==◌,
  nat_key, bytes_key, bytes_beq_iff, ap, sym, ◌∙◌, Bool-cases,
}
use fusey.Map.{lookup, insert, delete, lookup-insert, lookup-delete}
use fusey.Index.Links.{is_some}
use fusey.Chunks.Store.{Store}
use fusey.Chunks.Flight.Defs.{
  Call, Shared, Pc, locked, rechecked, waiting, fetching, fetched, wrote, closing, update, step,
}

-- The fetch that a goroutine has registered, until it removes it.
abbrev pub leads : Pc → Option ℕ
leads (fetching n) = some n
leads (fetched n d) = some n
leads (wrote n d) = some n
leads (closing n d) = some n
leads _ = none

-- The fetch that a goroutine has still to close.
abbrev pub opens : Pc → Option ℕ
opens (fetching n) = some n
opens (fetched n d) = some n
opens (wrote n d) = some n
opens _ = none

abbrev pub waits : Pc → Option ℕ
waits (waiting n) = some n
waits _ = none

abbrev pub holds : Pc → Bool
holds locked = true
holds rechecked = true
holds _ = false

pub leads_of_opens : (p : Pc) (n : ℕ) → opens p ≡ some n → leads p ≡ some n
leads_of_opens p n h = ground arith

-- The fetches in flight and those that lead them are the same; a fetch is open as long as there is one
-- to close it; those that wait for it wait for the chunk that it fetches.
pub record IsFlying (calls : ℕ → Call) (m : Shared) (pc : ℕ → Pc) : Type 0 where
  pub registered : (i n : ℕ) → leads (pc i) ≡ some n → lookup (calls i).id m.inflight ≡ some n
  pub unique : (i j n : ℕ) → leads (pc i) ≡ some n → leads (pc j) ≡ some n → i ≡ j
  pub numbered : (id : Bytes) (n : ℕ) → lookup id m.inflight ≡ some n → n < m.next
  pub led :
      (id : Bytes) (n : ℕ)
      → lookup id m.inflight ≡ some n
      → (i : ℕ) × (leads (pc i) ≡ some n) × ((calls i).id ≡ id)
  pub unsettled : (i n : ℕ) → opens (pc i) ≡ some n → m.outcome n ≡ none
  pub future : (n : ℕ) → m.next < n + 1 → m.outcome n ≡ none
  pub attended : (n : ℕ) → n < m.next → m.outcome n ≡ none → (i : ℕ) × (opens (pc i) ≡ some n)
  pub together :
      (i j n : ℕ) → waits (pc i) ≡ some n → leads (pc j) ≡ some n → (calls i).id ≡ (calls j).id
  pub joined : (i n : ℕ) → waits (pc i) ≡ some n → n < m.next
  pub held : (i : ℕ) → holds (pc i) ≡ true → m.lock ≡ some i
  pub holder : (i : ℕ) → m.lock ≡ some i → holds (pc i) ≡ true

module _ (S : Store) (s : S.State) (calls : ℕ → Call) (m m' : Shared) (pc : ℕ → Pc) (p' : Pc)
    (x : IsFlying calls m pc) (i : ℕ) (lucky : Bool) where
  module _ (p : Pc) (at : pc i ≡ p) (e : step S s lucky (calls i) i m p ≡ some (m', p')) where
    step_held : (j : ℕ) → holds (update pc i p' j) ≡ true → m'.lock ≡ some j
    unfolding step
    step_held j h = ground (arith, x.held i, x.held j)

    step_holder : (j : ℕ) → m'.lock ≡ some j → holds (update pc i p' j) ≡ true
    unfolding step
    step_holder j h = ground (arith, x.holder j, x.held i, x.held j)

    -- What a step does to the fetches in flight: nothing, or it registers one, or it removes its own.
    flights :
        ((m'.inflight ≡ m.inflight) × (m'.next ≡ m.next) × (leads p' ≡ leads p))
        ⊎ (((m'.inflight ≡ insert (calls i).id m.next m.inflight)
              × (m'.next ≡ m.next + 1)
              × (leads p ≡ none)
              × (leads p' ≡ some m.next)
              × (lookup (calls i).id m.inflight ≡ none))
            ⊎ ((m'.inflight ≡ delete (calls i).id m.inflight)
                × (m'.next ≡ m.next)
                × (leads p' ≡ none)
                × ((n : ℕ) × (leads p ≡ some n))))
    unfolding step
    flights = ground arith

    -- A step changes the end of no fetch but the one that it closes.
    ends :
        (k : ℕ)
        → (m'.outcome k ≡ m.outcome k)
          ⊎ ((opens p ≡ some k) × (opens p' ≡ none) × (is_some (m'.outcome k) ≡ true))
    unfolding step
    ends k = ground arith

    -- A goroutine goes on to close its fetch, or begins a new one, or has closed it.
    closes :
        (n : ℕ)
        → opens p ≡ some n
        → (opens p' ≡ some n) ⊎ ((opens p' ≡ none) × (is_some (m'.outcome n) ≡ true))
    unfolding step
    closes n h = ground arith

    begins :
        (n : ℕ)
        → opens p' ≡ some n
        → (opens p ≡ some n) ⊎ ((n ≡ m.next) × (m'.outcome ≡ m.outcome) × (m'.next ≡ m.next + 1))
    unfolding step
    begins n h = ground arith

    opening : m'.next ≡ m.next + 1 → opens p' ≡ some m.next
    unfolding step
    opening h = ground arith

    joins :
        (n : ℕ) → waits p' ≡ some n → (waits p ≡ some n) ⊎ (lookup (calls i).id m.inflight ≡ some n)
    unfolding step
    joins n h = ground arith

    next_grows : (m'.next ≡ m.next) ⊎ (m'.next ≡ m.next + 1)
    next_grows = ground (arith, flights)

    -- Goroutine `j` after the step.
    abbrev now : ℕ → Pc
    now j = update pc i p' j

    step_registered : (j n : ℕ) → leads (now j) ≡ some n → lookup (calls j).id m'.inflight ≡ some n
    step_registered j n h = elim flights [
      | inl (same, next, lead) ↦ ground (arith, x.registered j n, x.registered i n)
      | inr (inl (same, next, free, lead, none_there)) ↦ ground (
        arith,
        x.registered j n,
        lookup-insert (calls i).id (calls j).id m.next m.inflight,
        bytes_beq_iff (calls i).id (calls j).id,
      )
      | inr (inr (same, next, gone, (k, lead))) ↦ ground (
        arith,
        x.registered j n,
        x.registered i k,
        x.unique i j n,
        lookup-delete (calls i).id (calls j).id m.inflight,
        bytes_beq_iff (calls i).id (calls j).id,
      )
    ]

    step_unique : (j k n : ℕ) → leads (now j) ≡ some n → leads (now k) ≡ some n → j ≡ k
    step_unique j k n h g = elim flights [
      | inl (same, next, lead) ↦ ground (arith, x.unique j k n, x.unique i k n, x.unique j i n)
      | inr (inl (same, next, free, lead, none_there)) ↦ ground (
        arith,
        x.unique j k n,
        x.registered j n,
        x.registered k n,
        x.numbered (calls j).id n,
        x.numbered (calls k).id n,
      )
      | inr (inr (same, next, gone, led)) ↦ ground (arith, x.unique j k n)
    ]

    step_numbered : (id : Bytes) (n : ℕ) → lookup id m'.inflight ≡ some n → n < m'.next
    step_numbered id n h = elim flights [
      | inl (same, next, lead) ↦ ground (arith, x.numbered id n)
      | inr (inl (same, next, free, lead, none_there)) ↦
          ground (arith, x.numbered id n, lookup-insert (calls i).id id m.next m.inflight)
      | inr (inr (same, next, gone, led)) ↦
          ground (arith, x.numbered id n, lookup-delete (calls i).id id m.inflight)
    ]

    step_led :
        (id : Bytes) (n : ℕ)
        → lookup id m'.inflight ≡ some n
        → (j : ℕ) × (leads (now j) ≡ some n) × ((calls j).id ≡ id)
    step_led id n h = elim flights [
      | inl (same, next, lead) ↦
          let (j, leader, own) = x.led id n (ground arith) in (j, ground arith, own)
      | inr (inl (same, next, free, lead, none_there)) ↦ elim (Bool-cases ((calls i).id == id)) [
        | inl mine ↦ (
          i,
          ground (arith, lookup-insert (calls i).id id m.next m.inflight),
          ground (arith, bytes_beq_iff (calls i).id id),
        )
        | inr other ↦
            let (j, leader, own) =
              x.led id n (ground (arith, lookup-insert (calls i).id id m.next m.inflight)) in
            (j, ground arith, own)
      ]
      | inr (inr (same, next, gone, (k, lead))) ↦
          let still : (lookup id m.inflight ≡ some n) × (((calls i).id == id) ≡ false) =
            ground (arith, lookup-delete (calls i).id id m.inflight) in
          let (j, leader, own) = x.led id n still.0 in
          (
            j,
            ground (
              arith,
              still.1,
              bytes_beq_iff (calls i).id id,
              ap (λ k. (calls k).id) {x = i} {y = j},
            ),
            own,
          )
    ]

    step_unsettled : (j n : ℕ) → opens (now j) ≡ some n → m'.outcome n ≡ none
    step_unsettled j n h = ground (
      arith,
      x.unsettled j n,
      x.unsettled i n,
      x.future n,
      ends n,
      begins n,
      x.unique i j n,
      leads_of_opens (pc j) n,
      leads_of_opens p n,
    )

    step_future : (n : ℕ) → m'.next < n + 1 → m'.outcome n ≡ none
    step_future n h = ground (
      arith,
      x.future n,
      ends n,
      x.registered i n,
      x.numbered (calls i).id n,
      leads_of_opens p n,
      next_grows,
    )

    step_attended : (n : ℕ) → n < m'.next → m'.outcome n ≡ none → (j : ℕ) × (opens (now j) ≡ some n)
    step_attended n h k = elim (Bool-cases (n == m.next)) [
      | inl new ↦ (i, ground (arith, opening, next_grows))
      | inr old ↦
          let (j, opener) = x.attended n (ground (arith, next_grows)) (ground (arith, ends n)) in
          (j, ground (arith, closes n))
    ]

    -- A goroutine that has just joined a fetch, and the one that leads it.
    joined_leader :
        (k n : ℕ)
        → lookup (calls i).id m.inflight ≡ some n
        → leads (pc k) ≡ some n
        → (calls i).id ≡ (calls k).id
    joined_leader k n h g =
        let (j, leader, own) = x.led (calls i).id n h in
        let same : j ≡ k = x.unique j k n leader g in sym own ∙ ap (λ (l : ℕ). (calls l).id) same

    step_together :
        (j k n : ℕ) → waits (now j) ≡ some n → leads (now k) ≡ some n → (calls j).id ≡ (calls k).id
    step_together j k n h g = elim (Bool-cases (i == j)) [
      | inl joiner ↦
          let same : i ≡ j = ground arith in
          let leader : leads (pc k) ≡ some n = elim flights [
            | inl (kept, next, lead) ↦ ground arith
            | inr (inl (new, next, free, lead, none_there)) ↦ ground arith
            | inr (inr (gone, next, none_left, led)) ↦ ground arith
          ] in
          ap (λ (l : ℕ). (calls l).id) (sym same) ∙ elim (joins n (ground arith)) [
            | inl before ↦ x.together i k n (ground arith) leader
            | inr found ↦ joined_leader k n found leader
          ]
      | inr other ↦
          let waiter : waits (pc j) ≡ some n = ground arith in
          x.together j k n waiter (elim flights [
            | inl (kept, next, lead) ↦ ground arith
            | inr (inl (new, next, free, lead, none_there)) ↦ ground (arith, x.joined j n)
            | inr (inr (gone, next, none_left, led)) ↦ ground arith
          ])
    ]

    step_joined : (j n : ℕ) → waits (now j) ≡ some n → n < m'.next
    step_joined j n h =
        ground (arith, x.joined j n, x.joined i n, joins n, x.numbered (calls i).id n, next_grows)

    pub step-IsFlying : IsFlying calls m' (update pc i p')
    step-IsFlying = record {
      registered = step_registered;
      unique = step_unique;
      numbered = step_numbered;
      led = step_led;
      unsettled = step_unsettled;
      future = step_future;
      attended = step_attended;
      together = step_together;
      joined = step_joined;
      held = step_held;
      holder = step_holder;
    }
