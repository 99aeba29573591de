-- ===== src/Chunks/Flight/Collapsing.antt =====
-- What holds of the goroutines in every state that a run reaches.
use fusey.Base.{
  ℕ, Bytes, Bool, true, false, none, some, ◌≡◌, refl, arith, bytes_key, nat_key, ap, sym, ◌⊎◌, inl,
  inr, Option-cases,
}
use fusey.Map.{lookup}
use fusey.Index.Links.{is_some}
use fusey.Chunks.Store.{Store}
use fusey.Chunks.Cache.{Cache}
use fusey.Chunks.Flight.Defs.{
  Call, Shared, Pc, start, waiting, returned, is_free, step, init, System, Run, begin, moves,
}
use fusey.Chunks.Flight.Flying.{IsFlying, leads, opens, waits, holds, leads_of_opens, step-IsFlying}

abbrev pub has_returned : Pc → Bool
has_returned (returned a) = true
has_returned _ = false

-- The goroutine has made its first access.
abbrev pub has_begun : Pc → Bool
has_begun start = false
has_begun _ = true

module _ (S : Store) (s : S.State) (r : Call) (i : ℕ) (m : Shared) where
  -- A goroutine that cannot go on has returned, or waits for the mutex or for a fetch.
  goes_on :
      (p : Pc)
      → (is_some (step S s true r i m p) ≡ true)
        ⊎ ((has_returned p ≡ true)
            ⊎ ((is_free m.lock ≡ false) ⊎ ((n : ℕ) × (waits p ≡ some n) × (m.outcome n ≡ none))))
  unfolding step
  goes_on (waiting n) = elim (Option-cases (m.outcome n)) [
    | inl open_still ↦ inr (inr (inr (n, refl, open_still)))
    | inr (b, closed) ↦ inl (ground arith)
  ]
  goes_on p = ground arith

  holder_goes : (p : Pc) → holds p ≡ true → is_some (step S s true r i m p) ≡ true
  unfolding step
  holder_goes p h = ground arith

  holder_begun : (p : Pc) → holds p ≡ true → has_begun p ≡ true
  holder_begun p h = ground arith

  opener_begun : (p : Pc) (n : ℕ) → opens p ≡ some n → has_begun p ≡ true
  opener_begun p n h = ground arith

  opener_goes : (p : Pc) (n : ℕ) → opens p ≡ some n → is_some (step S s true r i m p) ≡ true
  unfolding step
  opener_goes p n h = ground arith

module _ (S : Store) (s : S.State) (calls : ℕ → Call) (files : Cache) where
  init-IsFlying : IsFlying calls (init S s files).shared (init S s files).pc
  unfolding lookup
  init-IsFlying = record {
    registered = λ i n h. ground arith;
    unique = λ i j n h g. ground arith;
    numbered = λ id n h. ground arith;
    led = λ id n h. absurd (ground arith);
    unsettled = λ i n h. ground arith;
    future = λ n h. refl;
    attended = λ n h k. absurd (omega (arith, h));
    together = λ i j n h g. ground arith;
    joined = λ i n h. ground arith;
    held = λ i h. ground arith;
    holder = λ i h. ground arith;
  }

  pub Run-IsFlying : (y : System S s) → Run S s calls files y → IsFlying calls y.shared y.pc
  Run-IsFlying y begin = init-IsFlying
  Run-IsFlying y (moves {y = z} {m} {p} i lucky run e) =
      step-IsFlying S s calls z.shared m z.pc p (Run-IsFlying z run) i lucky (z.pc i) refl e

  module _ (y : System S s) (run : Run S s calls files y) where
    abbrev x : IsFlying calls y.shared y.pc
    x = Run-IsFlying y run

    -- In every state that goroutines reach which read through the cache, interleaved in any
    -- order, no two fetch the same chunk: two that have a fetch of the same chunk in flight are
    -- one.
    pub single_flight :
        (i j a b : ℕ)
        → leads (y.pc i) ≡ some a
        → leads (y.pc j) ≡ some b
        → (calls i).id ≡ (calls j).id
        → i ≡ j
    single_flight i j a b h g same = x.unique i j a h (
        ground (
          arith,
          x.registered i a h,
          x.registered j b g,
          ap (λ (id : Bytes). lookup id y.shared.inflight) same,
        ))

    -- A goroutine that waits for a fetch that is still open waits for another that fetches the
    -- chunk it asked for, and has still to close the fetch.
    pub no_lost_wakeup :
        (i n : ℕ)
        → waits (y.pc i) ≡ some n
        → y.shared.outcome n ≡ none
        → (j : ℕ) × (opens (y.pc j) ≡ some n) × ((calls j).id ≡ (calls i).id)
    no_lost_wakeup i n h open_still =
        let (j, opener) = x.attended n (x.joined i n h) open_still in
        (j, opener, sym (x.together i j n h (leads_of_opens (y.pc j) n opener)))

    -- As long as a goroutine that has begun its call has not returned, one of those that have
    -- begun can go on, if the store answers it.
    pub no_deadlock :
        (i : ℕ)
        → has_begun (y.pc i) ≡ true
        → has_returned (y.pc i) ≡ false
        → (j : ℕ) × (has_begun (y.pc j) ≡ true)
          × (is_some (step S s true (calls j) j y.shared (y.pc j)) ≡ true)
    no_deadlock i begun running = elim (goes_on S s (calls i) i y.shared (y.pc i)) [
      | inl goes ↦ (i, begun, goes)
      | inr (inl done) ↦ absurd (ground arith)
      | inr (inr (inl taken)) ↦ elim (Option-cases y.shared.lock) [
        | inl free ↦ absurd (ground arith)
        | inr (j, locks) ↦ (
          j,
          holder_begun S s (calls j) j y.shared (y.pc j) (x.holder j locks),
          holder_goes S s (calls j) j y.shared (y.pc j) (x.holder j locks),
        )
      ]
      | inr (inr (inr (n, waiter, open_still))) ↦
          let (j, opener) = x.attended n (x.joined i n waiter) open_still in
          (
            j,
            opener_begun S s (calls j) j y.shared (y.pc j) n opener,
            opener_goes S s (calls j) j y.shared (y.pc j) n opener,
          )
    ]
