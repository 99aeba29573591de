-- ===== src/Tests/Flights.antt =====
-- Two goroutines that miss the same chunk.
use fusey.Base.{ℕ, Bytes, true, none, some, List, [], ◌∷◌, ◌≡◌, refl, arith, bytes_key}
use fusey.Map.{lookup}
use fusey.Index.Links.{is_some}
use fusey.Chunks.Ids.{chunk_id}
use fusey.Chunks.Store.{slice}
use fusey.Chunks.Cache.{Cache, new_cache}
use fusey.Chunks.Flight.{Call, System, Run, begin, moves, init, step, update}
use fusey.Chunks.Flight.Flying.{opens}
use fusey.Chunks.Flight.Collapsing.{single_flight, no_deadlock, no_lost_wakeup, has_begun}
use fusey.Chunks.Flight.Answers.{IsValid, returned-slice, never_fetched_twice}
use fusey.Tests.Shelf.{shelf, on_shelf, shelf-IsLawful, hello}
use fusey.Tests.Samples.{program}
use fusey.Tests.Reads.{reading}

abbrev shelved : List (Bytes × Bytes)
shelved = (chunk_id 0, hello) ∷ []

-- Both want "el".
abbrev calls : ℕ → Call
calls i = record { id = chunk_id 0; offset = 1; len = 2 }

abbrev no_files : Cache
no_files = new_cache (λ id. true)

abbrev Reached : System shelf shelved → Type 0
Reached = Run shelf shelved calls no_files

-- The state after the goroutines of the list have each made a step, the last one first.
abbrev after_step : System shelf shelved → ℕ → System shelf shelved
after_step y i = elim (step shelf shelved true (calls i) i y.shared (y.pc i)) [
  | none ↦ y
  | some (m, p) ↦ record { shared = m; pc = update y.pc i p }
]

abbrev after : List ℕ → System shelf shelved
after [] = init shelf shelved no_files
after (i ∷ is) = after_step (after is) i

unfoldable flying : Unit {0}
unfolding reading program step new_cache
flying = tt

-- Goroutine 0 fetches and goroutine 1 waits.
abbrev waiting_state : System shelf shelved
waiting_state = after (1 ∷ 1 ∷ 1 ∷ 1 ∷ 0 ∷ 0 ∷ 0 ∷ 0 ∷ [])

waits_there : Reached waiting_state
unfolding flying
waits_there =
    moves 1 true
      (moves 1 true
        (moves 1 true
          (moves 1 true
            (moves 0 true (moves 0 true (moves 0 true (moves 0 true begin refl) refl) refl) refl)
            refl)
          refl)
        refl)
      refl

single_flight_example : ◌≡◌ {A = ℕ} 0 0
unfolding flying
single_flight_example =
    single_flight shelf shelved calls no_files waiting_state waits_there 0 0 0 0 refl refl refl

no_deadlock_example :
    (j : ℕ) × (has_begun (waiting_state.pc j) ≡ true)
    × (is_some (step shelf shelved true (calls j) j waiting_state.shared (waiting_state.pc j))
        ≡ true)
unfolding flying
no_deadlock_example = no_deadlock shelf shelved calls no_files waiting_state waits_there 1 refl refl

no_lost_wakeup_example :
    (j : ℕ) × (opens (waiting_state.pc j) ≡ some 0) × ((calls j).id ≡ (calls 1).id)
unfolding flying
no_lost_wakeup_example =
    no_lost_wakeup shelf shelved calls no_files waiting_state waits_there 1 0 refl refl

calls_stored : (i : ℕ) → on_shelf (calls i).id shelved ≡ some hello
unfolding flying
calls_stored i = refl

calls-IsValid : (i : ℕ) → IsValid (calls i) hello
calls-IsValid i = record { fits = omega arith; small = omega arith }

-- The fetcher has put the file there, has closed the fetch, and returns; then the waiter reads it.
abbrev done_state : System shelf shelved
done_state = after (1 ∷ 1 ∷ 0 ∷ 0 ∷ 0 ∷ 0 ∷ 1 ∷ 1 ∷ 1 ∷ 1 ∷ 0 ∷ 0 ∷ 0 ∷ 0 ∷ [])

both_done : Reached done_state
unfolding flying
both_done =
    moves 1 true
      (moves 1 true
        (moves 0 true (moves 0 true (moves 0 true (moves 0 true waits_there refl) refl) refl) refl)
        refl)
      refl

returned-slice_example : slice 1 2 hello ≡ slice 1 2 hello
unfolding flying
returned-slice_example =
    returned-slice shelf on_shelf shelf-IsLawful shelved calls (λ i. hello) calls_stored
      calls-IsValid no_files (λ i d h. absurd (ground arith)) done_state 1 (slice 1 2 hello)
      both_done refl

abbrev before_fetch : System shelf shelved
before_fetch = after (0 ∷ 0 ∷ 0 ∷ [])

rechecks : Reached before_fetch
unfolding flying
rechecks = moves 0 true (moves 0 true (moves 0 true begin refl) refl) refl

never_fetched_twice_example : lookup (chunk_id 0) before_fetch.shared.files.files ≡ none
unfolding flying
never_fetched_twice_example =
    never_fetched_twice shelf on_shelf shelf-IsLawful shelved calls (λ i. hello) calls_stored
      calls-IsValid no_files (λ i d h. absurd (ground arith)) before_fetch 0 0 true
      (after_step before_fetch 0).shared rechecks refl refl
