-- ===== src/Chunks/Flight/Defs.antt =====
-- readRange by any number of goroutines, interleaved in any order, one access to what they share at a
-- time. The chunks that are read are sealed: the store keeps their objects.
use fusey.Base.{
  ℕ, ◌+◌, Bytes, Bool, true, false, Option, none, some, [], ◌≡◌, ◌==◌, nat_key, bytes_key,
  if◌then◌else◌, Result, ok, err, panic, store_failure, cancelled,
}
use fusey.Base.Word.{add64}
use fusey.Map.{Map, lookup, insert, delete}
use fusey.Index.Links.{is_some}
use fusey.Chunks.Store.{Store, between}
use fusey.Chunks.Cache.{Cache, write_atomic, read_file_slice, fetch_full_chunk}

-- The arguments of a call.
pub record Call : Type 0 where
  pub id : Bytes
  pub offset : ℕ
  pub len : ℕ

-- chunkCache: the files, the mutex with the goroutine that holds it, and the fetches in flight, which
-- are numbered as they are made. `outcome` is what closing the channel of a fetch tells those that wait:
-- whether its error is nil; none while it is open.
pub record Shared : Type 0 where
  pub files : Cache
  pub lock : Option ℕ
  pub inflight : Map Bytes ℕ
  pub outcome : ℕ → Option Bool
  pub next : ℕ

-- Where a goroutine stands, with the fetch it works on and what has become of the data.
pub data Pc : Type 0 where
  start : Pc  -- before the fast path
  missed : Pc  -- before c.mu.Lock()
  locked : Pc  -- before the file is checked again
  rechecked : Pc  -- before c.inflight is looked up
  waiting : ℕ → Pc  -- in the select
  rereading : Pc  -- before the read of a waiter
  fetching : ℕ → Pc  -- before fetchFullChunk
  fetched : ℕ → Option Bytes → Pc  -- before writeAtomic
  wrote : ℕ → Option Bytes → Pc  -- before close(inf.ready)
  closing : ℕ → Option Bytes → Pc  -- before the second c.mu.Lock()
  returned : Result Bytes → Pc

abbrev pub update {ℓ} : {A : Type ℓ} → (ℕ → A) → ℕ → A → ℕ → A
update f i a j = if i == j then a else f j

abbrev pub is_free : Option ℕ → Bool
is_free none = true
is_free (some i) = false

module _ (S : Store) (s : S.State) where
  -- The next access of goroutine `i`; none if it has to wait or has returned. `lucky` is what the
  -- environment decides: that the store answers, and that the context of a waiter has not ended.
  unfoldable pub step : Bool → Call → ℕ → Shared → Pc → Option (Shared × Pc)
  step lucky r i m start = elim (read_file_slice r.id r.offset r.len m.files) [
    | ok d ↦ some (m, returned (ok d))
    | err _ ↦ some (m, missed)
    | panic ↦ some (m, returned panic)
  ]
  step lucky r i m missed =
      if is_free m.lock then some (record m { lock = some i }, locked) else none
  step lucky r i m locked = elim (read_file_slice r.id r.offset r.len m.files) [
    | ok d ↦ some (record m { lock = none }, returned (ok d))
    | err _ ↦ some (m, rechecked)
    | panic ↦ some (record m { lock = none }, returned panic)
  ]
  step lucky r i m rechecked = elim (lookup r.id m.inflight) [
    | some n ↦ some (record m { lock = none }, waiting n)
    | none ↦ some (
      record m { lock = none; inflight = insert r.id m.next m.inflight; next = m.next + 1 },
      fetching m.next,
    )
  ]
  step lucky r i m (waiting n) =
      if lucky
      then elim (m.outcome n) [
        | none ↦ none
        | some done ↦ some (m, if done then rereading else returned (err store_failure))
      ]
      else some (m, returned (err cancelled))
  step lucky r i m rereading = some (m, returned (read_file_slice r.id r.offset r.len m.files))
  step lucky r i m (fetching n) =
      some (m, fetched n (if lucky then fetch_full_chunk S r.id s else none))
  step lucky r i m (fetched n none) = some (m, wrote n none)
  step lucky r i m (fetched n (some d)) =
      let (files, written) = write_atomic r.id d m.files in
      some (record m { files = files }, wrote n (if written then some d else none))
  step lucky r i m (wrote n d) =
      some (record m { outcome = update m.outcome n (some (is_some d)) }, closing n d)
  step lucky r i m (closing n none) =
      if is_free m.lock
      then some (record m { inflight = delete r.id m.inflight }, returned (err store_failure))
      else none
  step lucky r i m (closing n (some d)) =
      if is_free m.lock
      then some (
        record m { inflight = delete r.id m.inflight },
        returned (between r.offset (add64 r.offset r.len) d),
      )
      else none
  step lucky r i m (returned d) = none

  pub record System : Type 0 where
    pub shared : Shared
    pub pc : ℕ → Pc

  -- newChunkCache over the files that are there, and the goroutines before their calls.
  abbrev pub init : Cache → System
  init files = record {
    shared = record { files = files; lock = none; inflight = []; outcome = λ n. none; next = 0 };
    pc = λ i. start;
  }

  -- Goroutine `i` makes the call `calls i`.
  pub data Run (calls : ℕ → Call) (files : Cache) : System → Type 0 where
    begin : Run calls files (init files)
    moves :
        {y : System} {m : Shared} {p : Pc} (i : ℕ) (lucky : Bool)
        → Run calls files y
        → step lucky (calls i) i y.shared (y.pc i) ≡ some (m, p)
        → Run calls files (record { shared = m; pc = update y.pc i p })
