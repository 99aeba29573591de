-- ===== src/Chunks/Store.antt =====
-- internal/chunks/store.go: the backing store of chunk objects, which is an S3 bucket, a broker or a
-- directory. Its state and its five operations are parameters; `false` and `none` are errors.
use fusey.Base.{
  ◌||◌, false, none, [], ◌∷◌, ℕ, ◌+◌, ◌≤◌, ◌<◌, ◌⊎◌, Bytes, Bool, true, Option, some, List, ◌≡◌,
  ◌≢◌, ◌==◌, bytes_key, if◌then◌else◌, take, drop, length, ◌-◌, ◌&&◌, Result, ok, panic,
}
use fusey.Base.Word.{le64}
use fusey.Chunks.Ids.{chunk_id}

pub record Store : Type 1 where
  pub State : Type 0
  pub put : Bytes → Bytes → State → State × Bool
  pub get_range : Bytes → ℕ → ℕ → State → Option Bytes
  pub delete : Bytes → State → State × Bool
  pub list : State → Option (List Bytes)
  pub size : Bytes → State → Option ℕ

abbrev pub slice : ℕ → ℕ → Bytes → Bytes
slice offset len d = take len (drop offset d)

-- d[low:high] of Go, with int64 bounds. Beyond the length it is a panic here; Go would also give bytes
-- that the array has to spare.
unfoldable pub between : ℕ → ℕ → Bytes → Result Bytes
between low high d =
    if le64 0 low && le64 low high && le64 high (length d)
    then ok (slice low (high - low) d)
    else panic

abbrev pub has : Bytes → List Bytes → Bool
has id [] = false
has id (x ∷ xs) = id == x || has id xs

-- What the comments of the interface promise, with `object` for what the store holds under an id.
pub record IsLawful (S : Store) (object : Bytes → S.State → Option Bytes) : Type 0 where
  -- Put creates or replaces the object, and touches no other, also when it fails.
  pub object-put :
      (id d j : Bytes) (s : S.State)
      → (S.put id d s).1 ≡ true
      → object j (S.put id d s).0 ≡ (if id == j then some d else object j s)
  pub object-put_ne :
      (id d j : Bytes) (s : S.State) → id ≢ j → object j (S.put id d s).0 ≡ object j s
  -- A range that is read is that of the object, if it has a byte or is all of it. HTTP has no empty
  -- range: of a longer object, a store may answer such a request with anything.
  pub get_range-object :
      (id : Bytes) (offset len : ℕ) (s : S.State) (d r : Bytes)
      → object id s ≡ some d
      → offset + len ≤ length d
      → (0 < len) ⊎ (len ≡ length d)
      → S.get_range id offset len s ≡ some r
      → r ≡ slice offset len d
  -- The size is that of the object, and Delete touches no other object, also when it fails.
  pub size-object :
      (id : Bytes) (s : S.State) (n : ℕ) (d : Bytes)
      → S.size id s ≡ some n
      → object id s ≡ some d
      → n ≡ length d
  pub object-delete_ne :
      (id j : Bytes) (s : S.State) → id ≢ j → object j (S.delete id s).0 ≡ object j s

-- The rest of what they promise: Delete removes the object, and List has the IDs of all chunks.
pub record IsComplete (S : Store) (object : Bytes → S.State → Option Bytes) : Type 0 where
  pub object-delete :
      (id : Bytes) (s : S.State) → (S.delete id s).1 ≡ true → object id (S.delete id s).0 ≡ none
  pub list-object :
      (n : ℕ) (d : Bytes) (s : S.State) (ids : List Bytes)
      → S.list s ≡ some ids
      → object (chunk_id n) s ≡ some d
      → has (chunk_id n) ids ≡ true
