-- ===== src/Index/Links/Counting.antt =====
-- How the changes to the directory tables change the count.
use fusey.Base.{
  ℕ, ◌+◌, Bytes, none, some, [], ◌≡◌, ◌≢◌, ◌==◌, nat_key, bytes_key, if◌then◌else◌, arith,
}
use fusey.Map.{
  Map, lookup, insert, delete, adjust, weigh, Distinct, option_weight, weigh-adjust, weigh-delete,
  weigh-insert,
}
use fusey.Index.Types.{or_empty}
use fusey.Index.Links.Defs.{count, refs, once}

abbrev Tables : Type 0
Tables = Map ℕ (Map Bytes ℕ)

module _ (parent : ℕ) (name : Bytes) (dirs : Tables) (d : Distinct dirs) where
  module _ (e : Distinct (or_empty (lookup parent dirs))) where
    -- Removing an entry takes one from the count of the inode that it names.
    pub refs-unlink :
        (child j : ℕ)
        → lookup name (or_empty (lookup parent dirs)) ≡ some child
        → refs j (adjust parent (delete name) dirs) + once child j ≡ refs j dirs
    unfolding lookup
    refs-unlink child j h = ground (
      arith,
      weigh-adjust (count j) parent (delete name) dirs d,
      weigh-delete (λ c. if c == j then 1 else 0) name (or_empty (lookup parent dirs)) e,
    )

    -- Adding an entry adds one, and takes one from the inode that the name had.
    pub refs-link :
        (child j : ℕ)
        → lookup parent dirs ≢ none
        → refs j (adjust parent (insert name child) dirs)
            + option_weight (λ c. once c j) (lookup name (or_empty (lookup parent dirs)))
          ≡ refs j dirs + once child j
    refs-link child j h = ground (
      arith,
      weigh-adjust (count j) parent (insert name child) dirs d,
      weigh-insert (λ c. if c == j then 1 else 0) name child (or_empty (lookup parent dirs)) e,
    )

-- An empty table can go.
pub refs-delete :
    (ino j : ℕ) (dirs : Tables)
    → Distinct dirs
    → or_empty (lookup ino dirs) ≡ []
    → refs j (delete ino dirs) ≡ refs j dirs
unfolding weigh
refs-delete ino j dirs d h = ground (arith, weigh-delete (count j) ino dirs d)
