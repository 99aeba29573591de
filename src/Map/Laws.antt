-- ===== src/Map/Laws.antt =====
-- Lookup after each operation.
use fusey.Base.{
  Key, ◌==◌, if◌then◌else◌, Option, none, some, [], ◌∷◌, ◌≡◌, refl, arith, map, Bool-cases, inl,
  inr,
}
use fusey.Map.Defs.{Map, lookup, insert, delete, adjust}

abbrev pub map_option {ℓ} : {A : Type ℓ} → (A → A) → Option A → Option A
map_option f none = none
map_option f (some a) = some (f a)

abbrev pub over_option {ℓ κ} : {A : Type ℓ} {B : Type κ} → (A → B) → Option A → Option B
over_option f none = none
over_option f (some a) = some (f a)

module _ {ℓ κ} {K : Type ℓ} {V : Type κ} ⦃e : Key K⦄ where
  pub lookup-delete :
      (k j : K) (m : Map K V) → lookup j (delete k m) ≡ (if k == j then none else lookup j m)
  unfolding lookup delete
  lookup-delete k j [] = ground arith
  lookup-delete k j ((i, v) ∷ m) =
      ground (arith, lookup-delete k j m, e.same_iff i k, e.same_iff i j, e.same_iff k j)

  pub lookup-insert :
      (k j : K) (v : V) (m : Map K V)
      → lookup j (insert k v m) ≡ (if k == j then some v else lookup j m)
  unfolding lookup insert
  lookup-insert k j v m = ground (arith, lookup-delete k j m)

  pub lookup-adjust :
      (k j : K) (f : V → V) (m : Map K V)
      → lookup j (adjust k f m) ≡ (if k == j then map_option f (lookup j m) else lookup j m)
  unfolding lookup adjust
  lookup-adjust k j f [] = ground arith
  lookup-adjust k j f ((i, v) ∷ m) =
      ground (arith, lookup-adjust k j f m, e.same_iff i k, e.same_iff i j, e.same_iff k j)

  -- A change of every value.
  pub lookup-map {μ} :
      {W : Type μ} (f : V → W) (k : K) (m : Map K V)
      → lookup k (map (λ (j, v). (j, f v)) m) ≡ over_option f (lookup k m)
  unfolding lookup
  lookup-map f k [] = refl
  lookup-map f k ((j, v) ∷ m) = elim (Bool-cases (j == k)) [
    | inl same ↦ rw (lookup, same) refl
    | inr other ↦ rw (lookup, other) (lookup-map f k m)
  ]

pub ruleset map_laws = (lookup-delete, lookup-insert, lookup-adjust)
