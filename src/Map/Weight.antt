-- ===== src/Map/Weight.antt =====
-- Sums over the entries of a map whose keys are distinct.
use fusey.Base.{ℕ, ◌+◌, Key, Option, none, some, [], ◌∷◌, ◌≡◌, refl, arith}
use fusey.Map.Defs.{Map, lookup, insert, delete, adjust}
use fusey.Map.Laws.{lookup-delete, lookup-adjust, map_option}

abbrev pub option_weight {ℓ} : {V : Type ℓ} → (V → ℕ) → Option V → ℕ
option_weight f none = 0
option_weight f (some v) = f v

unfoldable pub weigh {ℓ κ} : {K : Type ℓ} {V : Type κ} → (V → ℕ) → Map K V → ℕ
weigh f [] = 0
weigh f ((k, v) ∷ m) = f v + weigh f m

module _ {ℓ κ} {K : Type ℓ} {V : Type κ} ⦃e : Key K⦄ where
  -- No key occurs twice.
  abbrev pub Distinct : Map K V → Type κ
  Distinct [] = Unit
  Distinct ((k, v) ∷ m) = (lookup k m ≡ none) × Distinct m

  pub delete-Distinct : (k : K) (m : Map K V) → Distinct m → Distinct (delete k m)
  unfolding delete
  delete-Distinct k [] d = d
  delete-Distinct k ((j, v) ∷ m) d = ground (arith, delete-Distinct k m d.1, lookup-delete k j m)

  pub insert-Distinct : (k : K) (v : V) (m : Map K V) → Distinct m → Distinct (insert k v m)
  unfolding insert
  insert-Distinct k v m d =
      (ground (arith, lookup-delete k k m, e.same_iff k k), delete-Distinct k m d)

  pub adjust-Distinct : (k : K) (f : V → V) (m : Map K V) → Distinct m → Distinct (adjust k f m)
  unfolding adjust
  adjust-Distinct k f [] d = d
  adjust-Distinct k f ((j, v) ∷ m) d =
      ground (arith, adjust-Distinct k f m d.1, lookup-adjust k j f m)

  delete_absent-weigh :
      (f : V → ℕ) (k : K) (m : Map K V) → lookup k m ≡ none → weigh f (delete k m) ≡ weigh f m
  unfolding weigh delete lookup
  delete_absent-weigh f k [] h = refl
  delete_absent-weigh f k ((j, v) ∷ m) h = ground (arith, delete_absent-weigh f k m)

  pub weigh-delete :
      (f : V → ℕ) (k : K) (m : Map K V)
      → Distinct m
      → weigh f (delete k m) + option_weight f (lookup k m) ≡ weigh f m
  unfolding weigh delete lookup
  weigh-delete f k [] d = refl
  weigh-delete f k ((j, v) ∷ m) d =
      ground (arith, weigh-delete f k m d.1, delete_absent-weigh f k m, e.same_iff j k)

  pub weigh-insert :
      (f : V → ℕ) (k : K) (v : V) (m : Map K V)
      → Distinct m
      → weigh f (insert k v m) + option_weight f (lookup k m) ≡ weigh f m + f v
  unfolding insert weigh
  weigh-insert f k v m d = omega (arith, weigh-delete f k m d)

  pub weigh-adjust :
      (f : V → ℕ) (k : K) (g : V → V) (m : Map K V)
      → Distinct m
      → weigh f (adjust k g m) + option_weight f (lookup k m)
        ≡ weigh f m + option_weight f (map_option g (lookup k m))
  unfolding weigh adjust lookup
  weigh-adjust f k g [] d = refl
  weigh-adjust f k g ((j, v) ∷ m) d = ground (arith, weigh-adjust f k g m d.1, e.same_iff j k)

  pub adjust-delete :
      (k j : K) (g : V → V) (m : Map K V) → adjust k g (delete j m) ≡ delete j (adjust k g m)
  unfolding adjust delete
  adjust-delete k j g [] = refl
  adjust-delete k j g ((i, v) ∷ m) = ground (arith, adjust-delete k j g m)
