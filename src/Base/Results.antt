-- ===== src/Base/Results.antt =====
-- What a Go function with an error result does: it returns, it fails, or it panics.
use mathlib.Core.Path.{◌≡◌, refl}
use mathlib.Core.Logic.{◌⊎◌, inl, inr}
use Prim.Native.Nat.{ℕ}
use fusey.Base.Tests.{Bytes}

pub data Error : Type 0 where
  inode_not_found parent_not_found child_not_found not_a_directory : ℕ → Error
  entry_exists entry_not_found source_not_found : ℕ → Bytes → Error
  directory_not_empty destination_not_empty not_a_regular_file not_a_symlink : ℕ → Error
  xattr_not_found : ℕ → Bytes → Error
  write_exceeds_chunk read_out_of_bounds store_failure : Error
  bad_chunk_id encoding_failure decoding_failure disk_failure no_snapshot object_not_found
        cancelled :
      Error

pub data Result {ℓ} (A : Type ℓ) : Type ℓ where
  ok : A → Result A
  err : Error → Result A
  panic : Result A

infixl 5 ◌>>=◌
abbrev pub ◌>>=◌ {ℓ κ} : {A : Type ℓ} {B : Type κ} → Result A → (A → Result B) → Result B
ok a >>= f = f a
err e >>= f = err e
panic >>= f = panic

pub Result-cases {ℓ} :
    {A : Type ℓ} (r : Result A)
    → ((a : A) × (r ≡ ok a)) ⊎ (((e : Error) × (r ≡ err e)) ⊎ (r ≡ panic))
Result-cases (ok a) = inl (a, refl)
Result-cases (err e) = inr (inl (e, refl))
Result-cases panic = inr (inr refl)
