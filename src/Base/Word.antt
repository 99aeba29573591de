-- ===== src/Base/Word.antt =====
-- Machine integers as bit patterns: an int64 is a number below 2^64 in two's complement, a uint32 a
-- number below 2^32. A pattern below 2^63 is the int64 of that value.
use Prim.Native.Nat.{ℕ, ◌+◌, ◌-◌, ◌/◌, ◌%◌, ◌^◌, ◌≤◌, ◌<◌}
use mathlib.Core.Path.{◌≡◌}
use mathlib.Core.Bool.{Bool}
use native.Mathlib.Omega.{arith}
use fusey.Base.Tests.{ltb, leb, if◌then◌else◌}

-- a + b, a - b of int64 and uint64
unfoldable pub add64 : ℕ → ℕ → ℕ
add64 a b = (a + b) % 2 ^ 64

unfoldable pub sub64 : ℕ → ℕ → ℕ
sub64 a b = (a + 2 ^ 64 - b) % 2 ^ 64

-- The order of int64 is that of the patterns with the sign bit turned.
unfoldable pub lt64 : ℕ → ℕ → Bool
lt64 a b = ltb ((a + 2 ^ 63) % 2 ^ 64) ((b + 2 ^ 63) % 2 ^ 64)

unfoldable pub le64 : ℕ → ℕ → Bool
le64 a b = leb ((a + 2 ^ 63) % 2 ^ 64) ((b + 2 ^ 63) % 2 ^ 64)

-- a / d and a % d of int64 round towards zero, for 0 < d < 2^63.
unfoldable pub div64 : ℕ → ℕ → ℕ
div64 a d = if ltb a (2 ^ 63) then a / d else (2 ^ 64 - (2 ^ 64 - a) / d) % 2 ^ 64

unfoldable pub mod64 : ℕ → ℕ → ℕ
mod64 a d = if ltb a (2 ^ 63) then a % d else (2 ^ 64 - (2 ^ 64 - a) % d) % 2 ^ 64

unfoldable pub inc32 : ℕ → ℕ
inc32 a = (a + 1) % 2 ^ 32

unfoldable pub dec32 : ℕ → ℕ
dec32 a = (a + 2 ^ 32 - 1) % 2 ^ 32

-- On patterns that stand for themselves the operations are those of ℕ.
pub add64-eq : (a b : ℕ) → a + b < 2 ^ 63 → add64 a b ≡ a + b
unfolding add64
add64-eq a b h = omega arith

pub sub64-eq : (a b : ℕ) → b ≤ a → a < 2 ^ 63 → sub64 a b ≡ a - b
unfolding sub64
sub64-eq a b h k = omega arith

pub lt64-eq : (a b : ℕ) → a < 2 ^ 63 → b < 2 ^ 63 → lt64 a b ≡ ltb a b
unfolding lt64
lt64-eq a b h k = ground arith

pub le64-eq : (a b : ℕ) → a < 2 ^ 63 → b < 2 ^ 63 → le64 a b ≡ leb a b
unfolding le64
le64-eq a b h k = ground arith

pub inc32-eq : (a : ℕ) → a + 1 < 2 ^ 32 → inc32 a ≡ a + 1
unfolding inc32
inc32-eq a h = omega arith

pub dec32-eq : (a : ℕ) → 0 < a → a < 2 ^ 32 → dec32 a ≡ a - 1
unfolding dec32
dec32-eq a h k = omega arith
