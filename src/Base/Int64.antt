-- ===== src/Base/Int64.antt =====
-- Arithmetic on the 64-bit signed integers of Go, with its wrap-around.
use Prim.Native.Nat.{ℕ, ◌+◌, ◌-◌, ◌*◌, ◌%◌, ◌^◌, ◌≤◌}
use mathlib.Core.Path.{◌≡◌, refl}
use mathlib.Core.Bool.{true}
use native.Mathlib.Omega.{arith}
use goboxd.Base.Tests.{ltb, leb, if◌then◌else◌}
use goboxd.Base.Int.{ℤ, pos, negsuc}
use goboxd.Base.Atoi.{max_int}

-- The number of 64 bits that is the same modulo 2^64.
unfoldable pub wrap_int64 : ℤ → ℤ
wrap_int64 (pos n) = let m = n % 2 ^ 64 in if ltb m (2 ^ 63) then pos m else negsuc (2 ^ 64 - 1 - m)
wrap_int64 (negsuc n) =
    let m = n % 2 ^ 64 in if ltb m (2 ^ 63) then negsuc m else pos (2 ^ 64 - 1 - m)

abbrev pub add_ℤ : ℤ → ℤ → ℤ
add_ℤ (pos a) (pos b) = pos (a + b)
add_ℤ (pos a) (negsuc b) = if ltb b a then pos (a - b - 1) else negsuc (b - a)
add_ℤ (negsuc a) (pos b) = if ltb a b then pos (b - a - 1) else negsuc (a - b)
add_ℤ (negsuc a) (negsuc b) = negsuc (a + b + 1)

abbrev pub sub_ℤ : ℤ → ℤ → ℤ
sub_ℤ (pos a) (pos b) = if leb b a then pos (a - b) else negsuc (b - a - 1)
sub_ℤ (pos a) (negsuc b) = pos (a + b + 1)
sub_ℤ (negsuc a) (pos b) = negsuc (a + b)
sub_ℤ (negsuc a) (negsuc b) = if leb a b then pos (b - a) else negsuc (a - b - 1)

-- A product with a number that is not negative.
abbrev pub scale_ℤ : ℤ → ℕ → ℤ
scale_ℤ (pos a) k = pos (a * k)
scale_ℤ (negsuc a) k = if ltb 0 k then negsuc ((a + 1) * k - 1) else pos 0

pub wrap_int64-pos : (n : ℕ) → n ≤ max_int → wrap_int64 (pos n) ≡ pos n
unfolding wrap_int64
wrap_int64-pos n h =
    let same : n % 2 ^ 64 ≡ n = omega arith in
    let small : ltb n (2 ^ 63) ≡ true = ground arith in rw (same, small) refl

pub wrap_int64-negsuc : (n : ℕ) → n ≤ max_int → wrap_int64 (negsuc n) ≡ negsuc n
unfolding wrap_int64
wrap_int64-negsuc n h =
    let same : n % 2 ^ 64 ≡ n = omega arith in
    let small : ltb n (2 ^ 63) ≡ true = ground arith in rw (same, small) refl
