-- ===== src/Base/Int.antt =====
-- Signed integers over the native numbers: the `int` of Go and the whole numbers of JSON.
use Prim.Native.Nat.{ℕ, suc, ◌≤◌, ◌<◌}
use Prim.Native.String.{String}
use mathlib.Core.Bool.{Bool, true, false, not}
use mathlib.Core.Path.{◌≡◌, refl}
use mathlib.Core.Logic.{◌↔◌}
use native.Mathlib.Omega.{arith}
use goboxd.Base.Tests.{ltb, leb, ◌==◌}
use goboxd.Base.Texts.{◌<>◌, decimal}

-- `negsuc n` is -(n + 1).
pub data ℤ : Type 0 where
  pos : ℕ → ℤ
  negsuc : ℕ → ℤ

abbrev pub leb_ℤ : ℤ → ℤ → Bool
leb_ℤ (pos a) (pos b) = leb a b
leb_ℤ (pos a) (negsuc b) = false
leb_ℤ (negsuc a) (pos b) = true
leb_ℤ (negsuc a) (negsuc b) = leb b a

abbrev pub ltb_ℤ : ℤ → ℤ → Bool
ltb_ℤ (pos a) (pos b) = ltb a b
ltb_ℤ (pos a) (negsuc b) = false
ltb_ℤ (negsuc a) (pos b) = true
ltb_ℤ (negsuc a) (negsuc b) = ltb b a

abbrev pub eqb_ℤ : ℤ → ℤ → Bool
eqb_ℤ (pos a) (pos b) = a == b
eqb_ℤ (pos a) (negsuc b) = false
eqb_ℤ (negsuc a) (pos b) = false
eqb_ℤ (negsuc a) (negsuc b) = a == b

-- The decimal numeral with its sign.
abbrev pub decimal_ℤ : ℤ → String
decimal_ℤ (pos n) = decimal n
decimal_ℤ (negsuc n) = "-" <> decimal (suc n)

-- The value, where it is not negative.
abbrev pub to_ℕ : ℤ → ℕ
to_ℕ (pos n) = n
to_ℕ (negsuc n) = 0

infix 50 ◌≤ℤ◌
abbrev pub ◌≤ℤ◌ : ℤ → ℤ → Type 0
pos a ≤ℤ pos b = a ≤ b
pos a ≤ℤ negsuc b = ⊥
negsuc a ≤ℤ pos b = Unit
negsuc a ≤ℤ negsuc b = b ≤ a

abbrev pub IsPositive : ℤ → Type 0
IsPositive (pos n) = 0 < n
IsPositive (negsuc n) = ⊥

pub leb_ℤ_iff : (a b : ℤ) → (leb_ℤ a b ≡ true) ↔ (a ≤ℤ b)
leb_ℤ_iff (pos a) (pos b) = ground arith
leb_ℤ_iff (pos a) (negsuc b) = (λ e. cc, λ h. absurd h)
leb_ℤ_iff (negsuc a) (pos b) = (λ e. tt, λ h. refl)
leb_ℤ_iff (negsuc a) (negsuc b) = ground arith

pub ltb_ℤ-not : (a b : ℤ) → ltb_ℤ a b ≡ not (leb_ℤ b a)
ltb_ℤ-not (pos a) (pos b) = ground arith
ltb_ℤ-not (pos a) (negsuc b) = refl
ltb_ℤ-not (negsuc a) (pos b) = refl
ltb_ℤ-not (negsuc a) (negsuc b) = ground arith

pub IsPositive-iff : (a : ℤ) → (leb_ℤ a (pos 0) ≡ false) ↔ IsPositive a
IsPositive-iff (pos n) = ground arith
IsPositive-iff (negsuc n) = (λ e. cc, λ h. absurd h)
