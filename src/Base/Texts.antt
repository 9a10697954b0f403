-- ===== src/Base/Texts.antt =====
-- Texts: equality, concatenation, membership and decimal numerals over the native `String`.
use Prim.Native.Nat.{ℕ, zero, suc, ◌+◌, ◌-◌, ◌*◌, ◌/◌, ◌%◌, ◌<◌}
use Prim.Native.Char.{Char, code}
use Prim.Native.String.{String}
use Prim.Native.String
use mathlib.Core.Path.{◌≡◌, refl, sym, ap, ◌∙◌}
use mathlib.Core.Logic
use mathlib.Core.Bool.{Bool, false, ◌||◌}
use mathlib.Core.List.{List, [], ◌∷◌}
use native.Mathlib.Omega.{arith}
use text.Mathlib.Text.{◌==◌ as same_text}
use goboxd.Base.Tests.{◌==◌, if◌then◌else◌, Bool-cases}

-- `a === b` and `a == b` on texts.
abbrev pub str_eq : String → String → Bool
str_eq a b = same_text a b

infixr 65 ◌<>◌
abbrev pub ◌<>◌ : String → String → String
a <> b = String.◌++◌ a b

abbrev pub codes : String → List ℕ
codes String.[] = []
codes (String.◌∷◌ c s) = code c ∷ codes s

-- Whether a text stands in a list of texts.
abbrev pub has : String → List String → Bool
has s [] = false
has s (t ∷ ts) = str_eq t s || has s ts

-- The character of a decimal digit.
abbrev pub digit : ℕ → Char
digit zero = "0"
digit (suc zero) = "1"
digit (suc (suc zero)) = "2"
digit (suc (suc (suc zero))) = "3"
digit (suc (suc (suc (suc zero)))) = "4"
digit (suc (suc (suc (suc (suc zero))))) = "5"
digit (suc (suc (suc (suc (suc (suc zero)))))) = "6"
digit (suc (suc (suc (suc (suc (suc (suc zero))))))) = "7"
digit (suc (suc (suc (suc (suc (suc (suc (suc zero)))))))) = "8"
digit _ = "9"

-- `for n > 0 { buf = digit(n % 10) + buf; n /= 10 }`; the fuel `suc n` is enough.
unfoldable pub digits_from : ℕ → ℕ → String → String
digits_from zero n buf = buf
digits_from (suc f) n buf =
    let rest = digits_from f (n / 10) (String.◌∷◌ (digit (n % 10)) buf) in
    if n == 0 then buf else rest

-- The decimal numeral of a number.
unfoldable pub decimal : ℕ → String
decimal n = if n == 0 then "0" else digits_from (suc n) n ""

-- What a numeral stands for, read from the left.
unfoldable pub value_from : ℕ → String → ℕ
value_from a String.[] = a
value_from a (String.◌∷◌ c s) = value_from (a * 10 + (code c - 48)) s

code-digit : (d : ℕ) → d < 10 → code (digit d) - 48 ≡ d
code-digit zero h = refl
code-digit (suc zero) h = refl
code-digit (suc (suc zero)) h = refl
code-digit (suc (suc (suc zero))) h = refl
code-digit (suc (suc (suc (suc zero)))) h = refl
code-digit (suc (suc (suc (suc (suc zero))))) h = refl
code-digit (suc (suc (suc (suc (suc (suc zero)))))) h = refl
code-digit (suc (suc (suc (suc (suc (suc (suc zero))))))) h = refl
code-digit (suc (suc (suc (suc (suc (suc (suc (suc zero)))))))) h = refl
code-digit (suc (suc (suc (suc (suc (suc (suc (suc (suc d))))))))) h = omega arith

value_from-digits_from :
    (f n : ℕ) (buf : String) → n < f → value_from 0 (digits_from f n buf) ≡ value_from n buf
unfolding digits_from value_from
value_from-digits_from zero n buf h = absurd (omega arith)
value_from-digits_from (suc f) n buf h = elim (Bool-cases (n == 0)) [
  | Logic.inl e ↦ let z : n ≡ 0 = ground arith in rw (e, z)
  | Logic.inr e ↦
      let step : n / 10 * 10 + (code (digit (n % 10)) - 48) ≡ n =
        omega (arith, code-digit (n % 10) (omega arith)) in
      rw e (
        value_from-digits_from f (n / 10) (String.◌∷◌ (digit (n % 10)) buf) (ground arith)
        ∙ ap (λ k. value_from k buf) step)
]

pub value_from-decimal : (n : ℕ) → value_from 0 (decimal n) ≡ n
unfolding decimal value_from
value_from-decimal n = elim (Bool-cases (n == 0)) [
  | Logic.inl e ↦ rw e (ground arith)
  | Logic.inr e ↦ rw e (value_from-digits_from (suc n) n "" (omega arith))
]

-- Different numbers have different numerals.
pub decimal_injective : (m n : ℕ) → decimal m ≡ decimal n → m ≡ n
decimal_injective m n e = sym (value_from-decimal m) ∙ (ap (value_from 0) e ∙ value_from-decimal n)
