-- ===== src/Base/Numerals.antt =====
-- Decimal numerals of Texts.antt are read back by the readers of Atoi.antt.
use Prim.Native.Nat.{ℕ, zero, suc, ◌+◌, ◌-◌, ◌*◌, ◌/◌, ◌%◌, ◌≤◌}
use Prim.Native.Char.{Char, code}
use Prim.Native.String.{String}
use mathlib.Core.Path.{◌≡◌, refl, ap, ◌∙◌}
use mathlib.Core.Logic.{◌≢◌, inl, inr}
use mathlib.Core.Bool.{Bool, true, false, ◌&&◌, ◌||◌}
use mathlib.Core.Option.{some}
use native.Mathlib.Omega.{arith}
use text.Mathlib.TextLemmas.{cons-ne-nil}
use goboxd.Base.Tests.{ltb, leb, ◌==◌, Bool-cases}
use goboxd.Base.Texts.{digit, digits_from, decimal, value_from, value_from-decimal}
use goboxd.Base.Atoi.{read_digits, read_number, atoi, max_int, as_positive}
use goboxd.Base.Int.{pos}

abbrev is_digit : ℕ → Bool
is_digit c = leb b'0' c && leb c b'9'

unfoldable pub all_digits : String → Bool
all_digits String.[] = true
all_digits (String.◌∷◌ c s) = is_digit (code c) && all_digits s

is_digit-digit : (d : ℕ) → is_digit (code (digit d)) ≡ true
is_digit-digit zero = refl
is_digit-digit (suc zero) = refl
is_digit-digit (suc (suc zero)) = refl
is_digit-digit (suc (suc (suc zero))) = refl
is_digit-digit (suc (suc (suc (suc zero)))) = refl
is_digit-digit (suc (suc (suc (suc (suc zero))))) = refl
is_digit-digit (suc (suc (suc (suc (suc (suc zero)))))) = refl
is_digit-digit (suc (suc (suc (suc (suc (suc (suc zero))))))) = refl
is_digit-digit (suc (suc (suc (suc (suc (suc (suc (suc zero)))))))) = refl
is_digit-digit (suc (suc (suc (suc (suc (suc (suc (suc (suc d))))))))) = refl

all_digits-digits_from :
    (f n : ℕ) (buf : String) → all_digits buf ≡ true → all_digits (digits_from f n buf) ≡ true
unfolding digits_from all_digits
all_digits-digits_from zero n buf h = h
all_digits-digits_from (suc f) n buf h = elim (Bool-cases (n == 0)) [
  | inl e ↦ rw e h
  | inr e ↦
      let longer : all_digits (String.◌∷◌ (digit (n % 10)) buf) ≡ true =
        rw (is_digit-digit (n % 10)) h in
      rw e (all_digits-digits_from f (n / 10) (String.◌∷◌ (digit (n % 10)) buf) longer)
]

pub all_digits-decimal : (n : ℕ) → all_digits (decimal n) ≡ true
unfolding decimal all_digits
all_digits-decimal n = elim (Bool-cases (n == 0)) [
  | inl e ↦ rw e refl
  | inr e ↦ rw e (all_digits-digits_from (suc n) n "" refl)
]

read_digits-value_from :
    (n : ℕ) (s : String) → all_digits s ≡ true → read_digits n s ≡ some (value_from n s)
unfolding read_digits value_from all_digits
read_digits-value_from n String.[] h = refl
read_digits-value_from n (String.◌∷◌ c s) h =
    let ih = read_digits-value_from (n * 10 + (code c - 48)) s (ground arith) in
    let in_range : (ltb (code c) b'0' || ltb b'9' (code c)) ≡ false = ground arith in rw in_range ih

digits_from-cons :
    (f n : ℕ) (c : Char) (buf : String)
    → (d : Char) × (t : String) × (digits_from f n (String.◌∷◌ c buf) ≡ String.◌∷◌ d t)
unfolding digits_from
digits_from-cons zero n c buf = (c, buf, refl)
digits_from-cons (suc f) n c buf = elim (Bool-cases (n == 0)) [
  | inl e ↦ rw e (c, buf, refl)
  | inr e ↦ rw e (digits_from-cons f (n / 10) (digit (n % 10)) (String.◌∷◌ c buf))
]

decimal-cons : (n : ℕ) → (d : Char) × (t : String) × (decimal n ≡ String.◌∷◌ d t)
unfolding decimal digits_from
decimal-cons n = elim (Bool-cases (n == 0)) [
  | inl e ↦ rw e ("0", "", refl)
  | inr e ↦ rw e (digits_from-cons n (n / 10) (digit (n % 10)) "")
]

pub decimal-ne-nil : (n : ℕ) → decimal n ≢ ""
decimal-ne-nil n e = let (d, t, c) = decimal-cons n in cons-ne-nil d t (cc (c, e))

read_number-digits :
    (s : String) → s ≢ "" → all_digits s ≡ true → read_number s ≡ some (value_from 0 s)
unfolding read_number
read_number-digits String.[] ne h = absurd (ne refl)
read_number-digits (String.◌∷◌ c s) ne h = read_digits-value_from 0 (String.◌∷◌ c s) h

-- A numeral is read back as its number.
pub read_number-decimal : (n : ℕ) → read_number (decimal n) ≡ some n
read_number-decimal n =
    read_number-digits (decimal n) (decimal-ne-nil n) (all_digits-decimal n)
    ∙ ap some (value_from-decimal n)

-- A numeral of at most 63 bits is read by `strconv.Atoi`.
pub atoi-decimal : (n : ℕ) → n ≤ max_int → atoi (decimal n) ≡ some (pos n)
unfolding atoi all_digits as_positive
atoi-decimal n h =
    by_first (decimal n) (all_digits-decimal n) (decimal-ne-nil n) (read_number-decimal n)
  where
    by_first :
        (s : String) → all_digits s ≡ true → s ≢ "" → read_number s ≡ some n → atoi s ≡ some (pos n)
    by_first String.[] digits ne r = absurd (ne refl)
    by_first (String.◌∷◌ c s) digits ne r =
        let no_minus : (code c == b'-') ≡ false = ground arith in
        let no_plus : (code c == b'+') ≡ false = ground arith in
        let fits : leb n max_int ≡ true = ground arith in rw (no_minus, no_plus, r, fits) refl
