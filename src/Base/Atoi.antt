-- ===== src/Base/Atoi.antt =====
-- `strconv.Atoi`: an optional sign and decimal digits, within 64 bits.
use Prim.Native.Nat.{ℕ, suc, ◌+◌, ◌-◌, ◌*◌, ◌^◌}
use Prim.Native.Char.{code}
use Prim.Native.String.{String}
use mathlib.Core.Bool.{◌||◌}
use mathlib.Core.Option.{Option, none, some}
use goboxd.Base.Tests.{ltb, leb, ◌==◌, if◌then◌else◌}
use goboxd.Base.Int.{ℤ, pos, negsuc}

abbrev pub max_int : ℕ
max_int = 2 ^ 63 - 1

unfoldable pub read_digits : ℕ → String → Option ℕ
read_digits n String.[] = some n
read_digits n (String.◌∷◌ c s) =
    let rest = read_digits (n * 10 + (code c - 48)) s in
    if ltb (code c) b'0' || ltb b'9' (code c) then none else rest

-- At least one digit.
unfoldable pub read_number : String → Option ℕ
unfolding read_digits
read_number String.[] = none
read_number (String.◌∷◌ c s) = read_digits 0 (String.◌∷◌ c s)

as_negative : ℕ → Option ℤ
as_negative n =
    if n == 0 then some (pos 0) else if leb n (suc max_int) then some (negsuc (n - 1)) else none

unfoldable pub as_positive : ℕ → Option ℤ
as_positive n = if leb n max_int then some (pos n) else none

unfoldable pub atoi : String → Option ℤ
unfolding read_number as_negative as_positive
atoi String.[] = none
atoi (String.◌∷◌ c s) =
    if code c == b'-'
    then elim (read_number s) [ none ↦ none | some n ↦ as_negative n ]
    else if code c == b'+'
    then elim (read_number s) [ none ↦ none | some n ↦ as_positive n ]
    else elim (read_number (String.◌∷◌ c s)) [ none ↦ none | some n ↦ as_positive n ]
