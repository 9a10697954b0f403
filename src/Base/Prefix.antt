-- ===== src/Base/Prefix.antt =====
-- Laws of the prefix functions of Strings.antt.
use Prim.Native.Char.{code}
use Prim.Native.String.{String, count}
use mathlib.Core.Path.{◌≡◌, refl, sym, ap}
use mathlib.Core.Bool.{true}
use native.Mathlib.Omega.{arith}
use text.Mathlib.TextEquality.{Char-path}
use text.Mathlib.TextLemmas.{nil-append, cons-append}
use Prim.Native.String.count
use goboxd.Base.Tests.{◌==◌}
use goboxd.Base.Texts.{◌<>◌}
use goboxd.Base.Strings.{has_prefix, skip, trim_prefix}

pub has_prefix-append : (p w : String) → has_prefix (p <> w) p ≡ true
unfolding has_prefix
has_prefix-append String.[] w = refl
has_prefix-append (String.◌∷◌ c p) w =
    let ih = has_prefix-append p w in
    let same : code c == code c ≡ true = ground arith in rw (cons-append c p w, same) ih

pub skip-append : (p w : String) → skip (count p) (p <> w) ≡ w
unfolding skip
skip-append String.[] w = nil-append w
skip-append (String.◌∷◌ c p) w =
    let ih = skip-append p w in rw (cons-append c p w, count.cons c p) ih

prefix-skip : (s p : String) → has_prefix s p ≡ true → s ≡ p <> skip (count p) s
unfolding has_prefix skip
prefix-skip s String.[] h = sym (nil-append s)
prefix-skip String.[] (String.◌∷◌ d p) h = cc
prefix-skip (String.◌∷◌ c s) (String.◌∷◌ d p) h =
    let ih = prefix-skip s p (ground arith) in
    let same = Char-path c d (ground arith) in
    rw (cons-append d p (skip (count (String.◌∷◌ d p)) (String.◌∷◌ c s)), count.cons d p, same)
      (ap (String.◌∷◌ d) ih)

-- What follows a prefix, and the prefix, make the text.
pub prefix-trim_prefix : (s p : String) → has_prefix s p ≡ true → s ≡ p <> trim_prefix s p
unfolding trim_prefix
prefix-trim_prefix s p h = rw h (prefix-skip s p h)

pub trim_prefix-append : (p w : String) → trim_prefix (p <> w) p ≡ w
unfolding trim_prefix
trim_prefix-append p w = rw (has_prefix-append p w) (skip-append p w)
