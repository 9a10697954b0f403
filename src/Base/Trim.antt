-- ===== src/Base/Trim.antt =====
-- `strings.TrimSpace` of a word with blanks around it.
use Prim.Native.Char.{code}
use Prim.Native.String.{String}
use mathlib.Core.Path.{◌≡◌, refl, sym, ap, ◌∙◌}
use mathlib.Core.Logic.{◌≢◌}
use mathlib.Core.Bool.{Bool, true, false, ◌&&◌}
use native.Mathlib.Omega.{arith}
use text.Mathlib.TextLemmas.{nil-append, cons-append, append-nil}
use goboxd.Base.Texts.{◌<>◌}
use goboxd.Base.Strings.{is_space, trim_left, trim_right, trim_space}
use goboxd.Base.Fields.{free_of}

-- Only blanks.
unfoldable pub blank : String → Bool
unfolding is_space
blank String.[] = true
blank (String.◌∷◌ c s) = is_space (code c) && blank s

trim_left-blank : (b s : String) → blank b ≡ true → trim_left (b <> s) ≡ trim_left s
unfolding blank trim_left
trim_left-blank String.[] s h = rw (nil-append s) refl
trim_left-blank (String.◌∷◌ c b) s h =
    let off : is_space (code c) ≡ true = ground arith in
    rw (cons-append c b s, off) (trim_left-blank b s (ground arith))

trim_right-blank : (b : String) → blank b ≡ true → trim_right b ≡ ""
unfolding blank trim_right
trim_right-blank String.[] h = refl
trim_right-blank (String.◌∷◌ c b) h =
    let off : is_space (code c) ≡ true = ground arith in
    let ih = trim_right-blank b (ground arith) in rw (ih, off) refl

trim_right-word :
    (w b : String) → free_of is_space w ≡ true → blank b ≡ true → trim_right (w <> b) ≡ w
unfolding trim_right free_of
trim_right-word String.[] b hw hb = rw (nil-append b) (trim_right-blank b hb)
trim_right-word (String.◌∷◌ c String.[]) b hw hb =
    let on : is_space (code c) ≡ false = ground arith in
    let last = ap trim_right (nil-append b) ∙ trim_right-blank b hb in
    rw (cons-append c "" b, trim_right, last, on) refl
trim_right-word (String.◌∷◌ c (String.◌∷◌ d w)) b hw hb =
    let ih = trim_right-word (String.◌∷◌ d w) b (ground arith) hb in
    rw (cons-append c (String.◌∷◌ d w) b, trim_right, ih) refl

-- Blanks around a word that is not empty are taken off, and nothing else.
pub trim_space-word :
    (a w b : String)
    → blank a ≡ true
    → free_of is_space w ≡ true
    → blank b ≡ true
    → w ≢ ""
    → trim_space (a <> w <> b) ≡ w
unfolding trim_space trim_left free_of
trim_space-word a String.[] b ha hw hb ne = absurd (ne refl)
trim_space-word a (String.◌∷◌ c w) b ha hw hb ne =
    let on : is_space (code c) ≡ false = ground arith in
    rw (trim_left-blank a (String.◌∷◌ c w <> b) ha, cons-append c w b, on)
      (ap trim_right (sym (cons-append c w b)) ∙ trim_right-word (String.◌∷◌ c w) b hw hb)

pub trim_space-blank : (b : String) → blank b ≡ true → trim_space b ≡ ""
unfolding trim_space trim_right trim_left
trim_space-blank b h =
    let left = trim_left-blank b "" h in ap trim_right (ap trim_left (sym (append-nil b)) ∙ left)
