-- ===== src/Base/Fields.antt =====
-- Laws of `split` and `fields_func` of Strings.antt: lines, and words between blanks.
use Prim.Native.Nat.{ℕ}
use Prim.Native.Char.{Char, code}
use Prim.Native.String.{String}
use mathlib.Core.Path.{◌≡◌, refl, sym, ap, ◌∙◌}
use mathlib.Core.Logic.{◌≢◌, inl, inr}
use mathlib.Core.Bool.{Bool, true, false, not, ◌&&◌}
use mathlib.Core.List.{List, [], ◌∷◌}
use native.Mathlib.Omega.{arith}
use text.Mathlib.TextEquality.{eq_iff}
use text.Mathlib.TextLemmas.{nil-append, cons-append, append-nil, append_assoc}
use goboxd.Base.Tests.{leb, ◌==◌, Bool-cases}
use goboxd.Base.Texts.{◌<>◌, str_eq}
use goboxd.Base.Strings.{split, prepend, fields_func, fields_from, is_space}
use goboxd.Base.Numerals.{all_digits}

-- The words between blanks, `strings.Fields`.
abbrev pub fields : String → List String
fields s = fields_func is_space s

-- No character of the text passes the test.
unfoldable pub free_of : (ℕ → Bool) → String → Bool
free_of sep String.[] = true
free_of sep (String.◌∷◌ c s) = not (sep (code c)) && free_of sep s

pub free_of-append :
    (sep : ℕ → Bool) (s t : String) → free_of sep (s <> t) ≡ (free_of sep s && free_of sep t)
unfolding free_of
free_of-append sep String.[] t = rw (nil-append t) refl
free_of-append sep (String.◌∷◌ c s) t =
    let ih = free_of-append sep s t in rw (cons-append c s t, ih) (ground arith)

-- What is over between two separators is gathered.
fields_from-word :
    (sep : ℕ → Bool) (cur w rest : String)
    → free_of sep w ≡ true
    → fields_from sep cur (w <> rest) ≡ fields_from sep (cur <> w) rest
unfolding fields_from free_of
fields_from-word sep cur String.[] rest h = rw (nil-append rest, append-nil cur) refl
fields_from-word sep cur (String.◌∷◌ c w) rest h =
    let off : sep (code c) ≡ false = ground arith in
    let ih = fields_from-word sep (cur <> String.◌∷◌ c "") w rest (ground arith) in
    let one = append_assoc cur (String.◌∷◌ c "") w in
    let joined = cons-append c "" w ∙ ap (String.◌∷◌ c) (nil-append w) in
    rw (cons-append c w rest, off)
      (ih ∙ ap (λ u. fields_from sep u rest) (one ∙ ap (λ v. cur <> v) joined))

fields_from-last :
    (sep : ℕ → Bool) (w : String) → free_of sep w ≡ true → w ≢ "" → fields_from sep "" w ≡ w ∷ []
unfolding fields_from
fields_from-last sep w h ne =
    let all = fields_from-word sep "" w "" h in
    let full : str_eq w "" ≡ false = ground (arith, eq_iff w "") in
    ap (fields_from sep "") (sym (append-nil w))
    ∙ (all ∙ (ap (λ u. fields_from sep u "") (nil-append w) ∙ rw full refl))

-- Two words with one separator between them.
pub fields_func-two :
    (sep : ℕ → Bool) (c : Char) (v w : String)
    → sep (code c) ≡ true
    → free_of sep v ≡ true
    → free_of sep w ≡ true
    → v ≢ ""
    → w ≢ ""
    → fields_func sep (v <> String.◌∷◌ c w) ≡ v ∷ w ∷ []
unfolding fields_func fields_from
fields_func-two sep c v w at hv hw nv nw =
    let first = fields_from-word sep "" v (String.◌∷◌ c w) hv in
    let full : str_eq v "" ≡ false = ground (arith, eq_iff v "") in
    first
    ∙ (ap (λ u. fields_from sep u (String.◌∷◌ c w)) (nil-append v)
        ∙ rw (at, full) (ap (◌∷◌ v) (fields_from-last sep w hw nw)))

-- There is always a first part.
pub split-cons : (k : ℕ) (s : String) → (p : String) × (ps : List String) × (split k s ≡ p ∷ ps)
unfolding split prepend
split-cons k String.[] = ("", [], refl)
split-cons k (String.◌∷◌ c s) =
    let (p, ps, e) = split-cons k s in
    elim (Bool-cases (code c == k)) [
      | inl at ↦ ("", split k s, rw at refl)
      | inr off ↦ (String.◌∷◌ c p, ps, rw (off, e) refl)
    ]

-- A text without the separator is one part.
pub split-whole : (k : ℕ) (s : String) → free_of (λ d. d == k) s ≡ true → split k s ≡ s ∷ []
unfolding split free_of prepend
split-whole k String.[] h = refl
split-whole k (String.◌∷◌ c s) h =
    let off : code c == k ≡ false = ground arith in rw (off, split-whole k s (ground arith)) refl

-- A first part without the separator is cut off at it.
pub split-first :
    (k : ℕ) (c : Char) (l rest : String)
    → code c ≡ k
    → free_of (λ d. d == k) l ≡ true
    → split k (l <> String.◌∷◌ c rest) ≡ l ∷ split k rest
unfolding split prepend free_of
split-first k c String.[] rest e h =
    let at : code c == k ≡ true = ground arith in rw (nil-append (String.◌∷◌ c rest), at) refl
split-first k c (String.◌∷◌ d l) rest e h =
    let off : code d == k ≡ false = ground arith in
    let ih = split-first k c l rest e (ground arith) in
    rw (cons-append d l (String.◌∷◌ c rest), off, ih) refl

pub free_of-digits :
    (sep : ℕ → Bool) (s : String)
    → ((c : ℕ) → sep c ≡ true → (leb b'0' c && leb c b'9') ≡ false)
    → all_digits s ≡ true
    → free_of sep s ≡ true
unfolding free_of all_digits
free_of-digits sep String.[] apart h = refl
free_of-digits sep (String.◌∷◌ c s) apart h = elim (Bool-cases (sep (code c))) [
  | inl e ↦ let no = apart (code c) e in absurd (ground arith)
  | inr e ↦ rw e (free_of-digits sep s apart (ground arith))
]
