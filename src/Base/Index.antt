-- ===== src/Base/Index.antt =====
-- Positions in a text: `strings.Index`, `strings.LastIndex` and `strings.IndexFunc`, slices at them, and
-- their laws under concatenation. Positions count characters; the program only cuts at them.
use Prim.Native.Nat.{ℕ, zero, suc, ◌+◌, ◌≤◌}
use Prim.Native.Char.{Char, code}
use Prim.Native.String.{String, count}
use Prim.Native.String.count
use mathlib.Core.Path.{◌≡◌, refl, sym, ap, ◌∙◌}
use mathlib.Core.Logic.{inl, inr}
use mathlib.Core.Bool.{Bool, true, false, ◌&&◌}
use mathlib.Core.Option.{Option, none, some}
use native.Mathlib.Omega.{arith}
use text.Mathlib.TextEquality.{eq_iff}
use text.Mathlib.TextLemmas.{nil-append, cons-append}
use goboxd.Base.Tests.{◌==◌, Bool-cases, if◌then◌else◌}
use goboxd.Base.Texts.{◌<>◌, str_eq}
use goboxd.Base.Strings.{has_prefix, skip}
use goboxd.Base.Fields.{free_of}

unfoldable pub next_place : Option ℕ → Option ℕ
next_place none = none
next_place (some i) = some (suc i)

-- `strings.Index(s, p)`, where `none` is -1.
unfoldable pub index : String → String → Option ℕ
unfolding has_prefix next_place
index String.[] p = if str_eq p "" then some 0 else none
index (String.◌∷◌ c s) p =
    let later = next_place (index s p) in if has_prefix (String.◌∷◌ c s) p then some 0 else later

-- `strings.LastIndex(s, p)`
unfoldable pub last_index : String → String → Option ℕ
unfolding has_prefix
last_index String.[] p = if str_eq p "" then some 0 else none
last_index (String.◌∷◌ c s) p = elim (last_index s p) [
  | some i ↦ some (suc i)
  | none ↦ if has_prefix (String.◌∷◌ c s) p then some 0 else none
]

-- `strings.IndexFunc`, and `strings.IndexAny` with the test for its characters.
unfoldable pub index_where : (ℕ → Bool) → String → Option ℕ
unfolding next_place
index_where test String.[] = none
index_where test (String.◌∷◌ c s) =
    let later = next_place (index_where test s) in if test (code c) then some 0 else later

-- The first characters, `s[:n]`.
unfoldable pub prefix_of : ℕ → String → String
prefix_of zero s = ""
prefix_of (suc n) String.[] = ""
prefix_of (suc n) (String.◌∷◌ c s) = String.◌∷◌ c (prefix_of n s)

pub prefix_of-append : (p w : String) → prefix_of (count p) (p <> w) ≡ p
unfolding prefix_of
prefix_of-append String.[] w = refl
prefix_of-append (String.◌∷◌ c p) w =
    rw (cons-append c p w, count.cons c p) (ap (String.◌∷◌ c) (prefix_of-append p w))

skip-nil : (n : ℕ) → skip n "" ≡ ""
unfolding skip
skip-nil zero = refl
skip-nil (suc n) = refl

pub skip_add : (a b : ℕ) (s : String) → skip (a + b) s ≡ skip b (skip a s)
unfolding skip
skip_add zero b s = let same : 0 + b ≡ b = omega arith in ap (λ n. skip n s) same
skip_add (suc a) b String.[] =
    skip-nil (suc a + b) ∙ sym (ap (skip b) (skip-nil (suc a)) ∙ skip-nil b)
skip_add (suc a) b (String.◌∷◌ c s) =
    let same : suc a + b ≡ suc (a + b) = omega arith in
    ap (λ n. skip n (String.◌∷◌ c s)) same ∙ skip_add a b s

has_prefix-longer : (s t p : String) → count p ≤ count s → has_prefix (s <> t) p ≡ has_prefix s p
unfolding has_prefix
has_prefix-longer s t String.[] h = refl
has_prefix-longer String.[] t (String.◌∷◌ d p) h =
    let none_left = rw (count.cons d p) at h in absurd (omega (arith, none_left))
has_prefix-longer (String.◌∷◌ c s) t (String.◌∷◌ d p) h =
    let fits = rw (count.cons d p, count.cons c s) at h in
    rw (cons-append c s t)
      (ap (λ b. (code c == code d) && b) (has_prefix-longer s t p (omega (arith, fits))))

has_prefix-fits : (s p : String) → has_prefix s p ≡ true → count p ≤ count s
unfolding has_prefix
has_prefix-fits s String.[] h = omega arith
has_prefix-fits String.[] (String.◌∷◌ d p) h = cc h
has_prefix-fits (String.◌∷◌ c s) (String.◌∷◌ d p) h =
    let ih = has_prefix-fits s p (ground arith) in
    rw (count.cons d p, count.cons c s) (omega (arith, ih))

next_place-inv :
    (o : Option ℕ) (i : ℕ) → next_place o ≡ some i → (k : ℕ) × (o ≡ some k) × (i ≡ suc k)
unfolding next_place
next_place-inv none i h = cc h
next_place-inv (some k) i h = (k, refl, cc h)

index-nil : (t : String) → index t "" ≡ some 0
unfolding index has_prefix
index-nil String.[] = refl
index-nil (String.◌∷◌ c t) = refl

nil-only : (p : String) (i : ℕ) → index "" p ≡ some i → (p ≡ "") × (i ≡ 0)
unfolding index
nil-only p i h = elim (Bool-cases (str_eq p "")) [
  | inl e ↦ let zero = rw e at h in ((eq_iff p "").0 e, cc zero)
  | inr e ↦ let wrong = rw e at h in cc wrong
]

index-fits : (s p : String) (i : ℕ) → index s p ≡ some i → count p ≤ count s
unfolding index next_place
index-fits String.[] p i h = let e = (nil-only p i h).0 in omega (arith, ap count e)
index-fits (String.◌∷◌ c s) p i h = elim (Bool-cases (has_prefix (String.◌∷◌ c s) p)) [
  | inl e ↦ has_prefix-fits (String.◌∷◌ c s) p e
  | inr e ↦
      let (k, found, at) = next_place-inv (index s p) i (rw e at h) in
      let ih = index-fits s p k found in rw (count.cons c s) (omega (arith, ih))
]

-- A first occurrence stays the first when text is added behind.
pub index-append : (s t p : String) (i : ℕ) → index s p ≡ some i → index (s <> t) p ≡ some i
unfolding index next_place
index-append String.[] t p i h =
    let (none_left, start) = nil-only p i h in rw (nil-append t, none_left, start) (index-nil t)
index-append (String.◌∷◌ c s) t p i h =
    let longer : has_prefix (String.◌∷◌ c (s <> t)) p ≡ has_prefix (String.◌∷◌ c s) p =
      sym (ap (λ u. has_prefix u p) (cons-append c s t))
      ∙ has_prefix-longer (String.◌∷◌ c s) t p (index-fits (String.◌∷◌ c s) p i h) in
    rw (cons-append c s t) (elim (Bool-cases (has_prefix (String.◌∷◌ c s) p)) [
      | inl e ↦ let at = rw e at h in rw (longer, e) at
      | inr e ↦
          let (k, found, at) = next_place-inv (index s p) i (rw e at h) in
          rw (longer, e, index-append s t p k found, next_place) (ap some (sym at))
    ])

-- A last occurrence stays the last when text is added in front.
pub last_index-append :
    (s t p : String) (j : ℕ) → last_index t p ≡ some j → last_index (s <> t) p ≡ some (count s + j)
unfolding last_index
last_index-append String.[] t p j h =
    let same : 0 + j ≡ j = omega arith in rw (nil-append t) (h ∙ ap some (sym same))
last_index-append (String.◌∷◌ c s) t p j h =
    let same : suc (count s + j) ≡ count (String.◌∷◌ c s) + j = rw (count.cons c s) (omega arith) in
    rw (cons-append c s t, last_index, last_index-append s t p j h) (ap some same)

-- The first character that passes a test.
pub index_where-first :
    (test : ℕ → Bool) (s : String) (c : Char) (t : String)
    → free_of test s ≡ true
    → test (code c) ≡ true
    → index_where test (s <> String.◌∷◌ c t) ≡ some (count s)
unfolding index_where free_of next_place
index_where-first test String.[] c t h at = rw (nil-append (String.◌∷◌ c t), at) refl
index_where-first test (String.◌∷◌ d s) c t h at =
    let off : test (code d) ≡ false = ground arith in
    let ih = index_where-first test s c t (ground arith) at in
    rw (cons-append d s (String.◌∷◌ c t), off, ih, count.cons d s) refl

-- The first occurrence of one character.
pub index-one :
    (s : String) (d : Char) (t : String)
    → free_of (λ c. c == code d) s ≡ true
    → index (s <> String.◌∷◌ d t) (String.◌∷◌ d "") ≡ some (count s)
unfolding index free_of has_prefix next_place
index-one String.[] d t h =
    let at : code d == code d ≡ true = ground arith in rw (nil-append (String.◌∷◌ d t), at) refl
index-one (String.◌∷◌ c s) d t h =
    let off : code c == code d ≡ false = ground arith in
    let ih = index-one s d t (ground arith) in
    rw (cons-append c s (String.◌∷◌ d t), off, ih, count.cons c s) refl
