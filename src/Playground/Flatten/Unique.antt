-- ===== src/Playground/Flatten/Unique.antt =====
-- The names that `flattenPresets` of playground/src/App.tsx gives.
use text.Mathlib.TextLemmas.{append_cancel_left, append_cancel_right}
use mathlib.Core.List.{append-nil, append_assoc, map-append}
use goboxd.Base.{
  ℕ, zero, suc, ◌≤◌, ◌<◌, String, List, [], ◌∷◌, ◌++◌, map, some, true, false, ◌||◌, ◌≡◌, ◌≢◌, refl,
  sym, ◌∙◌, inl, inr, has, str_eq, decimal, decimal_injective, length, get_elem?, length-map,
  if◌then◌else◌, arith, Bool-cases, eq_iff,
}
use goboxd.Playground.Presets.{Preset}
use goboxd.Playground.Flatten.{
  Entry, names, numbered, free_name, flatten_from, presets_of, flatten_presets, find_entry,
}

-- A list of texts with every copy of one taken out.
without : String → List String → List String
without s [] = []
without s (t ∷ ts) = let rest = without s ts in if str_eq t s then rest else t ∷ rest

length-without-le : (s : String) (ts : List String) → length (without s ts) ≤ length ts
unfolding without
length-without-le s [] = omega arith
length-without-le s (t ∷ ts) = ground (arith, length-without-le s ts)

length-without-lt :
    (s : String) (ts : List String) → has s ts ≡ true → length (without s ts) < length ts
unfolding without
length-without-lt s [] h = cc
length-without-lt s (t ∷ ts) h = ground (arith, length-without-le s ts, length-without-lt s ts)

has-without_ne : (s u : String) (ts : List String) → s ≢ u → has u (without s ts) ≡ has u ts
unfolding without
has-without_ne s u [] h = refl
has-without_ne s u (t ∷ ts) h = ground (arith, eq_iff t s, eq_iff t u, has-without_ne s u ts h)

-- Different counters give different names.
numbered_injective : (label : String) (i j : ℕ) → numbered label i ≡ numbered label j → i ≡ j
numbered_injective label i j e = decimal_injective i j (
    append_cancel_right (decimal i) (decimal j) ")"
      (append_cancel_left " (" _ _ (append_cancel_left label _ _ e)))

numbered_ne : (label : String) (i j : ℕ) → i < j → numbered label i ≢ numbered label j
numbered_ne label i j h e = omega (arith, numbered_injective label i j e)

-- A round of the loop whose name is taken leaves one text less for the rounds to come.
free_name_at :
    (fuel : ℕ) (taken few : List String) (label : String) (idx : ℕ)
    → ((j : ℕ) → idx ≤ j → has (numbered label j) taken ≡ has (numbered label j) few)
    → length few < fuel
    → (n : String) × (free_name fuel taken label (numbered label idx) idx ≡ some n)
      × (has n taken ≡ false)
unfolding free_name
free_name_at zero taken few label idx h lt = absurd (omega arith)
free_name_at (suc fuel) taken few label idx h lt =
    elim (Bool-cases (has (numbered label idx) taken)) [
      | inl used ↦
          let here : has (numbered label idx) few ≡ true = sym (h idx (omega arith)) ∙ used in
          rw used (
            free_name_at fuel taken (without (numbered label idx) few) label (suc idx)
              (λ j lt'.
                h j (omega arith)
                ∙ sym (
                    has-without_ne (numbered label idx) (numbered label j) few
                      (numbered_ne label idx j lt')))
              (omega (arith, length-without-lt (numbered label idx) few here)))
      | inr free ↦ (numbered label idx, rw free, free)
    ]

-- The loop ends within its fuel, at a name that is not taken.
free_name_total :
    (taken : List String) (label : String)
    → (n : String) × (free_name (suc (suc (length taken))) taken label label 1 ≡ some n)
      × (has n taken ≡ false)
unfolding free_name
free_name_total taken label = elim (Bool-cases (has label taken)) [
  | inl used ↦
      rw used (free_name_at (suc (length taken)) taken taken label 2 (λ j h. refl) (omega arith))
  | inr free ↦ (label, rw free, free)
]

abbrev pub Distinct : List String → Type 0
Distinct [] = Unit
Distinct (s ∷ ss) = (has s ss ≡ false) × Distinct ss

has-append : (s : String) (ss ts : List String) → has s (ss ++ ts) ≡ (has s ss || has s ts)
has-append s [] ts = refl
has-append s (u ∷ ss) ts = ground (arith, has-append s ss ts)

Distinct-concat :
    (ss : List String) (s : String) → Distinct ss → has s ss ≡ false → Distinct (ss ++ s ∷ [])
Distinct-concat [] s d h = (refl, tt)
Distinct-concat (t ∷ ss) s (new, d) h = (
  ground (arith, has-append t ss (s ∷ []), eq_iff s t, eq_iff t s),
  Distinct-concat ss s d (ground arith),
)

flatten_from_lem :
    (result : List Entry) (ps : List Preset)
    → Distinct (names result)
    → (r : List Entry) × (flatten_from result ps ≡ some r)
      × Distinct (names r)
      × (map (λ e. e.preset) r ≡ map (λ e. e.preset) result ++ ps)
unfolding flatten_from
flatten_from_lem result [] d = (result, refl, d, sym (append-nil _))
flatten_from_lem result (p ∷ ps) d =
    let (n, e, unused) = free_name_total (names result) p.label in
    let e' : free_name (suc (suc (length result))) (names result) p.label p.label 1 ≡ some n =
      rw (length-map (λ r. r.name) result) at e in
    let entry : Entry = record { name = n; preset = p } in
    let (r, f, d', m) = flatten_from_lem (result ++ entry ∷ []) ps (
      rw (map-append (λ x. x.name) result (entry ∷ []))
        (Distinct-concat (names result) n d unused)) in
    (
      r,
      rw (e', flatten_from) f,
      d',
      m ∙ rw (map-append (λ x. x.preset) result (entry ∷ [])) (append_assoc _ (p ∷ []) ps),
    )

-- The presets of a language are all listed, in their order, under names that are all different;
-- so the renaming loop always ends.
pub flatten_presets-Distinct :
    (ps : List (String × List Preset)) (lang : String)
    → (r : List Entry) × (flatten_presets ps lang ≡ some r)
      × Distinct (names r)
      × (map (λ e. e.preset) r ≡ presets_of ps lang)
unfolding flatten_presets
flatten_presets-Distinct ps lang = flatten_from_lem [] (presets_of ps lang) tt

has-names :
    (rs : List Entry) (i : ℕ) {r : Entry} → get_elem? rs i ≡ some r → has r.name (names rs) ≡ true
has-names [] i e = cc
has-names (x ∷ rs) zero {r} e = ground (arith, eq_iff x.name r.name)
has-names (x ∷ rs) (suc i) {r} e = ground (arith, has-names rs i e)

find_entry-get_elem? :
    (rs : List Entry) (i : ℕ) {r : Entry}
    → Distinct (names rs)
    → get_elem? rs i ≡ some r
    → find_entry r.name rs ≡ some r
unfolding find_entry
find_entry-get_elem? [] i d e = cc
find_entry-get_elem? (x ∷ rs) zero {r} d e = ground (arith, eq_iff x.name r.name)
find_entry-get_elem? (x ∷ rs) (suc i) {r} (new, d) e =
    ground (arith, eq_iff x.name r.name, has-names rs i e, find_entry-get_elem? rs i d e)

-- Choosing an entry of the preset menu by its name finds that entry and no other.
pub find_entry-flatten_presets :
    (ps : List (String × List Preset)) (lang : String) (rs : List Entry) (i : ℕ) (r : Entry)
    → flatten_presets ps lang ≡ some rs
    → get_elem? rs i ≡ some r
    → find_entry r.name rs ≡ some r
find_entry-flatten_presets ps lang rs i r flat at =
    let (qs, e, d, _) = flatten_presets-Distinct ps lang in
    let same : qs ≡ rs = ground arith in find_entry-get_elem? rs i (rw (← same) d) at
