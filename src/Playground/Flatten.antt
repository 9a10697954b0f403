-- ===== src/Playground/Flatten.antt =====
-- `flattenPresets` of playground/src/App.tsx: the presets of a language under distinct names, and
-- the look-up by which the preset menu finds one again.
pub mod Unique
use goboxd.Base.{
  ℕ, zero, suc, String, List, [], ◌∷◌, ◌++◌, map, Option, none, some, Bool, has, str_eq, ◌<>◌,
  decimal, length, if◌then◌else◌,
}
use goboxd.Playground.Languages.{lookup}
use goboxd.Playground.Presets.{Preset}

pub record Entry : Type 0 where
  pub name : String
  pub preset : Preset

abbrev pub names : List Entry → List String
names = map (λ r. r.name)

-- `p.label + ' (' + idx + ')'`
abbrev pub numbered : String → ℕ → String
numbered label idx = label <> " (" <> decimal idx <> ")"

-- `while (result.some(r => r.name === name)) name = p.label + ' (' + (++idx) + ')';`
-- `none` means that the fuel ran out.
unfoldable pub free_name : ℕ → List String → String → String → ℕ → Option String
free_name zero taken label name idx = none
free_name (suc fuel) taken label name idx =
    let rest = free_name fuel taken label (numbered label (suc idx)) (suc idx) in
    if has name taken then rest else some name

-- The loop of `flattenPresets`; the `while` gets two rounds more than there are names.
unfoldable pub flatten_from : List Entry → List Preset → Option (List Entry)
flatten_from result [] = some result
flatten_from result (p ∷ ps) =
    elim (free_name (suc (suc (length result))) (names result) p.label p.label 1) [
      | none ↦ none
      | some name ↦ flatten_from (result ++ record { name = name; preset = p } ∷ []) ps
    ]

-- `ps[lang] || []`
abbrev pub presets_of : List (String × List Preset) → String → List Preset
presets_of ps lang = elim (lookup lang ps) [ none ↦ [] | some l ↦ l ]

unfoldable pub flatten_presets : List (String × List Preset) → String → Option (List Entry)
flatten_presets ps lang = flatten_from [] (presets_of ps lang)

-- `flatPresets.find(x => x.name === e.target.value)`
unfoldable pub find_entry : String → List Entry → Option Entry
find_entry name [] = none
find_entry name (r ∷ rs) = if str_eq r.name name then some r else find_entry name rs
