-- ===== src/Runner/Jail/Copy/Contents.antt =====
-- That the files of a template reach the jail that `seedFrom` of internal/runner/jail.go fills.
use goboxd.Base.{
  ℕ, String, Bool, true, false, List, [], ◌∷◌, Option, none, some, ◌≡◌, refl, ◌∙◌, ◌⊎◌, str_eq,
  eq_iff, arith, if◌then◌else◌, Bool-cases, inl, inr, subst, ap,
}
use goboxd.Runner.Jail.Copy.{
  Entry, file, Entries, end, entry, Files, find, set, removable, replace, copy_entry, copy_tree,
  seed_from,
}

find-set : (name : String) (e : Entry) (es : Entries) → find name (set name e es) ≡ some e
unfolding find set
find-set name e end =
    let same : str_eq name name ≡ true = ground (arith, eq_iff name name) in rw same refl
find-set name e (entry n f es) = elim (Bool-cases (str_eq n name)) [
  | inl same ↦ rw (same, same) refl
  | inr other ↦ rw (other, other) (find-set name e es)
]

find-set_other :
    (name other : String) (e : Entry) (es : Entries)
    → str_eq other name ≡ false
    → find name (set other e es) ≡ find name es
unfolding find set
find-set_other name other e end h = rw h refl
find-set_other name other e (entry n f es) h = elim (Bool-cases (str_eq n other)) [
  | inl same ↦
      let at : str_eq n name ≡ false =
        ground (arith, h, same, eq_iff n other, eq_iff n name, eq_iff other name) in
      rw (same, at) refl
  | inr apart ↦ rw apart (elim (Bool-cases (str_eq n name)) [
    | inl found ↦ rw found refl
    | inr lost ↦ rw lost (find-set_other name other e es h)
  ])
]

-- No two entries of a directory have the same name.
abbrev pub HasNames : Entries → Type 0
HasNames end = Unit
HasNames (entry name e es) = (find name es ≡ none) × HasNames es

-- What a copy leaves of an entry that it has no counterpart of.
copy_tree-other :
    (h : Files) (uid : ℕ) (path : List String) (name : String) (es ds : Entries) {r : Entries}
    → find name es ≡ none
    → copy_tree h uid path es ds ≡ some r
    → find name r ≡ find name ds
unfolding copy_tree find
copy_tree-other h uid path name end ds {r} absent e = let same : ds ≡ r = cc in rw same refl
copy_tree-other h uid path name (entry n f es) ds {r} absent e =
    by_copy (copy_entry h uid (n ∷ path) f (find n ds))
      (λ ds. copy_tree-other h uid path name es ds) e
  where
    apart : str_eq n name ≡ false
    apart = elim (Bool-cases (str_eq n name)) [
      | inl same ↦ cc (rw same at absent)
      | inr other ↦ other
    ]

    by_copy :
        (c : Option (Option Entry))
        → ((ds : Entries)
            → find name es ≡ none
            → copy_tree h uid path es ds ≡ some r
            → find name r ≡ find name ds)
        → (elim c [
          | none ↦ none
          | some none ↦ copy_tree h uid path es ds
          | some (some g) ↦ copy_tree h uid path es (set n g ds)
        ])
          ≡ some r
        → find name r ≡ find name ds
    by_copy none ih e = cc
    by_copy (some none) ih e = ih ds (rw apart at absent) e
    by_copy (some (some g)) ih e =
        ih (set n g ds) (rw apart at absent) e ∙ find-set_other name n g ds apart

replace-cases :
    (works : Bool) (old : Option Entry) (new : Entry)
    → (replace works old new ≡ none) ⊎ (replace works old new ≡ some (some new))
unfolding replace
replace-cases false old new = inl refl
replace-cases true old new = elim (Bool-cases (removable old)) [
  | inl free ↦ inr (rw free refl)
  | inr full ↦ inl (rw full refl)
]

-- The first entry of the template, a file.
copy_tree-first :
    (h : Files) (uid : ℕ) (path : List String) (name : String) (owner mode : ℕ) (text : String)
    (es ds : Entries) {r : Entries}
    → find name es ≡ none
    → copy_tree h uid path (entry name (file owner mode text) es) ds ≡ some r
    → find name r ≡ some (file uid mode text)
unfolding copy_tree copy_entry
copy_tree-first h uid path name owner mode text es ds {r} absent e =
    by_copy (replace (h.works (name ∷ path)) (find name ds) (file uid mode text))
      (replace-cases (h.works (name ∷ path)) (find name ds) (file uid mode text)) e
  where
    by_copy :
        (c : Option (Option Entry))
        → (c ≡ none) ⊎ (c ≡ some (some (file uid mode text)))
        → (elim c [
          | none ↦ none
          | some none ↦ copy_tree h uid path es ds
          | some (some g) ↦ copy_tree h uid path es (set name g ds)
        ])
          ≡ some r
        → find name r ≡ some (file uid mode text)
    by_copy none made e = cc
    by_copy (some none) (inl made) e = cc
    by_copy (some none) (inr made) e = cc
    by_copy (some (some g)) (inl made) e = cc
    by_copy (some (some g)) (inr made) e =
        copy_tree-other h uid path name es (set name g ds) absent e
        ∙ find-set name g ds
        ∙ (let same : g ≡ file uid mode text = cc in ap (λ g. some g) same)

copy_tree-file :
    (h : Files) (uid : ℕ) (path : List String) (name : String) (owner mode : ℕ) (text : String)
    (es ds : Entries) {r : Entries}
    → HasNames es
    → find name es ≡ some (file owner mode text)
    → copy_tree h uid path es ds ≡ some r
    → find name r ≡ some (file uid mode text)
unfolding copy_tree find
copy_tree-file h uid path name owner mode text end ds names at e = cc
copy_tree-file h uid path name owner mode text (entry n f es) ds {r} names at e =
    by_name (Bool-cases (str_eq n name))
      (λ ds. copy_tree-file h uid path name owner mode text es ds names.1)
  where
    by_copy :
        (c : Option (Option Entry))
        → ((ds : Entries)
            → find name es ≡ some (file owner mode text)
            → copy_tree h uid path es ds ≡ some r
            → find name r ≡ some (file uid mode text))
        → find name es ≡ some (file owner mode text)
        → (elim c [
          | none ↦ none
          | some none ↦ copy_tree h uid path es ds
          | some (some g) ↦ copy_tree h uid path es (set n g ds)
        ])
          ≡ some r
        → find name r ≡ some (file uid mode text)
    by_copy none ih there e = cc
    by_copy (some none) ih there e = ih ds there e
    by_copy (some (some g)) ih there e = ih (set n g ds) there e

    by_name :
        (str_eq n name ≡ true) ⊎ (str_eq n name ≡ false)
        → ((ds : Entries)
            → find name es ≡ some (file owner mode text)
            → copy_tree h uid path es ds ≡ some r
            → find name r ≡ some (file uid mode text))
        → find name r ≡ some (file uid mode text)
    by_name (inl same) ih =
        let first : some f ≡ some (file owner mode text) = rw same at at in
        let is_file : f ≡ file owner mode text = cc in
        let is_name : n ≡ name = (eq_iff n name).0 same in
        subst (λ m. find m r ≡ some (file uid mode text)) is_name
          (copy_tree-first h uid path n owner mode text es ds names.0
            (subst (λ g. copy_tree h uid path (entry n g es) ds ≡ some r) is_file e))
    by_name (inr apart) ih =
        by_copy (copy_entry h uid (n ∷ path) f (find n ds)) ih (rw apart at at) e

-- A file of the template, such as the artifact of the build, reaches the jail: after a copy that
-- succeeds it stands there under its name with its mode and its text, and belongs to the jail's uid.
pub seed_from-file :
    (h : Files) (uid : ℕ) (name : String) (owner mode : ℕ) (text : String) (template app : Entries)
    {r : Entries}
    → HasNames template
    → find name template ≡ some (file owner mode text)
    → seed_from h uid template app ≡ some r
    → find name r ≡ some (file uid mode text)
unfolding seed_from
seed_from-file h uid name owner mode text template app {r} names found e = by_root (h.works []) e
  where
    by_root :
        (works : Bool)
        → (if works then copy_tree h uid [] template app else none) ≡ some r
        → find name r ≡ some (file uid mode text)
    by_root false e = cc
    by_root true e = copy_tree-file h uid [] name owner mode text template app names found e
