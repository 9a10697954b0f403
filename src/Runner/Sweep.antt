-- ===== src/Runner/Sweep.antt =====
-- The sweeps of old directories, `sweepJails`, `SweepOrphans`, `SweepAllJails` and `SweepCaches` of
-- internal/runner/runner.go. A directory is the list of its entries, with what the calls for each give.
use mathlib.Core.List.{Memᴰ}
use goboxd.Base.{
  ℤ, pos, ltb_ℤ, String, Bool, true, false, List, [], ◌∷◌, Option, none, some, ◌<>◌, ◌≡◌, ◌↔◌, ◌⊎◌,
  inl, inr, refl, arith, if◌then◌else◌, ◌&&◌, ◌||◌, ◌*◌, eqb_ℤ, Bool-cases, subst, sym,
}
use goboxd.Base.Strings.{has_prefix}

-- `age` is `now.Sub(info.ModTime())` in nanoseconds, where `e.Info()` does not fail, and `removal` the
-- error of os.RemoveAll.
pub record Entry : Type 0 where
  pub name : String
  pub age : Option ℤ
  pub removal : Option String

-- The entries, and the error of os.ReadDir: whether it is that there is no such directory, and its text.
pub record Dir : Type 0 where
  pub unread : Option (Bool × String)
  pub entries : List Entry

-- The entries that are left, and what is written to the standard error.
pub record Swept : Type 0 where
  pub left : List Entry
  pub log : List String

-- An entry that the loop removes if it can: its name begins with a prefix, and its age is enough.
unfoldable pub is_stale : String → (ℤ → Bool) → Entry → Bool
is_stale prefix old e = has_prefix e.name prefix && elim e.age [ none ↦ false | some a ↦ old a ]

unfoldable pub remove_stale : String → String → Entry → Swept → Swept
remove_stale sweep dir e rest = elim e.removal [
  | none ↦ rest
  | some m ↦ record {
    left = e ∷ rest.left;
    log = (sweep <> ": removing " <> dir <> "/" <> e.name <> ": " <> m <> "\n") ∷ rest.log;
  }
]

-- The loop over the entries.
unfoldable pub sweep_entries : String → String → String → (ℤ → Bool) → List Entry → Swept
unfolding is_stale remove_stale
sweep_entries sweep dir prefix old [] = record { left = []; log = [] }
sweep_entries sweep dir prefix old (e ∷ es) =
    let rest = sweep_entries sweep dir prefix old es in
    if is_stale prefix old e
    then remove_stale sweep dir e rest
    else record rest { left = e ∷ rest.left }

-- `sweepJails` in a temp dir, with the least age in nanoseconds.
unfoldable pub sweep_jails : String → ℤ → Dir → Swept
unfolding sweep_entries
sweep_jails temp min_age d = elim d.unread [
  | some p ↦ record {
    left = d.entries;
    log = ("jail sweep: reading temp dir: " <> p.1 <> "\n") ∷ [];
  }
  | none ↦ sweep_entries "jail sweep" temp "goboxd-jail-" (ltb_ℤ min_age) d.entries
]

abbrev pub sweep_orphans : String → Dir → Swept
sweep_orphans temp d = sweep_jails temp (pos (30 * 60 * 1000000000)) d

abbrev pub sweep_all_jails : String → Dir → Swept
sweep_all_jails temp d = sweep_jails temp (pos 0) d

-- `SweepCaches`
unfoldable pub sweep_caches : ℤ → Dir → Swept
unfolding sweep_entries
sweep_caches max_age d = elim d.unread [
  | some p ↦ record {
    left = d.entries;
    log = if p.0 then [] else ("cache sweep: reading /var/cache/goboxd: " <> p.1 <> "\n") ∷ [];
  }
  | none ↦
      sweep_entries "cache sweep" "/var/cache/goboxd" "uid-"
        (λ a. eqb_ℤ max_age (pos 0) || ltb_ℤ max_age a) d.entries
]

-- Why an entry of a directory stays there: its name, its age, or the failure of a call.
abbrev pub Stays : String → (ℤ → Bool) → Entry → Type 0
Stays prefix old e =
    (has_prefix e.name prefix ≡ false)
    ⊎ (e.age ≡ none)
    ⊎ ((a : ℤ) × (e.age ≡ some a) × (old a ≡ false))
    ⊎ ((m : String) × (e.removal ≡ some m))

-- Whether an entry stays, by the tests of the loop.
data Kept (prefix : String) (old : ℤ → Bool) (e : Entry) : Type 0 where
  fresh : is_stale prefix old e ≡ false → Stays prefix old e → Kept prefix old e
  stuck : (m : String) → is_stale prefix old e ≡ true → e.removal ≡ some m → Kept prefix old e
  gone : is_stale prefix old e ≡ true → e.removal ≡ none → ¬ Stays prefix old e → Kept prefix old e

kept : (prefix : String) (old : ℤ → Bool) (e : Entry) → Kept prefix old e
unfolding is_stale
kept prefix old e = elim (Bool-cases (has_prefix e.name prefix)) [
  | inr foreign ↦ fresh (ground (arith, foreign)) (inl foreign)
  | inl ours ↦ by_age e.age refl ours
]
  where
    by_removal :
        (a : ℤ)
        → e.age ≡ some a
        → old a ≡ true
        → has_prefix e.name prefix ≡ true
        → (r : Option String) → e.removal ≡ r
        → Kept prefix old e
    by_removal a aged is_old ours (some m) r = stuck m (rw (is_stale, ours, aged, is_old)) r
    by_removal a aged is_old ours none r = gone (rw (is_stale, ours, aged, is_old)) r λ stays.
        elim stays [
          | inl foreign ↦ cc (foreign, ours)
          | inr (inl unknown) ↦ cc (unknown, aged)
          | inr (inr (inl (b, aged', young))) ↦ cc (aged, aged', is_old, young)
          | inr (inr (inr (m, failed))) ↦ cc (failed, r)
        ]

    by_age : (a : Option ℤ) → e.age ≡ a → has_prefix e.name prefix ≡ true → Kept prefix old e
    by_age none unknown ours = fresh (rw (is_stale, ours, unknown)) (inr (inl unknown))
    by_age (some a) aged ours = elim (Bool-cases (old a)) [
      | inl is_old ↦ by_removal a aged is_old ours e.removal refl
      | inr young ↦ fresh (rw (is_stale, ours, aged, young)) (inr (inr (inl (a, aged, young))))
    ]

module _ (sweep dir prefix : String) (old : ℤ → Bool) where
  left_of : List Entry → List Entry
  left_of es = (sweep_entries sweep dir prefix old es).left

  -- The loop keeps its first entry, or passes over it.
  sweep_entries-∷ :
      (e : Entry) (es : List Entry)
      → ((left_of (e ∷ es) ≡ e ∷ left_of es) × Stays prefix old e)
        ⊎ ((left_of (e ∷ es) ≡ left_of es) × ¬ Stays prefix old e)
  unfolding left_of sweep_entries
  sweep_entries-∷ e es = by_test (kept prefix old e)
    where
      by_test :
          Kept prefix old e
          → ((left_of (e ∷ es) ≡ e ∷ left_of es) × Stays prefix old e)
            ⊎ ((left_of (e ∷ es) ≡ left_of es) × ¬ Stays prefix old e)
      by_test (fresh young stays) = inl (rw (left_of, sweep_entries, young), stays)
      by_test (stuck m stale r) =
          inl (simp (left_of, sweep_entries, stale, remove_stale, r), inr (inr (inr (m, r))))
      by_test (gone stale r leaves) =
          inr (rw (left_of, sweep_entries, stale, remove_stale, r), leaves)

  sweep_entries-left :
      (es : List Entry) (e : Entry) → Memᴰ e (left_of es) ↔ Memᴰ e es × Stays prefix old e
  unfolding left_of sweep_entries
  sweep_entries-left [] e = (λ m. elim m [ ], λ m. elim m.0 [ ])
  sweep_entries-left (x ∷ xs) e = by_step (sweep_entries-∷ x xs) (sweep_entries-left xs e)
    where
      by_step :
          ((left_of (x ∷ xs) ≡ x ∷ left_of xs) × Stays prefix old x)
            ⊎ ((left_of (x ∷ xs) ≡ left_of xs) × ¬ Stays prefix old x)
          → Memᴰ e (left_of xs) ↔ Memᴰ e xs × Stays prefix old e
          → Memᴰ e (left_of (x ∷ xs)) ↔ Memᴰ e (x ∷ xs) × Stays prefix old e
      by_step (inl (l, stays)) later =
          (λ m. forth (subst (Memᴰ e) l m), λ m. subst (Memᴰ e) (sym l) (back m.0 m.1))
        where
          forth : Memᴰ e (x ∷ left_of xs) → Memᴰ e (x ∷ xs) × Stays prefix old e
          forth (Memᴰ.head same) = (Memᴰ.head same, subst (Stays prefix old) (sym same) stays)
          forth (Memᴰ.tail m) = let a = later.0 m in (Memᴰ.tail a.0, a.1)

          back : Memᴰ e (x ∷ xs) → Stays prefix old e → Memᴰ e (x ∷ left_of xs)
          back (Memᴰ.head same) s = Memᴰ.head same
          back (Memᴰ.tail m) s = Memᴰ.tail (later.1 (m, s))
      by_step (inr (l, leaves)) later = (
        λ m. let a = later.0 (subst (Memᴰ e) l m) in (Memᴰ.tail a.0, a.1),
        λ m. subst (Memᴰ e) (sym l) (back m.0 m.1),
      )
        where
          back : Memᴰ e (x ∷ xs) → Stays prefix old e → Memᴰ e (left_of xs)
          back (Memᴰ.head same) s = elim (leaves (subst (Stays prefix old) same s)) [ ]
          back (Memᴰ.tail m) s = later.1 (m, s)

-- `sweepJails` removes exactly what it is for: where the temp dir can be read, an entry is still there
-- if and only if it was there before and its name does not begin with goboxd-jail-, its age cannot be
-- read or is not more than the least age, or its removal failed; and `SweepCaches` the same for uid-,
-- every age being enough where the greatest age is 0.
pub sweep_jails-left_iff :
    (temp : String) (age : ℤ) (d : Dir) (e : Entry)
    → d.unread ≡ none
    → (Memᴰ e (sweep_jails temp age d).left ↔ Memᴰ e d.entries × Stays "goboxd-jail-" (ltb_ℤ age) e)
      × (Memᴰ e (sweep_caches age d).left
          ↔ Memᴰ e d.entries × Stays "uid-" (λ a. eqb_ℤ age (pos 0) || ltb_ℤ age a) e)
unfolding sweep_jails sweep_caches left_of
sweep_jails-left_iff temp age d e readable = (
  subst (λ (l : List Entry). Memᴰ e l ↔ Memᴰ e d.entries × Stays "goboxd-jail-" (ltb_ℤ age) e)
      (sym (rw (sweep_jails, readable)))
      (sweep_entries-left "jail sweep" temp "goboxd-jail-" (ltb_ℤ age) d.entries e),
  subst
      (λ (l : List Entry).
        Memᴰ e l ↔ Memᴰ e d.entries × Stays "uid-" (λ a. eqb_ℤ age (pos 0) || ltb_ℤ age a) e)
      (sym (rw (sweep_caches, readable)))
      (sweep_entries-left "cache sweep" "/var/cache/goboxd" "uid-"
        (λ a. eqb_ℤ age (pos 0) || ltb_ℤ age a) d.entries e),
)
