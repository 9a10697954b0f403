-- ===== src/Cgroup/Written.antt =====
-- The counters of a jail's cgroup, internal/cgroupv2/cgroupv2.go, are read back from the files as the
-- kernel writes them: one line for each counter, its key and its number.
use goboxd.Base.{
  ℕ, ◌+◌, ◌%◌, ◌<◌, ◌≤◌, pos, String, true, false, ◌&&◌, List, [], ◌∷◌, map, Option, none, some,
  str_eq, leb, ◌==◌, decimal, ◌<>◌, ◌≡◌, ◌≢◌, refl, ap, ◌∙◌, inl, inr, arith, All, Bool-cases,
  max_int, if◌then◌else◌, lt→ltb,
}
use goboxd.Base.Strings.{split, fields_func, fields_from, has_prefix, is_space}
use goboxd.Base.Numerals.{read_number-decimal, all_digits-decimal, decimal-ne-nil, atoi-decimal}
use goboxd.Base.Fields.{
  fields, free_of, free_of-append, free_of-digits, fields_func-two, split-first,
}
use goboxd.Cgroup.{
  Entry, Files, uint_range, parse_uint, value_of, add_kills, add_entry, add_entries, oom_kills,
  find_usage, cpu_usage_us,
}

-- One counter as the kernel writes it.
abbrev counter_line : String × ℕ → String
counter_line (k, n) = k <> String.◌∷◌ " " (decimal n)

abbrev pub written : List (String × ℕ) → String
written [] = ""
written (row ∷ rows) = counter_line row <> String.◌∷◌ "\n" (written rows)

-- A key is a word, and a counter fits in 64 bits.
pub record IsCounter (row : String × ℕ) : Type 0 where
  pub word : free_of is_space row.0 ≡ true
  pub named : row.0 ≢ ""
  pub fits : row.1 < uint_range

digits_apart : (c : ℕ) → is_space c ≡ true → (leb b'0' c && leb c b'9') ≡ false
unfolding is_space
digits_apart c h = ground arith

newline_apart : (c : ℕ) → (c == 10) ≡ true → (leb b'0' c && leb c b'9') ≡ false
newline_apart c h = ground arith

free_of-newline : (s : String) → free_of is_space s ≡ true → free_of (λ c. c == b'\n') s ≡ true
unfolding free_of is_space
free_of-newline String.[] h = refl
free_of-newline (String.◌∷◌ c s) h = ground (arith, free_of-newline s)

fields-counter_line :
    (k : String) (n : ℕ)
    → free_of is_space k ≡ true
    → k ≢ ""
    → fields (counter_line (k, n)) ≡ k ∷ decimal n ∷ []
unfolding is_space
fields-counter_line k n word named =
    fields_func-two is_space " " k (decimal n) refl word
      (free_of-digits is_space (decimal n) digits_apart (all_digits-decimal n)) named
      (decimal-ne-nil n)

free_of-counter_line :
    (k : String) (n : ℕ)
    → free_of is_space k ≡ true
    → free_of (λ c. c == b'\n') (counter_line (k, n)) ≡ true
unfolding free_of
free_of-counter_line k n word =
    let value = free_of-digits (λ c. c == b'\n') (decimal n) newline_apart (all_digits-decimal n) in
    free_of-append (λ c. c == b'\n') k (String.◌∷◌ " " (decimal n))
    ∙ rw (free_of-newline k word, value) refl

-- The lines of a file: those of its counters, and the empty rest.
split-written :
    (k : String) (n : ℕ) (rows : List (String × ℕ))
    → free_of is_space k ≡ true
    → split b'\n' (written ((k, n) ∷ rows)) ≡ counter_line (k, n) ∷ split b'\n' (written rows)
split-written k n rows word =
    split-first b'\n' "\n" (counter_line (k, n)) (written rows) refl (free_of-counter_line k n word)

parse_uint-decimal : (n : ℕ) → n < uint_range → parse_uint (decimal n) ≡ some n
unfolding parse_uint
parse_uint-decimal n h = rw (parse_uint, read_number-decimal n, lt→ltb n uint_range h) refl

-- The kills that the counters report.
abbrev pub kills : List (String × ℕ) → ℕ
kills [] = 0
kills ((k, n) ∷ rows) = let rest = kills rows in if str_eq k "oom_kill" then n + rest else rest

-- The empty text after the last newline.
add_kills-end : (total : ℕ) → add_kills total (split b'\n' "") ≡ some total
unfolding add_kills split fields_func fields_from value_of
add_kills-end total = refl

add_kills-written :
    (total : ℕ) (rows : List (String × ℕ))
    → All IsCounter rows
    → total < uint_range
    → add_kills total (split b'\n' (written rows)) ≡ some ((total + kills rows) % uint_range)
unfolding add_kills value_of
add_kills-written total [] h t =
    let same : total ≡ (total + 0) % uint_range = omega arith in add_kills-end total ∙ ap some same
add_kills-written total ((k, n) ∷ rows) (row, h) t =
    let lines = split-written k n rows row.word in
    let words = fields-counter_line k n row.word row.named in
    elim (Bool-cases (str_eq k "oom_kill")) [
      | inl e ↦
          let rest = add_kills-written ((total + n) % uint_range) rows h (omega arith) in
          let same : ((total + n) % uint_range + kills rows) % uint_range
              ≡ (total + (n + kills rows)) % uint_range =
            omega arith in
          rw (lines, add_kills, words, e, parse_uint-decimal n row.fits) (rest ∙ ap some same)
      | inr e ↦ rw (lines, add_kills, words, e) (add_kills-written total rows h t)
    ]

-- An entry as the kernel and nsjail leave it; `none` is one whose events cannot be read.
abbrev pub written_entry : String × Option (List (String × ℕ)) → Entry
written_entry (name, none) = record { name = name; events = none }
written_entry (name, some rows) = record { name = name; events = some (written rows) }

-- The kills of all leaves of nsjail that can be read.
abbrev pub all_kills : List (String × Option (List (String × ℕ))) → ℕ
all_kills [] = 0
all_kills ((name, none) ∷ es) = all_kills es
all_kills ((name, some rows) ∷ es) =
    let rest = all_kills es in if has_prefix name "NSJAIL." then kills rows + rest else rest

abbrev pub AreCounters : String × Option (List (String × ℕ)) → Type 0
AreCounters (name, none) = Unit
AreCounters (name, some rows) = All IsCounter rows

add_entries-written :
    (total : ℕ) (es : List (String × Option (List (String × ℕ))))
    → All AreCounters es
    → total < uint_range
    → add_entries total (map written_entry es) ≡ some ((total + all_kills es) % uint_range)
unfolding add_entries has_prefix
add_entries-written total [] h t =
    let same : total ≡ (total + 0) % uint_range = omega arith in ap some same
add_entries-written total ((name, none) ∷ es) (row, h) t =
    elim (Bool-cases (has_prefix name "NSJAIL.")) [
      | inl e ↦ rw (add_entry, e) (add_entries-written total es h t)
      | inr e ↦ rw (add_entry, e) (add_entries-written total es h t)
    ]
add_entries-written total ((name, some rows) ∷ es) (row, h) t =
    elim (Bool-cases (has_prefix name "NSJAIL.")) [
      | inl e ↦
          let rest = add_entries-written ((total + kills rows) % uint_range) es h (omega arith) in
          let same : ((total + kills rows) % uint_range + all_kills es) % uint_range
              ≡ (total + (kills rows + all_kills es)) % uint_range =
            omega arith in
          rw (add_entry, e, add_kills-written total rows row t) (rest ∙ ap some same)
      | inr e ↦ rw (add_entry, e) (add_entries-written total es h t)
    ]

-- The OOM kills that the kernel has written in the leaves of nsjail are added up, in 64 bits; other
-- entries and counters do not count.
pub oom_kills-written :
    (es : List (String × Option (List (String × ℕ)))) (cpu peak : Option String)
    → All AreCounters es
    → oom_kills
        (record { entries = some (map written_entry es); cpu_stat = cpu; memory_peak = peak })
      ≡ some (all_kills es % uint_range)
unfolding oom_kills
oom_kills-written es cpu peak h =
    let same : (0 + all_kills es) % uint_range ≡ all_kills es % uint_range = omega arith in
    add_entries-written 0 es h (omega arith) ∙ ap some same

word-usage_usec : free_of is_space "usage_usec" ≡ true
unfolding free_of is_space
word-usage_usec = refl

-- The usage that the kernel writes first in `cpu.stat` is read back.
pub cpu_usage_us-written :
    (n : ℕ) (rows : List (String × ℕ)) (f : Files)
    → n ≤ max_int
    → f.cpu_stat ≡ some (written (("usage_usec", n) ∷ rows))
    → cpu_usage_us f ≡ some (pos n)
unfolding cpu_usage_us value_of
cpu_usage_us-written n rows f h stat =
    let lines = split-written "usage_usec" n rows word-usage_usec in
    let words = fields-counter_line "usage_usec" n word-usage_usec (λ e. cc e) in
    rw (cpu_usage_us, stat, lines, find_usage, words) (atoi-decimal n h)
