-- ===== src/Cgroup.antt =====
-- internal/cgroupv2/cgroupv2.go: what the runner reads from the cgroup of a jail, `PeakKB`,
-- `CPUUsageUS`, `OOMKills` and `OOMKillsSince`. The files are as they stand at one moment.
pub mod Written
pub mod Manager
pub mod Tree
use goboxd.Base.{
  ℕ, ◌+◌, ◌/◌, ◌%◌, ◌^◌, ℤ, pos, negsuc, String, Bool, true, false, List, [], ◌∷◌, Option, none,
  some, str_eq, ltb, atoi, read_number, if◌then◌else◌,
}
use goboxd.Base.Strings.{split, trim_space, has_prefix}
use goboxd.Base.Fields.{fields}

-- A name in the jail's directory, with its `memory.events` where that can be read.
pub record Entry : Type 0 where
  pub name : String
  pub events : Option String

-- The directory of a jail's cgroup; `none` is what cannot be read.
pub record Files : Type 0 where
  pub entries : Option (List Entry)
  pub cpu_stat : Option String
  pub memory_peak : Option String

abbrev pub uint_range : ℕ
uint_range = 2 ^ 64

-- `strconv.ParseUint(s, 10, 64)`
unfoldable pub parse_uint : String → Option ℕ
parse_uint s = elim (read_number s) [
  | none ↦ none
  | some n ↦ if ltb n uint_range then some n else none
]

-- The value of a line of two words, if the first is the key.
unfoldable pub value_of : String → List String → Option String
value_of key (k ∷ v ∷ []) = if str_eq k key then some v else none
value_of key _ = none

-- The inner loop of `OOMKills`, over the lines of one file.
unfoldable pub add_kills : ℕ → List String → Option ℕ
unfolding value_of parse_uint
add_kills total [] = some total
add_kills total (line ∷ lines) = elim (value_of "oom_kill" (fields line)) [
  | none ↦ add_kills total lines
  | some v ↦ elim (parse_uint v) [
    | none ↦ none
    | some n ↦ add_kills ((total + n) % uint_range) lines
  ]
]

-- The body of the outer loop, for one entry.
unfoldable pub add_entry : ℕ → Entry → Option ℕ
unfolding add_kills
add_entry total e =
    if has_prefix e.name "NSJAIL."
    then elim e.events [ none ↦ some total | some text ↦ add_kills total (split b'\n' text) ]
    else some total

unfoldable pub add_entries : ℕ → List Entry → Option ℕ
unfolding add_entry
add_entries total [] = some total
add_entries total (e ∷ es) = elim (add_entry total e) [
  | none ↦ none
  | some total' ↦ add_entries total' es
]

-- `OOMKills`; `none` is its error.
unfoldable pub oom_kills : Files → Option ℕ
unfolding add_entries
oom_kills f = elim f.entries [ none ↦ some 0 | some es ↦ add_entries 0 es ]

-- `OOMKillsSince`
unfoldable pub oom_kills_since : ℕ → Files → Option Bool
unfolding oom_kills
oom_kills_since baseline f = elim (oom_kills f) [ none ↦ none | some n ↦ some (ltb baseline n) ]

-- The loop of `CPUUsageUS`.
unfoldable pub find_usage : List String → Option ℤ
unfolding value_of
find_usage [] = none
find_usage (line ∷ lines) = elim (value_of "usage_usec" (fields line)) [
  | none ↦ find_usage lines
  | some v ↦ atoi v
]

-- `CPUUsageUS`; `none` is an error of any kind.
unfoldable pub cpu_usage_us : Files → Option ℤ
unfolding find_usage
cpu_usage_us f = elim f.cpu_stat [ none ↦ none | some text ↦ find_usage (split b'\n' text) ]

-- The kilobytes of a peak in bytes.
abbrev kilobytes : ℤ → ℤ
kilobytes (pos n) = pos (n / 1024)
kilobytes (negsuc n) = pos 0

-- `PeakKB`
unfoldable pub peak_kb : Files → ℤ
peak_kb f = elim f.memory_peak [
  | none ↦ pos 0
  | some text ↦ elim (atoi (trim_space text)) [ none ↦ pos 0 | some n ↦ kilobytes n ]
]
