-- ===== src/Runner/Source.antt =====
-- The source file of a request, `resolveSourceName` and `writeSource` of internal/runner/runner.go. The
-- disk is the list of the texts of the files by their paths; the results of the calls are given.
use goboxd.Base.{
  String, true, false, List, [], ◌∷◌, ◌++◌, Option, none, some, str_eq, ◌<>◌, ◌≡◌, ◌≢◌, ◌⊎◌, inl,
  inr, refl, eq_iff, Bool-cases, if◌then◌else◌, subst, sym, not, ap,
}
use goboxd.Base.Strings.{split}
use goboxd.Models.{RunRequest}
use goboxd.Config.{LanguageConfig, Registry}
use goboxd.Api.Check.{pass}
use goboxd.Api.Validate.{validate}
use goboxd.Api.Validate.Exact.{validate_iff}
use goboxd.Api.Filename.{is_valid_filename_contained}

-- `resolveSourceName`
unfoldable pub resolve_source_name : RunRequest → LanguageConfig → String
resolve_source_name req lc =
    if str_eq lc.source_filename_strategy "fixed"
    then lc.source_filename
    else (if not (str_eq req.source_filename "") then req.source_filename else lc.source_filename)

-- Where a name lies in a directory: one component below it.
abbrev pub Below : String → String → Type 0
Below dir name =
    (split b'/' (dir <> "/" <> name) ≡ split b'/' dir ++ name ∷ []) × (name ≢ ".") × (name ≢ "..")

-- A request that passes validation cannot choose a source file outside a jail's directory: the name
-- is the registry's, or the language's strategy is not "fixed" and it is the client's, which is
-- exactly one component below that directory and neither "." nor "..".
pub resolve_source_name-Below :
    (reg : Registry) (env : String) (req : RunRequest) (lc : LanguageConfig) (dir : String)
    → validate reg env req ≡ pass lc
    → (resolve_source_name req lc ≡ lc.source_filename)
      ⊎ ((lc.source_filename_strategy ≢ "fixed")
          × (resolve_source_name req lc ≡ req.source_filename)
          × Below dir (resolve_source_name req lc))
unfolding resolve_source_name
resolve_source_name-Below reg env req lc dir ok =
    by_strategy (Bool-cases (str_eq lc.source_filename_strategy "fixed"))
  where
    by_name :
        (str_eq req.source_filename "" ≡ true) ⊎ (str_eq req.source_filename "" ≡ false)
        → str_eq lc.source_filename_strategy "fixed" ≡ false
        → (resolve_source_name req lc ≡ lc.source_filename)
          ⊎ ((lc.source_filename_strategy ≢ "fixed")
              × (resolve_source_name req lc ≡ req.source_filename)
              × Below dir (resolve_source_name req lc))
    by_name (inl absent) free = inl (rw (resolve_source_name, free, absent))
    by_name (inr given) free =
        let named : resolve_source_name req lc ≡ req.source_filename =
          rw (resolve_source_name, free, given) in
        let b =
          is_valid_filename_contained dir req.source_filename
            ((validate_iff reg env req lc).0 ok).0.source_name
            (λ e. cc (given, (eq_iff req.source_filename "").1 e)) in
        inr (
          λ e. cc (free, (eq_iff lc.source_filename_strategy "fixed").1 e),
          named,
          subst (Below dir) (sym named) (b.0, b.2, b.3),
        )

    by_strategy :
        (str_eq lc.source_filename_strategy "fixed" ≡ true)
          ⊎ (str_eq lc.source_filename_strategy "fixed" ≡ false)
        → (resolve_source_name req lc ≡ lc.source_filename)
          ⊎ ((lc.source_filename_strategy ≢ "fixed")
              × (resolve_source_name req lc ≡ req.source_filename)
              × Below dir (resolve_source_name req lc))
    by_strategy (inl e) = inl (rw (resolve_source_name, e))
    by_strategy (inr free) = by_name (Bool-cases (str_eq req.source_filename "")) free

abbrev pub Disk : Type 0
Disk = List (String × String)

unfoldable pub read : String → Disk → Option String
read path [] = none
read path ((p, text) ∷ d) = let rest = read path d in if str_eq p path then some text else rest

-- The error of os.OpenFile on the disk; then those of the write, which leaves a part, and of Close.
pub record Calls : Type 0 where
  pub open_file : String → Disk → Option String
  pub write : Option String
  pub part : String
  pub close : Option String

-- `writeSource`: the error, and the disk.
unfoldable pub write_source : Calls → String → String → Disk → Option String × Disk
write_source c path text d = elim (c.open_file path d) [
  | some e ↦ (some e, d)
  | none ↦ elim c.write [
    | some e ↦ (some e, (path, c.part) ∷ d)
    | none ↦ (c.close, (path, text) ∷ d)
  ]
]

-- O_EXCL and O_NOFOLLOW: nothing is opened where something is, a link included.
abbrev pub IsExclusive : Calls → Type 0
IsExclusive c = (path : String) (d : Disk) → read path d ≢ none → c.open_file path d ≢ none

-- Where something is at the path the call fails and changes nothing; where it succeeds nothing was
-- there and the whole text is; the other paths are as before in every case.
abbrev Excludes : Calls → String → String → Disk → Type 0
Excludes c path text d =
    (read path d ≢ none
      → ((write_source c path text d).0 ≢ none) × ((write_source c path text d).1 ≡ d))
    × ((write_source c path text d).0 ≡ none
        → (read path d ≡ none) × (read path (write_source c path text d).1 ≡ some text))
    × ((other : String) → path ≢ other → read other (write_source c path text d).1 ≡ read other d)

-- `writeSource` never replaces what it finds at its path, nor touches what is elsewhere.
write_source-Excludes :
    (c : Calls) (path text : String) (d : Disk) → IsExclusive c → Excludes c path text d
unfolding write_source read
write_source-Excludes c path text d excl = by_open (c.open_file path d) refl
  where
    same : str_eq path path ≡ true
    same = (eq_iff path path).1 refl

    apart : (other : String) → path ≢ other → str_eq path other ≡ false
    apart other ne = elim (Bool-cases (str_eq path other)) [
      | inl e ↦ elim (ne ((eq_iff path other).0 e)) [ ]
      | inr e ↦ e
    ]

    free : c.open_file path d ≡ none → read path d ≡ none
    free opened = by_read (read path d) refl
      where
        by_read : (r : Option String) → read path d ≡ r → read path d ≡ none
        by_read none e = e
        by_read (some t) e = elim (excl path d (λ h. cc (h, e)) opened) [ ]

    by_write :
        (w : Option String) → c.write ≡ w → c.open_file path d ≡ none → Excludes c path text d
    by_write none w opened =
        let e : write_source c path text d ≡ (c.close, (path, text) ∷ d) =
          rw (write_source, opened, w) in
        (
          λ taken. elim (taken (free opened)) [ ],
          λ done. (free opened, rw (e, read, same)),
          λ other ne. rw (e, read, apart other ne),
        )
    by_write (some m) w opened =
        let e : write_source c path text d ≡ (some m, (path, c.part) ∷ d) =
          rw (write_source, opened, w) in
        (
          λ taken. elim (taken (free opened)) [ ],
          λ done. cc (done, e),
          λ other ne. rw (e, read, apart other ne),
        )

    by_open : (o : Option String) → c.open_file path d ≡ o → Excludes c path text d
    by_open none opened = by_write c.write refl opened
    by_open (some m) opened =
        let e : write_source c path text d ≡ (some m, d) = rw (write_source, opened) in
        (
          λ taken. (λ done. cc (done, e), ap (λ p. p.1) e),
          λ done. cc (done, e),
          λ other ne. rw e refl,
        )
