-- ===== src/Playground/Session.antt =====
-- The page of playground/src/App.tsx over time: the handlers of its elements, and the answers of the
-- requests that are under way. A disabled button takes no click,
-- and the menu of languages offers those that there are.
use goboxd.Base.{
  has, ℕ, ◌≤◌, String, Bool, true, false, List, [], ◌∷◌, ◌++◌, Option, none, some, ◌≡◌, ◌↔◌, refl,
  length, length-append, suc, arith,
}
use goboxd.Playground.Value.{Value, Engine}
use goboxd.Playground.Languages.{languages, ids}
use goboxd.Playground.Presets.{Preset}
use goboxd.Playground.State.{
  App, Page, play, tests, Testcase, initial, default_code, switch_lang, load_preset, run_start,
  test_start, select_testcase, toggle_raw, testcases_of,
}
use goboxd.Playground.Run.{Reply, document, failed, run_finish}
use goboxd.Playground.TestRun.{test_finish}

-- The page with the requests under way: the language of each run, the test case of each test.
pub record Session : Type 0 where
  pub app : App
  pub runs : List String
  pub checks : List Testcase

-- An answer: that of a run or a test that is under way, or the list of test cases.
pub data Answer (e : Engine) : Session → Session → Type 0 where
  run_answer :
      {a : App} (xs : List String) (lang : String) (ys : List String) {cs : List Testcase}
      (reply : Reply)
      → Answer e
          (record { app = a; runs = xs ++ lang ∷ ys; checks = cs })
          (record { app = run_finish e lang reply a; runs = xs ++ ys; checks = cs })
  test_answer :
      {a : App} {rs : List String} (xs : List Testcase) (tc : Testcase) (ys : List Testcase)
      (reply : Reply)
      → Answer e
          (record { app = a; runs = rs; checks = xs ++ tc ∷ ys })
          (record { app = test_finish e tc reply a; runs = rs; checks = xs ++ ys })
  testcases_loaded :
      {s : Session} (doc : Value)
      → Answer e s (record s { app = record s.app { testcases = testcases_of doc } })

pub data Step (e : Engine) : Session → Session → Type 0 where
  answer : {s t : Session} → Answer e s t → Step e s t
  click_run :
      {s : Session}
      → s.app.page ≡ play
      → s.app.loading ≡ false
      → Step e s (record s { app = run_start s.app; runs = s.app.lang ∷ s.runs })
  click_test :
      {s : Session} {tc : Testcase}
      → s.app.page ≡ tests
      → s.app.selected_tc ≡ some tc
      → s.app.test_loading ≡ false
      → Step e s (record s { app = test_start s.app; checks = tc ∷ s.checks })
  choose_lang :
      {s : Session} (lang : String)
      → s.app.page ≡ play
      → has lang (ids languages) ≡ true
      → Step e s (record s { app = switch_lang lang s.app })
  choose_preset :
      {s : Session} (p : Preset)
      → s.app.page ≡ play
      → Step e s (record s { app = load_preset p s.app })
  edit_code :
      {s : Session} (code : String)
      → s.app.page ≡ play
      → Step e s (record s { app = record s.app { code = code } })
  edit_stdin :
      {s : Session} (stdin : String)
      → s.app.page ≡ play
      → Step e s (record s { app = record s.app { stdin = stdin } })
  view_raw : {s : Session} → s.app.page ≡ play → Step e s (record s { app = toggle_raw s.app })
  go : {s : Session} (page : Page) → Step e s (record s { app = record s.app { page = page } })
  edit_filter :
      {s : Session} (text : String)
      → s.app.page ≡ tests
      → Step e s (record s { app = record s.app { tc_filter = text } })
  click_testcase :
      {s : Session} (tc : Testcase)
      → s.app.page ≡ tests
      → Step e s (record s { app = select_testcase tc s.app })

pub data Reach (e : Engine) : Session → Type 0 where
  start : {a : App} → initial ≡ some a → Reach e (record { app = a; runs = []; checks = [] })
  next : {s t : Session} → Reach e s → Step e s t → Reach e t

-- One request where the page says that one is under way, else none.
abbrev Counted : Bool → ℕ → Type 0
Counted true n = n ≡ 1
Counted false n = n ≡ 0

-- The buttons are disabled exactly while their one request is under way.
record Steady (s : Session) : Type 0 where
  run : Counted s.app.loading (length s.runs)
  test : Counted s.app.test_loading (length s.checks)

-- An answered request is the one that was under way.
answered {ℓ} :
    {A : Type ℓ} (b : Bool) (xs : List A) (x : A) (ys : List A)
    → Counted b (length (xs ++ x ∷ ys))
    → length (xs ++ ys) ≡ 0
answered true xs x ys h =
    let l = length-append xs (x ∷ ys) in let m = length-append xs ys in ground arith
answered false xs x ys h = let l = length-append xs (x ∷ ys) in ground arith

clicked : (b : Bool) (n : ℕ) → b ≡ false → Counted b n → suc n ≡ 1
clicked true n e h = cc
clicked false n e h = ground arith

counted : (b : Bool) (n : ℕ) → Counted b n → (n ≤ 1) × ((b ≡ true) ↔ (n ≡ 1))
counted true n h = (ground arith, (λ e. h, λ e. refl))
counted false n h = (ground arith, (λ e. cc, λ e. ground arith))

Step-Steady : {e : Engine} {s t : Session} → Step e s t → Steady s → Steady t
unfolding run_start test_start run_finish test_finish switch_lang load_preset toggle_raw
    select_testcase
Step-Steady (click_run {s} on_play idle) h = record {
  run = clicked s.app.loading _ idle h.run;
  test = h.test;
}
Step-Steady (answer (run_answer {a} xs lang ys (failed m))) h = record {
  run = answered a.loading xs lang ys h.run;
  test = h.test;
}
Step-Steady (answer (run_answer {a} xs lang ys (document doc))) h = record {
  run = answered a.loading xs lang ys h.run;
  test = h.test;
}
Step-Steady (click_test {s} on_tests sel idle) h = record {
  run = h.run;
  test = clicked s.app.test_loading _ idle h.test;
}
Step-Steady (answer (test_answer {a} xs tc ys (failed m))) h = record {
  run = h.run;
  test = answered a.test_loading xs tc ys h.test;
}
Step-Steady (answer (test_answer {a} xs tc ys (document doc))) h = record {
  run = h.run;
  test = answered a.test_loading xs tc ys h.test;
}
Step-Steady (choose_lang {s} lang on_play known) h = by_code (default_code lang)
  where
    by_code :
        (found : Option String)
        → Steady (record s {
          app = elim found [
            | none ↦ record s.app { lang = lang }
            | some code ↦ record s.app { lang = lang; code = code; stdin = ""; output = "" }
          ];
        })
    by_code none = record { run = h.run; test = h.test }
    by_code (some code) = record { run = h.run; test = h.test }
Step-Steady (choose_preset {s} p on_play) h = by_stdin p.stdin
  where
    by_stdin :
        (stdin : Option String)
        → Steady (record s {
          app = elim stdin [
            | none ↦ record s.app { code = p.source; output = "" }
            | some stdin ↦ record s.app { code = p.source; stdin = stdin; output = "" }
          ];
        })
    by_stdin none = record { run = h.run; test = h.test }
    by_stdin (some stdin) = record { run = h.run; test = h.test }
Step-Steady (edit_code code on_play) h = record { run = h.run; test = h.test }
Step-Steady (edit_stdin stdin on_play) h = record { run = h.run; test = h.test }
Step-Steady (view_raw on_play) h = record { run = h.run; test = h.test }
Step-Steady (go page) h = record { run = h.run; test = h.test }
Step-Steady (answer (testcases_loaded doc)) h = record { run = h.run; test = h.test }
Step-Steady (edit_filter text on_tests) h = record { run = h.run; test = h.test }
Step-Steady (click_testcase tc on_tests) h = record { run = h.run; test = h.test }

initial-idle : {a : App} → initial ≡ some a → (a.loading ≡ false) × (a.test_loading ≡ false)
unfolding initial default_code
initial-idle e = (cc, cc)

Reach-Steady : {e : Engine} {s : Session} → Reach e s → Steady s
Reach-Steady (start {a} e) =
    let idle = initial-idle e in record { run = rw (idle.0) refl; test = rw (idle.1) refl }
Reach-Steady (next r step) = Step-Steady step (Reach-Steady r)

-- However the page is used, at most one run and one test are under way, and a button is disabled
-- exactly while its request is.
pub Reach-one_request :
    {e : Engine} {s : Session}
    → Reach e s
    → (length s.runs ≤ 1)
      × (length s.checks ≤ 1)
      × ((s.app.loading ≡ true) ↔ (length s.runs ≡ 1))
      × ((s.app.test_loading ≡ true) ↔ (length s.checks ≡ 1))
Reach-one_request {e} {s} r =
    let h = Reach-Steady r in
    let run = counted s.app.loading (length s.runs) h.run in
    let test = counted s.app.test_loading (length s.checks) h.test in (run.0, test.0, run.1, test.1)
