-- ===== src/Playground/Interaction.antt =====
-- Every event on what the first page and the page of benchmarks of playground/src/App.tsx render is
-- a step of the session.
use goboxd.Base.{
  ◌&&◌, str_eq, subst, String, Bool, true, false, List, [], ◌∷◌, Option, none, some, ◌≡◌, refl, ◌⊎◌,
  inl, inr, Option-cases, Bool-cases, if◌then◌else◌,
}
use goboxd.Playground.Value.{Engine, truthy, Value}
use goboxd.Playground.Languages.{Language, languages, lookup, ids}
use goboxd.Playground.Presets.{presets}
use goboxd.Playground.Flatten.{Entry, find_entry, flatten_presets}
use goboxd.Playground.State.{Page, play, bench, tests, load_preset, stdin_text}
use goboxd.Playground.Session.{
  Session, Step, click_run, choose_lang, choose_preset, edit_code, edit_stdin, view_raw, go,
}
use goboxd.Playground.Element.{Node, nothing, label, FiresOnly, option_values}
use goboxd.Playground.PlayView.{
  page_link, link, lang_menu, preset_menu, language_options, preset_options, editor, shown_if,
  stdin_box, run_button, shown_if_value, falsy_node, raw_button, output_text, stringified,
  play_view, bench_view, render_play, to_page, choose_entry, header, menus, output_pane,
}

-- The parts of a proof about a part of the page: of an element without a handler around a part, and
-- of one part beside another.
pub quiet : {A B : Type 0} → B → (A → Unit {0}) × B
quiet b = (λ on. tt, b)

infixr 67 ◌⊗◌
pub ◌⊗◌ : {A B : Type 0} → A → B → A × B
a ⊗ b = (a, b)

module _ (e : Engine) (s : Session) where
  -- What an event may lead to.
  abbrev pub Allowed : Session → Type 0
  Allowed t = (t ≡ s) ⊎ Step e s t

  abbrev pub Stepwise : Node → Type 0
  Stepwise = FiresOnly Allowed

  language_options-Stepwise : (ls : List (String × Language)) → Stepwise (language_options ls)
  unfolding language_options
  language_options-Stepwise [] = tt
  language_options-Stepwise (l ∷ ls) = ((λ on. tt, tt), language_options-Stepwise ls)

  option_values-language_options :
      (ls : List (String × Language)) → option_values (language_options ls) ≡ ids ls
  unfolding language_options
  option_values-language_options [] = refl
  option_values-language_options ((id, l) ∷ ls) = rw (option_values-language_options ls) refl

  preset_options-Stepwise : (rs : List Entry) → Stepwise (preset_options rs)
  unfolding preset_options
  preset_options-Stepwise [] = tt
  preset_options-Stepwise (r ∷ rs) = ((λ on. tt, tt), preset_options-Stepwise rs)

  page_link-Stepwise : (page : Page) (text : String) → Stepwise (page_link s page text)
  unfolding page_link to_page
  page_link-Stepwise page text = (λ on. inr (go page), tt)

  pub shown_if-Stepwise : (b : Bool) (n : Node) → Stepwise n → Stepwise (shown_if b n)
  unfolding shown_if
  shown_if-Stepwise false n h = tt
  shown_if-Stepwise true n h = h

  falsy_node-Stepwise : (v : Value) → Stepwise (falsy_node v)
  unfolding falsy_node
  falsy_node-Stepwise (Value.num n) = tt
  falsy_node-Stepwise Value.undefined = tt
  falsy_node-Stepwise Value.null = tt
  falsy_node-Stepwise (Value.bool b) = tt
  falsy_node-Stepwise (Value.text t) = tt
  falsy_node-Stepwise (Value.array vs) = tt
  falsy_node-Stepwise (Value.object fs) = tt

  shown_if_value-Stepwise : (v : Value) (n : Node) → Stepwise n → Stepwise (shown_if_value v n)
  unfolding shown_if_value
  shown_if_value-Stepwise v n h = elim (Bool-cases (truthy v)) [
    | inl p ↦ rw p h
    | inr p ↦ rw p (falsy_node-Stepwise v)
  ]

  pub stringified-Stepwise : (v : Value) → Stepwise (stringified e v)
  unfolding stringified
  stringified-Stepwise v = elim (Option-cases (e.stringify v)) [
    | inl p ↦ rw (p, stringified) tt
    | inr (t, p) ↦ rw (p, stringified) tt
  ]

  if-Stepwise : (b : Bool) (m n : Node) → Stepwise m → Stepwise n → Stepwise (if b then m else n)
  if-Stepwise true m n hm hn = hm
  if-Stepwise false m n hm hn = hn

  choose_entry-Allowed :
      (rs : List Entry) (v : String) → s.app.page ≡ play → Allowed (choose_entry s rs v)
  unfolding choose_entry
  choose_entry-Allowed rs v on_play = by_entry (find_entry v rs)
    where
      by_entry :
          (found : Option Entry)
          → Allowed
              (elim found [ none ↦ s | some r ↦ record s { app = load_preset r.preset s.app } ])
      by_entry none = inl refl
      by_entry (some r) = inr (choose_preset r.preset on_play)

  output_text-Stepwise : Stepwise (output_text e s.app)
  unfolding output_text
  output_text-Stepwise =
      if-Stepwise (s.app.show_raw && truthy s.app.raw_json) (stringified e s.app.raw_json)
        (if str_eq s.app.output "" then label "output will appear here" else label s.app.output)
        (stringified-Stepwise s.app.raw_json)
        (if-Stepwise (str_eq s.app.output "") (label "output will appear here") (label s.app.output)
          tt tt)

  header-Stepwise : Stepwise (header e s)
  unfolding header link
  header-Stepwise = quiet (
      quiet tt
      ⊗ page_link-Stepwise bench "benchmarks"
      ⊗ page_link-Stepwise tests "tests"
      ⊗ quiet tt
      ⊗ quiet tt)

  module _ (on_play : s.app.page ≡ play) where
    menus-Stepwise : (flat : List Entry) → Stepwise (menus s flat)
    unfolding menus lang_menu preset_menu
    menus-Stepwise flat = quiet (
        quiet tt
        ⊗ (
          λ on v ok.
              inr (choose_lang v on_play (rw (option_values-language_options languages) at ok)),
          language_options-Stepwise languages,
        )
        ⊗ quiet tt
        ⊗ (λ on v ok. choose_entry-Allowed flat v on_play, quiet tt ⊗ preset_options-Stepwise flat))

    output_pane-Stepwise : (l : Language) → Stepwise (output_pane e s l)
    unfolding output_pane stdin_box run_button raw_button
    output_pane-Stepwise l = quiet (
        shown_if-Stepwise l.has_stdin (stdin_box s)
          (quiet (quiet tt ⊗ (λ on v ok. inr (edit_stdin v on_play), tt)))
        ⊗ (λ idle. inr (click_run on_play idle), tt)
        ⊗ if-Stepwise (str_eq s.app.output "") nothing
            (shown_if_value s.app.raw_json (raw_button s)) tt
            (shown_if_value-Stepwise s.app.raw_json (raw_button s)
              (λ on. inr (view_raw on_play), tt))
        ⊗ quiet output_text-Stepwise)

    play_view-Stepwise : (l : Language) (flat : List Entry) → Stepwise (play_view e s l flat)
    unfolding play_view editor
    play_view-Stepwise l flat = quiet (
        header-Stepwise
        ⊗ menus-Stepwise flat
        ⊗ quiet (
            quiet (λ on v ok. inr (edit_code (stdin_text v) on_play), tt) ⊗ output_pane-Stepwise l))

    pub render_play-Stepwise : {n : Node} → render_play e s ≡ some n → Stepwise n
    unfolding render_play
    render_play-Stepwise {n} h =
        by_lang (lookup s.app.lang languages) (flatten_presets presets s.app.lang) h
      where
        by_lang :
            (l : Option Language) (flat : Option (List Entry))
            → (elim l [
              | none ↦ none
              | some l ↦ elim flat [ none ↦ none | some flat ↦ some (play_view e s l flat) ]
            ])
              ≡ some n
            → Stepwise n
        by_lang none flat h = cc
        by_lang (some l) none h = cc
        by_lang (some l) (some flat) h =
            let same : play_view e s l flat ≡ n = cc in
            subst Stepwise same (play_view-Stepwise l flat)

  pub bench_view-Stepwise : Stepwise (bench_view e s)
  unfolding bench_view to_page
  bench_view-Stepwise = quiet (quiet tt ⊗ (λ on. inr (go play), tt) ⊗ quiet tt)
