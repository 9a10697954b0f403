-- ===== src/Playground/Element.antt =====
-- The element trees that `App` of playground/src/App.tsx builds with React.createElement, and the
-- handlers that a user's events run. Of the properties, those that depend on the state or on which
-- an event depends are kept; constant styles and attributes are left out.
use goboxd.Base.{
  String, Bool, true, false, List, [], ◌∷◌, ◌++◌, Option, none, some, ◌≡◌, str_eq, has,
  if◌then◌else◌,
}
use goboxd.Playground.Session.{Session}

-- A handler, by the session that it leaves when it runs in the render that made it; a change has
-- the new value, `e.target.value`.
pub data Handler : Type 0 where
  ignored : Handler
  on_click : Session → Handler
  on_change : (String → Session) → Handler

pub record Props : Type 0 where
  pub key : Option String
  pub value : Option String
  pub href : Option String
  pub language : Option String
  pub disabled : Bool
  pub background : Option String
  pub handler : Handler

abbrev pub no_props : Props
no_props = record {
  key = none;
  value = none;
  href = none;
  language = none;
  disabled = false;
  background = none;
  handler = ignored;
}

-- A part of the page: nothing (`false`, `null`, an empty text), a text, an element around its
-- children, and one part beside another. An array and a fragment are their parts side by side.
infixr 67 ◌&◌
pub data Node : Type 0 where
  nothing : Node
  label : String → Node
  element : String → Props → Node → Node
  ◌&◌ : Node → Node → Node

-- The values of the options of a menu that can be chosen.
abbrev pub option_values : Node → List String
option_values nothing = []
option_values (label s) = []
option_values (element tag props n) = chosen props.disabled props.value
  where
    chosen : Bool → Option String → List String
    chosen false (some v) = v ∷ []
    chosen disabled value = []
option_values (m & n) = option_values m ++ option_values n

-- The values that a user can give an element: a menu has those of its options.
abbrev pub accepts : String → Node → String → Bool
accepts tag children v = if str_eq tag "select" then has v (option_values children) else true

-- A session that an event at the element leads to.
pub data Leads (tag : String) (children : Node) : Handler → Session → Type 0 where
  clicked : {t : Session} → Leads tag children (on_click t) t
  changed :
      {f : String → Session} (v : String)
      → accepts tag children v ≡ true
      → Leads tag children (on_change f) (f v)

-- A session that an event somewhere in the tree leads to. A disabled element has no events.
pub data Fires : Node → Session → Type 0 where
  here :
      {tag : String} {props : Props} {children : Node} {t : Session}
      → props.disabled ≡ false
      → Leads tag children props.handler t
      → Fires (element tag props children) t
  inside :
      {tag : String} {props : Props} {children : Node} {t : Session}
      → Fires children t
      → Fires (element tag props children) t
  left : {m n : Node} {t : Session} → Fires m t → Fires (m & n) t
  right : {m n : Node} {t : Session} → Fires n t → Fires (m & n) t

module _ (P : Session → Type 0) where
  -- `P` of every session that a handler leads to.
  abbrev pub LeadsOnly : String → Node → Handler → Type 0
  LeadsOnly tag children ignored = Unit
  LeadsOnly tag children (on_click t) = P t
  LeadsOnly tag children (on_change f) = (v : String) → accepts tag children v ≡ true → P (f v)

  abbrev pub FiresOnly : Node → Type 0
  FiresOnly nothing = Unit
  FiresOnly (label s) = Unit
  FiresOnly (element tag props n) =
      (props.disabled ≡ false → LeadsOnly tag n props.handler) × FiresOnly n
  FiresOnly (m & n) = FiresOnly m × FiresOnly n

  LeadsOnly-Leads :
      {tag : String} {n : Node} {h : Handler} {t : Session}
      → LeadsOnly tag n h
      → Leads tag n h t
      → P t
  LeadsOnly-Leads all clicked = all
  LeadsOnly-Leads all (changed v ok) = all v ok

  pub FiresOnly-Fires : {n : Node} {t : Session} → FiresOnly n → Fires n t → P t
  FiresOnly-Fires all (here on l) = LeadsOnly-Leads (all.0 on) l
  FiresOnly-Fires all (inside f) = FiresOnly-Fires all.1 f
  FiresOnly-Fires all (left f) = FiresOnly-Fires all.0 f
  FiresOnly-Fires all (right f) = FiresOnly-Fires all.1 f
