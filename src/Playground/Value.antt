-- ===== src/Playground/Value.antt =====
-- The values of JSON and JavaScript that playground/src/App.tsx handles as `any`, with the
-- operations that it applies to them: property access, truthiness, `===`, and conversion to text.
use goboxd.Base.{
  ℕ, zero, suc, ltb_ℤ, eqb_ℤ, decimal_ℤ, ℤ, pos, str_eq, ◌<>◌, decimal, String, Bool, true, false,
  not, List, Option, if◌then◌else◌,
}

mutual
  pub data Value : Type 0 where
    undefined null : Value
    bool : Bool → Value
    num : ℤ → Value
    text : String → Value
    array : Items → Value
    object : Fields → Value

  pub data Items : Type 0 where
    nil : Items
    cons : Value → Items → Items

  pub data Fields : Type 0 where
    end : Fields
    field : String → Value → Fields → Fields

-- The engine's part: how it reads a text as a number, words a TypeError, indexes and measures a
-- text (in UTF-16 units), searches one and puts one in lower case; its `sort` of an array of texts,
-- `JSON.stringify(v, null, 2)` (`none` is `undefined`) and `window.location.origin`.
pub record Engine : Type 0 where
  pub positive_text : String → Bool
  pub type_error : Value → String → String
  pub char_at : String → ℕ → Value
  pub text_length : String → ℕ
  pub contains : String → String → Bool
  pub lower : String → String
  pub sort : List String → List String
  pub stringify : Value → Option String
  pub origin : String

-- A computation that may throw an error with a message.
pub data Outcome {ℓ} (A : Type ℓ) : Type ℓ where
  done : A → Outcome A
  throws : String → Outcome A

infixl 5 ◌>>=◌
abbrev pub ◌>>=◌ {ℓ κ} : {A : Type ℓ} {B : Type κ} → Outcome A → (A → Outcome B) → Outcome B
done a >>= f = f a
throws m >>= f = throws m

abbrev pub field_of : String → Fields → Value
field_of k end = undefined
field_of k (field j v fs) = let rest = field_of k fs in if str_eq j k then v else rest

abbrev pub items_length : Items → ℕ
items_length nil = 0
items_length (cons v vs) = suc (items_length vs)

abbrev pub item_at : Items → ℕ → Value
item_at nil i = undefined
item_at (cons v vs) zero = v
item_at (cons v vs) (suc i) = item_at vs i

-- `v.k`, for the properties that are no methods.
abbrev pub get : Engine → Value → String → Outcome Value
get e undefined k = throws (e.type_error undefined k)
get e null k = throws (e.type_error null k)
get e (bool b) k = done undefined
get e (num n) k = done undefined
get e (text s) k = done (if str_eq k "length" then num (pos (e.text_length s)) else undefined)
get e (array vs) k = done (if str_eq k "length" then num (pos (items_length vs)) else undefined)
get e (object fs) k = done (field_of k fs)

-- `v[i]` at an index.
abbrev pub at : Engine → Value → ℕ → Outcome Value
at e undefined i = throws (e.type_error undefined (decimal i))
at e null i = throws (e.type_error null (decimal i))
at e (bool b) i = done undefined
at e (num n) i = done undefined
at e (text s) i = done (e.char_at s i)
at e (array vs) i = done (item_at vs i)
at e (object fs) i = done (field_of (decimal i) fs)

abbrev pub truthy : Value → Bool
truthy undefined = false
truthy null = false
truthy (bool b) = b
truthy (num n) = not (eqb_ℤ n (pos 0))
truthy (text s) = not (str_eq s "")
truthy (array vs) = true
truthy (object fs) = true

-- `a || b`
abbrev pub or_else : Value → Value → Value
or_else a b = if truthy a then a else b

-- `a === b`. Arrays and objects are compared by identity, and App.tsx compares only parts of two
-- documents that were parsed apart.
abbrev pub strict_eq : Value → Value → Bool
strict_eq undefined undefined = true
strict_eq null null = true
strict_eq (bool true) (bool b) = b
strict_eq (bool false) (bool b) = not b
strict_eq (num m) (num n) = eqb_ℤ m n
strict_eq (text s) (text t) = str_eq s t
strict_eq _ _ = false

abbrev nullish : Value → Bool
nullish undefined = true
nullish null = true
nullish _ = false

-- The conversion that `+` makes on an operand beside a text; an array is joined by commas.
abbrev mutual
  pub to_text : Value → String
  to_text undefined = "undefined"
  to_text null = "null"
  to_text (bool true) = "true"
  to_text (bool false) = "false"
  to_text (num n) = decimal_ℤ n
  to_text (text s) = s
  to_text (array vs) = join_items vs
  to_text (object fs) = "[object Object]"

  pub join_items : Items → String
  join_items nil = ""
  join_items (cons v nil) = if nullish v then "" else to_text v
  join_items (cons v (cons w vs)) =
      (if nullish v then "" else to_text v) <> "," <> join_items (cons w vs)

-- `v > 0`: the operand is converted to a number.
abbrev pub positive : Engine → Value → Bool
positive e (bool b) = b
positive e (num n) = ltb_ℤ (pos 0) n
positive e (text s) = e.positive_text s
positive e (array vs) = e.positive_text (to_text (array vs))
positive e _ = false
