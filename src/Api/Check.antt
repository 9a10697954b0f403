-- ===== src/Api/Check.antt =====
-- The outcome of a validation in internal/api/handlers.go: it passes, or the handler writes an error
-- and returns.
use goboxd.Base.{String, Bool, true, false}
use goboxd.Models.{ErrorDetail}

pub data Check {ℓ} (A : Type ℓ) : Type ℓ where
  pass : A → Check A
  reject : ErrorDetail → Check A

infixl 5 ◌>>=◌ ◌>>◌
abbrev pub ◌>>=◌ {ℓ κ} : {A : Type ℓ} {B : Type κ} → Check A → (A → Check B) → Check B
pass a >>= f = f a
reject e >>= f = reject e

abbrev pub ◌>>◌ {ℓ} : {B : Type ℓ} → Check (Unit {0}) → Check B → Check B
m >> k = m >>= λ _. k

abbrev pub detail : String → String → ErrorDetail
detail code message = record { code = code; message = message }

-- `if (test) { writeError(w, …); return }`
abbrev pub reject_if : Bool → ErrorDetail → Check (Unit {0})
reject_if true e = reject e
reject_if false e = pass tt
