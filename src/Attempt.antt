-- ===== src/Attempt.antt =====
-- The `ValueError`s that docs-api/app/publication.py catches for an operation: their text is a code
-- and, behind a colon, a detail, which `str(exc).partition(":")` takes apart again.
use docplane.Base.{ℕ, String, ◌≡◌, refl, Bool, true, false, List, if◌then◌else◌}

-- The detail of a message: nothing, one text, or numbers with colons between them.
pub data Detail : Type 0 where
  silent : Detail
  about : String → Detail
  counts : List ℕ → Detail
  names : List String → Detail

pub record Problem : Type 0 where
  pub code : String
  pub detail : Detail

pub data Attempt {ℓ} (Value : Type ℓ) : Type ℓ where
  invalid : Problem → Attempt Value
  valid : Value → Attempt Value

abbrev pub problem : String → Detail → Problem
problem c d = record { code = c; detail = d }

-- `raise ValueError(…)`
abbrev pub fail {ℓ} : {Value : Type ℓ} → String → Detail → Attempt Value
fail c d = invalid (problem c d)

-- `if test: raise ValueError(…)`, then the rest
abbrev pub fail_if {ℓ} : {Value : Type ℓ} → Bool → String → Detail → Attempt Value → Attempt Value
fail_if b c d rest = if b then fail c d else rest

infixl 5 ◌then_with◌
abbrev pub ◌then_with◌ {ℓ ℓ'} :
    {Value : Type ℓ} {Later : Type ℓ'} → Attempt Value → (Value → Attempt Later) → Attempt Later
invalid p then_with rest = invalid p
valid v then_with rest = rest v

abbrev pub is_valid {ℓ} : {Value : Type ℓ} → Attempt Value → Bool
is_valid (invalid p) = false
is_valid (valid v) = true

-- What follows a part has its value only when the part has one.
pub then_with-eq-valid {ℓ ℓ'} :
    {Value : Type ℓ} {Later : Type ℓ'} (first : Attempt Value) (rest : Value → Attempt Later)
    {answer : Later}
    → (first then_with rest) ≡ valid answer
    → (v : Value) × (first ≡ valid v) × (rest v ≡ valid answer)
then_with-eq-valid (invalid p) rest h = cc
then_with-eq-valid (valid v) rest h = (v, refl, h)

-- What follows a test has its value only when the test fails to hold.
pub fail_if-eq-valid {ℓ} :
    {Value : Type ℓ} (test : Bool) (c : String) (d : Detail) (rest : Attempt Value) {answer : Value}
    → fail_if test c d rest ≡ valid answer
    → (test ≡ false) × (rest ≡ valid answer)
fail_if-eq-valid true c d rest h = cc
fail_if-eq-valid false c d rest h = (refl, h)
