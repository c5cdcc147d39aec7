-- ===== src/Http.antt =====
-- What a request handler of docs-api/app returns: a value, or the status and the code of the
-- `HTTPException` that it raises. An exception leaves the database as it was: the handlers commit
-- last, and the connection rolls back what was not committed.
use docplane.Base.{
  ℕ, String, ◌≡◌, refl, Bool, true, false, Option, none, some, ◌==◌, ◌||◌, if◌then◌else◌,
}
use docplane.Base.Strip.{strip, cut}

pub record HttpError : Type 0 where
  pub status : ℕ
  pub code : String

pub data Result {ℓ} (Answer : Type ℓ) : Type ℓ where
  err : HttpError → Result Answer
  ok : Answer → Result Answer

abbrev pub raise {ℓ} : {Answer : Type ℓ} → ℕ → String → Result Answer
raise s c = err (record { status = s; code = c })

-- `if test: raise HTTPException(…)`
abbrev pub refuse_if : Bool → ℕ → String → Result (Unit {0})
refuse_if true s c = raise s c
refuse_if false s c = ok tt

-- The rest of a handler runs only after an answer.
infixl 5 ◌>>=◌
abbrev pub ◌>>=◌ {ℓ ℓ'} :
    {First : Type ℓ} {Next : Type ℓ'} → Result First → (First → Result Next) → Result Next
err e >>= rest = err e
ok x >>= rest = rest x

infixl 5 ◌>>◌
abbrev pub ◌>>◌ {ℓ} : {Next : Type ℓ} → Result (Unit {0}) → Result Next → Result Next
check >> rest = check >>= λ passed. rest

-- `_key`, which each router declares alike.
unfoldable pub key : Option String → Result String
unfolding strip cut
key none = raise 428 "IDEMPOTENCY_KEY_REQUIRED"
key (some value) =
    if value == "" || strip value == ""
    then raise 428 "IDEMPOTENCY_KEY_REQUIRED"
    else ok (cut 256 (strip value))

-- An answer of a handler comes from the answer of its first part.
pub >>=-eq-ok {ℓ ℓ'} :
    {First : Type ℓ} {Next : Type ℓ'} (first : Result First) (rest : First → Result Next)
    {answer : Next}
    → (first >>= rest) ≡ ok answer
    → (x : First) × (first ≡ ok x) × (rest x ≡ ok answer)
>>=-eq-ok (err e) rest h = cc
>>=-eq-ok (ok x) rest h = (x, refl, h)

-- A handler that goes on past a refusal has not met its test.
pub refuse_if-eq-ok {ℓ} :
    {Next : Type ℓ} (test : Bool) (s : ℕ) (c : String) (rest : Result Next) {answer : Next}
    → (refuse_if test s c >> rest) ≡ ok answer
    → (test ≡ false) × (rest ≡ ok answer)
refuse_if-eq-ok true s c rest h = cc
refuse_if-eq-ok false s c rest h = (refl, h)

pub ok-eq {ℓ} : {A : Type ℓ} {x y : A} → ok x ≡ ok y → x ≡ y
ok-eq h = cc
