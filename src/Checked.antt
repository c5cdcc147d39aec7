-- ===== src/Checked.antt =====
-- A command's function that may raise an error with a message (`RunnerError`, `ValueError`).
use docplane.Base.{String, Bool, true, false, ◌≡◌, refl}

pub data Checked {ℓ} (A : Type ℓ) : Type ℓ where
  passed : A → Checked A
  failed : String → Checked A

-- `if test: raise …(message)`
abbrev pub fail_if : Bool → String → Checked (Unit {0})
fail_if true e = failed e
fail_if false e = passed tt

infixl 5 ◌>>=◌
abbrev pub ◌>>=◌ {ℓ ℓ'} :
    {First : Type ℓ} {Next : Type ℓ'} → Checked First → (First → Checked Next) → Checked Next
failed message >>= rest = failed message
passed x >>= rest = rest x

infixl 5 ◌>>◌
abbrev pub ◌>>◌ {ℓ} : {Next : Type ℓ} → Checked (Unit {0}) → Checked Next → Checked Next
test >> rest = test >>= λ unit. rest

pub >>=-eq-passed {ℓ ℓ'} :
    {First : Type ℓ} {Next : Type ℓ'} (first : Checked First) (rest : First → Checked Next)
    {value : Next}
    → (first >>= rest) ≡ passed value
    → (x : First) × (first ≡ passed x) × (rest x ≡ passed value)
>>=-eq-passed (failed message) rest h = cc
>>=-eq-passed (passed x) rest h = (x, refl, h)

pub fail_if-eq-passed {ℓ} :
    {B : Type ℓ} (t : Bool) (e : String) (m : Checked B) {b : B}
    → (fail_if t e >> m) ≡ passed b
    → (t ≡ false) × (m ≡ passed b)
fail_if-eq-passed true e m h = cc
fail_if-eq-passed false e m h = (refl, h)
