-- ===== src/Base/Slices.antt =====
-- Python's slices, `find` and `+` on texts, by code points.
use Prim.Native.Nat.{ℕ, zero, suc, ◌+◌, ◌-◌, ◌≤◌, ◌<◌}
use Prim.Native.Char.{code}
use Prim.Native.String.{String, [], ◌∷◌}
use mathlib.Core.Path.{◌≡◌, refl, ap}
use mathlib.Core.Bool.{Bool, true, false, ◌&&◌}
use mathlib.Core.Option.{Option, none, some}
use native.Mathlib.Omega.{arith}
use docplane.Base.Tests.{if◌then◌else◌, eqb}
use docplane.Base.Strip.{cut}

-- `len(s)`
unfoldable pub str_len : String → ℕ
str_len [] = 0
str_len (c ∷ s) = suc (str_len s)

-- `s[n:]`
unfoldable pub drop : ℕ → String → String
drop zero s = s
drop (suc n) [] = ""
drop (suc n) (c ∷ s) = drop n s

-- `s + t`
unfoldable pub plus : String → String → String
plus [] t = t
plus (c ∷ s) t = c ∷ plus s t

-- `s.startswith(t)`, the shorter text first
unfoldable pub begins : String → String → Bool
begins [] s = true
begins (c ∷ t) [] = false
begins (c ∷ t) (d ∷ s) = eqb (code c) (code d) && begins t s

abbrev pub next_position : Option ℕ → Option ℕ
next_position none = none
next_position (some n) = some (suc n)

-- `s.find(t)`, the text looked for first; `none` is -1
unfoldable pub find : String → String → Option ℕ
unfolding begins
find t [] = if begins t [] then some 0 else none
find t (c ∷ s) = let rest = find t s in if begins t (c ∷ s) then some 0 else next_position rest

pub str_len-cut : (n : ℕ) (s : String) → n ≤ str_len s → str_len (cut n s) ≡ n
unfolding str_len cut
str_len-cut zero s h = refl
str_len-cut (suc n) [] h = ground arith
str_len-cut (suc n) (c ∷ s) h = ground (arith, str_len-cut n s)

pub str_len-drop : (n : ℕ) (s : String) → str_len (drop n s) ≡ str_len s - n
unfolding str_len drop
str_len-drop zero s = omega arith
str_len-drop (suc n) [] = omega arith
str_len-drop (suc n) (c ∷ s) = omega (arith, str_len-drop n s)

pub plus_assoc : (s t u : String) → plus (plus s t) u ≡ plus s (plus t u)
unfolding plus
plus_assoc [] t u = refl
plus_assoc (c ∷ s) t u = ap (λ (r : String). c ∷ r) (plus_assoc s t u)

pub plus-cut-drop : (n : ℕ) (s : String) → plus (cut n s) (drop n s) ≡ s
unfolding plus cut drop
plus-cut-drop zero s = refl
plus-cut-drop (suc n) [] = refl
plus-cut-drop (suc n) (c ∷ s) = ap (λ (r : String). c ∷ r) (plus-cut-drop n s)

-- A prefix that is cut from a longer prefix is cut from the text.
pub cut-plus : (n m : ℕ) (s t : String) → n ≤ m → m ≤ str_len s → cut n (plus (cut m s) t) ≡ cut n s
unfolding plus cut str_len
cut-plus zero m s t h k = refl
cut-plus (suc n) zero s t h k = ground arith
cut-plus (suc n) (suc m) [] t h k = ground arith
cut-plus (suc n) (suc m) (c ∷ s) t h k =
    ap (λ (r : String). c ∷ r) (cut-plus n m s t (omega arith) (omega arith))

pub drop-plus : (n : ℕ) (s t : String) → n ≤ str_len s → drop n (plus (cut n s) t) ≡ t
unfolding plus cut str_len drop
drop-plus zero s t k = refl
drop-plus (suc n) [] t k = ground arith
drop-plus (suc n) (c ∷ s) t k = drop-plus n s t (omega arith)

pub drop-drop : (n k m : ℕ) (s : String) → n + k ≡ m → drop k (drop n s) ≡ drop m s
unfolding drop
drop-drop zero k m s h = ap (λ i. drop i s) (omega arith)
drop-drop (suc n) k zero s h = ground arith
drop-drop (suc n) k (suc m) [] h = drop_nil k
  where
    drop_nil : (i : ℕ) → drop i "" ≡ ""
    drop_nil zero = refl
    drop_nil (suc i) = refl
drop-drop (suc n) k (suc m) (c ∷ s) h = drop-drop n k m s (omega arith)

-- A prefix is a shorter prefix and what stands between.
pub plus-cut-cut :
    (n k m : ℕ) (s : String) → n + k ≡ m → plus (cut n s) (cut k (drop n s)) ≡ cut m s
unfolding plus cut drop
plus-cut-cut zero k m s h = ap (λ i. cut i s) (omega arith)
plus-cut-cut (suc n) k zero s h = ground arith
plus-cut-cut (suc n) k (suc m) [] h = cut_nil k
  where
    cut_nil : (i : ℕ) → cut i "" ≡ ""
    cut_nil zero = refl
    cut_nil (suc i) = refl
plus-cut-cut (suc n) k (suc m) (c ∷ s) h =
    ap (λ (r : String). c ∷ r) (plus-cut-cut n k m s (omega arith))

pub begins-bound : (t s : String) → begins t s ≡ true → str_len t ≤ str_len s
unfolding begins str_len
begins-bound [] s h = omega arith
begins-bound (c ∷ t) [] h = ground arith
begins-bound (c ∷ t) (d ∷ s) h = ground (arith, begins-bound t s)

-- What `find` answers is a place where the text stands.
pub find-begins : (t s : String) (n : ℕ) → find t s ≡ some n → begins t (drop n s) ≡ true
unfolding find begins drop
find-begins t [] n h = ground arith
find-begins t (c ∷ s) zero h = ground (arith)
find-begins t (c ∷ s) (suc n) h = ground (arith, find-begins t s n)

pub find-bound : (t s : String) (n : ℕ) → find t s ≡ some n → n + str_len t ≤ str_len s
unfolding find str_len
find-bound t [] n h = ground (arith, begins-bound t "")
find-bound t (c ∷ s) zero h = ground (arith, begins-bound t (c ∷ s))
find-bound t (c ∷ s) (suc n) h = ground (arith, find-bound t s n)

-- The text stands nowhere in front of that place …
pub find-least : (t s : String) (n m : ℕ) → find t s ≡ some n → m < n → begins t (drop m s) ≡ false
unfolding find begins drop
find-least t [] n m h k = ground arith
find-least t (c ∷ s) zero m h k = ground arith
find-least t (c ∷ s) (suc n) zero h k = ground arith
find-least t (c ∷ s) (suc n) (suc m) h k = ground (arith, find-least t s n m)

-- … and nowhere at all when `find` has no answer.
pub find-none : (t s : String) (m : ℕ) → find t s ≡ none → begins t (drop m s) ≡ false
unfolding find begins drop
find-none t [] zero h = ground arith
find-none t [] (suc m) h = ground arith
find-none t (c ∷ s) zero h = ground arith
find-none t (c ∷ s) (suc m) h = ground (arith, find-none t s m)
