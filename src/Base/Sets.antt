-- ===== src/Base/Sets.antt =====
-- Python's sets of texts as lists: membership and `set(…)`.
use Prim.Native.Nat.{◌≤◌, ◌<◌}
use mathlib.Core.List.{List, [], ◌∷◌, ◌++◌}
use Prim.Native.String.{String}
use mathlib.Core.Path.{◌≡◌, refl, ap, sym, ◌∙◌}
use mathlib.Core.Bool.{Bool, true, false, not, ◌&&◌, ◌||◌}
use native.Mathlib.Omega.{arith}
use text.Mathlib.Text.{◌==◌}
use text.Mathlib.TextEquality.{eq_iff}
use docplane.Base.Text.{eq_sym}
use docplane.Base.Lists.{
  length, length-keep-le, keep, all, keep-all, keep-append, keep-keep, keep_congr,
}

-- `k in xs`
unfoldable pub mem : String → List String → Bool
mem k [] = false
mem k (x ∷ xs) = x == k || mem k xs

-- `set(xs)`: each text once.
unfoldable pub dedup : List String → List String
unfolding keep
dedup [] = []
dedup (x ∷ xs) = x ∷ keep (λ y. not (y == x)) (dedup xs)

-- No text stands twice.
unfoldable pub distinct : List String → Bool
unfolding mem
distinct [] = true
distinct (x ∷ xs) = not (mem x xs) && distinct xs

-- `set(xs) - set(ys)`, in the order of `xs`
abbrev pub difference : List String → List String → List String
difference xs ys = keep (λ x. not (mem x ys)) xs

pub mem-head : (x : String) (xs : List String) → mem x (x ∷ xs) ≡ true
unfolding mem
mem-head x xs = ground (arith, eq_iff x x)

pub distinct-head : (x : String) (xs : List String) → distinct (x ∷ xs) ≡ true → mem x xs ≡ false
unfolding distinct
distinct-head x xs h = ground arith

pub distinct-tail : (x : String) (xs : List String) → distinct (x ∷ xs) ≡ true → distinct xs ≡ true
unfolding distinct
distinct-tail x xs h = ground arith

pub mem-append : (k : String) (xs ys : List String) → mem k (xs ++ ys) ≡ (mem k xs || mem k ys)
unfolding mem
mem-append k [] ys = refl
mem-append k (x ∷ xs) ys = ground (arith, mem-append k xs ys)

pub mem-keep :
    (p : String → Bool) (k : String) (xs : List String) → mem k (keep p xs) ≡ (p k && mem k xs)
unfolding mem keep
mem-keep p k [] = ground arith
mem-keep p k (x ∷ xs) = ground (arith, mem-keep p k xs, eq_iff x k)

pub mem-dedup : (k : String) (xs : List String) → mem k (dedup xs) ≡ mem k xs
unfolding mem dedup
mem-dedup k [] = refl
mem-dedup k (x ∷ xs) =
    ground (arith, mem-keep (λ y. not (y == x)) k (dedup xs), mem-dedup k xs, eq_sym k x)

pub distinct-keep :
    (p : String → Bool) (xs : List String) → distinct xs ≡ true → distinct (keep p xs) ≡ true
unfolding keep distinct
distinct-keep p [] h = refl
distinct-keep p (x ∷ xs) h = ground (arith, distinct-keep p xs, mem-keep p x xs)

pub distinct-dedup : (xs : List String) → distinct (dedup xs) ≡ true
unfolding distinct dedup
distinct-dedup [] = refl
distinct-dedup (x ∷ xs) = ground (
  arith,
  mem-keep (λ y. not (y == x)) x (dedup xs),
  distinct-keep (λ y. not (y == x)) (dedup xs) (distinct-dedup xs),
  eq_iff x x,
)

keep_other : (x : String) (xs : List String) → mem x xs ≡ false → keep (λ y. not (y == x)) xs ≡ xs
unfolding keep mem
keep_other x [] h = refl
keep_other x (y ∷ ys) h = ground (arith, keep_other x ys)

-- A list without repetition is its own set.
pub dedup_self : (xs : List String) → distinct xs ≡ true → dedup xs ≡ xs
unfolding dedup distinct
dedup_self [] h = refl
dedup_self (x ∷ xs) h = ground (arith, dedup_self xs, keep_other x xs)

-- A list with no members is empty.
pub empty_of_mem : (xs : List String) → ((k : String) → mem k xs ≡ false) → xs ≡ []
unfolding mem
empty_of_mem [] h = refl
empty_of_mem (x ∷ xs) h = ground (arith, h x, eq_iff x x)

all-true : (xs : List String) → all (λ x. true) xs ≡ true
unfolding all
all-true [] = refl
all-true (x ∷ xs) = all-true xs

-- The set of a concatenation: the first set, then what the second adds.
pub dedup-append :
    (xs ys : List String) → dedup (xs ++ ys) ≡ dedup xs ++ keep (λ y. not (mem y xs)) (dedup ys)
unfolding dedup mem
dedup-append [] ys = sym (keep-all _ (dedup ys) (all-true (dedup ys)))
dedup-append (x ∷ xs) ys =
    ap (λ (l : List String). x ∷ l)
      (ap (keep (λ y. not (y == x))) (dedup-append xs ys)
        ∙ keep-append (λ y. not (y == x)) (dedup xs) (keep (λ y. not (mem y xs)) (dedup ys))
        ∙ ap (λ (l : List String). keep (λ y. not (y == x)) (dedup xs) ++ l)
            (keep-keep (λ y. not (y == x)) (λ y. not (mem y xs)) (dedup ys)
              ∙ keep_congr _ _ (dedup ys) (λ y. ground (arith, eq_sym x y))))

-- At most one of the two lists holds the text.
abbrev pub AreDisjoint : List String → List String → Type 0
AreDisjoint xs ys = (k : String) → (mem k xs && mem k ys) ≡ false

pub distinct-append :
    (xs ys : List String)
    → distinct xs ≡ true
    → distinct ys ≡ true
    → AreDisjoint xs ys
    → distinct (xs ++ ys) ≡ true
unfolding distinct mem
distinct-append [] ys a b h = b
distinct-append (x ∷ xs) ys a b h = ground (
  arith,
  distinct-append xs ys (ground arith) b (λ k. ground (arith, h k)),
  mem-append x xs ys,
  h x,
  eq_iff x x,
)

-- Taking out a text that is there makes a list shorter.
pub length-keep-lt :
    (x : String) (ys : List String)
    → mem x ys ≡ true
    → length (keep (λ y. not (y == x)) ys) < length ys
unfolding keep mem
length-keep-lt x [] h = ground arith
length-keep-lt x (y ∷ ys) h =
    ground (arith, length-keep-lt x ys, length-keep-le (λ z. not (z == x)) ys)

-- Texts that are all among others, each once, are no more than these.
pub distinct-length :
    (xs ys : List String)
    → distinct xs ≡ true
    → ((k : String) → mem k xs ≡ true → mem k ys ≡ true)
    → length xs ≤ length ys
unfolding distinct mem
distinct-length [] ys d h = omega arith
distinct-length (x ∷ xs) ys d h = ground (
  arith,
  distinct-length xs (keep (λ y. not (y == x)) ys) (ground arith)
      (λ k m. ground (arith, h k, mem-keep (λ y. not (y == x)) k ys, eq_iff k x)),
  length-keep-lt x ys (h x (ground (arith, eq_iff x x))),
)
