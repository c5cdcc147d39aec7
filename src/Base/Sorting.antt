-- ===== src/Base/Sorting.antt =====
-- `sorted(…)`: a stable insertion sort by a text key, and its laws.
use Prim.Native.Nat.{suc}
use Prim.Native.String.{String}
use mathlib.Core.Path.{◌≡◌, refl, ap, ◌∙◌}
use mathlib.Core.Bool.{Bool, true, not, ◌&&◌, ◌||◌}
use mathlib.Core.List.{List, [], ◌∷◌, map}
use native.Mathlib.Omega.{arith}
use text.Mathlib.Text.{◌==◌}
use text.Mathlib.TextEquality.{eq_iff}
use docplane.Base.Tests.{if◌then◌else◌}
use docplane.Base.Text.{str_le, str_le_total, str_le_trans}
use docplane.Base.Lists.{length}
use docplane.Base.Sets.{mem, distinct}

module _ {ℓ} {A : Type ℓ} (key : A → String) where
  unfoldable pub insert_by : A → List A → List A
  insert_by x [] = x ∷ []
  insert_by x (y ∷ ys) = if str_le (key x) (key y) then x ∷ y ∷ ys else y ∷ insert_by x ys

  -- `sorted(xs, key=key)`
  unfoldable pub sort_by : List A → List A
  unfolding insert_by
  sort_by [] = []
  sort_by (x ∷ xs) = insert_by x (sort_by xs)

  pub length-insert_by : (x : A) (xs : List A) → length (insert_by x xs) ≡ suc (length xs)
  unfolding insert_by
  length-insert_by x [] = refl
  length-insert_by x (y ∷ ys) = ground (arith, length-insert_by x ys)

  pub length-sort_by : (xs : List A) → length (sort_by xs) ≡ length xs
  unfolding sort_by
  length-sort_by [] = refl
  length-sort_by (x ∷ xs) = length-insert_by x (sort_by xs) ∙ ap suc (length-sort_by xs)

-- `sorted(xs)`
abbrev pub sort : List String → List String
sort xs = sort_by (λ x. x) xs

module _ {ℓ} {A : Type ℓ} (key : A → String) where
  map-insert_by :
      (x : A) (xs : List A) → map key (insert_by key x xs) ≡ insert_by (λ y. y) (key x) (map key xs)
  unfolding insert_by
  map-insert_by x [] = refl
  map-insert_by x (y ∷ ys) = ground (arith, map-insert_by x ys)

  -- The keys of the sorted values are the sorted keys.
  pub map-sort_by : (xs : List A) → map key (sort_by key xs) ≡ sort (map key xs)
  unfolding sort_by
  map-sort_by [] = refl
  map-sort_by (x ∷ xs) =
      map-insert_by x (sort_by key xs) ∙ ap (insert_by (λ y. y) (key x)) (map-sort_by xs)

mem-insert_by :
    (x k : String) (xs : List String) → mem k (insert_by (λ y. y) x xs) ≡ (x == k || mem k xs)
unfolding mem insert_by
mem-insert_by x k [] = refl
mem-insert_by x k (y ∷ ys) = ground (arith, mem-insert_by x k ys)

pub mem-sort : (k : String) (xs : List String) → mem k (sort xs) ≡ mem k xs
unfolding sort_by mem
mem-sort k [] = refl
mem-sort k (x ∷ xs) = ground (arith, mem-insert_by x k (sort xs), mem-sort k xs)

distinct-insert_by :
    (x : String) (xs : List String)
    → distinct (insert_by (λ y. y) x xs) ≡ (not (mem x xs) && distinct xs)
unfolding distinct insert_by mem
distinct-insert_by x [] = refl
distinct-insert_by x (y ∷ ys) =
    ground (arith, distinct-insert_by x ys, mem-insert_by x y ys, eq_iff x y, eq_iff y x)

pub distinct-sort : (xs : List String) → distinct (sort xs) ≡ distinct xs
unfolding sort_by distinct
distinct-sort [] = refl
distinct-sort (x ∷ xs) =
    ground (arith, distinct-insert_by x (sort xs), distinct-sort xs, mem-sort x xs)

-- `x` stands before every element of the list.
unfoldable pub below_all : String → List String → Bool
below_all x [] = true
below_all x (y ∷ ys) = str_le x y && below_all x ys

unfoldable pub is_sorted : List String → Bool
unfolding below_all
is_sorted [] = true
is_sorted (x ∷ xs) = below_all x xs && is_sorted xs

below_all_mono :
    (x y : String) (ys : List String)
    → str_le x y ≡ true
    → below_all y ys ≡ true
    → below_all x ys ≡ true
unfolding below_all
below_all_mono x y [] h k = refl
below_all_mono x y (z ∷ ys) h k = ground (arith, below_all_mono x y ys, str_le_trans x y z)

below_all-insert_by :
    (x y : String) (ys : List String)
    → str_le y x ≡ true
    → below_all y ys ≡ true
    → below_all y (insert_by (λ z. z) x ys) ≡ true
unfolding below_all insert_by
below_all-insert_by x y [] h k = ground arith
below_all-insert_by x y (z ∷ ys) h k = ground (arith, below_all-insert_by x y ys)

insert_by-is_sorted :
    (x : String) (ys : List String)
    → is_sorted ys ≡ true
    → is_sorted (insert_by (λ z. z) x ys) ≡ true
unfolding is_sorted insert_by
insert_by-is_sorted x [] h = refl
insert_by-is_sorted x (y ∷ ys) h = ground (
  arith,
  insert_by-is_sorted x ys,
  below_all_mono x y ys,
  below_all-insert_by x y ys,
  str_le_total x y,
)

pub sort-is_sorted : (xs : List String) → is_sorted (sort xs) ≡ true
unfolding sort_by is_sorted
sort-is_sorted [] = refl
sort-is_sorted (x ∷ xs) = insert_by-is_sorted x (sort xs) (sort-is_sorted xs)

insert_by_below :
    (x : String) (xs : List String) → below_all x xs ≡ true → insert_by (λ z. z) x xs ≡ x ∷ xs
unfolding insert_by below_all
insert_by_below x [] h = refl
insert_by_below x (y ∷ ys) h = ground arith

-- Sorting a sorted list changes nothing.
pub sort_self : (xs : List String) → is_sorted xs ≡ true → sort xs ≡ xs
unfolding sort_by is_sorted
sort_self [] h = refl
sort_self (x ∷ xs) h = ground (arith, sort_self xs, insert_by_below x xs)
