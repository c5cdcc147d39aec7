-- ===== src/Runner/Accept.antt =====
-- The command accepts what the WORK service answers, and accepts nothing but a partition.
use docplane.Base.{
  ℕ, ◌+◌, ◌≤◌, String, ◌≡◌, refl, ap, ◌∙◌, Bool, true, false, not, ◌&&◌, ◌||◌, List, [], ◌∷◌, ◌++◌,
  arith, ◌==◌, eq_iff, eq_refl,
}
use docplane.Base.Lists.{length, any, keep, length-append, length-keep-le}
use docplane.Base.Sets.{
  mem, dedup, distinct, mem-append, mem-dedup, dedup_self, dedup-append, AreDisjoint,
  distinct-append,
}
use docplane.Checked.{passed}
use docplane.Runner.{Collections, together, same_texts, same_set, check_partition}

pub same_texts_sound : (xs ys : List String) → same_texts xs ys ≡ true → xs ≡ ys
unfolding same_texts
same_texts_sound [] [] h = refl
same_texts_sound [] (y ∷ ys) h = cc
same_texts_sound (x ∷ xs) [] h = cc
same_texts_sound (x ∷ xs) (y ∷ ys) h = ground (arith, eq_iff x y, same_texts_sound xs ys)

pub same_texts_refl : (xs : List String) → same_texts xs xs ≡ true
unfolding same_texts
same_texts_refl [] = refl
same_texts_refl (x ∷ xs) = ground (arith, eq_refl x, same_texts_refl xs)

any-false :
    (q : String → Bool) (xs : List String) (k : String)
    → any q xs ≡ false
    → mem k xs ≡ true
    → q k ≡ false
unfolding any mem
any-false q [] k h m = cc
any-false q (x ∷ xs) k h m = ground (arith, any-false q xs k, eq_iff x k)

pub any_of :
    (q : String → Bool) (xs : List String)
    → ((k : String) → mem k xs ≡ true → q k ≡ false)
    → any q xs ≡ false
unfolding any mem
any_of q [] h = refl
any_of q (x ∷ xs) h = ground (arith, h x, eq_iff x x, any_of q xs (λ k m. h k (ground arith)))

same_set_sound : (xs ys : List String) → same_set xs ys ≡ true → (k : String) → mem k xs ≡ mem k ys
unfolding same_set
same_set_sound xs ys h k =
    ground (arith, any-false (λ x. not (mem x ys)) xs k, any-false (λ y. not (mem y xs)) ys k)

same_set_of : (xs ys : List String) → ((k : String) → mem k xs ≡ mem k ys) → same_set xs ys ≡ true
unfolding same_set
same_set_of xs ys h = ground (
  arith,
  any_of (λ x. not (mem x ys)) xs (λ k m. ground (arith, h k)),
  any_of (λ y. not (mem y xs)) ys (λ k m. ground (arith, h k)),
)

-- A list that is as long as its set repeats nothing.
length-dedup-le : (xs : List String) → length (dedup xs) ≤ length xs
unfolding dedup
length-dedup-le [] = omega arith
length-dedup-le (x ∷ xs) =
    omega (arith, length-keep-le (λ y. not (y == x)) (dedup xs), length-dedup-le xs)

keeps_all :
    (q : String → Bool) (xs : List String) (k : String)
    → length (keep q xs) ≡ length xs
    → mem k xs ≡ true
    → q k ≡ true
unfolding keep mem
keeps_all q [] k h m = cc
keeps_all q (x ∷ xs) k h m = ground (arith, keeps_all q xs k, length-keep-le q xs, eq_iff x k)

distinct_of_length : (xs : List String) → length (dedup xs) ≡ length xs → distinct xs ≡ true
unfolding dedup distinct
distinct_of_length [] h = refl
distinct_of_length (x ∷ xs) h = ground (
  arith,
  length-keep-le (λ y. not (y == x)) (dedup xs),
  length-dedup-le xs,
  distinct_of_length xs,
  keeps_all (λ y. not (y == x)) (dedup xs) x,
  mem-dedup x xs,
  eq_iff x x,
)

-- In how many of the four lists a kind stands.
abbrev pub count_if : Bool → ℕ
count_if true = 1
count_if false = 0

abbrev pub places : String → Collections → ℕ
places k c =
    count_if (mem k c.opened)
    + count_if (mem k c.reopened)
    + count_if (mem k c.refreshed)
    + count_if (mem k c.continuing)

length-dedup-append :
    (xs ys : List String)
    → (length (dedup (xs ++ ys)) ≤ length (dedup xs) + length (dedup ys))
      × (length (dedup (xs ++ ys)) ≡ length (dedup xs) + length (dedup ys) → AreDisjoint xs ys)
length-dedup-append xs ys =
    let only = keep (λ y. not (mem y xs)) (dedup ys) in
    let size : length (dedup (xs ++ ys)) ≡ length (dedup xs) + length only =
      rw dedup-append (length-append (dedup xs) only) in
    (
      omega (arith, size, length-keep-le (λ y. not (mem y xs)) (dedup ys)),
      λ e k. ground (
        arith,
        keeps_all (λ y. not (mem y xs)) (dedup ys) k (omega (arith, size)),
        mem-dedup k ys,
      ),
    )

abbrev size_sum : Collections → ℕ
size_sum c =
    length (dedup c.opened)
    + length (dedup c.reopened)
    + length (dedup c.refreshed)
    + length (dedup c.continuing)

partition_tests :
    (desired : List String) (c : Collections)
    → check_partition desired c ≡ passed tt
    → (same_texts c.desired_condition_kinds desired ≡ true)
      × (size_sum c ≡ length (dedup (together c)))
      × (same_set (together c) desired ≡ true)
      × (any (λ k. mem k desired) c.resolved ≡ false)
unfolding check_partition
partition_tests desired c h = ground arith

mem-together :
    (k : String) (c : Collections)
    → mem k (together c)
      ≡ (mem k c.opened || (mem k c.reopened || (mem k c.refreshed || mem k c.continuing)))
mem-together k c = rw (
  mem-append k c.opened (c.reopened ++ (c.refreshed ++ c.continuing)),
  mem-append k c.reopened (c.refreshed ++ c.continuing),
  mem-append k c.refreshed c.continuing,
)

-- Where the sizes add up, no kind stands in two of the four lists.
disjoint_of_size :
    (c : Collections)
    → size_sum c ≡ length (dedup (together c))
    → AreDisjoint c.opened (c.reopened ++ (c.refreshed ++ c.continuing))
      × AreDisjoint c.reopened (c.refreshed ++ c.continuing)
      × AreDisjoint c.refreshed c.continuing
disjoint_of_size c e =
    let (le1, d1) = length-dedup-append c.opened (c.reopened ++ (c.refreshed ++ c.continuing)) in
    let (le2, d2) = length-dedup-append c.reopened (c.refreshed ++ c.continuing) in
    let (le3, d3) = length-dedup-append c.refreshed c.continuing in
    (d1 (omega arith), d2 (omega arith), d3 (omega arith))

places_of_size :
    (k : String) (c : Collections)
    → size_sum c ≡ length (dedup (together c))
    → places k c ≡ count_if (mem k (together c))
places_of_size k c e =
    let (d1, d2, d3) = disjoint_of_size c e in
    ground (
      arith,
      d1 k,
      d2 k,
      d3 k,
      mem-together k c,
      mem-append k c.reopened (c.refreshed ++ c.continuing),
      mem-append k c.refreshed c.continuing,
    )

-- What passes the check is a partition: the desired kinds are those of the request, each of them
-- stands in exactly one of the four lists, no other kind stands in any, and no desired kind is
-- resolved.
pub check_partition_sound :
    (desired : List String) (c : Collections)
    → check_partition desired c ≡ passed tt
    → (c.desired_condition_kinds ≡ desired)
      × ((k : String) → places k c ≡ count_if (mem k desired))
      × ((k : String) → (mem k c.resolved && mem k desired) ≡ false)
check_partition_sound desired c h =
    let (same, size, set, none_resolved) = partition_tests desired c h in
    (
      same_texts_sound c.desired_condition_kinds desired same,
      (λ k. places_of_size k c size ∙ ap count_if (same_set_sound (together c) desired set k)),
      (λ k. ground (arith, any-false (λ i. mem i desired) c.resolved k none_resolved)),
    )

-- The check passes what is a partition into lists without repetition.
pub check_partition_complete :
    (desired : List String) (c : Collections)
    → c.desired_condition_kinds ≡ desired
    → (distinct c.opened ≡ true)
      × (distinct c.reopened ≡ true)
      × (distinct c.refreshed ≡ true)
      × (distinct c.continuing ≡ true)
    → ((k : String) → places k c ≡ count_if (mem k desired))
    → ((k : String) → (mem k c.resolved && mem k desired) ≡ false)
    → check_partition desired c ≡ passed tt
unfolding check_partition
check_partition_complete desired c e d p r =
    let rest = c.reopened ++ (c.refreshed ++ c.continuing) in
    let tail = c.refreshed ++ c.continuing in
    let d3 = distinct-append c.refreshed c.continuing d.2 d.3 (λ k. ground (arith, p k)) in
    let d2 =
      distinct-append c.reopened tail d.1 d3
        (λ k. ground (arith, p k, mem-append k c.refreshed c.continuing)) in
    let d1 = distinct-append c.opened rest d.0 d2 (λ k.
      ground (arith, p k, mem-append k c.refreshed c.continuing, mem-append k c.reopened tail)) in
    ground (
      arith,
      same_texts_refl desired,
      e,
      dedup_self c.opened d.0,
      dedup_self c.reopened d.1,
      dedup_self c.refreshed d.2,
      dedup_self c.continuing d.3,
      dedup_self (together c) d1,
      length-append c.opened rest,
      length-append c.reopened tail,
      length-append c.refreshed c.continuing,
      same_set_of (together c) desired (λ k. ground (arith, p k, mem-together k c)),
      any_of (λ k. mem k desired) c.resolved (λ k m. ground (arith, r k)),
    )
