-- ===== src/Redirects.antt =====
-- `follow_redirects` of docs-api/app/corpus_structure.py: the end of a chain of redirects.
use docplane.Base.{
  ℕ, zero, suc, ◌+◌, ◌<◌, String, ◌≡◌, refl, ap, ◌⊎◌, true, Option, none, some, List, [], ◌∷◌,
  arith, ◌==◌, eq_iff, if◌then◌else◌, is_some, Option-cases, Bool-cases, inl, inr, subst,
}
use docplane.Base.Lists.{length}
use docplane.Base.Sets.{mem, distinct, distinct-length}
use docplane.Base.Dict.{Dict, keys, lookup, mem-keys}

-- The loop on fuel: `none` is a loop that has not ended, `some none` the `None` of a cycle.
unfoldable pub follow : ℕ → Dict String → String → List String → Option (Option String)
unfolding lookup mem
follow zero redirects current seen = none
follow (suc fuel) redirects current seen = elim (lookup current redirects) [
  | none ↦ some (some current)
  | some next ↦
      let further = follow fuel redirects next (current ∷ seen) in
      if mem current seen then some none else further
]

-- `follow_redirects`, with a turn for each redirect and one more.
unfoldable pub follow_redirects : String → Dict String → Option (Option String)
unfolding follow
follow_redirects path redirects = follow (suc (length (keys redirects))) redirects path []

-- Every source seen so far is one of the redirects, and each was seen once.
follow_enough :
    (fuel : ℕ) (redirects : Dict String) (current : String) (seen : List String)
    → distinct seen ≡ true
    → ((k : String) → mem k seen ≡ true → mem k (keys redirects) ≡ true)
    → length (keys redirects) < fuel + length seen
    → is_some (follow fuel redirects current seen) ≡ true
unfolding follow distinct mem
follow_enough zero redirects current seen d h l =
    ground (arith, distinct-length seen (keys redirects) d h)
follow_enough (suc fuel) redirects current seen d h l =
    elim (Option-cases (lookup current redirects)) [
      | inl e ↦ ground arith
      | inr (next, e) ↦ elim (Bool-cases (mem current seen)) [
        | inl m ↦ ground arith
        | inr m ↦ ground (
          arith,
          follow_enough fuel redirects next (current ∷ seen) (ground (arith, distinct))
              (λ k n. ground (arith, mem, h k, mem-keys k redirects, eq_iff current k))
              (omega arith),
        )
      ]
    ]

-- The page that a number of hops leads to, if there are so many.
unfoldable pub hops : ℕ → Dict String → String → Option String
unfolding lookup
hops zero redirects x = some x
hops (suc n) redirects x = elim (lookup x redirects) [
  | none ↦ none
  | some next ↦ hops n redirects next
]

-- The loop ends at a page that is no source and that some hops lead to.
follow-IsEnd :
    (fuel : ℕ) (redirects : Dict String) (current : String) (seen : List String) (end : String)
    → follow fuel redirects current seen ≡ some (some end)
    → (lookup end redirects ≡ none) × ((n : ℕ) × (hops n redirects current ≡ some end))
unfolding follow hops
follow-IsEnd zero redirects current seen end h = ground arith
follow-IsEnd (suc fuel) redirects current seen end h =
    elim (Option-cases (lookup current redirects)) [
      | inl e ↦ (ground arith, (0, ground arith))
      | inr (next, e) ↦
          let later = follow-IsEnd fuel redirects next (current ∷ seen) end (ground arith) in
          (later.0, (suc later.1.0, ground (arith, later.1.1)))
    ]

-- A cycle in sight: a page that some hops lead to, and from which one hop or more lead back to it.
abbrev pub IsCycle : Dict String → String → Type 0
IsCycle redirects path =
    (x : String) × (n : ℕ) × (m : ℕ) × (hops n redirects path ≡ some x)
    × (hops (suc m) redirects x ≡ some x)

hops_last :
    (n : ℕ) (redirects : Dict String) (x y z : String)
    → hops n redirects x ≡ some y
    → lookup y redirects ≡ some z
    → hops (suc n) redirects x ≡ some z
unfolding hops
hops_last zero redirects x y z h k = ground (arith, ap (λ i. lookup i redirects) {x = x} {y = y})
hops_last (suc n) redirects x y z h k = elim (Option-cases (lookup x redirects)) [
  | inl e ↦ ground arith
  | inr (next, e) ↦ ground (arith, hops_last n redirects next y z)
]

-- Some hops lead from the path to the page, and some more, at least one, on to the current page.
abbrev OnTheWay : Dict String → String → String → String → Type 0
OnTheWay redirects path current k =
    (n : ℕ) × (m : ℕ) × (hops n redirects path ≡ some k) × (hops (suc m) redirects k ≡ some current)

seen_next :
    (redirects : Dict String) (path current next : String) (seen : List String) (n : ℕ)
    → hops n redirects path ≡ some current
    → lookup current redirects ≡ some next
    → ((k : String) → mem k seen ≡ true → OnTheWay redirects path current k)
    → (k : String) → mem k (current ∷ seen) ≡ true
    → OnTheWay redirects path next k
unfolding mem hops
seen_next redirects path current next seen n h e s k m = elim (Bool-cases (current == k)) [
  | inl same ↦
      let one : hops 1 redirects current ≡ some next = ground arith in
      subst (OnTheWay redirects path next) (ground (arith, eq_iff current k)) (n, 0, h, one)
  | inr other ↦
      let before = s k (ground arith) in
      (
        before.0,
        suc before.1,
        before.2,
        hops_last (suc before.1) redirects k current next before.3 e,
      )
]

follow-IsCycle :
    (fuel : ℕ) (redirects : Dict String) (path current : String) (seen : List String) (n : ℕ)
    → hops n redirects path ≡ some current
    → ((k : String) → mem k seen ≡ true → OnTheWay redirects path current k)
    → follow fuel redirects current seen ≡ some none
    → IsCycle redirects path
unfolding follow
follow-IsCycle zero redirects path current seen n h s f = ground arith
follow-IsCycle (suc fuel) redirects path current seen n h s f =
    elim (Option-cases (lookup current redirects)) [
      | inl e ↦ ground arith
      | inr (next, e) ↦ elim (Bool-cases (mem current seen)) [
        | inl m ↦ let before = s current m in (current, before.0, before.1, before.2, before.3)
        | inr m ↦
            follow-IsCycle fuel redirects path next (current ∷ seen) (suc n)
              (hops_last n redirects path current next h e)
              (seen_next redirects path current next seen n h e s) (ground arith)
      ]
    ]

-- The loop ends for any redirects, however they chain or turn in circles. It answers a page that is
-- no source and that some hops from the path lead to, or it answers nothing, and then some hops lead
-- to a page from which one hop or more lead back to it.
pub follow_redirects_total :
    (path : String) (redirects : Dict String)
    → ((end : String) × (follow_redirects path redirects ≡ some (some end))
        × (lookup end redirects ≡ none)
        × ((n : ℕ) × (hops n redirects path ≡ some end)))
      ⊎ ((follow_redirects path redirects ≡ some none) × IsCycle redirects path)
unfolding follow_redirects hops mem distinct
follow_redirects_total path redirects =
    let enough =
      follow_enough (suc (length (keys redirects))) redirects path [] refl (λ k m. ground arith)
        (omega arith) in
    elim (Option-cases (follow (suc (length (keys redirects))) redirects path [])) [
      | inl e ↦ ground arith
      | inr (none, e) ↦ inr (
        e,
        follow-IsCycle (suc (length (keys redirects))) redirects path path [] 0 refl
            (λ k m. ground arith) e,
      )
      | inr (some end, e) ↦
          let done = follow-IsEnd (suc (length (keys redirects))) redirects path [] end e in
          inl (end, e, done.0, done.1)
    ]
