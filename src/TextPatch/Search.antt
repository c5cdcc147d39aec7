-- ===== src/TextPatch/Search.antt =====
-- The search loop of docs-api/app/text_patch.py: it ends, and what it finds are occurrences.
use docplane.Base.{
  ℕ, zero, suc, ◌+◌, ◌-◌, ◌≤◌, ◌<◌, String, ◌≡◌, refl, true, false, none, some, List, [], ◌∷◌,
  arith, ◌==◌, is_some, Option-cases, inl, inr, subst,
}
use docplane.Base.Slices.{
  str_len, drop, begins, find, find-begins, find-bound, str_len-drop, drop-drop, find-least,
  find-none,
}
use docplane.TextPatch.{find_at, starts_from, occurrences}

pub str_len-pos : (s : String) → (s == "") ≡ false → 0 < str_len s
unfolding str_len
str_len-pos String.[] h = ground arith
str_len-pos (String.◌∷◌ c s) h = omega arith

-- A place that `find` answers lies between the cursor and the end.
find_at-bounds :
    (content old : String) (cursor found : ℕ)
    → 0 < str_len old
    → find_at content old cursor ≡ some found
    → (cursor ≤ found) × (found + str_len old ≤ str_len content)
unfolding find_at
find_at-bounds content old cursor found h k = elim (Option-cases (find old (drop cursor content))) [
  | inl e ↦ ground arith
  | inr (n, e) ↦
      ground (arith, find-bound old (drop cursor content) n e, str_len-drop cursor content)
]

-- The old text stands at the place that `find` answers.
find_at-begins :
    (content old : String) (cursor found : ℕ)
    → find_at content old cursor ≡ some found
    → begins old (drop found content) ≡ true
unfolding find_at
find_at-begins content old cursor found k = elim (Option-cases (find old (drop cursor content))) [
  | inl e ↦ ground arith
  | inr (n, e) ↦
      ground (arith, find-begins old (drop cursor content) n e, drop-drop cursor n found content)
]

-- The fuel is enough: every turn moves the cursor on by at least one code point.
pub starts_from-enough :
    (fuel : ℕ) (content old : String) (cursor : ℕ)
    → 0 < str_len old
    → cursor ≤ str_len content
    → str_len content < fuel + cursor
    → is_some (starts_from fuel content old cursor) ≡ true
unfolding starts_from
starts_from-enough zero content old cursor h k l = ground arith
starts_from-enough (suc fuel) content old cursor h k l =
    elim (Option-cases (find_at content old cursor)) [
      | inl e ↦ ground arith
      | inr (found, e) ↦ ground (
        arith,
        find_at-bounds content old cursor found h e,
        starts_from-enough fuel content old (found + str_len old) h,
      )
    ]

-- The places of the old text from the cursor on, read from the left without overlap, and no other:
-- each is the first behind the one before, and none is left behind the last.
abbrev pub IsScan : String → String → ℕ → List ℕ → Type 0
IsScan content old cursor [] = (m : ℕ) → cursor ≤ m → begins old (drop m content) ≡ false
IsScan content old cursor (at ∷ starts) =
    (cursor ≤ at)
    × (at + str_len old ≤ str_len content)
    × (begins old (drop at content) ≡ true)
    × ((m : ℕ) → cursor ≤ m → m < at → begins old (drop m content) ≡ false)
    × IsScan content old (at + str_len old) starts

find_at-least :
    (content old : String) (cursor found m : ℕ)
    → find_at content old cursor ≡ some found
    → cursor ≤ m
    → m < found
    → begins old (drop m content) ≡ false
unfolding find_at
find_at-least content old cursor found m k l u =
    elim (Option-cases (find old (drop cursor content))) [
      | inl e ↦ ground arith
      | inr (n, e) ↦ ground (
        arith,
        find-least old (drop cursor content) n (m - cursor) e,
        drop-drop cursor (m - cursor) m content,
      )
    ]

find_at-none :
    (content old : String) (cursor m : ℕ)
    → find_at content old cursor ≡ none
    → cursor ≤ m
    → begins old (drop m content) ≡ false
unfolding find_at
find_at-none content old cursor m k l = elim (Option-cases (find old (drop cursor content))) [
  | inl e ↦ ground (
    arith,
    find-none old (drop cursor content) (m - cursor) e,
    drop-drop cursor (m - cursor) m content,
  )
  | inr (n, e) ↦ ground arith
]

starts_from-IsScan :
    (fuel : ℕ) (content old : String) (cursor : ℕ) (starts : List ℕ)
    → 0 < str_len old
    → starts_from fuel content old cursor ≡ some starts
    → IsScan content old cursor starts
unfolding starts_from
starts_from-IsScan zero content old cursor starts h k = ground arith
starts_from-IsScan (suc fuel) content old cursor starts h k =
    elim (Option-cases (find_at content old cursor)) [
      | inl e ↦
          let same : [] ≡ starts = ground arith in
          subst (IsScan content old cursor) same (λ m. find_at-none content old cursor m e)
      | inr (found, e) ↦ elim (Option-cases (starts_from fuel content old (found + str_len old))) [
        | inl e2 ↦ ground arith
        | inr (later, e2) ↦
            let bounds = find_at-bounds content old cursor found h e in
            let same : (found ∷ later) ≡ starts = ground arith in
            subst (IsScan content old cursor) same (
              bounds.0,
              bounds.1,
              find_at-begins content old cursor found e,
              λ m. find_at-least content old cursor found m e,
              starts_from-IsScan fuel content old (found + str_len old) later h e2,
            )
      ]
    ]

-- The loop ends on the fuel that `occurrences` gives it, for an old text that is not empty, and
-- `starts` holds the places of the old text that a reading from the left meets.
pub occurrences-IsScan :
    (content old : String)
    → (old == "") ≡ false
    → (starts_from (suc (str_len content)) content old 0 ≡ some (occurrences content old))
      × IsScan content old 0 (occurrences content old)
unfolding occurrences
occurrences-IsScan content old h =
    let steps = suc (str_len content) in
    elim (Option-cases (starts_from steps content old 0)) [
      | inl e ↦ ground (
        arith,
        starts_from-enough steps content old 0 (str_len-pos old h) (omega arith) (omega arith),
      )
      | inr (starts, e) ↦
          rw e (refl, starts_from-IsScan steps content old 0 starts (str_len-pos old h) e)
    ]
