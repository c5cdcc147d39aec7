-- ===== src/Publication/Sound.antt =====
-- What the checks of `evaluate_change` establish of the corpus that a passed change makes.
use docplane.Base.{
  ◌≤◌, String, ◌≡◌, refl, sym, ap, ◌∙◌, Bool, true, false, not, ◌&&◌, Option, none, some, List, [],
  ◌∷◌, ◌++◌, map, arith, ◌==◌, eq_iff,
}
use docplane.Base.Lists.{keep, length, nonempty, length-keep-le}
use docplane.Base.Sets.{mem, dedup, distinct, length-keep-lt, mem-dedup}
use docplane.Base.Sorting.{length-sort_by}
use docplane.Base.Dict.{Dict, keys}
use docplane.Attempt.{Problem, problem, silent}
use docplane.Publication.Types.{Page, Operation, Candidate, Env}
use docplane.Publication.Checks.{
  paths, active_pages, redirect_source_active_page_conflicts, redirect_errors, corpus_errors,
  one_error, nav_errors, path_collision, conflict_errors,
}
use docplane.Publication.Evaluate.{
  Corpus, start, evaluate_operations, repaired, checked, evaluate_change, passed,
}

length-dedup-le : (xs : List String) → length (dedup xs) ≤ length xs
unfolding dedup
length-dedup-le [] = omega arith
length-dedup-le (x ∷ xs) =
    omega (arith, length-dedup-le xs, length-keep-le (λ y. not (y == x)) (dedup xs))

-- A list as long as its set holds no text twice.
length-dedup-distinct : (xs : List String) → length xs ≡ length (dedup xs) → distinct xs ≡ true
unfolding dedup distinct
length-dedup-distinct [] h = refl
length-dedup-distinct (x ∷ xs) h = ground (
  arith,
  length-dedup-distinct xs,
  length-dedup-le xs,
  length-keep-le (λ y. not (y == x)) (dedup xs),
  length-keep-lt x (dedup xs),
  mem-dedup x xs,
)

-- No redirect leads to itself, and each leads to an active page.
unfoldable pub redirects_lead : List String → Dict String → Bool
unfolding mem
redirects_lead active [] = true
redirects_lead active ((source, target) ∷ redirects) =
    not (source == target) && mem target active && redirects_lead active redirects

redirect_errors-nil :
    (active : List String) (redirects : Dict String)
    → redirect_errors active redirects ≡ []
    → redirects_lead active redirects ≡ true
unfolding redirect_errors redirects_lead
redirect_errors-nil active [] h = refl
redirect_errors-nil active ((source, target) ∷ redirects) h =
    ground (arith, redirect_errors-nil active redirects)

keep-nil :
    (p : String → Bool) (xs : List String) (k : String) → keep p xs ≡ [] → (p k && mem k xs) ≡ false
unfolding keep mem
keep-nil p [] k h = ground arith
keep-nil p (x ∷ xs) k h = ground (arith, keep-nil p xs k, eq_iff x k)

-- A corpus that can be published: no two active pages at a path, no redirect from the path of an
-- active page, and every redirect leads to an active page, which is another path.
abbrev pub IsConsistent : List Page → Dict String → Type 0
IsConsistent pages redirects =
    (distinct (paths (active_pages pages)) ≡ true)
    × ((k : String) → (mem k (keys redirects) && mem k (paths (active_pages pages))) ≡ false)
    × (redirects_lead (paths (active_pages pages)) redirects ≡ true)

append-nil_both : {A : Type 0} (xs ys : List A) → xs ++ ys ≡ [] → (xs ≡ []) × (ys ≡ [])
append-nil_both [] ys h = (refl, h)
append-nil_both (x ∷ xs) ys h = ground arith

one_error-nil : (b : Bool) (p : Problem) → one_error b p ≡ [] → b ≡ false
one_error-nil true p h = ground arith
one_error-nil false p h = refl

map-nil : {A B : Type 0} (f : A → B) (xs : List A) → map f xs ≡ [] → xs ≡ []
map-nil f [] h = refl
map-nil f (x ∷ xs) h = ground arith

length-nil : {A : Type 0} (xs : List A) → length xs ≡ 0 → xs ≡ []
length-nil [] h = refl
length-nil (x ∷ xs) h = ground arith

conflicts-nil :
    (active : List String) (redirects : Dict String) (k : String)
    → conflict_errors active redirects ≡ []
    → (mem k (keys redirects) && mem k active) ≡ false
unfolding conflict_errors redirect_source_active_page_conflicts
conflicts-nil active redirects k h = ground (
  arith,
  keep-nil (λ source. mem source active) (keys redirects) k
      (length-nil _ (
        sym (length-sort_by (λ x. x) (keep (λ source. mem source active) (keys redirects)))
        ∙ ap length (map-nil _ _ h))),
)

path_collision-nil : (active : List String) → path_collision active ≡ [] → distinct active ≡ true
unfolding path_collision
path_collision-nil active h = length-dedup-distinct active (ground (arith, one_error-nil _ _ h))

nav_errors-nil : (o : Option Problem) → nav_errors o ≡ [] → o ≡ none
nav_errors-nil none h = refl
nav_errors-nil (some p) h = ground arith

pub corpus_errors-IsConsistent :
    (env : Env) (c : Candidate)
    → corpus_errors env c ≡ []
    → IsConsistent c.pages c.redirects × (env.nav_conflict (active_pages c.pages) c.sections ≡ none)
unfolding corpus_errors
corpus_errors-IsConsistent env c h =
    let active = paths (active_pages c.pages) in
    let nav = nav_errors (env.nav_conflict (active_pages c.pages) c.sections) in
    let first =
      append-nil_both (path_collision active)
        (conflict_errors active c.redirects ++ (redirect_errors active c.redirects ++ nav)) h in
    let second =
      append-nil_both (conflict_errors active c.redirects)
        (redirect_errors active c.redirects ++ nav) first.1 in
    let third = append-nil_both (redirect_errors active c.redirects) nav second.1 in
    (
      (
        path_collision-nil active first.0,
        λ k. conflicts-nil active c.redirects k second.0,
        redirect_errors-nil active c.redirects third.0,
      ),
      nav_errors-nil (env.nav_conflict (active_pages c.pages) c.sections) third.1,
    )

nonempty-nil : {A : Type 0} (xs : List A) → not (nonempty xs) ≡ true → xs ≡ []
nonempty-nil [] h = refl
nonempty-nil (x ∷ xs) h = ground arith

-- A passed change had operations, and the corpus that it makes is consistent and has a navigation.
pub evaluate_change-IsConsistent :
    (env : Env) (operations : List Operation) (corpus : Corpus)
    → passed (evaluate_change env operations corpus) ≡ true
    → let c = (evaluate_change env operations corpus).candidate in
      (nonempty operations ≡ true)
      × IsConsistent c.pages c.redirects
      × (env.nav_conflict (active_pages c.pages) c.sections ≡ none)
unfolding evaluate_change checked
evaluate_change-IsConsistent env operations corpus h =
    let e = repaired env corpus (evaluate_operations env operations (start env corpus)) in
    let none_at_all = nonempty-nil (evaluate_change env operations corpus).errors h in
    let behind =
      append-nil_both e.errors
        (one_error (not (nonempty operations)) (problem "CHANGE_HAS_NO_OPERATIONS" silent)
          ++ corpus_errors env e.candidate)
        none_at_all in
    let last =
      append-nil_both
        (one_error (not (nonempty operations)) (problem "CHANGE_HAS_NO_OPERATIONS" silent))
        (corpus_errors env e.candidate) behind.1 in
    let sound = corpus_errors-IsConsistent env e.candidate last.1 in
    (ground (arith, one_error-nil (not (nonempty operations)) _ last.0), sound.0, sound.1)
