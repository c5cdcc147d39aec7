-- ===== src/Publication/Checks.antt =====
-- The checks of `evaluate_change` on the corpus that a change would make.
use docplane.Base.{
  String, Bool, not, Option, none, some, List, [], ◌∷◌, ◌++◌, map, ◌==◌, if◌then◌else◌, eqb,
}
use docplane.Base.Lists.{keep, length}
use docplane.Base.Sets.{mem, dedup}
use docplane.Base.Sorting.{sort}
use docplane.Base.Dict.{Dict, keys}
use docplane.Attempt.{Problem, problem, about, names, silent}
use docplane.Publication.Types.{Page, Candidate, Env, is_active}

abbrev pub paths : List Page → List String
paths ps = map (λ p. p.path) ps

abbrev pub active_pages : List Page → List Page
active_pages ps = keep is_active ps

-- `redirect_source_active_page_conflicts`
unfoldable pub redirect_source_active_page_conflicts : List String → Dict String → List String
unfolding keep mem
redirect_source_active_page_conflicts active_paths redirects =
    sort (keep (λ source. mem source active_paths) (keys redirects))

abbrev pub one_error : Bool → Problem → List Problem
one_error b p = if b then p ∷ [] else []

-- The loop over the redirects.
unfoldable pub redirect_errors : List String → Dict String → List Problem
unfolding mem
redirect_errors active [] = []
redirect_errors active ((source, target) ∷ redirects) =
    one_error (source == target) (problem "REDIRECT_SELF_LOOP" (about source))
    ++ (one_error (not (mem target active))
          (problem "REDIRECT_TARGET_MISSING" (names (source ∷ target ∷ [])))
        ++ redirect_errors active redirects)

abbrev pub nav_errors : Option Problem → List Problem
nav_errors none = []
nav_errors (some p) = p ∷ []

-- `len(active_paths) != len(set(active_paths))`
unfoldable pub path_collision : List String → List Problem
unfolding dedup
path_collision active =
    one_error (not (eqb (length active) (length (dedup active))))
      (problem "ACTIVE_PATH_COLLISION" silent)

unfoldable pub conflict_errors : List String → Dict String → List Problem
unfolding redirect_source_active_page_conflicts
conflict_errors active redirects =
    map (λ source. problem "REDIRECT_SOURCE_IS_ACTIVE_PAGE" (about source))
      (redirect_source_active_page_conflicts active redirects)

-- The errors of the corpus that the operations have made.
unfoldable pub corpus_errors : Env → Candidate → List Problem
unfolding path_collision conflict_errors redirect_errors keep
corpus_errors env c =
    let active = paths (active_pages c.pages) in
    path_collision active
    ++ (conflict_errors active c.redirects
        ++ (redirect_errors active c.redirects
            ++ nav_errors (env.nav_conflict (active_pages c.pages) c.sections)))
