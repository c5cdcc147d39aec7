-- ===== src/Publication/Evaluate.antt =====
-- `evaluate_change` of docs-api/app/publication.py: the guards of an operation, the loop over the
-- operations, the repair of links after moves, and the checks of the resulting corpus.
use docplane.Base.{
  ℕ, String, Bool, true, false, not, ◌&&◌, ◌||◌, Option, none, some, List, [], ◌∷◌, ◌++◌, ◌==◌,
  if◌then◌else◌,
}
use docplane.Base.Lists.{nonempty}
use docplane.Base.Sets.{mem}
use docplane.Base.Dict.{Dict}
use docplane.Attempt.{Problem, problem, Attempt, invalid, valid, about, names, silent}
use docplane.Publication.Types.{
  Page, Action, create_page, add_redirect, remove_redirect, reorder_sections, unsupported,
  Operation, Candidate, Evaluation, Env, is_active,
}
use docplane.Publication.Candidate.{page_of, add_to}
use docplane.Publication.Apply.{apply_action}
use docplane.Publication.Checks.{one_error, corpus_errors}

abbrev pub acts_as : Option String → String → Bool
acts_as none owner = false
acts_as (some p) owner = p == owner

-- `generated_guard_error`
unfoldable pub generated_guard_error :
    Option String → Option String → Option String → Bool → Option Problem
generated_guard_error none declared_by acting planned_owner = none
generated_guard_error (some provenance) none acting planned_owner =
    if not (provenance == "GENERATED") || planned_owner
    then none
    else some (problem "PROVENANCE_GENERATED_TOMBSTONE_PROTECTED" silent)
generated_guard_error (some provenance) (some owner) acting planned_owner =
    if not (provenance == "GENERATED") || acts_as acting owner
    then none
    else some (problem "PROVENANCE_GENERATED_PAGE_PROTECTED" silent)

-- Whether the operation addresses a page by its id.
abbrev pub needs_page : Action → Bool
needs_page (create_page p) = false
needs_page (add_redirect s t) = false
needs_page (remove_redirect s) = false
needs_page (reorder_sections o) = false
needs_page (unsupported n) = false
needs_page _ = true

abbrev pub revision_matches : Option String → String → Bool
revision_matches none revision = false
revision_matches (some r) revision = r == revision

-- The guard's error of a publication, its warning of a validation.
unfoldable pub guard_outcome : Option Problem → Option String → List Problem × List Problem
guard_outcome none acting = ([], [])
guard_outcome (some p) none = ([], p ∷ [])
guard_outcome (some p) (some principal) = (p ∷ [], [])

-- The checks in front of an operation on a page: its errors and its warnings.
unfoldable pub check_page : Env → Operation → Option Page → List Problem × List Problem
unfolding guard_outcome generated_guard_error
check_page env op none = (problem "PAGE_NOT_FOUND" silent ∷ [], [])
check_page env op (some page) =
    if not (revision_matches op.expected_revision page.revision)
    then (problem "PAGE_REVISION_STALE" (about page.revision) ∷ [], [])
    else guard_outcome
        (generated_guard_error page.provenance (env.declared_by page.resource_id)
          env.acting_principal_id (env.planned_owner page.resource_id))
        env.acting_principal_id

abbrev pub requested_page : Operation → List Page → Option Page
requested_page op pages = elim op.page_resource_id [
  | none ↦ none
  | some rid ↦ if rid == "" then none else page_of rid pages
]

unfoldable pub check_operation : Env → Operation → Candidate → List Problem × List Problem
unfolding check_page page_of
check_operation env op c =
    if needs_page op.action then check_page env op (requested_page op c.pages) else ([], [])

-- `_record_operation_result`
unfoldable pub record_operation_result :
    Operation → List Problem → List Problem → Candidate → Evaluation → Evaluation
record_operation_result op errors warnings c e = record {
  candidate = c;
  results =
      e.results
      ++ record {
        operation_id = op.operation_id;
        sequence = op.sequence;
        errors = errors;
        warnings = warnings;
        accepted = not (nonempty errors);
      }
        ∷ [];
  errors = e.errors ++ errors;
  warnings = e.warnings ++ warnings;
}

unfoldable pub attempted : Operation → List Problem → Attempt Candidate → Evaluation → Evaluation
unfolding record_operation_result
attempted op warnings (invalid p) e = record_operation_result op (p ∷ []) warnings e.candidate e
attempted op warnings (valid c) e = record_operation_result op [] warnings c e

-- One turn of the loop.
unfoldable pub evaluate_operation : Env → Operation → Evaluation → Evaluation
unfolding check_operation record_operation_result attempted apply_action page_of
evaluate_operation env op e =
    let checks = check_operation env op e.candidate in
    if nonempty checks.0
    then record_operation_result op checks.0 checks.1 e.candidate e
    else attempted op checks.1
        (apply_action env op op.action (requested_page op e.candidate.pages) e.candidate) e

unfoldable pub evaluate_operations : Env → List Operation → Evaluation → Evaluation
unfolding evaluate_operation
evaluate_operations env [] e = e
evaluate_operations env (op ∷ ops) e = evaluate_operations env ops (evaluate_operation env op e)

-- The content of a page after both plans, where neither raises.
unfoldable pub repaired_content : Env → Dict String → Page → Page → Option String
repaired_content env moves previous page =
    elim (env.plan_rewrites previous.path page.content moves) [
      | none ↦ none
      | some (changed, text) ↦
          let content = if changed then text else page.content in
          if previous.path == page.path
          then some content
          else elim (env.plan_source_move previous.path page.path content) [
            | none ↦ none
            | some (again, other) ↦ some (if again then other else content)
          ]
    ]

-- The loop over the pages: the pages with their contents, those touched now too, and whether a plan
-- has raised, which leaves the pages behind it as they are.
unfoldable pub repair_links :
    Env → List Page → Dict String → List Page → List String → List Page × List String × Bool
unfolding repaired_content page_of mem
repair_links env original moves [] touched = ([], touched, false)
repair_links env original moves (page ∷ pages) touched =
    let skipped = repair_links env original moves pages touched in
    elim (page_of page.resource_id original) [
      | none ↦ (page ∷ skipped.0, skipped.1, skipped.2)
      | some previous ↦
          if is_active page
          then elim (repaired_content env moves previous page) [
            | none ↦ (page ∷ pages, touched, true)
            | some content ↦
                if content == page.content
                then (page ∷ skipped.0, skipped.1, skipped.2)
                else let later =
                    repair_links env original moves pages (add_to page.resource_id touched) in
                  (record page { content = content } ∷ later.0, later.1, later.2)
          ]
          else (page ∷ skipped.0, skipped.1, skipped.2)
    ]

abbrev base_stale : Option String → String → List Problem
base_stale none current = []
base_stale (some expected) current =
    one_error (not (expected == "") && not (expected == current))
      (problem "BASE_STATE_IDENTITY_STALE" (names (expected ∷ current ∷ [])))

-- The corpus before a change: all rows of docs.pages, docs.redirects and docs.sections.
pub record Corpus : Type 0 where
  pub pages : List Page
  pub redirects : Dict String
  pub sections : Dict ℕ

unfoldable pub start : Env → Corpus → Evaluation
start env corpus = record {
  candidate = record {
    pages = corpus.pages;
    redirects = corpus.redirects;
    sections = corpus.sections;
    touched = [];
    created = [];
    moves = [];
  };
  results = [];
  errors =
      base_stale env.base_state_identity
        (env.state_identity corpus.pages corpus.sections corpus.redirects);
  warnings = [];
}

-- `if moves and not errors: …`
unfoldable pub repaired : Env → Corpus → Evaluation → Evaluation
unfolding repair_links
repaired env corpus e =
    let done =
      repair_links env corpus.pages e.candidate.moves e.candidate.pages e.candidate.touched in
    if nonempty e.candidate.moves && not (nonempty e.errors)
    then record e {
      candidate = record e.candidate { pages = done.0; touched = done.1 };
      errors = e.errors ++ one_error done.2 (problem "LINK_REWRITE_UNSAFE" silent);
    }
    else e

unfoldable pub checked : Env → List Operation → Evaluation → Evaluation
unfolding corpus_errors
checked env operations e = record e {
  errors =
      e.errors
      ++ (one_error (not (nonempty operations)) (problem "CHANGE_HAS_NO_OPERATIONS" silent)
          ++ corpus_errors env e.candidate);
}

unfoldable pub evaluate_change : Env → List Operation → Corpus → Evaluation
unfolding start evaluate_operations repaired checked
evaluate_change env operations corpus =
    checked env operations
      (repaired env corpus (evaluate_operations env operations (start env corpus)))

-- `"passed": not errors`
abbrev pub passed : Evaluation → Bool
passed e = not (nonempty e.errors)
