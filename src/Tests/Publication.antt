-- ===== src/Tests/Publication.antt =====
-- A change to a small corpus: a page is moved and another edited, while a third is generated.
use docplane.Base.{
  String, ◌≡◌, refl, ◌⊎◌, ◌↔◌, true, false, not, ◌&&◌, none, some, List, [], ◌∷◌, if◌then◌else◌,
  is_some, str_le,
}
use docplane.Base.Sorting.{sort_by}
use docplane.Base.Lists.{all, nonempty, length}
use docplane.Base.Sets.{mem, distinct}
use docplane.Base.Dict.{keys, lookup}
use docplane.Http.{Result, ok}
use docplane.Attempt.{problem, silent}
use docplane.Publication.Types.{
  pos, PageStatus, PublicationState, VerificationState, Page, Action, move_page, replace_document,
  Operation, Evaluation, Env,
}
use docplane.Publication.Candidate.{page_of, path_valid}
use docplane.Publication.Checks.{paths, active_pages}
use docplane.Publication.Evaluate.{
  start, evaluate_operations, evaluate_change, passed, generated_guard_error,
}
use docplane.Publication.Sound.{IsConsistent, evaluate_change-IsConsistent}
use docplane.Publication.Accepted.{all_accepted, evaluate_change-accepted}
use docplane.Publication.Guard.{targets, guard_of}
use docplane.Publication.Protected.{evaluate_change_protected}
use docplane.Publication.Build.{build_error, redirect_conflict, claims, claimed_twice}
use docplane.Publication.Refines.{has_content, evaluate_change-build_error}
use docplane.Publication.Publish.{Tables, publish_corpus}
use docplane.Publication.UpdatedRows.{ids}
use docplane.Publication.Written.{row_of}
use docplane.Publication.Committed.{corpus_of, publish_corpus-candidate}

abbrev page : String → String → String → Page
page id path provenance = record {
  resource_id = id;
  path = path;
  title = "Title";
  nav_path = "Guides/Title";
  nav_order = pos 1000;
  content = "# Title";
  revision = "r1";
  version = 1;
  status = PageStatus.active;
  workspace_id = "w";
  workspace_key = "main";
  publication_state = PublicationState.published;
  knowledge_class = none;
  verification_state = VerificationState.verified;
  owner_principal_id = none;
  review_due_at = none;
  criticality = "NORMAL";
  metadata_review_required = false;
  metadata_version = 1;
  updated_at = 0;
  updated_by = "ann";
  provenance = some provenance;
}

abbrev generated : Page
generated = page "p3" "made/table.md" "GENERATED"

abbrev tables : Tables
tables = record {
  pages = page "p1" "a.md" "AUTHORED" ∷ page "p2" "b.md" "AUTHORED" ∷ generated ∷ [];
  page_versions = [];
  page_verifications = [];
  redirects = ("old.md", "b.md") ∷ [];
  sections = ("Guides", 0) ∷ [];
}

abbrev env : Env
env = record {
  workspace_key = "main";
  base_state_identity = none;
  acting_principal_id = some "ann";
  workspaces = ("main", "w") ∷ [];
  declared_by = λ id. some "robot";
  planned_owner = λ id. false;
  fresh = λ id. ("fresh", "fresh");
  now = 7;
  lower = λ s. s;
  sha256 = λ s. s;
  state_identity = λ ps ss rs. "identity";
  nav_conflict = λ ps ss. none;
  plan_rewrites = λ path content moves. some (false, content);
  plan_source_move = λ old new content. some (false, content);
}

abbrev operation : String → String → Action → Operation
operation id page_id action = record {
  operation_id = id;
  sequence = 1;
  page_resource_id = some page_id;
  expected_revision = some "r1";
  expected_section_hash = none;
  action = action;
}

abbrev edit : Operation
edit = operation "o1" "p2" (
    replace_document
      (record { content = some "# New"; title = some " New "; nav_path = none; nav_order = none }))

abbrev move : Operation
move = operation "o2" "p1" (
    move_page (record {
      to_path = some "c/a.md";
      to_nav_path = none;
      nav_order = none;
      create_redirect = none;
    }))

abbrev change : List Operation
change = edit ∷ move ∷ []

abbrev evaluation : Evaluation
evaluation = evaluate_change env change (corpus_of tables)

change_passes : passed evaluation ≡ true
unfolding evaluate_change sort_by
change_passes = refl

evaluate_change-IsConsistent_example :
    (nonempty change ≡ true)
    × IsConsistent evaluation.candidate.pages evaluation.candidate.redirects
    × (env.nav_conflict (active_pages evaluation.candidate.pages) evaluation.candidate.sections
        ≡ none)
evaluate_change-IsConsistent_example =
    evaluate_change-IsConsistent env change (corpus_of tables) change_passes

evaluate_change-accepted_example :
    (length evaluation.results ≡ length change) × (all_accepted evaluation.results ≡ true)
evaluate_change-accepted_example =
    evaluate_change-accepted env change (corpus_of tables) change_passes

generated_there : page_of "p3" (corpus_of tables).pages ≡ some generated
unfolding page_of
generated_there = refl

generated_guarded :
    guard_of env generated (some "ann")
    ≡ some (problem "PROVENANCE_GENERATED_PAGE_PROTECTED" silent)
unfolding generated_guard_error
generated_guarded = refl

generated_not_created : mem "p3" evaluation.candidate.created ≡ false
unfolding evaluate_change
generated_not_created = refl

evaluate_change_protected_example :
    (all (λ op. not (targets "p3" op)) change ≡ true)
    × ((nonempty (evaluate_operations env change (start env (corpus_of tables))).candidate.moves
          ≡ true)
        ⊎ (page_of "p3" evaluation.candidate.pages ≡ some generated))
evaluate_change_protected_example =
    evaluate_change_protected env change (corpus_of tables) "p3" "ann" generated
      (problem "PROVENANCE_GENERATED_PAGE_PROTECTED" silent) refl generated_there generated_guarded
      change_passes generated_not_created

pages_valid : all path_valid (paths (active_pages evaluation.candidate.pages)) ≡ true
unfolding evaluate_change path_valid all
pages_valid = refl

redirects_valid : all path_valid (keys evaluation.candidate.redirects) ≡ true
unfolding evaluate_change path_valid all
redirects_valid = refl

evaluate_change-build_error_example :
    (build_error (active_pages evaluation.candidate.pages) evaluation.candidate.redirects (
        is_some (
          env.nav_conflict (active_pages evaluation.candidate.pages) evaluation.candidate.sections))
      ≡ none)
    ↔ ((all has_content (active_pages evaluation.candidate.pages)
          && not (
              claimed_twice
                (claims (active_pages evaluation.candidate.pages) evaluation.candidate.redirects)))
        ≡ true)
evaluate_change-build_error_example =
    evaluate_change-build_error env change (corpus_of tables) change_passes pages_valid
      redirects_valid

abbrev committed : Result Tables
committed = publish_corpus "change" "Ann" 9 (λ id. "r2") evaluation tables

abbrev tables_of : Result Tables → Tables
tables_of (Result.err e) = tables
tables_of (Result.ok t) = t

commits : committed ≡ ok (tables_of committed)
unfolding publish_corpus evaluate_change sort_by str_le
commits = refl

ids_once : distinct (ids tables.pages) ≡ true
unfolding distinct
ids_once = refl

redirects_once : distinct (keys evaluation.candidate.redirects) ≡ true
unfolding evaluate_change distinct
redirects_once = refl

publish_corpus-candidate_example :
    ((rid : String)
      → page_of rid (tables_of committed).pages ≡ (
          if mem rid evaluation.candidate.touched
          then row_of "change" "Ann" 9 (λ id. "r2") tables.pages evaluation.candidate rid
          else page_of rid evaluation.candidate.pages))
    × ((source : String)
        → lookup source (tables_of committed).redirects
          ≡ lookup source evaluation.candidate.redirects)
    × ((tables_of committed).sections ≡ evaluation.candidate.sections)
publish_corpus-candidate_example =
    publish_corpus-candidate "change" "Ann" 9 (λ id. "r2") env change tables (tables_of committed)
      commits ids_once redirects_once

-- A passed change that no build takes: the redirect of a move between `a.md` and `a/index.md` claims
-- the address of the page that it leads to.
abbrev wedged : Evaluation
wedged =
    evaluate_change env
      (operation "o3" "p1" (
          move_page (record {
            to_path = some "a/index.md";
            to_nav_path = none;
            nav_order = none;
            create_redirect = none;
          }))
        ∷ [])
      (corpus_of tables)

wedged_passes : passed wedged ≡ true
unfolding evaluate_change sort_by
wedged_passes = refl

wedged_build :
    build_error (active_pages wedged.candidate.pages) wedged.candidate.redirects false
    ≡ some (redirect_conflict "same-rendered-url" "a.md")
unfolding evaluate_change build_error str_le
wedged_build = refl
