-- ===== src/Tests/Operators.antt =====
-- A scoped generator, its artifact's pages, and the work worker's ledger.
use docplane.Base.{String, ◌≡◌, refl, Bool, true, false, none, some, List, [], ◌∷◌, ◌==◌, str_le}
use docplane.Base.Sorting.{sort_by}
use docplane.Base.Slices.{begins}
use docplane.Base.Sets.{mem, dedup, distinct}
use docplane.Base.Dict.{Dict, lookup}
use docplane.Http.{Result, err, ok}
use docplane.Attempt.{Attempt, valid, invalid}
use docplane.Scopes
use docplane.Scopes.Requests.{scoped_operations, operation_path, require_page_operation_scope}
use docplane.Scopes.Allowed.{require_page_operation_scope-prefix}
use docplane.Ownership
use docplane.Ownership.{Moved, Target, pages_of}
use docplane.Ownership.Targets.{reconcile_targets, handoff_targets}
use docplane.Ownership.Owned.{Settles, reconcile_targets-Settles, handoff_targets-Settles}
use docplane.Ledger
use docplane.Ledger.{Evidence, Row, reconcile}
use docplane.Ledger.Kept.{Carries, reconcile-Carries}

abbrev scope : Scopes.ArtifactScope
scope = record {
  artifact_key = "schema";
  operation = "GENERATE";
  source_entity_key = some "db";
  observation_kind = none;
  page_path_prefix = some "made/";
}

abbrev robot : Scopes.Principal
robot = record { principal_id = "robot"; artifact_scopes = some (scope ∷ []) }

abbrev scope_db : Scopes.Db
scope_db = record {
  entities = record { entity_id = "e"; entity_kind = "DATABASE"; entity_key = "db" } ∷ [];
  artifacts =
      record {
        artifact_id = "a";
        artifact_key = "schema";
        status = "DECLARED";
        source_entity_id = "e";
      }
      ∷ [];
  changes =
      record {
        change_id = "c";
        author_principal_id = "robot";
        plan = some (record {
          artifact_id = some "a";
          predecessor_id = none;
          target_page_paths = "made/x.md" ∷ [];
          successor = none;
        });
      }
      ∷ [];
  page_paths = ("p", "made/x.md") ∷ [];
}

replacement_allowed :
    require_page_operation_scope scope_db robot "c" "REPLACE_DOCUMENT" (some "p") none ≡ ok tt
unfolding require_page_operation_scope
replacement_allowed = refl

require_page_operation_scope-prefix_example :
    (mem "REPLACE_DOCUMENT" scoped_operations ≡ true)
    × ((change : Scopes.Change) × (Scopes.change_at "c" scope_db.changes ≡ some change)
        × ((change.author_principal_id == robot.principal_id) ≡ true))
    × ((key : String) × (found : Scopes.ArtifactScope) × (target : String) × (Scopes.scope_for key
            "GENERATE"
            (scope ∷ [])
          ≡ some found)
        × (operation_path scope_db (some "p") none ≡ ok (some target))
        × ((Scopes.text_of found.page_path_prefix == "") ≡ false)
        × (begins (Scopes.text_of found.page_path_prefix) target ≡ true))
require_page_operation_scope-prefix_example =
    require_page_operation_scope-prefix scope_db robot (scope ∷ []) "c" "REPLACE_DOCUMENT"
      (some "p") none refl replacement_allowed

abbrev artifact : String → String → Ownership.Artifact
artifact id key = record {
  artifact_id = id;
  artifact_key = key;
  generator_name = "generator";
  generator_version = "1";
  projection_contract_version = 1;
  config_hash = "h";
  source_entity_id = "e";
  redaction_policy = "none";
  target_page_paths = "x.md" ∷ "y.md" ∷ [];
  declared_by = "robot";
  status = Ownership.declared;
  retired_at = none;
  version = 4;
}

abbrev target : String → String → Target
target id page = record { artifact_id = id; page_resource_id = page }

abbrev row : String → String → Bool → Ownership.PageRow
row id path is_archived = record {
  resource_id = id;
  path = path;
  is_archived = is_archived;
  provenance = "AUTHORED";
}

abbrev db : Ownership.Db
db = record {
  artifacts = artifact "a" "schema" ∷ artifact "other" "meters" ∷ [];
  targets = target "a" "x" ∷ target "other" "o" ∷ target "a" "y" ∷ [];
  pages =
      row "x" "x.md" false ∷ row "y" "y.md" true ∷ row "z" "z.md" false ∷ row "o" "o.md" false ∷ [];
  entity_ids = "e" ∷ [];
  contracts = [];
}

abbrev successor : Ownership.Successor
successor = record {
  artifact_key = "schema";
  generator_name = "generator";
  generator_version = "2";
  projection_contract_version = 2;
  config_hash = "h";
  source_entity_id = "e";
  redaction_policy = "none";
  target_page_resource_ids = "z" ∷ "x" ∷ [];
  target_page_paths = "z.md" ∷ "x.md" ∷ [];
}

abbrev moved_of : Result (Moved × Ownership.Db) → Moved
moved_of (err e) = record { changed = false; added = []; removed = []; continuing = [] }
moved_of (ok r) = r.0

abbrev db_of : Result (Moved × Ownership.Db) → Ownership.Db
db_of (err e) = db
db_of (ok r) = r.1

abbrev reconciled : Result (Moved × Ownership.Db)
reconciled = reconcile_targets db "a" 4 ("z" ∷ "x" ∷ []) ("z.md" ∷ "x.md" ∷ []) "2" "robot"

abbrev handed_off : Result (Moved × Ownership.Db)
handed_off = handoff_targets "b" 9 db "a" 4 successor "robot"

rows_once : distinct (pages_of db.targets) ≡ true
unfolding distinct
rows_once = refl

reconcile_answers : reconciled ≡ ok (moved_of reconciled, db_of reconciled)
unfolding reconcile_targets sort_by str_le
reconcile_answers = refl

handoff_answers : handed_off ≡ ok (moved_of handed_off, db_of handed_off)
unfolding handoff_targets sort_by str_le
handoff_answers = refl

reconcile_targets-Settles_example :
    Settles "a" "a" (dedup ("z" ∷ "x" ∷ [])) db.targets (db_of reconciled).targets
reconcile_targets-Settles_example =
    reconcile_targets-Settles db "a" 4 ("z" ∷ "x" ∷ []) ("z.md" ∷ "x.md" ∷ []) "2" "robot"
      (moved_of reconciled) (db_of reconciled) rows_once reconcile_answers

handoff_targets-Settles_example :
    Settles "a" "b" (dedup successor.target_page_resource_ids) db.targets (db_of handed_off).targets
handoff_targets-Settles_example =
    handoff_targets-Settles "b" 9 db "a" 4 successor "robot" (moved_of handed_off)
      (db_of handed_off) rows_once handoff_answers

abbrev subject : String
subject = "00000000-0000-0000-0000-00000000000a"

abbrev obligation : String
obligation = "00000000-0000-0000-0000-00000000000b"

abbrev version : String
version = "proj-v1:0123456789abcdef0123456789abcdef0123456789abcdef0123456789abcdef"

abbrev found : Ledger.Candidate
found = record {
  subject_id = subject;
  kind = "UNRECORDED_RESIDUAL";
  obligation_id = obligation;
  evidence = record { record_id = obligation; version = version } ∷ [];
}

abbrev resolved : Row
resolved = record {
  candidate = found;
  fingerprint = "old";
  status = "RESOLVED";
  detection = "DETECTED";
  decisions = [];
}

abbrev digest : List Evidence → String
digest es = "new"

abbrev discrepancy : String
discrepancy =
    "00000000-0000-0000-0000-00000000000a:UNRECORDED_RESIDUAL:00000000-0000-0000-0000-00000000000b"

abbrev ledger : Dict Row
ledger = (discrepancy, resolved) ∷ []

abbrev scan : Attempt (Dict Row)
scan = reconcile digest ledger (found ∷ []) (subject ∷ [])

abbrev ledger_of : Attempt (Dict Row) → Dict Row
ledger_of (invalid p) = []
ledger_of (valid rows) = rows

scan_valid : scan ≡ valid (ledger_of scan)
unfolding reconcile sort_by
scan_valid = refl

resolved_there : lookup discrepancy ledger ≡ some resolved
unfolding lookup
resolved_there = refl

reconcile-Carries_example :
    (new : Row) × (lookup discrepancy (ledger_of scan) ≡ some new) × Carries resolved new
reconcile-Carries_example =
    reconcile-Carries digest ledger (ledger_of scan) (found ∷ []) (subject ∷ []) discrepancy
      resolved scan_valid resolved_there
