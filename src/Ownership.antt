-- ===== src/Ownership.antt =====
-- docs-api/app/artifact_ownership.py: which generated artifact owns which pages. The caller commits;
-- an answer that is an error leaves all as it was. A page has at most one row in
-- model.artifact_targets, which the table's constraint on the page keeps.
pub mod Targets
pub mod Rows
pub mod Owned
use docplane.Base.{
  ℕ, suc, ◌≤◌, String, Bool, true, false, not, ◌&&◌, ◌||◌, Option, none, some, List, [], ◌∷◌, ◌++◌,
  map, ◌==◌, if◌then◌else◌, is_some, eqb, leb,
}
use docplane.Base.Lists.{keep, any, nonempty}
use docplane.Base.Sets.{mem, dedup, difference}
use docplane.Base.Sorting.{sort}
use docplane.Base.Dict.{Dict, lookup}
use docplane.Http.{Result, ok, raise, refuse_if, ◌>>=◌, ◌>>◌}

pub data ArtifactStatus : Type 0 where
  declared retired : ArtifactStatus

-- A row of model.generated_artifacts, less its times of creation and update.
pub record Artifact : Type 0 where
  pub artifact_id : String
  pub artifact_key : String
  pub generator_name : String
  pub generator_version : String
  pub projection_contract_version : ℕ
  pub config_hash : String
  pub source_entity_id : String
  pub redaction_policy : String
  pub target_page_paths : List String
  pub declared_by : String
  pub status : ArtifactStatus
  pub retired_at : Option ℕ
  pub version : ℕ

pub record Target : Type 0 where
  pub artifact_id : String
  pub page_resource_id : String

pub record PageRow : Type 0 where
  pub resource_id : String
  pub path : String
  pub is_archived : Bool
  pub provenance : String

pub record ExecutionContract : Type 0 where
  pub artifact_id : String
  pub terms : String
  pub created_by : String
  pub updated_by : String

pub record Db : Type 0 where
  pub artifacts : List Artifact
  pub targets : List Target
  pub pages : List PageRow
  pub entity_ids : List String
  pub contracts : List ExecutionContract

-- `ArtifactSuccessor` of model_models.py
pub record Successor : Type 0 where
  pub artifact_key : String
  pub generator_name : String
  pub generator_version : String
  pub projection_contract_version : ℕ
  pub config_hash : String
  pub source_entity_id : String
  pub redaction_policy : String
  pub target_page_resource_ids : List String
  pub target_page_paths : List String

-- What both mutations return of the targets.
pub record Moved : Type 0 where
  pub changed : Bool
  pub added : List String
  pub removed : List String
  pub continuing : List String

unfoldable pub artifact_at : String → List Artifact → Option Artifact
artifact_at id [] = none
artifact_at id (a ∷ rest) = if a.artifact_id == id then some a else artifact_at id rest

unfoldable pub load_artifact : Db → String → Result Artifact
unfolding artifact_at
load_artifact db id = elim (artifact_at id db.artifacts) [
  | none ↦ raise 404 "MODEL_ARTIFACT_NOT_FOUND"
  | some a ↦ ok a
]

-- The pages of an artifact's rows.
unfoldable pub owned_by : String → List Target → List String
owned_by id [] = []
owned_by id (t ∷ ts) =
    let rest = owned_by id ts in if t.artifact_id == id then t.page_resource_id ∷ rest else rest

-- `target_ids`, in the order of the pages
unfoldable pub target_ids : Db → String → List String
unfolding owned_by
target_ids db id = sort (owned_by id db.targets)

abbrev pub is_declared : ArtifactStatus → Bool
is_declared declared = true
is_declared retired = false

unfoldable pub validate_custody : Artifact → String → ℕ → Result (Unit {0})
validate_custody a principal_id expected_version =
    refuse_if (not (is_declared a.status)) 409 "MODEL_ARTIFACT_NOT_DECLARED"
    >> (refuse_if (not (a.declared_by == principal_id)) 403 "MODEL_ARTIFACT_CUSTODY_FORBIDDEN"
        >> refuse_if (not (eqb a.version expected_version)) 409 "MODEL_ARTIFACT_VERSION_STALE")

unfoldable pub page_row : String → List PageRow → Option PageRow
page_row id [] = none
page_row id (p ∷ ps) = if p.resource_id == id then some p else page_row id ps

unfoldable pub validate_pages : Db → List String → Result (Unit {0})
unfolding page_row any
validate_pages db desired =
    refuse_if (any (λ id. not (is_some (page_row id db.pages))) desired) 404
      "MODEL_ARTIFACT_TARGET_PAGE_NOT_FOUND"

-- `dict(zip(desired_ids, desired_paths))`, read for an id: the last pair counts.
unfoldable pub expected_path : String → List String → List String → Option String
expected_path id [] paths = none
expected_path id (i ∷ ids) [] = none
expected_path id (i ∷ ids) (path ∷ paths) = elim (expected_path id ids paths) [
  | some later ↦ some later
  | none ↦ if i == id then some path else none
]

abbrev pub same_path : Option String → Option PageRow → Bool
same_path none row = false
same_path (some path) none = true
same_path (some path) (some row) = path == row.path

-- A page without a path is a `KeyError`.
unfoldable pub validate_target_paths : Db → List String → List String → Result (Unit {0})
unfolding expected_path page_row any
validate_target_paths db desired_ids desired_paths =
    refuse_if (any (λ id. not (is_some (expected_path id desired_ids desired_paths))) desired_ids)
      500 "KeyError"
    >> refuse_if
        (any
          (λ id.
            not (same_path (expected_path id desired_ids desired_paths) (page_row id db.pages)))
          desired_ids)
        422 "MODEL_ARTIFACT_TARGET_PATH_MISMATCH"

abbrev pub still_active : Option PageRow → Bool
still_active none = false
still_active (some row) = not row.is_archived

unfoldable pub validate_removals_archived : Db → List String → Result (Unit {0})
unfolding page_row any
validate_removals_archived db removed =
    refuse_if (any (λ id. still_active (page_row id db.pages)) removed) 409
      "GENERATED_TARGET_REMOVAL_REQUIRES_ARCHIVE"

-- A row of another artifact for one of the pages.
unfoldable pub conflicts : String → List String → List Target → Bool
unfolding mem
conflicts allowed desired [] = false
conflicts allowed desired (t ∷ ts) =
    (mem t.page_resource_id desired && not (t.artifact_id == allowed))
    || conflicts allowed desired ts

unfoldable pub validate_conflicts : Db → List String → String → Result (Unit {0})
unfolding conflicts
validate_conflicts db desired allowed =
    refuse_if (conflicts allowed desired db.targets) 409 "MODEL_ARTIFACT_TARGET_CONFLICT"

-- DELETE … WHERE artifact_id = … AND page_resource_id = ANY(…)
unfoldable pub delete_targets : String → List String → List Target → List Target
unfolding mem keep
delete_targets id removed ts =
    keep (λ t. not (t.artifact_id == id && mem t.page_resource_id removed)) ts

abbrev pub pages_of : List Target → List String
pages_of ts = map (λ t. t.page_resource_id) ts

-- The inserts, one after the other; a page that has a row breaks the constraint.
unfoldable pub insert_targets : String → List String → List Target → Option (List Target)
unfolding mem
insert_targets id [] ts = some ts
insert_targets id (page ∷ pages) ts =
    let rest =
      insert_targets id pages (ts ++ record { artifact_id = id; page_resource_id = page } ∷ []) in
    if mem page (pages_of ts) then none else rest

-- UPDATE … SET artifact_id = … WHERE artifact_id = … AND page_resource_id = ANY(…)
unfoldable pub transfer_targets : String → String → List String → List Target → List Target
unfolding mem
transfer_targets predecessor successor continuing [] = []
transfer_targets predecessor successor continuing (t ∷ ts) =
    (if t.artifact_id == predecessor && mem t.page_resource_id continuing
      then record t { artifact_id = successor }
      else t)
    ∷ transfer_targets predecessor successor continuing ts

-- UPDATE docs.pages SET provenance = 'GENERATED' WHERE resource_id = ANY(…)
unfoldable pub mark_generated : List String → List PageRow → List PageRow
unfolding mem
mark_generated added [] = []
mark_generated added (p ∷ ps) =
    (if mem p.resource_id added then record p { provenance = "GENERATED" } else p)
    ∷ mark_generated added ps

unfoldable pub set_artifact : Artifact → List Artifact → List Artifact
set_artifact a [] = []
set_artifact a (b ∷ bs) = (if b.artifact_id == a.artifact_id then a else b) ∷ set_artifact a bs
