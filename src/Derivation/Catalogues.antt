-- ===== src/Derivation/Catalogues.antt =====
-- `_catalogues_conditions`, and the adapters that bring a family's entities into its form.
use docplane.Base.{
  ℕ, ◌+◌, String, Bool, false, not, ◌&&◌, ◌||◌, Option, none, some, List, [], ◌∷◌, ◌++◌, map, ◌==◌,
  if◌then◌else◌, is_some,
}
use docplane.Base.Lists.{length, take, nonempty, keep}
use docplane.Base.Sets.{dedup, difference}
use docplane.Base.Sorting.{sort, sort_by}
use docplane.Base.Dict.{Dict, lookup}
use docplane.Json.{Json, num, str, arr, obj, Items, nil, cons, Fields, end, field, texts}
use docplane.Runner.{same_texts}

pub record CatalogueTarget : Type 0 where
  pub page_resource_id : Option String
  pub path : String
  pub status : Option String

pub record EntityCatalogueState : Type 0 where
  pub entity_id : String
  pub entity_kind : String
  pub entity_status : String
  pub desired_targets : List CatalogueTarget
  pub actual_page_resource_ids : List String

-- The result of `_condition`.
pub record Condition : Type 0 where
  pub artifact_id : String
  pub artifact_key : String
  pub condition_kind : String
  pub briefing : Json

unfoldable pub resource_ids : List CatalogueTarget → List String
resource_ids [] = []
resource_ids (t ∷ ts) = elim t.page_resource_id [
  | none ↦ resource_ids ts
  | some id ↦ id ∷ resource_ids ts
]

abbrev pub is_active : Option String → Bool
is_active none = false
is_active (some s) = s == "active"

-- A target with no page, or whose page is not active.
abbrev pub is_unresolved : CatalogueTarget → Bool
is_unresolved t = not (is_some t.page_resource_id) || not (is_active t.status)

abbrev pub target_path : CatalogueTarget → String
target_path t = t.path

module _ (e : EntityCatalogueState) where
  unfoldable pub desired_ids : List String
  unfolding sort_by resource_ids
  desired_ids = sort (resource_ids e.desired_targets)

  unfoldable pub unresolved : List String
  unfolding sort_by keep
  unresolved = sort (map target_path (keep is_unresolved e.desired_targets))

  unfoldable pub actual_ids : List String
  unfolding sort_by dedup
  actual_ids = sort (dedup e.actual_page_resource_ids)

  -- `entity.desired_targets and (not actual_ids or unresolved)`
  unfoldable pub is_missing : Bool
  unfolding actual_ids unresolved
  is_missing = nonempty e.desired_targets && (not (nonempty actual_ids) || nonempty unresolved)

  -- `actual_ids and actual_ids != desired_ids`
  unfoldable pub is_drifted : Bool
  unfolding actual_ids desired_ids same_texts
  is_drifted = nonempty actual_ids && not (same_texts actual_ids desired_ids)

  unfoldable pub missing_sample : Json
  missing_sample = obj (
      field "entity_id" (str e.entity_id) (
        field "entity_kind" (str e.entity_kind) (
          field "missing_page_resource_ids" (arr (texts (sort (difference desired_ids actual_ids))))
            (field "unresolved_target_count" (num (length unresolved)) end))))

  unfoldable pub drifted_sample : Json
  drifted_sample = obj (
      field "entity_id" (str e.entity_id) (
        field "entity_kind" (str e.entity_kind) (
          field "entity_status" (str e.entity_status) (
            field "extra_page_resource_ids" (arr (texts (sort (difference actual_ids desired_ids))))
              (field "absent_page_resource_ids"
                (arr (texts (sort (difference desired_ids actual_ids)))) end)))))

unfoldable pub samples : List Json → Items
samples [] = nil
samples (v ∷ vs) = cons v (samples vs)

unfoldable pub sum_of : (EntityCatalogueState → ℕ) → List EntityCatalogueState → ℕ
sum_of f [] = 0
sum_of f (e ∷ es) = f e + sum_of f es

abbrev pub entity_id_of : EntityCatalogueState → String
entity_id_of e = e.entity_id

abbrev pub one_if_retired : EntityCatalogueState → ℕ
one_if_retired e = if e.entity_status == "RETIRED" then 1 else 0

module _ (bound : Json → Json) (artifact_id artifact_key : String) where
  -- `_condition`: the reason stands first in the briefing.
  unfoldable pub condition : String → String → Fields → Condition
  condition kind reason briefing = record {
    artifact_id = artifact_id;
    artifact_key = artifact_key;
    condition_kind = kind;
    briefing = bound (obj (field "reason" (str reason) briefing));
  }

  abbrev pub common : List EntityCatalogueState → Fields → Fields
  common es rest = field "entity_count" (num (length es)) (
      field "desired_link_count" (num (sum_of (λ e. length (desired_ids e)) es))
        (field "actual_link_count" (num (sum_of (λ e. length (actual_ids e)) es)) rest))

  unfoldable pub catalogues_missing :
      List EntityCatalogueState → List EntityCatalogueState → Condition
  unfolding condition
  catalogues_missing es missing =
      condition "CATALOGUES_MISSING" "CATALOGUES_DESIRED_TARGET_ABSENT" (
        common es (
          field "affected_entity_count" (num (length missing)) (
            field "unresolved_target_count" (num (sum_of (λ e. length (unresolved e)) missing))
              (field "samples" (arr (samples (take 10 (map missing_sample missing)))) end))))

  unfoldable pub catalogues_drifted :
      List EntityCatalogueState → List EntityCatalogueState → Condition
  unfolding condition
  catalogues_drifted es drifted = condition "CATALOGUES_DRIFTED" "CATALOGUES_EXACT_SET_MISMATCH" (
      common es (
        field "affected_entity_count" (num (length drifted)) (
          field "retired_entity_count" (num (sum_of one_if_retired drifted))
            (field "samples" (arr (samples (take 10 (map drifted_sample drifted)))) end))))

  -- `_catalogues_conditions`
  unfoldable pub catalogues_conditions : List EntityCatalogueState → List Condition
  unfolding keep is_missing is_drifted sort_by catalogues_missing catalogues_drifted
  catalogues_conditions entities =
      let es = sort_by entity_id_of entities in
      let missing = keep is_missing es in
      let drifted = keep is_drifted es in
      (if nonempty missing then catalogues_missing es missing ∷ [] else [])
      ++ (if nonempty drifted then catalogues_drifted es drifted ∷ [] else [])

-- `work_catalogues_state`
unfoldable pub work_catalogues_state :
    String → CatalogueTarget → List String → List EntityCatalogueState
work_catalogues_state system_entity_id index_target actual =
    record {
      entity_id = system_entity_id;
      entity_kind = "SYSTEM";
      entity_status = "ACTIVE";
      desired_targets = index_target ∷ [];
      actual_page_resource_ids = actual;
    }
    ∷ []

abbrev pub ids_of : Option (List String) → List String
ids_of none = []
ids_of (some ids) = ids

pub record SchemaEntity : Type 0 where
  pub entity_id : String
  pub status : String
  pub catalogue_target : CatalogueTarget

unfoldable pub schema_state : Dict (List String) → SchemaEntity → EntityCatalogueState
unfolding lookup
schema_state actual_by_entity s = record {
  entity_id = s.entity_id;
  entity_kind = "SCHEMA";
  entity_status = s.status;
  desired_targets = if s.status == "ACTIVE" then s.catalogue_target ∷ [] else [];
  actual_page_resource_ids = ids_of (lookup s.entity_id actual_by_entity);
}

-- `schema_catalogues_state`
unfoldable pub schema_catalogues_state :
    String → CatalogueTarget → List SchemaEntity → Dict (List String) → List EntityCatalogueState
unfolding lookup sort_by schema_state
schema_catalogues_state database_entity_id index_target schemas actual_by_entity =
    record {
      entity_id = database_entity_id;
      entity_kind = "DATABASE";
      entity_status = "ACTIVE";
      desired_targets = index_target ∷ [];
      actual_page_resource_ids = ids_of (lookup database_entity_id actual_by_entity);
    }
    ∷ map (schema_state actual_by_entity) (sort_by (λ s. s.entity_id) schemas)

pub record Rule : Type 0 where
  pub entity_id : String
  pub status : String
  pub source_page_path : String

abbrev pub target_at : String → Option CatalogueTarget → CatalogueTarget
target_at path none = record { page_resource_id = none; path = path; status = none }
target_at path (some t) = t

unfoldable pub rule_state : Dict CatalogueTarget → Dict (List String) → Rule → EntityCatalogueState
unfolding lookup
rule_state pages_by_path actual_by_entity r = record {
  entity_id = r.entity_id;
  entity_kind = "MONITOR_RULE";
  entity_status = r.status;
  desired_targets =
      if r.status == "ACTIVE"
      then target_at r.source_page_path (lookup r.source_page_path pages_by_path) ∷ []
      else [];
  actual_page_resource_ids = ids_of (lookup r.entity_id actual_by_entity);
}

-- `meter_catalogues_state`
unfoldable pub meter_catalogues_state :
    String
    → CatalogueTarget
    → List Rule
    → Dict CatalogueTarget
    → Dict (List String)
    → List EntityCatalogueState
unfolding lookup sort_by rule_state
meter_catalogues_state service_entity_id index_target rules pages_by_path actual_by_entity =
    record {
      entity_id = service_entity_id;
      entity_kind = "SERVICE";
      entity_status = "ACTIVE";
      desired_targets = index_target ∷ [];
      actual_page_resource_ids = ids_of (lookup service_entity_id actual_by_entity);
    }
    ∷ map (rule_state pages_by_path actual_by_entity) (sort_by (λ r. r.entity_id) rules)
