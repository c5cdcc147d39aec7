-- ===== src/Derivation/Artifact.antt =====
-- `derive_generated_artifact_conditions`.
use docplane.Base.{
  ℕ, String, Bool, true, false, not, ◌&&◌, ◌||◌, Option, none, some, List, [], ◌∷◌, ◌++◌, ◌==◌,
  if◌then◌else◌, is_some,
}
use docplane.Base.Sorting.{sort_by}
use docplane.Base.Dict.{Dict, lookup}
use docplane.Json.{Json, null, num, str, arr, obj, Items, nil, cons, Fields, end, field}
use docplane.Freshness.{
  Outcome, Observation, State, Freshness, Correspondence, SourceStatus, outcome_name,
}
use docplane.Derivation.Catalogues.{
  Condition, EntityCatalogueState, condition, catalogues_conditions,
}

pub record ExecutionContract : Type 0 where
  pub observation_max_age_seconds : ℕ
  pub observation_owner_principal_id : Option String
  pub generation_owner_principal_id : Option String

-- The status document of an artifact.
pub record ArtifactStatus : Type 0 where
  pub artifact_id : String
  pub artifact_key : String
  pub freshness : Freshness
  pub execution_contract : Option ExecutionContract
  pub execution_contract_status : String

abbrev pub is_drifted_state : State → Bool
is_drifted_state State.drifted = true
is_drifted_state _ = false

abbrev pub is_failed_state : State → Bool
is_failed_state State.failed = true
is_failed_state _ = false

abbrev pub is_mismatch : Correspondence → Bool
is_mismatch Correspondence.mismatch = true
is_mismatch _ = false

abbrev pub is_expired : SourceStatus → Bool
is_expired SourceStatus.expired = true
is_expired _ = false

abbrev pub has_failed : Option Observation → Bool
has_failed none = false
has_failed (some o) = elim o.outcome [ Outcome.failed ↦ true | _ ↦ false ]

abbrev pub optional_text : String → Option String → Fields → Fields
optional_text k none rest = rest
optional_text k (some s) rest = field k (str s) rest

abbrev pub optional_num : String → Option ℕ → Fields → Fields
optional_num k none rest = rest
optional_num k (some n) rest = field k (num n) rest

-- `_observation_ref`: the allowlisted fields that are there.
unfoldable pub observation_ref : Option Observation → Fields
observation_ref none = end
observation_ref (some o) =
    optional_text "observation_id" o.observation_id (
      optional_num "observed_at" o.observed_at (field "outcome" (str (outcome_name o.outcome)) end))

abbrev pub status_name : SourceStatus → String
status_name SourceStatus.absent = "ABSENT"
status_name SourceStatus.unusable = "UNUSABLE"
status_name SourceStatus.unbounded_transitional = "UNBOUNDED_TRANSITIONAL"
status_name SourceStatus.expired = "EXPIRED"
status_name SourceStatus.current = "CURRENT"

abbrev pub json_num : Option ℕ → Json
json_num none = null
json_num (some n) = num n

abbrev pub json_text : Option String → Json
json_text none = null
json_text (some s) = str s

-- One owner of the contract, if its principal is known and not active.
unfoldable pub owner_entry : Dict String → String → Option String → Items → Items
unfolding lookup
owner_entry statuses role none rest = rest
owner_entry statuses role (some principal) rest = elim (lookup principal statuses) [
  | none ↦ rest
  | some status ↦
      if status == "ACTIVE"
      then rest
      else cons
          (obj (
            field "role" (str role)
              (field "principal_id" (str principal) (field "status" (str status) end))))
          rest
]

abbrev pub owner_of : (ExecutionContract → Option String) → Option ExecutionContract → Option String
owner_of f none = none
owner_of f (some c) = f c

abbrev pub max_age : Option ExecutionContract → Json
max_age none = null
max_age (some c) = num c.observation_max_age_seconds

abbrev pub one_if : Bool → Condition → List Condition
one_if b c = if b then c ∷ [] else []

abbrev pub condition_kind_of : Condition → String
condition_kind_of c = c.condition_kind

module _ (a : ArtifactStatus) where
  abbrev pub drifted_test : Bool
  drifted_test =
      (is_drifted_state a.freshness.state && a.freshness.reason == "SOURCE_CHANGED")
      || is_mismatch a.freshness.projection_correspondence

  abbrev pub generation_failed_test : Bool
  generation_failed_test =
      is_failed_state a.freshness.state
      && a.freshness.reason == "LATEST_GENERATION_FAILED"
      && has_failed a.freshness.generation

  abbrev pub source_missing_test : Bool
  source_missing_test =
      a.freshness.reason == "SOURCE_UNOBSERVED" && not (is_some a.freshness.source_observation)

  abbrev pub source_failed_test : Bool
  source_failed_test =
      a.freshness.reason == "SOURCE_OBSERVATION_FAILED" && has_failed a.freshness.source_observation

  abbrev pub source_expired_test : Bool
  source_expired_test =
      is_some a.execution_contract && is_expired a.freshness.source_observation_status

  abbrev pub contract_missing_test : Bool
  contract_missing_test = a.execution_contract_status == "UNDECLARED_TRANSITIONAL"

  abbrev pub owner_inactive_test : Bool
  owner_inactive_test = not contract_missing_test && a.execution_contract_status == "OWNER_INACTIVE"

module _ (bound : Json → Json) (a : ArtifactStatus) (statuses : Dict String) where
  abbrev pub propose : String → String → Fields → Condition
  propose = condition bound a.artifact_id a.artifact_key

  -- The conditions before those of the catalogues, in the order of the code.
  unfoldable pub artifact_conditions : List Condition
  unfolding observation_ref owner_entry
  artifact_conditions =
      let f = a.freshness in
      one_if (drifted_test a) (
        propose "DRIFTED" "SOURCE_CHANGED" (
          field "state" (str "DRIFTED") (
            field "projection_correspondence" (str "MISMATCH") (
              field "generation" (obj (observation_ref f.generation))
                (field "source_observation" (obj (observation_ref f.source_observation)) end)))))
      ++ (one_if (generation_failed_test a) (
            propose "GENERATION_FAILED" f.reason (
              field "state" (str "FAILED")
                (field "generation" (obj (observation_ref f.generation)) end)))
          ++ (one_if (source_missing_test a) (
                propose "SOURCE_OBSERVATION_MISSING" f.reason (
                  field "source_observation_status" (str (status_name f.source_observation_status))
                    end))
              ++ (one_if (source_failed_test a) (
                    propose "SOURCE_OBSERVATION_FAILED" f.reason (
                      field "source_observation" (obj (observation_ref f.source_observation)) (
                        field "last_successful_source_observation"
                          (obj (observation_ref f.last_successful_source_observation)) end)))
                  ++ (one_if (source_expired_test a) (
                        propose "SOURCE_OBSERVATION_EXPIRED" "SOURCE_OBSERVATION_EXPIRED" (
                          field "source_observation" (obj (observation_ref f.source_observation)) (
                            field "observation_expires_at" (json_num f.observation_expires_at) (
                              field "observation_max_age_seconds" (max_age a.execution_contract) (
                                field "observation_owner_principal_id"
                                  (json_text (
                                    owner_of (λ c. c.observation_owner_principal_id)
                                      a.execution_contract))
                                  end)))))
                      ++ (one_if (contract_missing_test a) (
                            propose "EXECUTION_CONTRACT_MISSING" a.execution_contract_status (
                              field "execution_contract_status" (str a.execution_contract_status)
                                end))
                          ++ one_if (owner_inactive_test a) (
                              propose "EXECUTION_OWNER_INACTIVE" a.execution_contract_status (
                                field "execution_contract_status" (str a.execution_contract_status)
                                  (field "inactive_owners"
                                    (arr (
                                      owner_entry statuses "OBSERVATION"
                                        (owner_of (λ c. c.observation_owner_principal_id)
                                          a.execution_contract)
                                        (owner_entry statuses "GENERATION"
                                          (owner_of (λ c. c.generation_owner_principal_id)
                                            a.execution_contract)
                                          nil)))
                                    end))))))))

  unfoldable pub derive_conditions : List EntityCatalogueState → List Condition
  unfolding artifact_conditions catalogues_conditions sort_by
  derive_conditions catalogues =
      sort_by condition_kind_of
        (artifact_conditions ++ catalogues_conditions bound a.artifact_id a.artifact_key catalogues)
