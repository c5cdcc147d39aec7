-- ===== src/Tests/Derivation.antt =====
-- The conditions of an artifact whose source changed, with one entity that lacks its page.
use docplane.Base.{◌≡◌, refl, ◌↔◌, true, false, none, some, [], ◌∷◌, map}
use docplane.Base.Sets.{mem}
use docplane.Json.{Json}
use docplane.Checked.{passed}
use docplane.Runner.{check_request}
use docplane.Freshness.{nominal, Observation, fresh, fingerprint_of, derive_freshness}
use docplane.Derivation.{
  EntityCatalogueState, catalogues_conditions, ArtifactStatus, derive_conditions, condition_kind_of,
}
use docplane.Derivation.Kinds.{check_request-derive_conditions, quiet_when_fresh, artifact_tests}
use docplane.Derivation.Drift.{are_different, counted, drifted_iff_different}
use docplane.Derivation.Converged.{AllConverged, catalogues_conditions-empty}

abbrev observation : Observation
observation = record {
  observation_id = some "o";
  observed_at = some 100;
  outcome = nominal;
  source_fingerprint = some "f";
}

abbrev artifact_of : Observation → ArtifactStatus
artifact_of o = record {
  artifact_id = "a";
  artifact_key = "work-catalogue";
  freshness = derive_freshness (some observation) (some observation) (some o) none (some 50) 120;
  execution_contract = some (record {
    observation_max_age_seconds = 50;
    observation_owner_principal_id = none;
    generation_owner_principal_id = none;
  });
  execution_contract_status = "DECLARED";
}

abbrev changed : Observation
changed = record observation { source_fingerprint = some "g" }

abbrev entity : EntityCatalogueState
entity = record {
  entity_id = "e";
  entity_kind = "SYSTEM";
  entity_status = "ACTIVE";
  desired_targets =
      record { page_resource_id = some "p"; path = "p.md"; status = some "active" } ∷ [];
  actual_page_resource_ids = [];
}

abbrev bound : Json → Json
bound j = j

check_request-derive_conditions_example :
    check_request
      (map condition_kind_of (derive_conditions bound (artifact_of changed) [] (entity ∷ [])))
    ≡ passed tt
check_request-derive_conditions_example =
    check_request-derive_conditions bound (artifact_of changed) [] (entity ∷ [])

catalogues_conditions-empty_example :
    (catalogues_conditions bound "a" "work-catalogue" (entity ∷ []) ≡ [])
    ↔ AllConverged (entity ∷ [])
catalogues_conditions-empty_example =
    catalogues_conditions-empty bound "a" "work-catalogue" (entity ∷ [])

fresh_artifact : (artifact_of observation).freshness.state ≡ fresh
unfolding derive_freshness
fresh_artifact = refl

fresh_is_quiet :
    artifact_tests (artifact_of observation)
    ≡ false ∷ false ∷ false ∷ false ∷ false ∷ false ∷ false ∷ []
fresh_is_quiet =
    quiet_when_fresh (artifact_of observation) (some observation) (some observation)
      (some observation) none (some 50) 120 refl fresh_artifact refl

drifted_iff_different_example :
    mem "DRIFTED"
      (map condition_kind_of (derive_conditions bound (artifact_of changed) [] (entity ∷ [])))
    ≡ are_different (some "f") (fingerprint_of (counted (some observation) (some changed) none))
drifted_iff_different_example =
    drifted_iff_different bound (artifact_of changed) [] (entity ∷ []) (some observation)
      (some observation) (some changed) none (some 50) 120 refl

-- The two fingerprints of the changed source differ.
changed_differs :
    are_different (some "f") (fingerprint_of (counted (some observation) (some changed) none))
    ≡ true
changed_differs = refl
