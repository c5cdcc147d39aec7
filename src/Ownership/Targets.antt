-- ===== src/Ownership/Targets.antt =====
-- `reconcile_targets` and `handoff_targets` of docs-api/app/artifact_ownership.py.
use docplane.Base.{
  ℕ, suc, String, Bool, true, false, not, ◌&&◌, ◌||◌, Option, none, some, List, [], ◌∷◌, ◌++◌, ◌==◌,
  if◌then◌else◌, leb,
}
use docplane.Base.Lists.{keep, nonempty}
use docplane.Base.Sets.{mem, dedup, difference}
use docplane.Base.Sorting.{sort}
use docplane.Http.{Result, ok, raise, refuse_if, ◌>>=◌, ◌>>◌}
use docplane.Ownership.{
  Artifact, Target, Db, Successor, Moved, ExecutionContract, declared, retired, load_artifact,
  target_ids, validate_custody, validate_pages, validate_target_paths, validate_removals_archived,
  validate_conflicts, delete_targets, insert_targets, transfer_targets, mark_generated,
  set_artifact,
}

abbrev pub same_texts : List String → List String → Bool
same_texts [] [] = true
same_texts (x ∷ xs) (y ∷ ys) = x == y && same_texts xs ys
same_texts _ _ = false

abbrev pub intersection : List String → List String → List String
intersection xs ys = keep (λ x. mem x ys) xs

-- The rows of the artifact after the removals and the inserts.
abbrev pub with_rows :
    Option (List Target) → ℕ → String → (List Target → Result (Moved × Db)) → Result (Moved × Db)
with_rows none status code rest = raise status code
with_rows (some ts) status code rest = rest ts

-- The checks that both mutations make of the wanted pages.
unfoldable pub check_targets :
    Db → String → List String → List String → List String → Result (Unit {0})
unfolding validate_pages validate_target_paths validate_conflicts validate_removals_archived
check_targets db artifact_id desired_ids desired_paths removed =
    validate_pages db (dedup desired_ids)
    >> (validate_target_paths db desired_ids desired_paths
        >> (validate_conflicts db (dedup desired_ids) artifact_id
            >> validate_removals_archived db removed))

unfoldable pub reconcile_targets :
    Db → String → ℕ → List String → List String → String → String → Result (Moved × Db)
unfolding load_artifact target_ids validate_custody check_targets delete_targets insert_targets
    mark_generated set_artifact dedup
reconcile_targets db artifact_id expected_version desired_ids desired_paths generator_version
      principal_id =
    load_artifact db artifact_id >>= λ artifact.
    let desired = dedup desired_ids in
    let current = target_ids db artifact_id in
    let removed = difference current desired in
    let added = difference desired current in
    let same =
      not (nonempty removed || nonempty added)
      && same_texts (sort artifact.target_page_paths) (sort desired_paths)
      && artifact.generator_version == generator_version in
    let continuing = sort (intersection current desired) in
    let written =
      with_rows
        (insert_targets artifact_id (sort added) (delete_targets artifact_id removed db.targets))
        409 "MODEL_ARTIFACT_TARGET_CONFLICT"
        λ targets. ok (
          record {
            changed = true;
            added = sort added;
            removed = sort removed;
            continuing = continuing;
          },
          record db {
            targets = targets;
            pages = mark_generated added db.pages;
            artifacts =
                set_artifact
                  (record artifact {
                    generator_version = generator_version;
                    target_page_paths = sort desired_paths;
                    version = suc artifact.version;
                  })
                  db.artifacts;
          },
        ) in
    validate_custody artifact principal_id expected_version
    >> (check_targets db artifact_id desired_ids desired_paths removed
        >> (if same
            then ok (
              record { changed = false; added = []; removed = []; continuing = sort current },
              db,
            )
            else written))

unfoldable pub successor_row : String → String → Successor → Artifact
successor_row id principal_id s = record {
  artifact_id = id;
  artifact_key = s.artifact_key;
  generator_name = s.generator_name;
  generator_version = s.generator_version;
  projection_contract_version = s.projection_contract_version;
  config_hash = s.config_hash;
  source_entity_id = s.source_entity_id;
  redaction_policy = s.redaction_policy;
  target_page_paths = sort s.target_page_paths;
  declared_by = principal_id;
  status = declared;
  retired_at = none;
  version = 1;
}

-- INSERT … SELECT: the contract of the predecessor, if it has one, for the successor.
unfoldable pub copied_contracts :
    String → String → String → List ExecutionContract → List ExecutionContract
copied_contracts predecessor successor principal [] = []
copied_contracts predecessor successor principal (c ∷ cs) =
    let rest = copied_contracts predecessor successor principal cs in
    if c.artifact_id == predecessor
    then record {
      artifact_id = successor;
      terms = c.terms;
      created_by = principal;
      updated_by = principal;
    }
      ∷ rest
    else rest

-- `successor_id` is the id that the insert returns, `now` the clock.
unfoldable pub handoff_targets :
    String → ℕ → Db → String → ℕ → Successor → String → Result (Moved × Db)
unfolding load_artifact target_ids validate_custody check_targets delete_targets insert_targets
    transfer_targets mark_generated set_artifact successor_row copied_contracts dedup mem
handoff_targets successor_id now db predecessor_id expected_version successor principal_id =
    load_artifact db predecessor_id >>= λ predecessor.
    let desired = dedup successor.target_page_resource_ids in
    let current = target_ids db predecessor_id in
    let removed = difference current desired in
    let added = difference desired current in
    let continuing = intersection current desired in
    let moved = transfer_targets predecessor_id successor_id continuing db.targets in
    let written =
      with_rows
        (insert_targets successor_id (sort added) (delete_targets predecessor_id removed moved)) 500
        "UniqueViolation"
        λ targets. ok (
          record {
            changed = true;
            added = sort added;
            removed = sort removed;
            continuing = sort continuing;
          },
          record db {
            targets = targets;
            pages = mark_generated added db.pages;
            artifacts =
                set_artifact
                  (record predecessor {
                    status = retired;
                    retired_at = some now;
                    version = suc predecessor.version;
                  })
                  db.artifacts
                ++ successor_row successor_id principal_id successor ∷ [];
            contracts =
                db.contracts
                ++ copied_contracts predecessor_id successor_id principal_id db.contracts;
          },
        ) in
    validate_custody predecessor principal_id expected_version
    >> (refuse_if (not (successor.artifact_key == predecessor.artifact_key)) 422
          "MODEL_ARTIFACT_SUCCESSOR_KEY_MISMATCH"
        >> (refuse_if
              (leb successor.projection_contract_version predecessor.projection_contract_version)
              422 "MODEL_ARTIFACT_SUCCESSOR_CONTRACT_VERSION_INVALID"
            >> (check_targets db predecessor_id successor.target_page_resource_ids
                  successor.target_page_paths removed
                >> (refuse_if (not (mem successor.source_entity_id db.entity_ids)) 404
                      "MODEL_ENTITY_NOT_FOUND"
                    >> written))))
