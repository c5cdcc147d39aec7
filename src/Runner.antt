-- ===== src/Runner.antt =====
-- scripts/reconcile_generated_conditions.py: how the command reads the answer of the WORK
-- reconciliation. `canonical_uuid` is `str(UUID(value))` of the standard library, `none` where it raises.
pub mod Accept
pub mod EndToEnd
use docplane.Base.{
  ℕ, ◌+◌, String, Bool, true, false, not, ◌&&◌, ◌||◌, Option, none, some, List, [], ◌∷◌, ◌++◌, ◌==◌,
  if◌then◌else◌, eqb,
}
use docplane.Base.Lists.{length, any, nonempty}
use docplane.Base.Sets.{mem, dedup}
use docplane.Base.Sorting.{sort, sort_by}
use docplane.Json.{Json, null, bool, num, str, arr, obj, Fields, get, as_texts}
use docplane.Checked.{Checked, passed, failed, fail_if, ◌>>=◌, ◌>>◌}

-- `CONDITION_KINDS` of generated_conditions.py
abbrev pub condition_kinds : List String
condition_kinds =
    "DRIFTED" ∷ "GENERATION_FAILED" ∷ "SOURCE_OBSERVATION_MISSING" ∷ "SOURCE_OBSERVATION_FAILED"
    ∷ "SOURCE_OBSERVATION_EXPIRED" ∷ "EXECUTION_CONTRACT_MISSING" ∷ "EXECUTION_OWNER_INACTIVE"
    ∷ "CATALOGUES_MISSING" ∷ "CATALOGUES_DRIFTED" ∷ []

-- `xs == ys` on lists of texts
unfoldable pub same_texts : List String → List String → Bool
same_texts [] [] = true
same_texts (x ∷ xs) (y ∷ ys) = x == y && same_texts xs ys
same_texts _ _ = false

-- `set(xs) == set(ys)`
unfoldable pub same_set : List String → List String → Bool
unfolding any mem
same_set xs ys = not (any (λ x. not (mem x ys)) xs) && not (any (λ y. not (mem y xs)) ys)

-- The check of `build_request` on the kinds it is about to send.
unfoldable pub check_request : List String → Checked (Unit {0})
unfolding same_texts any mem dedup sort_by
check_request kinds =
    fail_if
      (not (same_texts kinds (sort (dedup kinds))) || any (λ k. not (mem k condition_kinds)) kinds)
      "condition derivation returned an invalid exact set"

-- `_uuid`, from the parsed value on.
unfoldable pub uuid_of : Option String → String → Checked String
uuid_of none label = failed label
uuid_of (some id) label = passed id

-- `_condition_kind_list`, from the value of the field on.
unfoldable pub check_kinds : Option (List String) → Checked (List String)
unfolding any mem dedup
check_kinds none = failed "WORK reconciliation response has invalid field"
check_kinds (some kinds) = do
  fail_if (any (λ k. not (mem k condition_kinds)) kinds)
      "WORK reconciliation response has invalid field"
  fail_if (not (eqb (length kinds) (length (dedup kinds))))
      "WORK reconciliation response has duplicate field"
  passed kinds

unfoldable pub kinds_in : Option Json → Checked (List String)
unfolding check_kinds
kinds_in (some (arr items)) = check_kinds (as_texts items)
kinds_in _ = failed "WORK reconciliation response has invalid field"

unfoldable pub condition_kind_list : Fields → String → Checked (List String)
unfolding kinds_in get
condition_kind_list value name = kinds_in (get name value)

pub record Collections : Type 0 where
  pub desired_condition_kinds : List String
  pub opened : List String
  pub reopened : List String
  pub refreshed : List String
  pub resolved : List String
  pub continuing : List String

pub record BoundedReceipt : Type 0 where
  pub artifact_id : String
  pub collections : Collections
  pub changed : Bool

-- `isinstance(artifact_id, str)`, `isinstance(changed, bool)`
unfoldable pub text_in : Option Json → Checked String
text_in (some (str s)) = passed s
text_in _ = failed "WORK reconciliation response has invalid artifact_id"

unfoldable pub bool_in : Option Json → Checked Bool
bool_in (some (bool b)) = passed b
bool_in _ = failed "WORK reconciliation response has contradictory changed status"

abbrev pub together : Collections → List String
together c = c.opened ++ (c.reopened ++ (c.refreshed ++ c.continuing))

-- The checks on the collections, from `collections["desired_condition_kinds"] != …` on.
unfoldable pub check_partition : List String → Collections → Checked (Unit {0})
unfolding same_texts same_set any mem dedup
check_partition desired c = do
  fail_if (not (same_texts c.desired_condition_kinds desired))
      "WORK reconciliation response desired set does not match request"
  fail_if
      (not (
        eqb
          (length (dedup c.opened)
            + length (dedup c.reopened)
            + length (dedup c.refreshed)
            + length (dedup c.continuing))
          (length (dedup (together c)))))
      "WORK reconciliation response desired-state categories overlap"
  fail_if (not (same_set (together c) desired))
      "WORK reconciliation response does not partition the desired set"
  fail_if (any (λ k. mem k desired) c.resolved)
      "WORK reconciliation response resolves a desired condition"

-- `changed is not expected_changed`
unfoldable pub check_changed : Bool → Collections → Checked (Unit {0})
check_changed changed c =
    let expected_changed =
      nonempty c.opened || nonempty c.reopened || nonempty c.refreshed || nonempty c.resolved in
    fail_if (not (if changed then expected_changed else not expected_changed))
      "WORK reconciliation response has contradictory changed status"

-- The six collections, read in the order of the source.
unfoldable pub collections_in : Fields → Checked Collections
unfolding condition_kind_list
collections_in value = do
  kinds ← condition_kind_list value "desired_condition_kinds"
  opened ← condition_kind_list value "opened"
  reopened ← condition_kind_list value "reopened"
  refreshed ← condition_kind_list value "refreshed"
  resolved ← condition_kind_list value "resolved"
  continuing ← condition_kind_list value "continuing"
  passed (record {
    desired_condition_kinds = kinds;
    opened = opened;
    reopened = reopened;
    refreshed = refreshed;
    resolved = resolved;
    continuing = continuing;
  })

module _ (canonical_uuid : String → Option String) where
  unfoldable pub bounded_fields : Fields → String → List String → Checked BoundedReceipt
  unfolding text_in uuid_of collections_in bool_in check_partition check_changed
  bounded_fields value expected_artifact_id desired = do
    text ← text_in (get "artifact_id" value)
    id ← uuid_of (canonical_uuid text) "WORK reconciliation response has invalid artifact_id"
    fail_if (not (id == expected_artifact_id))
        "WORK reconciliation receipt names a conflicting artifact"
    c ← collections_in value
    check_partition desired c
    changed ← bool_in (get "changed" value)
    check_changed changed c
    passed (record { artifact_id = id; collections = c; changed = changed })

  -- `_bounded_receipt`
  unfoldable pub bounded_receipt : Json → String → List String → Checked BoundedReceipt
  unfolding bounded_fields
  bounded_receipt (obj value) expected_artifact_id desired =
      bounded_fields value expected_artifact_id desired
  bounded_receipt _ expected_artifact_id desired =
      failed "WORK reconciliation response is not an object"
