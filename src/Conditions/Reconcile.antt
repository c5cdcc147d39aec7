-- ===== src/Conditions/Reconcile.antt =====
-- `reconcile_generated_artifact_conditions`, the whole handler: key, validation, receipt, locks,
-- loops, event, receipt. `J` is JSON as the database stores it.
use Prim.Native.Char.{code}
use docplane.Base.{
  ℕ, String, Bool, true, false, not, ◌&&◌, ◌||◌, leb, Option, none, some, List, [], ◌∷◌, ◌==◌,
  if◌then◌else◌, ltb, eqb, joined,
}
use docplane.Base.Lists.{length, any, all}
use docplane.Base.Slices.{str_len}
use docplane.Base.Sets.{mem, dedup}
use docplane.Base.Sorting.{sort, sort_by}
use docplane.Base.Dict.{Dict, keys, entry_key, of_entries}
use docplane.Json.{Json, str, arr, bool, obj, texts, field, end}
use docplane.Http.{Result, ok, raise, refuse_if, key, ◌>>=◌, ◌>>◌}
use docplane.Receipts.{Receipt, load_receipt, save_receipt}
use docplane.Events.{Draft, Log, append_event}
use docplane.Conditions.{Briefings, Condition, Progress, Context, reconcile_rows, is_changed}

pub record Response : Type 0 where
  pub artifact_id : String
  pub desired_condition_kinds : List String
  pub opened : List String
  pub reopened : List String
  pub refreshed : List String
  pub resolved : List String
  pub continuing : List String
  pub changed : Bool

-- The answer as JSON.
unfoldable pub response_json : Response → Json
unfolding texts
response_json r = obj (
    field "artifact_id" (str r.artifact_id) (
      field "desired_condition_kinds" (arr (texts r.desired_condition_kinds)) (
        field "opened" (arr (texts r.opened)) (
          field "reopened" (arr (texts r.reopened)) (
            field "refreshed" (arr (texts r.refreshed)) (
              field "resolved" (arr (texts r.resolved)) (
                field "continuing" (arr (texts r.continuing))
                  (field "changed" (bool r.changed) end))))))))

-- The tables that the transaction reads or writes. `conditions` gives the rows of each artifact.
pub record Db (B J : Type 0) : Type 0 where
  pub artifacts : List String
  pub conditions : String → Dict (Condition B)
  pub receipts : List (Receipt J)
  pub events : Log J

abbrev pub operation : String
operation = "WORK_GENERATED_ARTIFACT_CONDITIONS_EXACT_SET"

-- `exact_kinds`, the validator of the request's model.
unfoldable pub exact_kinds {ℓ} : {B : Type ℓ} → Dict B → Bool
unfolding dedup
exact_kinds conditions = eqb (length (keys conditions)) (length (dedup (keys conditions)))

abbrev is_upper : ℕ → Bool
is_upper c = leb 65 c && leb c 90

-- `[A-Z0-9_]`
abbrev is_kind_code : ℕ → Bool
is_kind_code c = is_upper c || (leb 48 c && leb c 57) || eqb c 95

unfoldable kind_tail : String → Bool
kind_tail String.[] = true
kind_tail (String.◌∷◌ c s) = is_kind_code (code c) && kind_tail s

-- `^[A-Z][A-Z0-9_]{2,63}$`
unfoldable pub kind_valid : String → Bool
unfolding kind_tail str_len
kind_valid String.[] = false
kind_valid (String.◌∷◌ c s) =
    is_upper (code c) && kind_tail s && leb 2 (str_len s) && leb (str_len s) 63

-- The checks of the request's model: what fails them is answered by 422 before the handler runs.
unfoldable pub is_condition_set {ℓ} : {B : Type ℓ} → Dict B → Bool
unfolding exact_kinds kind_valid all
is_condition_set conditions =
    leb (length conditions) 100 && all kind_valid (keys conditions) && exact_kinds conditions

module _ {B : Type 0} (j : Briefings B) where
  -- `_validate_briefings`; the two kinds of errors are raised together as one 422.
  unfoldable pub validate_briefings : Dict B → Result (Unit {0})
  unfolding any
  validate_briefings conditions =
      refuse_if (any (λ e. j.has_secret_findings e.1 || ltb 8192 (j.dumps_size e.1)) conditions) 422
        "WORK_CONDITIONS_REJECTED"

module _ {B : Type 0} where
  abbrev pub response_of : String → Dict B → Progress B → Response
  response_of artifact_id desired p = record {
    artifact_id = artifact_id;
    desired_condition_kinds = sort (keys desired);
    opened = p.opened;
    reopened = p.reopened;
    refreshed = p.refreshed;
    resolved = p.resolved;
    continuing = p.continuing;
    changed = is_changed p;
  }

  -- The rows of one artifact are replaced, the others' stay.
  abbrev pub with_rows :
      (String → Dict (Condition B)) → String → Dict (Condition B) → String → Dict (Condition B)
  with_rows table artifact_id rows a = if artifact_id == a then rows else table a

module _ {B J : Type 0} (j : Briefings B) where
  -- `digest` is `receipt_digest` of the route, the artifact and the sorted conditions;
  -- `encode` and `metadata_json` give the JSON of the answer and of the event's metadata.
  module _ (digest : String → Dict B → String) (encode : Response → J)
      (metadata_json : Progress B → J) (ctx : Context) where
    abbrev pub draft_of : String → String → Progress B → Draft J
    draft_of artifact_id key p = record {
      occurred_at = none;
      event_type = "WORK_GENERATED_ARTIFACT_CONDITIONS_RECONCILED";
      channel = "API";
      producer_id = "docplane-work";
      idempotency_key = joined (
          "WORK_GENERATED_ARTIFACT_CONDITIONS_RECONCILED:" ∷ ctx.principal.principal_id ∷ ":" ∷ key
          ∷ []);
      client_identity = none;
      workspace_key = some "work";
      resource_type = some "GENERATED_ARTIFACT";
      resource_id = some artifact_id;
      page_resource_id = none;
      page_path = none;
      page_revision = none;
      release_id = none;
      metadata = metadata_json p;
    }

    abbrev pub receipt_of : String → String → String → J → Receipt J
    receipt_of key artifact_id hash response = record {
      principal_id = ctx.principal.principal_id;
      idempotency_key = key;
      operation_type = operation;
      resource_ref = some artifact_id;
      request_hash = hash;
      response = response;
    }

    -- From the lock of the artifact's row to the commit.
    unfoldable pub reconcile_locked :
        String → String → Dict B → String → Db B J → Result (J × Db B J)
    unfolding mem reconcile_rows is_changed append_event save_receipt
    reconcile_locked key artifact_id desired hash db =
        if not (mem artifact_id db.artifacts)
        then raise 404 "MODEL_ARTIFACT_NOT_FOUND"
        else (let p = reconcile_rows j ctx (db.conditions artifact_id) desired in
            let response = encode (response_of artifact_id desired p) in
            let events =
              if is_changed p
              then (append_event ctx.event_id ctx.now (some ctx.principal)
                  (draft_of artifact_id key p) db.events).log
              else db.events in
            ok (
              response,
              record db {
                conditions = with_rows db.conditions artifact_id p.rows;
                events = events;
                receipts = save_receipt db.receipts (receipt_of key artifact_id hash response);
              },
            ))

    -- `if replayed is not None: return replayed`
    unfoldable pub unless_replayed :
        Option J → String → String → Dict B → String → Db B J → Result (J × Db B J)
    unfolding reconcile_locked
    unless_replayed (some response) key artifact_id desired hash db = ok (response, db)
    unless_replayed none key artifact_id desired hash db =
        reconcile_locked key artifact_id desired hash db

    unfoldable pub reconcile_conditions :
        Option String → String → Dict B → Db B J → Result (J × Db B J)
    unfolding is_condition_set validate_briefings of_entries key load_receipt unless_replayed
    reconcile_conditions idempotency_key artifact_id conditions db = do
      refuse_if (not (is_condition_set conditions)) 422 "RequestValidationError"
      k ← key idempotency_key
      validate_briefings j conditions
      let desired = of_entries [] conditions
      let hash = digest artifact_id (sort_by entry_key desired)
      replayed ← load_receipt db.receipts ctx.principal.principal_id k operation hash
      unless_replayed replayed k artifact_id desired hash db
