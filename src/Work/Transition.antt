-- ===== src/Work/Transition.antt =====
-- `transition_initiative`. `digest` is `receipt_digest` of the route, the initiative and the request;
-- `present` is the JSON of a row, with the stamps that `_initiative` and `_stamp_soak_resolution` add.
use docplane.Base.{
  ℕ, suc, String, Bool, true, false, not, ◌&&◌, Option, none, some, List, [], ◌∷◌, ◌==◌,
  if◌then◌else◌, joined, eqb,
}
use docplane.Base.Lists.{any, nonempty}
use docplane.Base.Strip.{strip}
use docplane.Base.Sets.{mem}
use docplane.Base.Dict.{insert}
use docplane.Json.{Json, null, str, obj, field, end}
use docplane.Http.{Result, ok, refuse_if, key, ◌>>=◌, ◌>>◌}
use docplane.Receipts.{load_receipt, save_receipt}
use docplane.Work.Types.{
  Db, Context, Initiative, WorkTransition, Link, Activity, Disposition, deferred, is_allowed,
  is_soaking, is_complete, is_terminal, text_or, disposition_or, state_name,
}
use docplane.Work.Gates.{Missing, closure_gate_errors, soak_gate_errors, validate_state}
use docplane.Work.Rows.{
  load_initiative, insert_activity, insert_capture, inbox_capture, work_event, record_event,
}

unfoldable pub has_link : List Link → String → List String → Bool
unfolding any mem
has_link links initiative_id types =
    any (λ l. l.initiative_id == initiative_id && mem l.resource_type types) links

-- The row that the UPDATE writes.
unfoldable pub moved : ℕ → WorkTransition → Initiative → Initiative
moved now r i = record i {
  work_state = r.work_state;
  review_due_at = r.review_due_at;
  blocker_summary = r.blocker_summary;
  soak_started_at = r.soak_started_at;
  soak_review_at = r.soak_review_at;
  soak_success_criteria = r.soak_success_criteria;
  soak_failure_conditions = r.soak_failure_conditions;
  soak_monitoring_ref = text_or r.soak_monitoring_ref i.soak_monitoring_ref;
  parked_reason = r.parked_reason;
  parked_review_at = r.parked_review_at;
  parked_indefinitely = r.parked_indefinitely;
  model_disposition = disposition_or r.model_disposition i.model_disposition;
  model_disposition_note = text_or r.model_disposition_note i.model_disposition_note;
  observe_disposition = disposition_or r.observe_disposition i.observe_disposition;
  observe_disposition_note = text_or r.observe_disposition_note i.observe_disposition_note;
  completed_at = if is_terminal r.work_state then some now else none;
  version = suc i.version;
  updated_at = now;
}

-- `closure_gate_errors` of a row, with the evidence of its links.
unfoldable pub closure_gate : List Link → String → Initiative → List Missing
unfolding closure_gate_errors has_link
closure_gate links id i =
    closure_gate_errors i.promotion_state i.model_disposition i.model_disposition_note
      i.observe_disposition i.observe_disposition_note
      (has_link links id ("MODEL_ENTITY" ∷ "ARTIFACT" ∷ []))
      (has_link links id ("OBSERVATION" ∷ []))

unfoldable pub soak_gate : List Link → String → Initiative → List String
unfolding soak_gate_errors has_link
soak_gate links id i =
    soak_gate_errors i.soak_monitoring_ref
      (has_link links id ("MODEL_ENTITY" ∷ "ARTIFACT" ∷ "OBSERVATION" ∷ []))

-- The refusals, in the order of the source. The gates read the dispositions and the monitoring
-- reference that the UPDATE writes, which are those of `moved`.
unfoldable pub admit : ℕ → List Link → String → WorkTransition → Initiative → Result (Unit {0})
unfolding is_allowed closure_gate soak_gate moved
admit now links id r i =
    refuse_if (not (eqb i.version r.expected_version)) 409 "INITIATIVE_VERSION_STALE"
    >> refuse_if (not (is_allowed i.work_state r.work_state)) 409 "WORK_TRANSITION_INVALID"
    >> refuse_if (is_soaking r.work_state && nonempty (soak_gate links id (moved now r i))) 409
        "WORK_SOAK_REQUIRES_OBSERVABILITY"
    >> refuse_if (is_complete r.work_state && nonempty (closure_gate links id (moved now r i))) 409
        "WORK_CLOSURE_DISPOSITIONS_INCOMPLETE"

abbrev pub json_of : Option String → Json
json_of none = null
json_of (some s) = str s

abbrev pub stripped : Option String → String
stripped none = ""
stripped (some s) = strip s

abbrev pub is_deferred : Option Disposition → Bool
is_deferred (some deferred) = true
is_deferred _ = false

module _ (ctx : Context) where
  -- `if request.note`
  unfoldable pub add_note : String → String → Option String → List Activity → Result (List Activity)
  unfolding insert_activity strip
  add_note id key none rows = ok rows
  add_note id key (some remark) rows =
      if remark == ""
      then ok rows
      else insert_activity rows (record {
        activity_id = ctx.new_id (joined ("transition:" ∷ key ∷ []));
        initiative_id = id;
        author_principal_id = ctx.principal.principal_id;
        idempotency_key = joined ("transition:" ∷ key ∷ []);
        activity_type = "NOTE";
        body = strip remark;
        metadata = obj end;
      })

  -- One domain of the loop on the deferred dispositions.
  unfoldable pub defer :
      String → String → Initiative → String → Option Disposition → Option String → Db → Db
  unfolding strip insert_capture record_event
  defer id key i domain disposition remark db =
      if is_deferred disposition
      then record db {
        captures = insert_capture db.captures (
            inbox_capture ctx
              (joined (
                "Deferred "
                ∷ domain
                ∷ " disposition from completed initiative '"
                ∷ i.title
                ∷ "' ("
                ∷ i.initiative_key
                ∷ "): "
                ∷ stripped remark
                ∷ []))
              "FINDING"
              (obj (
                field "source" (str "closure-deferral")
                  (field "initiative_id" (str id) (field "domain" (str domain) end))))
              (joined ("closure-deferred:" ∷ domain ∷ ":" ∷ key ∷ [])));
        events =
            record_event ctx
              (work_event ctx "WORK_CLOSURE_DEFERRED"
                (joined (
                  "WORK_CLOSURE_DEFERRED:" ∷ domain ∷ ":" ∷ ctx.principal.principal_id ∷ ":" ∷ key
                  ∷ []))
                i.workspace_key "INITIATIVE" id
                (obj (field "domain" (str domain) (field "note" (json_of remark) end))))
              db.events;
      }
      else db

  unfoldable pub defer_domains : String → String → Initiative → Db → Db
  unfolding defer
  defer_domains id key i db =
      if is_complete i.work_state
      then defer id key i "observe" i.observe_disposition i.observe_disposition_note
          (defer id key i "model" i.model_disposition i.model_disposition_note db)
      else db

  module _ (digest : String → WorkTransition → String) (present : Initiative → Json) where
    -- From the UPDATE to the commit.
    unfoldable pub write_transition :
        String → String → WorkTransition → Initiative → Db → Result (Json × Db)
    unfolding moved add_note defer_domains insert record_event save_receipt
    write_transition key id r i db = do
      let new = moved ctx.now r i
      rows ← add_note id key r.note db.activities
      let closed =
          defer_domains id key new
            (record db { initiatives = insert id new db.initiatives; activities = rows })
      ok (
        present new,
        record closed {
          events =
              record_event ctx
                (work_event ctx "INITIATIVE_TRANSITIONED"
                  (joined
                    ("INITIATIVE_TRANSITIONED:" ∷ ctx.principal.principal_id ∷ ":" ∷ key ∷ []))
                  i.workspace_key "INITIATIVE" id
                  (obj (
                    field "from" (str (state_name i.work_state))
                      (field "to" (str (state_name r.work_state)) end))))
                closed.events;
          receipts = save_receipt closed.receipts (record {
            principal_id = ctx.principal.principal_id;
            idempotency_key = key;
            operation_type = "INITIATIVE_TRANSITION";
            resource_ref = some id;
            request_hash = digest id r;
            response = present new;
          });
        },
      )

    unfoldable pub transition_locked : String → String → WorkTransition → Db → Result (Json × Db)
    unfolding load_initiative admit write_transition
    transition_locked key id r db = do
      i ← load_initiative db id
      admit ctx.now db.links id r i
      write_transition key id r i db

    unfoldable pub transition_unless_replayed :
        Option Json → String → String → WorkTransition → Db → Result (Json × Db)
    unfolding transition_locked
    transition_unless_replayed (some response) key id r db = ok (response, db)
    transition_unless_replayed none key id r db = transition_locked key id r db

    unfoldable pub transition_initiative :
        Option String → String → WorkTransition → Db → Result (Json × Db)
    unfolding validate_state key load_receipt transition_unless_replayed
    transition_initiative idempotency_key id r db = do
      validate_state r
      k ← key idempotency_key
      replayed ←
          load_receipt db.receipts ctx.principal.principal_id k "INITIATIVE_TRANSITION"
            (digest id r)
      transition_unless_replayed replayed k id r db
