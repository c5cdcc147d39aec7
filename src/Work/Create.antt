-- ===== src/Work/Create.antt =====
-- `create_initiative` and `add_link`.
use docplane.Base.{
  ℕ, String, Bool, false, ◌&&◌, ◌||◌, Option, none, some, List, [], ◌∷◌, ◌++◌, ◌==◌, if◌then◌else◌,
  joined,
}
use docplane.Base.Lists.{any}
use docplane.Base.Strip.{strip}
use docplane.Base.Dict.{insert}
use docplane.Json.{Json, str, obj, field, end}
use docplane.Http.{Result, ok, raise, refuse_if, key, ◌>>=◌, ◌>>◌}
use docplane.Work.Types.{
  Db, Context, Initiative, WorkTransition, WorkState, PromotionState, Link, state_name, is_terminal,
}
use docplane.Work.Gates.{validate_state}
use docplane.Work.Rows.{load_initiative, work_event, record_event}
use docplane.Work.Captures.{workspace_of, work_workspace, initiative_exists}

-- `InitiativeCreate`; the scope and the target date, which nothing reads, are left out.
pub record InitiativeCreate : Type 0 where
  pub initiative_key : String
  pub workspace_id : String
  pub title : String
  pub objective : String
  pub work_state : WorkState
  pub priority : String
  pub review_due_at : Option ℕ
  pub blocker_summary : Option String
  pub soak_started_at : Option ℕ
  pub soak_review_at : Option ℕ
  pub soak_success_criteria : Option String
  pub soak_failure_conditions : Option String
  pub parked_reason : Option String
  pub parked_review_at : Option ℕ
  pub parked_indefinitely : Bool

-- The request, as `_validate_state` reads it.
abbrev pub as_transition : InitiativeCreate → WorkTransition
as_transition r = record {
  expected_version = 1;
  work_state = r.work_state;
  review_due_at = r.review_due_at;
  blocker_summary = r.blocker_summary;
  soak_started_at = r.soak_started_at;
  soak_review_at = r.soak_review_at;
  soak_success_criteria = r.soak_success_criteria;
  soak_failure_conditions = r.soak_failure_conditions;
  soak_monitoring_ref = none;
  parked_reason = r.parked_reason;
  parked_review_at = r.parked_review_at;
  parked_indefinitely = r.parked_indefinitely;
  model_disposition = none;
  model_disposition_note = none;
  observe_disposition = none;
  observe_disposition_note = none;
  note = none;
}

-- The row that the INSERT stores, the defaults of the table included.
unfoldable pub created : Context → String → InitiativeCreate → String × String → Initiative
unfolding strip
created ctx key r w = record {
  initiative_key = r.initiative_key;
  workspace_id = w.0;
  workspace_key = w.1;
  title = strip r.title;
  objective = strip r.objective;
  owner_principal_id = ctx.principal.principal_id;
  idempotency_key = key;
  work_state = r.work_state;
  priority = r.priority;
  version = 1;
  review_due_at = r.review_due_at;
  blocker_summary = r.blocker_summary;
  soak_started_at = r.soak_started_at;
  soak_review_at = r.soak_review_at;
  soak_success_criteria = r.soak_success_criteria;
  soak_failure_conditions = r.soak_failure_conditions;
  soak_monitoring_ref = none;
  parked_reason = r.parked_reason;
  parked_review_at = r.parked_review_at;
  parked_indefinitely = r.parked_indefinitely;
  promotion_state = PromotionState.not_ready;
  promotion_change_id = none;
  model_disposition = none;
  model_disposition_note = none;
  observe_disposition = none;
  observe_disposition_note = none;
  completed_at = none;
  updated_at = ctx.now;
}

module _ (ctx : Context) (present : Initiative → Json) where
  unfoldable pub insert_created :
      String → InitiativeCreate → String × String → Db → Result (Json × Db)
  unfolding created insert record_event initiative_exists strip
  insert_created key r w db = do
    let new = created ctx key r w
    refuse_if (initiative_exists db.initiatives new) 409 "INITIATIVE_KEY_EXISTS"
    refuse_if (new.title == "" || new.objective == "") 500 "CheckViolation"
    ok (
      present new,
      record db {
        initiatives = insert (ctx.new_id key) new db.initiatives;
        events =
            record_event ctx
              (work_event ctx "INITIATIVE_CREATED"
                (joined ("INITIATIVE_CREATED:" ∷ ctx.principal.principal_id ∷ ":" ∷ key ∷ [])) w.1
                "INITIATIVE" (ctx.new_id key)
                (obj (
                  field "work_state" (str (state_name r.work_state))
                    (field "priority" (str r.priority) end))))
              db.events;
      },
    )

  -- The request's model admits no terminal state, and `_validate_state` runs before the handler.
  unfoldable pub create_initiative : Option String → InitiativeCreate → Db → Result (Json × Db)
  unfolding validate_state key workspace_of work_workspace insert_created
  create_initiative idempotency_key r db = do
    refuse_if (is_terminal r.work_state) 422 "work_state"
    validate_state (as_transition r)
    k ← key idempotency_key
    w ← work_workspace (workspace_of db.workspaces (some r.workspace_id))
    insert_created k r w db

-- The primary key of work.initiative_links.
unfoldable pub same_link : Link → Link → Bool
same_link a b =
    a.initiative_id == b.initiative_id
    && a.relation == b.relation
    && a.resource_type == b.resource_type
    && a.resource_id == b.resource_id

-- INSERT … ON CONFLICT DO NOTHING
unfoldable pub insert_link : List Link → Link → List Link
unfolding any same_link
insert_link links l = if any (same_link l) links then links else links ++ l ∷ []

-- What the query of `_LINK_RESOLVERS` finds: an id that it cannot read, no row, or a row.
pub data Resolved : Type 0 where
  unreadable missing resolved : Resolved

-- `_resolve_link_resource`; `none` for a type that has no resolver
unfoldable pub resolve_link : Option Resolved → Result (Unit {0})
resolve_link none = refuse_if false 422 ""
resolve_link (some unreadable) = raise 422 "LINK_RESOURCE_ID_INVALID"
resolve_link (some missing) = raise 404 "LINK_RESOURCE_NOT_FOUND"
resolve_link (some resolved) = refuse_if false 422 ""

-- `find_resource` is the query of the type on the tables of the other domains.
unfoldable pub add_link : (String → String → Option Resolved) → Link → Db → Result Db
unfolding load_initiative resolve_link insert_link
add_link find_resource l db = do
  i ← load_initiative db l.initiative_id
  resolve_link (find_resource l.resource_type l.resource_id)
  ok (record db { links = insert_link db.links l })
