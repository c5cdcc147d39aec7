-- ===== src/Work/Rows.antt =====
-- The inserts into work.initiative_activities and work.captures that the handlers share, with the
-- constraints of the tables: a row that a CHECK or a UNIQUE refuses fails the request with 500.
use docplane.Base.{String, Bool, ◌&&◌, Option, none, some, List, [], ◌∷◌, ◌++◌, ◌==◌, if◌then◌else◌}
use docplane.Base.Lists.{any}
use docplane.Base.Strip.{strip}
use docplane.Base.Dict.{lookup}
use docplane.Json.{Json}
use docplane.Http.{Result, ok, raise, refuse_if, ◌>>◌}
use docplane.Events.{Draft, Log, append_event}
use docplane.Work.Types.{Db, Context, Initiative, Activity, Capture, inbox}

-- `_load`, but for the stamps on the answer
unfoldable pub load_initiative : Db → String → Result Initiative
unfolding lookup
load_initiative db id = elim (lookup id db.initiatives) [
  | none ↦ raise 404 "INITIATIVE_NOT_FOUND"
  | some i ↦ ok i
]

unfoldable pub has_activity : List Activity → String → String → String → Bool
unfolding any
has_activity rows initiative_id author key =
    any
      (λ a.
        a.initiative_id == initiative_id
        && a.author_principal_id == author
        && a.idempotency_key == key)
      rows

-- INSERT INTO work.initiative_activities, with no conflict clause
unfoldable pub insert_activity : List Activity → Activity → Result (List Activity)
unfolding has_activity strip
insert_activity rows a = do
  refuse_if (strip a.body == "") 500 "CheckViolation"
  refuse_if (has_activity rows a.initiative_id a.author_principal_id a.idempotency_key) 500
      "UniqueViolation"
  ok (rows ++ a ∷ [])

unfoldable pub find_capture_of : List Capture → String → String → Option Capture
find_capture_of [] author key = none
find_capture_of (c ∷ cs) author key =
    if c.author_principal_id == author && c.idempotency_key == key
    then some c
    else find_capture_of cs author key

-- INSERT INTO work.captures … ON CONFLICT (author_principal_id, idempotency_key) keeps the row.
unfoldable pub insert_capture : List Capture → Capture → List Capture
unfolding find_capture_of
insert_capture cs c = elim (find_capture_of cs c.author_principal_id c.idempotency_key) [
  | none ↦ cs ++ c ∷ []
  | some old ↦ cs
]

module _ (ctx : Context) where
  -- A new row of the inbox
  abbrev pub inbox_capture : String → String → Json → String → Capture
  inbox_capture body kind origin key = record {
    capture_id = ctx.new_id key;
    body = body;
    kind = kind;
    origin = origin;
    status = inbox;
    author_principal_id = ctx.principal.principal_id;
    idempotency_key = key;
    initiative_id = none;
    activity_id = none;
    triaged_by_principal_id = none;
    triaged_at = none;
    triage_note = none;
    created_at = ctx.now;
  }

  -- The arguments that every `append_event` of the router has in common.
  abbrev pub work_event : String → String → String → String → String → Json → Draft Json
  work_event event_type key workspace_key resource_type resource_id metadata = record {
    occurred_at = none;
    event_type = event_type;
    channel = "API";
    producer_id = "docplane-work";
    idempotency_key = key;
    client_identity = none;
    workspace_key = some workspace_key;
    resource_type = some resource_type;
    resource_id = some resource_id;
    page_resource_id = none;
    page_path = none;
    page_revision = none;
    release_id = none;
    metadata = metadata;
  }

  unfoldable pub record_event : Draft Json → Log Json → Log Json
  unfolding append_event
  record_event d log =
      (append_event (ctx.new_id d.idempotency_key) ctx.now (some ctx.principal) d log).log
