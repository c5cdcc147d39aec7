-- ===== src/Work/Captures.antt =====
-- The capture inbox: create, promote, attach, discard. Each digest is `receipt_digest` of the route,
-- the capture and the request; `present_capture` and `present` are the JSON of a row.
use docplane.Base.{
  String, Bool, true, false, not, ◌&&◌, ◌||◌, Option, none, some, List, [], ◌∷◌, ◌++◌, ◌==◌,
  if◌then◌else◌, joined,
}
use docplane.Base.Lists.{any}
use docplane.Base.Strip.{strip, cut, first_line}
use docplane.Base.Dict.{Dict, lookup, insert}
use docplane.Json.{Json, str, obj, field, end}
use docplane.Http.{Result, ok, raise, refuse_if, key, ◌>>=◌, ◌>>◌}
use docplane.Receipts.{Receipt, load_receipt, save_receipt}
use docplane.Work.Types.{
  Db, Context, Initiative, Activity, Capture, CaptureStatus, inbox, attached, discarded, backlog,
  PromotionState,
}
use docplane.Work.Rows.{
  load_initiative, find_capture_of, insert_capture, inbox_capture, work_event, record_event,
}

pub record CaptureCreate : Type 0 where
  pub body : String
  pub kind : String
  pub origin : Json

pub record CapturePromote : Type 0 where
  pub workspace_id : Option String
  pub initiative_key : Option String
  pub title : Option String
  pub objective : Option String
  pub priority : String
  pub note : Option String

pub record CaptureAttach : Type 0 where
  pub initiative_id : String
  pub activity_type : String
  pub note : Option String

-- SELECT … FROM work.captures WHERE capture_id = …
unfoldable pub find_capture : List Capture → String → Option Capture
find_capture [] id = none
find_capture (c ∷ cs) id = if c.capture_id == id then some c else find_capture cs id

-- `_load_capture`
unfoldable pub load_capture : List Capture → String → Result Capture
unfolding find_capture
load_capture cs id = elim (find_capture cs id) [
  | none ↦ raise 404 "CAPTURE_NOT_FOUND"
  | some c ↦ ok c
]

abbrev pub is_inbox : CaptureStatus → Bool
is_inbox inbox = true
is_inbox _ = false

-- `_require_inbox`
abbrev pub require_inbox : Capture → Result (Unit {0})
require_inbox c = refuse_if (not (is_inbox c.status)) 409 "CAPTURE_ALREADY_TRIAGED"

-- UPDATE work.captures SET … WHERE capture_id = …
unfoldable pub update_capture : (Capture → Capture) → String → List Capture → List Capture
update_capture f id [] = []
update_capture f id (c ∷ cs) =
    let rest = update_capture f id cs in if c.capture_id == id then f c ∷ rest else c ∷ rest

-- What triage writes into the row.
unfoldable pub triaged :
    Context → CaptureStatus → Option String → Option String → Option String → Capture → Capture
triaged ctx status initiative activity remark c = record c {
  status = status;
  initiative_id = initiative;
  activity_id = activity;
  triaged_by_principal_id = some ctx.principal.principal_id;
  triaged_at = some ctx.now;
  triage_note = remark;
}

-- The workspace that the request names, or the one with the key `work`: its id, kind and key.
unfoldable pub workspace_named : Dict (String × String) → String → Option (String × String × String)
workspace_named [] name = none
workspace_named ((id, (kind, name')) ∷ ws) name =
    if name' == name then some (id, kind, name') else workspace_named ws name

unfoldable pub workspace_of :
    Dict (String × String) → Option String → Option (String × String × String)
unfolding lookup workspace_named
workspace_of ws none = workspace_named ws "work"
workspace_of ws (some id) = elim (lookup id ws) [
  | none ↦ none
  | some (kind, name) ↦ some (id, kind, name)
]

unfoldable pub work_workspace : Option (String × String × String) → Result (String × String)
work_workspace none = raise 404 "WORKSPACE_NOT_FOUND"
work_workspace (some (id, kind, name)) =
    if kind == "WORK" then ok (id, name) else raise 422 "INITIATIVE_REQUIRES_WORK_WORKSPACE"

-- The two UNIQUE constraints of work.initiatives.
unfoldable pub initiative_exists : Dict Initiative → Initiative → Bool
unfolding any
initiative_exists is new =
    any
      (λ e.
        (e.1.workspace_id == new.workspace_id && e.1.initiative_key == new.initiative_key)
        || (e.1.owner_principal_id == new.owner_principal_id
            && e.1.idempotency_key == new.idempotency_key))
      is

abbrev pub value_or : Option String → String → String
value_or none other = other
value_or (some s) other = if s == "" then other else s

unfoldable pub find_activity : List Activity → Activity → Option Activity
find_activity [] a = none
find_activity (b ∷ bs) a =
    if b.initiative_id == a.initiative_id
      && b.author_principal_id == a.author_principal_id
      && b.idempotency_key == a.idempotency_key
    then some b
    else find_activity bs a

unfoldable pub keep_activity : List Activity → Activity → List Activity × String
unfolding find_activity
keep_activity rows a = elim (find_activity rows a) [
  | none ↦ (rows ++ a ∷ [], a.activity_id)
  | some b ↦ (rows, b.activity_id)
]

abbrev pub stored_or : Option Capture → Capture → Capture
stored_or none row = row
stored_or (some old) row = old

module _ (ctx : Context) (present_capture : Capture → Json) (present : Initiative → Json) where
  abbrev pub answer_of : String → String → String → String → Json → Receipt Json
  answer_of key operation ref hash response = record {
    principal_id = ctx.principal.principal_id;
    idempotency_key = key;
    operation_type = operation;
    resource_ref = some ref;
    request_hash = hash;
    response = response;
  }

  abbrev pub event_key : String → String → String
  event_key event_type key = joined (event_type ∷ ":" ∷ ctx.principal.principal_id ∷ ":" ∷ key ∷ [])

  -- After the lock: the new row, or the one that the author stored under this key before.
  unfoldable pub create_locked : String → CaptureCreate → String → Db → Result (Json × Db)
  unfolding strip insert_capture find_capture_of save_receipt record_event
  create_locked key r hash db = do
    refuse_if (strip r.body == "") 500 "CheckViolation"
    let row = inbox_capture ctx (strip r.body) r.kind r.origin key
    let kept = stored_or (find_capture_of db.captures ctx.principal.principal_id key) row
    ok (
      present_capture kept,
      record db {
        captures = insert_capture db.captures row;
        receipts =
            save_receipt db.receipts
              (answer_of key "CAPTURE_CREATE" kept.capture_id hash (present_capture kept));
        events =
            record_event ctx
              (work_event ctx "CAPTURE_CREATED" (event_key "CAPTURE_CREATED" key) "work" "CAPTURE"
                kept.capture_id (obj (field "kind" (str r.kind) end)))
              db.events;
      },
    )

  -- The end of every triage: the row, the event, the receipt.
  unfoldable pub finish_triage :
      String
      → String
      → String
      → String
      → String
      → (Capture → Capture)
      → (Capture → Json)
      → Json
      → Capture
      → Db
      → Json × Db
  unfolding update_capture save_receipt record_event
  finish_triage key operation id hash workspace change respond metadata c db =
      let response = respond (change c) in
      (
        response,
        record db {
          captures = update_capture change id db.captures;
          receipts = save_receipt db.receipts (answer_of key operation id hash response);
          events =
              record_event ctx
                (work_event ctx "CAPTURE_TRIAGED" (event_key "CAPTURE_TRIAGED" key) workspace
                  "CAPTURE" id metadata)
                db.events;
        },
      )

  -- The row that `promote_capture` inserts.
  unfoldable pub promoted_initiative :
      String → CapturePromote → Capture → String × String → Initiative
  unfolding strip cut first_line
  promoted_initiative key r c w = record {
    initiative_key = value_or r.initiative_key (joined ("cap-" ∷ cut 8 c.capture_id ∷ []));
    workspace_id = w.0;
    workspace_key = w.1;
    title = cut 300 (value_or r.title (strip (first_line (strip c.body))));
    objective = cut 5000 (value_or r.objective (strip c.body));
    owner_principal_id = ctx.principal.principal_id;
    idempotency_key = joined ("capture-promote:" ∷ key ∷ []);
    work_state = backlog;
    priority = r.priority;
    version = 1;
    review_due_at = none;
    blocker_summary = none;
    soak_started_at = none;
    soak_review_at = none;
    soak_success_criteria = none;
    soak_failure_conditions = none;
    soak_monitoring_ref = none;
    parked_reason = none;
    parked_review_at = none;
    parked_indefinitely = false;
    promotion_state = PromotionState.not_ready;
    promotion_change_id = none;
    model_disposition = none;
    model_disposition_note = none;
    observe_disposition = none;
    observe_disposition_note = none;
    completed_at = none;
    updated_at = ctx.now;
  }

  unfoldable pub promote_locked :
      String → String → CapturePromote → String → Db → Result (Json × Db)
  unfolding load_capture workspace_of work_workspace initiative_exists promoted_initiative insert
      finish_triage triaged
  promote_locked key id r hash db = do
    c ← load_capture db.captures id
    require_inbox c
    w ← work_workspace (workspace_of db.workspaces r.workspace_id)
    let new = promoted_initiative key r c w
    refuse_if (initiative_exists db.initiatives new) 409 "INITIATIVE_KEY_EXISTS"
    let initiative_id = ctx.new_id new.idempotency_key
    ok (
        finish_triage key "CAPTURE_PROMOTE" id hash w.1
          (triaged ctx CaptureStatus.promoted (some initiative_id) c.activity_id r.note)
          (λ row.
            obj (field "capture" (present_capture row) (field "initiative" (present new) end)))
          (obj
            (field "disposition" (str "PROMOTED") (field "initiative_id" (str initiative_id) end)))
          c
          (record db {
            initiatives = insert initiative_id new db.initiatives;
            links =
                db.links
                ++ record {
                  initiative_id = initiative_id;
                  relation = "CONTEXT";
                  resource_type = "EXTERNAL";
                  resource_id = joined ("docplane://work/captures/" ∷ id ∷ []);
                  created_by = ctx.principal.principal_id;
                }
                  ∷ [];
          }))

  -- The row of `attach_capture`; the insert keeps a row that stands under the same key.
  abbrev pub attached_activity : String → CaptureAttach → Capture → Activity
  attached_activity key r c = record {
    activity_id = ctx.new_id (joined ("capture-attach:" ∷ key ∷ []));
    initiative_id = r.initiative_id;
    author_principal_id = ctx.principal.principal_id;
    idempotency_key = joined ("capture-attach:" ∷ key ∷ []);
    activity_type = r.activity_type;
    body = c.body;
    metadata = obj (
        field "capture_id" (str c.capture_id)
          (field "capture_kind" (str c.kind) (field "capture_origin" c.origin end)));
  }

  unfoldable pub attach_locked : String → String → CaptureAttach → String → Db → Result (Json × Db)
  unfolding load_capture load_initiative keep_activity finish_triage triaged
  attach_locked key id r hash db = do
    c ← load_capture db.captures id
    require_inbox c
    i ← load_initiative db r.initiative_id
    let stored = keep_activity db.activities (attached_activity key r c)
    ok (
        finish_triage key "CAPTURE_ATTACH" id hash i.workspace_key
          (triaged ctx attached (some r.initiative_id) (some stored.1) r.note)
          (λ row.
            obj (field "capture" (present_capture row) (field "activity_id" (str stored.1) end)))
          (obj (
            field "disposition" (str "ATTACHED") (field "initiative_id" (str r.initiative_id) end)))
          c (record db { activities = stored.0 }))

  unfoldable pub discard_locked : String → String → Option String → String → Db → Result (Json × Db)
  unfolding load_capture finish_triage triaged
  discard_locked key id remark hash db = do
    c ← load_capture db.captures id
    require_inbox c
    ok (
        finish_triage key "CAPTURE_DISCARD" id hash "work"
          (triaged ctx discarded c.initiative_id c.activity_id remark)
          (λ row. obj (field "capture" (present_capture row) end))
          (obj (field "disposition" (str "DISCARDED") end)) c db)

  abbrev pub unless_answered : Option Json → Db → Result (Json × Db) → Result (Json × Db)
  unless_answered (some response) db other = ok (response, db)
  unless_answered none db other = other

  -- The frame that the handlers share: key, receipt, and the locked part.
  unfoldable pub handle :
      Option String → String → String → Db → (String → Result (Json × Db)) → Result (Json × Db)
  unfolding key load_receipt
  handle idempotency_key operation hash db locked = do
    k ← key idempotency_key
    replayed ← load_receipt db.receipts ctx.principal.principal_id k operation hash
    unless_answered replayed db (locked k)

  unfoldable pub create_capture : Option String → CaptureCreate → String → Db → Result (Json × Db)
  unfolding handle create_locked
  create_capture header r hash db =
      handle header "CAPTURE_CREATE" hash db (λ k. create_locked k r hash db)

  unfoldable pub promote_capture :
      Option String → String → CapturePromote → String → Db → Result (Json × Db)
  unfolding handle promote_locked
  promote_capture header id r hash db =
      handle header "CAPTURE_PROMOTE" hash db (λ k. promote_locked k id r hash db)

  unfoldable pub attach_capture :
      Option String → String → CaptureAttach → String → Db → Result (Json × Db)
  unfolding handle attach_locked
  attach_capture header id r hash db =
      handle header "CAPTURE_ATTACH" hash db (λ k. attach_locked k id r hash db)

  unfoldable pub discard_capture :
      Option String → String → Option String → String → Db → Result (Json × Db)
  unfolding handle discard_locked
  discard_capture header id remark hash db =
      handle header "CAPTURE_DISCARD" hash db (λ k. discard_locked k id remark hash db)
