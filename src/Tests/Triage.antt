-- ===== src/Tests/Triage.antt =====
-- Triages of one capture, repeated and under other keys.
use docplane.Base.{◌≡◌, refl, none, some}
use docplane.Json.{Json, null}
use docplane.Http.{Result, ok, raise, key}
use docplane.Receipts.{find_receipt}
use docplane.Work.Types.{Db}
use docplane.Work.Captures.{CaptureCreate, create_capture}
use docplane.Work.Triage.{Request, to_promote, to_discard, triage}
use docplane.Work.Triage.Once.{Later, now, after_create, triage_once}
use docplane.Tests.Work.{start, context, present, present_capture, db_of, reply_of}

abbrev discard : Request
discard = to_discard (some "no")

abbrev promote : Request
promote = to_promote (record {
  workspace_id = none;
  initiative_key = none;
  title = none;
  objective = none;
  priority = "NORMAL";
  note = none;
})

abbrev discarding : Result (Json × Db)
discarding = triage present_capture present context (some "k3") "c" discard "h" start

discarding_passes : discarding ≡ ok (reply_of discarding, db_of discarding)
unfolding triage
discarding_passes = refl

abbrev idea : CaptureCreate
idea = record { body = "another idea"; kind = "IDEA"; origin = null }

abbrev creating : Result (Json × Db)
creating = create_capture context present_capture present (some "k5") idea "h5" (db_of discarding)

creating_passes : creating ≡ ok (reply_of creating, db_of creating)
unfolding triage create_capture
creating_passes = refl

abbrev created_later : Later present_capture present (db_of discarding) (db_of creating)
created_later =
    after_create context (some "k5") idea "h5" (db_of discarding) (db_of creating) (db_of creating)
      (reply_of creating) creating_passes (now (db_of creating))

-- A promotion under a new key is refused.
triage_once_example :
    triage present_capture present context (some "k4") "c" promote "h" (db_of creating)
    ≡ raise 409 "CAPTURE_ALREADY_TRIAGED"
unfolding triage create_capture key find_receipt
triage_once_example =
    triage_once present_capture present context (some "k3") "k3" "c" discard "h" start
      (db_of discarding) (db_of creating) (reply_of discarding) context (some "k4") "k4" promote "h"
      refl refl discarding_passes created_later refl

-- The discard itself, delivered again, gets its answer.
discarded_again :
    triage present_capture present context (some "k3") "c" discard "h" (db_of creating)
    ≡ ok (reply_of discarding, db_of creating)
unfolding triage create_capture key find_receipt
discarded_again =
    triage_once present_capture present context (some "k3") "k3" "c" discard "h" start
      (db_of discarding) (db_of creating) (reply_of discarding) context (some "k3") "k3" discard "h"
      refl refl discarding_passes created_later refl
