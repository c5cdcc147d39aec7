-- ===== src/Tests/Work.antt =====
-- An initiative that is completed, and a capture that is discarded.
use docplane.Base.{
  if◌then◌else◌, ◌||◌, ◌&&◌, ◌==◌, ◌≤◌, String, ◌≡◌, refl, ◌↔◌, Bool, true, false, Option, none,
  some, [], ◌∷◌, is_some,
}
use docplane.Base.Dict.{lookup}
use docplane.Base.Sets.{mem}
use docplane.Json.{Json, null, str}
use docplane.Http.{key, Result, ok, err}
use docplane.Work.Types.{
  soaking, is_soaking, Link, Db, Context, Initiative, WorkTransition, Capture, inbox, active,
  complete, is_complete, is_terminal, Disposition, deferred, PromotionState,
}
use docplane.Work.Gates.{closure_gate_errors}
use docplane.Work.Closure.{IsPromotionSettled, IsAnswered, closure_gate_errors_iff}
use docplane.Work.Transition.{soak_gate, moved, transition_initiative, has_link}
use docplane.Work.Patch.{DispositionsUpdate, update_dispositions}
use docplane.Work.Lifecycle.{
  by_transition, by_dispositions, done, after, terminal_forever, completed_iff_terminal,
  completed_by_transition,
}
use docplane.Work.Create.{InitiativeCreate, create_initiative, Resolved, resolved, add_link}
use docplane.Work.Dependencies.{
  Dependency, is_between, find_dependency, add_dependency, find_dependency-add_dependency,
}
use docplane.Work.Soak.{created_soaking_unobserved, has_link-add_link}
use docplane.Work.Captures.{find_capture, discard_locked}
use docplane.Work.Inbox.{by_discard, is_consistent, Triage-is_consistent}

abbrev initiative : Initiative
initiative = record {
  initiative_key = "ship";
  workspace_id = "w";
  workspace_key = "work";
  title = "Ship";
  objective = "Ship it";
  owner_principal_id = "p";
  idempotency_key = "k0";
  work_state = active;
  priority = "NORMAL";
  version = 3;
  review_due_at = none;
  blocker_summary = none;
  soak_started_at = none;
  soak_review_at = none;
  soak_success_criteria = none;
  soak_failure_conditions = none;
  soak_monitoring_ref = none;
  parked_reason = none;
  parked_review_at = none;
  parked_indefinitely = false;
  promotion_state = PromotionState.not_required;
  promotion_change_id = none;
  model_disposition = some deferred;
  model_disposition_note = some "later";
  observe_disposition = none;
  observe_disposition_note = none;
  completed_at = none;
  updated_at = 5;
}

abbrev request : WorkTransition
request = record {
  expected_version = 3;
  work_state = complete;
  review_due_at = none;
  blocker_summary = none;
  soak_started_at = none;
  soak_review_at = none;
  soak_success_criteria = none;
  soak_failure_conditions = none;
  soak_monitoring_ref = none;
  parked_reason = none;
  parked_review_at = none;
  parked_indefinitely = false;
  model_disposition = none;
  model_disposition_note = none;
  observe_disposition = some Disposition.not_required;
  observe_disposition_note = some "no probe";
  note = none;
}

abbrev capture : Capture
capture = record {
  capture_id = "c";
  body = "look at this";
  kind = "IDEA";
  origin = null;
  status = inbox;
  author_principal_id = "p";
  idempotency_key = "k1";
  initiative_id = none;
  activity_id = none;
  triaged_by_principal_id = none;
  triaged_at = none;
  triage_note = none;
  created_at = 1;
}

abbrev pub start : Db
start = record {
  workspaces = [];
  initiatives = ("i", initiative) ∷ [];
  links = [];
  activities = [];
  captures = capture ∷ [];
  receipts = [];
  events = record { rows = []; next_seq = 1 };
}

abbrev pub context : Context
context = record {
  principal = record { principal_id = "p"; principal_kind = "AGENT" };
  now = 9;
  new_id = λ key. key;
}

abbrev digest : String → WorkTransition → String
digest id r = id

abbrev pub present : Initiative → Json
present i = str i.title

abbrev pub present_capture : Capture → Json
present_capture c = str c.body

abbrev change_exists : Option String → Bool
change_exists id = true

abbrev pub db_of : Result (Json × Db) → Db
db_of (ok x) = x.1
db_of (err e) = start

abbrev pub reply_of : Result (Json × Db) → Json
reply_of (ok x) = x.0
reply_of (err e) = null

abbrev completion : Result (Json × Db)
completion = transition_initiative context digest present (some "k2") "i" request start

completion_passes : completion ≡ ok (reply_of completion, db_of completion)
unfolding transition_initiative
completion_passes = refl

found_initiative : lookup "i" start.initiatives ≡ some initiative
unfolding lookup
found_initiative = refl

found_completed : lookup "i" (db_of completion).initiatives ≡ some (moved 9 request initiative)
unfolding transition_initiative lookup
found_completed = refl

closed_complete : is_complete (moved 9 request initiative).work_state ≡ true
unfolding moved
closed_complete = refl

completed_by_transition_example :
    IsPromotionSettled (moved 9 request initiative).promotion_state
    × IsAnswered
        (moved 9 request initiative).model_disposition
        (moved 9 request initiative).model_disposition_note
        (has_link [] "i" ("MODEL_ENTITY" ∷ "ARTIFACT" ∷ []))
    × IsAnswered
        (moved 9 request initiative).observe_disposition
        (moved 9 request initiative).observe_disposition_note
        (has_link [] "i" ("OBSERVATION" ∷ []))
completed_by_transition_example =
    completed_by_transition digest present change_exists context (some "k2") "i" request start
      (db_of completion) (reply_of completion) initiative (moved 9 request initiative)
      completion_passes found_initiative refl found_completed closed_complete

completed_iff_terminal_example :
    (j : Initiative) × (lookup "i" (db_of completion).initiatives ≡ some j)
    × ((is_some j.completed_at ≡ is_terminal j.work_state) × (3 ≤ j.version))
completed_iff_terminal_example =
    completed_iff_terminal digest present change_exists start (db_of completion) "i" initiative
      (after start (db_of completion) (db_of completion)
        (by_transition context (some "k2") "i" request start (db_of completion)
          (reply_of completion) completion_passes)
        (done (db_of completion)))
      found_initiative refl

abbrev finished : Initiative
finished = record initiative { work_state = complete; completed_at = some 8 }

abbrev answers : DispositionsUpdate
answers = record {
  expected_version = 3;
  model_disposition = none;
  model_disposition_note = none;
  observe_disposition = some deferred;
  observe_disposition_note = some "soon";
  soak_monitoring_ref = none;
}

abbrev closed_db : Db
closed_db = record start { initiatives = ("i", finished) ∷ [] }

abbrev answered : Result (Json × Db)
answered = update_dispositions present change_exists 10 "i" answers closed_db

answered_passes : answered ≡ ok (reply_of answered, db_of answered)
unfolding update_dispositions
answered_passes = refl

found_finished : lookup "i" closed_db.initiatives ≡ some finished
unfolding lookup
found_finished = refl

terminal_forever_example :
    (j : Initiative) × (lookup "i" (db_of answered).initiatives ≡ some j)
    × ((j.work_state ≡ complete) × (j.completed_at ≡ some 8))
terminal_forever_example =
    terminal_forever digest present change_exists closed_db (db_of answered) "i" finished
      (after closed_db (db_of answered) (db_of answered)
        (by_dispositions 10 "i" answers closed_db (db_of answered) (reply_of answered)
          answered_passes)
        (done (db_of answered)))
      found_finished refl

closure_gate_errors_iff_example :
    (closure_gate_errors PromotionState.not_required
        (some deferred)
        (some "later")
        none
        none
        false
        false
      ≡ [])
    ↔ IsPromotionSettled PromotionState.not_required
      × IsAnswered (some deferred) (some "later") false
      × IsAnswered none none false
closure_gate_errors_iff_example =
    closure_gate_errors_iff PromotionState.not_required (some deferred) (some "later") none none
      false false

abbrev discarding : Result (Json × Db)
discarding = discard_locked context present_capture present "k3" "c" (some "no") "h" start

discarding_passes : discarding ≡ ok (reply_of discarding, db_of discarding)
unfolding discard_locked
discarding_passes = refl

found_capture : find_capture start.captures "c" ≡ some capture
unfolding find_capture
found_capture = refl

consistent_capture : is_consistent capture ≡ true
unfolding is_consistent
consistent_capture = refl

abbrev discarded_db : Db
discarded_db = db_of discarding

Triage-is_consistent_example :
    (d : Capture) × (find_capture discarded_db.captures "c" ≡ some d)
    × (is_consistent d ≡ true)
    × (d.body ≡ "look at this")
Triage-is_consistent_example =
    Triage-is_consistent present_capture present "c" start discarded_db capture
      (by_discard context "k3" "c" (some "no") "h" start discarded_db (reply_of discarding)
        discarding_passes)
      found_capture consistent_capture

abbrev creation : InitiativeCreate
creation = record {
  initiative_key = "soak";
  workspace_id = "w";
  title = "Soak";
  objective = "Soak it";
  work_state = soaking;
  priority = "NORMAL";
  review_due_at = none;
  blocker_summary = none;
  soak_started_at = some 1;
  soak_review_at = some 20;
  soak_success_criteria = some "quiet";
  soak_failure_conditions = some "noise";
  parked_reason = none;
  parked_review_at = none;
  parked_indefinitely = false;
}

abbrev workspace_db : Db
workspace_db = record start { workspaces = ("w", ("WORK", "work")) ∷ [] }

abbrev creating : Result (Json × Db)
creating = create_initiative context present (some "k5") creation workspace_db

creating_passes : creating ≡ ok (reply_of creating, db_of creating)
unfolding create_initiative
creating_passes = refl

key_five : key (some "k5") ≡ ok "k5"
unfolding key
key_five = refl

no_link : has_link [] "k5" ("MODEL_ENTITY" ∷ "ARTIFACT" ∷ "OBSERVATION" ∷ []) ≡ false
unfolding has_link
no_link = refl

created_soaking_unobserved_example :
    (j : Initiative) × (lookup "k5" (db_of creating).initiatives ≡ some j)
    × (is_soaking j.work_state ≡ true)
    × (soak_gate (db_of creating).links "k5" j ≡ "SOAK_OBSERVABILITY_MISSING" ∷ [])
created_soaking_unobserved_example =
    created_soaking_unobserved context present (some "k5") "k5" creation workspace_db
      (db_of creating) (reply_of creating) creating_passes key_five refl no_link

abbrev evidence : Link
evidence = record {
  initiative_id = "i";
  relation = "EVIDENCE";
  resource_type = "OBSERVATION";
  resource_id = "o";
  created_by = "p";
}

abbrev always_there : String → String → Option Resolved
always_there type id = some resolved

abbrev linked_db : Db
linked_db = record start { links = evidence ∷ [] }

adding_passes : add_link always_there evidence start ≡ ok linked_db
unfolding add_link
adding_passes = refl

link_is_found : has_link (evidence ∷ []) "i" ("OBSERVATION" ∷ []) ≡ (
    has_link [] "i" ("OBSERVATION" ∷ []) || ("i" == "i" && mem "OBSERVATION" ("OBSERVATION" ∷ [])))
link_is_found =
    has_link-add_link always_there evidence start linked_db "i" ("OBSERVATION" ∷ []) adding_passes

abbrev dependency : Dependency
dependency = record {
  initiative_id = "i";
  depends_on_initiative_id = "j";
  dependency_kind = "REQUIRES";
}

abbrev two_initiatives : Db
two_initiatives = record start { initiatives = ("i", initiative) ∷ ("j", finished) ∷ [] }

depending_passes :
    add_dependency dependency two_initiatives
      (record dependency { dependency_kind = "RELATED" } ∷ [])
    ≡ ok (dependency ∷ [])
unfolding add_dependency
depending_passes = refl

find_dependency-add_dependency_example :
    (find_dependency (dependency ∷ []) "i" "j" ≡ (
      if is_between "i" "j" dependency
      then some "REQUIRES"
      else find_dependency (record dependency { dependency_kind = "RELATED" } ∷ []) "i" "j"))
    × ("j" == "i" ≡ false)
find_dependency-add_dependency_example =
    find_dependency-add_dependency dependency two_initiatives
      (record dependency { dependency_kind = "RELATED" } ∷ []) (dependency ∷ []) "i" "j"
      depending_passes
