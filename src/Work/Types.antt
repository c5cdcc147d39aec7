-- ===== src/Work/Types.antt =====
-- The rows of work.initiatives, work.initiative_links, work.initiative_activities and work.captures
-- (db/migrations), and what a request carries. Times are seconds.
use docplane.Base.{
  ℕ, String, Bool, true, false, Option, none, some, List, [], ◌∷◌, ◌==◌, if◌then◌else◌,
}
use docplane.Base.Strip.{strip}
use docplane.Base.Sets.{mem}
use docplane.Base.Dict.{Dict}
use docplane.Json.{Json}
use docplane.Receipts.{Receipt}
use docplane.Events.{Actor, Log}

pub data WorkState : Type 0 where
  backlog active blocked soaking paused parked complete abandoned : WorkState

pub data PromotionState : Type 0 where
  not_ready ready in_progress promoted not_required : PromotionState

pub data Disposition : Type 0 where
  updated not_required deferred : Disposition

pub record Initiative : Type 0 where
  pub initiative_key : String
  pub workspace_id : String
  pub workspace_key : String
  pub title : String
  pub objective : String
  pub owner_principal_id : String
  pub idempotency_key : String
  pub work_state : WorkState
  pub priority : String
  pub version : ℕ
  pub review_due_at : Option ℕ
  pub blocker_summary : Option String
  pub soak_started_at : Option ℕ
  pub soak_review_at : Option ℕ
  pub soak_success_criteria : Option String
  pub soak_failure_conditions : Option String
  pub soak_monitoring_ref : Option String
  pub parked_reason : Option String
  pub parked_review_at : Option ℕ
  pub parked_indefinitely : Bool
  pub promotion_state : PromotionState
  pub promotion_change_id : Option String
  pub model_disposition : Option Disposition
  pub model_disposition_note : Option String
  pub observe_disposition : Option Disposition
  pub observe_disposition_note : Option String
  pub completed_at : Option ℕ
  pub updated_at : ℕ

-- `WorkTransition`
pub record WorkTransition : Type 0 where
  pub expected_version : ℕ
  pub work_state : WorkState
  pub review_due_at : Option ℕ
  pub blocker_summary : Option String
  pub soak_started_at : Option ℕ
  pub soak_review_at : Option ℕ
  pub soak_success_criteria : Option String
  pub soak_failure_conditions : Option String
  pub soak_monitoring_ref : Option String
  pub parked_reason : Option String
  pub parked_review_at : Option ℕ
  pub parked_indefinitely : Bool
  pub model_disposition : Option Disposition
  pub model_disposition_note : Option String
  pub observe_disposition : Option Disposition
  pub observe_disposition_note : Option String
  pub note : Option String

pub record Link : Type 0 where
  pub initiative_id : String
  pub relation : String
  pub resource_type : String
  pub resource_id : String
  pub created_by : String

pub record Activity : Type 0 where
  pub activity_id : String
  pub initiative_id : String
  pub author_principal_id : String
  pub idempotency_key : String
  pub activity_type : String
  pub body : String
  pub metadata : Json

pub data CaptureStatus : Type 0 where
  inbox promoted attached discarded : CaptureStatus

pub record Capture : Type 0 where
  pub capture_id : String
  pub body : String
  pub kind : String
  pub origin : Json
  pub status : CaptureStatus
  pub author_principal_id : String
  pub idempotency_key : String
  pub initiative_id : Option String
  pub activity_id : Option String
  pub triaged_by_principal_id : Option String
  pub triaged_at : Option ℕ
  pub triage_note : Option String
  pub created_at : ℕ

-- The tables that the handlers read or write; `initiatives` stands under its ids.
pub record Db : Type 0 where
  pub workspaces : Dict (String × String)
  pub initiatives : Dict Initiative
  pub links : List Link
  pub activities : List Activity
  pub captures : List Capture
  pub receipts : List (Receipt Json)
  pub events : Log Json

-- Who asks and when; `new_id` is the id that is drawn for the row with the given idempotency key.
pub record Context : Type 0 where
  pub principal : Actor
  pub now : ℕ
  pub new_id : String → String

-- `(value or "").strip()` is empty.
abbrev pub is_blank : Option String → Bool
is_blank none = true
is_blank (some s) = strip s == ""

-- `a or b`, for texts: the empty text counts as none.
abbrev pub text_or : Option String → Option String → Option String
text_or none other = other
text_or (some s) other = if s == "" then other else some s

abbrev pub disposition_or : Option Disposition → Option Disposition → Option Disposition
disposition_or none other = other
disposition_or (some d) other = some d

abbrev pub state_name : WorkState → String
state_name backlog = "BACKLOG"
state_name active = "ACTIVE"
state_name blocked = "BLOCKED"
state_name soaking = "SOAKING"
state_name paused = "PAUSED"
state_name parked = "PARKED"
state_name complete = "COMPLETE"
state_name abandoned = "ABANDONED"

abbrev pub is_soaking : WorkState → Bool
is_soaking soaking = true
is_soaking _ = false

abbrev pub is_complete : WorkState → Bool
is_complete complete = true
is_complete _ = false

-- COMPLETE and ABANDONED
abbrev pub is_terminal : WorkState → Bool
is_terminal complete = true
is_terminal abandoned = true
is_terminal _ = false

-- `_TRANSITIONS`
unfoldable pub transitions : WorkState → List String
transitions backlog = "ACTIVE" ∷ "PAUSED" ∷ "PARKED" ∷ "ABANDONED" ∷ []
transitions active = "BLOCKED" ∷ "SOAKING" ∷ "PAUSED" ∷ "PARKED" ∷ "COMPLETE" ∷ "ABANDONED" ∷ []
transitions blocked = "ACTIVE" ∷ "PAUSED" ∷ "PARKED" ∷ "ABANDONED" ∷ []
transitions soaking = "ACTIVE" ∷ "BLOCKED" ∷ "PAUSED" ∷ "COMPLETE" ∷ "ABANDONED" ∷ []
transitions paused = "ACTIVE" ∷ "PARKED" ∷ "ABANDONED" ∷ []
transitions parked = "BACKLOG" ∷ "ACTIVE" ∷ "ABANDONED" ∷ []
transitions complete = []
transitions abandoned = []

unfoldable pub is_allowed : WorkState → WorkState → Bool
unfolding transitions mem
is_allowed from to = mem (state_name to) (transitions from)
