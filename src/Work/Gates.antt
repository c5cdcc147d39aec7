-- ===== src/Work/Gates.antt =====
-- The gates of work_models.py: what a transition must bring.
use docplane.Base.{
  String, Bool, false, not, ◌&&◌, ◌||◌, Option, none, some, List, [], ◌∷◌, ◌++◌, if◌then◌else◌,
  is_some,
}
use docplane.Base.Strip.{strip}
use docplane.Http.{Result, refuse_if, ◌>>◌}
use docplane.Work.Types.{
  blocked, soaking, parked, PromotionState, Disposition, updated, deferred, WorkTransition,
  is_blank,
}

-- One entry of `missing`. `current` is there where the source gives it; the remedy, a text for the
-- reader that the code and the domain fix, is left out.
pub record Missing : Type 0 where
  pub domain : String
  pub code : String
  pub current : Option String

abbrev pub promotion_name : PromotionState → String
promotion_name PromotionState.not_ready = "NOT_READY"
promotion_name PromotionState.ready = "READY"
promotion_name PromotionState.in_progress = "IN_PROGRESS"
promotion_name PromotionState.promoted = "PROMOTED"
promotion_name PromotionState.not_required = "NOT_REQUIRED"

abbrev pub disposition_name : Disposition → String
disposition_name updated = "UPDATED"
disposition_name Disposition.not_required = "NOT_REQUIRED"
disposition_name deferred = "DEFERRED"

abbrev pub missing_if : Bool → String → String → Option String → List Missing
missing_if b domain code current =
    if b then record { domain = domain; code = code; current = current } ∷ [] else []

unfoldable pub promotion_errors : PromotionState → List Missing
promotion_errors PromotionState.promoted = []
promotion_errors PromotionState.not_required = []
promotion_errors p =
    record { domain = "know"; code = "PROMOTION_UNRESOLVED"; current = some (promotion_name p) }
    ∷ []

-- The body of the loop over the domains.
unfoldable pub disposition_errors :
    String → Option Disposition → Option String → Bool → List Missing
unfolding strip
disposition_errors domain none remark evidence =
    record { domain = domain; code = "DISPOSITION_UNANSWERED"; current = none } ∷ []
disposition_errors domain (some updated) remark evidence =
    missing_if (not evidence) domain "DISPOSITION_EVIDENCE_REQUIRED"
      (some (disposition_name updated))
disposition_errors domain (some d) remark evidence =
    missing_if (is_blank remark) domain "DISPOSITION_NOTE_REQUIRED" (some (disposition_name d))

unfoldable pub closure_gate_errors :
    PromotionState
    → Option Disposition
    → Option String
    → Option Disposition
    → Option String
    → Bool
    → Bool
    → List Missing
unfolding promotion_errors disposition_errors
closure_gate_errors promotion model model_note observe observe_note has_model has_observe =
    promotion_errors promotion
    ++ (disposition_errors "model" model model_note has_model
        ++ disposition_errors "observe" observe observe_note has_observe)

unfoldable pub soak_gate_errors : Option String → Bool → List String
unfolding strip
soak_gate_errors monitoring_ref has_observability_link =
    if not (is_blank monitoring_ref) || has_observability_link
    then []
    else "SOAK_OBSERVABILITY_MISSING" ∷ []

-- `_validate_state`, which the model of the request runs before the handler: a `ValueError` is a 422.
unfoldable pub validate_state : WorkTransition → Result (Unit {0})
unfolding strip
validate_state r = elim r.work_state [
  | blocked ↦ refuse_if (is_blank r.blocker_summary) 422 "BLOCKED requires blocker_summary"
  | soaking ↦
      refuse_if
        (not (
          is_some r.soak_started_at
          && is_some r.soak_review_at
          && not (is_blank r.soak_success_criteria)
          && not (is_blank r.soak_failure_conditions)))
        422 "SOAKING requires dates, success criteria and failure conditions"
  | parked ↦
      refuse_if (is_blank r.parked_reason) 422 "PARKED requires parked_reason"
      >> refuse_if (not (is_some r.parked_review_at) && not r.parked_indefinitely) 422
          "PARKED requires parked_review_at or parked_indefinitely=true"
  | _ ↦ refuse_if false 422 ""
]
