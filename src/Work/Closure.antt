-- ===== src/Work/Closure.antt =====
-- What the gates demand, said without them.
use docplane.Base.{
  String, ◌≡◌, refl, ◌↔◌, Bool, true, false, Option, none, some, List, [], ◌∷◌, ◌++◌, arith,
}
use docplane.Work.Types.{PromotionState, Disposition, updated, deferred, is_blank}
use docplane.Work.Gates.{promotion_errors, disposition_errors, closure_gate_errors}

-- The knowledge of the initiative is published, or none is due.
abbrev pub IsPromotionSettled : PromotionState → Type 0
IsPromotionSettled PromotionState.promoted = Unit
IsPromotionSettled PromotionState.not_required = Unit
IsPromotionSettled _ = ⊥

-- UPDATED rests on evidence, the other answers on a note.
abbrev pub IsAnswered : Option Disposition → Option String → Bool → Type 0
IsAnswered none remark evidence = ⊥
IsAnswered (some updated) remark evidence = evidence ≡ true
IsAnswered (some d) remark evidence = is_blank remark ≡ false

both_empty : {A : Type 0} (xs ys : List A) → xs ++ ys ≡ [] → (xs ≡ []) × (ys ≡ [])
both_empty [] ys h = (refl, h)
both_empty (x ∷ xs) ys h = cc

promotion_errors_iff : (p : PromotionState) → (promotion_errors p ≡ []) ↔ IsPromotionSettled p
unfolding promotion_errors
promotion_errors_iff PromotionState.promoted = (λ h. tt, λ h. refl)
promotion_errors_iff PromotionState.not_required = (λ h. tt, λ h. refl)
promotion_errors_iff PromotionState.not_ready = (λ h. cc, λ h. ground arith)
promotion_errors_iff PromotionState.ready = (λ h. cc, λ h. ground arith)
promotion_errors_iff PromotionState.in_progress = (λ h. cc, λ h. ground arith)

disposition_errors_iff :
    (domain : String) (d : Option Disposition) (remark : Option String) (evidence : Bool)
    → (disposition_errors domain d remark evidence ≡ []) ↔ IsAnswered d remark evidence
unfolding disposition_errors
disposition_errors_iff domain none remark evidence = (λ h. cc, λ h. ground arith)
disposition_errors_iff domain (some updated) remark evidence =
    (λ h. ground arith, λ h. ground arith)
disposition_errors_iff domain (some Disposition.not_required) remark evidence =
    (λ h. ground arith, λ h. ground arith)
disposition_errors_iff domain (some deferred) remark evidence =
    (λ h. ground arith, λ h. ground arith)

-- The gate lets an initiative close exactly if the promotion is settled and both domains are answered.
pub closure_gate_errors_iff :
    (p : PromotionState) (model : Option Disposition) (model_note : Option String)
    (observe : Option Disposition) (observe_note : Option String) (has_model has_observe : Bool)
    → (closure_gate_errors p model model_note observe observe_note has_model has_observe ≡ [])
      ↔ IsPromotionSettled p
        × IsAnswered model model_note has_model
        × IsAnswered observe observe_note has_observe
unfolding closure_gate_errors
closure_gate_errors_iff p model model_note observe observe_note has_model has_observe = (
  λ h.
      let (p_empty, rest) = both_empty (promotion_errors p) _ h in
      let (m_empty, o_empty) =
        both_empty (disposition_errors "model" model model_note has_model) _ rest in
      (
        (promotion_errors_iff p).0 p_empty,
        (disposition_errors_iff "model" model model_note has_model).0 m_empty,
        (disposition_errors_iff "observe" observe observe_note has_observe).0 o_empty,
      ),
  λ h.
      rw
        (
          (promotion_errors_iff p).1 h.0,
          (disposition_errors_iff "model" model model_note has_model).1 h.1,
          (disposition_errors_iff "observe" observe observe_note has_observe).1 h.2,
        )
        refl,
)
