-- ===== src/Tests/Gaps.antt =====
-- A plan for two candidates, of which one is resolved already.
use docplane.Base.{◌≤◌, String, ◌≡◌, Bool, true, not, none, some, List, [], ◌∷◌, ◌==◌, is_some}
use docplane.Base.Lists.{all, length}
use docplane.Gaps.{Gap, Known, resolved, find_known, plan_gap_reconciliation}
use docplane.Gaps.Apart.{known_rows, plan_gap_reconciliation_lem}

abbrev runbook_gap : Gap String
runbook_gap = record {
  gap_kind = "RUNBOOK_MISSING";
  subject_entity_id = "e";
  subject_entity_key = some "service";
  page_path = none;
  briefing = "b";
}

abbrev candidates : List (Gap String)
candidates = runbook_gap ∷ record runbook_gap { gap_kind = "PAGE_MISSING" } ∷ []

abbrev existing : List (Known String)
existing = record { gap = runbook_gap; status = resolved } ∷ []

abbrev same_text : String → String → Bool
same_text s t = s == t

plan_gap_reconciliation_lem_example :
    let plan = plan_gap_reconciliation same_text candidates existing 5 in
    (all (λ g. not (is_some (find_known (known_rows existing) g))) plan.create ≡ true)
    × (length plan.create ≤ 5)
    × (all (λ g. is_some (find_known (known_rows existing) g)) plan.reopen ≡ true)
    × (all (λ g. is_some (find_known (known_rows existing) g)) plan.refresh ≡ true)
plan_gap_reconciliation_lem_example = plan_gap_reconciliation_lem same_text candidates existing 5
