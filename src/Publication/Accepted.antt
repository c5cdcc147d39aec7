-- ===== src/Publication/Accepted.antt =====
-- What a passed change has of its operations: all were accepted, and none touched a protected page.
use docplane.Base.{
  ℕ, suc, ◌+◌, ◌≡◌, refl, ap, ◌∙◌, subst, Bool, true, false, not, ◌&&◌, ◌||◌, List, [], ◌∷◌, ◌++◌,
  arith, if_both,
}
use docplane.Base.Lists.{nonempty, length, length-append}
use docplane.Attempt.{Problem, problem, Attempt, invalid, valid, silent}
use docplane.Publication.Types.{Operation, OperationResult, Candidate, Evaluation, Env}
use docplane.Publication.Apply.{apply_action}
use docplane.Publication.Checks.{corpus_errors, one_error}
use docplane.Publication.Evaluate.{
  Corpus, start, evaluate_operation, evaluate_operations, repaired, checked, evaluate_change,
  passed, record_operation_result, attempted, check_operation, requested_page,
}

-- Each result was accepted.
unfoldable pub all_accepted : List OperationResult → Bool
all_accepted [] = true
all_accepted (r ∷ rs) = r.accepted && all_accepted rs

all_accepted-append :
    (rs : List OperationResult) (r : OperationResult)
    → all_accepted (rs ++ r ∷ []) ≡ (all_accepted rs && r.accepted)
unfolding all_accepted
all_accepted-append [] r = ground arith
all_accepted-append (x ∷ rs) r = ground (arith, all_accepted-append rs r)

pub nonempty-append :
    {A : Type 0} (xs ys : List A) → nonempty (xs ++ ys) ≡ (nonempty xs || nonempty ys)
nonempty-append [] ys = refl
nonempty-append (x ∷ xs) ys = refl

-- As many results as operations so far, and without an error each was accepted.
abbrev IsRecorded : ℕ → Evaluation → Type 0
IsRecorded n e =
    (length e.results ≡ n) × (nonempty e.errors ≡ false → all_accepted e.results ≡ true)

record_operation_result-IsRecorded :
    (op : Operation) (errors warnings : List Problem) (c : Candidate) (e : Evaluation) (n : ℕ)
    → IsRecorded n e
    → IsRecorded (suc n) (record_operation_result op errors warnings c e)
unfolding record_operation_result
record_operation_result-IsRecorded op errors warnings c e n h = (
  length-append e.results _ ∙ ground (arith, h.0),
  λ k. ground (
    arith,
    h.1,
    nonempty-append e.errors errors,
    all_accepted-append e.results (record {
      operation_id = op.operation_id;
      sequence = op.sequence;
      errors = errors;
      warnings = warnings;
      accepted = not (nonempty errors);
    }),
  ),
)

attempted-IsRecorded :
    (op : Operation) (warnings : List Problem) (outcome : Attempt Candidate) (e : Evaluation)
    (n : ℕ)
    → IsRecorded n e
    → IsRecorded (suc n) (attempted op warnings outcome e)
unfolding attempted
attempted-IsRecorded op warnings (invalid p) e n h =
    record_operation_result-IsRecorded op (p ∷ []) warnings e.candidate e n h
attempted-IsRecorded op warnings (valid c) e n h =
    record_operation_result-IsRecorded op [] warnings c e n h

evaluate_operation-IsRecorded :
    (env : Env) (op : Operation) (e : Evaluation) (n : ℕ)
    → IsRecorded n e
    → IsRecorded (suc n) (evaluate_operation env op e)
unfolding evaluate_operation
evaluate_operation-IsRecorded env op e n h =
    if_both (IsRecorded (suc n)) (nonempty (check_operation env op e.candidate).0)
      (record_operation_result-IsRecorded op (check_operation env op e.candidate).0
        (check_operation env op e.candidate).1 e.candidate e n h)
      (attempted-IsRecorded op (check_operation env op e.candidate).1
        (apply_action env op op.action (requested_page op e.candidate.pages) e.candidate) e n h)

evaluate_operations-IsRecorded :
    (env : Env) (ops : List Operation) (e : Evaluation) (n : ℕ)
    → IsRecorded n e
    → IsRecorded (n + length ops) (evaluate_operations env ops e)
unfolding evaluate_operations
evaluate_operations-IsRecorded env [] e n h = subst (λ i. IsRecorded i e) (omega arith) h
evaluate_operations-IsRecorded env (op ∷ ops) e n h =
    subst (λ i. IsRecorded i (evaluate_operations env (op ∷ ops) e)) (omega arith)
      (evaluate_operations-IsRecorded env ops (evaluate_operation env op e) (suc n)
        (evaluate_operation-IsRecorded env op e n h))

pub repaired-errors :
    (env : Env) (corpus : Corpus) (e : Evaluation)
    → nonempty (repaired env corpus e).errors ≡ false
    → nonempty e.errors ≡ false
unfolding repaired
repaired-errors env corpus e h = ground (arith, nonempty-append e.errors)

repaired-results :
    (env : Env) (corpus : Corpus) (e : Evaluation) → (repaired env corpus e).results ≡ e.results
unfolding repaired
repaired-results env corpus e = ground arith

-- A change passes only with one result for each operation, and each of them accepted: no refused
-- operation is lost on the way to the change's errors.
pub evaluate_change-accepted :
    (env : Env) (operations : List Operation) (corpus : Corpus)
    → passed (evaluate_change env operations corpus) ≡ true
    → let e = evaluate_change env operations corpus in
      (length e.results ≡ length operations) × (all_accepted e.results ≡ true)
unfolding evaluate_change checked start all_accepted
evaluate_change-accepted env operations corpus h =
    let e = evaluate_operations env operations (start env corpus) in
    let recorded =
      evaluate_operations-IsRecorded env operations (start env corpus) 0 (refl, λ k. refl) in
    let later =
      one_error (not (nonempty operations)) (problem "CHANGE_HAS_NO_OPERATIONS" silent)
      ++ corpus_errors env (repaired env corpus e).candidate in
    (
      ap length (repaired-results env corpus e) ∙ recorded.0 ∙ omega arith,
      ap all_accepted (repaired-results env corpus e)
          ∙ recorded.1 (
              repaired-errors env corpus e
                (ground (arith, nonempty-append (repaired env corpus e).errors later))),
    )
