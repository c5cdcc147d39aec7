-- ===== src/Publication/Protected.antt =====
-- The guard of generated pages, over a whole change.
use docplane.Base.{
  String, ◌≡◌, refl, sym, ap, ◌∙◌, ◌⊎◌, inl, inr, true, false, not, some, List, [], ◌∷◌, ◌++◌,
  arith, Bool-cases, if_each,
}
use docplane.Base.Sets.{mem}
use docplane.Base.Lists.{nonempty, all}
use docplane.Attempt.{Problem, problem, Attempt, invalid, valid, silent}
use docplane.Publication.Types.{Page, Operation, Candidate, Evaluation, Env}
use docplane.Publication.Candidate.{page_of}
use docplane.Publication.Apply.{apply_action}
use docplane.Publication.Checks.{corpus_errors, one_error}
use docplane.Publication.Effect.{apply_action-Effect}
use docplane.Publication.Accepted.{nonempty-append, repaired-errors}
use docplane.Publication.Evaluate.{
  Corpus, start, evaluate_operation, evaluate_operations, repaired, checked, evaluate_change,
  passed, record_operation_result, attempted, check_operation, requested_page,
}
use docplane.Publication.Guard.{
  targets, Effect-created, guard_of, check_operation_protected, apply_action_other,
}

module _ (env : Env) (rid principal : String) (p : Page) (g : Problem)
    (acting : env.acting_principal_id ≡ some principal)
    (guarded : guard_of env p (some principal) ≡ some g) where
  -- What such a turn shows of the state in front of it and behind it.
  abbrev Turn : Operation → Evaluation → Evaluation → Type 0
  Turn op e after =
      nonempty after.errors ≡ false
      → mem rid after.candidate.created ≡ false
      → (nonempty e.errors ≡ false)
        × (mem rid e.candidate.created ≡ false)
        × (page_of rid e.candidate.pages ≡ some p
            → (targets rid op ≡ false) × (page_of rid after.candidate.pages ≡ some p))

  refused-Turn :
      (op : Operation) (errors warnings : List Problem) (e : Evaluation)
      → nonempty errors ≡ true
      → Turn op e (record_operation_result op errors warnings e.candidate e)
  unfolding record_operation_result
  refused-Turn op errors warnings e t h k = ground (arith, nonempty-append e.errors errors)

  attempted-Turn :
      (op : Operation) (warnings : List Problem) (outcome : Attempt Candidate) (e : Evaluation)
      → (targets rid op ≡ true → page_of rid e.candidate.pages ≡ some p → ⊥)
      → ((c : Candidate)
          → outcome ≡ valid c
          → mem rid c.created ≡ false
          → (mem rid e.candidate.created ≡ false)
            × (targets rid op ≡ false → page_of rid c.pages ≡ page_of rid e.candidate.pages))
      → Turn op e (attempted op warnings outcome e)
  unfolding attempted record_operation_result
  attempted-Turn op warnings (invalid x) e n f h k =
      ground (arith, nonempty-append e.errors (x ∷ []))
  attempted-Turn op warnings (valid c) e n f h k =
      let before = f c refl k in
      (
        ground (arith, nonempty-append e.errors []),
        before.0,
        λ there. elim (Bool-cases (targets rid op)) [
          | inl t ↦ absurd (n t there)
          | inr t ↦ (t, before.1 t ∙ there)
        ],
      )

  evaluate_operation-Turn :
      (op : Operation) (e : Evaluation) → Turn op e (evaluate_operation env op e)
  unfolding evaluate_operation
  evaluate_operation-Turn op e =
      if_each (Turn op e) (nonempty (check_operation env op e.candidate).0)
        (refused-Turn op (check_operation env op e.candidate).0
          (check_operation env op e.candidate).1 e)
        (λ t.
          attempted-Turn op (check_operation env op e.candidate).1
            (apply_action env op op.action (requested_page op e.candidate.pages) e.candidate) e
            (λ u there. ground (
              arith,
              check_operation_protected env rid principal p g op e.candidate acting there guarded u,
            ))
            (λ c same k. (
              Effect-created rid (requested_page op e.candidate.pages) e.candidate c
                  (apply_action-Effect env op op.action (requested_page op e.candidate.pages)
                    e.candidate c same)
                  k,
              λ u. apply_action_other env rid op e.candidate c same u k,
            )))

  evaluate_operations_protected :
      (ops : List Operation) (e : Evaluation)
      → let after = evaluate_operations env ops e in
        nonempty after.errors ≡ false
        → mem rid after.candidate.created ≡ false
        → (nonempty e.errors ≡ false)
          × (mem rid e.candidate.created ≡ false)
          × (page_of rid e.candidate.pages ≡ some p
              → (all (λ op. not (targets rid op)) ops ≡ true)
                × (page_of rid after.candidate.pages ≡ some p))
  unfolding evaluate_operations all
  evaluate_operations_protected [] e h k = (h, k, λ there. (refl, there))
  evaluate_operations_protected (op ∷ ops) e h k =
      let later = evaluate_operations_protected ops (evaluate_operation env op e) h k in
      let turn = evaluate_operation-Turn op e later.0 later.1 in
      (
        turn.0,
        turn.1,
        λ there.
            let here = turn.2 there in
            let rest = later.2 here.1 in (ground (arith, here.0, rest.0), rest.1),
      )

  repaired_protected :
      (corpus : Corpus) (e : Evaluation)
      → page_of rid e.candidate.pages ≡ some p
      → (nonempty e.candidate.moves ≡ true)
        ⊎ (page_of rid (repaired env corpus e).candidate.pages ≡ some p)
  unfolding repaired
  repaired_protected corpus e there = elim (Bool-cases (nonempty e.candidate.moves)) [
    | inl m ↦ inl m
    | inr m ↦ inr (ground arith)
  ]

  repaired-created :
      (corpus : Corpus) (e : Evaluation)
      → (repaired env corpus e).candidate.created ≡ e.candidate.created
  unfolding repaired
  repaired-created corpus e = ground arith

-- A change that passes for its publisher holds no operation on a page that the guard keeps from that
-- publisher, provided that the change creates no page under its id. Such a page is then exactly as
-- it was, unless the change moves a page and so has the links of other pages repaired.
pub evaluate_change_protected :
    (env : Env) (operations : List Operation) (corpus : Corpus) (rid principal : String) (p : Page)
    (g : Problem)
    → env.acting_principal_id ≡ some principal
    → page_of rid corpus.pages ≡ some p
    → guard_of env p (some principal) ≡ some g
    → passed (evaluate_change env operations corpus) ≡ true
    → mem rid (evaluate_change env operations corpus).candidate.created ≡ false
    → let e = evaluate_operations env operations (start env corpus) in
      let after = evaluate_change env operations corpus in
      (all (λ op. not (targets rid op)) operations ≡ true)
      × ((nonempty e.candidate.moves ≡ true) ⊎ (page_of rid after.candidate.pages ≡ some p))
unfolding evaluate_change checked start
evaluate_change_protected env operations corpus rid principal p g acting there guarded h k =
    let e = evaluate_operations env operations (start env corpus) in
    let later =
      one_error (not (nonempty operations)) (problem "CHANGE_HAS_NO_OPERATIONS" silent)
      ++ corpus_errors env (repaired env corpus e).candidate in
    let quiet =
      repaired-errors env corpus e
        (ground (arith, nonempty-append (repaired env corpus e).errors later)) in
    let run =
      evaluate_operations_protected env rid principal p g acting guarded operations
        (start env corpus) quiet
        (ap (mem rid) (sym (repaired-created env rid principal p g acting guarded corpus e)) ∙ k) in
    let done = run.2 there in
    (done.0, repaired_protected env rid principal p g acting guarded corpus e done.1)
