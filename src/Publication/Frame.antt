-- ===== src/Publication/Frame.antt =====
-- What a change leaves alone: the pages that it does not count as touched.
use docplane.Base.{
  String, ◌≡◌, refl, inl, inr, false, not, ◌&&◌, ◌||◌, Option, some, List, [], ◌∷◌, ◌++◌, arith,
  ◌==◌, eq_iff, if◌then◌else◌, is_some, Option-cases, Bool-cases,
}
use docplane.Base.Sets.{mem, mem-append}
use docplane.Base.Lists.{nonempty}
use docplane.Base.Dict.{Dict}
use docplane.Attempt.{Problem, Attempt, invalid, valid}
use docplane.Publication.Types.{Page, Operation, Candidate, Evaluation, Env}
use docplane.Publication.Candidate.{page_of, put_page, add_to}
use docplane.Publication.PageEffect.{Effect, page_written, page_added, pages_kept}
use docplane.Publication.Effect.{apply_action-Effect}
use docplane.Publication.Evaluate.{
  Corpus, start, evaluate_operation, evaluate_operations, repaired, checked, evaluate_change,
  record_operation_result, attempted, check_operation, requested_page, repair_links,
  repaired_content,
}

pub page_of-append :
    (rid : String) (ps : List Page) (p : Page)
    → page_of rid (ps ++ p ∷ []) ≡ (if p.resource_id == rid then some p else page_of rid ps)
unfolding page_of
page_of-append rid [] p = refl
page_of-append rid (q ∷ ps) p = ground (arith, page_of-append rid ps p)

pub page_of-put_page :
    (rid : String) (q : Page) (ps : List Page)
    → page_of rid (put_page q ps)
      ≡ (if q.resource_id == rid && is_some (page_of rid ps) then some q else page_of rid ps)
unfolding page_of put_page
page_of-put_page rid q [] = ground arith
page_of-put_page rid q (p ∷ ps) = ground (
  arith,
  page_of-put_page rid q ps,
  eq_iff q.resource_id rid,
  eq_iff p.resource_id q.resource_id,
  eq_iff p.resource_id rid,
)

pub mem-add_to : (k x : String) (xs : List String) → mem k (add_to x xs) ≡ (x == k || mem k xs)
unfolding mem
mem-add_to k x xs = ground (arith, mem-append k xs (x ∷ []), eq_iff x k)

-- A page that is not among the touched ones is as it was, and stays untouched to the left.
abbrev IsFramed : List Page → Candidate → Type 0
IsFramed original c =
    (rid : String) → mem rid c.touched ≡ false → page_of rid c.pages ≡ page_of rid original

Effect-IsFramed :
    (original : List Page) (page : Option Page) (c c' : Candidate)
    → Effect page c c'
    → IsFramed original c
    → IsFramed original c'
Effect-IsFramed original page c c' (page_written p q e i v t ps ts cs) h rid k = ground (
  arith,
  h rid,
  ps,
  ts,
  i,
  page_of-put_page rid q c.pages,
  mem-add_to rid p.resource_id c.touched,
)
Effect-IsFramed original page c c' (page_added p v a n ps ts cs) h rid k =
    ground
      (arith, h rid, ps, ts, page_of-append rid c.pages p, mem-add_to rid p.resource_id c.touched)
Effect-IsFramed original page c c' (pages_kept ps ts cs) h rid k = ground (arith, h rid, ps, ts)

attempted-IsFramed :
    (original : List Page) (op : Operation) (warnings : List Problem) (page : Option Page)
    (outcome : Attempt Candidate) (e : Evaluation)
    → ((c : Candidate) → outcome ≡ valid c → Effect page e.candidate c)
    → IsFramed original e.candidate
    → IsFramed original (attempted op warnings outcome e).candidate
unfolding attempted record_operation_result
attempted-IsFramed original op warnings page (invalid p) e k h = h
attempted-IsFramed original op warnings page (valid c) e k h =
    Effect-IsFramed original page e.candidate c (k c refl) h

evaluate_operation-IsFramed :
    (env : Env) (original : List Page) (op : Operation) (e : Evaluation)
    → IsFramed original e.candidate
    → IsFramed original (evaluate_operation env op e).candidate
unfolding evaluate_operation
evaluate_operation-IsFramed env original op e h =
    elim (Bool-cases (nonempty (check_operation env op e.candidate).0)) [
      | inl k ↦ rw (k, evaluate_operation, record_operation_result) h
      | inr k ↦
          rw (k, evaluate_operation)
            (attempted-IsFramed original op _ (requested_page op e.candidate.pages) _ e
              (λ c.
                apply_action-Effect env op op.action (requested_page op e.candidate.pages)
                  e.candidate c)
              h)
    ]

evaluate_operations-IsFramed :
    (env : Env) (original : List Page) (ops : List Operation) (e : Evaluation)
    → IsFramed original e.candidate
    → IsFramed original (evaluate_operations env ops e).candidate
unfolding evaluate_operations
evaluate_operations-IsFramed env original [] e h = h
evaluate_operations-IsFramed env original (op ∷ ops) e h =
    evaluate_operations-IsFramed env original ops (evaluate_operation env op e)
      (evaluate_operation-IsFramed env original op e h)

repair_links-touched :
    (env : Env) (original : List Page) (moves : Dict String) (pages : List Page)
    (touched : List String) (rid : String)
    → let done = repair_links env original moves pages touched in
      mem rid done.1 ≡ false → (mem rid touched ≡ false) × (page_of rid done.0 ≡ page_of rid pages)
unfolding repair_links page_of
repair_links-touched env original moves [] touched rid h = (h, refl)
repair_links-touched env original moves (page ∷ pages) touched rid h =
    elim (Option-cases (page_of page.resource_id original)) [
      | inl e ↦ ground (arith, repair_links-touched env original moves pages touched rid)
      | inr (previous, e) ↦ elim (Option-cases (repaired_content env moves previous page)) [
        | inl e2 ↦ ground (arith, repair_links-touched env original moves pages touched rid)
        | inr (content, e2) ↦ ground (
          arith,
          repair_links-touched env original moves pages touched rid,
          repair_links-touched env original moves pages (add_to page.resource_id touched) rid,
          mem-add_to rid page.resource_id touched,
        )
      ]
    ]

repaired-IsFramed :
    (env : Env) (corpus : Corpus) (e : Evaluation)
    → IsFramed corpus.pages e.candidate
    → IsFramed corpus.pages (repaired env corpus e).candidate
unfolding repaired
repaired-IsFramed env corpus e h rid k =
    elim (Bool-cases (nonempty e.candidate.moves && not (nonempty e.errors))) [
      | inl t ↦ ground (
        arith,
        repair_links-touched env corpus.pages e.candidate.moves e.candidate.pages
            e.candidate.touched rid,
        h rid,
      )
      | inr t ↦ ground (arith, h rid)
    ]

-- Whatever a change's operations, and whether it passes or not: a page whose id is not counted as
-- touched, by an operation or by the repair of links after a move, is exactly as it was before.
pub evaluate_change-touched :
    (env : Env) (operations : List Operation) (corpus : Corpus) (rid : String)
    → let c = (evaluate_change env operations corpus).candidate in
      mem rid c.touched ≡ false → page_of rid c.pages ≡ page_of rid corpus.pages
unfolding evaluate_change checked start
evaluate_change-touched env operations corpus rid h =
    repaired-IsFramed env corpus (evaluate_operations env operations (start env corpus))
      (evaluate_operations-IsFramed env corpus.pages operations (start env corpus) (λ r k. refl))
      rid h
