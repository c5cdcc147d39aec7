-- ===== src/Publication/Guard.antt =====
-- The guard of generated pages at one operation of a change.
use docplane.Base.{
  String, ◌≡◌, refl, ap, ◌∙◌, inl, inr, Bool, true, false, not, ◌&&◌, Option, none, some, List, [],
  ◌∷◌, arith, ◌==◌, eq_iff, Option-cases, Bool-cases,
}
use docplane.Base.Sets.{mem}
use docplane.Base.Lists.{nonempty}
use docplane.Attempt.{Problem, valid}
use docplane.Publication.Types.{
  Action, create_page, add_redirect, remove_redirect, reorder_sections, unsupported, Page,
  Operation, Candidate, Env,
}
use docplane.Publication.Candidate.{page_of}
use docplane.Publication.Apply.{apply_action}
use docplane.Publication.PageEffect.{Effect, page_written, page_added, pages_kept}
use docplane.Publication.Effect.{apply_action-Effect}
use docplane.Publication.Frame.{page_of-append, page_of-put_page, mem-add_to}
use docplane.Publication.Evaluate.{
  check_operation, check_page, requested_page, needs_page, generated_guard_error, guard_outcome,
}

-- The operation addresses the page.
unfoldable pub targets : String → Operation → Bool
targets rid op =
    needs_page op.action
    && elim op.page_resource_id [ none ↦ false | some r ↦ r == rid && not (r == "") ]

pub page_of-id :
    (rid : String) (ps : List Page) (p : Page)
    → page_of rid ps ≡ some p
    → (p.resource_id == rid) ≡ true
unfolding page_of
page_of-id rid [] p h = ground arith
page_of-id rid (q ∷ ps) p h = elim (Option-cases (page_of rid ps)) [
  | inl e ↦ ground arith
  | inr (r, e) ↦ ground (arith, page_of-id rid ps r e)
]

-- Nothing is taken back from the ids that were created.
pub Effect-created :
    (rid : String) (page : Option Page) (c c' : Candidate)
    → Effect page c c'
    → mem rid c'.created ≡ false
    → mem rid c.created ≡ false
Effect-created rid page c c' (page_written p q e i v t ps ts cs) h = ground (arith, cs)
Effect-created rid page c c' (page_added p v a n ps ts cs) h =
    ground (arith, cs, mem-add_to rid p.resource_id c.created)
Effect-created rid page c c' (pages_kept ps ts cs) h = ground (arith, cs)

-- An operation on another page leaves the page as it is.
Effect-other :
    (rid : String) (page : Option Page) (c c' : Candidate)
    → Effect page c c'
    → ((p : Page) → page ≡ some p → (p.resource_id == rid) ≡ false)
    → mem rid c'.created ≡ false
    → page_of rid c'.pages ≡ page_of rid c.pages
Effect-other rid page c c' (page_written p q e i v t ps ts cs) other k =
    ground (arith, ps, i, other p e, page_of-put_page rid q c.pages)
Effect-other rid page c c' (page_added p v a n ps ts cs) other k =
    ground (arith, ps, page_of-append rid c.pages p, cs, mem-add_to rid p.resource_id c.created)
Effect-other rid page c c' (pages_kept ps ts cs) other k = ap (page_of rid) ps

targets-requested_page :
    (rid : String) (op : Operation) (pages : List Page)
    → targets rid op ≡ true
    → requested_page op pages ≡ page_of rid pages
unfolding targets
targets-requested_page rid op pages h = elim (Option-cases op.page_resource_id) [
  | inl e ↦ ground arith
  | inr (r, e) ↦ ground (arith, eq_iff r rid)
]

guard_outcome-refuses :
    (g : Problem) (found : Option Problem) (acting : Option String) (principal : String)
    → acting ≡ some principal
    → found ≡ some g
    → nonempty (guard_outcome found acting).0 ≡ true
unfolding guard_outcome
guard_outcome-refuses g found acting principal a e = ground (arith, guard_outcome)

-- What the guard says of a page to a principal.
abbrev pub guard_of : Env → Page → Option String → Option Problem
guard_of env p acting =
    generated_guard_error p.provenance (env.declared_by p.resource_id) acting
      (env.planned_owner p.resource_id)

check_page_protected :
    (env : Env) (principal : String) (p : Page) (g : Problem) (op : Operation)
    → env.acting_principal_id ≡ some principal
    → guard_of env p (some principal) ≡ some g
    → nonempty (check_page env op (some p)).0 ≡ true
unfolding check_page
check_page_protected env principal p g op a k =
    let refused =
      guard_outcome-refuses g (guard_of env p env.acting_principal_id) env.acting_principal_id
        principal a (ap (guard_of env p) a ∙ k) in
    ground (arith, refused)

-- A protected page refuses every operation that addresses it.
pub check_operation_protected :
    (env : Env) (rid principal : String) (p : Page) (g : Problem) (op : Operation) (c : Candidate)
    → env.acting_principal_id ≡ some principal
    → page_of rid c.pages ≡ some p
    → guard_of env p (some principal) ≡ some g
    → targets rid op ≡ true
    → nonempty (check_operation env op c).0 ≡ true
unfolding check_operation targets
check_operation_protected env rid principal p g op c a e k t =
    let same : requested_page op c.pages ≡ some p = targets-requested_page rid op c.pages t ∙ e in
    let refused = check_page_protected env principal p g op a k in
    ground (arith, ap (check_page env op) same)

-- The page that an operation asks for is the one with the id that it names.
requested_page-other :
    (rid : String) (op : Operation) (pages : List Page)
    → needs_page op.action ≡ true
    → targets rid op ≡ false
    → (p : Page) → requested_page op pages ≡ some p
    → (p.resource_id == rid) ≡ false
unfolding targets
requested_page-other rid op pages n h p k = elim (Option-cases op.page_resource_id) [
  | inl e ↦ ground arith
  | inr (r, e) ↦
      ground (
        arith,
        page_of-id r pages p,
        eq_iff p.resource_id r,
        eq_iff p.resource_id rid,
        eq_iff r rid,
      )
]

apply_action_pageless :
    (env : Env) (op : Operation) (action : Action) (page : Option Page) (c : Candidate)
    → needs_page action ≡ false
    → apply_action env op action none c ≡ apply_action env op action page c
unfolding apply_action
apply_action_pageless env op (create_page p) page c h = refl
apply_action_pageless env op (add_redirect s t) page c h = refl
apply_action_pageless env op (remove_redirect s) page c h = refl
apply_action_pageless env op (reorder_sections o) page c h = refl
apply_action_pageless env op (unsupported n) page c h = refl
apply_action_pageless env op _ page c h = ground arith

-- What an accepted operation does to a page that it does not address.
pub apply_action_other :
    (env : Env) (rid : String) (op : Operation) (c c' : Candidate)
    → apply_action env op op.action (requested_page op c.pages) c ≡ valid c'
    → targets rid op ≡ false
    → mem rid c'.created ≡ false
    → page_of rid c'.pages ≡ page_of rid c.pages
apply_action_other env rid op c c' h t k = elim (Bool-cases (needs_page op.action)) [
  | inl n ↦
      Effect-other rid (requested_page op c.pages) c c'
        (apply_action-Effect env op op.action _ c c' h) (requested_page-other rid op c.pages n t) k
  | inr n ↦
      Effect-other rid none c c'
        (apply_action-Effect env op op.action none c c'
          (apply_action_pageless env op op.action (requested_page op c.pages) c n ∙ h))
        (λ p e. ground arith) k
]
