-- ===== src/Publication/Effect.antt =====
-- What one operation of a change may do to the candidate corpus: write the page that it names, add a
-- page, or change only redirects and sections.
use docplane.Base.{
  String, ◌≡◌, refl, inl, inr, subst, true, false, not, ◌||◌, Option, none, some, List, [], ◌∷◌,
  arith, is_some, eqb, Option-cases,
}
use docplane.Base.Sets.{mem, dedup}
use docplane.Base.Lists.{nonempty, length}
use docplane.Base.Dict.{lookup}
use docplane.Attempt.{Problem, Attempt, valid, fail_if-eq-valid}
use docplane.Markdown.Edits
use docplane.Publication.Types.{
  ℤ, Page, CreatePage, Action, create_page, replace_document, patch_text, patch_metadata,
  replace_section, insert_before_heading, insert_after_heading, move_page, reparent_nav,
  archive_page, restore_page, add_redirect, remove_redirect, reorder_sections, unsupported,
  Operation, Candidate, Env,
}
use docplane.Publication.Candidate.{
  path_valid, text_of, path_taken, at_path, path_taken, created_page, apply_create, unless_problem,
  or_nonempty, add_page, is_active_path, missing_fields, class_unknown, or_else, criticality_values,
}
use docplane.Publication.Pages.{
  apply_reparent, apply_archive, apply_add_redirect, apply_remove_redirect, apply_reorder,
}
use docplane.Publication.Apply.{apply_action, with_page}
use docplane.Publication.PageEffect.{
  page_added, valid-eq, write-Effect, apply_replace-Effect, apply_patch-Effect,
  apply_section-Effect, apply_metadata-Effect, apply_move-Effect, apply_restore-Effect,
  pages_kept-eq, Effect,
}

path_taken-none : (o : Option Page) → path_taken o ≡ none → o ≡ none
unfolding path_taken
path_taken-none none h = refl
path_taken-none (some p) h = ground arith

unless_problem-valid :
    (o : Option Problem) (rest : Attempt Candidate) (c' : Candidate)
    → unless_problem o rest ≡ valid c'
    → (o ≡ none) × (rest ≡ valid c')
unless_problem-valid none rest c' h = (refl, h)
unless_problem-valid (some p) rest c' h = cc

apply_create-Effect :
    (env : Env) (id : String) (p : CreatePage) (page : Option Page) (c c' : Candidate)
    → apply_create env id p c ≡ valid c'
    → Effect page c c'
unfolding apply_create created_page
apply_create-Effect env id p page c c' h =
    let given =
      fail_if-eq-valid
        (nonempty (
          missing_fields (
            ("path", is_some p.path)
            ∷ ("title", is_some p.title)
            ∷ ("nav_path", is_some p.nav_path)
            ∷ ("content", is_some p.content)
            ∷ [])))
        _ _ _ h in
    let class = fail_if-eq-valid (class_unknown p.knowledge_class) _ _ _ given.1 in
    let level =
      fail_if-eq-valid (not (mem (or_else p.criticality "NORMAL") criticality_values)) _ _ _
        class.1 in
    let right = fail_if-eq-valid (not (path_valid (text_of p.path))) _ _ _ level.1 in
    let free = unless_problem-valid (path_taken (at_path (text_of p.path) c.pages)) _ c' right.1 in
    elim (Option-cases (lookup (or_nonempty p.workspace_key env.workspace_key) env.workspaces)) [
      | inl e ↦ ground (arith, free.1)
      | inr (w, e) ↦
          let new = created_page env id p (or_nonempty p.workspace_key env.workspace_key) w in
          let same : valid (add_page new c) ≡ valid c' = ground (arith, free.1) in
          subst (Effect page c) (valid-eq same) (
            page_added new (ground (arith, right.0)) (path_taken-none _ free.0) refl refl refl refl)
    ]

apply_add_redirect-Effect :
    (source target : Option String) (page : Option Page) (c c' : Candidate)
    → apply_add_redirect source target c ≡ valid c'
    → Effect page c c'
unfolding apply_add_redirect
apply_add_redirect-Effect source target page c c' h =
    let given =
      fail_if-eq-valid
        (nonempty
          (missing_fields (("from_path", is_some source) ∷ ("to_path", is_some target) ∷ [])))
        _ _ _ h in
    let right =
      fail_if-eq-valid (not (path_valid (text_of source)) || not (path_valid (text_of target))) _ _
        _ given.1 in
    let free = fail_if-eq-valid (is_active_path (text_of source) c.pages) _ _ _ right.1 in
    pages_kept-eq page c _ c' refl refl refl free.1

apply_remove_redirect-Effect :
    (source : Option String) (page : Option Page) (c c' : Candidate)
    → apply_remove_redirect source c ≡ valid c'
    → Effect page c c'
unfolding apply_remove_redirect
apply_remove_redirect-Effect source page c c' h =
    pages_kept-eq page c _ c' refl refl refl
      (fail_if-eq-valid (nonempty (missing_fields (("from_path", is_some source) ∷ []))) _ _ _ h).1

apply_reorder-Effect :
    (order : Option (List String)) (page : Option Page) (c c' : Candidate)
    → apply_reorder order c ≡ valid c'
    → Effect page c c'
unfolding apply_reorder
apply_reorder-Effect none page c c' h = cc
apply_reorder-Effect (some order) page c c' h =
    pages_kept-eq page c _ c' refl refl refl
      (fail_if-eq-valid (not (eqb (length order) (length (dedup order)))) _ _ _ h).1

apply_reparent-Effect :
    (nav : Option String) (order : Option ℤ) (page : Page) (c c' : Candidate)
    → apply_reparent nav order page c ≡ valid c'
    → Effect (some page) c c'
unfolding apply_reparent
apply_reparent-Effect nav order page c c' h =
    write-Effect page _ c c' refl refl refl
      (fail_if-eq-valid (nonempty (missing_fields (("to_nav_path", is_some nav) ∷ []))) _ _ _ h).1

apply_archive-Effect :
    (page : Page) (c c' : Candidate) → apply_archive page c ≡ valid c' → Effect (some page) c c'
unfolding apply_archive
apply_archive-Effect page c c' h = write-Effect page _ c c' refl refl refl h

with_page-Effect :
    (page : Option Page) (f : Page → Attempt Candidate) (c c' : Candidate)
    → ((q : Page) → f q ≡ valid c' → Effect (some q) c c')
    → with_page page f ≡ valid c'
    → Effect page c c'
with_page-Effect none f c c' k h = cc
with_page-Effect (some q) f c c' k h = k q h

-- An accepted operation writes the page that it names, keeping its id, its provenance and the form
-- of its path; or adds a page at a path that no page has; or leaves all pages as they are.
pub apply_action-Effect :
    (env : Env) (op : Operation) (action : Action) (page : Option Page) (c c' : Candidate)
    → apply_action env op action page c ≡ valid c'
    → Effect page c c'
unfolding apply_action
apply_action-Effect env op (create_page p) page c c' h =
    apply_create-Effect env op.operation_id p page c c' h
apply_action-Effect env op (replace_document p) page c c' h =
    with_page-Effect page _ c c' (λ q. apply_replace-Effect p q c c') h
apply_action-Effect env op (patch_text edits) page c c' h =
    with_page-Effect page _ c c' (λ q. apply_patch-Effect env edits q c c') h
apply_action-Effect env op (patch_metadata p) page c c' h =
    with_page-Effect page _ c c' (λ q. apply_metadata-Effect env p q c c') h
apply_action-Effect env op (replace_section heading content) page c c' h =
    with_page-Effect page _ c c'
      (λ q.
        apply_section-Effect env (Edits.replace_section env.lower env.sha256) heading content _ q c
          c')
      h
apply_action-Effect env op (insert_before_heading heading content) page c c' h =
    with_page-Effect page _ c c'
      (λ q.
        apply_section-Effect env (λ t i n. Edits.insert_at_heading env.lower env.sha256 t i n false)
          heading content _ q c c')
      h
apply_action-Effect env op (insert_after_heading heading content) page c c' h =
    with_page-Effect page _ c c'
      (λ q.
        apply_section-Effect env (λ t i n. Edits.insert_at_heading env.lower env.sha256 t i n true)
          heading content _ q c c')
      h
apply_action-Effect env op (move_page p) page c c' h =
    with_page-Effect page _ c c' (λ q. apply_move-Effect p q c c') h
apply_action-Effect env op (reparent_nav nav order) page c c' h =
    with_page-Effect page _ c c' (λ q. apply_reparent-Effect nav order q c c') h
apply_action-Effect env op archive_page page c c' h =
    with_page-Effect page _ c c' (λ q. apply_archive-Effect q c c') h
apply_action-Effect env op restore_page page c c' h =
    with_page-Effect page _ c c' (λ q. apply_restore-Effect q c c') h
apply_action-Effect env op (add_redirect source target) page c c' h =
    apply_add_redirect-Effect source target page c c' h
apply_action-Effect env op (remove_redirect source) page c c' h =
    apply_remove_redirect-Effect source page c c' h
apply_action-Effect env op (reorder_sections order) page c c' h =
    apply_reorder-Effect order page c c' h
apply_action-Effect env op (unsupported name) page c c' h = cc
