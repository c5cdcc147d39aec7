-- ===== src/Publication/Apply.antt =====
-- What one operation of a change does to the candidate corpus.
use docplane.Base.{true, false, Option, none, some}
use docplane.Attempt.{Attempt, about, silent, fail}
use docplane.Markdown.Edits
use docplane.Publication.Types.{
  Page, Action, create_page, replace_document, patch_text, patch_metadata, replace_section,
  insert_before_heading, insert_after_heading, move_page, reparent_nav, archive_page, restore_page,
  add_redirect, remove_redirect, reorder_sections, unsupported, Operation, Candidate, Env,
}
use docplane.Publication.Candidate.{apply_create}
use docplane.Publication.Pages.{
  apply_replace, apply_patch, apply_metadata, apply_section, apply_move, apply_reparent,
  apply_archive, apply_restore, apply_add_redirect, apply_remove_redirect, apply_reorder,
}

-- A page is there for every operation that wants one, since the checks in front refuse the others.
abbrev pub with_page : Option Page → (Page → Attempt Candidate) → Attempt Candidate
with_page none rest = fail "PAGE_NOT_FOUND" silent
with_page (some page) rest = rest page

unfoldable pub apply_action : Env → Operation → Action → Option Page → Candidate → Attempt Candidate
unfolding apply_create apply_replace apply_patch apply_metadata apply_section apply_move
    apply_reparent apply_archive apply_restore apply_add_redirect apply_remove_redirect
    apply_reorder
apply_action env op (create_page p) page c = apply_create env op.operation_id p c
apply_action env op (replace_document p) page c = with_page page λ q. apply_replace p q c
apply_action env op (patch_text edits) page c = with_page page λ q. apply_patch env edits q c
apply_action env op (patch_metadata p) page c = with_page page λ q. apply_metadata env p q c
apply_action env op (replace_section heading content) page c = with_page page λ q.
    apply_section env (Edits.replace_section env.lower env.sha256) heading content
      op.expected_section_hash q c
apply_action env op (insert_before_heading heading content) page c = with_page page λ q.
    apply_section env (λ t h n. Edits.insert_at_heading env.lower env.sha256 t h n false) heading
      content op.expected_section_hash q c
apply_action env op (insert_after_heading heading content) page c = with_page page λ q.
    apply_section env (λ t h n. Edits.insert_at_heading env.lower env.sha256 t h n true) heading
      content op.expected_section_hash q c
apply_action env op (move_page p) page c = with_page page λ q. apply_move p q c
apply_action env op (reparent_nav nav order) page c =
    with_page page λ q. apply_reparent nav order q c
apply_action env op archive_page page c = with_page page λ q. apply_archive q c
apply_action env op restore_page page c = with_page page λ q. apply_restore q c
apply_action env op (add_redirect source target) page c = apply_add_redirect source target c
apply_action env op (remove_redirect source) page c = apply_remove_redirect source c
apply_action env op (reorder_sections order) page c = apply_reorder order c
apply_action env op (unsupported name) page c = fail "OPERATION_UNSUPPORTED" (about name)
