-- ===== src/Publication/PageEffect.antt =====
-- The branches of `evaluate_change` that write a page, and what they write.
use docplane.Base.{
  String, ◌≡◌, refl, ap, ◌⊎◌, inl, inr, subst, true, not, Option, none, some, List, [], ◌∷◌, ◌++◌,
  arith, is_some, Option-cases,
}
use docplane.Base.Sets.{mem}
use docplane.Base.Lists.{nonempty, any}
use docplane.Base.Dict.{lookup}
use docplane.Attempt.{Attempt, invalid, valid, ◌then_with◌, then_with-eq-valid, fail_if-eq-valid}
use docplane.TextPatch.{Edit, apply_text_patch}
use docplane.Markdown.Sections.{Section, find_section}
use docplane.Publication.Types.{Page, ReplaceDocument, PatchMetadata, MovePage, Candidate, Env}
use docplane.Publication.Candidate.{
  path_valid, put_page, write, add_to, text_of, at_path, missing_fields, or_else,
  criticality_values,
}
use docplane.Publication.Pages.{
  apply_replace, apply_patch, apply_metadata, apply_section, edit_section, apply_move,
  apply_restore, new_workspace, edit_invalid, path_collides, hash_matches, given_unknown,
}

pub data Effect (page : Option Page) (c c' : Candidate) : Type 0 where
  page_written :
      (p q : Page)
      → page ≡ some p
      → q.resource_id ≡ p.resource_id
      → q.provenance ≡ p.provenance
      → ((path_valid q.path ≡ true) ⊎ (q.path ≡ p.path))
      → c'.pages ≡ put_page q c.pages
      → c'.touched ≡ add_to p.resource_id c.touched
      → c'.created ≡ c.created
      → Effect page c c'
  page_added :
      (p : Page)
      → path_valid p.path ≡ true
      → at_path p.path c.pages ≡ none
      → p.provenance ≡ none
      → c'.pages ≡ c.pages ++ p ∷ []
      → c'.touched ≡ add_to p.resource_id c.touched
      → c'.created ≡ add_to p.resource_id c.created
      → Effect page c c'
  pages_kept :
      c'.pages ≡ c.pages → c'.touched ≡ c.touched → c'.created ≡ c.created → Effect page c c'

pub valid-eq : {A : Type 0} {x y : A} → valid x ≡ valid y → x ≡ y
valid-eq h = ground arith

-- A page written in its place, its path as it was.
pub write-Effect :
    (p q : Page) (c c' : Candidate)
    → q.resource_id ≡ p.resource_id
    → q.provenance ≡ p.provenance
    → q.path ≡ p.path
    → valid (write q c) ≡ valid c'
    → Effect (some p) c c'
unfolding write
write-Effect p q c c' i v t h =
    subst (Effect (some p) c) (valid-eq h)
      (page_written p q refl i v (inr t) refl (ap (λ x. add_to x c.touched) i) refl)

pub apply_replace-Effect :
    (p : ReplaceDocument) (page : Page) (c c' : Candidate)
    → apply_replace p page c ≡ valid c'
    → Effect (some page) c c'
unfolding apply_replace
apply_replace-Effect p page c c' h =
    write-Effect page _ c c' refl refl refl (fail_if-eq-valid _ _ _ _ h).1

pub apply_patch-Effect :
    (env : Env) (edits : Option (List Edit)) (page : Page) (c c' : Candidate)
    → apply_patch env edits page c ≡ valid c'
    → Effect (some page) c c'
unfolding apply_patch
apply_patch-Effect env none page c c' h = cc
apply_patch-Effect env (some edits) page c c' h =
    let given = fail_if-eq-valid (not (nonempty edits)) _ _ _ h in
    let checks = fail_if-eq-valid (any edit_invalid edits) _ _ _ given.1 in
    let done = then_with-eq-valid (apply_text_patch env.sha256 page.content edits) _ checks.1 in
    write-Effect page _ c c' refl refl refl done.2

-- The part of a section operation behind the search for the section.
edited-Effect :
    (text : Attempt String) (page : Page) (c c' : Candidate)
    → (text then_with λ t. valid (write (record page { content = t }) c)) ≡ valid c'
    → Effect (some page) c c'
edited-Effect (invalid p) page c c' h = cc
edited-Effect (valid t) page c c' h =
    write-Effect page (record page { content = t }) c c' refl refl refl h

edit_section-Effect :
    (edit : String → String → String → Attempt String) (heading_id content : String)
    (expected : Option String) (page : Page) (c c' : Candidate) (found : Option Section)
    → edit_section edit heading_id content expected page c found ≡ valid c'
    → Effect (some page) c c'
unfolding edit_section
edit_section-Effect edit heading_id content expected page c c' none h = cc
edit_section-Effect edit heading_id content expected page c c' (some current) h =
    let explicit = fail_if-eq-valid (not current.explicit_id) _ _ _ h in
    let hash =
      fail_if-eq-valid (not (hash_matches expected current.content_hash)) _ _ _ explicit.1 in
    edited-Effect (edit page.content heading_id content) page c c' hash.1

pub apply_section-Effect :
    (env : Env) (edit : String → String → String → Attempt String)
    (heading_id content expected : Option String) (page : Page) (c c' : Candidate)
    → apply_section env edit heading_id content expected page c ≡ valid c'
    → Effect (some page) c c'
unfolding apply_section
apply_section-Effect env edit heading_id content expected page c c' h =
    edit_section-Effect edit (text_of heading_id) (text_of content) expected page c c'
      (find_section env.lower env.sha256 page.content (text_of heading_id))
      (fail_if-eq-valid
        (nonempty
          (missing_fields (("heading_id", is_some heading_id) ∷ ("content", is_some content) ∷ [])))
        _ _ _ h).1

new_workspace-Effect :
    (env : Env) (name : Option String) (changed page : Page) (c c' : Candidate)
    → changed.resource_id ≡ page.resource_id
    → changed.provenance ≡ page.provenance
    → changed.path ≡ page.path
    → new_workspace env name changed (λ q. valid (write q c)) ≡ valid c'
    → Effect (some page) c c'
new_workspace-Effect env none changed page c c' i v t h = write-Effect page changed c c' i v t h
new_workspace-Effect env (some name) changed page c c' i v t h =
    elim (Option-cases (lookup name env.workspaces)) [
      | inl e ↦ ground arith
      | inr (id, e) ↦
          write-Effect page (record changed { workspace_key = name; workspace_id = id }) c c' i v t
            (ground arith)
    ]

pub apply_metadata-Effect :
    (env : Env) (p : PatchMetadata) (page : Page) (c c' : Candidate)
    → apply_metadata env p page c ≡ valid c'
    → Effect (some page) c c'
unfolding apply_metadata
apply_metadata-Effect env p page c c' h =
    let known = fail_if-eq-valid (nonempty p.other) _ _ _ h in
    let class = fail_if-eq-valid (given_unknown p.knowledge_class) _ _ _ known.1 in
    let level =
      fail_if-eq-valid (not (mem (or_else p.criticality "NORMAL") criticality_values)) _ _ _
        class.1 in
    new_workspace-Effect env p.workspace_key _ page c c' refl refl refl level.1

pub apply_move-Effect :
    (p : MovePage) (page : Page) (c c' : Candidate)
    → apply_move p page c ≡ valid c'
    → Effect (some page) c c'
unfolding apply_move write
apply_move-Effect p page c c' h =
    let given =
      fail_if-eq-valid (nonempty (missing_fields (("to_path", is_some p.to_path) ∷ []))) _ _ _ h in
    let right = fail_if-eq-valid (not (path_valid (text_of p.to_path))) _ _ _ given.1 in
    let free =
      fail_if-eq-valid (path_collides page.resource_id (text_of p.to_path) c.pages) _ _ _ right.1 in
    subst (Effect (some page) c) (valid-eq free.1)
      (page_written page _ refl refl refl (inl (ground (arith, right.0))) refl refl refl)

pub apply_restore-Effect :
    (page : Page) (c c' : Candidate) → apply_restore page c ≡ valid c' → Effect (some page) c c'
unfolding apply_restore
apply_restore-Effect page c c' h =
    write-Effect page _ c c' refl refl refl
      (fail_if-eq-valid (is_some (lookup page.path c.redirects)) _ _ _ h).1

pub pages_kept-eq :
    (page : Option Page) (c d c' : Candidate)
    → d.pages ≡ c.pages
    → d.touched ≡ c.touched
    → d.created ≡ c.created
    → valid d ≡ valid c'
    → Effect page c c'
pages_kept-eq page c d c' i t k h = subst (Effect page c) (valid-eq h) (pages_kept i t k)
