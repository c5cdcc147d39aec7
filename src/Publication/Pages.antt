-- ===== src/Publication/Pages.antt =====
-- The branches of `evaluate_change` that change a page, a redirect or the order of the sections. A
-- metadata patch that fails at its workspace leaves what it wrote in the source's working copy, and
-- nothing here: that change has failed and is not published.
use docplane.Base.{
  ℕ, suc, String, Bool, true, false, not, ◌&&◌, ◌||◌, Option, none, some, List, [], ◌∷◌, ◌==◌,
  if◌then◌else◌, leb, eqb, is_some,
}
use docplane.Base.Strip.{strip}
use docplane.Base.Slices.{str_len}
use docplane.Base.Lists.{any, length, nonempty}
use docplane.Base.Sets.{mem, dedup}
use docplane.Base.Sorting.{sort}
use docplane.Base.Dict.{Dict, lookup, insert, remove, of_entries}
use docplane.Attempt.{Attempt, valid, about, names, silent, fail, fail_if, ◌then_with◌}
use docplane.TextPatch.{Edit, apply_text_patch}
use docplane.Markdown.Sections.{Section, find_section}
use docplane.Publication.Types.{
  ℤ, PageStatus, PublicationState, Page, ReplaceDocument, PatchMetadata, MovePage, Candidate, Env,
  is_active,
}
use docplane.Publication.Candidate.{
  path_valid, criticality_values, write, text_of, or_else, or_nonempty, require, class_unknown,
  is_active_path, workspace_id,
}

unfoldable pub apply_replace : ReplaceDocument → Page → Candidate → Attempt Candidate
unfolding write strip
apply_replace p page c = require (("content", is_some p.content) ∷ []) (
    valid (
      write
        (record page {
          content = text_of p.content;
          title = elim p.title [ none ↦ page.title | some t ↦ strip t ];
          nav_path = elim p.nav_path [ none ↦ page.nav_path | some t ↦ strip t ];
          nav_order = or_else p.nav_order page.nav_order;
        })
        c))

-- `TextPatchEdit.model_validate`: the bounds of the fields, and that the edit changes the text.
unfoldable pub edit_invalid : Edit → Bool
unfolding str_len
edit_invalid e =
    e.old_text == ""
    || not (leb (str_len e.old_text) 262144)
    || not (leb (str_len e.new_text) 262144)
    || not (leb 1 e.expected_occurrences && leb e.expected_occurrences 100)
    || e.old_text == e.new_text

unfoldable pub apply_patch : Env → Option (List Edit) → Page → Candidate → Attempt Candidate
unfolding write apply_text_patch edit_invalid any
apply_patch env none page c = fail "MISSING_PAYLOAD" (names ("edits" ∷ []))
apply_patch env (some edits) page c = fail_if (not (nonempty edits)) "PATCH_EDITS_REQUIRED" silent (
    fail_if (any edit_invalid edits) "PATCH_EDIT_INVALID" silent (
      apply_text_patch env.sha256 page.content edits then_with λ patched.
      valid (write (record page { content = patched.content }) c)))

abbrev pub new_workspace {ℓ} :
    {Value : Type ℓ} → Env → Option String → Page → (Page → Attempt Value) → Attempt Value
new_workspace env none page rest = rest page
new_workspace env (some name) page rest =
    workspace_id env name
      λ workspace. rest (record page { workspace_key = name; workspace_id = workspace })

abbrev pub given_unknown : Option (Option String) → Bool
given_unknown none = false
given_unknown (some c) = class_unknown c

unfoldable pub apply_metadata : Env → PatchMetadata → Page → Candidate → Attempt Candidate
unfolding write lookup mem
apply_metadata env p page c =
    fail_if (nonempty p.other) "METADATA_FIELD_UNSUPPORTED" (names (sort (dedup p.other))) (
      fail_if (given_unknown p.knowledge_class) "KNOWLEDGE_CLASS_INVALID"
        (about (text_of (or_else p.knowledge_class none)))
        (fail_if (not (mem (or_else p.criticality "NORMAL") criticality_values))
          "CRITICALITY_INVALID" (about (or_else p.criticality "NORMAL"))
          (new_workspace env p.workspace_key
            (record page {
              title = or_else p.title page.title;
              nav_path = or_else p.nav_path page.nav_path;
              knowledge_class = or_else p.knowledge_class page.knowledge_class;
              criticality = or_else p.criticality page.criticality;
              metadata_version = suc page.metadata_version;
              metadata_review_required = false;
            })
            λ changed. valid (write changed c))))

abbrev pub hash_matches : Option String → String → Bool
hash_matches none hash = false
hash_matches (some h) hash = h == hash

-- The checks that the three operations on a section share, and the edit.
unfoldable pub edit_section :
    (String → String → String → Attempt String)
    → String
    → String
    → Option String
    → Page
    → Candidate
    → Option Section
    → Attempt Candidate
unfolding write
edit_section edit heading_id content expected page c none = fail "SECTION_NOT_FOUND" silent
edit_section edit heading_id content expected page c (some current) =
    fail_if (not current.explicit_id) "SECTION_ID_NOT_EXPLICIT" silent (
      fail_if (not (hash_matches expected current.content_hash)) "SECTION_HASH_STALE" silent (
        edit page.content heading_id content then_with λ text.
        valid (write (record page { content = text }) c)))

unfoldable pub apply_section :
    Env
    → (String → String → String → Attempt String)
    → Option String
    → Option String
    → Option String
    → Page
    → Candidate
    → Attempt Candidate
unfolding edit_section find_section
apply_section env edit heading_id content expected page c =
    require (("heading_id", is_some heading_id) ∷ ("content", is_some content) ∷ []) (
      edit_section edit (text_of heading_id) (text_of content) expected page c
        (find_section env.lower env.sha256 page.content (text_of heading_id)))

-- `any(…)` of MOVE_PAGE: another page at the path that is not archived.
unfoldable pub path_collides : String → String → List Page → Bool
path_collides rid path [] = false
path_collides rid path (p ∷ ps) =
    (not (p.resource_id == rid) && p.path == path && is_active p) || path_collides rid path ps

unfoldable pub apply_move : MovePage → Page → Candidate → Attempt Candidate
unfolding write path_valid path_collides insert
apply_move p page c =
    let new_path = text_of p.to_path in
    let moved =
      write
        (record page {
          path = new_path;
          nav_path = or_nonempty p.to_nav_path page.nav_path;
          nav_order = or_else p.nav_order page.nav_order;
        })
        c in
    require (("to_path", is_some p.to_path) ∷ []) (
      fail_if (not (path_valid new_path)) "PATH_INVALID" silent (
        fail_if (path_collides page.resource_id new_path c.pages) "TARGET_PATH_COLLISION" silent (
          valid (record moved {
            redirects =
                if or_else p.create_redirect true
                then insert page.path new_path c.redirects
                else c.redirects;
            moves = insert page.path new_path c.moves;
          }))))

unfoldable pub apply_reparent : Option String → Option ℤ → Page → Candidate → Attempt Candidate
unfolding write
apply_reparent to_nav_path nav_order page c = require (("to_nav_path", is_some to_nav_path) ∷ []) (
    valid (
      write
        (record page {
          nav_path = text_of to_nav_path;
          nav_order = or_else nav_order page.nav_order;
        })
        c))

unfoldable pub apply_archive : Page → Candidate → Attempt Candidate
unfolding write
apply_archive page c = valid (
    write
      (record page { status = PageStatus.archived; publication_state = PublicationState.archived })
      c)

unfoldable pub apply_restore : Page → Candidate → Attempt Candidate
unfolding write lookup
apply_restore page c =
    fail_if (is_some (lookup page.path c.redirects)) "RESTORE_TARGET_HAS_REDIRECT" (about page.path)
      (valid (
        write
          (record page {
            status = PageStatus.active;
            publication_state = PublicationState.published;
          })
          c))

unfoldable pub apply_add_redirect : Option String → Option String → Candidate → Attempt Candidate
unfolding path_valid is_active_path insert
apply_add_redirect from_path to_path c =
    require (("from_path", is_some from_path) ∷ ("to_path", is_some to_path) ∷ []) (
      fail_if (not (path_valid (text_of from_path)) || not (path_valid (text_of to_path)))
        "PATH_INVALID" silent
        (fail_if (is_active_path (text_of from_path) c.pages) "REDIRECT_SOURCE_IS_ACTIVE_PAGE"
          silent
          (valid
            (record c { redirects = insert (text_of from_path) (text_of to_path) c.redirects }))))

unfoldable pub apply_remove_redirect : Option String → Candidate → Attempt Candidate
unfolding remove
apply_remove_redirect from_path c =
    require (("from_path", is_some from_path) ∷ [])
      (valid (record c { redirects = remove (text_of from_path) c.redirects }))

-- `{name: index for index, name in enumerate(order)}`
abbrev pub enumerated : ℕ → List String → Dict ℕ
enumerated n [] = []
enumerated n (x ∷ xs) = (x, n) ∷ enumerated (suc n) xs

unfoldable pub apply_reorder : Option (List String) → Candidate → Attempt Candidate
unfolding of_entries dedup
apply_reorder none c = fail "MISSING_PAYLOAD" (names ("order" ∷ []))
apply_reorder (some order) c =
    fail_if (not (eqb (length order) (length (dedup order)))) "SECTION_ORDER_INVALID" silent
      (valid (record c { sections = of_entries [] (enumerated 0 order) }))
