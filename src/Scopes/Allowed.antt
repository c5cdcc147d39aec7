-- ===== src/Scopes/Allowed.antt =====
-- What the checks of docs-api/app/principal_scopes.py let a scoped principal do to a change.
use docplane.Base.{
  String, ◌≡◌, refl, sym, ap, ◌∙◌, true, false, Option, none, some, List, ◌==◌, arith, Option-cases,
  inl, inr,
}
use docplane.Base.Slices.{begins}
use docplane.Base.Sets.{mem}
use docplane.Http.{ok, ◌>>=◌, >>=-eq-ok}
use docplane.Scopes.{ArtifactScope, Principal, Change, Db, change_at, scope_for, text_of}
use docplane.Scopes.Requests.{
  scoped_operations, require_change_scope, operation_path, check_path, require_page_operation_scope,
  key_of, scopes_of,
}

require_change_scope-author :
    (db : Db) (principal : Principal) (scopes : List ArtifactScope) (change_id : String)
    (key : Option String)
    → principal.artifact_scopes ≡ some scopes
    → require_change_scope db principal change_id ≡ ok key
    → (change : Change) × (change_at change_id db.changes ≡ some change)
      × ((change.author_principal_id == principal.principal_id) ≡ true)
unfolding require_change_scope
require_change_scope-author db principal scopes change_id key s h =
    elim (Option-cases (change_at change_id db.changes)) [
      | inl e ↦ ground arith
      | inr (change, e) ↦ (change, e, ground arith)
    ]

check_path-begins :
    (found : Option ArtifactScope) (about : Option String)
    → check_path found about ≡ ok tt
    → (scope : ArtifactScope) × (path : String) × (found ≡ some scope)
      × (about ≡ some path)
      × ((text_of scope.page_path_prefix == "") ≡ false)
      × (begins (text_of scope.page_path_prefix) path ≡ true)
unfolding check_path
check_path-begins none about h = ground arith
check_path-begins (some scope) none h = ground arith
check_path-begins (some scope) (some path) h = (scope, path, refl, refl, ground arith, ground arith)

-- A scoped principal gets an operation on a page into a change only when the operation is one of the
-- four that are allowed, the change is its own, and the operation is about a path that begins with
-- the prefix, not empty, of a scope that lets it generate; the path is the page's own if the
-- operation names a page.
pub require_page_operation_scope-prefix :
    (db : Db) (principal : Principal) (scopes : List ArtifactScope)
    (change_id operation_type : String) (page_resource_id path : Option String)
    → principal.artifact_scopes ≡ some scopes
    → require_page_operation_scope db principal change_id operation_type page_resource_id path
      ≡ ok tt
    → (mem operation_type scoped_operations ≡ true)
      × ((change : Change) × (change_at change_id db.changes ≡ some change)
          × ((change.author_principal_id == principal.principal_id) ≡ true))
      × ((key : String) × (scope : ArtifactScope) × (target : String) × (scope_for key "GENERATE"
              scopes
            ≡ some scope)
          × (operation_path db page_resource_id path ≡ ok (some target))
          × ((text_of scope.page_path_prefix == "") ≡ false)
          × (begins (text_of scope.page_path_prefix) target ≡ true))
unfolding require_page_operation_scope
require_page_operation_scope-prefix db principal scopes change_id operation_type page_resource_id
      path s h =
    let known : mem operation_type scoped_operations ≡ true = ground arith in
    let rest : (require_change_scope db principal change_id >>= λ artifact_key.
    operation_path db page_resource_id path >>= λ about.
    check_path (scope_for (key_of artifact_key) "GENERATE" (scopes_of principal)) about)
        ≡ ok tt =
      ground arith in
    let change = >>=-eq-ok (require_change_scope db principal change_id) _ rest in
    let about = >>=-eq-ok (operation_path db page_resource_id path) _ change.2 in
    let found =
      check_path-begins (scope_for (key_of change.0) "GENERATE" (scopes_of principal)) about.0
        about.2 in
    let same : scopes_of principal ≡ scopes = ground (arith, s) in
    (
      known,
      require_change_scope-author db principal scopes change_id change.0 s change.1,
      (
        key_of change.0,
        found.0,
        found.1,
        ap (scope_for (key_of change.0) "GENERATE") (sym same) ∙ found.2,
        about.1 ∙ ap ok found.3,
        found.4,
        found.5,
      ),
    )
