-- ===== src/Scopes/Requests.antt =====
-- The checks of docs-api/app/principal_scopes.py that a whole request makes: links, changes and their
-- operations, observations.
use docplane.Base.{
  String, Bool, false, not, ◌&&◌, ◌||◌, Option, none, some, List, [], ◌∷◌, ◌++◌, ◌==◌,
  if◌then◌else◌, is_some, eqb,
}
use docplane.Base.Slices.{begins}
use docplane.Base.Lists.{any, length, nonempty}
use docplane.Base.Sets.{mem, dedup}
use docplane.Base.Dict.{Dict, lookup}
use docplane.Http.{Result, ok, raise, refuse_if, ◌>>=◌, ◌>>◌}
use docplane.Scopes.{
  ArtifactScope, Principal, Entity, Artifact, Successor, Plan, Db, change_at, scope_for,
  same_option, text_of, require_artifact_scope, require_source_entity_scope,
  require_catalogue_entity_scope, require_artifact_id_scope,
}

abbrev links_well :
    Option (Option ArtifactScope × Entity) → Option (Option ArtifactScope × Entity) → Bool
links_well (some (some scope, schema)) (some (x, database)) =
    schema.entity_kind == "SCHEMA"
    && database.entity_kind == "DATABASE"
    && same_option (some database.entity_key) scope.source_entity_key
links_well _ _ = false

-- `has_metadata` tells whether the request's metadata is not empty.
unfoldable pub require_schema_database_link_scope :
    Db → Principal → String → String → String → Option String → Bool → Result (Unit {0})
unfolding require_catalogue_entity_scope
require_schema_database_link_scope db principal schema_id database_id relation remark has_metadata =
    if not (is_some principal.artifact_scopes)
    then ok tt
    else require_catalogue_entity_scope db principal schema_id >>= λ schema.
        require_catalogue_entity_scope db principal database_id >>= λ database.
        refuse_if
          (not (links_well schema database)
            || not (relation == "STORES_IN")
            || is_some remark
            || has_metadata)
          403 "PRINCIPAL_MODEL_LINK_SCOPE_DENIED"

-- SELECT path FROM docs.pages WHERE resource_id = ANY(…): a row for each page there is, once.
unfoldable pub paths_of : List String → Dict String → List String
unfolding lookup
paths_of [] rows = []
paths_of (id ∷ ids) rows =
    let rest = paths_of ids rows in elim (lookup id rows) [ none ↦ rest | some path ↦ path ∷ rest ]

abbrev prefix_of : Option (Option ArtifactScope × Entity) → String
prefix_of (some (some scope, e)) = text_of scope.page_path_prefix
prefix_of _ = ""

unfoldable pub require_catalogue_page_links_scope :
    Db → Principal → String → List String → Result (Unit {0})
unfolding require_catalogue_entity_scope paths_of begins any dedup
require_catalogue_page_links_scope db principal entity_id page_resource_ids =
    require_catalogue_entity_scope db principal entity_id >>= λ scoped.
    let paths = paths_of (dedup page_resource_ids) db.page_paths in
    refuse_if
      (is_some scoped
        && nonempty page_resource_ids
        && (not (eqb (length paths) (length page_resource_ids))
            || any (λ path. not (begins (prefix_of scoped) path)) paths))
      403 "PRINCIPAL_PAGE_PATH_SCOPE_DENIED"

abbrev nonblank : Option String → Option String
nonblank none = none
nonblank (some s) = if s == "" then none else some s

-- `plan.get("artifact_id") or plan.get("predecessor_id")`
abbrev pub plan_artifact : Plan → Option String
plan_artifact plan = elim (nonblank plan.artifact_id) [
  | some id ↦ some id
  | none ↦ nonblank plan.predecessor_id
]

abbrev successor_paths : Option Successor → List String
successor_paths none = []
successor_paths (some s) = s.target_page_paths

unfoldable pub check_successor : Db → Principal → Option Successor → Result (Unit {0})
unfolding require_artifact_scope require_source_entity_scope
check_successor db principal none = ok tt
check_successor db principal (some s) =
    require_artifact_scope principal s.artifact_key "GENERATE" none s.target_page_paths
    >> require_source_entity_scope db principal s.artifact_key s.source_entity_id

unfoldable pub require_ownership_plan_scope : Db → Principal → Plan → Result (Option String)
unfolding require_artifact_id_scope require_artifact_scope check_successor
require_ownership_plan_scope db principal plan =
    if not (is_some principal.artifact_scopes) then ok none else elim (plan_artifact plan) [
      | none ↦ raise 403 "PRINCIPAL_CHANGE_SCOPE_DENIED"
      | some id ↦ require_artifact_id_scope db principal id "GENERATE" none >>= λ artifact_key.
          require_artifact_scope principal artifact_key "GENERATE" none
            (plan.target_page_paths ++ successor_paths plan.successor)
          >> (check_successor db principal plan.successor >> ok (some artifact_key))
    ]

abbrev with_plan : Option Plan → (Plan → Result (Option String)) → Result (Option String)
with_plan none rest = raise 403 "PRINCIPAL_CHANGE_SCOPE_DENIED"
with_plan (some plan) rest = rest plan

unfoldable pub require_change_scope : Db → Principal → String → Result (Option String)
unfolding change_at require_ownership_plan_scope
require_change_scope db principal change_id =
    if not (is_some principal.artifact_scopes)
    then ok none
    else elim (change_at change_id db.changes) [
      | none ↦ raise 404 "CHANGE_NOT_FOUND"
      | some change ↦
          if not (change.author_principal_id == principal.principal_id)
          then raise 403 "PRINCIPAL_CHANGE_SCOPE_DENIED"
          else with_plan change.plan (require_ownership_plan_scope db principal)
    ]

abbrev pub scoped_operations : List String
scoped_operations = "CREATE_PAGE" ∷ "REPLACE_DOCUMENT" ∷ "ARCHIVE_PAGE" ∷ "RESTORE_PAGE" ∷ []

-- The path that an operation is about: that of its page, which a path in the payload must repeat.
unfoldable pub operation_path : Db → Option String → Option String → Result (Option String)
unfolding lookup
operation_path db none path = ok path
operation_path db (some id) path =
    let existing = lookup id db.page_paths in
    refuse_if (is_some path && not (same_option path existing)) 403
      "PRINCIPAL_PAGE_PATH_SCOPE_DENIED"
    >> ok existing

abbrev pub key_of : Option String → String
key_of none = ""
key_of (some k) = k

-- The scope of the operation's artifact. `require_change_scope` has found it before.
unfoldable pub check_path : Option ArtifactScope → Option String → Result (Unit {0})
unfolding begins
check_path none path = raise 500 "StopIteration"
check_path (some scope) path =
    refuse_if
      (text_of path == ""
        || text_of scope.page_path_prefix == ""
        || not (begins (text_of scope.page_path_prefix) (text_of path)))
      403 "PRINCIPAL_PAGE_PATH_SCOPE_DENIED"

abbrev pub scopes_of : Principal → List ArtifactScope
scopes_of principal = elim principal.artifact_scopes [ none ↦ [] | some scopes ↦ scopes ]

unfoldable pub require_page_operation_scope :
    Db → Principal → String → String → Option String → Option String → Result (Unit {0})
unfolding require_change_scope scope_for operation_path check_path mem
require_page_operation_scope db principal change_id operation_type page_resource_id path =
    if not (is_some principal.artifact_scopes)
    then ok tt
    else if not (mem operation_type scoped_operations)
    then raise 403 "PRINCIPAL_CHANGE_OPERATION_DENIED"
    else require_change_scope db principal change_id >>= λ artifact_key.
        operation_path db page_resource_id path >>= λ about.
        check_path (scope_for (key_of artifact_key) "GENERATE" (scopes_of principal)) about

-- The observation's subject and kind.
pub record ObservationRequest : Type 0 where
  pub subject_artifact_id : Option String
  pub subject_entity_id : Option String
  pub observation_kind : String

-- Keys that the principal may observe in this kind.
unfoldable pub observable_keys : String → List ArtifactScope → List String
observable_keys kind [] = []
observable_keys kind (s ∷ ss) =
    let rest = observable_keys kind ss in
    if s.operation == "OBSERVE" && same_option s.observation_kind (some kind)
    then s.artifact_key ∷ rest
    else rest

unfoldable pub declared_for : String → List String → List Artifact → Option Artifact
unfolding mem
declared_for entity_id allowed [] = none
declared_for entity_id allowed (a ∷ rest) =
    if a.source_entity_id == entity_id && mem a.artifact_key allowed && a.status == "DECLARED"
    then some a
    else declared_for entity_id allowed rest

unfoldable pub observed_key : Db → Principal → ObservationRequest → Result String
unfolding require_artifact_id_scope declared_for observable_keys
observed_key db principal item = elim item.subject_artifact_id [
  | some id ↦ require_artifact_id_scope db principal id "OBSERVE" (some item.observation_kind)
  | none ↦ elim item.subject_entity_id [
    | none ↦ raise 403 "PRINCIPAL_OBSERVATION_SCOPE_DENIED"
    | some id ↦
        elim (declared_for id (observable_keys item.observation_kind (scopes_of principal))
          db.artifacts) [
            | none ↦ raise 403 "PRINCIPAL_OBSERVATION_SCOPE_DENIED"
            | some a ↦ ok a.artifact_key
          ]
  ]
]

unfoldable pub require_each : Db → Principal → List ObservationRequest → Result (Unit {0})
unfolding observed_key require_artifact_scope
require_each db principal [] = ok tt
require_each db principal (item ∷ items) = observed_key db principal item >>= λ artifact_key.
    require_artifact_scope principal artifact_key "OBSERVE" (some item.observation_kind) []
    >> require_each db principal items

unfoldable pub require_observation_scopes :
    Db → Principal → List ObservationRequest → Result (Unit {0})
unfolding require_each
require_observation_scopes db principal observations =
    if not (is_some principal.artifact_scopes)
    then ok tt
    else require_each db principal observations
