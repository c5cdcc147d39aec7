-- ===== src/Scopes.antt =====
-- docs-api/app/principal_scopes.py: what a principal that is scoped to artifacts may do. A principal
-- without scopes passes every check here.
pub mod Requests
pub mod Allowed
use docplane.Base.{
  String, Bool, true, false, not, ◌&&◌, ◌||◌, Option, none, some, List, [], ◌∷◌, ◌++◌, ◌==◌,
  if◌then◌else◌, is_some, eqb,
}
use docplane.Base.Slices.{begins, plus}
use docplane.Base.Lists.{any, length, nonempty}
use docplane.Base.Sets.{mem}
use docplane.Base.Dict.{Dict, lookup}
use docplane.Http.{Result, ok, raise, refuse_if, ◌>>=◌, ◌>>◌}

pub record ArtifactScope : Type 0 where
  pub artifact_key : String
  pub operation : String
  pub source_entity_key : Option String
  pub observation_kind : Option String
  pub page_path_prefix : Option String

pub record Principal : Type 0 where
  pub principal_id : String
  pub artifact_scopes : Option (List ArtifactScope)

-- The columns of model.entities, model.generated_artifacts and docs.changes that the checks read; of
-- docs.pages the path under each id.
pub record Entity : Type 0 where
  pub entity_id : String
  pub entity_kind : String
  pub entity_key : String

pub record Artifact : Type 0 where
  pub artifact_id : String
  pub artifact_key : String
  pub status : String
  pub source_entity_id : String

pub record Successor : Type 0 where
  pub artifact_key : String
  pub target_page_paths : List String
  pub source_entity_id : String

pub record Plan : Type 0 where
  pub artifact_id : Option String
  pub predecessor_id : Option String
  pub target_page_paths : List String
  pub successor : Option Successor

pub record Change : Type 0 where
  pub change_id : String
  pub author_principal_id : String
  pub plan : Option Plan

pub record Db : Type 0 where
  pub entities : List Entity
  pub artifacts : List Artifact
  pub changes : List Change
  pub page_paths : Dict String

unfoldable pub entity_at : String → List Entity → Option Entity
entity_at id [] = none
entity_at id (e ∷ es) = if e.entity_id == id then some e else entity_at id es

unfoldable pub artifact_at : String → List Artifact → Option Artifact
artifact_at id [] = none
artifact_at id (a ∷ rest) = if a.artifact_id == id then some a else artifact_at id rest

unfoldable pub change_at : String → List Change → Option Change
change_at id [] = none
change_at id (c ∷ cs) = if c.change_id == id then some c else change_at id cs

-- `next((item for item in scopes if …), None)`
unfoldable pub scope_for : String → String → List ArtifactScope → Option ArtifactScope
scope_for artifact_key operation [] = none
scope_for artifact_key operation (s ∷ ss) =
    if s.artifact_key == artifact_key && s.operation == operation
    then some s
    else scope_for artifact_key operation ss

abbrev pub same_option : Option String → Option String → Bool
same_option none none = true
same_option (some a) (some b) = a == b
same_option _ _ = false

abbrev pub text_of : Option String → String
text_of none = ""
text_of (some s) = s

unfoldable pub ends_slash : String → Bool
ends_slash String.[] = false
ends_slash (String.◌∷◌ c s) = let rest = ends_slash s in (String.◌∷◌ c s == "/") || rest

unfoldable pub check_scope :
    ArtifactScope → String → Option String → List String → Result (Unit {0})
unfolding ends_slash begins any
check_scope scope operation observation_kind page_paths =
    let prefix = text_of scope.page_path_prefix in
    refuse_if (operation == "OBSERVE" && not (same_option scope.observation_kind observation_kind))
      403 "PRINCIPAL_OBSERVATION_SCOPE_DENIED"
    >> refuse_if
        (operation == "GENERATE"
          && nonempty page_paths
          && (not (ends_slash prefix) || any (λ path. not (begins prefix path)) page_paths))
        403 "PRINCIPAL_PAGE_PATH_SCOPE_DENIED"

unfoldable pub require_artifact_scope :
    Principal → String → String → Option String → List String → Result (Unit {0})
unfolding scope_for check_scope
require_artifact_scope principal artifact_key operation observation_kind page_paths =
    elim principal.artifact_scopes [
      | none ↦ ok tt
      | some scopes ↦ elim (scope_for artifact_key operation scopes) [
        | none ↦ raise 403 "PRINCIPAL_ARTIFACT_SCOPE_DENIED"
        | some scope ↦ check_scope scope operation observation_kind page_paths
      ]
    ]

abbrev pub is_source : Option Entity → ArtifactScope → Bool
is_source none scope = false
is_source (some e) scope =
    e.entity_kind == "DATABASE" && same_option (some e.entity_key) scope.source_entity_key

unfoldable pub require_source_entity_scope : Db → Principal → String → String → Result (Unit {0})
unfolding scope_for entity_at
require_source_entity_scope db principal artifact_key source_entity_id =
    elim principal.artifact_scopes [
      | none ↦ ok tt
      | some scopes ↦ elim (scope_for artifact_key "GENERATE" scopes) [
        | none ↦ raise 403 "PRINCIPAL_ARTIFACT_SCOPE_DENIED"
        | some scope ↦
            refuse_if (not (is_source (entity_at source_entity_id db.entities) scope)) 403
              "PRINCIPAL_SOURCE_ENTITY_SCOPE_DENIED"
      ]
    ]

-- Whether a scope covers an entity: its database, or a schema below it.
unfoldable pub covers_entity : ArtifactScope → String → String → Bool
unfolding begins plus
covers_entity scope entity_kind entity_key =
    let source = text_of scope.source_entity_key in
    scope.operation == "GENERATE"
    && not (source == "")
    && ((entity_kind == "DATABASE" && entity_key == source)
        || (entity_kind == "SCHEMA" && begins (plus source ".") entity_key))

unfoldable pub covering : String → String → List ArtifactScope → Option ArtifactScope
unfolding covers_entity
covering entity_kind entity_key [] = none
covering entity_kind entity_key (s ∷ ss) =
    if covers_entity s entity_kind entity_key then some s else covering entity_kind entity_key ss

-- `_catalogue_scope_for_entity_key`
unfoldable pub catalogue_scope_for_entity_key :
    Principal → String → String → Result (Option ArtifactScope)
unfolding covering
catalogue_scope_for_entity_key principal entity_kind entity_key = elim principal.artifact_scopes [
  | none ↦ ok none
  | some scopes ↦ elim (covering entity_kind entity_key scopes) [
    | none ↦ raise 403 "PRINCIPAL_MODEL_ENTITY_SCOPE_DENIED"
    | some scope ↦ ok (some scope)
  ]
]

-- `has_attributes` tells whether the request's attributes are not empty.
unfoldable pub require_model_entity_create_scope :
    Principal → String → String → Bool → Option String → Result (Unit {0})
unfolding catalogue_scope_for_entity_key
require_model_entity_create_scope principal entity_kind entity_key has_attributes owner =
    catalogue_scope_for_entity_key principal entity_kind entity_key >>= λ scope.
    refuse_if (is_some scope && (has_attributes || is_some owner)) 403
      "PRINCIPAL_MODEL_ENTITY_SCOPE_DENIED"

abbrev with_entity : Entity → Option ArtifactScope → Option (Option ArtifactScope × Entity)
with_entity e scope = some (scope, e)

unfoldable pub require_catalogue_entity_scope :
    Db → Principal → String → Result (Option (Option ArtifactScope × Entity))
unfolding entity_at catalogue_scope_for_entity_key
require_catalogue_entity_scope db principal entity_id = elim principal.artifact_scopes [
  | none ↦ ok none
  | some scopes ↦ elim (entity_at entity_id db.entities) [
    | none ↦ raise 404 "MODEL_ENTITY_NOT_FOUND"
    | some e ↦ catalogue_scope_for_entity_key principal e.entity_kind e.entity_key >>= λ scope.
        ok (with_entity e scope)
  ]
]

-- For a generation, that the artifact's source is the scope's database.
unfoldable pub check_source : Principal → String → String → Entity → Result (Unit {0})
unfolding scope_for
check_source principal artifact_key operation e = elim principal.artifact_scopes [
  | none ↦ ok tt
  | some scopes ↦ elim (scope_for artifact_key "GENERATE" scopes) [
    | none ↦ ok tt
    | some scope ↦
        refuse_if (operation == "GENERATE" && not (is_source (some e) scope)) 403
          "PRINCIPAL_SOURCE_ENTITY_SCOPE_DENIED"
  ]
]

-- The status, the source and the key of an artifact, joined to its source entity.
unfoldable pub require_artifact_id_scope :
    Db → Principal → String → String → Option String → Result String
unfolding artifact_at entity_at require_artifact_scope check_source
require_artifact_id_scope db principal artifact_id operation observation_kind =
    elim (artifact_at artifact_id db.artifacts) [
      | none ↦ raise 404 "MODEL_ARTIFACT_NOT_FOUND"
      | some a ↦ elim (entity_at a.source_entity_id db.entities) [
        | none ↦ raise 404 "MODEL_ARTIFACT_NOT_FOUND"
        | some e ↦
            refuse_if (is_some principal.artifact_scopes && not (a.status == "DECLARED")) 403
              "PRINCIPAL_ARTIFACT_SCOPE_DENIED"
            >> (require_artifact_scope principal a.artifact_key operation observation_kind []
                >> (check_source principal a.artifact_key operation e >> ok a.artifact_key))
      ]
    ]
