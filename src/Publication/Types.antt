-- ===== src/Publication/Types.antt =====
-- The rows and requests of docs-api/app/publication.py. A payload's field is `none` where the key is
-- missing; a value of another JSON type than the field's is not modelled.
use docplane.Base.{ℕ, String, Bool, Option, List}
use docplane.Base.Dict.{Dict}
use docplane.Attempt.{Problem}
use docplane.TextPatch.{Edit}

pub data ℤ : Type 0 where
  pos : ℕ → ℤ
  negsuc : ℕ → ℤ

pub data PageStatus : Type 0 where
  active archived : PageStatus

pub data PublicationState : Type 0 where
  draft published archived : PublicationState

pub data VerificationState : Type 0 where
  unverified verified outdated expired : VerificationState

-- A row of docs.pages, as `_load_pages` reads it. A page that a change creates has no provenance yet.
pub record Page : Type 0 where
  pub resource_id : String
  pub path : String
  pub title : String
  pub nav_path : String
  pub nav_order : ℤ
  pub content : String
  pub revision : String
  pub version : ℕ
  pub status : PageStatus
  pub workspace_id : String
  pub workspace_key : String
  pub publication_state : PublicationState
  pub knowledge_class : Option String
  pub verification_state : VerificationState
  pub owner_principal_id : Option String
  pub review_due_at : Option ℕ
  pub criticality : String
  pub metadata_review_required : Bool
  pub metadata_version : ℕ
  pub updated_at : ℕ
  pub updated_by : String
  pub provenance : Option String

pub record CreatePage : Type 0 where
  pub path : Option String
  pub title : Option String
  pub nav_path : Option String
  pub content : Option String
  pub nav_order : Option ℤ
  pub knowledge_class : Option String
  pub criticality : Option String
  pub workspace_key : Option String
  pub resource_id : Option String

pub record ReplaceDocument : Type 0 where
  pub content : Option String
  pub title : Option String
  pub nav_path : Option String
  pub nav_order : Option ℤ

-- `other` holds the keys that the operation does not know; a knowledge class may be given as null.
pub record PatchMetadata : Type 0 where
  pub title : Option String
  pub nav_path : Option String
  pub workspace_key : Option String
  pub knowledge_class : Option (Option String)
  pub criticality : Option String
  pub other : List String

pub record MovePage : Type 0 where
  pub to_path : Option String
  pub to_nav_path : Option String
  pub nav_order : Option ℤ
  pub create_redirect : Option Bool

-- The operation types with their payloads.
pub data Action : Type 0 where
  create_page : CreatePage → Action
  replace_document : ReplaceDocument → Action
  patch_text : Option (List Edit) → Action
  patch_metadata : PatchMetadata → Action
  replace_section : Option String → Option String → Action
  insert_before_heading : Option String → Option String → Action
  insert_after_heading : Option String → Option String → Action
  move_page : MovePage → Action
  reparent_nav : Option String → Option ℤ → Action
  archive_page : Action
  restore_page : Action
  add_redirect : Option String → Option String → Action
  remove_redirect : Option String → Action
  reorder_sections : Option (List String) → Action
  unsupported : String → Action

-- A row of docs.change_operations.
pub record Operation : Type 0 where
  pub operation_id : String
  pub sequence : ℕ
  pub page_resource_id : Option String
  pub expected_revision : Option String
  pub expected_section_hash : Option String
  pub action : Action

-- The corpus that the operations have made so far, and what they touched.
pub record Candidate : Type 0 where
  pub pages : List Page
  pub redirects : Dict String
  pub sections : Dict ℕ
  pub touched : List String
  pub created : List String
  pub moves : Dict String

-- An operation's receipt, less what only informs its reader: the patch's hashes and the links that a
-- move rewrote.
pub record OperationResult : Type 0 where
  pub operation_id : String
  pub sequence : ℕ
  pub errors : List Problem
  pub warnings : List Problem
  pub accepted : Bool

pub record Evaluation : Type 0 where
  pub candidate : Candidate
  pub results : List OperationResult
  pub errors : List Problem
  pub warnings : List Problem

-- What an evaluation reads beside the corpus: of the change its workspace and base identity, the
-- rows of other tables, the clock, the identifiers that `uuid4` draws for an operation, and the code
-- that is not modelled (`state_identity`, `build_nav`, `plan_rewrites` and `plan_source_move`, which
-- answer whether they changed the content and with what, or raise).
pub record Env : Type 0 where
  pub workspace_key : String
  pub base_state_identity : Option String
  pub acting_principal_id : Option String
  pub workspaces : Dict String
  pub declared_by : String → Option String
  pub planned_owner : String → Bool
  pub fresh : String → String × String
  pub now : ℕ
  pub lower : String → String
  pub sha256 : String → String
  pub state_identity : List Page → Dict ℕ → Dict String → String
  pub nav_conflict : List Page → Dict ℕ → Option Problem
  pub plan_rewrites : String → String → Dict String → Option (Bool × String)
  pub plan_source_move : String → String → String → Option (Bool × String)

abbrev pub is_active : Page → Bool
is_active p = elim p.status [ PageStatus.active ↦ Bool.true | PageStatus.archived ↦ Bool.false ]
