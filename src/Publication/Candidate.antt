-- ===== src/Publication/Candidate.antt =====
-- The candidate corpus of `evaluate_change`: its pages by id and by path, and CREATE_PAGE.
use Prim.Native.Char.{code}
use docplane.Base.{
  ℕ, String, Bool, false, not, ◌&&◌, ◌||◌, Option, none, some, List, [], ◌∷◌, ◌++◌, ◌==◌,
  if◌then◌else◌, leb, eqb, is_some,
}
use docplane.Base.Strip.{strip}
use docplane.Base.Lists.{nonempty}
use docplane.Base.Sets.{mem}
use docplane.Base.Dict.{lookup}
use docplane.Attempt.{Problem, Attempt, invalid, valid, about, names, silent, fail, fail_if}
use docplane.Publication.Types.{
  pos, PageStatus, PublicationState, VerificationState, Page, CreatePage, Candidate, Env, is_active,
}

-- `[a-z0-9/_-]`
abbrev pub is_path_code : ℕ → Bool
is_path_code c = (leb 97 c && leb c 122) || (leb 47 c && leb c 57) || eqb c 95 || eqb c 45

unfoldable pub path_tail : String → Bool
path_tail String.[] = false
path_tail (String.◌∷◌ c s) =
    let rest = path_tail s in (String.◌∷◌ c s == ".md") || (is_path_code (code c) && rest)

-- `_PATH_RE.fullmatch(path)`
unfoldable pub path_valid : String → Bool
unfolding path_tail
path_valid String.[] = false
path_valid (String.◌∷◌ c s) = is_path_code (code c) && path_tail s

abbrev pub knowledge_classes : List String
knowledge_classes =
    "ARCHITECTURE" ∷ "OPERATION" ∷ "REFERENCE" ∷ "POLICY" ∷ "DECISION" ∷ "EVIDENCE" ∷ "DESIGN"
    ∷ "WORK_NOTE" ∷ []

abbrev pub criticality_values : List String
criticality_values = "NORMAL" ∷ "IMPORTANT" ∷ "OPERATIONAL_CRITICAL" ∷ "POLICY_REQUIRED" ∷ []

-- `by_id.get(…)`: of pages with one id, the last.
unfoldable pub page_of : String → List Page → Option Page
page_of rid [] = none
page_of rid (p ∷ ps) = elim (page_of rid ps) [
  | some q ↦ some q
  | none ↦ if p.resource_id == rid then some p else none
]

-- The page that `by_id` holds, changed in place.
unfoldable pub put_page : Page → List Page → List Page
unfolding page_of
put_page q [] = []
put_page q (p ∷ ps) =
    let rest = put_page q ps in
    if is_some (page_of q.resource_id ps)
    then p ∷ rest
    else if p.resource_id == q.resource_id
    then q ∷ ps
    else p ∷ ps

abbrev pub add_to : String → List String → List String
add_to x xs = if mem x xs then xs else xs ++ x ∷ []

-- Change the page and count it as touched.
unfoldable pub write : Page → Candidate → Candidate
unfolding put_page mem
write q c = record c { pages = put_page q c.pages; touched = add_to q.resource_id c.touched }

abbrev pub text_of : Option String → String
text_of none = ""
text_of (some s) = s

abbrev pub or_else {ℓ} : {A : Type ℓ} → Option A → A → A
or_else none x = x
or_else (some y) x = y

-- `payload.get(…) or fallback`
abbrev pub or_nonempty : Option String → String → String
or_nonempty none fallback = fallback
or_nonempty (some s) fallback = if s == "" then fallback else s

-- `_require_payload`, then the rest
abbrev pub missing_fields : List (String × Bool) → List String
missing_fields [] = []
missing_fields ((name, given) ∷ fields) =
    if given then missing_fields fields else name ∷ missing_fields fields

abbrev pub require {ℓ} : {Value : Type ℓ} → List (String × Bool) → Attempt Value → Attempt Value
require fields rest =
    fail_if (nonempty (missing_fields fields)) "MISSING_PAYLOAD" (names (missing_fields fields))
      rest

abbrev pub class_unknown : Option String → Bool
class_unknown none = false
class_unknown (some c) = not (mem c knowledge_classes)

-- The page at a path: the first of the list.
unfoldable pub at_path : String → List Page → Option Page
at_path path [] = none
at_path path (p ∷ ps) = if p.path == path then some p else at_path path ps

-- `candidate["path"] == path and candidate["status"] == "active"` for some page
unfoldable pub is_active_path : String → List Page → Bool
is_active_path path [] = false
is_active_path path (p ∷ ps) = (p.path == path && is_active p) || is_active_path path ps

abbrev pub workspace_id {ℓ} :
    {Value : Type ℓ} → Env → String → (String → Attempt Value) → Attempt Value
workspace_id env name rest = elim (lookup name env.workspaces) [
  | none ↦ fail "WORKSPACE_NOT_FOUND" silent
  | some id ↦ rest id
]

-- `if existing is not None: …`
unfoldable pub path_taken : Option Page → Option Problem
path_taken none = none
path_taken (some p) = some (
    if is_active p
    then record { code = "CREATE_PATH_EXISTS"; detail = silent }
    else record { code = "CREATE_PATH_ARCHIVED_RESTORE_REQUIRED"; detail = about p.resource_id })

abbrev pub unless_problem {ℓ} : {Value : Type ℓ} → Option Problem → Attempt Value → Attempt Value
unless_problem none rest = rest
unless_problem (some p) rest = invalid p

unfoldable pub created_page : Env → String → CreatePage → String → String → Page
unfolding strip
created_page env operation_id p workspace_key workspace = record {
  resource_id = or_nonempty p.resource_id (env.fresh operation_id).0;
  path = text_of p.path;
  title = strip (text_of p.title);
  nav_path = strip (text_of p.nav_path);
  nav_order = or_else p.nav_order (pos 1000);
  content = text_of p.content;
  revision = (env.fresh operation_id).1;
  version = 1;
  status = PageStatus.active;
  workspace_id = workspace;
  workspace_key = workspace_key;
  publication_state = PublicationState.published;
  knowledge_class = p.knowledge_class;
  verification_state = VerificationState.unverified;
  owner_principal_id = none;
  review_due_at = none;
  criticality = or_else p.criticality "NORMAL";
  metadata_review_required = false;
  metadata_version = 1;
  updated_at = env.now;
  updated_by = "pending";
  provenance = none;
}

abbrev pub add_page : Page → Candidate → Candidate
add_page p c = record c {
  pages = c.pages ++ p ∷ [];
  touched = add_to p.resource_id c.touched;
  created = add_to p.resource_id c.created;
}

unfoldable pub apply_create : Env → String → CreatePage → Candidate → Attempt Candidate
unfolding path_valid at_path path_taken created_page lookup mem
apply_create env operation_id p c =
    let path = text_of p.path in
    let workspace_key = or_nonempty p.workspace_key env.workspace_key in
    require
      (("path", is_some p.path)
        ∷ ("title", is_some p.title)
        ∷ ("nav_path", is_some p.nav_path)
        ∷ ("content", is_some p.content)
        ∷ [])
      (fail_if (class_unknown p.knowledge_class) "KNOWLEDGE_CLASS_INVALID"
        (about (text_of p.knowledge_class))
        (fail_if (not (mem (or_else p.criticality "NORMAL") criticality_values))
          "CRITICALITY_INVALID" (about (or_else p.criticality "NORMAL"))
          (fail_if (not (path_valid path)) "PATH_INVALID" silent (
            unless_problem (path_taken (at_path path c.pages)) (
              workspace_id env workspace_key λ workspace.
                valid (add_page (created_page env operation_id p workspace_key workspace) c))))))
