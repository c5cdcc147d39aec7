-- ===== src/Publication/Publish.antt =====
-- The writes of `publish_change` of docs-api/app/publication.py to docs.pages, docs.page_versions,
-- docs.page_verifications, docs.redirects and docs.sections, with the constraints of these tables. An
-- error of the database or a missing key is an answer 500, and rolls everything back.
use Prim.Native.Char.{code}
use docplane.Base.{
  ℕ, suc, ◌+◌, String, Bool, true, false, not, ◌&&◌, ◌||◌, Option, none, some, List, [], ◌∷◌, ◌++◌,
  ◌==◌, if◌then◌else◌, eqb, is_some,
}
use docplane.Base.Slices.{begins, find}
use docplane.Base.Lists.{any, all}
use docplane.Base.Sets.{mem, dedup}
use docplane.Base.Sorting.{sort}
use docplane.Base.Dict.{Dict, keys, lookup, insert, remove}
use docplane.Http.{Result, ok, raise, refuse_if, ◌>>=◌, ◌>>◌}
use docplane.Publication.Types.{
  ℤ, pos, negsuc, Page, VerificationState, verified, outdated, Candidate, Evaluation,
}
use docplane.Publication.Candidate.{page_of, path_valid}

pub record PageVersion : Type 0 where
  pub change_id : String
  pub page : Page

pub record PageVerification : Type 0 where
  pub page_resource_id : String
  pub verification_state : VerificationState

pub record Tables : Type 0 where
  pub pages : List Page
  pub page_versions : List PageVersion
  pub page_verifications : List PageVerification
  pub redirects : Dict String
  pub sections : Dict ℕ

-- `btrim(s) <> ''`, which trims spaces only
unfoldable pub only_spaces : String → Bool
only_spaces String.[] = true
only_spaces (String.◌∷◌ c s) = eqb (code c) 32 && only_spaces s

abbrev pub not_negative : ℤ → Bool
not_negative (pos n) = true
not_negative (negsuc n) = false

-- The checks of docs.pages on a row.
unfoldable pub row_allowed : Page → Bool
unfolding path_valid only_spaces
row_allowed p =
    path_valid p.path
    && not (only_spaces p.title)
    && not (only_spaces p.nav_path)
    && not (only_spaces p.content)
    && not_negative p.nav_order

-- Another row has the path.
unfoldable pub path_clash : Page → List Page → Bool
path_clash q [] = false
path_clash q (p ∷ ps) =
    (not (p.resource_id == q.resource_id) && p.path == q.path) || path_clash q ps

-- `_snapshot_page`: ON CONFLICT (resource_id, revision) DO NOTHING
unfoldable pub snapshot_page : String → Page → List PageVersion → List PageVersion
unfolding any
snapshot_page change_id p versions =
    if any (λ v. v.page.resource_id == p.resource_id && v.page.revision == p.revision) versions
    then versions
    else versions ++ record { change_id = change_id; page = p } ∷ []

abbrev pub is_verified : VerificationState → Bool
is_verified verified = true
is_verified _ = false

unfoldable pub outdate : String → List PageVerification → List PageVerification
outdate rid [] = []
outdate rid (v ∷ vs) =
    (if v.page_resource_id == rid && is_verified v.verification_state
      then record v { verification_state = outdated }
      else v)
    ∷ outdate rid vs

-- The rows that an UPDATE … WHERE resource_id = … AND revision = … meets, and the table behind it.
unfoldable pub rows_met : String → String → List Page → ℕ
rows_met rid revision [] = 0
rows_met rid revision (p ∷ ps) =
    (if p.resource_id == rid && p.revision == revision then 1 else 0) + rows_met rid revision ps

unfoldable pub update_rows : String → String → Page → List Page → List Page
update_rows rid revision q [] = []
update_rows rid revision q (p ∷ ps) =
    (if p.resource_id == rid && p.revision == revision then q else p)
    ∷ update_rows rid revision q ps

module _ (change_id display_name : String) (now : ℕ) (fresh_revision : String → String) where
  -- The row of a page that the change creates. Its provenance is the column's default.
  abbrev pub inserted_row : Page → Page
  inserted_row page = record page {
    version = 1;
    updated_at = now;
    updated_by = display_name;
    provenance = some "AUTHORED";
  }

  -- The row of a page that the change has touched. An UPDATE leaves the provenance as it is.
  abbrev pub updated_row : Page → Page → Page
  updated_row previous page =
      let was_verified = is_verified previous.verification_state in
      record page {
        revision = fresh_revision page.resource_id;
        version = suc previous.version;
        verification_state = if was_verified then outdated else page.verification_state;
        review_due_at = if was_verified then some now else page.review_due_at;
        updated_at = now;
        updated_by = display_name;
        provenance = previous.provenance;
      }

  unfoldable pub insert_page : Page → Tables → Result Tables
  unfolding page_of path_clash row_allowed
  insert_page page t =
      refuse_if (is_some (page_of page.resource_id t.pages)) 500 "UniqueViolation"
      >> (refuse_if (path_clash page t.pages) 500 "UniqueViolation"
          >> (refuse_if (not (row_allowed page)) 500 "CheckViolation"
              >> ok (record t { pages = t.pages ++ inserted_row page ∷ [] })))

  unfoldable pub update_page : Page → Page → Tables → Result Tables
  unfolding path_clash row_allowed snapshot_page outdate rows_met update_rows
  update_page previous page t =
      let rid = page.resource_id in
      let row = updated_row previous page in
      refuse_if (not (eqb (rows_met rid previous.revision t.pages) 1)) 409 "PAGE_REVISION_RACE"
      >> (refuse_if (path_clash row t.pages) 500 "UniqueViolation"
          >> (refuse_if (not (row_allowed row)) 500 "CheckViolation"
              >> ok (record t {
                pages = update_rows rid previous.revision row t.pages;
                page_versions = snapshot_page change_id previous t.page_versions;
                page_verifications =
                    if is_verified previous.verification_state
                    then outdate rid t.page_verifications
                    else t.page_verifications;
              })))

  -- One turn of the loop over the touched pages.
  unfoldable pub publish_page : List Page → Candidate → String → Tables → Result Tables
  unfolding page_of insert_page update_page mem
  publish_page original candidate rid t = elim (page_of rid candidate.pages) [
    | none ↦ raise 500 "KeyError"
    | some page ↦
        if mem rid candidate.created then insert_page page t else elim (page_of rid original) [
          | none ↦ raise 500 "KeyError"
          | some previous ↦ update_page previous page t
        ]
  ]

  unfoldable pub publish_pages : List Page → Candidate → List String → Tables → Result Tables
  unfolding publish_page
  publish_pages original candidate [] t = ok t
  publish_pages original candidate (rid ∷ rids) t =
      publish_page original candidate rid t >>= publish_pages original candidate rids

-- `set(original) - set(redirects)`, deleted one after the other.
unfoldable pub delete_redirects : List String → Dict String → Dict String → Dict String
unfolding mem remove
delete_redirects [] wanted rows = rows
delete_redirects (source ∷ sources) wanted rows =
    delete_redirects sources wanted (if mem source (keys wanted) then rows else remove source rows)

abbrev pub same_target : Option String → String → Bool
same_target none target = false
same_target (some t) target = t == target

-- INSERT … ON CONFLICT (from_path) DO UPDATE, for the redirects that are new or lead elsewhere.
unfoldable pub upsert_redirects : Dict String → Dict String → Dict String → Dict String
unfolding lookup insert
upsert_redirects original [] rows = rows
upsert_redirects original ((source, target) ∷ wanted) rows =
    upsert_redirects original wanted
      (if same_target (lookup source original) target then rows else insert source target rows)

unfoldable pub publish_redirects : Dict String → Dict String → Dict String → Dict String
unfolding delete_redirects upsert_redirects
publish_redirects original wanted rows =
    upsert_redirects original wanted (delete_redirects (keys original) wanted rows)

unfoldable pub ends_in_space : String → Bool
ends_in_space String.[] = false
ends_in_space (String.◌∷◌ c s) = let rest = ends_in_space s in (String.◌∷◌ c s == " ") || rest

-- The checks of docs.sections on a name.
unfoldable pub section_allowed : String → Bool
unfolding begins ends_in_space find
section_allowed name =
    not (name == "")
    && not (name == "Home")
    && not (begins " " name)
    && not (ends_in_space name)
    && not (is_some (find "/" name))

-- The checks of docs.redirects on the rows.
unfoldable pub redirects_allowed : Dict String → Bool
unfolding path_valid
redirects_allowed [] = true
redirects_allowed ((source, target) ∷ redirects) =
    path_valid source && path_valid target && not (source == target) && redirects_allowed redirects

module _ (change_id display_name : String) (now : ℕ) (fresh_revision : String → String) where
  -- The writes to the corpus: pages in the order of their ids, then redirects and sections. Entries
  -- that the change leaves as they are passed the checks of their tables before.
  unfoldable pub publish_corpus : Evaluation → Tables → Result Tables
  unfolding publish_pages publish_redirects redirects_allowed section_allowed all dedup
  publish_corpus e t =
      publish_pages change_id display_name now fresh_revision t.pages e.candidate
        (sort (dedup e.candidate.touched)) t
      >>= λ written.
          refuse_if
            (not (
              redirects_allowed e.candidate.redirects
              && all section_allowed (keys e.candidate.sections)))
            500 "CheckViolation"
          >> ok (record written {
            redirects = publish_redirects t.redirects e.candidate.redirects written.redirects;
            sections = e.candidate.sections;
          })
