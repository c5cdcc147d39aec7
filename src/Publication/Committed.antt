-- ===== src/Publication/Committed.antt =====
-- What a publication commits, against the corpus that its evaluation made.
use docplane.Base.{
  ℕ, String, ◌≡◌, refl, sym, ap, ◌∙◌, true, false, not, ◌&&◌, Option, none, some, List, [], ◌∷◌,
  arith, eq_iff, if◌then◌else◌, is_some, Bool-cases, inl, inr,
}
use docplane.Base.Lists.{all}
use docplane.Base.Sets.{mem, dedup, distinct, mem-dedup, distinct-dedup}
use docplane.Base.Sorting.{sort, mem-sort, distinct-sort}
use docplane.Base.Dict.{Dict, keys, lookup, insert, remove, lookup-insert, lookup-remove, mem-keys}
use docplane.Http.{ok, >>=-eq-ok, refuse_if-eq-ok}
use docplane.Publication.Types.{Page, Operation, Candidate, Env}
use docplane.Publication.Candidate.{page_of}
use docplane.Publication.Evaluate.{Corpus, evaluate_change}
use docplane.Publication.Frame.{evaluate_change-touched}
use docplane.Publication.Publish.{
  Tables, publish_pages, delete_redirects, upsert_redirects, publish_redirects, publish_corpus,
  same_target, redirects_allowed, section_allowed,
}
use docplane.Publication.UpdatedRows.{ids}
use docplane.Publication.Written.{row_of, publish_pages-row_of, publish_pages-redirects}

lookup-delete_redirects :
    (k : String) (sources : List String) (wanted rows : Dict String)
    → lookup k (delete_redirects sources wanted rows)
      ≡ (if mem k sources && not (mem k (keys wanted)) then none else lookup k rows)
unfolding delete_redirects mem
lookup-delete_redirects k [] wanted rows = refl
lookup-delete_redirects k (source ∷ sources) wanted rows = ground (
  arith,
  lookup-delete_redirects k sources wanted rows,
  lookup-delete_redirects k sources wanted (remove source rows),
  lookup-remove source k rows,
  eq_iff source k,
)

same_target-some :
    (o : Option String) (target : String) → same_target o target ≡ true → o ≡ some target
same_target-some none target h = ground arith
same_target-some (some t) target h = ground (arith, eq_iff t target)

-- The rows agree with the redirects of before at every key that is wanted.
abbrev Agree : Dict String → Dict String → Dict String → Type 0
Agree wanted rows original =
    (j : String) → mem j (keys wanted) ≡ true → lookup j rows ≡ lookup j original

Agree-insert :
    (source target : String) (wanted rows original : Dict String)
    → mem source (keys wanted) ≡ false
    → Agree ((source, target) ∷ wanted) rows original
    → Agree wanted (insert source target rows) original
unfolding mem
Agree-insert source target wanted rows original n h j k = ground (
  arith,
  lookup-insert source j target rows,
  h j (ground arith),
  eq_iff source j,
  ap (λ i. mem i (keys wanted)) {x = source} {y = j},
)

lookup-upsert_redirects :
    (k : String) (original wanted rows : Dict String)
    → distinct (keys wanted) ≡ true
    → Agree wanted rows original
    → lookup k (upsert_redirects original wanted rows)
      ≡ (if is_some (lookup k wanted) then lookup k wanted else lookup k rows)
unfolding upsert_redirects lookup distinct
lookup-upsert_redirects k original [] rows d h = refl
lookup-upsert_redirects k original ((source, target) ∷ wanted) rows d h =
    let new : mem source (keys wanted) ≡ false = ground arith in
    let later : distinct (keys wanted) ≡ true = ground arith in
    let gone : lookup source wanted ≡ none = ground (arith, mem-keys source wanted) in
    elim (Bool-cases (same_target (lookup source original) target)) [
      | inl e ↦ ground (
        arith,
        lookup-upsert_redirects k original wanted rows later (λ j m. h j (ground (arith, mem))),
        same_target-some (lookup source original) target e,
        h source (ground (arith, mem, eq_iff source source)),
        eq_iff source k,
        ap (λ i. lookup i rows) {x = source} {y = k},
        ap (λ i. lookup i wanted) {x = source} {y = k},
      )
      | inr e ↦ ground (
        arith,
        lookup-upsert_redirects k original wanted (insert source target rows) later
            (Agree-insert source target wanted rows original new h),
        lookup-insert source k target rows,
        eq_iff source k,
        ap (λ i. lookup i wanted) {x = source} {y = k},
      )
    ]

lookup-publish_redirects :
    (k : String) (original wanted : Dict String)
    → distinct (keys wanted) ≡ true
    → lookup k (publish_redirects original wanted original) ≡ lookup k wanted
unfolding publish_redirects
lookup-publish_redirects k original wanted d = ground (
  arith,
  lookup-upsert_redirects k original wanted (delete_redirects (keys original) wanted original) d
      (λ j m. ground (arith, lookup-delete_redirects j (keys original) wanted original)),
  lookup-delete_redirects k (keys original) wanted original,
  mem-keys k original,
  mem-keys k wanted,
)

-- The corpus that the tables hold.
abbrev pub corpus_of : Tables → Corpus
corpus_of t = record { pages = t.pages; redirects = t.redirects; sections = t.sections }

row_or_page :
    (rid : String) (c : Candidate) (touched : List String) (row before : Option Page)
    → mem rid touched ≡ mem rid c.touched
    → (mem rid c.touched ≡ false → page_of rid c.pages ≡ before)
    → (if mem rid touched then row else before)
      ≡ (if mem rid c.touched then row else page_of rid c.pages)
row_or_page rid c touched row before m f = elim (Bool-cases (mem rid c.touched)) [
  | inl e ↦ ground (arith, m)
  | inr e ↦ ground (arith, m, f e)
]

-- A publication that is not rolled back commits the corpus that its evaluation made: under the id of
-- a touched page stands the row made from the candidate's page, under every other id the candidate's
-- page itself, which is the row of before; each source leads where the candidate's redirects say, and
-- the sections are the candidate's. The ids of docs.pages are unique, and the redirects of the
-- candidate, a dict, hold each source once.
pub publish_corpus-candidate :
    (change_id display_name : String) (now : ℕ) (fresh_revision : String → String) (env : Env)
    (operations : List Operation) (t t' : Tables)
    → let e = evaluate_change env operations (corpus_of t) in
      publish_corpus change_id display_name now fresh_revision e t ≡ ok t'
      → distinct (ids t.pages) ≡ true
      → distinct (keys e.candidate.redirects) ≡ true
      → ((rid : String)
          → page_of rid t'.pages ≡ (
              if mem rid e.candidate.touched
              then row_of change_id display_name now fresh_revision t.pages e.candidate rid
              else page_of rid e.candidate.pages))
        × ((source : String) → lookup source t'.redirects ≡ lookup source e.candidate.redirects)
        × (t'.sections ≡ e.candidate.sections)
unfolding publish_corpus
publish_corpus-candidate change_id display_name now fresh_revision env operations t t' h d r =
    let c = (evaluate_change env operations (corpus_of t)).candidate in
    let touched = sort (dedup c.touched) in
    let pages =
      >>=-eq-ok (publish_pages change_id display_name now fresh_revision t.pages c touched t) _ h in
    let committed = record pages.0 {
      redirects = publish_redirects t.redirects c.redirects pages.0.redirects;
      sections = c.sections;
    } in
    let allowed =
      refuse_if-eq-ok (not (redirects_allowed c.redirects && all section_allowed (keys c.sections)))
        500 "CheckViolation" (ok committed) pages.2 in
    let once : distinct touched ≡ true =
      distinct-sort (dedup c.touched) ∙ distinct-dedup c.touched in
    let rows =
      publish_pages-row_of change_id display_name now fresh_revision t.pages c touched t pages.0
        pages.1 once d in
    let same : pages.0.redirects ≡ t.redirects =
      publish_pages-redirects change_id display_name now fresh_revision t.pages c touched t pages.0
        pages.1 in
    let redirects : publish_redirects t.redirects c.redirects pages.0.redirects ≡ t'.redirects =
      ground (arith, allowed.1) in
    let sections : c.sections ≡ t'.sections = ground (arith, allowed.1) in
    let written : pages.0.pages ≡ t'.pages = ground (arith, allowed.1) in
    (
      λ rid.
          ap (page_of rid) (sym written)
          ∙ (rows rid).0
          ∙ row_or_page rid c touched
              (row_of change_id display_name now fresh_revision t.pages c rid) (page_of rid t.pages)
              (mem-sort rid (dedup c.touched) ∙ mem-dedup rid c.touched)
              (evaluate_change-touched env operations (corpus_of t) rid),
      λ source.
          ap (lookup source) (sym redirects ∙ ap (publish_redirects t.redirects c.redirects) same)
          ∙ lookup-publish_redirects source t.redirects c.redirects r,
      sym sections,
    )
