-- ===== src/Ownership/Rows.antt =====
-- The rows of model.artifact_targets under the statements of docs-api/app/artifact_ownership.py.
use docplane.Base.{
  String, ◌≡◌, refl, sym, ap, ◌∙◌, Bool, true, false, not, ◌&&◌, ◌||◌, Option, none, some, List, [],
  ◌∷◌, ◌++◌, ◌==◌, eq_iff, if◌then◌else◌, is_some, arith,
}
use docplane.Base.Lists.{keep}
use docplane.Base.Sets.{mem, distinct}
use docplane.Ownership.{
  Target, owned_by, pages_of, conflicts, delete_targets, insert_targets, transfer_targets,
}

-- The artifact that owns a page.
unfoldable pub owner : String → List Target → Option String
owner page [] = none
owner page (t ∷ ts) = if t.page_resource_id == page then some t.artifact_id else owner page ts

abbrev pub is_owner : String → Option String → Bool
is_owner id none = false
is_owner id (some a) = a == id

owner-pages_of :
    (page : String) (ts : List Target) → mem page (pages_of ts) ≡ is_some (owner page ts)
unfolding mem owner
owner-pages_of page [] = refl
owner-pages_of page (t ∷ ts) = ground (arith, owner-pages_of page ts)

-- With a row for each page at most, an artifact's pages are those that it owns.
pub mem-owned_by :
    (id page : String) (ts : List Target)
    → distinct (pages_of ts) ≡ true
    → mem page (owned_by id ts) ≡ is_owner id (owner page ts)
unfolding mem owner owned_by distinct
mem-owned_by id page [] d = refl
mem-owned_by id page (t ∷ ts) d =
    ground (arith, mem-owned_by id page ts, owner-pages_of page ts, eq_iff t.page_resource_id page)

pub conflicts-owner :
    (id page : String) (desired : List String) (ts : List Target)
    → conflicts id desired ts ≡ false
    → mem page desired ≡ true
    → (is_some (owner page ts) && not (is_owner id (owner page ts))) ≡ false
unfolding conflicts owner
conflicts-owner id page desired [] h m = refl
conflicts-owner id page desired (t ∷ ts) h m = ground (
  arith,
  conflicts-owner id page desired ts,
  eq_iff t.page_resource_id page,
  ap (λ i. mem i desired) {x = t.page_resource_id} {y = page},
)

mem-pages_of-delete :
    (id : String) (removed : List String) (page : String) (ts : List Target)
    → mem page (pages_of ts) ≡ false
    → mem page (pages_of (delete_targets id removed ts)) ≡ false
unfolding delete_targets keep mem
mem-pages_of-delete id removed page [] h = refl
mem-pages_of-delete id removed page (t ∷ ts) h =
    ground (arith, mem-pages_of-delete id removed page ts)

pub distinct-delete :
    (id : String) (removed : List String) (ts : List Target)
    → distinct (pages_of ts) ≡ true
    → distinct (pages_of (delete_targets id removed ts)) ≡ true
unfolding delete_targets keep distinct
distinct-delete id removed [] d = refl
distinct-delete id removed (t ∷ ts) d =
    ground
      (arith, distinct-delete id removed ts, mem-pages_of-delete id removed t.page_resource_id ts)

pub owner-delete :
    (id : String) (removed : List String) (page : String) (ts : List Target)
    → distinct (pages_of ts) ≡ true
    → owner page (delete_targets id removed ts)
      ≡ (if is_owner id (owner page ts) && mem page removed then none else owner page ts)
unfolding delete_targets keep owner distinct
owner-delete id removed page [] d = refl
owner-delete id removed page (t ∷ ts) d = ground (
  arith,
  owner-delete id removed page ts,
  owner-pages_of page ts,
  eq_iff t.page_resource_id page,
  ap (λ i. mem i removed) {x = t.page_resource_id} {y = page},
)

pub pages_of-transfer :
    (a b : String) (continuing : List String) (ts : List Target)
    → pages_of (transfer_targets a b continuing ts) ≡ pages_of ts
unfolding transfer_targets
pages_of-transfer a b continuing [] = refl
pages_of-transfer a b continuing (t ∷ ts) = ground (arith, pages_of-transfer a b continuing ts)

pub owner-transfer :
    (a b : String) (continuing : List String) (page : String) (ts : List Target)
    → owner page (transfer_targets a b continuing ts)
      ≡ (if is_owner a (owner page ts) && mem page continuing then some b else owner page ts)
unfolding transfer_targets owner
owner-transfer a b continuing page [] = refl
owner-transfer a b continuing page (t ∷ ts) = ground (
  arith,
  owner-transfer a b continuing page ts,
  eq_iff t.page_resource_id page,
  ap (λ i. mem i continuing) {x = t.page_resource_id} {y = page},
)

owner-append :
    (page : String) (ts : List Target) (t : Target)
    → owner page (ts ++ t ∷ []) ≡ (
        if is_some (owner page ts)
        then owner page ts
        else if t.page_resource_id == page
        then some t.artifact_id
        else none)
unfolding owner
owner-append page [] t = ground arith
owner-append page (x ∷ ts) t = ground (arith, owner-append page ts t)

mem-pages_of-append :
    (page : String) (ts : List Target) (t : Target)
    → mem page (pages_of (ts ++ t ∷ [])) ≡ (mem page (pages_of ts) || t.page_resource_id == page)
unfolding mem
mem-pages_of-append page [] t = ground arith
mem-pages_of-append page (x ∷ ts) t = ground (arith, mem-pages_of-append page ts t)

distinct-pages_of-append :
    (ts : List Target) (t : Target)
    → distinct (pages_of ts) ≡ true
    → mem t.page_resource_id (pages_of ts) ≡ false
    → distinct (pages_of (ts ++ t ∷ [])) ≡ true
unfolding distinct mem
distinct-pages_of-append [] t d m = refl
distinct-pages_of-append (x ∷ ts) t d m = ground (
  arith,
  distinct-pages_of-append ts t,
  mem-pages_of-append x.page_resource_id ts t,
  eq_iff t.page_resource_id x.page_resource_id,
  eq_iff x.page_resource_id t.page_resource_id,
)

inserted_first :
    (id first page : String) (pages : List String) (ts : List Target) (behind : Option String)
    → mem first (pages_of ts) ≡ false
    → behind
      ≡ (if is_some (owner page ts) then owner page ts else if first == page then some id else none)
    → (if mem page pages then some id else behind)
      ≡ (if mem page (first ∷ pages) then some id else owner page ts)
unfolding mem
inserted_first id first page pages ts behind n h = ground (
  arith,
  owner-pages_of page ts,
  eq_iff first page,
  ap (λ i. mem i (pages_of ts)) {x = first} {y = page},
)

pub insert_targets-owner :
    (id : String) (pages : List String) (ts ts' : List Target)
    → insert_targets id pages ts ≡ some ts'
    → distinct (pages_of ts) ≡ true
    → (distinct (pages_of ts') ≡ true)
      × ((page : String) → owner page ts' ≡ (if mem page pages then some id else owner page ts))
unfolding insert_targets
insert_targets-owner id [] ts ts' h d =
    let same : ts ≡ ts' = ground arith in
    (ap (λ x. distinct (pages_of x)) (sym same) ∙ d, λ page. ap (owner page) (sym same))
insert_targets-owner id (first ∷ pages) ts ts' h d =
    let row : Target = record { artifact_id = id; page_resource_id = first } in
    let new : mem first (pages_of ts) ≡ false = ground arith in
    let later =
      insert_targets-owner id pages (ts ++ row ∷ []) ts' (ground arith)
        (distinct-pages_of-append ts row d new) in
    (
      later.0,
      λ page.
          later.1 page
          ∙ inserted_first id first page pages ts (owner page (ts ++ row ∷ [])) new
              (owner-append page ts row),
    )
