-- ===== src/Ownership/Owned.antt =====
-- Who owns a page after a mutation of docs-api/app/artifact_ownership.py.
use docplane.Base.{
  ℕ, String, ◌≡◌, refl, sym, ap, ◌∙◌, Bool, true, false, not, ◌&&◌, ◌||◌, Option, none, some, List,
  [], ◌∷◌, ◌==◌, eq_iff, if◌then◌else◌, is_some, leb, subst, arith,
}
use docplane.Base.Lists.{nonempty}
use docplane.Base.Sets.{mem, dedup, difference, distinct, mem-keep}
use docplane.Base.Sorting.{sort, mem-sort}
use docplane.Http.{ok, >>=-eq-ok, refuse_if-eq-ok, ok-eq}
use docplane.Ownership.{
  Target, Db, Successor, Moved, load_artifact, owned_by, pages_of, conflicts, target_ids,
  validate_custody, validate_pages, validate_target_paths, delete_targets, insert_targets,
  transfer_targets, validate_conflicts,
}
use docplane.Ownership.Targets.{
  with_rows, same_texts, intersection, check_targets, reconcile_targets, handoff_targets,
}
use docplane.Ownership.Rows.{
  owner, is_owner, mem-owned_by, conflicts-owner, distinct-delete, owner-delete, pages_of-transfer,
  owner-transfer, insert_targets-owner,
}

-- Who owns a page when an artifact's pages are settled: the wanted ones go to `new`, the others that
-- the artifact had have no owner, and the rest stay where they were.
abbrev pub settled : String → String → List String → String → Option String → Option String
settled id new desired page before =
    if mem page desired then some new else if is_owner id before then none else before

-- What a mutation leaves: a row for each page at most, and the owners settled.
abbrev pub Settles : String → String → List String → List Target → List Target → Type 0
Settles id new desired ts ts' =
    (distinct (pages_of ts') ≡ true)
    × ((page : String) → owner page ts' ≡ settled id new desired page (owner page ts))

no_member : (page : String) (xs : List String) → xs ≡ [] → mem page xs ≡ false
unfolding mem
no_member page [] h = refl
no_member page (x ∷ xs) h = ground arith

unchanged_page :
    (id : String) (wanted had : Bool) (before : Option String)
    → had ≡ is_owner id before
    → (wanted ≡ true → (is_some before && not (is_owner id before)) ≡ false)
    → (not wanted && had) ≡ false
    → (not had && wanted) ≡ false
    → before ≡ (if wanted then some id else if is_owner id before then none else before)
unchanged_page id wanted had none k c r a = ground arith
unchanged_page id wanted had (some o) k c r a = ground (arith, eq_iff o id)

written_page :
    (id new : String) (wanted had stays goes comes : Bool) (before moved kept after : Option String)
    → had ≡ is_owner id before
    → (wanted ≡ true → (is_some before && not (is_owner id before)) ≡ false)
    → stays ≡ (wanted && had)
    → goes ≡ (not wanted && had)
    → comes ≡ (not had && wanted)
    → moved ≡ (if is_owner id before && stays then some new else before)
    → kept ≡ (if is_owner id moved && goes then none else moved)
    → after ≡ (if comes then some new else kept)
    → after ≡ (if wanted then some new else if is_owner id before then none else before)
written_page id new wanted had stays goes comes none moved kept after k c s g m h d i = ground arith
written_page id new wanted had stays goes comes (some o) moved kept after k c s g m h d i =
    ground (arith, eq_iff o id)

module _ (id new : String) (desired current : List String) (ts ts' : List Target)
    (once : distinct (pages_of ts) ≡ true) (apart : conflicts id desired ts ≡ false)
    (known : (page : String) → mem page current ≡ is_owner id (owner page ts)) where
  -- Nothing to remove and nothing to add: the wanted pages are those of the artifact.
  unchanged-Settles :
      difference current desired ≡ []
      → difference desired current ≡ []
      → (page : String) → owner page ts ≡ settled id id desired page (owner page ts)
  unchanged-Settles r a page =
      unchanged_page id (mem page desired) (mem page current) (owner page ts) (known page)
        (conflicts-owner id page desired ts apart)
        (sym (mem-keep (λ x. not (mem x desired)) page current) ∙ no_member page _ r)
        (sym (mem-keep (λ x. not (mem x current)) page desired) ∙ no_member page _ a)

  -- `moved` are the rows after the pages that continue have changed hands.
  written-Settles :
      (moved : List Target)
      → distinct (pages_of moved) ≡ true
      → ((page : String)
          → owner page moved ≡ (
              if is_owner id (owner page ts) && mem page (intersection current desired)
              then some new
              else owner page ts))
      → insert_targets new
          (sort (difference desired current))
          (delete_targets id (difference current desired) moved)
        ≡ some ts'
      → Settles id new desired ts ts'
  written-Settles moved single hands h =
      let removed = difference current desired in
      let inserted =
        insert_targets-owner new (sort (difference desired current))
          (delete_targets id removed moved) ts' h (distinct-delete id removed moved single) in
      (
        inserted.0,
        λ page.
            written_page id new (mem page desired) (mem page current)
              (mem page (intersection current desired)) (mem page removed)
              (mem page (sort (difference desired current))) (owner page ts) (owner page moved)
              (owner page (delete_targets id removed moved)) (owner page ts') (known page)
              (conflicts-owner id page desired ts apart)
              (mem-keep (λ x. mem x desired) page current)
              (mem-keep (λ x. not (mem x desired)) page current)
              (mem-sort page (difference desired current)
                ∙ mem-keep (λ x. not (mem x current)) page desired)
              (hands page) (owner-delete id removed page moved single) (inserted.1 page),
      )

check_targets-apart :
    (db : Db) (id : String) (desired paths removed : List String)
    → check_targets db id desired paths removed ≡ ok tt
    → conflicts id (dedup desired) db.targets ≡ false
unfolding check_targets validate_conflicts
check_targets-apart db id desired paths removed h =
    let found = >>=-eq-ok (validate_pages db (dedup desired)) _ h in
    let placed = >>=-eq-ok (validate_target_paths db desired paths) _ found.2 in
    (refuse_if-eq-ok (conflicts id (dedup desired) db.targets) _ _ _ placed.2).0

target_ids-owner :
    (db : Db) (id page : String)
    → distinct (pages_of db.targets) ≡ true
    → mem page (target_ids db id) ≡ is_owner id (owner page db.targets)
unfolding target_ids
target_ids-owner db id page d =
    mem-sort page (owned_by id db.targets) ∙ mem-owned_by id page db.targets d

rows_answer :
    (o : Option (List Target)) (status : ℕ) (code : String) (answer : List Target → Moved × Db)
    (m : Moved) (db' : Db)
    → with_rows o status code (λ ts. ok (answer ts)) ≡ ok (m, db')
    → (ts : List Target) × (o ≡ some ts) × ((answer ts).1 ≡ db')
rows_answer none status code answer m db' h = cc
rows_answer (some ts) status code answer m db' h =
    (ts, refl, ap (λ (r : Moved × Db). r.1) (ok-eq h))

no_nonempty : {A : Type 0} (xs : List A) → nonempty xs ≡ false → xs ≡ []
no_nonempty [] h = refl
no_nonempty (x ∷ xs) h = ground arith

owner_same :
    (id : String) (stays : Bool) (before : Option String)
    → before ≡ (if is_owner id before && stays then some id else before)
owner_same id stays none = refl
owner_same id stays (some o) = ground (arith, eq_iff o id)

-- The end of `reconcile_targets`: it has nothing to do, or it writes.
reconciled_end :
    (db db' : Db) (m m0 : Moved) (id : String) (desired : List String) (same : Bool) (status : ℕ)
    (code : String) (answer : List Target → Moved × Db)
    → distinct (pages_of db.targets) ≡ true
    → conflicts id desired db.targets ≡ false
    → ((ts : List Target) → (answer ts).1.targets ≡ ts)
    → (same ≡ true
        → (difference (target_ids db id) desired ≡ [])
          × (difference desired (target_ids db id) ≡ []))
    → (if same
        then ok (m0, db)
        else with_rows
            (insert_targets id
              (sort (difference desired (target_ids db id)))
              (delete_targets id (difference (target_ids db id) desired) db.targets))
            status
            code
            (λ ts. ok (answer ts)))
      ≡ ok (m, db')
    → Settles id id desired db.targets db'.targets
reconciled_end db db' m m0 id desired true status code answer d apart keeps empty h =
    let unchanged = empty refl in
    let same : db.targets ≡ db'.targets = ap (λ (r : Moved × Db). r.1.targets) (ok-eq h) in
    (
      ap (λ ts. distinct (pages_of ts)) (sym same) ∙ d,
      λ page.
          ap (owner page) (sym same)
          ∙ unchanged-Settles id id desired (target_ids db id) db.targets db.targets d apart
              (λ p. target_ids-owner db id p d) unchanged.0 unchanged.1 page,
    )
reconciled_end db db' m m0 id desired false status code answer d apart keeps empty h =
    let rows = rows_answer _ status code answer m db' h in
    subst (Settles id id desired db.targets)
      (sym (keeps rows.0) ∙ ap (λ (x : Db). x.targets) rows.2)
      (written-Settles id id desired (target_ids db id) db.targets rows.0 d apart
        (λ p. target_ids-owner db id p d) db.targets d
        (λ page.
          owner_same id (mem page (intersection (target_ids db id) desired))
            (owner page db.targets))
        rows.1)

-- `reconcile_targets` keeps a row for each page at most. When it answers, the wanted pages belong to
-- the artifact, pages that it had and that are not wanted belong to none, and the owners of all other
-- pages are as they were, whether or not it says that something changed.
pub reconcile_targets-Settles :
    (db : Db) (artifact_id : String) (expected_version : ℕ)
    (desired_ids desired_paths : List String) (generator_version principal_id : String) (m : Moved)
    (db' : Db)
    → distinct (pages_of db.targets) ≡ true
    → reconcile_targets db artifact_id expected_version desired_ids desired_paths generator_version
        principal_id
      ≡ ok (m, db')
    → Settles artifact_id artifact_id (dedup desired_ids) db.targets db'.targets
unfolding reconcile_targets
reconcile_targets-Settles db id version desired paths generator principal m db' d h =
    let loaded = >>=-eq-ok (load_artifact db id) _ h in
    let custody = >>=-eq-ok (validate_custody loaded.0 principal version) _ loaded.2 in
    let checks =
      >>=-eq-ok (check_targets db id desired paths (difference (target_ids db id) (dedup desired)))
        _ custody.2 in
    let apart =
      check_targets-apart db id desired paths (difference (target_ids db id) (dedup desired))
        checks.1 in
    let removed = difference (target_ids db id) (dedup desired) in
    let added = difference (dedup desired) (target_ids db id) in
    let same =
      not (nonempty removed || nonempty added)
      && same_texts (sort loaded.0.target_page_paths) (sort paths)
      && loaded.0.generator_version == generator in
    reconciled_end db db' m _ id (dedup desired) same 409 "MODEL_ARTIFACT_TARGET_CONFLICT" _ d apart
      (λ ts. refl)
      (λ e. (no_nonempty removed (ground (arith, e)), no_nonempty added (ground (arith, e))))
      checks.2

-- `handoff_targets` keeps a row for each page at most. When it answers, the pages that the successor
-- wants belong to the successor, the predecessor's other pages belong to none, and the owners of all
-- other pages are as they were: a page that continues goes from the one to the other.
pub handoff_targets-Settles :
    (successor_id : String) (now : ℕ) (db : Db) (predecessor_id : String) (expected_version : ℕ)
    (successor : Successor) (principal_id : String) (m : Moved) (db' : Db)
    → distinct (pages_of db.targets) ≡ true
    → handoff_targets successor_id now db predecessor_id expected_version successor principal_id
      ≡ ok (m, db')
    → Settles predecessor_id successor_id
        (dedup successor.target_page_resource_ids)
        db.targets
        db'.targets
unfolding handoff_targets
handoff_targets-Settles new now db id version s principal m db' d h =
    let desired = dedup s.target_page_resource_ids in
    let current = target_ids db id in
    let loaded = >>=-eq-ok (load_artifact db id) _ h in
    let custody = >>=-eq-ok (validate_custody loaded.0 principal version) _ loaded.2 in
    let named = refuse_if-eq-ok (not (s.artifact_key == loaded.0.artifact_key)) _ _ _ custody.2 in
    let newer =
      refuse_if-eq-ok (leb s.projection_contract_version loaded.0.projection_contract_version) _ _ _
        named.1 in
    let checks =
      >>=-eq-ok
        (check_targets db id s.target_page_resource_ids s.target_page_paths
          (difference current desired))
        _ newer.1 in
    let apart =
      check_targets-apart db id s.target_page_resource_ids s.target_page_paths
        (difference current desired) checks.1 in
    let source = refuse_if-eq-ok (not (mem s.source_entity_id db.entity_ids)) _ _ _ checks.2 in
    let moved = transfer_targets id new (intersection current desired) db.targets in
    let rows =
      rows_answer
        (insert_targets new (sort (difference desired current))
          (delete_targets id (difference current desired) moved))
        500 "UniqueViolation" _ m db' source.1 in
    subst (Settles id new desired db.targets) (ap (λ (x : Db). x.targets) rows.2) (
      written-Settles id new desired current db.targets rows.0 d apart
        (λ p. target_ids-owner db id p d) moved
        (ap distinct (pages_of-transfer id new (intersection current desired) db.targets) ∙ d)
        (λ page. owner-transfer id new (intersection current desired) page db.targets) rows.1)
