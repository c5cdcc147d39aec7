-- ===== src/Publication/UpdatedRows.antt =====
-- The UPDATE of a page, on tables that hold each id once.
use docplane.Base.{
  ◌≤◌, String, ◌≡◌, refl, true, false, ◌||◌, some, List, [], ◌∷◌, ◌++◌, map, arith, ◌==◌, eq_iff,
  is_some,
}
use docplane.Base.Sets.{mem, distinct}
use docplane.Publication.Types.{Page}
use docplane.Publication.Candidate.{page_of}
use docplane.Publication.Publish.{rows_met, update_rows}

abbrev pub ids : List Page → List String
ids ps = map (λ p. p.resource_id) ps

pub mem-ids : (rid : String) (ps : List Page) → mem rid (ids ps) ≡ is_some (page_of rid ps)
unfolding mem page_of
mem-ids rid [] = refl
mem-ids rid (p ∷ ps) = ground (arith, mem-ids rid ps)

pub ids-update_rows :
    (rid revision : String) (q : Page) (ps : List Page)
    → q.resource_id ≡ rid
    → ids (update_rows rid revision q ps) ≡ ids ps
unfolding update_rows
ids-update_rows rid revision q [] h = refl
ids-update_rows rid revision q (p ∷ ps) h =
    ground (arith, ids-update_rows rid revision q ps h, eq_iff p.resource_id rid)

pub update_rows_other :
    (rid revision other : String) (q : Page) (ps : List Page)
    → q.resource_id ≡ rid
    → (rid == other) ≡ false
    → page_of other (update_rows rid revision q ps) ≡ page_of other ps
unfolding update_rows page_of
update_rows_other rid revision other q [] h k = refl
update_rows_other rid revision other q (p ∷ ps) h k =
    ground (arith, update_rows_other rid revision other q ps h k, eq_iff p.resource_id rid)

-- With each id once, an UPDATE that meets a row writes the page of that id.
pub update_rows_same :
    (rid revision : String) (q : Page) (ps : List Page)
    → q.resource_id ≡ rid
    → distinct (ids ps) ≡ true
    → 1 ≤ rows_met rid revision ps
    → page_of rid (update_rows rid revision q ps) ≡ some q
unfolding update_rows page_of rows_met distinct
update_rows_same rid revision q [] h d k = ground arith
update_rows_same rid revision q (p ∷ ps) h d k = ground (
  arith,
  update_rows_same rid revision q ps h,
  ids-update_rows rid revision q ps h,
  mem-ids rid (update_rows rid revision q ps),
  eq_iff p.resource_id rid,
  eq_iff q.resource_id rid,
)

mem-ids-append :
    (rid : String) (ps : List Page) (p : Page)
    → mem rid (ids (ps ++ p ∷ [])) ≡ (mem rid (ids ps) || p.resource_id == rid)
unfolding mem
mem-ids-append rid [] p = ground arith
mem-ids-append rid (x ∷ ps) p = ground (arith, mem-ids-append rid ps p)

pub distinct-ids-append :
    (ps : List Page) (p : Page)
    → distinct (ids ps) ≡ true
    → mem p.resource_id (ids ps) ≡ false
    → distinct (ids (ps ++ p ∷ [])) ≡ true
unfolding distinct mem
distinct-ids-append [] p d h = refl
distinct-ids-append (x ∷ ps) p d h = ground (
  arith,
  distinct-ids-append ps p,
  mem-ids-append x.resource_id ps p,
  eq_iff x.resource_id p.resource_id,
  eq_iff p.resource_id x.resource_id,
)
