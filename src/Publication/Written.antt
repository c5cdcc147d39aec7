-- ===== src/Publication/Written.antt =====
-- What the writes of a publication leave in docs.pages.
use docplane.Base.{
  ℕ, String, ◌≡◌, refl, sym, ap, ◌∙◌, true, false, not, ◌&&◌, Option, subst, none, some, List, [],
  ◌∷◌, ◌++◌, arith, ◌==◌, eq_iff, if◌then◌else◌, eqb, is_some, Option-cases, Bool-cases, inl, inr,
}
use docplane.Base.Sets.{mem, distinct, distinct-head, distinct-tail}
use docplane.Http.{ok, >>=-eq-ok, refuse_if-eq-ok}
use docplane.Publication.Types.{Page, Candidate}
use docplane.Publication.Candidate.{page_of}
use docplane.Publication.Frame.{page_of-append}
use docplane.Publication.Guard.{page_of-id}
use docplane.Publication.Publish.{
  Tables, path_clash, row_allowed, rows_met, update_rows, inserted_row, updated_row, insert_page,
  update_page, publish_page, publish_pages,
}
use docplane.Publication.UpdatedRows.{
  ids, mem-ids, ids-update_rows, update_rows_other, update_rows_same, distinct-ids-append,
}

-- The step of the induction over the pages, on what each write leaves.
row_by_row :
    (first rid : String) (rids : List String) (row before : String → Option Page)
    (there here after : Option Page)
    → mem first rids ≡ false
    → (first ≡ rid → there ≡ here)
    → there ≡ row first
    → is_some (row first) ≡ true
    → ((first == rid) ≡ false → here ≡ before rid)
    → after ≡ (if mem rid rids then row rid else here)
    → (mem rid rids && not (is_some (row rid))) ≡ false
    → (after ≡ (if mem rid (first ∷ rids) then row rid else before rid))
      × ((mem rid (first ∷ rids) && not (is_some (row rid))) ≡ false)
unfolding mem
row_by_row first rid rids row before there here after d s w i o l m =
    elim (Bool-cases (first == rid)) [
      | inl e ↦
          let same : first ≡ rid = ground (arith, eq_iff first rid) in
          ground (arith, s same, ap row same, ap (λ k. mem k rids) same)
      | inr e ↦ ground (arith, o e)
    ]

module _ (change_id display_name : String) (now : ℕ) (fresh_revision : String → String) where
  -- The row that a publication leaves under the id of a touched page.
  unfoldable pub row_of : List Page → Candidate → String → Option Page
  unfolding page_of mem
  row_of original c rid = elim (page_of rid c.pages) [
    | none ↦ none
    | some page ↦
        if mem rid c.created
        then some (inserted_row change_id display_name now fresh_revision page)
        else elim (page_of rid original) [
          | none ↦ none
          | some previous ↦
              some (updated_row change_id display_name now fresh_revision previous page)
        ]
  ]

  -- A write of one page: the id keeps being unique, its row is the one above, and no other changes.
  abbrev Wrote : String → Option Page → Tables → Tables → Type 0
  Wrote rid row t t' =
      (is_some row ≡ true)
      × (distinct (ids t.pages) ≡ true → distinct (ids t'.pages) ≡ true)
      × (distinct (ids t.pages) ≡ true → page_of rid t'.pages ≡ row)
      × ((other : String) → (rid == other) ≡ false → page_of other t'.pages ≡ page_of other t.pages)
      × (t'.redirects ≡ t.redirects)

  insert_page-Wrote :
      (page : Page) (t t' : Tables)
      → insert_page change_id display_name now fresh_revision page t ≡ ok t'
      → Wrote page.resource_id
          (some (inserted_row change_id display_name now fresh_revision page))
          t
          t'
  unfolding insert_page
  insert_page-Wrote page t t' h =
      let fresh = refuse_if-eq-ok (is_some (page_of page.resource_id t.pages)) _ _ _ h in
      let free = refuse_if-eq-ok (path_clash page t.pages) _ _ _ fresh.1 in
      let allowed = refuse_if-eq-ok (not (row_allowed page)) _ _ _ free.1 in
      let row = inserted_row change_id display_name now fresh_revision page in
      let after : (t.pages ++ row ∷ []) ≡ t'.pages = ground (arith, allowed.1) in
      (
        refl,
        λ d. ground (
          arith,
          after,
          distinct-ids-append t.pages row d (mem-ids page.resource_id t.pages ∙ fresh.0),
        ),
        λ d. ground (
          arith,
          after,
          page_of-append page.resource_id t.pages row,
          eq_iff page.resource_id page.resource_id,
        ),
        λ other k. ground (arith, after, page_of-append other t.pages row),
        ground (arith, allowed.1),
      )

  update_page-Wrote :
      (previous page : Page) (t t' : Tables)
      → update_page change_id display_name now fresh_revision previous page t ≡ ok t'
      → Wrote page.resource_id
          (some (updated_row change_id display_name now fresh_revision previous page))
          t
          t'
  unfolding update_page
  update_page-Wrote previous page t t' h =
      let row = updated_row change_id display_name now fresh_revision previous page in
      let met =
        refuse_if-eq-ok (not (eqb (rows_met page.resource_id previous.revision t.pages) 1)) _ _ _
          h in
      let free = refuse_if-eq-ok (path_clash row t.pages) _ _ _ met.1 in
      let allowed = refuse_if-eq-ok (not (row_allowed row)) _ _ _ free.1 in
      let after : update_rows page.resource_id previous.revision row t.pages ≡ t'.pages =
        ground (arith, allowed.1) in
      (
        refl,
        λ d.
            ap (λ ps. distinct (ids ps)) (sym after)
            ∙ ap distinct (ids-update_rows page.resource_id previous.revision row t.pages refl)
            ∙ d,
        λ d.
            ap (page_of page.resource_id) (sym after)
            ∙ update_rows_same page.resource_id previous.revision row t.pages refl d
                (ground (arith, met.0)),
        λ other k.
            ap (page_of other) (sym after)
            ∙ update_rows_other page.resource_id previous.revision other row t.pages refl k,
        ground (arith, allowed.1),
      )

  publish_page-Wrote :
      (original : List Page) (c : Candidate) (rid : String) (t t' : Tables)
      → publish_page change_id display_name now fresh_revision original c rid t ≡ ok t'
      → Wrote rid (row_of original c rid) t t'
  unfolding publish_page row_of
  publish_page-Wrote original c rid t t' h = elim (Option-cases (page_of rid c.pages)) [
    | inl e ↦ ground arith
    | inr (page, e) ↦
        let same : page.resource_id ≡ rid =
          ground (arith, page_of-id rid c.pages page e, eq_iff page.resource_id rid) in
        elim (Bool-cases (mem rid c.created)) [
          | inl m ↦
              let row : some (inserted_row change_id display_name now fresh_revision page)
                  ≡ row_of original c rid =
                ground arith in
              subst (λ r. Wrote rid r t t') row
                (subst
                  (λ x.
                    Wrote x (some (inserted_row change_id display_name now fresh_revision page)) t
                      t')
                  same (insert_page-Wrote page t t' (ground arith)))
          | inr m ↦ elim (Option-cases (page_of rid original)) [
            | inl e2 ↦ ground arith
            | inr (previous, e2) ↦
                let row : some (updated_row change_id display_name now fresh_revision previous page)
                    ≡ row_of original c rid =
                  ground arith in
                subst (λ r. Wrote rid r t t') row
                  (subst
                    (λ x.
                      Wrote x
                        (some (updated_row change_id display_name now fresh_revision previous page))
                        t t')
                    same (update_page-Wrote previous page t t' (ground arith)))
          ]
        ]
  ]

  -- Publishing pages of different ids leaves under each its row, and every other page alone.
  pub publish_pages-row_of :
      (original : List Page) (c : Candidate) (rids : List String) (t t' : Tables)
      → publish_pages change_id display_name now fresh_revision original c rids t ≡ ok t'
      → distinct rids ≡ true
      → distinct (ids t.pages) ≡ true
      → (rid : String)
      → (page_of rid t'.pages
          ≡ (if mem rid rids then row_of original c rid else page_of rid t.pages))
        × ((mem rid rids && not (is_some (row_of original c rid))) ≡ false)
  unfolding publish_pages mem
  publish_pages-row_of original c [] t t' h d i rid = ground arith
  publish_pages-row_of original c (first ∷ rids) t t' h d i rid =
      let step =
        >>=-eq-ok (publish_page change_id display_name now fresh_revision original c first t) _ h in
      let wrote = publish_page-Wrote original c first t step.0 step.1 in
      let later =
        publish_pages-row_of original c rids step.0 t' step.2 (distinct-tail first rids d)
          (wrote.1 i) rid in
      row_by_row first rid rids (row_of original c) (λ r. page_of r t.pages)
        (page_of first step.0.pages) (page_of rid step.0.pages) (page_of rid t'.pages)
        (distinct-head first rids d) (λ e. ap (λ r. page_of r step.0.pages) e) (wrote.2 i) wrote.0
        (wrote.3 rid) later.0 later.1

  pub publish_pages-redirects :
      (original : List Page) (c : Candidate) (rids : List String) (t t' : Tables)
      → publish_pages change_id display_name now fresh_revision original c rids t ≡ ok t'
      → t'.redirects ≡ t.redirects
  unfolding publish_pages
  publish_pages-redirects original c [] t t' h = ground arith
  publish_pages-redirects original c (first ∷ rids) t t' h =
      let step =
        >>=-eq-ok (publish_page change_id display_name now fresh_revision original c first t) _ h in
      publish_pages-redirects original c rids step.0 t' step.2
      ∙ (publish_page-Wrote original c first t step.0 step.1).4
