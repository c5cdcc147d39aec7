-- ===== src/Brief/Merge.antt =====
-- What an update leaves of a checkpoint.
use docplane.Base.{
  ℕ, ◌≤◌, String, ◌≡◌, refl, ap, sym, ◌∙◌, inl, inr, Bool, true, false, ◌&&◌, Option, none, some,
  List, [], ◌∷◌, ◌==◌, if◌then◌else◌, arith, eq_iff, Bool-cases,
}
use docplane.Base.Lists.{length}
use docplane.Base.Sets.{mem, distinct-head, distinct-tail}
use docplane.Base.Dict.{Dict, lookup, insert, of_entries, lookup-insert}
use docplane.Http.{ok, >>=-eq-ok, refuse_if-eq-ok}
use docplane.Brief.{
  WorkItem, WorkChange, lacks_decision, changed_ids, unique_items, merge_changes, entries, values,
  too_large, merge_items,
}

-- The first change of an item.
unfoldable pub change_for : String → List WorkChange → Option WorkChange
change_for id [] = none
change_for id (c ∷ cs) = if c.item.item_id == id then some c else change_for id cs

unfoldable pub item_at : String → List WorkItem → Option WorkItem
item_at id [] = none
item_at id (i ∷ is) = if i.item_id == id then some i else item_at id is

-- What a checkpoint holds of an item, from what it held and the item's change.
abbrev pub settled : Option WorkItem → Option WorkChange → Option WorkItem
settled old none = old
settled old (some c) = some c.item

abbrev pub is_undecided : Option WorkItem → Option WorkChange → Bool
is_undecided old none = false
is_undecided old (some c) = lacks_decision old c

-- Every item stands under its own id.
unfoldable is_keyed : Dict WorkItem → Bool
is_keyed [] = true
is_keyed ((k, i) ∷ items) = i.item_id == k && is_keyed items

is_keyed-insert :
    (i : WorkItem) (items : Dict WorkItem)
    → is_keyed items ≡ true
    → is_keyed (insert i.item_id i items) ≡ true
unfolding is_keyed insert
is_keyed-insert i [] h = ground (arith, eq_iff i.item_id i.item_id)
is_keyed-insert i ((k, j) ∷ items) h =
    ground (arith, is_keyed-insert i items, eq_iff k i.item_id, eq_iff i.item_id k)

is_keyed-of_entries :
    (items : Dict WorkItem) (is : List WorkItem)
    → is_keyed items ≡ true
    → is_keyed (of_entries items (entries is)) ≡ true
unfolding of_entries
is_keyed-of_entries items [] h = h
is_keyed-of_entries items (i ∷ is) h =
    is_keyed-of_entries (insert i.item_id i items) is (is_keyed-insert i items h)

item_at-values :
    (id : String) (items : Dict WorkItem)
    → is_keyed items ≡ true
    → item_at id (values items) ≡ lookup id items
unfolding is_keyed item_at lookup
item_at-values id [] h = refl
item_at-values id ((k, i) ∷ items) h =
    ground (arith, item_at-values id items, eq_iff i.item_id k, eq_iff k id, eq_iff i.item_id id)

change_for-none :
    (id : String) (cs : List WorkChange) → mem id (changed_ids cs) ≡ false → change_for id cs ≡ none
unfolding change_for mem
change_for-none id [] h = refl
change_for-none id (c ∷ cs) h = ground (arith, change_for-none id cs)

merge_changes-settled :
    (cs : List WorkChange) (items out : Dict WorkItem)
    → unique_items cs ≡ true
    → is_keyed items ≡ true
    → merge_changes cs items ≡ ok out
    → (is_keyed out ≡ true)
      × ((id : String)
          → (lookup id out ≡ settled (lookup id items) (change_for id cs))
            × (is_undecided (lookup id items) (change_for id cs) ≡ false))
unfolding merge_changes unique_items change_for
merge_changes-settled [] items out u k h =
    let same : items ≡ out = ground arith in (ground arith, λ id. (ground arith, refl))
merge_changes-settled (c ∷ cs) items out u k h =
    let id = c.item.item_id in
    let go =
      refuse_if-eq-ok (lacks_decision (lookup id items) c) 409 "WORK_DECISION_REQUIRED"
        (merge_changes cs (insert id c.item items)) h in
    let later =
      merge_changes-settled cs (insert id c.item items) out (distinct-tail id (changed_ids cs) u)
        (is_keyed-insert c.item items k) go.1 in
    (
      later.0,
      λ j. elim (Bool-cases (id == j)) [
        | inl e ↦
            let same : id ≡ j = ground (arith, eq_iff id j) in
            let fresh = change_for-none id cs (distinct-head id (changed_ids cs) u) in
            ground (arith, same, fresh, (later.1 id).0, lookup-insert id id c.item items, go.0)
        | inr e ↦ ground (arith, (later.1 j).0, (later.1 j).1, lookup-insert id j c.item items)
      ],
    )

module _ (snapshot_bytes : List WorkItem → ℕ) where
  -- An update that names each item once, if it is accepted, puts its items in the place of those of
  -- the same ids and keeps every other item as it is; an item that was held, deferred or terminal
  -- is only replaced by another with a decision. The result holds the limits of a checkpoint.
  pub merge_items-settled :
      (previous result : List WorkItem) (changes : List WorkChange)
      → unique_items changes ≡ true
      → merge_items snapshot_bytes previous changes ≡ ok result
      → ((id : String)
          → let old = lookup id (of_entries [] (entries previous)) in
            (item_at id result ≡ settled old (change_for id changes))
            × (is_undecided old (change_for id changes) ≡ false))
        × (length result ≤ 50)
        × (snapshot_bytes result ≤ 65536)
  unfolding merge_items is_keyed
  merge_items-settled previous result changes u h =
      let items = of_entries [] (entries previous) in
      let merged = >>=-eq-ok (merge_changes changes items) _ h in
      let small =
        refuse_if-eq-ok (too_large snapshot_bytes (values merged.0)) 413 "WORK_CHECKPOINT_LIMIT"
          (ok (values merged.0)) merged.2 in
      let same : values merged.0 ≡ result = ground (arith, small.1) in
      let all_settled =
        merge_changes-settled changes items merged.0 u (is_keyed-of_entries [] previous refl)
          merged.1 in
      (
        λ id. (
          ap (item_at id) (sym same)
              ∙ item_at-values id merged.0 all_settled.0
              ∙ (all_settled.1 id).0,
          (all_settled.1 id).1,
        ),
        ground (arith, small.0),
        ground (arith, small.0),
      )
