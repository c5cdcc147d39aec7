-- ===== src/Brief/Grouped.antt =====
-- A brief shows each item in one group.
use docplane.Base.{
  ℕ, ◌+◌, String, ◌≡◌, refl, ap, sym, ◌∙◌, Bool, true, ◌||◌, List, [], ◌∷◌, ◌++◌, ◌==◌,
  if◌then◌else◌, arith, Bool-cases, inl, inr,
}
use docplane.Base.Lists.{length, keep, all, length-append, keep-append, keep_congr}
use docplane.Brief.{WorkItem, Groups, Group, group_of, in_group, is_open_active, group_items}

-- The lists that a brief shows.
abbrev pub shown : Groups → List WorkItem
shown g =
    g.next_actions ++ g.paused_actions ++ g.held ++ g.deferred ++ g.uncertain ++ g.recorded_done

abbrev count : (WorkItem → Bool) → List WorkItem → ℕ
count p items = length (keep p items)

count-append :
    (p : WorkItem → Bool) (xs ys : List WorkItem) → count p (xs ++ ys) ≡ count p xs + count p ys
count-append p xs ys = ap length (keep-append p xs ys) ∙ length-append (keep p xs) (keep p ys)

open_active-next : (i : WorkItem) → is_open_active i ≡ in_group Group.next_actions i
unfolding group_of
open_active-next i = ground arith

all-keep : (p : WorkItem → Bool) (items : List WorkItem) → all p (keep p items) ≡ true
unfolding all keep
all-keep p [] = refl
all-keep p (i ∷ items) = ground (arith, all-keep p items)

count-in_groups :
    (p : WorkItem → Bool) (items : List WorkItem)
    → count p (keep (in_group Group.next_actions) items)
        + count p (keep (in_group Group.held) items)
        + count p (keep (in_group Group.deferred) items)
        + count p (keep (in_group Group.uncertain) items)
        + count p (keep (in_group Group.recorded_done) items)
      ≡ count p items
unfolding keep
count-in_groups p [] = refl
count-in_groups p (i ∷ items) = ground (arith, count-in_groups p items)

count-shown :
    (p : WorkItem → Bool) (a b c d e f : List WorkItem)
    → count p (a ++ b ++ c ++ d ++ e ++ f)
      ≡ count p a + count p b + count p c + count p d + count p e + count p f
count-shown p a b c d e f = ground (
  arith,
  count-append p a b,
  count-append p (a ++ b) c,
  count-append p (a ++ b ++ c) d,
  count-append p (a ++ b ++ c ++ d) e,
  count-append p (a ++ b ++ c ++ d ++ e) f,
)

-- The lists of a brief hold together what the checkpoint holds: whatever is counted, as many items of
-- the lists have it as items of the checkpoint. What is proposed as a next action is open and active,
-- and nothing is unless the initiative is ACTIVE or in the BACKLOG, where nothing is paused.
pub group_items-shown :
    (items : List WorkItem) (initiative_state : String)
    → let g = group_items items initiative_state in
      ((p : WorkItem → Bool) → length (keep p (shown g)) ≡ length (keep p items))
      × (all is_open_active g.next_actions ≡ true)
      × (all is_open_active g.paused_actions ≡ true)
      × (g.execution_eligible ≡ (initiative_state == "ACTIVE" || initiative_state == "BACKLOG"))
      × ((if g.execution_eligible then g.paused_actions else g.next_actions) ≡ [])
unfolding group_items all
group_items-shown items initiative_state =
    let open_ones =
      keep_congr is_open_active (in_group Group.next_actions) items open_active-next in
    let some_list = λ (g : Group). keep (in_group g) items in
    let counted = λ (p : WorkItem → Bool) (next paused : List WorkItem).
      count-shown p next paused (some_list Group.held) (some_list Group.deferred)
        (some_list Group.uncertain) (some_list Group.recorded_done) in
    let active_ones = all-keep is_open_active items in
    elim (Bool-cases (initiative_state == "ACTIVE" || initiative_state == "BACKLOG")) [
      | inl e ↦ rw e (
        λ p. ground (arith, counted p (some_list Group.next_actions) [], count-in_groups p items),
        ap (all is_open_active) (sym open_ones) ∙ active_ones,
        refl,
        refl,
        refl,
      )
      | inr e ↦ rw e (
        λ p.
            ground
              (arith, counted p [] (keep is_open_active items), count-in_groups p items, open_ones),
        refl,
        active_ones,
        refl,
        refl,
      )
    ]
