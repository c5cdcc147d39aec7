-- ===== src/Tests/Brief.antt =====
-- Checkpoints and briefs on small inputs.
use docplane.Base.{
  ℕ, ◌≤◌, String, ◌≡◌, refl, Bool, true, false, ◌||◌, none, some, List, [], ◌∷◌, ◌==◌,
  if◌then◌else◌,
}
use docplane.Base.Lists.{length, keep, all}
use docplane.Base.Dict.{lookup, of_entries}
use docplane.Http.{ok, raise}
use docplane.Brief.{
  ItemState, opened, done_in_record, Stance, active, WorkItem, WorkChange, HoldDecision, entries,
  unique_items, merge_items, group_items, is_open_active,
}
use docplane.Brief.Merge.{change_for, item_at, settled, is_undecided, merge_items-settled}
use docplane.Brief.Grouped.{shown, group_items-shown}

abbrev item : String → ItemState → Stance → WorkItem
item id state stance = record {
  item_id = id;
  title = "an item";
  state = state;
  stance = stance;
  next_action = some "go on";
  owner = none;
  reason = "a reason";
  references = [];
}

abbrev checkpoint : List WorkItem
checkpoint =
    item "a" opened Stance.held ∷ item "b" opened active ∷ item "c" done_in_record active ∷ []

abbrev small : List WorkItem → ℕ
small items = 100

abbrev change : WorkItem → WorkChange
change i = record { item = i; decision = none }

-- A hold is not released without a decision.
released :
    merge_items small checkpoint (change (item "a" opened active) ∷ [])
    ≡ raise 409 "WORK_DECISION_REQUIRED"
unfolding merge_items
released = refl

abbrev released_by : HoldDecision
released_by = record { reason = "agreed"; references = [] }

abbrev changes : List WorkChange
changes =
    record { item = item "a" opened active; decision = some released_by }
    ∷ change (item "d" opened active)
    ∷ []

abbrev merged : List WorkItem
merged =
    item "a" opened active
    ∷ item "b" opened active
    ∷ item "c" done_in_record active
    ∷ item "d" opened active
    ∷ []

merges : merge_items small checkpoint changes ≡ ok merged
unfolding merge_items
merges = refl

apart : unique_items changes ≡ true
unfolding unique_items
apart = refl

merge_items-settled_example :
    ((id : String)
      → let old = lookup id (of_entries [] (entries checkpoint)) in
        (item_at id merged ≡ settled old (change_for id changes))
        × (is_undecided old (change_for id changes) ≡ false))
    × (length merged ≤ 50)
    × (small merged ≤ 65536)
merge_items-settled_example = merge_items-settled small checkpoint merged changes apart merges

group_items-shown_example :
    let g = group_items checkpoint "BLOCKED" in
    ((p : WorkItem → Bool) → length (keep p (shown g)) ≡ length (keep p checkpoint))
    × (all is_open_active g.next_actions ≡ true)
    × (all is_open_active g.paused_actions ≡ true)
    × (g.execution_eligible ≡ ("BLOCKED" == "ACTIVE" || "BLOCKED" == "BACKLOG"))
    × ((if g.execution_eligible then g.paused_actions else g.next_actions) ≡ [])
group_items-shown_example = group_items-shown checkpoint "BLOCKED"
