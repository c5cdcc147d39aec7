-- ===== src/Brief.antt =====
-- docs-api/app/work_brief.py: the checkpoint of an initiative's work items, which updates are merged
-- into, and the groups in which a brief shows them. `snapshot_bytes` is the size of the items as JSON.
pub mod Merge
pub mod Grouped
use docplane.Base.{
  ℕ, String, Bool, true, false, not, ◌&&◌, ◌||◌, Option, none, some, List, [], ◌∷◌, map, ◌==◌,
  if◌then◌else◌, leb, is_some,
}
use docplane.Base.Lists.{length, keep}
use docplane.Base.Sets.{distinct}
use docplane.Base.Dict.{Dict, lookup, insert, of_entries}
use docplane.Http.{Result, ok, raise, refuse_if, ◌>>=◌, ◌>>◌}

pub data ReferenceType : Type 0 where
  activity capture pull_request commit artifact page condition : ReferenceType

pub data ItemState : Type 0 where
  opened done_in_record unclear superseded withdrawn : ItemState

pub data Stance : Type 0 where
  active held deferred unknown : Stance

pub record WorkEvidence : Type 0 where
  pub reference_type : ReferenceType
  pub reference_id : String

pub record WorkItem : Type 0 where
  pub item_id : String
  pub title : String
  pub state : ItemState
  pub stance : Stance
  pub next_action : Option String
  pub owner : Option String
  pub reason : String
  pub references : List WorkEvidence

pub record HoldDecision : Type 0 where
  pub reason : String
  pub references : List WorkEvidence

pub record WorkChange : Type 0 where
  pub item : WorkItem
  pub decision : Option HoldDecision

-- The literals of the models.
abbrev pub reference_name : ReferenceType → String
reference_name activity = "ACTIVITY"
reference_name capture = "CAPTURE"
reference_name pull_request = "PR"
reference_name commit = "COMMIT"
reference_name artifact = "ARTIFACT"
reference_name page = "PAGE"
reference_name condition = "CONDITION"

abbrev pub state_name : ItemState → String
state_name opened = "OPEN"
state_name done_in_record = "DONE_IN_RECORD"
state_name unclear = "UNCLEAR"
state_name superseded = "SUPERSEDED"
state_name withdrawn = "WITHDRAWN"

abbrev pub stance_name : Stance → String
stance_name active = "ACTIVE"
stance_name held = "HELD"
stance_name deferred = "DEFERRED"
stance_name unknown = "UNKNOWN"

abbrev pub same_value : Option String → Option String → Bool
same_value none none = true
same_value (some x) (some y) = x == y
same_value _ _ = false

abbrev pub same_references : List WorkEvidence → List WorkEvidence → Bool
same_references [] [] = true
same_references (r ∷ rs) (s ∷ ss) =
    reference_name r.reference_type == reference_name s.reference_type
    && r.reference_id == s.reference_id
    && same_references rs ss
same_references _ _ = false

-- `old == item`, of the two as dicts
unfoldable pub same_item : WorkItem → WorkItem → Bool
same_item a b =
    a.item_id == b.item_id
    && a.title == b.title
    && state_name a.state == state_name b.state
    && stance_name a.stance == stance_name b.stance
    && same_value a.next_action b.next_action
    && same_value a.owner b.owner
    && a.reason == b.reason
    && same_references a.references b.references

abbrev pub is_open : ItemState → Bool
is_open opened = true
is_open _ = false

abbrev pub is_unclear : ItemState → Bool
is_unclear unclear = true
is_unclear _ = false

abbrev pub is_active : Stance → Bool
is_active active = true
is_active _ = false

-- `WorkItem.actionable`
unfoldable pub is_actionable : WorkItem → Bool
is_actionable i = not (is_open i.state && is_active i.stance && not (is_some i.next_action))

-- `item["state"] in TERMINAL`
abbrev pub is_terminal : ItemState → Bool
is_terminal done_in_record = true
is_terminal superseded = true
is_terminal withdrawn = true
is_terminal _ = false

abbrev pub is_kept_back : Stance → Bool
is_kept_back held = true
is_kept_back deferred = true
is_kept_back _ = false

-- `protected`
abbrev pub is_protected : WorkItem → Bool
is_protected old = is_kept_back old.stance || is_terminal old.state

-- A protected item would change without a decision.
unfoldable pub lacks_decision : Option WorkItem → WorkChange → Bool
unfolding same_item
lacks_decision none change = false
lacks_decision (some old) change =
    is_protected old && not (same_item old change.item) && not (is_some change.decision)

-- `WorkUpdate.unique_items`
abbrev pub changed_ids : List WorkChange → List String
changed_ids changes = map (λ c. c.item.item_id) changes

unfoldable pub unique_items : List WorkChange → Bool
unfolding distinct
unique_items changes = distinct (changed_ids changes)

-- The loop over the changes.
unfoldable pub merge_changes : List WorkChange → Dict WorkItem → Result (Dict WorkItem)
unfolding lacks_decision lookup insert
merge_changes [] items = ok items
merge_changes (c ∷ cs) items =
    refuse_if (lacks_decision (lookup c.item.item_id items) c) 409 "WORK_DECISION_REQUIRED"
    >> merge_changes cs (insert c.item.item_id c.item items)

abbrev pub entries : List WorkItem → Dict WorkItem
entries items = map (λ i. (i.item_id, i)) items

-- `list(items.values())`
abbrev pub values : Dict WorkItem → List WorkItem
values [] = []
values ((k, i) ∷ items) = i ∷ values items

module _ (snapshot_bytes : List WorkItem → ℕ) where
  abbrev pub too_large : List WorkItem → Bool
  too_large result = not (leb (length result) 50) || not (leb (snapshot_bytes result) 65536)

  unfoldable pub merge_items : List WorkItem → List WorkChange → Result (List WorkItem)
  unfolding merge_changes of_entries
  merge_items previous changes =
      merge_changes changes (of_entries [] (entries previous)) >>= λ items.
      refuse_if (too_large (values items)) 413 "WORK_CHECKPOINT_LIMIT" >> ok (values items)

pub data Group : Type 0 where
  recorded_done held deferred uncertain next_actions : Group

-- The group that the loop appends an item to.
unfoldable pub group_of : WorkItem → Group
group_of i = if is_terminal i.state then Group.recorded_done else elim i.stance [
  | Stance.held ↦ Group.held
  | Stance.deferred ↦ Group.deferred
  | Stance.unknown ↦ Group.uncertain
  | Stance.active ↦ if is_unclear i.state then Group.uncertain else Group.next_actions
]

abbrev pub same_group : Group → Group → Bool
same_group Group.recorded_done Group.recorded_done = true
same_group Group.held Group.held = true
same_group Group.deferred Group.deferred = true
same_group Group.uncertain Group.uncertain = true
same_group Group.next_actions Group.next_actions = true
same_group _ _ = false

pub record Groups : Type 0 where
  pub next_actions : List WorkItem
  pub held : List WorkItem
  pub deferred : List WorkItem
  pub uncertain : List WorkItem
  pub recorded_done : List WorkItem
  pub execution_eligible : Bool
  pub paused_actions : List WorkItem

abbrev pub in_group : Group → WorkItem → Bool
in_group g i = same_group (group_of i) g

-- `item["state"] == "OPEN" and item["stance"] == "ACTIVE"`
abbrev pub is_open_active : WorkItem → Bool
is_open_active i = is_open i.state && is_active i.stance

unfoldable pub group_items : List WorkItem → String → Groups
unfolding group_of keep
group_items items initiative_state =
    let eligible = initiative_state == "ACTIVE" || initiative_state == "BACKLOG" in
    record {
      next_actions = if eligible then keep (in_group Group.next_actions) items else [];
      held = keep (in_group Group.held) items;
      deferred = keep (in_group Group.deferred) items;
      uncertain = keep (in_group Group.uncertain) items;
      recorded_done = keep (in_group Group.recorded_done) items;
      execution_eligible = eligible;
      paused_actions = if eligible then [] else keep is_open_active items;
    }
