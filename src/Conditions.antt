-- ===== src/Conditions.antt =====
-- docs-api/app/work_conditions_api.py: the durable conditions of generated artifacts, and the
-- exact-set reconciliation behind `PUT …/conditions`. The rows of the table that belong to one
-- artifact are a `Dict` by condition kind: the table has UNIQUE (artifact_id, condition_kind).
pub mod Rows
pub mod Kinds
pub mod Reconcile
pub mod View
pub mod Replay
use docplane.Base.{
  ℕ, suc, String, Bool, true, not, ◌||◌, Option, none, some, List, [], ◌∷◌, ◌++◌, if◌then◌else◌,
  ◌≡◌, ◌↔◌,
}
use docplane.Base.Lists.{nonempty}
use docplane.Base.Sets.{difference}
use docplane.Base.Sorting.{sort, sort_by}
use docplane.Base.Dict.{Dict, keys, entry_key, lookup, insert}
use docplane.Events.{Actor}

-- The column `status`.
pub data Status : Type 0 where
  unresolved resolved : Status

-- What the code asks of a briefing, a JSON object: Python's `==`, whether `secret_findings`
-- (model_contracts.py) finds anything, and the size of `json.dumps(…)` in bytes.
pub record Briefings (B : Type 0) : Type 0 where
  pub same : B → B → Bool
  pub same_iff : (a b : B) → (same a b ≡ true) ↔ (a ≡ b)
  pub has_secret_findings : B → Bool
  pub dumps_size : B → ℕ

module _ (B : Type 0) where
  pub record Condition : Type 0 where
    pub condition_id : String
    pub briefing : B
    pub status : Status
    pub created_by : String
    pub updated_by : String
    pub first_seen_at : ℕ
    pub last_transition_at : ℕ
    pub resolved_at : Option ℕ
    pub version : ℕ
    pub updated_at : ℕ

  -- The rows, and the five lists of the answer as the loops fill them.
  pub record Progress : Type 0 where
    pub rows : Dict Condition
    pub opened : List String
    pub reopened : List String
    pub refreshed : List String
    pub resolved : List String
    pub continuing : List String

module _ {B : Type 0} where
  -- `opened: list[str] = []` and the others.
  abbrev pub start : Dict (Condition B) → Progress B
  start current = record {
    rows = current;
    opened = [];
    reopened = [];
    refreshed = [];
    resolved = [];
    continuing = [];
  }

  unfoldable pub is_changed : Progress B → Bool
  is_changed p =
      nonempty p.opened || nonempty p.reopened || nonempty p.refreshed || nonempty p.resolved

-- What the transaction does not compute: the principal, the clock, the id of
-- the event, and the ids that the table's
-- default gives to the row of a kind.
pub record Context : Type 0 where
  pub principal : Actor
  pub now : ℕ
  pub event_id : String
  pub new_id : String → String

module _ {B : Type 0} (j : Briefings B) (ctx : Context) where
  abbrev pub fresh : String → B → Condition B
  fresh kind briefing = record {
    condition_id = ctx.new_id kind;
    briefing = briefing;
    status = unresolved;
    created_by = ctx.principal.principal_id;
    updated_by = ctx.principal.principal_id;
    first_seen_at = ctx.now;
    last_transition_at = ctx.now;
    resolved_at = none;
    version = 1;
    updated_at = ctx.now;
  }

  abbrev pub reopened_row : Condition B → B → Condition B
  reopened_row r briefing = record r {
    briefing = briefing;
    status = unresolved;
    resolved_at = none;
    updated_by = ctx.principal.principal_id;
    version = suc r.version;
    last_transition_at = ctx.now;
    updated_at = ctx.now;
  }

  abbrev pub refreshed_row : Condition B → B → Condition B
  refreshed_row r briefing = record r {
    briefing = briefing;
    updated_by = ctx.principal.principal_id;
    version = suc r.version;
    updated_at = ctx.now;
  }

  abbrev pub resolved_row : Condition B → Condition B
  resolved_row r = record r {
    status = Status.resolved;
    resolved_at = some ctx.now;
    updated_by = ctx.principal.principal_id;
    version = suc r.version;
    last_transition_at = ctx.now;
    updated_at = ctx.now;
  }

  -- The body of `for kind in sorted(desired)`; the first argument is `current.get(kind)`.
  unfoldable pub write_existing : Status → Condition B → String → B → Progress B → Progress B
  write_existing Status.resolved r kind briefing p = record p {
    rows = insert kind (reopened_row r briefing) p.rows;
    reopened = p.reopened ++ kind ∷ [];
  }
  write_existing unresolved r kind briefing p =
      if not (j.same r.briefing briefing)
      then record p {
        rows = insert kind (refreshed_row r briefing) p.rows;
        refreshed = p.refreshed ++ kind ∷ [];
      }
      else record p { continuing = p.continuing ++ kind ∷ [] }

  unfoldable pub write_desired : Option (Condition B) → String → B → Progress B → Progress B
  unfolding write_existing
  write_desired none kind briefing p = record p {
    rows = insert kind (fresh kind briefing) p.rows;
    opened = p.opened ++ kind ∷ [];
  }
  write_desired (some r) kind briefing p = write_existing r.status r kind briefing p

  unfoldable pub write_all : Dict (Condition B) → Dict B → Progress B → Progress B
  unfolding write_desired
  write_all current [] p = p
  write_all current ((kind, briefing) ∷ rest) p =
      write_all current rest (write_desired (lookup kind current) kind briefing p)

  -- The body of `for kind in sorted(set(current) - set(desired))`.
  unfoldable pub resolve_open : Status → Condition B → String → Progress B → Progress B
  resolve_open Status.resolved r kind p = p
  resolve_open unresolved r kind p = record p {
    rows = insert kind (resolved_row r) p.rows;
    resolved = p.resolved ++ kind ∷ [];
  }

  unfoldable pub resolve_row : Option (Condition B) → String → Progress B → Progress B
  unfolding resolve_open
  resolve_row none kind p = p
  resolve_row (some r) kind p = resolve_open r.status r kind p

  unfoldable pub resolve_all : Dict (Condition B) → List String → Progress B → Progress B
  unfolding resolve_row
  resolve_all current [] p = p
  resolve_all current (kind ∷ rest) p =
      resolve_all current rest (resolve_row (lookup kind current) kind p)

  -- Both loops, from the rows that the transaction has locked.
  unfoldable pub reconcile_rows : Dict (Condition B) → Dict B → Progress B
  unfolding write_all resolve_all
  reconcile_rows current desired =
      resolve_all current (sort (difference (keys current) (keys desired)))
        (write_all current (sort_by entry_key desired) (start current))
