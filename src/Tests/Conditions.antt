-- ===== src/Tests/Conditions.antt =====
-- Runs of the reconciliation on a small table, and the theorems at that table.
use docplane.Base.{
  suc, String, ◌≡◌, refl, Bool, true, false, ◌||◌, none, some, [], ◌∷◌, ◌==◌, eq_iff, if◌then◌else◌,
  str_le,
}
use docplane.Base.Lists.{keep}
use docplane.Base.Sets.{mem, distinct}
use docplane.Base.Sorting.{sort_by}
use docplane.Base.Dict.{Dict, keys, lookup}
use docplane.Http.{Result, ok, err}
use docplane.Conditions.{
  Status, unresolved, Briefings, Condition, Context, reconcile_rows, is_changed,
}
use docplane.Conditions.Kinds.{opening, resolving, listed, belongs, mem-listed}
use docplane.Conditions.View.{
  shown, shown-reconcile_rows, reconcile_rows_twice, identity-reconcile_rows,
}
use docplane.Conditions.Reconcile.{Db, reconcile_conditions}
use docplane.Conditions.Replay.{reconcile_conditions_replay}

-- Briefings as texts.
abbrev text_briefings : Briefings String
text_briefings = record {
  same = λ a b. a == b;
  same_iff = eq_iff;
  has_secret_findings = λ b. b == "secret";
  dumps_size = λ b. 2;
}

abbrev monday : Context
monday = record {
  principal = record { principal_id = "robot"; principal_kind = "AUTOMATION" };
  now = 100;
  event_id = "e1";
  new_id = λ kind. kind;
}

abbrev row : String → Condition String
row briefing = record {
  condition_id = "c";
  briefing = briefing;
  status = unresolved;
  created_by = "robot";
  updated_by = "robot";
  first_seen_at = 1;
  last_transition_at = 1;
  resolved_at = none;
  version = 1;
  updated_at = 1;
}

-- Two open rows and a resolved one.
abbrev table : Dict (Condition String)
table =
    ("STALE", row "old")
    ∷ ("KEPT", row "same")
    ∷ ("AGAIN", record (row "x") { status = Status.resolved; resolved_at = some 9; version = 4 })
    ∷ []

abbrev wanted : Dict String
wanted = ("NEW", "n") ∷ ("KEPT", "same") ∷ ("AGAIN", "y") ∷ []

lists_of_run :
    (listed text_briefings monday opening (reconcile_rows text_briefings monday table wanted))
    ≡ "NEW" ∷ []
unfolding reconcile_rows sort_by keep mem lookup str_le
lists_of_run = refl

distinct-table : distinct (keys table) ≡ true
unfolding distinct
distinct-table = refl

distinct-wanted : distinct (keys wanted) ≡ true
unfolding distinct
distinct-wanted = refl

-- After the run: STALE is closed, KEPT as it was, AGAIN open with its new briefing, NEW open.
shown-reconcile_rows_example :
    shown (lookup "AGAIN" (reconcile_rows text_briefings monday table wanted).rows)
    ≡ lookup "AGAIN" wanted
shown-reconcile_rows_example =
    shown-reconcile_rows text_briefings monday table wanted "AGAIN" distinct-table distinct-wanted

mem-listed_example :
    mem "STALE"
      (listed text_briefings monday resolving (reconcile_rows text_briefings monday table wanted))
    ≡ belongs text_briefings monday resolving (lookup "STALE" table) (lookup "STALE" wanted)
mem-listed_example = mem-listed text_briefings monday resolving table wanted "STALE" distinct-wanted

abbrev tuesday : Context
tuesday = record monday { now = 200 }

reconcile_rows_twice_example :
    let first = reconcile_rows text_briefings monday table wanted in
    let second = reconcile_rows text_briefings tuesday first.rows wanted in
    (second.rows ≡ first.rows) × (is_changed second ≡ false)
reconcile_rows_twice_example =
    reconcile_rows_twice text_briefings monday tuesday table wanted distinct-table distinct-wanted

lookup-table :
    lookup "AGAIN" table
    ≡ some (record (row "x") { status = Status.resolved; resolved_at = some 9; version = 4 })
unfolding lookup
lookup-table = refl

identity-reconcile_rows_example :
    let p = reconcile_rows text_briefings monday table wanted in
    let r : Condition String = record (row "x") {
      status = Status.resolved;
      resolved_at = some 9;
      version = 4;
    } in
    (r' : Condition String) × (lookup "AGAIN" p.rows ≡ some r')
    × (r'.condition_id ≡ r.condition_id)
    × (r'.created_by ≡ r.created_by)
    × (r'.first_seen_at ≡ r.first_seen_at)
    × (r'.version ≡ (
        if mem "AGAIN" p.reopened || mem "AGAIN" p.refreshed || mem "AGAIN" p.resolved
        then suc r.version
        else r.version))
identity-reconcile_rows_example =
    identity-reconcile_rows text_briefings monday table wanted "AGAIN" _ distinct-table
      distinct-wanted lookup-table

-- JSON of an answer: whether it reports a change.
abbrev database : Db String Bool
database = record {
  artifacts = "a1" ∷ [];
  conditions = λ a. table;
  receipts = [];
  events = record { rows = []; next_seq = 1 };
}

abbrev put : Db String Bool → Result (Bool × Db String Bool)
put =
    reconcile_conditions text_briefings (λ a d. "digest") (λ r. r.changed) (λ p. true) monday
      (some " key ") "a1" wanted

abbrev put_once : Db String Bool
put_once = elim (put database) [ ok (answer, db) ↦ db | err e ↦ database ]

put_answers : put database ≡ ok (true, put_once)
unfolding reconcile_conditions sort_by keep lookup str_le
put_answers = refl

reconcile_conditions_replay_example : put put_once ≡ ok (true, put_once)
reconcile_conditions_replay_example =
    reconcile_conditions_replay text_briefings (λ a d. "digest") (λ r. r.changed) (λ p. true) monday
      (some " key ") "a1" wanted database put_once true put_answers
