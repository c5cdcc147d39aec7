-- ===== src/Tests/Runner.antt =====
-- The command's check on an answer of the service, and on answers that are no partition.
use docplane.Base.{String, ◌≡◌, refl, true, false, ◌&&◌, none, some, [], ◌∷◌, ◌==◌, eq_iff, arith}
use docplane.Base.Lists.{keep}
use docplane.Base.Sets.{mem, distinct}
use docplane.Base.Sorting.{sort}
use docplane.Base.Dict.{Dict, keys}
use docplane.Checked.{passed, failed}
use docplane.Conditions.{unresolved, Briefings, Condition, Context, reconcile_rows, is_changed}
use docplane.Conditions.Reconcile.{response_of, response_json}
use docplane.Runner.{Collections, check_partition, bounded_receipt}
use docplane.Runner.Accept.{places, count_if, check_partition_sound}
use docplane.Runner.EndToEnd.{AreKinds, collections_of, bounded_receipt-response}

abbrev text_briefings : Briefings String
text_briefings = record {
  same = λ a b. a == b;
  same_iff = eq_iff;
  has_secret_findings = λ b. false;
  dumps_size = λ b. 2;
}

abbrev run : Context
run = record {
  principal = record { principal_id = "robot"; principal_kind = "AUTOMATION" };
  now = 100;
  event_id = "e1";
  new_id = λ kind. kind;
}

abbrev table : Dict (Condition String)
table =
    (
      "CATALOGUES_MISSING",
      record {
        condition_id = "c";
        briefing = "b";
        status = unresolved;
        created_by = "robot";
        updated_by = "robot";
        first_seen_at = 1;
        last_transition_at = 1;
        resolved_at = none;
        version = 1;
        updated_at = 1;
      },
    )
    ∷ []

abbrev wanted : Dict String
wanted = ("GENERATION_FAILED", "g") ∷ ("DRIFTED", "d") ∷ []

distinct-table : distinct (keys table) ≡ true
unfolding distinct
distinct-table = refl

distinct-wanted : distinct (keys wanted) ≡ true
unfolding distinct
distinct-wanted = refl

AreKinds-table : AreKinds (keys table)
unfolding mem
AreKinds-table k m = ground (arith, eq_iff "CATALOGUES_MISSING" k)

AreKinds-wanted : AreKinds (keys wanted)
unfolding mem
AreKinds-wanted k m = ground (arith, eq_iff "GENERATION_FAILED" k, eq_iff "DRIFTED" k)

bounded_receipt-response_example :
    bounded_receipt some
      (response_json (response_of "a1" wanted (reconcile_rows text_briefings run table wanted)))
      "a1"
      (sort (keys wanted))
    ≡ passed (record {
      artifact_id = "a1";
      collections = collections_of text_briefings run table wanted distinct-table distinct-wanted;
      changed = is_changed (reconcile_rows text_briefings run table wanted);
    })
bounded_receipt-response_example =
    bounded_receipt-response text_briefings run table wanted distinct-table distinct-wanted
      AreKinds-table AreKinds-wanted some "a1" refl

abbrev answer : Collections
answer = record {
  desired_condition_kinds = "DRIFTED" ∷ "GENERATION_FAILED" ∷ [];
  opened = "GENERATION_FAILED" ∷ [];
  reopened = [];
  refreshed = "DRIFTED" ∷ [];
  resolved = "CATALOGUES_MISSING" ∷ [];
  continuing = [];
}

answer_passes : check_partition ("DRIFTED" ∷ "GENERATION_FAILED" ∷ []) answer ≡ passed tt
unfolding check_partition keep
answer_passes = refl

check_partition_sound_example :
    (answer.desired_condition_kinds ≡ "DRIFTED" ∷ "GENERATION_FAILED" ∷ [])
    × ((k : String) → places k answer ≡ count_if (mem k ("DRIFTED" ∷ "GENERATION_FAILED" ∷ [])))
    × ((k : String)
        → (mem k answer.resolved && mem k ("DRIFTED" ∷ "GENERATION_FAILED" ∷ [])) ≡ false)
check_partition_sound_example =
    check_partition_sound ("DRIFTED" ∷ "GENERATION_FAILED" ∷ []) answer answer_passes

-- A kind that is listed twice is refused.
overlap_fails :
    check_partition
      ("DRIFTED" ∷ "GENERATION_FAILED" ∷ [])
      (record answer { reopened = "GENERATION_FAILED" ∷ [] })
    ≡ failed "WORK reconciliation response desired-state categories overlap"
unfolding check_partition keep
overlap_fails = refl
