-- ===== src/Freshness.antt =====
-- `derive_freshness` of docs-api/app/observe_api.py: whether a generated artifact still shows what
-- its source holds, from the latest observations. Times are seconds.
pub mod Verdict
use docplane.Base.{
  ℕ, ◌+◌, String, Bool, true, false, not, ◌&&◌, ◌||◌, Option, none, some, List, [], ◌∷◌, ◌==◌,
  if◌then◌else◌, ltb, is_some, joined,
}

-- The column `outcome`.
pub data Outcome : Type 0 where
  nominal degraded failed unknown : Outcome

pub record Observation : Type 0 where
  pub observation_id : Option String
  pub observed_at : Option ℕ
  pub outcome : Outcome
  pub source_fingerprint : Option String

pub data State : Type 0 where
  unknown never_generated failed drifted fresh : State

pub data Correspondence : Type 0 where
  unknown match mismatch : Correspondence

pub data SourceStatus : Type 0 where
  absent unusable unbounded_transitional expired current : SourceStatus

pub record Freshness : Type 0 where
  pub state : State
  pub reason : String
  pub generated_fingerprint : Option String
  pub source_fingerprint : Option String
  pub observed_at : Option ℕ
  pub generation : Option Observation
  pub source_observation : Option Observation
  pub last_successful_source_observation : Option Observation
  pub projection_correspondence : Correspondence
  pub source_observation_status : SourceStatus
  pub observation_expires_at : Option ℕ

abbrev pub is_nominal : Outcome → Bool
is_nominal nominal = true
is_nominal _ = false

-- `outcome` in the reason of an observation that is not nominal
abbrev pub outcome_name : Outcome → String
outcome_name nominal = "NOMINAL"
outcome_name degraded = "DEGRADED"
outcome_name Outcome.failed = "FAILED"
outcome_name Outcome.unknown = "UNKNOWN"

-- A text that is there and not empty, as Python's truth value has it.
abbrev pub truthy : Option String → Option String
truthy none = none
truthy (some s) = if s == "" then none else some s

abbrev pub fingerprint_of : Option Observation → Option String
fingerprint_of none = none
fingerprint_of (some o) = o.source_fingerprint

abbrev pub when_nominal : Option Observation → Option Observation
when_nominal none = none
when_nominal (some o) = if is_nominal o.outcome then some o else none

-- `latest_successful_source_observation`, or the latest one if that is nominal
abbrev pub successful_source : Option Observation → Option Observation → Option Observation
successful_source (some o) latest = some o
successful_source none latest = when_nominal latest

-- Both fingerprints are there: do they agree?
abbrev pub compare_fingerprints : Option String → Option String → Correspondence
compare_fingerprints (some g) (some s) = if g == s then match else mismatch
compare_fingerprints _ _ = Correspondence.unknown

abbrev pub observed_at_of : Option Observation → Option ℕ
observed_at_of none = none
observed_at_of (some o) = o.observed_at

-- `value`, before the early returns.
unfoldable pub initial :
    Option Observation → Option Observation → Option Observation → Option Observation → Freshness
initial attempt generated source successful = record {
  state = State.unknown;
  reason = "";
  generated_fingerprint = fingerprint_of generated;
  source_fingerprint = fingerprint_of (when_nominal source);
  observed_at = observed_at_of attempt;
  generation = attempt;
  source_observation = source;
  last_successful_source_observation = successful_source successful source;
  projection_correspondence =
      compare_fingerprints (truthy (fingerprint_of generated))
        (truthy (fingerprint_of (successful_source successful source)));
  source_observation_status = if is_some source then unusable else absent;
  observation_expires_at = none;
}

-- The last decision: drift first, then expiry.
unfoldable pub conclude : Correspondence → Bool → Freshness → Freshness
conclude mismatch late v = record v { state = drifted; reason = "SOURCE_CHANGED" }
conclude _ late v =
    if late
    then record v { reason = "SOURCE_OBSERVATION_EXPIRED" }
    else record v { state = fresh; reason = "FINGERPRINTS_MATCH" }

-- The part under `if execution_contract is None … else`: the second argument is the contract's
-- `observation_max_age_seconds`.
unfoldable pub bound_by_contract : Option ℕ → Option ℕ → ℕ → Freshness → Freshness
unfolding conclude
bound_by_contract observed none now v =
    conclude v.projection_correspondence false
      (record v { source_observation_status = unbounded_transitional })
bound_by_contract none (some age) now v = record v { reason = "SOURCE_OBSERVATION_TIME_MISSING" }
bound_by_contract (some t) (some age) now v =
    let late = ltb (t + age) now in
    conclude v.projection_correspondence late (record v {
      observation_expires_at = some (t + age);
      source_observation_status = if late then expired else current;
    })

-- From the test of the source's fingerprint on; both fingerprints are texts or absent.
unfoldable pub compare_source :
    Option String → Option String → Observation → Option ℕ → ℕ → Freshness → Freshness
unfolding bound_by_contract
compare_source generated none source contract now v = record v {
  reason = "SOURCE_FINGERPRINT_MISSING";
}
compare_source generated (some s) source contract now v =
    bound_by_contract source.observed_at contract now
      (record v { projection_correspondence = compare_fingerprints generated (some s) })

unfoldable pub check_source :
    Option String → Option Observation → Option ℕ → ℕ → Freshness → Freshness
unfolding compare_source
check_source none source contract now v = record v { reason = "GENERATION_FINGERPRINT_MISSING" }
check_source (some g) none contract now v = record v { reason = "SOURCE_UNOBSERVED" }
check_source (some g) (some o) contract now v =
    if not (is_nominal o.outcome)
    then record v { reason = joined ("SOURCE_OBSERVATION_" ∷ outcome_name o.outcome ∷ []) }
    else compare_source (some g) (truthy o.source_fingerprint) o contract now v

abbrev pub is_failed : Option Observation → Bool
is_failed none = false
is_failed (some o) = elim o.outcome [ Outcome.failed ↦ true | _ ↦ false ]

unfoldable pub derive_freshness :
    Option Observation
    → Option Observation
    → Option Observation
    → Option Observation
    → Option ℕ
    → ℕ
    → Freshness
unfolding initial check_source
derive_freshness attempt generated source successful contract now =
    let v = initial attempt generated source successful in
    if not (is_some generated)
    then record v { state = never_generated; reason = "NO_SUCCESSFUL_GENERATION" }
    else if not (is_some (when_nominal attempt))
    then (if is_failed attempt
        then record v { state = State.failed; reason = "LATEST_GENERATION_FAILED" }
        else record v { reason = "LATEST_GENERATION_NOT_NOMINAL" })
    else check_source (truthy (fingerprint_of generated)) source contract now v
