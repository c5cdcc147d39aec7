-- ===== src/Freshness/Verdict.antt =====
-- When the verdict is FRESH, and what time can change of a verdict.
use docplane.Base.{
  ℕ, ◌+◌, ◌≤◌, String, ◌≡◌, refl, ◌≢◌, ◌⊎◌, ◌↔◌, true, Option, none, some, arith, eq_iff, is_some,
}
use docplane.Freshness.{
  Observation, State, fresh, drifted, Freshness, fingerprint_of, when_nominal, derive_freshness,
}

-- The observation is younger than the contract's age allows; with no contract it never ages.
abbrev pub WithinAge : Option ℕ → Option ℕ → ℕ → Type 0
WithinAge none observed now = Unit
WithinAge (some age) none now = ⊥
WithinAge (some age) (some t) now = now ≤ t + age

abbrev pub ObservedWithin : Option Observation → Option ℕ → ℕ → Type 0
ObservedWithin none contract now = ⊥
ObservedWithin (some o) contract now = WithinAge contract o.observed_at now

-- The evidence that the latest generation succeeded and that the latest observation of the source is
-- nominal, young enough, and shows the fingerprint from which the artifact was generated.
pub record IsFreshEvidence (attempt generated source : Option Observation) (contract : Option ℕ)
    (now : ℕ) : Type 0 where
  pub generated_last : is_some (when_nominal attempt) ≡ true
  pub fingerprint : String
  pub not_empty : fingerprint ≢ ""
  pub generated_from : fingerprint_of generated ≡ some fingerprint
  pub observed : fingerprint_of (when_nominal source) ≡ some fingerprint
  pub within : ObservedWithin source contract now

module _ (attempt generated source successful : Option Observation) (contract : Option ℕ) where
  abbrev verdict : ℕ → Freshness
  verdict now = derive_freshness attempt generated source successful contract now

  -- A verdict of drift does not depend on the time.
  pub drifted_always :
      (now later : ℕ) → (verdict now).state ≡ drifted → (verdict later).state ≡ drifted
  unfolding derive_freshness
  drifted_always now later h = ground arith

  -- What is fresh at some time is fresh at every later time, or its observation expired: time alone
  -- never makes it drifted or failed.
  pub fresh_or_expired :
      (now later : ℕ)
      → now ≤ later
      → (verdict now).state ≡ fresh
      → ((verdict later).state ≡ fresh)
        ⊎ (((verdict later).state ≡ State.unknown)
            × ((verdict later).reason ≡ "SOURCE_OBSERVATION_EXPIRED"))
  unfolding derive_freshness
  fresh_or_expired now later le h = ground arith

fresh_evidence :
    (attempt generated source successful : Option Observation) (contract : Option ℕ) (now : ℕ)
    → (derive_freshness attempt generated source successful contract now).state ≡ fresh
    → IsFreshEvidence attempt generated source contract now
unfolding derive_freshness
fresh_evidence attempt none source successful contract now h = cc
fresh_evidence attempt (some g) none successful contract now h = ground arith
fresh_evidence attempt (some g) (some o) successful contract now h =
    go g.source_fingerprint o.source_fingerprint refl refl
  where
    go :
        (a b : Option String)
        → g.source_fingerprint ≡ a
        → o.source_fingerprint ≡ b
        → IsFreshEvidence attempt (some g) (some o) contract now
    go none b ea eb = ground arith
    go (some x) none ea eb = ground arith
    go (some x) (some y) ea eb = record {
      generated_last = ground arith;
      fingerprint = x;
      not_empty = ground (arith, eq_iff x "");
      generated_from = ea;
      observed = ground (arith, eq_iff x y);
      within = ground arith;
    }

evidence_fresh :
    (attempt generated source successful : Option Observation) (contract : Option ℕ) (now : ℕ)
    → IsFreshEvidence attempt generated source contract now
    → (derive_freshness attempt generated source successful contract now).state ≡ fresh
unfolding derive_freshness
evidence_fresh attempt generated source successful contract now e =
    ground (arith, eq_iff e.fingerprint "", eq_iff e.fingerprint e.fingerprint)

-- FRESH exactly on such evidence.
pub fresh_iff :
    (attempt generated source successful : Option Observation) (contract : Option ℕ) (now : ℕ)
    → ((derive_freshness attempt generated source successful contract now).state ≡ fresh)
      ↔ IsFreshEvidence attempt generated source contract now
fresh_iff attempt generated source successful contract now = (
  fresh_evidence attempt generated source successful contract now,
  evidence_fresh attempt generated source successful contract now,
)
