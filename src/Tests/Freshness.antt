-- ===== src/Tests/Freshness.antt =====
-- An artifact that was generated from the source as it was last observed.
use docplane.Base.{◌≡◌, refl, ◌↔◌, ◌⊎◌, none, some, arith}
use docplane.Freshness.{nominal, Observation, State, fresh, drifted, derive_freshness}
use docplane.Freshness.Verdict.{IsFreshEvidence, fresh_iff, fresh_or_expired, drifted_always}

abbrev observation : Observation
observation = record {
  observation_id = some "o";
  observed_at = some 100;
  outcome = nominal;
  source_fingerprint = some "f";
}

fresh_now :
    (derive_freshness
      (some observation)
      (some observation)
      (some observation)
      none
      (some 50)
      120).state
    ≡ fresh
unfolding derive_freshness
fresh_now = refl

fresh_iff_example :
    ((derive_freshness
        (some observation)
        (some observation)
        (some observation)
        none
        (some 50)
        120).state
      ≡ fresh)
    ↔ IsFreshEvidence (some observation) (some observation) (some observation) (some 50) 120
fresh_iff_example =
    fresh_iff (some observation) (some observation) (some observation) none (some 50) 120

fresh_or_expired_example :
    ((derive_freshness
        (some observation)
        (some observation)
        (some observation)
        none
        (some 50)
        160).state
      ≡ fresh)
    ⊎ (((derive_freshness
            (some observation)
            (some observation)
            (some observation)
            none
            (some 50)
            160).state
          ≡ State.unknown)
        × ((derive_freshness
              (some observation)
              (some observation)
              (some observation)
              none
              (some 50)
              160).reason
            ≡ "SOURCE_OBSERVATION_EXPIRED"))
fresh_or_expired_example =
    fresh_or_expired (some observation) (some observation) (some observation) none (some 50) 120 160
      (omega arith) fresh_now

abbrev changed : Observation
changed = record observation { source_fingerprint = some "g" }

drifted_now :
    (derive_freshness (some observation) (some observation) (some changed) none (some 50) 120).state
    ≡ drifted
unfolding derive_freshness
drifted_now = refl

drifted_always_example :
    (derive_freshness (some observation) (some observation) (some changed) none (some 50) 500).state
    ≡ drifted
drifted_always_example =
    drifted_always (some observation) (some observation) (some changed) none (some 50) 120 500
      drifted_now
