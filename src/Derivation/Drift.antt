-- ===== src/Derivation/Drift.antt =====
-- When an artifact is reported as DRIFTED, from the observations alone.
use docplane.Base.{
  ℕ, String, ◌≡◌, refl, ap, ◌∙◌, Bool, true, false, not, ◌&&◌, Option, none, some, List, ◌∷◌, ◌++◌,
  map, arith, ◌==◌, eq_refl, if◌then◌else◌, is_some,
}
use docplane.Base.Sets.{mem}
use docplane.Base.Sorting.{mem-sort}
use docplane.Base.Dict.{Dict}
use docplane.Json.{Json}
use docplane.Runner.{condition_kinds}
use docplane.Freshness.{
  Observation, fingerprint_of, when_nominal, successful_source, derive_freshness,
}
use docplane.Derivation.Catalogues.{EntityCatalogueState}
use docplane.Derivation.Artifact.{
  ArtifactStatus, derive_conditions, condition_kind_of, drifted_test, is_mismatch, is_drifted_state,
}
use docplane.Derivation.Kinds.{
  select, mem-select, artifact_tests, catalogue_tests, kinds-derive_conditions,
}

abbrev pub has_fingerprint : Option String → Bool
has_fingerprint none = false
has_fingerprint (some f) = not (f == "")

-- Two fingerprints that are both there, not empty, and not the same.
abbrev pub are_different : Option String → Option String → Bool
are_different (some f) (some g) = not (f == "") && not (g == "") && not (f == g)
are_different _ _ = false

-- The observation of the source that counts against a generation: the latest one if it and the
-- latest generation are nominal and it has a fingerprint, the last successful one otherwise.
abbrev pub counted :
    Option Observation → Option Observation → Option Observation → Option Observation
counted attempt source successful =
    if is_some (when_nominal attempt) && has_fingerprint (fingerprint_of (when_nominal source))
    then source
    else successful_source successful source

mismatch_iff_different :
    (attempt generated source successful : Option Observation) (contract : Option ℕ) (now : ℕ)
    → is_mismatch
        (derive_freshness attempt generated source successful contract
          now).projection_correspondence
      ≡ are_different
          (fingerprint_of generated)
          (fingerprint_of (counted attempt source successful))
unfolding derive_freshness
mismatch_iff_different attempt generated source successful contract now = ground arith

mem-select_head :
    (k : String) (b : Bool) (bs : List Bool) (ks : List String)
    → mem k ks ≡ false
    → mem k (select (b ∷ bs) (k ∷ ks)) ≡ b
unfolding select mem
mem-select_head k b bs ks h = ground (arith, mem-select k bs ks, eq_refl k)

drifted_is_mismatch :
    (attempt generated source successful : Option Observation) (contract : Option ℕ) (now : ℕ)
    → is_drifted_state (derive_freshness attempt generated source successful contract now).state
      ≡ true
    → is_mismatch
        (derive_freshness attempt generated source successful contract
          now).projection_correspondence
      ≡ true
unfolding derive_freshness
drifted_is_mismatch attempt generated source successful contract now h = ground arith

-- With the verdict of `derive_freshness`, DRIFTED is among the kinds that are derived for an artifact
-- exactly if the fingerprint of the last successful generation and the one that counts of the source
-- are both there, neither is empty, and they differ. The time, the contract and the catalogues do
-- not matter.
pub drifted_iff_different :
    (bound : Json → Json) (a : ArtifactStatus) (statuses : Dict String)
    (es : List EntityCatalogueState) (attempt generated source successful : Option Observation)
    (contract : Option ℕ) (now : ℕ)
    → a.freshness ≡ derive_freshness attempt generated source successful contract now
    → mem "DRIFTED" (map condition_kind_of (derive_conditions bound a statuses es))
      ≡ are_different
          (fingerprint_of generated)
          (fingerprint_of (counted attempt source successful))
unfolding mem
drifted_iff_different bound a statuses es attempt generated source successful contract now derived =
    ap (mem "DRIFTED") (kinds-derive_conditions bound a statuses es)
    ∙ mem-sort "DRIFTED" (select (artifact_tests a ++ catalogue_tests es) condition_kinds)
    ∙ mem-select_head "DRIFTED" (drifted_test a) _ _ refl
    ∙ ground (
      arith,
      drifted_is_mismatch attempt generated source successful contract now,
      mismatch_iff_different attempt generated source successful contract now,
      ap (λ f. is_mismatch f.projection_correspondence) derived,
      ap (λ f. is_drifted_state f.state) derived,
    )
