-- ===== src/Derivation/Kinds.antt =====
-- The kinds of the derived conditions, one for each test that holds.
use docplane.Base.{
  ℕ, ◌≡◌, refl, sym, ◌∙◌, ap, String, Bool, true, false, not, ◌&&◌, Option, List, [], ◌∷◌, ◌++◌,
  map, arith, eq_refl, if◌then◌else◌,
}
use docplane.Base.Lists.{length, keep, any, nonempty}
use docplane.Base.Sets.{mem, distinct, dedup_self}
use docplane.Base.Sorting.{
  sort, sort_by, map-sort_by, mem-sort, distinct-sort, sort-is_sorted, is_sorted, sort_self,
}
use docplane.Base.Dict.{Dict}
use docplane.Json.{Json}
use docplane.Checked.{passed}
use docplane.Runner.{condition_kinds, check_request}
use docplane.Runner.Accept.{same_texts_refl}
use docplane.Freshness.{Observation, fresh, derive_freshness}
use docplane.Derivation.Catalogues.{
  Condition, EntityCatalogueState, catalogues_conditions, is_missing, is_drifted, entity_id_of,
  condition, catalogues_missing, catalogues_drifted,
}
use docplane.Derivation.Artifact.{
  ArtifactStatus, artifact_conditions, derive_conditions, one_if, condition_kind_of, drifted_test,
  generation_failed_test, source_missing_test, source_failed_test, source_expired_test,
  contract_missing_test, owner_inactive_test, is_mismatch, is_expired,
}

-- The names whose test holds.
unfoldable pub select : List Bool → List String → List String
select (b ∷ bs) (k ∷ ks) = let rest = select bs ks in if b then k ∷ rest else rest
select _ _ = []

pub mem-select :
    (k : String) (bs : List Bool) (ks : List String) → mem k (select bs ks) ≡ true → mem k ks ≡ true
unfolding select mem
mem-select k [] ks h = cc
mem-select k (b ∷ bs) [] h = cc
mem-select k (b ∷ bs) (x ∷ ks) h = ground (arith, mem-select k bs ks)

distinct-select :
    (bs : List Bool) (ks : List String) → distinct ks ≡ true → distinct (select bs ks) ≡ true
unfolding select distinct
distinct-select [] ks h = refl
distinct-select (b ∷ bs) [] h = refl
distinct-select (b ∷ bs) (x ∷ ks) h = ground (arith, distinct-select bs ks, mem-select x bs ks)

select-append :
    (us bs : List Bool) (ks ls : List String)
    → length us ≡ length ks
    → select (us ++ bs) (ks ++ ls) ≡ select us ks ++ select bs ls
unfolding select
select-append [] bs [] ls h = refl
select-append [] bs (k ∷ ks) ls h = ground arith
select-append (u ∷ us) bs [] ls h = ground arith
select-append (true ∷ us) bs (k ∷ ks) ls h =
    ap (λ r. k ∷ r) (select-append us bs ks ls (omega arith))
select-append (false ∷ us) bs (k ∷ ks) ls h = select-append us bs ks ls (omega arith)

kinds_of-append :
    (cs ds : List Condition)
    → map condition_kind_of (cs ++ ds) ≡ map condition_kind_of cs ++ map condition_kind_of ds
kinds_of-append [] ds = refl
kinds_of-append (c ∷ cs) ds = ap (λ r. c.condition_kind ∷ r) (kinds_of-append cs ds)

step :
    (b : Bool) (c : Condition) (rest : List Condition) (bs : List Bool) (ks : List String)
    → map condition_kind_of rest ≡ select bs ks
    → map condition_kind_of (one_if b c ++ rest) ≡ select (b ∷ bs) (c.condition_kind ∷ ks)
unfolding select
step true c rest bs ks h = ap (λ r. c.condition_kind ∷ r) h
step false c rest bs ks h = h

last_step :
    (b : Bool) (c : Condition)
    → map condition_kind_of (one_if b c) ≡ select (b ∷ []) (c.condition_kind ∷ [])
unfolding select
last_step true c = refl
last_step false c = refl

all_known :
    (xs : List String)
    → ((k : String) → mem k xs ≡ true → mem k condition_kinds ≡ true)
    → any (λ k. not (mem k condition_kinds)) xs ≡ false
unfolding any mem
all_known [] h = refl
all_known (x ∷ xs) h = ground (arith, h x, eq_refl x, all_known xs (λ k m. h k (ground arith)))

check_request_passes :
    (xs : List String)
    → distinct xs ≡ true
    → is_sorted xs ≡ true
    → ((k : String) → mem k xs ≡ true → mem k condition_kinds ≡ true)
    → check_request xs ≡ passed tt
unfolding check_request
check_request_passes xs d s h =
    rw (dedup_self xs d, sort_self xs s, same_texts_refl xs, all_known xs h) refl

unfoldable pub some_missing : List EntityCatalogueState → Bool
unfolding keep is_missing sort_by
some_missing es = nonempty (keep is_missing (sort_by entity_id_of es))

unfoldable pub some_drifted : List EntityCatalogueState → Bool
unfolding keep is_drifted sort_by
some_drifted es = nonempty (keep is_drifted (sort_by entity_id_of es))

abbrev pub artifact_tests : ArtifactStatus → List Bool
artifact_tests a =
    drifted_test a
    ∷ generation_failed_test a
    ∷ source_missing_test a
    ∷ source_failed_test a
    ∷ source_expired_test a
    ∷ contract_missing_test a
    ∷ owner_inactive_test a
    ∷ []

abbrev pub catalogue_tests : List EntityCatalogueState → List Bool
catalogue_tests es = some_missing es ∷ some_drifted es ∷ []

abbrev artifact_kinds : List String
artifact_kinds =
    "DRIFTED" ∷ "GENERATION_FAILED" ∷ "SOURCE_OBSERVATION_MISSING" ∷ "SOURCE_OBSERVATION_FAILED"
    ∷ "SOURCE_OBSERVATION_EXPIRED" ∷ "EXECUTION_CONTRACT_MISSING" ∷ "EXECUTION_OWNER_INACTIVE" ∷ []

abbrev catalogue_kinds : List String
catalogue_kinds = "CATALOGUES_MISSING" ∷ "CATALOGUES_DRIFTED" ∷ []

module _ (bound : Json → Json) (a : ArtifactStatus) (statuses : Dict String) where
  kinds-artifact_conditions :
      map condition_kind_of (artifact_conditions bound a statuses)
      ≡ select (artifact_tests a) artifact_kinds
  unfolding artifact_conditions condition
  kinds-artifact_conditions = step (drifted_test a) _ _ _ _ (
      step (generation_failed_test a) _ _ _ _ (
        step (source_missing_test a) _ _ _ _ (
          step (source_failed_test a) _ _ _ _ (
            step (source_expired_test a) _ _ _ _
              (step (contract_missing_test a) _ _ _ _ (last_step (owner_inactive_test a) _))))))

  kinds-catalogues_conditions :
      (es : List EntityCatalogueState)
      → map condition_kind_of (catalogues_conditions bound a.artifact_id a.artifact_key es)
        ≡ select (catalogue_tests es) catalogue_kinds
  unfolding catalogues_conditions catalogues_missing catalogues_drifted condition some_missing
      some_drifted
  kinds-catalogues_conditions es = step (some_missing es) _ _ _ _ (last_step (some_drifted es) _)

  -- The kinds are those whose test holds, in order of their names.
  pub kinds-derive_conditions :
      (es : List EntityCatalogueState)
      → map condition_kind_of (derive_conditions bound a statuses es)
        ≡ sort (select (artifact_tests a ++ catalogue_tests es) condition_kinds)
  unfolding derive_conditions
  kinds-derive_conditions es =
      map-sort_by condition_kind_of (artifact_conditions bound a statuses ++ cs)
      ∙ ap sort (
          kinds_of-append (artifact_conditions bound a statuses) cs
          ∙ ap (λ r. r ++ map condition_kind_of cs) kinds-artifact_conditions
          ∙ ap (λ r. select (artifact_tests a) artifact_kinds ++ r) (kinds-catalogues_conditions es)
          ∙ sym (
              select-append (artifact_tests a) (catalogue_tests es) artifact_kinds catalogue_kinds
                refl))
    where
      cs : List Condition
      cs = catalogues_conditions bound a.artifact_id a.artifact_key es

  -- The command never refuses a derived set: its check of the kinds passes.
  pub check_request-derive_conditions :
      (es : List EntityCatalogueState)
      → check_request (map condition_kind_of (derive_conditions bound a statuses es)) ≡ passed tt
  unfolding check_request distinct
  check_request-derive_conditions es = rw (kinds-derive_conditions es) (
      check_request_passes (sort held)
        (distinct-sort held
          ∙ distinct-select (artifact_tests a ++ catalogue_tests es) condition_kinds refl)
        (sort-is_sorted held)
        (λ k m.
          mem-select k (artifact_tests a ++ catalogue_tests es) condition_kinds
            (sym (mem-sort k held) ∙ m)))
    where
      held : List String
      held = select (artifact_tests a ++ catalogue_tests es) condition_kinds

and_false : (b : Bool) → (b && false) ≡ false
and_false true = refl
and_false false = refl

fresh_facts :
    (attempt generated source successful : Option Observation) (contract : Option ℕ) (now : ℕ)
    → (derive_freshness attempt generated source successful contract now).state ≡ fresh
    → ((derive_freshness attempt generated source successful contract now).reason
        ≡ "FINGERPRINTS_MATCH")
      × (is_mismatch
            (derive_freshness attempt generated source successful contract
              now).projection_correspondence
          ≡ false)
      × (is_expired
            (derive_freshness attempt generated source successful contract
              now).source_observation_status
          ≡ false)
unfolding derive_freshness
fresh_facts attempt generated source successful contract now h =
    (ground arith, ground arith, ground arith)

-- What the tests of an artifact say when its freshness is the verdict of `derive_freshness`.
module _ (a : ArtifactStatus) (attempt generated source successful : Option Observation)
    (contract : Option ℕ) (now : ℕ)
    (derived : a.freshness
      ≡ derive_freshness attempt generated source successful contract now) where
  -- An artifact that is fresh under a declared contract has no condition of its own.
  pub quiet_when_fresh :
      a.freshness.state ≡ fresh
      → a.execution_contract_status ≡ "DECLARED"
      → artifact_tests a ≡ false ∷ false ∷ false ∷ false ∷ false ∷ false ∷ false ∷ []
  quiet_when_fresh h d =
      let facts =
        fresh_facts attempt generated source successful contract now
          (sym (ap (λ f. f.state) derived) ∙ h) in
      let reason = ap (λ f. f.reason) derived ∙ facts.0 in
      let matching = ap (λ f. is_mismatch f.projection_correspondence) derived ∙ facts.1 in
      let young = ap (λ f. is_expired f.source_observation_status) derived ∙ facts.2 in
      rw (h, reason, matching, young, d, and_false) refl
