-- ===== src/Derivation/Converged.antt =====
-- When the catalogue of an entity has converged: no condition is derived for it.
use docplane.Base.{
  ◌≡◌, refl, sym, ◌∙◌, ap, ◌↔◌, String, Bool, true, not, ◌&&◌, ◌||◌, List, [], ◌∷◌, map, arith,
}
use docplane.Base.Lists.{keep, all, nonempty}
use docplane.Base.Sorting.{sort, insert_by, sort_by}
use docplane.Json.{Json}
use docplane.Runner.{same_texts}
use docplane.Runner.Accept.{same_texts_refl, same_texts_sound}
use docplane.Derivation.Catalogues.{
  EntityCatalogueState, catalogues_conditions, is_missing, is_drifted, entity_id_of, desired_ids,
  actual_ids, unresolved, resource_ids, is_unresolved, target_path, CatalogueTarget,
}

-- What the source calls exact: every target has an active page, and the links are those of the
-- targets; an entity without targets has no links.
abbrev pub IsConverged : EntityCatalogueState → Type 0
IsConverged e = (unresolved e ≡ []) × (actual_ids e ≡ desired_ids e)

abbrev pub needs_nothing : EntityCatalogueState → Bool
needs_nothing e = not (is_missing e || is_drifted e)

inserted : (x : String) (xs : List String) → nonempty (insert_by (λ y. y) x xs) ≡ true
unfolding insert_by
inserted x [] = refl
inserted x (y ∷ ys) = ground arith

sort-nonempty : (xs : List String) → nonempty xs ≡ true → nonempty (sort xs) ≡ true
unfolding sort_by
sort-nonempty [] h = cc
sort-nonempty (x ∷ xs) h = inserted x (sort xs)

sort_empty : (xs : List String) → sort xs ≡ [] → xs ≡ []
sort_empty [] h = refl
sort_empty (x ∷ xs) h = ground (arith, sort-nonempty (x ∷ xs) refl)

resolved_first :
    (t : CatalogueTarget) (ts : List CatalogueTarget)
    → map target_path (keep is_unresolved (t ∷ ts)) ≡ []
    → nonempty (resource_ids (t ∷ ts)) ≡ true
unfolding keep resource_ids
resolved_first t ts h = ground arith

core :
    (ts : List CatalogueTarget) (links : List String)
    → not (
          nonempty ts
            && (not (nonempty links) || nonempty (sort (map target_path (keep is_unresolved ts))))
          || nonempty links && not (same_texts links (sort (resource_ids ts))))
        ≡ true
      ↔ (sort (map target_path (keep is_unresolved ts)) ≡ []) × (links ≡ sort (resource_ids ts))
unfolding keep resource_ids sort_by same_texts
core [] [] = (λ h. (refl, refl), λ h. refl)
core [] (l ∷ links) = (λ h. cc, λ h. cc)
core (t ∷ ts) links = (
  λ h. (ground arith, same_texts_sound links (sort (resource_ids (t ∷ ts))) (ground arith)),
  λ h. ground (
    arith,
    h,
    resolved_first t ts (sort_empty (map target_path (keep is_unresolved (t ∷ ts))) (h.0)),
    sort-nonempty (resource_ids (t ∷ ts)),
    same_texts_refl links,
  ),
)

needs_nothing_iff : (e : EntityCatalogueState) → needs_nothing e ≡ true ↔ IsConverged e
unfolding is_missing is_drifted
needs_nothing_iff e = core e.desired_targets (actual_ids e)

all-insert_by :
    {A : Type 0} (f : A → String) (q : A → Bool) (x : A) (xs : List A)
    → all q (insert_by f x xs) ≡ (q x && all q xs)
unfolding insert_by all
all-insert_by f q x [] = refl
all-insert_by f q x (y ∷ ys) = ground (arith, all-insert_by f q x ys)

all-sort_by :
    {A : Type 0} (f : A → String) (q : A → Bool) (xs : List A) → all q (sort_by f xs) ≡ all q xs
unfolding sort_by all
all-sort_by f q [] = refl
all-sort_by f q (x ∷ xs) =
    all-insert_by f q x (sort_by f xs) ∙ ap (λ b. q x && b) (all-sort_by f q xs)

abbrev pub AllConverged : List EntityCatalogueState → Type 0
AllConverged [] = Unit
AllConverged (e ∷ es) = IsConverged e × AllConverged es

all_converged : (es : List EntityCatalogueState) → all needs_nothing es ≡ true ↔ AllConverged es
unfolding all
all_converged [] = (λ h. tt, λ h. refl)
all_converged (e ∷ es) = (
  λ h. ((needs_nothing_iff e).0 (ground arith), (all_converged es).0 (ground arith)),
  λ h. rw ((needs_nothing_iff e).1 h.0) ((all_converged es).1 h.1),
)

none_kept :
    (es : List EntityCatalogueState)
    → (nonempty (keep is_missing es) || nonempty (keep is_drifted es)) ≡ not (all needs_nothing es)
unfolding keep all
none_kept [] = refl
none_kept (e ∷ es) = ground (arith, none_kept es)

-- No catalogue condition is derived exactly if the catalogue of every entity has converged.
pub catalogues_conditions-empty :
    (bound : Json → Json) (artifact_id artifact_key : String) (es : List EntityCatalogueState)
    → (catalogues_conditions bound artifact_id artifact_key es ≡ []) ↔ AllConverged es
unfolding catalogues_conditions
catalogues_conditions-empty bound artifact_id artifact_key es = (
  λ h. (all_converged es).0 (
      sym (all-sort_by entity_id_of needs_nothing es)
      ∙ ground (arith, none_kept (sort_by entity_id_of es))),
  λ h. ground (
    arith,
    none_kept (sort_by entity_id_of es),
    all-sort_by entity_id_of needs_nothing es,
    (all_converged es).1 h,
  ),
)
