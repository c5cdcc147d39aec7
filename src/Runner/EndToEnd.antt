-- ===== src/Runner/EndToEnd.antt =====
-- The answer of the WORK service passes the command's check.
use docplane.Base.{
  String, ◌≡◌, refl, sym, ◌∙◌, true, not, ◌||◌, Option, none, some, List, arith, eq_refl, is_some,
}
use docplane.Base.Sets.{mem, distinct, dedup_self}
use docplane.Base.Sorting.{sort, mem-sort, distinct-sort}
use docplane.Base.Dict.{Dict, keys, lookup, mem-keys}
use docplane.Json.{as_texts-texts}
use docplane.Checked.{passed}
use docplane.Conditions.{Briefings, Condition, Progress, Context, reconcile_rows, is_changed}
use docplane.Conditions.Kinds.{
  Category, opening, reopening, refreshing, continuing, resolving, same_category, listed, belongs,
  mem-listed, distinct-listed,
}
use docplane.Conditions.Reconcile.{response_of, response_json}
use docplane.Runner.{
  condition_kinds, Collections, check_kinds, check_partition, check_changed, bounded_receipt,
}
use docplane.Runner.Accept.{places, count_if, any_of, check_partition_complete}

-- Every text of the list is one of `CONDITION_KINDS`.
abbrev pub AreKinds : List String → Type 0
AreKinds xs = (k : String) → mem k xs ≡ true → mem k condition_kinds ≡ true

check_kinds_lem :
    (xs : List String) → distinct xs ≡ true → AreKinds xs → check_kinds (some xs) ≡ passed xs
unfolding check_kinds
check_kinds_lem xs d h = ground (
  arith,
  dedup_self xs d,
  any_of (λ k. not (mem k condition_kinds)) xs (λ k m. ground (arith, h k m)),
)

module _ {B : Type 0} (j : Briefings B) (ctx : Context) (current : Dict (Condition B))
    (desired : Dict B) (c : distinct (keys current) ≡ true)
    (d : distinct (keys desired) ≡ true) where
  abbrev progress : Progress B
  progress = reconcile_rows j ctx current desired

  abbrev pub collections_of : Collections
  collections_of = record {
    desired_condition_kinds = sort (keys desired);
    opened = progress.opened;
    reopened = progress.reopened;
    refreshed = progress.refreshed;
    resolved = progress.resolved;
    continuing = progress.continuing;
  }

  places_of : (k : String) → places k collections_of ≡ count_if (mem k (sort (keys desired)))
  unfolding same_category
  places_of k = ground (
    arith,
    mem-listed j ctx opening current desired k d,
    mem-listed j ctx reopening current desired k d,
    mem-listed j ctx refreshing current desired k d,
    mem-listed j ctx continuing current desired k d,
    mem-sort k (keys desired),
    mem-keys k desired,
  )

  partition_of : check_partition (sort (keys desired)) collections_of ≡ passed tt
  partition_of =
      check_partition_complete (sort (keys desired)) collections_of refl
        (
          distinct-listed j ctx opening current desired c d,
          distinct-listed j ctx reopening current desired c d,
          distinct-listed j ctx refreshing current desired c d,
          distinct-listed j ctx continuing current desired c d,
        )
        places_of
        (λ k.
          unfold same_category in
          ground (
            arith,
            mem-listed j ctx resolving current desired k d,
            mem-sort k (keys desired),
            mem-keys k desired,
          ))

  changed_of : check_changed (is_changed progress) collections_of ≡ passed tt
  unfolding check_changed is_changed
  changed_of = ground arith

  belongs-some :
      (x : Category) (old : Option (Condition B)) (wanted : Option B)
      → belongs j ctx x old wanted ≡ true
      → (is_some old || is_some wanted) ≡ true
  unfolding same_category
  belongs-some x old (some b) h = ground arith
  belongs-some x (some r) none h = ground arith
  belongs-some x none none h = ground arith

  module _ (known : AreKinds (keys current)) (wanted : AreKinds (keys desired)) where
    AreKinds-listed : (x : Category) → AreKinds (listed j ctx x progress)
    AreKinds-listed x k m = ground (
      arith,
      mem-listed j ctx x current desired k d,
      belongs-some x (lookup k current) (lookup k desired),
      mem-keys k current,
      mem-keys k desired,
      known k,
      wanted k,
    )

    kinds_listed :
        (x : Category)
        → check_kinds (some (listed j ctx x progress)) ≡ passed (listed j ctx x progress)
    kinds_listed x =
        check_kinds_lem (listed j ctx x progress) (distinct-listed j ctx x current desired c d)
          (AreKinds-listed x)

    kinds_desired : check_kinds (some (sort (keys desired))) ≡ passed (sort (keys desired))
    kinds_desired =
        check_kinds_lem (sort (keys desired)) (distinct-sort (keys desired) ∙ d)
          (λ k m. wanted k (sym (mem-sort k (keys desired)) ∙ m))

    -- Whatever the table held and whatever set of known kinds is desired, the command accepts the
    -- answer of the reconciliation as it stands.
    pub bounded_receipt-response :
        (canonical_uuid : String → Option String) (artifact_id : String)
        → canonical_uuid artifact_id ≡ some artifact_id
        → bounded_receipt canonical_uuid
            (response_json (response_of artifact_id desired progress))
            artifact_id
            (sort (keys desired))
          ≡ passed (record {
            artifact_id = artifact_id;
            collections = collections_of;
            changed = is_changed progress;
          })
    unfolding bounded_receipt response_json
    bounded_receipt-response canonical_uuid artifact_id e = ground (
      arith,
      e,
      eq_refl artifact_id,
      as_texts-texts (sort (keys desired)),
      as_texts-texts progress.opened,
      as_texts-texts progress.reopened,
      as_texts-texts progress.refreshed,
      as_texts-texts progress.resolved,
      as_texts-texts progress.continuing,
      kinds_desired,
      kinds_listed opening,
      kinds_listed reopening,
      kinds_listed refreshing,
      kinds_listed resolving,
      kinds_listed continuing,
      partition_of,
      changed_of,
    )
