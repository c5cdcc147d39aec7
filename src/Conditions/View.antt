-- ===== src/Conditions/View.antt =====
-- What a reader of the conditions sees, and when the reconciliation writes nothing.
use docplane.Base.{
  suc, String, ◌≡◌, refl, sym, ◌∙◌, Bool, true, false, not, ◌||◌, Option, none, some, List, [], ◌∷◌,
  arith, eq_iff, if◌then◌else◌,
}
use docplane.Base.Sets.{
  mem, distinct, difference, empty_of_mem, mem-keep, distinct-head, distinct-tail,
}
use docplane.Base.Sorting.{sort, sort_by, mem-sort}
use docplane.Base.Dict.{
  Dict, keys, entry_key, lookup, lookup-sort_by, mem-keys, distinct-keys-sort_by,
}
use docplane.Conditions.{
  Status, unresolved, Briefings, Condition, Progress, Context, start, is_changed, write_desired,
  write_all, resolve_row, resolve_all, reconcile_rows,
}
use docplane.Conditions.Rows.{row_after, row_existing, row_left, lookup-reconcile_rows}
use docplane.Conditions.Kinds.{
  Category, opening, reopening, refreshing, continuing, resolving, same_category, listed, belongs,
  mem-listed,
}

-- The briefing of a row that is open.
abbrev pub open_briefing {ℓ} : {B : Type ℓ} → Status → B → Option B
open_briefing unresolved b = some b
open_briefing Status.resolved b = none

module _ {B : Type 0} where
  -- What `GET …/conditions?status=OPEN` shows of a kind's row.
  abbrev pub shown : Option (Condition B) → Option B
  shown none = none
  shown (some r) = open_briefing r.status r.briefing

module _ {B : Type 0} (j : Briefings B) (ctx : Context) where
  shown-row_after :
      (kind : String) (old : Option (Condition B)) (wanted : Option B)
      → shown (row_after j ctx kind old wanted) ≡ wanted
  shown-row_after kind none none = refl
  shown-row_after kind none (some b) = refl
  shown-row_after kind (some r) none = ground arith
  shown-row_after kind (some r) (some b) = ground (arith, j.same_iff r.briefing b)

  -- After the reconciliation the open conditions are exactly the desired ones, with the desired
  -- briefings: nothing is missing, nothing is left over, whatever the table held.
  pub shown-reconcile_rows :
      (current : Dict (Condition B)) (desired : Dict B) (k : String)
      → distinct (keys current) ≡ true
      → distinct (keys desired) ≡ true
      → shown (lookup k (reconcile_rows j ctx current desired).rows) ≡ lookup k desired
  shown-reconcile_rows current desired k c d =
      rw (lookup-reconcile_rows j ctx current desired k c d)
        (shown-row_after k (lookup k current) (lookup k desired))

  -- The table shows what is desired.
  abbrev pub IsCurrent : Dict (Condition B) → Dict B → Type 0
  IsCurrent current desired = (k : String) → shown (lookup k current) ≡ lookup k desired

  belongs-IsCurrent :
      (c : Category) (old : Option (Condition B)) (wanted : Option B)
      → shown old ≡ wanted
      → same_category c continuing ≡ false
      → belongs j ctx c old wanted ≡ false
  unfolding same_category
  belongs-IsCurrent c none none h n = ground arith
  belongs-IsCurrent c none (some b) h n = cc
  belongs-IsCurrent c (some r) none h n = ground arith
  belongs-IsCurrent c (some r) (some b) h n = ground (arith, j.same_iff r.briefing b)

  listed-IsCurrent :
      (c : Category) (current : Dict (Condition B)) (desired : Dict B)
      → distinct (keys desired) ≡ true
      → IsCurrent current desired
      → same_category c continuing ≡ false
      → listed j ctx c (reconcile_rows j ctx current desired) ≡ []
  listed-IsCurrent c current desired d h n = empty_of_mem _ λ k.
      mem-listed j ctx c current desired k d
      ∙ belongs-IsCurrent c (lookup k current) (lookup k desired) (h k) n

  -- A kind that is already open with its desired briefing is passed over.
  rows-write_desired :
      (old : Option (Condition B)) (kind : String) (b : B) (p : Progress B)
      → shown old ≡ some b
      → (write_desired j ctx old kind b p).rows ≡ p.rows
  unfolding write_desired
  rows-write_desired none kind b p h = cc
  rows-write_desired (some r) kind b p h = ground (arith, j.same_iff r.briefing b)

  abbrev AreShown : Dict (Condition B) → Dict B → Type 0
  AreShown current [] = Unit
  AreShown current ((kind, b) ∷ rest) =
      (shown (lookup kind current) ≡ some b) × AreShown current rest

  rows-write_all :
      (current : Dict (Condition B)) (items : Dict B) (p : Progress B)
      → AreShown current items
      → (write_all j ctx current items p).rows ≡ p.rows
  unfolding write_all
  rows-write_all current [] p h = refl
  rows-write_all current ((kind, b) ∷ rest) p h =
      rows-write_all current rest (write_desired j ctx (lookup kind current) kind b p) h.1
      ∙ rows-write_desired (lookup kind current) kind b p h.0

  AreShown-of_lookup :
      (current : Dict (Condition B)) (items : Dict B)
      → distinct (keys items) ≡ true
      → ((k : String) (b : B) → lookup k items ≡ some b → shown (lookup k current) ≡ some b)
      → AreShown current items
  unfolding lookup
  AreShown-of_lookup current [] d h = tt
  AreShown-of_lookup current ((kind, b) ∷ rest) d h = (
    h kind b (ground (arith, eq_iff kind kind)),
    AreShown-of_lookup current rest (distinct-tail kind (keys rest) d) (λ k c e.
        h k c
          (ground (arith, distinct-head kind (keys rest) d, mem-keys kind rest, eq_iff kind k))),
  )

  rows-resolve_row :
      (old : Option (Condition B)) (kind : String) (p : Progress B)
      → shown old ≡ none
      → (resolve_row j ctx old kind p).rows ≡ p.rows
  unfolding resolve_row
  rows-resolve_row none kind p h = refl
  rows-resolve_row (some r) kind p h = ground arith

  rows-resolve_all :
      (current : Dict (Condition B)) (ks : List String) (p : Progress B)
      → ((k : String) → mem k ks ≡ true → shown (lookup k current) ≡ none)
      → (resolve_all j ctx current ks p).rows ≡ p.rows
  unfolding resolve_all mem
  rows-resolve_all current [] p h = refl
  rows-resolve_all current (kind ∷ ks) p h =
      rows-resolve_all current ks (resolve_row j ctx (lookup kind current) kind p)
        (λ k m. h k (ground arith))
      ∙ rows-resolve_row (lookup kind current) kind p (h kind (ground (arith, eq_iff kind kind)))

  -- Where the open conditions are already the desired ones, nothing is written: every row, resolved
  -- or open, stays as it is, version and times included, and the answer says unchanged.
  pub reconcile_rows_unchanged :
      (current : Dict (Condition B)) (desired : Dict B)
      → distinct (keys desired) ≡ true
      → IsCurrent current desired
      → ((reconcile_rows j ctx current desired).rows ≡ current)
        × (is_changed (reconcile_rows j ctx current desired) ≡ false)
  unfolding is_changed same_category
  reconcile_rows_unchanged current desired d h = (
    unfold reconcile_rows in
        (rows-resolve_all current (sort (difference (keys current) (keys desired))) _ (λ k m.
            h k
            ∙ ground (
              arith,
              mem-sort k (difference (keys current) (keys desired)),
              mem-keep (λ x. not (mem x (keys desired))) k (keys current),
              mem-keys k desired,
            ))
          ∙ rows-write_all current (sort_by entry_key desired) (start current) (
              AreShown-of_lookup current (sort_by entry_key desired)
                (distinct-keys-sort_by desired d)
                (λ k b e. h k ∙ sym (lookup-sort_by k desired) ∙ e))),
    ground (
      arith,
      listed-IsCurrent opening current desired d h refl,
      listed-IsCurrent reopening current desired d h refl,
      listed-IsCurrent refreshing current desired d h refl,
      listed-IsCurrent resolving current desired d h refl,
    ),
  )

  -- What becomes of a row that is there.
  abbrev row_kept : Condition B → Option B → Condition B
  row_kept r none = row_left j ctx r.status r
  row_kept r (some b) = row_existing j ctx r.status r b

  row_after-row_kept :
      (kind : String) (r : Condition B) (wanted : Option B)
      → row_after j ctx kind (some r) wanted ≡ some (row_kept r wanted)
  row_after-row_kept kind r none = refl
  row_after-row_kept kind r (some b) = refl

  abbrev KeepsIdentity : Condition B → Condition B → Bool → Type 0
  KeepsIdentity r r' bumped =
      (r'.condition_id ≡ r.condition_id)
      × (r'.created_by ≡ r.created_by)
      × (r'.first_seen_at ≡ r.first_seen_at)
      × (r'.version ≡ (if bumped then suc r.version else r.version))

  row_kept-KeepsIdentity :
      (r : Condition B) (wanted : Option B)
      → KeepsIdentity r (row_kept r wanted) (
          belongs j ctx reopening (some r) wanted
          || belongs j ctx refreshing (some r) wanted
          || belongs j ctx resolving (some r) wanted)
  unfolding same_category
  row_kept-KeepsIdentity r none = ground arith
  row_kept-KeepsIdentity r (some b) = ground arith

  -- A row that was there keeps its id, its creator and the time when it was first seen, and its
  -- version grows by one exactly if the answer lists its kind as reopened, refreshed or resolved.
  pub identity-reconcile_rows :
      (current : Dict (Condition B)) (desired : Dict B) (k : String) (r : Condition B)
      → distinct (keys current) ≡ true
      → distinct (keys desired) ≡ true
      → lookup k current ≡ some r
      → let p = reconcile_rows j ctx current desired in
        (r' : Condition B) × (lookup k p.rows ≡ some r')
        × (r'.condition_id ≡ r.condition_id)
        × (r'.created_by ≡ r.created_by)
        × (r'.first_seen_at ≡ r.first_seen_at)
        × (r'.version ≡ (
            if mem k p.reopened || mem k p.refreshed || mem k p.resolved
            then suc r.version
            else r.version))
  identity-reconcile_rows current desired k r c d e =
      let (id, creator, seen, version) = row_kept-KeepsIdentity r (lookup k desired) in
      let at = λ (x : Category). mem-listed j ctx x current desired k d in
      (
        row_kept r (lookup k desired),
        (rw (lookup-reconcile_rows j ctx current desired k c d, e)
            (row_after-row_kept k r (lookup k desired))),
        id,
        creator,
        seen,
        (rw (at reopening, at refreshing, at resolving, e) version),
      )

-- Reconciling the same desired set again, at a later time or by another principal, changes no row
-- and reports no change.
pub reconcile_rows_twice :
    {B : Type 0} (j : Briefings B) (ctx later : Context) (current : Dict (Condition B))
    (desired : Dict B)
    → distinct (keys current) ≡ true
    → distinct (keys desired) ≡ true
    → let first = reconcile_rows j ctx current desired in
      let second = reconcile_rows j later first.rows desired in
      (second.rows ≡ first.rows) × (is_changed second ≡ false)
reconcile_rows_twice j ctx later current desired c d =
    reconcile_rows_unchanged j later (reconcile_rows j ctx current desired).rows desired d
      (λ k. shown-reconcile_rows j ctx current desired k c d)
