-- ===== src/Conditions/Rows.antt =====
-- What the reconciliation leaves in the table, key by key.
use docplane.Base.{
  String, ◌≡◌, refl, true, not, ◌&&◌, Option, none, some, List, [], ◌∷◌, arith, ◌==◌, eq_iff,
  if◌then◌else◌, is_some,
}
use docplane.Base.Sets.{
  mem, distinct, difference, mem-keep, distinct-keep, mem-head, distinct-head, distinct-tail,
}
use docplane.Base.Sorting.{sort, sort_by, mem-sort, distinct-sort}
use docplane.Base.Dict.{
  Dict, keys, entry_key, lookup, lookup-insert, lookup-sort_by, mem-keys, distinct-keys-sort_by,
}
use docplane.Conditions.{
  Status, unresolved, Briefings, Condition, Progress, Context, fresh, reopened_row, refreshed_row,
  resolved_row, write_existing, write_desired, write_all, resolve_open, resolve_row, resolve_all,
  reconcile_rows, start,
}

module _ {B : Type 0} (j : Briefings B) (ctx : Context) where
  -- The row that a desired kind ends with, from the row it had.
  abbrev pub row_existing : Status → Condition B → B → Condition B
  row_existing Status.resolved r briefing = reopened_row j ctx r briefing
  row_existing unresolved r briefing =
      if j.same r.briefing briefing then r else refreshed_row j ctx r briefing

  abbrev pub row_desired : Option (Condition B) → String → B → Condition B
  row_desired none kind briefing = fresh j ctx kind briefing
  row_desired (some r) kind briefing = row_existing r.status r briefing

  -- The row that a kind ends with that is not desired.
  abbrev pub row_left : Status → Condition B → Condition B
  row_left Status.resolved r = r
  row_left unresolved r = resolved_row j ctx r

  abbrev pub row_dropped : Option (Condition B) → Option (Condition B)
  row_dropped none = none
  row_dropped (some r) = some (row_left r.status r)

  -- The row of a kind after both loops: a function of what was there and what is desired.
  abbrev pub row_after : String → Option (Condition B) → Option B → Option (Condition B)
  row_after kind old (some briefing) = some (row_desired old kind briefing)
  row_after kind old none = row_dropped old

  lookup-write_desired :
      (old : Option (Condition B)) (kind k : String) (b : B) (p : Progress B)
      → lookup kind p.rows ≡ old
      → lookup k (write_desired j ctx old kind b p).rows
        ≡ (if kind == k then some (row_desired old kind b) else lookup k p.rows)
  unfolding write_desired
  lookup-write_desired none kind k b p h = lookup-insert kind k (fresh j ctx kind b) p.rows
  lookup-write_desired (some r) kind k b p h = go r.status
    where
      go :
          (s : Status)
          → lookup k (write_existing j ctx s r kind b p).rows
            ≡ (if kind == k then some (row_existing s r b) else lookup k p.rows)
      go Status.resolved = lookup-insert kind k (reopened_row j ctx r b) p.rows
      go unresolved =
          ground (arith, lookup-insert kind k (refreshed_row j ctx r b) p.rows, eq_iff kind k)

  abbrev written :
      Option B → String → Option (Condition B) → Option (Condition B) → Option (Condition B)
  written none k old live = live
  written (some b) k old live = some (row_desired old k b)

  -- The rows still to be visited are those that the transaction read.
  abbrev Unvisited : Dict (Condition B) → List String → Progress B → Type 0
  Unvisited current ks p = (i : String) → mem i ks ≡ true → lookup i p.rows ≡ lookup i current

  Unvisited-write_desired :
      (current : Dict (Condition B)) (kind : String) (ks : List String) (b : B) (p : Progress B)
      → distinct (kind ∷ ks) ≡ true
      → Unvisited current (kind ∷ ks) p
      → Unvisited current ks (write_desired j ctx (lookup kind current) kind b p)
  unfolding distinct mem
  Unvisited-write_desired current kind ks b p d h i m = ground (
    arith,
    lookup-write_desired (lookup kind current) kind i b p
        (h kind (ground (arith, eq_iff kind kind))),
    h i,
    eq_iff kind i,
  )

  head-absent :
      (kind : String) (rest : Dict B) → distinct (kind ∷ keys rest) ≡ true → lookup kind rest ≡ none
  head-absent kind rest d = ground (arith, distinct-head kind (keys rest) d, mem-keys kind rest)

  lookup-write_all :
      (current : Dict (Condition B)) (items : Dict B) (k : String) (p : Progress B)
      → distinct (keys items) ≡ true
      → Unvisited current (keys items) p
      → lookup k (write_all j ctx current items p).rows
        ≡ written (lookup k items) k (lookup k current) (lookup k p.rows)
  unfolding write_all lookup
  lookup-write_all current [] k p d h = refl
  lookup-write_all current ((kind, b) ∷ rest) k p d h = ground (
    arith,
    lookup-write_all current rest k (write_desired j ctx (lookup kind current) kind b p)
        (distinct-tail kind (keys rest) d)
        (Unvisited-write_desired current kind (keys rest) b p d h),
    lookup-write_desired (lookup kind current) kind k b p (h kind (mem-head kind (keys rest))),
    head-absent kind rest d,
    eq_iff kind k,
  )

  lookup-resolve_row :
      (old : Option (Condition B)) (kind k : String) (p : Progress B)
      → lookup kind p.rows ≡ old
      → lookup k (resolve_row j ctx old kind p).rows
        ≡ (if kind == k then row_dropped old else lookup k p.rows)
  unfolding resolve_row
  lookup-resolve_row none kind k p h = ground (arith, eq_iff kind k)
  lookup-resolve_row (some r) kind k p h = go r.status h
    where
      go :
          (s : Status)
          → lookup kind p.rows ≡ some r
          → lookup k (resolve_open j ctx s r kind p).rows
            ≡ (if kind == k then some (row_left s r) else lookup k p.rows)
      go Status.resolved e = ground (arith, eq_iff kind k)
      go unresolved e = lookup-insert kind k (resolved_row j ctx r) p.rows

  lookup-resolve_all :
      (current : Dict (Condition B)) (ks : List String) (k : String) (p : Progress B)
      → distinct ks ≡ true
      → Unvisited current ks p
      → lookup k (resolve_all j ctx current ks p).rows
        ≡ (if mem k ks then row_dropped (lookup k current) else lookup k p.rows)
  unfolding resolve_all mem
  lookup-resolve_all current [] k p d h = refl
  lookup-resolve_all current (kind ∷ ks) k p d h = ground (
    arith,
    lookup-resolve_all current ks k (resolve_row j ctx (lookup kind current) kind p)
        (distinct-tail kind ks d)
        (λ i m. ground (
          arith,
          lookup-resolve_row (lookup kind current) kind i p (h kind (mem-head kind ks)),
          h i,
          distinct-head kind ks d,
          eq_iff kind i,
        )),
    lookup-resolve_row (lookup kind current) kind k p (h kind (mem-head kind ks)),
    distinct-head kind ks d,
    eq_iff kind k,
  )

  abbrev after_writes : Dict (Condition B) → Dict B → Progress B
  after_writes current desired = write_all j ctx current (sort_by entry_key desired) (start current)

  lookup-after_writes :
      (current : Dict (Condition B)) (desired : Dict B) (k : String)
      → distinct (keys desired) ≡ true
      → lookup k (after_writes current desired).rows
        ≡ written (lookup k desired) k (lookup k current) (lookup k current)
  lookup-after_writes current desired k d =
      rw
        (lookup-write_all current (sort_by entry_key desired) k (start current)
          (distinct-keys-sort_by desired d) (λ i m. refl))
        (rw (lookup-sort_by k desired))

  mem-dropped :
      (current : Dict (Condition B)) (desired : Dict B) (k : String)
      → mem k (sort (difference (keys current) (keys desired)))
        ≡ (not (is_some (lookup k desired)) && is_some (lookup k current))
  mem-dropped current desired k = rw (
    mem-sort k (difference (keys current) (keys desired)),
    mem-keep (λ x. not (mem x (keys desired))) k (keys current),
    mem-keys k desired,
    mem-keys k current,
  )

  -- Every kind's row after the reconciliation is the function `row_after` of its row before and of
  -- the briefing that is desired for it.
  pub lookup-reconcile_rows :
      (current : Dict (Condition B)) (desired : Dict B) (k : String)
      → distinct (keys current) ≡ true
      → distinct (keys desired) ≡ true
      → lookup k (reconcile_rows j ctx current desired).rows
        ≡ row_after k (lookup k current) (lookup k desired)
  unfolding reconcile_rows
  lookup-reconcile_rows current desired k c d =
      let dropped = sort (difference (keys current) (keys desired)) in
      ground (
        arith,
        lookup-resolve_all current dropped k (after_writes current desired)
            (rw distinct-sort (distinct-keep (λ x. not (mem x (keys desired))) (keys current) c))
            (λ i m.
              ground
                (arith, lookup-after_writes current desired i d, mem-dropped current desired i)),
        lookup-after_writes current desired k d,
        mem-dropped current desired k,
      )
