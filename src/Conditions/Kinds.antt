-- ===== src/Conditions/Kinds.antt =====
-- Which of the answer's lists each kind stands in.
use docplane.Base.{
  String, ◌≡◌, refl, sym, ap, ◌∙◌, Bool, true, false, not, ◌&&◌, Option, none, some, List, [], ◌∷◌,
  ◌++◌, append_assoc, append-nil, arith, eq_iff, if◌then◌else◌, is_some,
}
use docplane.Base.Lists.{keep}
use docplane.Base.Sets.{
  mem, distinct, difference, mem-keep, mem-append, distinct-keep, distinct-head, distinct-tail,
  AreDisjoint, distinct-append,
}
use docplane.Base.Sorting.{sort, sort_by, mem-sort, distinct-sort}
use docplane.Base.Dict.{
  Dict, keys, entry_key, lookup, lookup-sort_by, mem-keys, distinct-keys-sort_by,
}
use docplane.Conditions.{
  Status, unresolved, Briefings, Condition, Progress, Context, write_desired, write_all,
  resolve_row, resolve_all, reconcile_rows, start,
}

-- The five lists of the answer.
pub data Category : Type 0 where
  opening reopening refreshing continuing resolving : Category

unfoldable pub same_category : Category → Category → Bool
same_category opening opening = true
same_category reopening reopening = true
same_category refreshing refreshing = true
same_category continuing continuing = true
same_category resolving resolving = true
same_category _ _ = false

module _ {B : Type 0} (j : Briefings B) (ctx : Context) where
  abbrev pub listed : Category → Progress B → List String
  listed opening p = p.opened
  listed reopening p = p.reopened
  listed refreshing p = p.refreshed
  listed continuing p = p.continuing
  listed resolving p = p.resolved

  abbrev pub category_existing : Status → Condition B → B → Category
  category_existing Status.resolved r b = reopening
  category_existing unresolved r b = if j.same r.briefing b then continuing else refreshing

  -- The category of a desired kind, from its row before.
  abbrev pub category : Option (Condition B) → B → Category
  category none b = opening
  category (some r) b = category_existing r.status r b

  abbrev is_category : Category → Dict (Condition B) → String × B → Bool
  is_category c current e = same_category c (category (lookup e.0 current) e.1)

  abbrev one_if : Bool → String → List String
  one_if b k = if b then k ∷ [] else []

  listed-write_desired :
      (c : Category) (old : Option (Condition B)) (kind : String) (b : B) (p : Progress B)
      → listed c (write_desired j ctx old kind b p)
        ≡ listed c p ++ one_if (same_category c (category old b)) kind
  unfolding write_desired same_category
  listed-write_desired opening none kind b p = refl
  listed-write_desired opening (some r) kind b p = ground (arith, append-nil p.opened)
  listed-write_desired reopening old kind b p = ground (arith, append-nil p.reopened)
  listed-write_desired refreshing old kind b p = ground (arith, append-nil p.refreshed)
  listed-write_desired continuing old kind b p = ground (arith, append-nil p.continuing)
  listed-write_desired resolving old kind b p = ground (arith, append-nil p.resolved)

  -- The kinds of one category, in the order of the loop.
  abbrev pub kinds_of : Category → Dict (Condition B) → Dict B → List String
  kinds_of c current items = keys (keep (is_category c current) items)

  listed-write_all :
      (c : Category) (current : Dict (Condition B)) (items : Dict B) (p : Progress B)
      → listed c (write_all j ctx current items p) ≡ listed c p ++ kinds_of c current items
  unfolding write_all keep
  listed-write_all c current [] p = sym (append-nil (listed c p))
  listed-write_all c current ((kind, b) ∷ rest) p =
      listed-write_all c current rest (write_desired j ctx (lookup kind current) kind b p)
      ∙ ap (λ (l : List String). l ++ kinds_of c current rest)
          (listed-write_desired c (lookup kind current) kind b p)
      ∙ append_assoc (listed c p) _ (kinds_of c current rest)
      ∙ ap (λ (l : List String). listed c p ++ l) (ground arith)

  abbrev is_unresolved : Option (Condition B) → Bool
  is_unresolved none = false
  is_unresolved (some r) = elim r.status [ unresolved ↦ true | Status.resolved ↦ false ]

  listed-resolve_row :
      (c : Category) (old : Option (Condition B)) (kind : String) (p : Progress B)
      → listed c (resolve_row j ctx old kind p)
        ≡ listed c p ++ one_if (same_category c resolving && is_unresolved old) kind
  unfolding resolve_row same_category
  listed-resolve_row opening old kind p = ground (arith, append-nil p.opened)
  listed-resolve_row reopening old kind p = ground (arith, append-nil p.reopened)
  listed-resolve_row refreshing old kind p = ground (arith, append-nil p.refreshed)
  listed-resolve_row continuing old kind p = ground (arith, append-nil p.continuing)
  listed-resolve_row resolving old kind p = ground (arith, append-nil p.resolved)

  abbrev pub resolved_of : Category → Dict (Condition B) → List String → List String
  resolved_of c current ks =
      keep (λ k. same_category c resolving && is_unresolved (lookup k current)) ks

  listed-resolve_all :
      (c : Category) (current : Dict (Condition B)) (ks : List String) (p : Progress B)
      → listed c (resolve_all j ctx current ks p) ≡ listed c p ++ resolved_of c current ks
  unfolding resolve_all keep
  listed-resolve_all c current [] p = sym (append-nil (listed c p))
  listed-resolve_all c current (kind ∷ rest) p =
      listed-resolve_all c current rest (resolve_row j ctx (lookup kind current) kind p)
      ∙ ap (λ (l : List String). l ++ resolved_of c current rest)
          (listed-resolve_row c (lookup kind current) kind p)
      ∙ append_assoc (listed c p) _ (resolved_of c current rest)
      ∙ ap (λ (l : List String). listed c p ++ l) (ground arith)

  mem-keys-keep :
      (q : String × B → Bool) (k : String) (items : Dict B)
      → mem k (keys items) ≡ false
      → mem k (keys (keep q items)) ≡ false
  unfolding keep mem
  mem-keys-keep q k [] h = refl
  mem-keys-keep q k ((i, b) ∷ rest) h = ground (arith, mem-keys-keep q k rest)

  distinct-keys-keep :
      (q : String × B → Bool) (items : Dict B)
      → distinct (keys items) ≡ true
      → distinct (keys (keep q items)) ≡ true
  unfolding keep distinct
  distinct-keys-keep q [] h = refl
  distinct-keys-keep q ((i, b) ∷ rest) h =
      ground (arith, distinct-keys-keep q rest, mem-keys-keep q i rest)

  -- Whether a kind of that row and desired briefing belongs in the list.
  abbrev pub belongs : Category → Option (Condition B) → Option B → Bool
  belongs c old (some b) = same_category c (category old b)
  belongs c old none = same_category c resolving && is_unresolved old

  abbrev desired_in : Category → Option (Condition B) → Option B → Bool
  desired_in c old none = false
  desired_in c old (some b) = same_category c (category old b)

  mem-kinds_of :
      (c : Category) (current : Dict (Condition B)) (items : Dict B) (k : String)
      → distinct (keys items) ≡ true
      → mem k (kinds_of c current items) ≡ desired_in c (lookup k current) (lookup k items)
  unfolding keep mem lookup
  mem-kinds_of c current [] k d = refl
  mem-kinds_of c current ((i, b) ∷ rest) k d = ground (
    arith,
    mem-kinds_of c current rest k (distinct-tail i (keys rest) d),
    mem-keys-keep (is_category c current) i rest (distinct-head i (keys rest) d),
    mem-keys-keep (is_category c current) k rest,
    distinct-head i (keys rest) d,
    eq_iff i k,
  )

  abbrev dropped : Dict (Condition B) → Dict B → List String
  dropped current desired = sort (difference (keys current) (keys desired))

  -- The loops start with empty lists.
  listed-start :
      (c : Category) (current : Dict (Condition B)) (xs : List String)
      → listed c (start current) ++ xs ≡ xs
  listed-start opening current xs = refl
  listed-start reopening current xs = refl
  listed-start refreshing current xs = refl
  listed-start continuing current xs = refl
  listed-start resolving current xs = refl

  listed-reconcile_rows :
      (c : Category) (current : Dict (Condition B)) (desired : Dict B)
      → listed c (reconcile_rows j ctx current desired)
        ≡ kinds_of c current (sort_by entry_key desired)
          ++ resolved_of c current (dropped current desired)
  unfolding reconcile_rows
  listed-reconcile_rows c current desired =
      listed-resolve_all c current (dropped current desired) _
      ∙ ap (λ (l : List String). l ++ resolved_of c current (dropped current desired))
          (listed-write_all c current (sort_by entry_key desired) _)
      ∙ ap (λ (l : List String). l ++ resolved_of c current (dropped current desired))
          (listed-start c current (kinds_of c current (sort_by entry_key desired)))

  mem-resolved_of :
      (c : Category) (current : Dict (Condition B)) (desired : Dict B) (k : String)
      → mem k (resolved_of c current (dropped current desired)) ≡ (
          same_category c resolving
          && is_unresolved (lookup k current)
          && not (is_some (lookup k desired)))
  mem-resolved_of c current desired k =
      rw
        (
          mem-keep (λ i. same_category c resolving && is_unresolved (lookup i current)) k
              (dropped current desired),
          mem-sort k (difference (keys current) (keys desired)),
          mem-keep (λ x. not (mem x (keys desired))) k (keys current),
          mem-keys k desired,
          mem-keys k current,
        )
        (ground arith)

  -- A kind stands in the list of a category exactly if its row before and the briefing desired for
  -- it belong there.
  pub mem-listed :
      (c : Category) (current : Dict (Condition B)) (desired : Dict B) (k : String)
      → distinct (keys desired) ≡ true
      → mem k (listed c (reconcile_rows j ctx current desired))
        ≡ belongs c (lookup k current) (lookup k desired)
  unfolding same_category
  mem-listed c current desired k d = rw (listed-reconcile_rows c current desired) (
      rw
        (mem-append k (kinds_of c current (sort_by entry_key desired))
          (resolved_of c current (dropped current desired)))
        (ground (
          arith,
          mem-kinds_of c current (sort_by entry_key desired) k (distinct-keys-sort_by desired d),
          mem-resolved_of c current desired k,
          lookup-sort_by k desired,
        )))

  desired_in-IsDisjoint :
      (c : Category) (current : Dict (Condition B)) (desired : Dict B)
      → distinct (keys desired) ≡ true
      → AreDisjoint
          (kinds_of c current (sort_by entry_key desired))
          (resolved_of c current (dropped current desired))
  desired_in-IsDisjoint c current desired d k = ground (
    arith,
    mem-kinds_of c current (sort_by entry_key desired) k (distinct-keys-sort_by desired d),
    mem-resolved_of c current desired k,
    lookup-sort_by k desired,
  )

  -- No list of the answer repeats a kind.
  pub distinct-listed :
      (c : Category) (current : Dict (Condition B)) (desired : Dict B)
      → distinct (keys current) ≡ true
      → distinct (keys desired) ≡ true
      → distinct (listed c (reconcile_rows j ctx current desired)) ≡ true
  distinct-listed c current desired h d = rw (listed-reconcile_rows c current desired) (
      distinct-append (kinds_of c current (sort_by entry_key desired))
        (resolved_of c current (dropped current desired))
        (distinct-keys-keep (is_category c current) (sort_by entry_key desired)
          (distinct-keys-sort_by desired d))
        (distinct-keep _ (dropped current desired) (
          distinct-sort (difference (keys current) (keys desired))
          ∙ distinct-keep (λ x. not (mem x (keys desired))) (keys current) h))
        (desired_in-IsDisjoint c current desired d))
