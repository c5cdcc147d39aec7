-- ===== src/Base/Dict.antt =====
-- Python's `dict` with text keys: an association list in insertion order. Writing a key that is
-- there keeps its place.
use Prim.Native.String.{String}
use mathlib.Core.Path.{◌≡◌, refl, ap, sym, ◌∙◌}
use mathlib.Core.Bool.{true, ◌||◌}
use mathlib.Core.List.{List, [], ◌∷◌, map}
use mathlib.Core.Option.{Option, none, some}
use native.Mathlib.Omega.{arith}
use text.Mathlib.Text.{◌==◌}
use text.Mathlib.TextEquality.{eq_iff}
use docplane.Base.Tests.{if◌then◌else◌, is_some}
use docplane.Base.Text.{str_le_refl}
use docplane.Base.Sets.{mem, distinct}
use docplane.Base.Sorting.{sort, insert_by, sort_by, map-sort_by, distinct-sort}

abbrev pub Dict {ℓ} : Type ℓ → Type ℓ
Dict V = List (String × V)

module _ {ℓ} {V : Type ℓ} where
  abbrev pub entry_key : String × V → String
  entry_key e = e.0

  -- `list(d)`
  abbrev pub keys : Dict V → List String
  keys [] = []
  keys ((k, v) ∷ d) = k ∷ keys d

  -- `d.get(k)`
  unfoldable pub lookup : String → Dict V → Option V
  lookup k [] = none
  lookup k ((j, v) ∷ d) = if j == k then some v else lookup k d

  -- `d[k] = v`
  unfoldable pub insert : String → V → Dict V → Dict V
  insert k v [] = (k, v) ∷ []
  insert k v ((j, w) ∷ d) = if j == k then (j, v) ∷ d else (j, w) ∷ insert k v d

  -- `d.pop(k, None)`
  unfoldable pub remove : String → Dict V → Dict V
  remove k [] = []
  remove k ((j, w) ∷ d) = let rest = remove k d in if j == k then rest else (j, w) ∷ rest

  -- `{k: v for k, v in entries}`
  unfoldable pub of_entries : Dict V → Dict V → Dict V
  unfolding insert
  of_entries d [] = d
  of_entries d ((k, v) ∷ es) = of_entries (insert k v d) es

  pub lookup-insert :
      (k j : String) (v : V) (d : Dict V)
      → lookup j (insert k v d) ≡ (if k == j then some v else lookup j d)
  unfolding lookup insert
  lookup-insert k j v [] = refl
  lookup-insert k j v ((i, w) ∷ d) =
      ground (arith, eq_iff k j, eq_iff i k, eq_iff i j, lookup-insert k j v d)

  pub lookup-remove :
      (k j : String) (d : Dict V) → lookup j (remove k d) ≡ (if k == j then none else lookup j d)
  unfolding lookup remove
  lookup-remove k j [] = ground arith
  lookup-remove k j ((i, w) ∷ d) =
      ground (arith, eq_iff k j, eq_iff i k, eq_iff i j, lookup-remove k j d)

  pub mem-keys : (k : String) (d : Dict V) → mem k (keys d) ≡ is_some (lookup k d)
  unfolding mem lookup
  mem-keys k [] = refl
  mem-keys k ((j, v) ∷ d) = ground (arith, mem-keys k d)

  pub mem-keys-insert :
      (k j : String) (v : V) (d : Dict V) → mem j (keys (insert k v d)) ≡ (k == j || mem j (keys d))
  unfolding mem insert
  mem-keys-insert k j v [] = refl
  mem-keys-insert k j v ((i, w) ∷ d) = ground (arith, eq_iff i k, mem-keys-insert k j v d)

  pub distinct-keys-insert :
      (k : String) (v : V) (d : Dict V)
      → distinct (keys d) ≡ true
      → distinct (keys (insert k v d)) ≡ true
  unfolding distinct insert mem
  distinct-keys-insert k v [] h = refl
  distinct-keys-insert k v ((i, w) ∷ d) h =
      ground (arith, distinct-keys-insert k v d, mem-keys-insert k i v d, eq_iff k i, eq_iff i k)

  -- A dict built from entries holds each key once.
  pub distinct-keys-of_entries :
      (d es : Dict V) → distinct (keys d) ≡ true → distinct (keys (of_entries d es)) ≡ true
  unfolding of_entries
  distinct-keys-of_entries d [] h = h
  distinct-keys-of_entries d ((k, v) ∷ es) h =
      distinct-keys-of_entries (insert k v d) es (distinct-keys-insert k v d h)

  keys-map : (d : Dict V) → keys d ≡ map entry_key d
  keys-map [] = refl
  keys-map ((k, v) ∷ d) = ap (λ (ks : List String). k ∷ ks) (keys-map d)

  lookup-insert_by :
      (e : String × V) (j : String) (d : Dict V)
      → lookup j (insert_by entry_key e d) ≡ (if e.0 == j then some e.1 else lookup j d)
  unfolding lookup insert_by
  lookup-insert_by (k, v) j [] = refl
  lookup-insert_by (k, v) j ((i, w) ∷ d) =
      ground (arith, lookup-insert_by (k, v) j d, str_le_refl k, eq_iff i j, eq_iff k j, eq_iff k i)

  -- Sorting the entries keeps what each key maps to.
  pub lookup-sort_by : (j : String) (d : Dict V) → lookup j (sort_by entry_key d) ≡ lookup j d
  unfolding lookup sort_by
  lookup-sort_by j [] = refl
  lookup-sort_by j ((k, v) ∷ d) =
      ground (arith, lookup-insert_by (k, v) j (sort_by entry_key d), lookup-sort_by j d)

  pub distinct-keys-sort_by :
      (d : Dict V) → distinct (keys d) ≡ true → distinct (keys (sort_by entry_key d)) ≡ true
  distinct-keys-sort_by d h = rw (keys-map, map-sort_by entry_key d, distinct-sort, ← keys-map) h

  -- Sorting the entries sorts the keys.
  pub keys-sort_by : (d : Dict V) → keys (sort_by entry_key d) ≡ sort (keys d)
  keys-sort_by d =
      keys-map (sort_by entry_key d) ∙ map-sort_by entry_key d ∙ ap sort (sym (keys-map d))
