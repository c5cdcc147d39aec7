-- ===== src/Gaps/Apart.antt =====
-- The parts of a plan keep apart: what is created was not known, what is reopened or refreshed was.
use docplane.Base.{
  ℕ, zero, suc, ◌≤◌, ◌≡◌, refl, ◌∙◌, Bool, true, not, Option, none, some, List, [], ◌∷◌, ◌++◌,
  arith, eq_iff, is_some,
}
use docplane.Base.Lists.{keep, take, all, length}
use docplane.Gaps.{
  Gap, Known, same_gap, find_gap, find_known, put_all, reopen_of, refresh_of, each_known,
  plan_gap_reconciliation,
}

all-take :
    {A : Type 0} (q : A → Bool) (n : ℕ) (xs : List A) → all q xs ≡ true → all q (take n xs) ≡ true
unfolding all
all-take q zero xs h = refl
all-take q (suc n) [] h = refl
all-take q (suc n) (x ∷ xs) h = ground (arith, all-take q n xs)

length-take : {A : Type 0} (n : ℕ) (xs : List A) → length (take n xs) ≤ n
length-take zero xs = omega arith
length-take (suc n) [] = omega arith
length-take (suc n) (x ∷ xs) = omega (arith, length-take n xs)

all-keep : {A : Type 0} (q : A → Bool) (xs : List A) → all q (keep q xs) ≡ true
unfolding all keep
all-keep q [] = refl
all-keep q (x ∷ xs) = ground (arith, all-keep q xs)

all-append :
    {A : Type 0} (q : A → Bool) (xs ys : List A)
    → all q xs ≡ true
    → all q ys ≡ true
    → all q (xs ++ ys) ≡ true
unfolding all
all-append q [] ys h k = k
all-append q (x ∷ xs) ys h k = ground (arith, all-append q xs ys)

module _ {B : Type 0} where
  same_gap_sym : (g h : Gap B) → same_gap g h ≡ same_gap h g
  unfolding same_gap
  same_gap_sym g h = ground (
    arith,
    eq_iff g.gap_kind h.gap_kind,
    eq_iff h.gap_kind g.gap_kind,
    eq_iff g.subject_entity_id h.subject_entity_id,
    eq_iff h.subject_entity_id g.subject_entity_id,
  )

  found_same :
      (gs : List (Gap B)) (key g : Gap B) → find_gap gs key ≡ some g → same_gap g key ≡ true
  unfolding find_gap
  found_same [] key g h = cc
  found_same (x ∷ gs) key g h = ground (arith, found_same gs key g)

  known_more :
      (k : Known B) (ks : List (Known B)) (gs : List (Gap B))
      → all (λ g. is_some (find_known ks g)) gs ≡ true
      → all (λ g. is_some (find_known (k ∷ ks) g)) gs ≡ true
  unfolding all find_known
  known_more k ks [] h = refl
  known_more k ks (g ∷ gs) h = ground (arith, known_more k ks gs)

  -- What a known row contributes to the plan has the key of the row.
  abbrev Contributes : (Known B → Option (Gap B) → List (Gap B)) → Type 0
  Contributes f =
      (q : Gap B → Bool) (k : Known B) (o : Option (Gap B))
      → ((g : Gap B) → o ≡ some g → q g ≡ true)
      → all q (f k o) ≡ true

  found_first :
      (k : Known B) (ks : List (Known B)) (g : Gap B)
      → same_gap k.gap g ≡ true
      → is_some (find_known (k ∷ ks) g) ≡ true
  unfolding find_known
  found_first k ks g h = rw h refl

  all-each_known :
      (f : Known B → Option (Gap B) → List (Gap B))
      → Contributes f
      → (same_briefing : B → B → Bool) (wanted : List (Gap B)) (ks : List (Known B))
      → all (λ g. is_some (find_known ks g)) (each_known same_briefing f wanted ks) ≡ true
  unfolding each_known all
  all-each_known f c same_briefing wanted [] = refl
  all-each_known f c same_briefing wanted (k ∷ ks) =
      all-append (λ g. is_some (find_known (k ∷ ks) g)) (f k (find_gap wanted k.gap))
        (each_known same_briefing f wanted ks)
        (c (λ g. is_some (find_known (k ∷ ks) g)) k (find_gap wanted k.gap)
          (λ g e. found_first k ks g (same_gap_sym k.gap g ∙ found_same wanted k.gap g e)))
        (known_more k ks (each_known same_briefing f wanted ks)
          (all-each_known f c same_briefing wanted ks))

  reopen-Contributes : (same_briefing : B → B → Bool) → Contributes (reopen_of same_briefing)
  unfolding reopen_of all
  reopen-Contributes same_briefing q k none h = refl
  reopen-Contributes same_briefing q k (some g) h = ground (arith, h g refl)

  refresh-Contributes : (same_briefing : B → B → Bool) → Contributes (refresh_of same_briefing)
  unfolding refresh_of all
  refresh-Contributes same_briefing q k none h = refl
  refresh-Contributes same_briefing q k (some g) h = ground (arith, h g refl)

  -- The rows by their keys.
  abbrev pub known_rows : List (Known B) → List (Known B)
  known_rows existing = put_all (λ k l. same_gap k.gap l.gap) [] existing

  -- A plan creates no gap whose key is known, and no more than the limit; it reopens and refreshes
  -- only gaps whose key is known, whatever the limit.
  pub plan_gap_reconciliation_lem :
      (same_briefing : B → B → Bool) (candidates : List (Gap B)) (existing : List (Known B))
      (batch_limit : ℕ)
      → let plan = plan_gap_reconciliation same_briefing candidates existing batch_limit in
        (all (λ g. not (is_some (find_known (known_rows existing) g))) plan.create ≡ true)
        × (length plan.create ≤ batch_limit)
        × (all (λ g. is_some (find_known (known_rows existing) g)) plan.reopen ≡ true)
        × (all (λ g. is_some (find_known (known_rows existing) g)) plan.refresh ≡ true)
  unfolding plan_gap_reconciliation
  plan_gap_reconciliation_lem same_briefing candidates existing batch_limit =
      let wanted = put_all same_gap [] candidates in
      let known = known_rows existing in
      (
        all-take (λ g. not (is_some (find_known known g))) batch_limit
            (keep (λ g. not (is_some (find_known known g))) wanted)
            (all-keep (λ g. not (is_some (find_known known g))) wanted),
        length-take batch_limit (keep (λ g. not (is_some (find_known known g))) wanted),
        all-each_known (reopen_of same_briefing) (reopen-Contributes same_briefing) same_briefing
            wanted known,
        all-each_known (refresh_of same_briefing) (refresh-Contributes same_briefing) same_briefing
            wanted known,
      )
