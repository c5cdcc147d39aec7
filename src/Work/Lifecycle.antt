-- ===== src/Work/Lifecycle.antt =====
-- What holds of every initiative in any sequence of transitions, promotion updates and disposition
-- updates, by whom and in whatever order they come.
use docplane.Base.{
  ℕ, ◌≤◌, String, ◌≡◌, refl, sym, ap, ◌∙◌, ◌⊎◌, inl, inr, Bool, true, false, not, ◌&&◌, Option,
  none, some, List, [], ◌∷◌, arith, if◌then◌else◌, is_some, eqb, ◌==◌, eq_iff, eq_refl, Bool-cases,
}
use docplane.Base.Dict.{Dict, lookup, insert, lookup-insert}
use docplane.Json.{Json}
use docplane.Http.{ok, refuse_if, >>=-eq-ok}
use docplane.Work.Types.{
  Db, Context, Initiative, WorkTransition, WorkState, backlog, active, blocked, soaking, paused,
  parked, complete, abandoned, is_allowed, is_complete, is_terminal, transitions, Link,
}
use docplane.Work.Closure.{IsPromotionSettled, IsAnswered, closure_gate_errors_iff}
use docplane.Work.Rows.{load_initiative}
use docplane.Work.Transition.{moved, transition_initiative, closure_gate, has_link}
use docplane.Work.Admitted.{IsAdmitted, transition_initiative_row, load_initiative-eq-ok, ok-db}
use docplane.Work.Patch.{
  PromotionUpdate, DispositionsUpdate, with_promotion, with_dispositions, update_promotion,
  update_dispositions, is_promoted,
}

-- How one row may change: the transitions of the table, and changes that keep the state.
pub data Change : Initiative → Initiative → Type 0 where
  transit :
      (now : ℕ) (r : WorkTransition) (i : Initiative)
      → is_allowed i.work_state r.work_state ≡ true
      → Change i (moved now r i)
  promote : (now : ℕ) (r : PromotionUpdate) (i : Initiative) → Change i (with_promotion now r i)
  answer :
      (now : ℕ) (r : DispositionsUpdate) (i : Initiative) → Change i (with_dispositions now r i)

no_way_out : (from to : WorkState) → is_terminal from ≡ true → is_allowed from to ≡ false
unfolding is_allowed transitions
no_way_out complete to t = refl
no_way_out abandoned to t = refl
no_way_out backlog to t = cc
no_way_out active to t = cc
no_way_out blocked to t = cc
no_way_out soaking to t = cc
no_way_out paused to t = cc
no_way_out parked to t = cc

is_some_if : {A : Type 0} (b : Bool) (a : A) → is_some (if b then some a else none) ≡ b
is_some_if true a = refl
is_some_if false a = refl

frozen :
    (i j k : Initiative)
    → is_terminal i.work_state ≡ true
    → (j.work_state ≡ i.work_state) × (j.completed_at ≡ i.completed_at)
    → Change j k
    → (k.work_state ≡ i.work_state) × (k.completed_at ≡ i.completed_at)
unfolding with_promotion with_dispositions
frozen i j k t p (transit now r _ allowed) =
    ground (arith, allowed, no_way_out j.work_state r.work_state (ap is_terminal p.0 ∙ t))
frozen i j k t p (promote now r _) = p
frozen i j k t p (answer now r _) = p

dated :
    (i j k : Initiative)
    → (is_some j.completed_at ≡ is_terminal j.work_state) × (i.version ≤ j.version)
    → Change j k
    → (is_some k.completed_at ≡ is_terminal k.work_state) × (i.version ≤ k.version)
unfolding moved with_promotion with_dispositions
dated i j k p (transit now r _ allowed) =
    (is_some_if (is_terminal r.work_state) now, omega (arith, p.1))
dated i j k p (promote now r _) = (p.0, omega (arith, p.1))
dated i j k p (answer now r _) = (p.0, omega (arith, p.1))

some_same : {V : Type 0} {v w : V} → some v ≡ some w → v ≡ w
some_same h = cc

-- A row that is inserted under one id changes no other.
replaced :
    {V : Type 0} (R : V → V → Type 0) (id other : String) (i j k : V) (d d' : Dict V)
    → lookup id d ≡ some i
    → d' ≡ insert id j d
    → R i j
    → lookup other d ≡ some k
    → (lookup other d' ≡ some k) ⊎ ((v : V) × (lookup other d' ≡ some v) × R k v)
replaced {V} R id other i j k d d' e new c h = elim (Bool-cases (id == other)) [
  | inl same ↦ inr (
    j,
    rw (new, lookup-insert id other j d, same) refl,
    rw (some_same (sym h ∙ ap (λ o. lookup o d) (sym ((eq_iff id other).0 same)) ∙ e)) c,
  )
  | inr differ ↦ inl (rw (new, lookup-insert id other j d, differ) h)
]

module _ (present : Initiative → Json) (known_change : Option String → Bool) (now : ℕ) where
  update_promotion_row :
      (id : String) (r : PromotionUpdate) (db db' : Db) (reply : Json)
      → update_promotion present known_change now id r db ≡ ok (reply, db')
      → (i : Initiative) × (lookup id db.initiatives ≡ some i)
        × (db'.initiatives ≡ insert id (with_promotion now r i) db.initiatives)
  unfolding update_promotion
  update_promotion_row id r db db' reply h =
      let (u, e1, h1) =
        >>=-eq-ok
          (refuse_if (is_promoted r.promotion_state && not (is_some r.promotion_change_id)) 422 _) _
          h in
      let (i, e2, h2) = >>=-eq-ok (load_initiative db id) _ h1 in
      let (v, e3, h3) = >>=-eq-ok (refuse_if (not (eqb i.version r.expected_version)) 409 _) _ h2 in
      let (w, e4, h4) =
        >>=-eq-ok (refuse_if (not (known_change r.promotion_change_id)) 500 _) _ h3 in
      (i, load_initiative-eq-ok db id i e2, sym (ap (λ d. d.initiatives) (ok-db h4)))

  update_dispositions_row :
      (id : String) (r : DispositionsUpdate) (db db' : Db) (reply : Json)
      → update_dispositions present known_change now id r db ≡ ok (reply, db')
      → (i : Initiative) × (lookup id db.initiatives ≡ some i)
        × (db'.initiatives ≡ insert id (with_dispositions now r i) db.initiatives)
  unfolding update_dispositions
  update_dispositions_row id r db db' reply h =
      let (i, e2, h2) = >>=-eq-ok (load_initiative db id) _ h in
      let (v, e3, h3) = >>=-eq-ok (refuse_if (not (eqb i.version r.expected_version)) 409 _) _ h2 in
      (i, load_initiative-eq-ok db id i e2, sym (ap (λ d. d.initiatives) (ok-db h3)))

absurd_bool : {A : Type 0} → true ≡ false → A
absurd_bool h = cc

lookup-insert_self :
    {V : Type 0} (id : String) (v : V) (d : Dict V) → lookup id (insert id v d) ≡ some v
lookup-insert_self id v d = rw (lookup-insert id id v d, eq_refl id) refl

-- What the closed gate means for the row that is written.
gated :
    (now : ℕ) (links : List Link) (id : String) (r : WorkTransition) (i : Initiative)
    → IsAdmitted now links id r i
    → is_complete (moved now r i).work_state ≡ true
    → IsPromotionSettled (moved now r i).promotion_state
      × IsAnswered
          (moved now r i).model_disposition
          (moved now r i).model_disposition_note
          (has_link links id ("MODEL_ENTITY" ∷ "ARTIFACT" ∷ []))
      × IsAnswered
          (moved now r i).observe_disposition
          (moved now r i).observe_disposition_note
          (has_link links id ("OBSERVATION" ∷ []))
unfolding moved closure_gate
gated now links id r i a c =
    let j = moved now r i in
    (closure_gate_errors_iff j.promotion_state j.model_disposition j.model_disposition_note
        j.observe_disposition j.observe_disposition_note _ _).0
      (a.closed c)

-- One request that succeeds, on the whole database.
module _ (digest : String → WorkTransition → String) (present : Initiative → Json)
    (known_change : Option String → Bool) where
  pub data Step : Db → Db → Type 0 where
    by_transition :
        (ctx : Context) (header : Option String) (id : String) (r : WorkTransition) (db db' : Db)
        (reply : Json)
        → transition_initiative ctx digest present header id r db ≡ ok (reply, db')
        → Step db db'
    by_promotion :
        (now : ℕ) (id : String) (r : PromotionUpdate) (db db' : Db) (reply : Json)
        → update_promotion present known_change now id r db ≡ ok (reply, db')
        → Step db db'
    by_dispositions :
        (now : ℕ) (id : String) (r : DispositionsUpdate) (db db' : Db) (reply : Json)
        → update_dispositions present known_change now id r db ≡ ok (reply, db')
        → Step db db'

  pub data Steps : Db → Db → Type 0 where
    done : (db : Db) → Steps db db
    after : (db mid db' : Db) → Step db mid → Steps mid db' → Steps db db'

  abbrev RowFate : Db → String → Initiative → Type 0
  RowFate db' id i =
      (lookup id db'.initiatives ≡ some i)
      ⊎ ((j : Initiative) × (lookup id db'.initiatives ≡ some j) × Change i j)

  -- A step keeps each row or changes it in one of the ways of `Change`.
  pub row_fate :
      (db db' : Db) (id : String) (i : Initiative)
      → Step db db'
      → lookup id db.initiatives ≡ some i
      → RowFate db' id i
  row_fate db db' id i (by_transition ctx header at r _ _ reply e) h =
      elim (transition_initiative_row ctx digest present header at r db db' reply e) [
        | inl same ↦ inl (ap (λ d. lookup id d.initiatives) same ∙ h)
        | inr (old, found, admitted, new) ↦
            replaced Change at id old (moved ctx.now r old) i db.initiatives db'.initiatives found
              new (transit ctx.now r old admitted.allowed) h
      ]
  row_fate db db' id i (by_promotion now at r _ _ reply e) h =
      let (old, found, new) = update_promotion_row present known_change now at r db db' reply e in
      replaced Change at id old (with_promotion now r old) i db.initiatives db'.initiatives found
        new (promote now r old) h
  row_fate db db' id i (by_dispositions now at r _ _ reply e) h =
      let (old, found, new) =
        update_dispositions_row present known_change now at r db db' reply e in
      replaced Change at id old (with_dispositions now r old) i db.initiatives db'.initiatives found
        new (answer now r old) h

  -- An invariant of the changes is one of the database: what holds of a row holds of what any
  -- sequence of requests makes of it, and the row is still there.
  carried :
      (P : Initiative → Type 0)
      → ((i j : Initiative) → Change i j → P i → P j)
      → (db db' : Db) (id : String) (i : Initiative) → Steps db db'
      → lookup id db.initiatives ≡ some i
      → P i
      → (j : Initiative) × (lookup id db'.initiatives ≡ some j) × P j
  carried P step db db' id i (done _) h p = (i, h, p)
  carried P step db db' id i (after _ mid _ s rest) h p = elim (row_fate db mid id i s h) [
    | inl kept ↦ carried P step mid db' id i rest kept p
    | inr (j, found, change) ↦ carried P step mid db' id j rest found (step i j change p)
  ]

  -- Whatever requests follow, an initiative that is COMPLETE or ABANDONED stays so, with the time of
  -- its completion.
  pub terminal_forever :
      (db db' : Db) (id : String) (i : Initiative)
      → Steps db db'
      → lookup id db.initiatives ≡ some i
      → is_terminal i.work_state ≡ true
      → (j : Initiative) × (lookup id db'.initiatives ≡ some j)
        × ((j.work_state ≡ i.work_state) × (j.completed_at ≡ i.completed_at))
  terminal_forever db db' id i steps h t =
      carried (λ j. (j.work_state ≡ i.work_state) × (j.completed_at ≡ i.completed_at))
        (λ j k change p. frozen i j k t p change) db db' id i steps h (refl, refl)

  -- `completed_at` is set exactly in the terminal states, and every sequence of requests keeps this.
  pub completed_iff_terminal :
      (db db' : Db) (id : String) (i : Initiative)
      → Steps db db'
      → lookup id db.initiatives ≡ some i
      → is_some i.completed_at ≡ is_terminal i.work_state
      → (j : Initiative) × (lookup id db'.initiatives ≡ some j)
        × ((is_some j.completed_at ≡ is_terminal j.work_state) × (i.version ≤ j.version))
  completed_iff_terminal db db' id i steps h t =
      carried (λ j. (is_some j.completed_at ≡ is_terminal j.work_state) × (i.version ≤ j.version))
        (λ j k change p. dated i j k p change) db db' id i steps h (t, omega arith)

  -- An initiative that a request completes was not completed before, its promotion is settled, and
  -- each domain is answered, UPDATED with a link to the evidence and the other answers with a note.
  pub completed_by_transition :
      (ctx : Context) (header : Option String) (id : String) (r : WorkTransition) (db db' : Db)
      (reply : Json) (i j : Initiative)
      → transition_initiative ctx digest present header id r db ≡ ok (reply, db')
      → lookup id db.initiatives ≡ some i
      → is_complete i.work_state ≡ false
      → lookup id db'.initiatives ≡ some j
      → is_complete j.work_state ≡ true
      → IsPromotionSettled j.promotion_state
        × IsAnswered j.model_disposition j.model_disposition_note
            (has_link db.links id ("MODEL_ENTITY" ∷ "ARTIFACT" ∷ []))
        × IsAnswered j.observe_disposition j.observe_disposition_note
            (has_link db.links id ("OBSERVATION" ∷ []))
  unfolding closure_gate
  completed_by_transition ctx header id r db db' reply i j e found_before unfinished found_after
        finished =
      elim (transition_initiative_row ctx digest present header id r db db' reply e) [
        | inl same ↦
            let unchanged =
              some_same
                (sym found_before ∙ ap (λ d. lookup id d.initiatives) (sym same) ∙ found_after) in
            absurd_bool
              (sym finished ∙ ap (λ k. is_complete k.work_state) (sym unchanged) ∙ unfinished)
        | inr (old, found, admitted, new) ↦
            let row = some_same (
              sym found_after
              ∙ ap (lookup id) new
              ∙ lookup-insert_self id (moved ctx.now r old) db.initiatives) in
            rw row (
              gated ctx.now db.links id r old admitted
                (ap (λ k. is_complete k.work_state) (sym row) ∙ finished))
      ]
