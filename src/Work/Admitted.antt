-- ===== src/Work/Admitted.antt =====
-- What a transition that succeeds has written, and what it had checked.
use docplane.Base.{
  ℕ, String, ◌≡◌, refl, sym, ap, ◌∙◌, ◌⊎◌, inl, inr, Bool, true, false, not, ◌&&◌, Option, none,
  some, List, [], ◌∷◌, arith, eqb, eqb_iff, Bool-cases,
}
use docplane.Base.Lists.{nonempty}
use docplane.Base.Dict.{lookup, insert}
use docplane.Json.{Json}
use docplane.Http.{Result, ok, err, refuse_if, key, ◌>>◌, >>=-eq-ok}
use docplane.Receipts.{load_receipt}
use docplane.Work.Types.{
  Db, Context, Initiative, WorkTransition, Link, is_allowed, is_soaking, is_complete, Disposition,
  updated, deferred,
}
use docplane.Work.Gates.{validate_state}
use docplane.Work.Rows.{load_initiative}
use docplane.Work.Transition.{
  moved, admit, closure_gate, soak_gate, add_note, defer, defer_domains, write_transition,
  transition_locked, transition_unless_replayed, transition_initiative,
}

pub load_initiative-eq-ok :
    (db : Db) (id : String) (i : Initiative)
    → load_initiative db id ≡ ok i
    → lookup id db.initiatives ≡ some i
unfolding load_initiative
load_initiative-eq-ok db id i h = ground arith

-- The conditions of `admit`.
pub record IsAdmitted (now : ℕ) (links : List Link) (id : String) (r : WorkTransition)
    (i : Initiative) : Type 0 where
  pub current : i.version ≡ r.expected_version
  pub allowed : is_allowed i.work_state r.work_state ≡ true
  pub observed : is_soaking r.work_state ≡ true → soak_gate links id (moved now r i) ≡ []
  pub closed : is_complete r.work_state ≡ true → closure_gate links id (moved now r i) ≡ []

empty_if : {A : Type 0} (xs : List A) → nonempty xs ≡ false → xs ≡ []
empty_if [] h = refl
empty_if (x ∷ xs) h = cc

none_refused :
    (a b c d : Bool) (u : Unit {0})
    → (refuse_if a 409 "INITIATIVE_VERSION_STALE"
        >> refuse_if b 409 "WORK_TRANSITION_INVALID"
        >> refuse_if c 409 "WORK_SOAK_REQUIRES_OBSERVABILITY"
        >> refuse_if d 409 "WORK_CLOSURE_DISPOSITIONS_INCOMPLETE")
      ≡ ok u
    → (a ≡ false) × (b ≡ false) × (c ≡ false) × (d ≡ false)
none_refused true b c d u h = cc
none_refused false true c d u h = cc
none_refused false false true d u h = cc
none_refused false false false true u h = cc
none_refused false false false false u h = (refl, refl, refl, refl)

not-false : (b : Bool) → not b ≡ false → b ≡ true
not-false true h = refl
not-false false h = cc

and_right : (a b : Bool) → a ≡ true → (a && b) ≡ false → b ≡ false
and_right true b e h = h
and_right false b e h = cc

pub admit-IsAdmitted :
    (now : ℕ) (links : List Link) (id : String) (r : WorkTransition) (i : Initiative) (u : Unit {0})
    → admit now links id r i ≡ ok u
    → IsAdmitted now links id r i
unfolding admit
admit-IsAdmitted now links id r i u h =
    let (stale, invalid, soak, close) =
      none_refused (not (eqb i.version r.expected_version))
        (not (is_allowed i.work_state r.work_state))
        (is_soaking r.work_state && nonempty (soak_gate links id (moved now r i)))
        (is_complete r.work_state && nonempty (closure_gate links id (moved now r i))) u h in
    record {
      current = (eqb_iff i.version r.expected_version).0 (not-false _ stale);
      allowed = not-false _ invalid;
      observed = λ s. empty_if (soak_gate links id (moved now r i)) (and_right _ _ s soak);
      closed = λ c. empty_if (closure_gate links id (moved now r i)) (and_right _ _ c close);
    }

db_of : Db → Result (Json × Db) → Db
db_of other (ok x) = x.1
db_of other (err e) = other

pub ok-db : {a b : Json} {d e : Db} → ◌≡◌ {A = Result (Json × Db)} (ok (a, d)) (ok (b, e)) → d ≡ e
unfolding db_of
ok-db {a} {b} {d} {e} h = ap (db_of d) h

initiatives-defer :
    (ctx : Context) (id key : String) (i : Initiative) (domain : String) (d : Option Disposition)
    (remark : Option String) (db : Db)
    → (defer ctx id key i domain d remark db).initiatives ≡ db.initiatives
unfolding defer
initiatives-defer ctx id key i domain (some deferred) remark db = refl
initiatives-defer ctx id key i domain (some updated) remark db = refl
initiatives-defer ctx id key i domain (some Disposition.not_required) remark db = refl
initiatives-defer ctx id key i domain none remark db = refl

initiatives-defer_domains :
    (ctx : Context) (id key : String) (i : Initiative) (db : Db)
    → (defer_domains ctx id key i db).initiatives ≡ db.initiatives
unfolding defer_domains
initiatives-defer_domains ctx id key i db = elim (Bool-cases (is_complete i.work_state)) [
  | inl e ↦
      rw (e, defer_domains)
        (initiatives-defer ctx id key i "observe" i.observe_disposition i.observe_disposition_note
            (defer ctx id key i "model" i.model_disposition i.model_disposition_note db)
          ∙ initiatives-defer ctx id key i "model" i.model_disposition i.model_disposition_note db)
  | inr e ↦ rw (e, defer_domains) refl
]

module _ (ctx : Context) (digest : String → WorkTransition → String)
    (present : Initiative → Json) where
  abbrev run : Option String → String → WorkTransition → Db → Result (Json × Db)
  run = transition_initiative ctx digest present

  initiatives-write_transition :
      (key id : String) (r : WorkTransition) (i : Initiative) (db db' : Db) (answer : Json)
      → write_transition ctx digest present key id r i db ≡ ok (answer, db')
      → db'.initiatives ≡ insert id (moved ctx.now r i) db.initiatives
  unfolding write_transition
  initiatives-write_transition key id r i db db' answer h =
      let (rows, e, h1) = >>=-eq-ok (add_note ctx id key r.note db.activities) _ h in
      sym (ap (λ d. d.initiatives) (ok-db h1))
      ∙ initiatives-defer_domains ctx id key (moved ctx.now r i) (record db {
        initiatives = insert id (moved ctx.now r i) db.initiatives;
        activities = rows;
      })

  abbrev Outcome : String → WorkTransition → Db → Db → Type 0
  Outcome id r db db' =
      (db' ≡ db)
      ⊎ ((i : Initiative) × (lookup id db.initiatives ≡ some i)
          × IsAdmitted ctx.now db.links id r i
          × (db'.initiatives ≡ insert id (moved ctx.now r i) db.initiatives))

  transition_locked_row :
      (k id : String) (r : WorkTransition) (db db' : Db) (answer : Json)
      → transition_locked ctx digest present k id r db ≡ ok (answer, db')
      → Outcome id r db db'
  unfolding transition_locked
  transition_locked_row k id r db db' answer h =
      let (i, e4, h4) = >>=-eq-ok (load_initiative db id) _ h in
      let (v, e5, h5) = >>=-eq-ok (admit ctx.now db.links id r i) _ h4 in
      inr (
        i,
        load_initiative-eq-ok db id i e4,
        admit-IsAdmitted ctx.now db.links id r i v e5,
        initiatives-write_transition k id r i db db' answer h5,
      )

  unless_replayed_row :
      (k id : String) (r : WorkTransition) (db db' : Db) (answer : Json) (old : Option Json)
      → transition_unless_replayed ctx digest present old k id r db ≡ ok (answer, db')
      → Outcome id r db db'
  unfolding transition_unless_replayed
  unless_replayed_row k id r db db' answer (some response) h = inl (sym (ok-db h))
  unless_replayed_row k id r db db' answer none h = transition_locked_row k id r db db' answer h

  -- What a successful request did: it repeated an old answer and wrote nothing, or it moved the row
  -- that it had admitted.
  pub transition_initiative_row :
      (header : Option String) (id : String) (r : WorkTransition) (db db' : Db) (answer : Json)
      → transition_initiative ctx digest present header id r db ≡ ok (answer, db')
      → Outcome id r db db'
  unfolding transition_initiative
  transition_initiative_row header id r db db' answer h =
      let (u, e1, h1) = >>=-eq-ok (validate_state r) _ h in
      let (k, e2, h2) = >>=-eq-ok (key header) _ h1 in
      let (old, e3, h3) = >>=-eq-ok (load_receipt db.receipts _ k _ _) _ h2 in
      unless_replayed_row k id r db db' answer old h3
