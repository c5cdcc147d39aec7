-- ===== src/Work/Soak.antt =====
-- What creation and links mean for the gates.
use docplane.Base.{
  String, ◌≡◌, refl, sym, ap, ◌∙◌, true, false, ◌&&◌, ◌||◌, Option, some, List, [], ◌∷◌, ◌++◌, ◌==◌,
  arith, eq_iff, eq_refl, Bool-cases, inl, inr,
}
use docplane.Base.Lists.{any}
use docplane.Base.Sets.{mem}
use docplane.Base.Dict.{lookup, lookup-insert}
use docplane.Json.{Json}
use docplane.Http.{Result, ok, err, refuse_if, key, >>=-eq-ok}
use docplane.Work.Types.{Db, Context, Initiative, Link, is_soaking, is_terminal}
use docplane.Work.Gates.{soak_gate_errors, validate_state}
use docplane.Work.Rows.{load_initiative}
use docplane.Work.Transition.{has_link, soak_gate}
use docplane.Work.Admitted.{ok-db}
use docplane.Work.Captures.{workspace_of, work_workspace, initiative_exists}
use docplane.Work.Create.{
  InitiativeCreate, as_transition, created, insert_created, create_initiative, same_link,
  insert_link, Resolved, resolve_link, add_link,
}

abbrev observability : List String
observability = "MODEL_ENTITY" ∷ "ARTIFACT" ∷ "OBSERVATION" ∷ []

ok_value : {A : Type 0} → A → Result A → A
ok_value other (ok a) = a
ok_value other (err e) = other

same_key : {k l : String} → ◌≡◌ {A = Result String} (ok k) (ok l) → k ≡ l
unfolding ok_value
same_key {k} {l} h = ap (ok_value k) h

ok-same : {d e : Db} → ◌≡◌ {A = Result Db} (ok d) (ok e) → d ≡ e
unfolding ok_value
ok-same {d} {e} h = ap (ok_value d) h

has_link-append :
    (links : List Link) (l : Link) (id : String) (types : List String)
    → has_link (links ++ l ∷ []) id types
      ≡ (has_link links id types || (l.initiative_id == id && mem l.resource_type types))
unfolding has_link any
has_link-append [] l id types = ground arith
has_link-append (x ∷ links) l id types = ground (arith, has_link-append links l id types)

-- A link that stands in the table counts already.
has_link_again :
    (links : List Link) (l : Link) (id : String) (types : List String)
    → any (same_link l) links ≡ true
    → has_link links id types
      ≡ (has_link links id types || (l.initiative_id == id && mem l.resource_type types))
unfolding has_link any same_link
has_link_again [] l id types h = cc
has_link_again (x ∷ links) l id types h = ground (
  arith,
  has_link_again links l id types,
  eq_iff l.initiative_id x.initiative_id,
  eq_iff l.resource_type x.resource_type,
)

has_link-insert_link :
    (l : Link) (links : List Link) (id : String) (types : List String)
    → has_link (insert_link links l) id types
      ≡ (has_link links id types || (l.initiative_id == id && mem l.resource_type types))
unfolding insert_link
has_link-insert_link l links id types = elim (Bool-cases (any (same_link l) links)) [
  | inl e ↦ rw (e, insert_link) (has_link_again links l id types e)
  | inr e ↦ rw (e, insert_link) (has_link-append links l id types)
]

module _ (ctx : Context) (present : Initiative → Json) where
  row-insert_created :
      (k : String) (r : InitiativeCreate) (w : String × String) (db db' : Db) (reply : Json)
      → insert_created ctx present k r w db ≡ ok (reply, db')
      → (lookup (ctx.new_id k) db'.initiatives ≡ some (created ctx k r w)) × (db'.links ≡ db.links)
  unfolding insert_created
  row-insert_created k r w db db' reply h =
      let new = created ctx k r w in
      let (u, e1, h1) = >>=-eq-ok (refuse_if (initiative_exists db.initiatives new) 409 _) _ h in
      let (v, e2, h2) = >>=-eq-ok (refuse_if (new.title == "" || new.objective == "") 500 _) _ h1 in
      (
        ap (λ d. lookup (ctx.new_id k) d.initiatives) (sym (ok-db h2))
            ∙ (rw
                (
                  lookup-insert (ctx.new_id k) (ctx.new_id k) new db.initiatives,
                  eq_refl (ctx.new_id k),
                )
                refl),
        ap (λ d. d.links) (sym (ok-db h2)),
      )

  -- An initiative that is created as SOAKING, under an id that no link names yet, is stored although
  -- the gate that a transition to SOAKING passes reports it.
  pub created_soaking_unobserved :
      (header : Option String) (k : String) (r : InitiativeCreate) (db db' : Db) (reply : Json)
      → create_initiative ctx present header r db ≡ ok (reply, db')
      → key header ≡ ok k
      → is_soaking r.work_state ≡ true
      → has_link db.links (ctx.new_id k) observability ≡ false
      → (j : Initiative) × (lookup (ctx.new_id k) db'.initiatives ≡ some j)
        × (is_soaking j.work_state ≡ true)
        × (soak_gate db'.links (ctx.new_id k) j ≡ "SOAK_OBSERVABILITY_MISSING" ∷ [])
  unfolding create_initiative created soak_gate soak_gate_errors
  created_soaking_unobserved header k r db db' reply h named s fresh_id =
      let (u, e1, h1) = >>=-eq-ok (refuse_if (is_terminal r.work_state) 422 _) _ h in
      let (v, e2, h2) = >>=-eq-ok (validate_state (as_transition r)) _ h1 in
      let (l, e3, h3) = >>=-eq-ok (key header) _ h2 in
      let (w, e4, h4) =
        >>=-eq-ok (work_workspace (workspace_of db.workspaces (some r.workspace_id))) _ h3 in
      let same = same_key (sym e3 ∙ named) in
      let (found, links) =
        row-insert_created k r w db db' reply
          (ap (λ m. insert_created ctx present m r w db) (sym same) ∙ h4) in
      (created ctx k r w, found, s, rw (links, fresh_id) refl)

module _ (find_resource : String → String → Option Resolved) where
  -- After a link is added, an initiative has a link of some types exactly if it had one before or
  -- the new one is such: evidence that a gate has seen is never withdrawn.
  pub has_link-add_link :
      (l : Link) (db db' : Db) (id : String) (types : List String)
      → add_link find_resource l db ≡ ok db'
      → has_link db'.links id types
        ≡ (has_link db.links id types || (l.initiative_id == id && mem l.resource_type types))
  unfolding add_link
  has_link-add_link l db db' id types h =
      let (i, e1, h1) = >>=-eq-ok (load_initiative db l.initiative_id) _ h in
      let (u, e2, h2) =
        >>=-eq-ok (resolve_link (find_resource l.resource_type l.resource_id)) _ h1 in
      ap (λ d. has_link d.links id types) (sym (ok-same h2))
      ∙ has_link-insert_link l db.links id types
