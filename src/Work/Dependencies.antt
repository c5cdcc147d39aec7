-- ===== src/Work/Dependencies.antt =====
-- `add_dependency`, on the table work.initiative_dependencies.
use docplane.Base.{
  String, ◌≡◌, refl, sym, ap, ◌∙◌, Bool, false, ◌&&◌, Option, none, some, List, [], ◌∷◌, ◌==◌,
  arith, eq_iff, if◌then◌else◌,
}
use docplane.Http.{Result, ok, err, refuse_if, ◌>>=◌, ◌>>◌, >>=-eq-ok}
use docplane.Work.Types.{Db}
use docplane.Work.Rows.{load_initiative}

pub record Dependency : Type 0 where
  pub initiative_id : String
  pub depends_on_initiative_id : String
  pub dependency_kind : String

abbrev pub is_between : String → String → Dependency → Bool
is_between from to d = d.initiative_id == from && d.depends_on_initiative_id == to

unfoldable pub find_dependency : List Dependency → String → String → Option String
find_dependency [] from to = none
find_dependency (d ∷ ds) from to =
    if is_between from to d then some d.dependency_kind else find_dependency ds from to

-- INSERT … ON CONFLICT (initiative_id, depends_on_initiative_id) DO UPDATE SET dependency_kind
unfoldable pub upsert_dependency : Dependency → List Dependency → List Dependency
upsert_dependency d [] = d ∷ []
upsert_dependency d (e ∷ ds) =
    let rest = upsert_dependency d ds in
    if is_between d.initiative_id d.depends_on_initiative_id e
    then record e { dependency_kind = d.dependency_kind } ∷ ds
    else e ∷ rest

unfoldable pub add_dependency : Dependency → Db → List Dependency → Result (List Dependency)
unfolding load_initiative upsert_dependency
add_dependency d db rows = do
  refuse_if (d.depends_on_initiative_id == d.initiative_id) 422 "INITIATIVE_DEPENDENCY_SELF"
  i ← load_initiative db d.initiative_id
  j ← load_initiative db d.depends_on_initiative_id
  ok (upsert_dependency d rows)

find_dependency-upsert_dependency :
    (d : Dependency) (rows : List Dependency) (from to : String)
    → find_dependency (upsert_dependency d rows) from to
      ≡ (if is_between from to d then some d.dependency_kind else find_dependency rows from to)
unfolding find_dependency upsert_dependency
find_dependency-upsert_dependency d [] from to = refl
find_dependency-upsert_dependency d (e ∷ rows) from to = ground (
  arith,
  find_dependency-upsert_dependency d rows from to,
  eq_iff e.initiative_id d.initiative_id,
  eq_iff e.depends_on_initiative_id d.depends_on_initiative_id,
  eq_iff e.initiative_id from,
  eq_iff e.depends_on_initiative_id to,
  eq_iff d.initiative_id from,
  eq_iff d.depends_on_initiative_id to,
)

ok_rows : List Dependency → Result (List Dependency) → List Dependency
ok_rows other (ok rows) = rows
ok_rows other (err e) = other

-- A dependency that is added stands under its pair of initiatives with the kind that it was given,
-- every other pair is as it was, and the two initiatives differ.
pub find_dependency-add_dependency :
    (d : Dependency) (db : Db) (rows rows' : List Dependency) (from to : String)
    → add_dependency d db rows ≡ ok rows'
    → (find_dependency rows' from to
        ≡ (if is_between from to d then some d.dependency_kind else find_dependency rows from to))
      × (d.depends_on_initiative_id == d.initiative_id ≡ false)
unfolding add_dependency ok_rows
find_dependency-add_dependency d db rows rows' from to h =
    let (u, e1, h1) =
      >>=-eq-ok (refuse_if (d.depends_on_initiative_id == d.initiative_id) 422 _) _ h in
    let (i, e2, h2) = >>=-eq-ok (load_initiative db d.initiative_id) _ h1 in
    let (j, e3, h3) = >>=-eq-ok (load_initiative db d.depends_on_initiative_id) _ h2 in
    (
      ap (λ r. find_dependency r from to) (sym (ap (ok_rows rows) h3))
          ∙ find_dependency-upsert_dependency d rows from to,
      ground arith,
    )
