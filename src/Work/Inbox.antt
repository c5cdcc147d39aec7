-- ===== src/Work/Inbox.antt =====
-- What a triage does to the row of a capture, past the receipt, against the table's constraint on its
-- columns.
use docplane.Base.{
  String, ◌≡◌, refl, sym, ap, ◌∙◌, Bool, true, false, not, ◌&&◌, Option, some, List, [], ◌∷◌, arith,
  ◌==◌, if◌then◌else◌, is_some, Bool-cases, inl, inr,
}
use docplane.Json.{Json}
use docplane.Http.{ok, refuse_if, >>=-eq-ok}
use docplane.Work.Types.{
  Db, Context, Initiative, Capture, CaptureStatus, inbox, attached, discarded,
}
use docplane.Work.Rows.{load_initiative}
use docplane.Work.Admitted.{ok-db}
use docplane.Work.Captures.{
  CapturePromote, CaptureAttach, find_capture, load_capture, is_inbox, require_inbox,
  update_capture, triaged, work_workspace, workspace_of, initiative_exists, promoted_initiative,
  finish_triage, promote_locked, attach_locked, discard_locked, attached_activity, keep_activity,
}

-- The columns that a status asks for.
abbrev pub has_shape : CaptureStatus → Option String → Option String → Bool
has_shape inbox initiative activity = not (is_some initiative) && not (is_some activity)
has_shape CaptureStatus.promoted initiative activity = is_some initiative && not (is_some activity)
has_shape attached initiative activity = is_some initiative && is_some activity
has_shape discarded initiative activity = not (is_some initiative) && not (is_some activity)

-- `captures_triage_state_consistent` of db/migrations/001_work_captures.sql
unfoldable pub is_consistent : Capture → Bool
is_consistent c =
    has_shape c.status c.initiative_id c.activity_id
    && (if is_inbox c.status
        then not (is_some c.triaged_by_principal_id) && not (is_some c.triaged_at)
        else is_some c.triaged_by_principal_id && is_some c.triaged_at)

found_here :
    (x : Capture) (cs : List Capture) (id : String)
    → x.capture_id == id ≡ true
    → find_capture (x ∷ cs) id ≡ some x
unfolding find_capture
found_here x cs id e = rw e refl

found_there :
    (x : Capture) (cs : List Capture) (id : String)
    → x.capture_id == id ≡ false
    → find_capture (x ∷ cs) id ≡ find_capture cs id
unfolding find_capture
found_there x cs id e = rw e refl

update_here :
    (f : Capture → Capture) (x : Capture) (cs : List Capture) (id : String)
    → x.capture_id == id ≡ true
    → update_capture f id (x ∷ cs) ≡ f x ∷ update_capture f id cs
unfolding update_capture
update_here f x cs id e = rw e refl

update_there :
    (f : Capture → Capture) (x : Capture) (cs : List Capture) (id : String)
    → x.capture_id == id ≡ false
    → update_capture f id (x ∷ cs) ≡ x ∷ update_capture f id cs
unfolding update_capture
update_there f x cs id e = rw e refl

some_same : {x y : Capture} → some x ≡ some y → x ≡ y
some_same h = cc

find-update_capture :
    (f : Capture → Capture)
    → ((x : Capture) → (f x).capture_id ≡ x.capture_id)
    → (id : String) (cs : List Capture) (c : Capture) → find_capture cs id ≡ some c
    → find_capture (update_capture f id cs) id ≡ some (f c)
unfolding find_capture update_capture
find-update_capture f same id [] c h = cc
find-update_capture f same id (x ∷ cs) c h = elim (Bool-cases (x.capture_id == id)) [
  | inl e ↦
      ap (λ d. find_capture d id) (update_here f x cs id e)
      ∙ found_here (f x) (update_capture f id cs) id (ap (λ i. i == id) (same x) ∙ e)
      ∙ ap (λ d. some (f d)) (some_same (sym (found_here x cs id e) ∙ h))
  | inr e ↦
      ap (λ d. find_capture d id) (update_there f x cs id e)
      ∙ found_there x (update_capture f id cs) id e
      ∙ find-update_capture f same id cs c (sym (found_there x cs id e) ∙ h)
]

load_capture-eq-ok :
    (cs : List Capture) (id : String) (c : Capture)
    → load_capture cs id ≡ ok c
    → find_capture cs id ≡ some c
unfolding load_capture
load_capture-eq-ok cs id c h = ground arith

pub loaded :
    (cs : List Capture) (id : String) (c : Capture)
    → find_capture cs id ≡ some c
    → load_capture cs id ≡ ok c
unfolding load_capture
loaded cs id c h = rw (h, load_capture) refl

was_inbox : (c : Capture) (u : Unit {0}) → require_inbox c ≡ ok u → is_inbox c.status ≡ true
was_inbox c u h = ground arith

-- The row of a capture before and after its triage.
abbrev Triaged : String → Db → Db → Type 0
Triaged id db db' =
    (c : Capture) × (find_capture db.captures id ≡ some c)
    × (is_inbox c.status ≡ true)
    × ((d : Capture) × (find_capture db'.captures id ≡ some d)
        × (is_inbox d.status ≡ false)
        × (d.body ≡ c.body)
        × (is_consistent c ≡ true → is_consistent d ≡ true))

shape_of_inbox :
    (c : Capture)
    → is_inbox c.status ≡ true
    → is_consistent c ≡ true
    → (is_some c.initiative_id ≡ false) × (is_some c.activity_id ≡ false)
unfolding is_consistent
shape_of_inbox c i h = (ground arith, ground arith)

left_inbox :
    (id : String) (db db' : Db) (ctx : Context) (status : CaptureStatus)
    (initiative activity remark : Option String) (c : Capture)
    → find_capture db.captures id ≡ some c
    → is_inbox c.status ≡ true
    → db'.captures ≡ update_capture (triaged ctx status initiative activity remark) id db.captures
    → is_inbox status ≡ false
    → (is_consistent c ≡ true → has_shape status initiative activity ≡ true)
    → Triaged id db db'
unfolding triaged is_consistent
left_inbox id db db' ctx status initiative activity remark c found open_before new leaves shape = (
  c,
  found,
  open_before,
  (
    triaged ctx status initiative activity remark c,
    ap (λ d. find_capture d id) new
        ∙ find-update_capture (triaged ctx status initiative activity remark) (λ x. refl) id
            db.captures c found,
    leaves,
    refl,
    λ h. ground (arith, shape h),
  ),
)

-- A triage that succeeds, past the check of the receipt.
module _ (present_capture : Capture → Json) (present : Initiative → Json) where
  pub data Triage : String → Db → Db → Type 0 where
    by_promote :
        (ctx : Context) (key id : String) (r : CapturePromote) (hash : String) (db db' : Db)
        (reply : Json)
        → promote_locked ctx present_capture present key id r hash db ≡ ok (reply, db')
        → Triage id db db'
    by_attach :
        (ctx : Context) (key id : String) (r : CaptureAttach) (hash : String) (db db' : Db)
        (reply : Json)
        → attach_locked ctx present_capture present key id r hash db ≡ ok (reply, db')
        → Triage id db db'
    by_discard :
        (ctx : Context) (key id : String) (remark : Option String) (hash : String) (db db' : Db)
        (reply : Json)
        → discard_locked ctx present_capture present key id remark hash db ≡ ok (reply, db')
        → Triage id db db'

  -- A triage takes a capture from the inbox: its row leaves the inbox, keeps its text, and
  -- satisfies the constraint of the table if it did before.
  pub Triage-row : (id : String) (db db' : Db) → Triage id db db' → Triaged id db db'
  unfolding promote_locked attach_locked discard_locked finish_triage triaged is_consistent
  Triage-row id db db' (by_promote ctx k _ r hash _ _ reply e) =
      let (c, e1, h1) = >>=-eq-ok (load_capture db.captures id) _ e in
      let (u, e2, h2) = >>=-eq-ok (require_inbox c) _ h1 in
      let (w, e3, h3) =
        >>=-eq-ok (work_workspace (workspace_of db.workspaces r.workspace_id)) _ h2 in
      let (v, e4, h4) =
        >>=-eq-ok
          (refuse_if
            (initiative_exists db.initiatives
              (promoted_initiative ctx present_capture present k r c w))
            409 _)
          _ h3 in
      let initiative =
        ctx.new_id (promoted_initiative ctx present_capture present k r c w).idempotency_key in
      left_inbox id db db' ctx CaptureStatus.promoted (some initiative) c.activity_id r.note c
        (load_capture-eq-ok db.captures id c e1) (was_inbox c u e2)
        (sym (ap (λ d. d.captures) (ok-db h4))) refl
        (λ h. ap not (shape_of_inbox c (was_inbox c u e2) h).1)
  Triage-row id db db' (by_attach ctx k _ r hash _ _ reply e) =
      let (c, e1, h1) = >>=-eq-ok (load_capture db.captures id) _ e in
      let (u, e2, h2) = >>=-eq-ok (require_inbox c) _ h1 in
      let (i, e3, h3) = >>=-eq-ok (load_initiative db r.initiative_id) _ h2 in
      let row = attached_activity ctx present_capture present k r c in
      left_inbox id db db' ctx attached (some r.initiative_id)
        (some (keep_activity db.activities row).1) r.note c (load_capture-eq-ok db.captures id c e1)
        (was_inbox c u e2) (sym (ap (λ d. d.captures) (ok-db h3))) refl (λ h. refl)
  Triage-row id db db' (by_discard ctx k _ remark hash _ _ reply e) =
      let (c, e1, h1) = >>=-eq-ok (load_capture db.captures id) _ e in
      let (u, e2, h2) = >>=-eq-ok (require_inbox c) _ h1 in
      left_inbox id db db' ctx discarded c.initiative_id c.activity_id remark c
        (load_capture-eq-ok db.captures id c e1) (was_inbox c u e2)
        (sym (ap (λ d. d.captures) (ok-db h2))) refl
        (λ h.
          rw ((shape_of_inbox c (was_inbox c u e2) h).0, (shape_of_inbox c (was_inbox c u e2) h).1)
            refl)

  -- The table's constraint on the columns of a capture holds of the row after its triage if it held
  -- before.
  pub Triage-is_consistent :
      (id : String) (db db' : Db) (c : Capture)
      → Triage id db db'
      → find_capture db.captures id ≡ some c
      → is_consistent c ≡ true
      → (d : Capture) × (find_capture db'.captures id ≡ some d)
        × (is_consistent d ≡ true)
        × (d.body ≡ c.body)
  Triage-is_consistent id db db' c t found h =
      let (old, found_old, inside, (d, found_after, gone, text, keeps)) = Triage-row id db db' t in
      let same = some_same (sym found_old ∙ found) in
      (d, found_after, keeps (ap is_consistent same ∙ h), text ∙ ap (λ k. k.body) same)
