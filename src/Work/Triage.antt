-- ===== src/Work/Triage.antt =====
-- The three triages of the inbox, `promote_capture`, `attach_capture` and `discard_capture`, as the
-- requests that they are: what a client gets that repeats one, or that comes after one.
mod Settled
pub mod Once
use docplane.Base.{
  String, ◌≡◌, refl, sym, ap, ap₂, ◌∙◌, Bool, true, false, not, ◌&&◌, ◌||◌, Option, none, some,
  List, [], ◌∷◌, arith, ◌==◌, eq_refl, eq_iff, if◌then◌else◌, Bool-cases, Option-cases, inl, inr,
  subst, ◌++◌,
}
use docplane.Base.Strip.{strip}
use docplane.Json.{Json}
use docplane.Http.{Result, ok, raise, refuse_if, key, ◌>>=◌, >>=-eq-ok, ok-eq}
use docplane.Receipts.{Receipt, find_receipt, replay_of, load_receipt, save_receipt}
use docplane.Receipts.Replay.{load-receipt_missing, find-save_receipt_self, find-save_receipt_found}
use docplane.Work.Types.{Db, Context, Initiative, Capture, CaptureStatus, attached, discarded}
use docplane.Work.Rows.{load_initiative, find_capture_of, insert_capture, inbox_capture}
use docplane.Work.Captures.{
  CaptureCreate, CapturePromote, CaptureAttach, find_capture, create_locked, create_capture,
  stored_or, load_capture, require_inbox, triaged, work_workspace, workspace_of, initiative_exists,
  promoted_initiative, attached_activity, keep_activity, promote_locked, attach_locked,
  discard_locked, is_inbox, update_capture, finish_triage, unless_answered, handle, answer_of,
  promote_capture, attach_capture, discard_capture,
}
use docplane.Work.Inbox.{Triage, by_promote, by_attach, by_discard, Triage-row, loaded}

-- The body of a triage request, by its route.
pub data Request : Type 0 where
  to_promote : CapturePromote → Request
  to_attach : CaptureAttach → Request
  to_discard : Option String → Request

abbrev pub operation_of : Request → String
operation_of (to_promote p) = "CAPTURE_PROMOTE"
operation_of (to_attach a) = "CAPTURE_ATTACH"
operation_of (to_discard remark) = "CAPTURE_DISCARD"

module _ (present_capture : Capture → Json) (present : Initiative → Json) where
  -- The handler of the route, for the header, the capture, the request and its digest.
  unfoldable pub triage :
      Context → Option String → String → Request → String → Db → Result (Json × Db)
  unfolding promote_capture attach_capture discard_capture
  triage ctx header id (to_promote p) hash db =
      promote_capture ctx present_capture present header id p hash db
  triage ctx header id (to_attach a) hash db =
      attach_capture ctx present_capture present header id a hash db
  triage ctx header id (to_discard remark) hash db =
      discard_capture ctx present_capture present header id remark hash db

  unfoldable pub triage_locked :
      Context → String → String → Request → String → Db → Result (Json × Db)
  unfolding promote_locked attach_locked discard_locked
  triage_locked ctx k id (to_promote p) hash db =
      promote_locked ctx present_capture present k id p hash db
  triage_locked ctx k id (to_attach a) hash db =
      attach_locked ctx present_capture present k id a hash db
  triage_locked ctx k id (to_discard remark) hash db =
      discard_locked ctx present_capture present k id remark hash db

  pub triage-handle :
      (ctx : Context) (header : Option String) (k id : String) (r : Request) (hash : String)
      (db : Db)
      → key header ≡ ok k
      → triage ctx header id r hash db ≡ (
          load_receipt db.receipts ctx.principal.principal_id k (operation_of r) hash
          >>= λ replayed.
              unless_answered ctx present_capture present replayed db
                (triage_locked ctx k id r hash db))
  unfolding triage handle triage_locked
  triage-handle ctx header k id (to_promote p) hash db e = rw e refl
  triage-handle ctx header k id (to_attach a) hash db e = rw e refl
  triage-handle ctx header k id (to_discard remark) hash db e = rw e refl

  -- Past the receipt, a capture that has left the inbox is refused.
  pub refused_again :
      (ctx : Context) (k id : String) (r : Request) (hash : String) (db : Db) (c : Capture)
      → find_capture db.captures id ≡ some c
      → is_inbox c.status ≡ false
      → triage_locked ctx k id r hash db ≡ raise 409 "CAPTURE_ALREADY_TRIAGED"
  unfolding triage_locked promote_locked attach_locked discard_locked
  refused_again ctx k id (to_promote p) hash db c found gone =
      rw (loaded db.captures id c found, gone) refl
  refused_again ctx k id (to_attach a) hash db c found gone =
      rw (loaded db.captures id c found, gone) refl
  refused_again ctx k id (to_discard remark) hash db c found gone =
      rw (loaded db.captures id c found, gone) refl

  pub triage_locked-Triage :
      (ctx : Context) (k id : String) (r : Request) (hash : String) (db db' : Db) (reply : Json)
      → triage_locked ctx k id r hash db ≡ ok (reply, db')
      → Triage present_capture present id db db'
  unfolding triage_locked
  triage_locked-Triage ctx k id (to_promote p) hash db db' reply h =
      by_promote ctx k id p hash db db' reply h
  triage_locked-Triage ctx k id (to_attach a) hash db db' reply h =
      by_attach ctx k id a hash db db' reply h
  triage_locked-Triage ctx k id (to_discard remark) hash db db' reply h =
      by_discard ctx k id remark hash db db' reply h

  -- What the end of a triage writes: its receipt, and one row of the inbox.
  abbrev Writes : Context → String → String → Request → String → Json → Db → Db → Type 0
  Writes ctx k id r hash reply db db' =
      (db'.receipts
        ≡ save_receipt db.receipts
            (answer_of ctx present_capture present k (operation_of r) id hash reply))
      × ((f : Capture → Capture) × ((x : Capture) → (f x).capture_id ≡ x.capture_id)
          × (db'.captures ≡ update_capture f id db.captures))

  answered-Writes :
      (ctx : Context) (k id : String) (r : Request) (hash : String) (db db' : Db) (reply : Json)
      (out : Json × Db)
      → out ≡ (reply, db')
      → out.1.receipts
        ≡ save_receipt db.receipts
            (answer_of ctx present_capture present k (operation_of r) id hash out.0)
      → (f : Capture → Capture) → ((x : Capture) → (f x).capture_id ≡ x.capture_id)
      → out.1.captures ≡ update_capture f id db.captures
      → Writes ctx k id r hash reply db db'
  answered-Writes ctx k id r hash db db' reply out same receipts f keeps captures = (
    sym (ap (λ x. x.1.receipts) same)
        ∙ receipts
        ∙ ap
            (λ (x : Json × Db).
              save_receipt db.receipts
                (answer_of ctx present_capture present k (operation_of r) id hash x.0))
            same,
    (f, keeps, sym (ap (λ x. x.1.captures) same) ∙ captures),
  )

  pub triage_locked-Writes :
      (ctx : Context) (k id : String) (r : Request) (hash : String) (db db' : Db) (reply : Json)
      → triage_locked ctx k id r hash db ≡ ok (reply, db')
      → Writes ctx k id r hash reply db db'
  unfolding triage_locked promote_locked attach_locked discard_locked finish_triage triaged
  triage_locked-Writes ctx k id (to_promote p) hash db db' reply h =
      let (c, e1, h1) = >>=-eq-ok (load_capture db.captures id) _ h in
      let (u, e2, h2) = >>=-eq-ok (require_inbox c) _ h1 in
      let (w, e3, h3) =
        >>=-eq-ok (work_workspace (workspace_of db.workspaces p.workspace_id)) _ h2 in
      let new = promoted_initiative ctx present_capture present k p c w in
      let (v, e4, h4) = >>=-eq-ok (refuse_if (initiative_exists db.initiatives new) 409 _) _ h3 in
      answered-Writes ctx k id (to_promote p) hash db db' reply _ (ok-eq h4) refl
        (triaged ctx CaptureStatus.promoted (some (ctx.new_id new.idempotency_key)) c.activity_id
          p.note)
        (λ x. refl) refl
  triage_locked-Writes ctx k id (to_attach a) hash db db' reply h =
      let (c, e1, h1) = >>=-eq-ok (load_capture db.captures id) _ h in
      let (u, e2, h2) = >>=-eq-ok (require_inbox c) _ h1 in
      let (i, e3, h3) = >>=-eq-ok (load_initiative db a.initiative_id) _ h2 in
      let row = attached_activity ctx present_capture present k a c in
      answered-Writes ctx k id (to_attach a) hash db db' reply _ (ok-eq h3) refl
        (triaged ctx attached (some a.initiative_id) (some (keep_activity db.activities row).1)
          a.note)
        (λ x. refl) refl
  triage_locked-Writes ctx k id (to_discard remark) hash db db' reply h =
      let (c, e1, h1) = >>=-eq-ok (load_capture db.captures id) _ h in
      let (u, e2, h2) = >>=-eq-ok (require_inbox c) _ h1 in
      answered-Writes ctx k id (to_discard remark) hash db db' reply _ (ok-eq h2) refl
        (triaged ctx discarded c.initiative_id c.activity_id remark) (λ x. refl) refl

  pub triage-key :
      (ctx : Context) (header : Option String) (id : String) (r : Request) (hash : String) (db : Db)
      (x : Json × Db)
      → triage ctx header id r hash db ≡ ok x
      → (k : String) × (key header ≡ ok k)
  unfolding triage handle
  triage-key ctx header id (to_promote p) hash db x h =
      let found = >>=-eq-ok (key header) _ h in (found.0, found.1)
  triage-key ctx header id (to_attach a) hash db x h =
      let found = >>=-eq-ok (key header) _ h in (found.0, found.1)
  triage-key ctx header id (to_discard remark) hash db x h =
      let found = >>=-eq-ok (key header) _ h in (found.0, found.1)
