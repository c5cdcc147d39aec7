-- ===== src/Work/Triage/Once.antt =====
-- A capture is triaged once, through the handlers with their receipts.
use docplane.Base.{
  String, ◌≡◌, refl, sym, ap, ap₂, ◌∙◌, ◌&&◌, Option, none, some, arith, ◌==◌, eq_iff,
  if◌then◌else◌, Bool-cases, inl, inr,
}
use docplane.Json.{Json}
use docplane.Http.{Result, ok, raise, key, ◌>>=◌}
use docplane.Receipts.{Receipt, find_receipt, replay_of, load_receipt}
use docplane.Work.Types.{Db, Context, Initiative, Capture}
use docplane.Work.Captures.{CaptureCreate, create_capture, unless_answered}
use docplane.Work.Triage.{Request, operation_of, triage, triage-handle, refused_again}
use docplane.Work.Triage.Settled.{Settled, triage-Settled, step-Settled, create-Settled}

module _ (present_capture : Capture → Json) (present : Initiative → Json) where
  -- Requests to the inbox that succeed, one after the other, whoever sends them.
  pub data Later : Db → Db → Type 0 where
    now : (db : Db) → Later db db
    after_triage :
        (ctx : Context) (header : Option String) (id : String) (r : Request) (hash : String)
        (db mid db' : Db) (reply : Json)
        → triage present_capture present ctx header id r hash db ≡ ok (reply, mid)
        → Later mid db'
        → Later db db'
    after_create :
        (ctx : Context) (header : Option String) (r : CaptureCreate) (hash : String)
        (db mid db' : Db) (reply : Json)
        → create_capture ctx present_capture present header r hash db ≡ ok (reply, mid)
        → Later mid db'
        → Later db db'

  Later-Settled :
      (ctx : Context) (k id : String) (r : Request) (hash : String) (reply : Json) (db db' : Db)
      → Later db db'
      → Settled present_capture present ctx k id r hash reply db
      → Settled present_capture present ctx k id r hash reply db'
  Later-Settled ctx k id r hash reply db _ (now _) s = s
  Later-Settled ctx k id r hash reply db db'
        (after_triage ctx2 header2 id2 r2 hash2 _ mid _ reply2 e l) s =
      Later-Settled ctx k id r hash reply mid db' l (
        step-Settled present_capture present ctx k id r hash reply ctx2 header2 id2 r2 hash2 db mid
          reply2 s e)
  Later-Settled ctx k id r hash reply db db' (after_create ctx2 header2 r2 hash2 _ mid _ reply2 e l)
        s =
      Later-Settled ctx k id r hash reply mid db' l (
        create-Settled present_capture present ctx k id r hash reply ctx2 header2 r2 hash2 db mid
          reply2 s e)

  -- What the receipt of a key answers to a triage of a capture that has left the inbox.
  abbrev pub from_receipt : Option (Receipt Json) → String → String → Db → Result (Json × Db)
  from_receipt none operation hash db = raise 409 "CAPTURE_ALREADY_TRIAGED"
  from_receipt (some old) operation hash db =
      if old.operation_type == operation && old.request_hash == hash
      then ok (old.response, db)
      else raise 409 "IDEMPOTENCY_KEY_REUSED"

  answered_again :
      (ctx : Context) (o : Option (Receipt Json)) (operation hash : String) (db : Db)
      → (replay_of o operation hash >>= λ replayed.
          unless_answered ctx present_capture present replayed db
            (raise 409 "CAPTURE_ALREADY_TRIAGED"))
        ≡ from_receipt o operation hash db
  unfolding replay_of
  answered_again ctx none operation hash db = refl
  answered_again ctx (some old) operation hash db =
      elim (Bool-cases (old.operation_type == operation)) [
        | inl e ↦ elim (Bool-cases (old.request_hash == hash)) [
          | inl f ↦ rw (e, f) refl
          | inr f ↦ rw (e, f) refl
        ]
        | inr e ↦ rw e refl
      ]

  -- A capture is triaged once. After a triage under a key that its principal has not used before, and
  -- any triages and creations in the inbox that succeed after it, a triage of the same capture gets:
  -- under the same key of the same principal, the first answer again if it is the same operation with
  -- the same digest, and 409 IDEMPOTENCY_KEY_REUSED otherwise;
  -- under any other key, what the receipt of that key says, if there is one, and without one 409
  -- CAPTURE_ALREADY_TRIAGED, whatever its kind and whoever asks. None of these writes anything.
  pub triage_once :
      (ctx : Context) (header : Option String) (k id : String) (r : Request) (hash : String)
      (db db' later : Db) (reply : Json) (ctx' : Context) (header' : Option String) (k' : String)
      (r' : Request) (hash' : String)
      → key header ≡ ok k
      → find_receipt db.receipts ctx.principal.principal_id k ≡ none
      → triage present_capture present ctx header id r hash db ≡ ok (reply, db')
      → Later db' later
      → key header' ≡ ok k'
      → triage present_capture present ctx' header' id r' hash' later ≡ (
          if ctx.principal.principal_id == ctx'.principal.principal_id && k == k'
          then (if operation_of r == operation_of r' && hash == hash'
              then ok (reply, later)
              else raise 409 "IDEMPOTENCY_KEY_REUSED")
          else from_receipt
              (find_receipt later.receipts ctx'.principal.principal_id k')
              (operation_of r')
              hash'
              later)
  unfolding load_receipt
  triage_once ctx header k id r hash db db' later reply ctx' header' k' r' hash' e new h l e' =
      let (receipt, (c, found, gone)) =
        Later-Settled ctx k id r hash reply db' later l
          (triage-Settled present_capture present ctx header k id r hash db db' reply e new h) in
      triage-handle present_capture present ctx' header' k' id r' hash' later e'
      ∙ ap
          (λ (locked : Result (Json × Db)).
            load_receipt later.receipts ctx'.principal.principal_id k' (operation_of r') hash'
            >>= λ replayed. unless_answered ctx' present_capture present replayed later locked)
          (refused_again present_capture present ctx' k' id r' hash' later c found gone)
      ∙ answered_again ctx' (find_receipt later.receipts ctx'.principal.principal_id k')
          (operation_of r') hash' later
      ∙ elim (Bool-cases (ctx.principal.principal_id == ctx'.principal.principal_id && k == k')) [
        | inl same ↦
            let principal : ctx.principal.principal_id ≡ ctx'.principal.principal_id =
              ground (arith, eq_iff ctx.principal.principal_id ctx'.principal.principal_id, same) in
            let keys : k ≡ k' = ground (arith, eq_iff k k', same) in
            let same_receipt =
              ap₂ (find_receipt later.receipts) (sym principal) (sym keys) ∙ receipt in
            rw (same, same_receipt) refl
        | inr other ↦ rw other refl
      ]
