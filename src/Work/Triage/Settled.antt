-- ===== src/Work/Triage/Settled.antt =====
-- What a triage leaves, and what every later request to the inbox keeps: the receipt under its key, and
-- the capture out of the inbox.
use docplane.Base.{
  String, ◌≡◌, refl, sym, ap, ◌∙◌, false, Option, none, some, List, [], ◌∷◌, arith, ◌==◌, eq_iff,
  Bool-cases, Option-cases, inl, inr, subst, ◌++◌,
}
use docplane.Base.Strip.{strip}
use docplane.Json.{Json}
use docplane.Http.{ok, refuse_if, key, >>=-eq-ok, ok-eq}
use docplane.Receipts.{find_receipt, load_receipt}
use docplane.Receipts.Replay.{load-receipt_missing, find-save_receipt_self, find-save_receipt_found}
use docplane.Work.Types.{Db, Context, Initiative, Capture}
use docplane.Work.Rows.{find_capture_of, insert_capture}
use docplane.Work.Captures.{
  CaptureCreate, find_capture, create_locked, create_capture, is_inbox, update_capture,
  unless_answered, handle, answer_of,
}
use docplane.Work.Inbox.{Triage-row}
use docplane.Work.Triage.{
  Request, operation_of, triage, triage_locked, triage-handle, triage-key, refused_again,
  triage_locked-Triage, triage_locked-Writes,
}

module _ (present_capture : Capture → Json) (present : Initiative → Json) where
  find-update_capture_other :
      (f : Capture → Capture) (id other : String) (cs : List Capture)
      → ((x : Capture) → (f x).capture_id ≡ x.capture_id)
      → (other == id) ≡ false
      → find_capture (update_capture f other cs) id ≡ find_capture cs id
  unfolding find_capture update_capture
  find-update_capture_other f id other [] keeps e = refl
  find-update_capture_other f id other (x ∷ cs) keeps e = ground (
    arith,
    find-update_capture_other f id other cs keeps e,
    keeps x,
    eq_iff x.capture_id other,
    eq_iff other id,
  )

  -- The receipt of a triage stands under its key, and the capture has left the inbox.
  abbrev pub Settled : Context → String → String → Request → String → Json → Db → Type 0
  Settled ctx k id r hash reply db =
      (find_receipt db.receipts ctx.principal.principal_id k
        ≡ some (answer_of ctx present_capture present k (operation_of r) id hash reply))
      × ((c : Capture) × (find_capture db.captures id ≡ some c) × (is_inbox c.status ≡ false))

  pub triage-Settled :
      (ctx : Context) (header : Option String) (k id : String) (r : Request) (hash : String)
      (db db' : Db) (reply : Json)
      → key header ≡ ok k
      → find_receipt db.receipts ctx.principal.principal_id k ≡ none
      → triage present_capture present ctx header id r hash db ≡ ok (reply, db')
      → Settled ctx k id r hash reply db'
  triage-Settled ctx header k id r hash db db' reply e new h =
      let went : triage_locked present_capture present ctx k id r hash db ≡ ok (reply, db') =
        sym (
          triage-handle present_capture present ctx header k id r hash db e
          ∙ rw
              (load-receipt_missing db.receipts ctx.principal.principal_id k (operation_of r) hash
                new)
              refl)
        ∙ h in
      let written =
        triage_locked-Writes present_capture present ctx k id r hash db db' reply went in
      let (c, found, inside, (d, found_after, gone, text, rest)) =
        Triage-row present_capture present id db db'
          (triage_locked-Triage present_capture present ctx k id r hash db db' reply went) in
      (
        ap (λ rs. find_receipt rs ctx.principal.principal_id k) written.0
            ∙ find-save_receipt_self db.receipts
                (answer_of ctx present_capture present k (operation_of r) id hash reply) new,
        (d, found_after, gone),
      )

  locked-Settled :
      (ctx : Context) (k id : String) (r : Request) (hash : String) (reply : Json) (ctx2 : Context)
      (k2 id2 : String) (r2 : Request) (hash2 : String) (db db2 : Db) (reply2 : Json)
      → Settled ctx k id r hash reply db
      → triage_locked present_capture present ctx2 k2 id2 r2 hash2 db ≡ ok (reply2, db2)
      → Settled ctx k id r hash reply db2
  locked-Settled ctx k id r hash reply ctx2 k2 id2 r2 hash2 db db2 reply2 s h =
      let (receipts, (f, keeps, captures)) =
        triage_locked-Writes present_capture present ctx2 k2 id2 r2 hash2 db db2 reply2 h in
      let (c, found, gone) = s.1 in
      (
        ap (λ rs. find_receipt rs ctx.principal.principal_id k) receipts
            ∙ find-save_receipt_found db.receipts _ _ ctx.principal.principal_id k s.0,
        elim (Bool-cases (id2 == id)) [
          | inl e ↦
              let same : id2 ≡ id = ground (arith, eq_iff id2 id) in
              let again =
                refused_again present_capture present ctx2 k2 id2 r2 hash2 db c
                  (ap (find_capture db.captures) same ∙ found) gone in
              ground (arith, again)
          | inr e ↦ (
            c,
            ap (λ cs. find_capture cs id) captures
                ∙ find-update_capture_other f id id2 db.captures keeps e
                ∙ found,
            gone,
          )
        ],
      )

  pub step-Settled :
      (ctx : Context) (k id : String) (r : Request) (hash : String) (reply : Json) (ctx2 : Context)
      (header2 : Option String) (id2 : String) (r2 : Request) (hash2 : String) (db db2 : Db)
      (reply2 : Json)
      → Settled ctx k id r hash reply db
      → triage present_capture present ctx2 header2 id2 r2 hash2 db ≡ ok (reply2, db2)
      → Settled ctx k id r hash reply db2
  step-Settled ctx k id r hash reply ctx2 header2 id2 r2 hash2 db db2 reply2 s h =
      let (k2, e2) =
        triage-key present_capture present ctx2 header2 id2 r2 hash2 db (reply2, db2) h in
      let (replayed, e3, h3) =
        >>=-eq-ok (load_receipt db.receipts ctx2.principal.principal_id k2 (operation_of r2) hash2)
          (λ replayed.
            unless_answered ctx2 present_capture present replayed db
              (triage_locked present_capture present ctx2 k2 id2 r2 hash2 db))
          (sym (triage-handle present_capture present ctx2 header2 k2 id2 r2 hash2 db e2) ∙ h) in
      go replayed h3
    where
      go :
          (replayed : Option Json)
          → unless_answered ctx2 present_capture present replayed db (
              triage_locked present_capture present ctx2
                (triage-key present_capture present ctx2 header2 id2 r2 hash2 db (reply2, db2) h).0
                id2
                r2
                hash2
                db)
            ≡ ok (reply2, db2)
          → Settled ctx k id r hash reply db2
      go (some old) q = subst (Settled ctx k id r hash reply) (ap (λ x. x.1) (ok-eq q)) s
      go none q =
          locked-Settled ctx k id r hash reply ctx2
            (triage-key present_capture present ctx2 header2 id2 r2 hash2 db (reply2, db2) h).0 id2
            r2 hash2 db db2 reply2 s q

  find-append_capture :
      (cs : List Capture) (new c : Capture) (id : String)
      → find_capture cs id ≡ some c
      → find_capture (cs ++ new ∷ []) id ≡ some c
  unfolding find_capture
  find-append_capture [] new c id h = cc
  find-append_capture (x ∷ cs) new c id h = ground (arith, find-append_capture cs new c id)

  find-insert_capture :
      (cs : List Capture) (new c : Capture) (id : String)
      → find_capture cs id ≡ some c
      → find_capture (insert_capture cs new) id ≡ some c
  unfolding insert_capture
  find-insert_capture cs new c id h =
      elim (Option-cases (find_capture_of cs new.author_principal_id new.idempotency_key)) [
        | inl e ↦ rw (e, insert_capture) (find-append_capture cs new c id h)
        | inr (old, e) ↦ rw (e, insert_capture) h
      ]

  pub create-Settled :
      (ctx : Context) (k id : String) (r : Request) (hash : String) (reply : Json) (ctx2 : Context)
      (header2 : Option String) (new : CaptureCreate) (hash2 : String) (db db2 : Db) (reply2 : Json)
      → Settled ctx k id r hash reply db
      → create_capture ctx2 present_capture present header2 new hash2 db ≡ ok (reply2, db2)
      → Settled ctx k id r hash reply db2
  unfolding create_capture handle create_locked
  create-Settled ctx k id r hash reply ctx2 header2 new hash2 db db2 reply2 s h =
      let (k2, e2, h2) = >>=-eq-ok (key header2) _ h in
      let (replayed, e3, h3) =
        >>=-eq-ok (load_receipt db.receipts ctx2.principal.principal_id k2 "CAPTURE_CREATE" hash2) _
          h2 in
      go k2 replayed h3
    where
      go :
          (k2 : String) (replayed : Option Json)
          → unless_answered ctx2 present_capture present replayed db
              (create_locked ctx2 present_capture present k2 new hash2 db)
            ≡ ok (reply2, db2)
          → Settled ctx k id r hash reply db2
      go k2 (some old) q = subst (Settled ctx k id r hash reply) (ap (λ x. x.1) (ok-eq q)) s
      go k2 none q =
          let (c, found, gone) = s.1 in
          let (u, e4, h4) = >>=-eq-ok (refuse_if (strip new.body == "") 500 "CheckViolation") _ q in
          let same = ok-eq h4 in
          (
            ap (λ x. find_receipt x.1.receipts ctx.principal.principal_id k) (sym same)
                ∙ find-save_receipt_found db.receipts _ _ ctx.principal.principal_id k s.0,
            (
              c,
              ap (λ x. find_capture x.1.captures id) (sym same)
                  ∙ find-insert_capture db.captures _ c id found,
              gone,
            ),
          )
