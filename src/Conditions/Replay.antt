-- ===== src/Conditions/Replay.antt =====
-- What a caller can rely on who repeats a request, and what a request leaves alone.
use docplane.Base.{String, ◌≡◌, true, not, Option, none, some, [], arith, eq_refl}
use docplane.Base.Sorting.{sort_by}
use docplane.Base.Dict.{Dict, entry_key, of_entries}
use docplane.Http.{Result, ok, key, >>=-eq-ok, refuse_if-eq-ok}
use docplane.Receipts.{find_receipt, load_receipt}
use docplane.Receipts.Replay.{load-save_receipt, missing_of_load-receipt}
use docplane.Conditions.{Briefings, Progress, Context}
use docplane.Conditions.Reconcile.{
  Db, Response, operation, is_condition_set, validate_briefings, reconcile_locked, unless_replayed,
  reconcile_conditions, receipt_of,
}

module _ {B J : Type 0} (j : Briefings B) (digest : String → Dict B → String)
    (encode : Response → J) (metadata_json : Progress B → J) (ctx : Context) where
  abbrev run : Option String → String → Dict B → Db B J → Result (J × Db B J)
  run = reconcile_conditions j digest encode metadata_json ctx

  abbrev hash_of : String → Dict B → String
  hash_of artifact_id conditions = digest artifact_id (sort_by entry_key (of_entries [] conditions))

  -- The answer that the locked part stores is the one that it returns.
  replay-reconcile_locked :
      (k artifact_id hash : String) (desired : Dict B) (db db' : Db B J) (answer : J)
      → find_receipt db.receipts ctx.principal.principal_id k ≡ none
      → reconcile_locked j digest encode metadata_json ctx k artifact_id desired hash db
        ≡ ok (answer, db')
      → load_receipt db'.receipts ctx.principal.principal_id k operation hash ≡ ok (some answer)
  unfolding reconcile_locked
  replay-reconcile_locked k artifact_id hash desired db db' answer new h = ground (
    arith,
    load-save_receipt db.receipts
        (receipt_of j digest encode metadata_json ctx k artifact_id hash answer) operation hash new,
    eq_refl hash,
  )

  replay-unless_replayed :
      (k artifact_id hash : String) (desired : Dict B) (db db' : Db B J) (answer : J)
      (replayed : Option J)
      → load_receipt db.receipts ctx.principal.principal_id k operation hash ≡ ok replayed
      → unless_replayed j digest encode metadata_json ctx replayed k artifact_id desired hash db
        ≡ ok (answer, db')
      → load_receipt db'.receipts ctx.principal.principal_id k operation hash ≡ ok (some answer)
  unfolding unless_replayed
  replay-unless_replayed k artifact_id hash desired db db' answer none l h =
      replay-reconcile_locked k artifact_id hash desired db db' answer
        (missing_of_load-receipt db.receipts _ k operation hash l) h
  replay-unless_replayed k artifact_id hash desired db db' answer (some old) l h = ground arith

  rerun :
      (header : Option String) (k artifact_id : String) (conditions : Dict B) (u : Unit {0})
      (db : Db B J) (answer : J)
      → is_condition_set conditions ≡ true
      → key header ≡ ok k
      → validate_briefings j conditions ≡ ok u
      → load_receipt db.receipts ctx.principal.principal_id k operation
          (hash_of artifact_id conditions)
        ≡ ok (some answer)
      → run header artifact_id conditions db ≡ ok (answer, db)
  unfolding reconcile_conditions
  rerun header k artifact_id conditions u db answer valid e1 e2 e3 = rw (valid, e1, e2, e3)

  -- A request that succeeded, repeated on the resulting database under the same key by the same
  -- principal, gets the same answer and writes nothing.
  pub reconcile_conditions_replay :
      (header : Option String) (artifact_id : String) (conditions : Dict B) (db db' : Db B J)
      (answer : J)
      → reconcile_conditions j digest encode metadata_json ctx header artifact_id conditions db
        ≡ ok (answer, db')
      → reconcile_conditions j digest encode metadata_json ctx header artifact_id conditions db'
        ≡ ok (answer, db')
  unfolding reconcile_conditions
  reconcile_conditions_replay header artifact_id conditions db db' answer h =
      let (refused, h0) =
        refuse_if-eq-ok (not (is_condition_set conditions)) 422 "RequestValidationError" _ h in
      let valid : is_condition_set conditions ≡ true = ground (arith, refused) in
      let (k, e1, h1) = >>=-eq-ok (key header) _ h0 in
      let (u, e2, h2) = >>=-eq-ok (validate_briefings j conditions) _ h1 in
      let (old, e3, h3) = >>=-eq-ok (load_receipt db.receipts _ k operation _) _ h2 in
      rerun header k artifact_id conditions u db' answer valid e1 e2 (
        replay-unless_replayed k artifact_id (hash_of artifact_id conditions)
          (of_entries [] conditions) db db' answer old e3 h3)
