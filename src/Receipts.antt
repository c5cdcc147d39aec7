-- ===== src/Receipts.antt =====
-- docs-api/app/mutation_receipts.py: the stored answers that make a mutating request replayable.
-- One transaction runs after another: `load_receipt` takes an advisory lock on the pair of
-- principal and key, so two deliveries of a request are two calls in sequence.
pub mod Replay
use docplane.Base.{
  String, not, ◌&&◌, ◌||◌, Option, none, some, List, [], ◌∷◌, ◌++◌, ◌==◌, if◌then◌else◌,
}
use docplane.Http.{Result, ok, raise}

module _ {ℓ} (R : Type ℓ) where
  pub record Receipt : Type ℓ where
    pub principal_id : String
    pub idempotency_key : String
    pub operation_type : String
    pub resource_ref : Option String
    pub request_hash : String
    pub response : R

module _ {ℓ} {R : Type ℓ} where
  -- SELECT … WHERE principal_id = … AND idempotency_key = …
  unfoldable pub find_receipt : List (Receipt R) → String → String → Option (Receipt R)
  find_receipt [] principal key = none
  find_receipt (r ∷ rs) principal key =
      if r.principal_id == principal && r.idempotency_key == key
      then some r
      else find_receipt rs principal key

  unfoldable pub replay_of : Option (Receipt R) → String → String → Result (Option R)
  replay_of none operation digest = ok none
  replay_of (some r) operation digest =
      if not (r.operation_type == operation) || not (r.request_hash == digest)
      then raise 409 "IDEMPOTENCY_KEY_REUSED"
      else ok (some r.response)

  unfoldable pub load_receipt :
      List (Receipt R) → String → String → String → String → Result (Option R)
  unfolding replay_of
  load_receipt rs principal key operation digest =
      replay_of (find_receipt rs principal key) operation digest

  -- INSERT … ON CONFLICT (principal_id, idempotency_key) DO NOTHING
  unfoldable pub save_receipt : List (Receipt R) → Receipt R → List (Receipt R)
  unfolding find_receipt
  save_receipt rs r = elim (find_receipt rs r.principal_id r.idempotency_key) [
    | none ↦ rs ++ r ∷ []
    | some old ↦ rs
  ]
