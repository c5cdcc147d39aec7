-- ===== src/Receipts/Replay.antt =====
-- A saved answer comes back to the same request, and to no other.
use docplane.Base.{
  String, ◌≡◌, refl, Bool, ◌&&◌, none, some, List, [], ◌∷◌, ◌++◌, arith, ◌==◌, eq_refl,
  if◌then◌else◌, Option-cases, inl, inr,
}
use docplane.Http.{ok, raise}
use docplane.Receipts.{Receipt, find_receipt, replay_of, load_receipt, save_receipt}

module _ {ℓ} {R : Type ℓ} where
  abbrev pub is_for : String → String → Receipt R → Bool
  is_for principal key r = r.principal_id == principal && r.idempotency_key == key

  find-append :
      (rs : List (Receipt R)) (r : Receipt R) (principal key : String)
      → find_receipt rs principal key ≡ none
      → find_receipt (rs ++ r ∷ []) principal key
        ≡ (if is_for principal key r then some r else none)
  unfolding find_receipt
  find-append [] r principal key h = refl
  find-append (x ∷ rs) r principal key h = ground (arith, find-append rs r principal key)

  find-append_found :
      (rs : List (Receipt R)) (r old : Receipt R) (principal key : String)
      → find_receipt rs principal key ≡ some old
      → find_receipt (rs ++ r ∷ []) principal key ≡ some old
  unfolding find_receipt
  find-append_found [] r old principal key h = cc
  find-append_found (x ∷ rs) r old principal key h =
      ground (arith, find-append_found rs r old principal key)

  -- A stored receipt is never replaced, whatever is saved later, under its key or another.
  pub find-save_receipt_found :
      (rs : List (Receipt R)) (r old : Receipt R) (principal key : String)
      → find_receipt rs principal key ≡ some old
      → find_receipt (save_receipt rs r) principal key ≡ some old
  unfolding save_receipt
  find-save_receipt_found rs r old principal key h =
      elim (Option-cases (find_receipt rs r.principal_id r.idempotency_key)) [
        | inl e ↦ rw (e, save_receipt) (find-append_found rs r old principal key h)
        | inr (x, e) ↦ rw (e, save_receipt) h
      ]

  pub find-save_receipt_self :
      (rs : List (Receipt R)) (r : Receipt R)
      → find_receipt rs r.principal_id r.idempotency_key ≡ none
      → find_receipt (save_receipt rs r) r.principal_id r.idempotency_key ≡ some r
  unfolding save_receipt
  find-save_receipt_self rs r h =
      rw (h, save_receipt)
        (rw (find-append rs r r.principal_id r.idempotency_key h)
          (ground (arith, eq_refl r.principal_id, eq_refl r.idempotency_key)))

  -- After a request's first answer is saved, the same principal, key, operation and digest get that
  -- answer, and the same principal and key with another operation or digest are refused by 409.
  pub load-save_receipt :
      (rs : List (Receipt R)) (r : Receipt R) (operation digest : String)
      → find_receipt rs r.principal_id r.idempotency_key ≡ none
      → load_receipt (save_receipt rs r) r.principal_id r.idempotency_key operation digest ≡ (
          if r.operation_type == operation && r.request_hash == digest
          then ok (some r.response)
          else raise 409 "IDEMPOTENCY_KEY_REUSED")
  unfolding load_receipt replay_of
  load-save_receipt rs r operation digest h = rw (find-save_receipt_self rs r h) (ground arith)

  pub load-receipt_missing :
      (rs : List (Receipt R)) (principal key operation digest : String)
      → find_receipt rs principal key ≡ none
      → load_receipt rs principal key operation digest ≡ ok none
  unfolding load_receipt
  load-receipt_missing rs principal key operation digest h = rw h

  pub missing_of_load-receipt :
      (rs : List (Receipt R)) (principal key operation digest : String)
      → load_receipt rs principal key operation digest ≡ ok none
      → find_receipt rs principal key ≡ none
  unfolding load_receipt
  missing_of_load-receipt rs principal key operation digest h = ground arith
