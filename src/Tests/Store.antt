-- ===== src/Tests/Store.antt =====
-- Receipts and events on small stores.
use docplane.Base.{ℕ, ◌≡◌, refl, false, ◌&&◌, none, some, [], ◌==◌, if◌then◌else◌}
use docplane.Http.{ok, raise}
use docplane.Receipts.{Receipt, find_receipt, load_receipt, save_receipt}
use docplane.Receipts.Replay.{load-save_receipt}
use docplane.Events.{Draft, Log, append_event}
use docplane.Events.Append.{append_event_retry, append_event-IsOrdered, IsOrdered}

abbrev first_receipt : Receipt ℕ
first_receipt = record {
  principal_id = "p";
  idempotency_key = "k";
  operation_type = "CAPTURE_CREATE";
  resource_ref = none;
  request_hash = "h";
  response = 7;
}

no_receipt : find_receipt {R = ℕ} [] "p" "k" ≡ none
unfolding find_receipt
no_receipt = refl

load-save_receipt_example :
    load_receipt (save_receipt [] first_receipt) "p" "k" "CAPTURE_CREATE" "other" ≡ (
      if "CAPTURE_CREATE" == "CAPTURE_CREATE" && "h" == "other"
      then ok (some 7)
      else raise 409 "IDEMPOTENCY_KEY_REUSED")
load-save_receipt_example = load-save_receipt [] first_receipt "CAPTURE_CREATE" "other" no_receipt

abbrev draft : Draft ℕ
draft = record {
  occurred_at = none;
  event_type = "PAGE_READ";
  channel = "API";
  producer_id = "site";
  idempotency_key = "k1";
  client_identity = none;
  workspace_key = none;
  resource_type = none;
  resource_id = none;
  page_resource_id = none;
  page_path = none;
  page_revision = none;
  release_id = none;
  metadata = 3;
}

abbrev log : Log ℕ
log = record { rows = []; next_seq = 5 }

append_event_retry_example :
    let first = append_event "id1" 10 none draft log in
    let second = append_event "id2" 20 none (record draft { metadata = 4 }) first.log in
    (second.event_id ≡ first.event_id)
    × (second.event_seq ≡ first.event_seq)
    × (second.inserted ≡ false)
    × (second.log.rows ≡ first.log.rows)
append_event_retry_example =
    append_event_retry "id1" "id2" 10 20 none none draft (record draft { metadata = 4 }) log refl
      refl

append_event-IsOrdered_example : IsOrdered (append_event "id1" 10 none draft log).log
append_event-IsOrdered_example =
    append_event-IsOrdered "id1" 10 none draft log (record { ascending = tt; below = tt })
