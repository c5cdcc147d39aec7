-- ===== src/Events.antt =====
-- docs-api/app/event_store.py and the ingestion of event_api.py: the append-only event table.
-- `event_seq` is a `bigserial`: an insert that meets a conflict has taken a number too.
pub mod Append
use docplane.Base.{
  ℕ, suc, ◌+◌, String, ◌≡◌, refl, Bool, true, false, ◌&&◌, ◌||◌, Option, none, some, List, [], ◌∷◌,
  ◌++◌, arith, ◌==◌, if◌then◌else◌, ltb,
}
use docplane.Base.Lists.{keep, take, length}

-- The part of `Principal` (agent_auth.py) that an event records.
pub record Actor : Type 0 where
  pub principal_id : String
  pub principal_kind : String

unfoldable pub actor_class : Option Actor → String
actor_class none = "ANONYMOUS"
actor_class (some p) =
    if p.principal_kind == "HUMAN"
      || p.principal_kind == "AGENT"
      || p.principal_kind == "AUTOMATION"
    then p.principal_kind
    else "AUTOMATION"

module _ (M : Type 0) where
  -- The arguments of `append_event`. `M` is the metadata, a JSON object that the store keeps as it is.
  pub record Draft : Type 0 where
    pub occurred_at : Option ℕ
    pub event_type : String
    pub channel : String
    pub producer_id : String
    pub idempotency_key : String
    pub client_identity : Option String
    pub workspace_key : Option String
    pub resource_type : Option String
    pub resource_id : Option String
    pub page_resource_id : Option String
    pub page_path : Option String
    pub page_revision : Option String
    pub release_id : Option String
    pub metadata : M

  pub record Event : Type 0 where
    pub event_id : String
    pub event_seq : ℕ
    pub at : ℕ
    pub principal_id : Option String
    pub class : String
    pub draft : Draft

  -- The table, and the next number of its sequence.
  pub record Log : Type 0 where
    pub rows : List Event
    pub next_seq : ℕ

  -- What `append_event` returns: the id, the number, and whether a row was inserted.
  pub record Appended : Type 0 where
    pub event_id : String
    pub event_seq : ℕ
    pub inserted : Bool
    pub log : Log

abbrev pub actor_id : Option Actor → Option String
actor_id none = none
actor_id (some p) = some p.principal_id

-- `occurred_at or datetime.now(timezone.utc)`
abbrev pub occurred : Option ℕ → ℕ → ℕ
occurred none now = now
occurred (some t) now = t

module _ {M : Type 0} where
  unfoldable pub find_event : List (Event M) → String → String → Option (Event M)
  find_event [] producer key = none
  find_event (e ∷ es) producer key =
      if e.draft.producer_id == producer && e.draft.idempotency_key == key
      then some e
      else find_event es producer key

  -- `event_id` is the `uuid4()` of the call, `now` the clock; the last argument is the row that the
  -- insert conflicts with.
  unfoldable pub insert_event :
      String → ℕ → Option Actor → Draft M → Log M → Option (Event M) → Appended M
  unfolding actor_class
  insert_event event_id now principal draft log none = record {
    event_id = event_id;
    event_seq = log.next_seq;
    inserted = true;
    log = record {
      rows =
          log.rows
          ++ record {
            event_id = event_id;
            event_seq = log.next_seq;
            at = occurred draft.occurred_at now;
            principal_id = actor_id principal;
            class = actor_class principal;
            draft = draft;
          }
            ∷ [];
      next_seq = suc log.next_seq;
    };
  }
  insert_event event_id now principal draft log (some old) = record {
    event_id = old.event_id;
    event_seq = old.event_seq;
    inserted = false;
    log = record { rows = log.rows; next_seq = suc log.next_seq };
  }

  unfoldable pub append_event : String → ℕ → Option Actor → Draft M → Log M → Appended M
  unfolding find_event insert_event
  append_event event_id now principal draft log =
      insert_event event_id now principal draft log
        (find_event log.rows draft.producer_id draft.idempotency_key)
