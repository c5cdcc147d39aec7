-- ===== src/Events/Append.antt =====
-- Appending an event is idempotent, and the numbers of the rows grow.
use docplane.Base.{
  ℕ, suc, ◌<◌, String, ◌≡◌, refl, false, Option, none, some, List, [], ◌∷◌, ◌++◌, arith, eq_refl,
  Option-cases, inl, inr,
}
use docplane.Events.{Actor, Draft, Event, Log, find_event, append_event}

module _ {M : Type 0} where
  find-append_found :
      (es : List (Event M)) (e old : Event M) (producer key : String)
      → find_event es producer key ≡ some old
      → find_event (es ++ e ∷ []) producer key ≡ some old
  unfolding find_event
  find-append_found [] e old producer key h = cc
  find-append_found (x ∷ es) e old producer key h =
      ground (arith, find-append_found es e old producer key)

  find-append_self :
      (es : List (Event M)) (e : Event M)
      → find_event es e.draft.producer_id e.draft.idempotency_key ≡ none
      → find_event (es ++ e ∷ []) e.draft.producer_id e.draft.idempotency_key ≡ some e
  unfolding find_event
  find-append_self [] e h =
      ground (arith, eq_refl e.draft.producer_id, eq_refl e.draft.idempotency_key)
  find-append_self (x ∷ es) e h = ground (arith, find-append_self es e)

  -- The numbers of the rows grow along the table and stay below `n`.
  abbrev pub Below : List (Event M) → ℕ → Type 0
  Below [] n = Unit
  Below (e ∷ es) n = (e.event_seq < n) × Below es n

  abbrev pub Above : ℕ → List (Event M) → Type 0
  Above n [] = Unit
  Above n (e ∷ es) = (n < e.event_seq) × Above n es

  abbrev pub Ascending : List (Event M) → Type 0
  Ascending [] = Unit
  Ascending (e ∷ es) = Above e.event_seq es × Ascending es

  pub record IsOrdered (log : Log M) : Type 0 where
    pub ascending : Ascending log.rows
    pub below : Below log.rows log.next_seq

  Below-suc : (es : List (Event M)) (n : ℕ) → Below es n → Below es (suc n)
  Below-suc [] n h = tt
  Below-suc (e ∷ es) n h = (omega arith, Below-suc es n h.1)

  Below-append :
      (es : List (Event M)) (e : Event M) (n : ℕ)
      → Below es n
      → e.event_seq < n
      → Below (es ++ e ∷ []) n
  Below-append [] e n h k = (k, tt)
  Below-append (x ∷ es) e n h k = (h.0, Below-append es e n h.1 k)

  Above-append :
      (es : List (Event M)) (e : Event M) (n : ℕ)
      → Above n es
      → n < e.event_seq
      → Above n (es ++ e ∷ [])
  Above-append [] e n h k = (k, tt)
  Above-append (x ∷ es) e n h k = (h.0, Above-append es e n h.1 k)

  Ascending-append :
      (es : List (Event M)) (e : Event M)
      → Ascending es
      → Below es e.event_seq
      → Ascending (es ++ e ∷ [])
  Ascending-append [] e h k = (tt, tt)
  Ascending-append (x ∷ es) e h k =
      (Above-append es e x.event_seq h.0 k.0, Ascending-append es e h.1 k.1)

  -- Whether the event is new or a repetition, the rows keep growing numbers, all below the number
  -- that the sequence gives next.
  pub append_event-IsOrdered :
      (event_id : String) (now : ℕ) (principal : Option Actor) (draft : Draft M) (log : Log M)
      → IsOrdered log
      → IsOrdered (append_event event_id now principal draft log).log
  unfolding append_event
  append_event-IsOrdered event_id now principal draft log h =
      elim (Option-cases (find_event log.rows draft.producer_id draft.idempotency_key)) [
        | inl new ↦
            rw (new, append_event)
              (record {
                ascending = Ascending-append log.rows _ h.ascending h.below;
                below = Below-append log.rows _ _ (Below-suc log.rows _ h.below) (omega arith);
              })
        | inr (old, found) ↦
            rw (found, append_event)
              (record { ascending = h.ascending; below = Below-suc log.rows _ h.below })
      ]

  -- The table then holds a row under the call's producer and key, with the returned id and number.
  found_after :
      (id : String) (now : ℕ) (p : Option Actor) (draft : Draft M) (log : Log M)
      → let done = append_event id now p draft log in
        (e : Event M) × (find_event done.log.rows draft.producer_id draft.idempotency_key ≡ some e)
        × (e.event_id ≡ done.event_id)
        × (e.event_seq ≡ done.event_seq)
  unfolding append_event
  found_after id now p draft log =
      elim (Option-cases (find_event log.rows draft.producer_id draft.idempotency_key)) [
        | inl new ↦ rw (new, append_event) (_, find-append_self log.rows _ new, refl, refl)
        | inr (old, found) ↦ rw (found, append_event) (old, found, refl, refl)
      ]

  -- A retry under the same producer and key, whatever its id, time and content, gets the first
  -- call's id and number, inserts nothing, and leaves the rows as they are.
  pub append_event_retry :
      (id id' : String) (now now' : ℕ) (p p' : Option Actor) (draft retry : Draft M) (log : Log M)
      → retry.producer_id ≡ draft.producer_id
      → retry.idempotency_key ≡ draft.idempotency_key
      → let first = append_event id now p draft log in
        let second = append_event id' now' p' retry first.log in
        (second.event_id ≡ first.event_id)
        × (second.event_seq ≡ first.event_seq)
        × (second.inserted ≡ false)
        × (second.log.rows ≡ first.log.rows)
  unfolding append_event
  append_event_retry id id' now now' p p' draft retry log hp hk =
      let (e, found, same_id, same_seq) = found_after id now p draft log in
      rw (append_event, hp, hk, found) (same_id, same_seq, refl, refl)
