-- ===== src/Ledger.antt =====
-- scripts/work_worker/ledger.py: the ledger of reviewed discrepancies. Its candidates are records with
-- the fields that the source asks for; `sha256` is the digest of a candidate's evidence. A
-- `ValueError` is named by its message.
pub mod Kept
use Prim.Native.Char.{code}
use docplane.Base.{
  ℕ, zero, suc, String, Bool, true, false, not, ◌&&◌, ◌||◌, Option, none, some, List, [], ◌∷◌, ◌++◌,
  map, ◌==◌, if◌then◌else◌, is_some, eqb, leb,
}
use docplane.Base.Slices.{begins, drop, plus, str_len}
use docplane.Base.Lists.{all, any, nonempty, length}
use docplane.Base.Sets.{mem, distinct}
use docplane.Base.Sorting.{sort_by}
use docplane.Base.Dict.{Dict, lookup, insert}
use docplane.Attempt.{Attempt, valid, invalid, Detail, silent, fail, fail_if, ◌then_with◌}

pub record Evidence : Type 0 where
  pub record_id : String
  pub version : String

pub record Candidate : Type 0 where
  pub subject_id : String
  pub kind : String
  pub obligation_id : String
  pub evidence : List Evidence

pub record Decision : Type 0 where
  pub status : String
  pub actor_id : String
  pub evidence_ids : List String
  pub fingerprint : String

pub record Row : Type 0 where
  pub candidate : Candidate
  pub fingerprint : String
  pub status : String
  pub detection : String
  pub decisions : List Decision

abbrev pub kinds : List String
kinds =
    "STATE_CONTRADICTS_EVIDENCE" ∷ "UNRECORDED_RESIDUAL" ∷ "UNACKNOWLEDGED_HANDOVER"
    ∷ "ACCOUNTABILITY_UNCLEAR" ∷ "EVIDENCE_EXPIRED" ∷ "SUPERSEDED_NOT_LINKED" ∷ "WRONG_OWNER_DOMAIN"
    ∷ []

-- `[0-9a-f]`
abbrev pub is_hex : ℕ → Bool
is_hex c = (leb 48 c && leb c 57) || (leb 97 c && leb c 102)

-- The text has a dash wherever the pattern has one, and a hex digit elsewhere.
unfoldable pub fits : String → String → Bool
fits String.[] String.[] = true
fits String.[] (String.◌∷◌ c s) = false
fits (String.◌∷◌ p pattern) String.[] = false
fits (String.◌∷◌ p pattern) (String.◌∷◌ c s) =
    (if eqb (code p) 45 then eqb (code c) 45 else is_hex (code c)) && fits pattern s

-- `str(UUID(value)) == value`
unfoldable pub is_record_id : String → Bool
unfolding fits
is_record_id value = fits "xxxxxxxx-xxxx-xxxx-xxxx-xxxxxxxxxxxx" value

unfoldable pub all_hex : String → Bool
all_hex String.[] = true
all_hex (String.◌∷◌ c s) = is_hex (code c) && all_hex s

abbrev pub is_digest : String → Bool
is_digest s = eqb (str_len s) 64 && all_hex s

-- `VERSION.fullmatch(version)`
unfoldable pub is_version : String → Bool
unfolding begins drop str_len all_hex
is_version s =
    (begins "proj-v1:" s && is_digest (drop 8 s)) || (begins "sem-v1:" s && is_digest (drop 7 s))

abbrev pub evidence_key : Evidence → String
evidence_key e = e.record_id

-- The loop over the evidence.
unfoldable pub check_evidence : List Evidence → Attempt (Unit {0})
unfolding is_version is_record_id
check_evidence [] = valid tt
check_evidence (e ∷ es) =
    fail_if (not (is_version e.version)) "evidence version must be a projection or semantic digest"
      silent
      (fail_if (not (is_record_id e.record_id)) "expected canonical record UUID" silent
        (check_evidence es))

-- `candidate`
unfoldable pub checked_candidate : Candidate → Attempt Candidate
unfolding is_record_id mem check_evidence distinct sort_by
checked_candidate c =
    fail_if (not (is_record_id c.subject_id) || not (is_record_id c.obligation_id))
      "expected canonical record UUID" silent
      (fail_if (not (mem c.kind kinds)) "unknown discrepancy kind" silent (
        fail_if (not (nonempty c.evidence)) "versioned evidence required" silent (
          check_evidence c.evidence then_with λ passed.
          fail_if (not (distinct (map evidence_key c.evidence))) "duplicate evidence record" silent
            (valid (record c { evidence = sort_by evidence_key c.evidence })))))

unfoldable pub checked_candidates : List Candidate → Attempt (List Candidate)
unfolding checked_candidate
checked_candidates [] = valid []
checked_candidates (c ∷ cs) = checked_candidate c then_with λ first.
    checked_candidates cs then_with λ rest. valid (first ∷ rest)

unfoldable pub identity : Candidate → String
unfolding plus
identity c = plus c.subject_id (plus ":" (plus c.kind (plus ":" c.obligation_id)))

abbrev pub known_status : String → Bool
known_status s = mem s ("OPEN" ∷ "REJECTED" ∷ "RESOLVED" ∷ [])

-- The row of before, with what this scan says of its subject.
abbrev pub detected : List String → Row → Row
detected evaluated row = record row {
  detection = if mem row.candidate.subject_id evaluated then "NOT_DETECTED" else "NOT_REEVALUATED";
}

unfoldable pub mark_rows : List String → Dict Row → Attempt (Dict Row)
unfolding mem
mark_rows evaluated [] = valid []
mark_rows evaluated ((key, row) ∷ rows) =
    fail_if (not (known_status row.status)) "invalid prior status" silent
      (mark_rows evaluated rows then_with λ rest. valid ((key, detected evaluated row) ∷ rest))

module _ (fingerprint : List Evidence → String) where
  -- The row that a candidate leaves, after the one that its identity had.
  unfoldable pub row_for : Candidate → Option Row → Row
  row_for c none = record {
    candidate = c;
    fingerprint = fingerprint c.evidence;
    status = "OPEN";
    detection = "DETECTED";
    decisions = [];
  }
  row_for c (some old) = record {
    candidate = c;
    fingerprint = fingerprint c.evidence;
    status = if old.fingerprint == fingerprint c.evidence then old.status else "OPEN";
    detection = "DETECTED";
    decisions = old.decisions;
  }

  unfoldable pub write_rows : List Candidate → Dict Row → Dict Row
  unfolding identity row_for lookup insert
  write_rows [] rows = rows
  write_rows (c ∷ cs) rows =
      write_rows cs (insert (identity c) (row_for c (lookup (identity c) rows)) rows)

  unfoldable pub reconcile : Dict Row → List Candidate → List String → Attempt (Dict Row)
  unfolding is_record_id all any checked_candidates distinct identity mem mark_rows write_rows
  reconcile previous candidates evaluated_subjects =
      fail_if (not (all is_record_id evaluated_subjects)) "expected canonical record UUID" silent (
        checked_candidates candidates then_with λ found.
        fail_if (not (distinct (map identity found))) "duplicate discrepancy identity" silent (
          fail_if (any (λ c. not (mem c.subject_id evaluated_subjects)) found)
            "candidate subject was not fully evaluated" silent
            (mark_rows evaluated_subjects previous then_with λ rows.
              valid (write_rows found rows))))

abbrev row_decided : Dict Row → String → Option Row → (Row → Row) → Attempt (Dict Row)
row_decided ledger key none change = fail "KeyError" silent
row_decided ledger key (some row) change = valid (insert key (change row) ledger)

unfoldable pub decide : Dict Row → String → String → String → List String → Attempt (Dict Row)
unfolding is_record_id all lookup insert mem
decide ledger key status actor_id evidence =
    fail_if (not (mem status ("RESOLVED" ∷ "REJECTED" ∷ [])))
      "review decision must resolve or reject" silent
      (fail_if (not (is_record_id actor_id) || not (all is_record_id evidence))
        "expected canonical record UUID" silent
        (fail_if (not (nonempty evidence)) "decision evidence required" silent (
          row_decided ledger key (lookup key ledger) λ row. record row {
            status = status;
            decisions =
                row.decisions
                ++ record {
                  status = status;
                  actor_id = actor_id;
                  evidence_ids = evidence;
                  fingerprint = row.fingerprint;
                }
                  ∷ [];
          })))
