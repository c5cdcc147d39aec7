-- ===== src/Ledger/Kept.antt =====
-- What a scan leaves of the discrepancies on the ledger of scripts/work_worker/ledger.py.
use docplane.Base.{
  String, ◌≡◌, refl, sym, ap, ◌∙◌, ◌⊎◌, inl, inr, true, false, not, some, List, [], ◌∷◌, map, ◌==◌,
  eq_iff, arith, Bool-cases,
}
use docplane.Base.Lists.{all, any}
use docplane.Base.Sets.{mem, distinct}
use docplane.Base.Dict.{Dict, lookup, lookup-insert}
use docplane.Attempt.{valid, then_with-eq-valid, fail_if-eq-valid}
use docplane.Ledger.{
  Evidence, Candidate, Row, is_record_id, checked_candidates, identity, known_status, detected,
  mark_rows, row_for, write_rows, reconcile,
}

-- What a scan may make of a row: its decisions stay, and its status stays too, or is open again
-- because the evidence has another fingerprint.
abbrev pub Carries : Row → Row → Type 0
Carries old new =
    (new.decisions ≡ old.decisions)
    × ((new.status ≡ old.status)
        ⊎ ((new.status ≡ "OPEN") × ((old.fingerprint == new.fingerprint) ≡ false)))

mark_rows-lookup :
    (evaluated : List String) (rows marked : Dict Row) (key : String) (row : Row)
    → mark_rows evaluated rows ≡ valid marked
    → lookup key rows ≡ some row
    → lookup key marked ≡ some (detected evaluated row)
unfolding mark_rows lookup
mark_rows-lookup evaluated [] marked key row h k = ground arith
mark_rows-lookup evaluated ((j, first) ∷ rows) marked key row h k =
    let known = fail_if-eq-valid (not (known_status first.status)) _ _ _ h in
    let rest = then_with-eq-valid (mark_rows evaluated rows) _ known.1 in
    ground (arith, rest.2, mark_rows-lookup evaluated rows rest.0 key row rest.1)

module _ (fingerprint : List Evidence → String) where
  write_rows_other :
      (cs : List Candidate) (rows : Dict Row) (key : String)
      → mem key (map identity cs) ≡ false
      → lookup key (write_rows fingerprint cs rows) ≡ lookup key rows
  unfolding write_rows mem
  write_rows_other [] rows key h = refl
  write_rows_other (c ∷ cs) rows key h =
      write_rows_other cs _ key (ground arith)
      ∙ lookup-insert (identity c) key (row_for fingerprint c (lookup (identity c) rows)) rows
      ∙ ground arith

  row_for-Carries : (c : Candidate) (old : Row) → Carries old (row_for fingerprint c (some old))
  unfolding row_for
  row_for-Carries c old = elim (Bool-cases (old.fingerprint == fingerprint c.evidence)) [
    | inl e ↦ (refl, inl (ground arith))
    | inr e ↦ (refl, inr (ground arith, e))
  ]

  write_rows-Carries :
      (cs : List Candidate) (rows : Dict Row) (key : String) (old : Row)
      → distinct (map identity cs) ≡ true
      → lookup key rows ≡ some old
      → (new : Row) × (lookup key (write_rows fingerprint cs rows) ≡ some new) × Carries old new
  unfolding write_rows distinct
  write_rows-Carries [] rows key old d h = (old, h, (refl, inl refl))
  write_rows-Carries (c ∷ cs) rows key old d h = elim (Bool-cases (identity c == key)) [
    | inl e ↦
        let same : identity c ≡ key = ground (arith, eq_iff (identity c) key) in
        let found : lookup (identity c) rows ≡ some old = ap (λ k. lookup k rows) same ∙ h in
        (
          row_for fingerprint c (some old),
          write_rows_other cs _ key (ap (λ k. mem k (map identity cs)) (sym same) ∙ ground arith)
              ∙ lookup-insert (identity c) key (row_for fingerprint c (lookup (identity c) rows))
                  rows
              ∙ ground (arith, e, ap (row_for fingerprint c) found),
          row_for-Carries c old,
        )
    | inr e ↦ write_rows-Carries cs _ key old (ground arith) (
        lookup-insert (identity c) key (row_for fingerprint c (lookup (identity c) rows)) rows
        ∙ ground arith)
  ]

  -- A scan never takes a discrepancy off the ledger, and never resolves or rejects one: a row of
  -- before is still there under its key, detected or not, with all its decisions, and with its status
  -- or, where the evidence has another fingerprint than the row had, open again.
  pub reconcile-Carries :
      (previous rows : Dict Row) (candidates : List Candidate) (evaluated : List String)
      (key : String) (old : Row)
      → reconcile fingerprint previous candidates evaluated ≡ valid rows
      → lookup key previous ≡ some old
      → (new : Row) × (lookup key rows ≡ some new) × Carries old new
  unfolding reconcile
  reconcile-Carries previous rows candidates evaluated key old h k =
      let ids = fail_if-eq-valid (not (all is_record_id evaluated)) _ _ _ h in
      let found = then_with-eq-valid (checked_candidates candidates) _ ids.1 in
      let once = fail_if-eq-valid (not (distinct (map identity found.0))) _ _ _ found.2 in
      let read =
        fail_if-eq-valid (any (λ c. not (mem c.subject_id evaluated)) found.0) _ _ _ once.1 in
      let marked = then_with-eq-valid (mark_rows evaluated previous) _ read.1 in
      let carried =
        write_rows-Carries found.0 marked.0 key (detected evaluated old) (ground (arith, once.0))
          (mark_rows-lookup evaluated previous marked.0 key old marked.1 k) in
      let same : write_rows fingerprint found.0 marked.0 ≡ rows = ground (arith, marked.2) in
      (carried.0, ap (lookup key) (sym same) ∙ carried.1, carried.2)
