-- ===== src/TextPatch.antt =====
-- docs-api/app/text_patch.py: exact-text patches with guards on ambiguity and overlap. Positions
-- count code points. `sha256` is the hex digest that hashlib gives for the UTF-8 of a text.
pub mod Search
pub mod Splice
pub mod Patched
use docplane.Base.{
  ℕ, zero, suc, ◌+◌, ◌-◌, String, Bool, true, false, not, ◌&&◌, ◌||◌, Option, none, some, List, [],
  ◌∷◌, ◌++◌, ◌==◌, if◌then◌else◌, ltb, eqb,
}
use docplane.Base.Strip.{cut}
use docplane.Base.Slices.{str_len, drop, plus, find}
use docplane.Base.Lists.{length}
use docplane.Attempt.{Attempt, valid, Detail, about, counts, fail, fail_if, ◌then_with◌}

pub record Edit : Type 0 where
  pub old_text : String
  pub new_text : String
  pub expected_occurrences : ℕ

-- `(start, start + len(old), new, index)`
pub record Span : Type 0 where
  pub start : ℕ
  pub stop : ℕ
  pub replacement : String
  pub index : ℕ

pub record Impact : Type 0 where
  pub edit_index : ℕ
  pub expected_occurrences : ℕ
  pub matched_occurrences : ℕ
  pub old_sha256 : String
  pub new_sha256 : String

pub record PatchResult : Type 0 where
  pub content : String
  pub edits_applied : ℕ
  pub occurrences_replaced : ℕ
  pub before_sha256 : String
  pub after_sha256 : String
  pub impacts : List Impact

abbrev pub from_cursor : ℕ → Option ℕ → Option ℕ
from_cursor cursor none = none
from_cursor cursor (some n) = some (cursor + n)

-- `content.find(old, cursor)`
unfoldable pub find_at : String → String → ℕ → Option ℕ
unfolding find drop
find_at content old cursor = from_cursor cursor (find old (drop cursor content))

abbrev pub with_start : ℕ → Option (List ℕ) → Option (List ℕ)
with_start found none = none
with_start found (some starts) = some (found ∷ starts)

-- The `while True` on fuel: `none` is a loop that has not ended.
unfoldable pub starts_from : ℕ → String → String → ℕ → Option (List ℕ)
unfolding find_at str_len
starts_from zero content old cursor = none
starts_from (suc fuel) content old cursor = elim (find_at content old cursor) [
  | none ↦ some []
  | some found ↦ with_start found (starts_from fuel content old (found + str_len old))
]

abbrev pub or_none_found : Option (List ℕ) → List ℕ
or_none_found none = []
or_none_found (some starts) = starts

-- `starts` after the loop; Search shows that this fuel ends it.
unfoldable pub occurrences : String → String → List ℕ
unfolding starts_from
occurrences content old = or_none_found (starts_from (suc (str_len content)) content old 0)

unfoldable pub spans_of : List ℕ → Edit → ℕ → List Span
unfolding str_len
spans_of [] e index = []
spans_of (at ∷ starts) e index =
    record { start = at; stop = at + str_len e.old_text; replacement = e.new_text; index = index }
    ∷ spans_of starts e index

unfoldable pub collect : String → List Edit → ℕ → Attempt (List Span)
unfolding occurrences spans_of
collect content [] index = valid []
collect content (e ∷ edits) index =
    let starts = occurrences content e.old_text in
    fail_if (e.old_text == "") "PATCH_OLD_TEXT_EMPTY" (counts (index ∷ [])) (
      fail_if (not (eqb (length starts) e.expected_occurrences)) "PATCH_OCCURRENCE_MISMATCH"
        (counts (index ∷ e.expected_occurrences ∷ length starts ∷ []))
        (collect content edits (suc index) then_with λ rest.
          valid (spans_of starts e index ++ rest)))

-- `(a.start, a.stop) <= (b.start, b.stop)`
abbrev pub span_le : Span → Span → Bool
span_le a b = ltb a.start b.start || (eqb a.start b.start && not (ltb b.stop a.stop))

unfoldable pub place : Span → List Span → List Span
place s [] = s ∷ []
place s (t ∷ ts) = if span_le s t then s ∷ t ∷ ts else t ∷ place s ts

-- `sorted(spans, key=…)`
unfoldable pub ordered : List Span → List Span
unfolding place
ordered [] = []
ordered (s ∷ ss) = place s (ordered ss)

-- The loop over the pairs of neighbours: the indices of the first pair that overlaps.
unfoldable pub overlap : List Span → Option (ℕ × ℕ)
overlap [] = none
overlap (s ∷ []) = none
overlap (s ∷ t ∷ ts) =
    let rest = overlap (t ∷ ts) in if ltb t.start s.stop then some (s.index, t.index) else rest

-- The loop over `reversed(ordered)`.
unfoldable pub splice : String → List Span → String
unfolding cut drop plus
splice content [] = content
splice content (s ∷ ss) =
    let result = splice content ss in
    plus (cut s.start result) (plus s.replacement (drop s.stop result))

module _ (sha256 : String → String) where
  unfoldable pub impacts_of : String → List Edit → ℕ → List Impact
  unfolding occurrences
  impacts_of content [] index = []
  impacts_of content (e ∷ edits) index =
      record {
        edit_index = index;
        expected_occurrences = e.expected_occurrences;
        matched_occurrences = length (occurrences content e.old_text);
        old_sha256 = sha256 e.old_text;
        new_sha256 = sha256 e.new_text;
      }
      ∷ impacts_of content edits (suc index)

  unfoldable pub spliced : String → List Edit → List Span → Attempt PatchResult
  unfolding ordered splice impacts_of
  spliced content edits spans =
      let result = splice content (ordered spans) in
      fail_if (result == content) "PATCH_NO_CHANGE" Detail.silent (
        valid (record {
          content = result;
          edits_applied = length edits;
          occurrences_replaced = length spans;
          before_sha256 = sha256 content;
          after_sha256 = sha256 result;
          impacts = impacts_of content edits 0;
        }))

  unfoldable pub unless_overlap :
      String → List Edit → List Span → Option (ℕ × ℕ) → Attempt PatchResult
  unfolding spliced
  unless_overlap content edits spans (some (i, j)) =
      fail "PATCH_EDITS_OVERLAP" (counts (i ∷ j ∷ []))
  unless_overlap content edits spans none = spliced content edits spans

  unfoldable pub apply_text_patch : String → List Edit → Attempt PatchResult
  unfolding collect ordered overlap unless_overlap
  apply_text_patch content edits = collect content edits 0 then_with λ spans.
      unless_overlap content edits spans (overlap (ordered spans))
