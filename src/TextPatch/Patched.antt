-- ===== src/TextPatch/Patched.antt =====
-- What a patch that text_patch.py accepts has done.
use docplane.Base.{
  ℕ, suc, ◌+◌, String, ◌≡◌, refl, ap, ap₂, ◌∙◌, Bool, true, false, not, ◌&&◌, Option, none, some,
  List, [], ◌∷◌, ◌++◌, arith, eqb, ◌==◌,
}
use docplane.Base.Slices.{str_len}
use docplane.Base.Lists.{all, length, length-append}
use docplane.Attempt.{valid, then_with-eq-valid, fail_if-eq-valid}
use docplane.TextPatch.{
  Edit, Span, PatchResult, occurrences, spans_of, collect, ordered, splice, spliced, unless_overlap,
  apply_text_patch,
}
use docplane.TextPatch.Search.{IsScan, occurrences-IsScan}
use docplane.TextPatch.Splice.{substituted, splice-substituted, ordered-in_order, in_order, within}

all-append : (p : Span → Bool) (xs ys : List Span) → all p (xs ++ ys) ≡ (all p xs && all p ys)
unfolding all
all-append p [] ys = refl
all-append p (x ∷ xs) ys = ground (arith, all-append p xs ys)

spans_of-within :
    (content : String) (at : ℕ) (starts : List ℕ) (e : Edit) (index : ℕ)
    → IsScan content e.old_text at starts
    → all (within (str_len content)) (spans_of starts e index) ≡ true
unfolding all spans_of
spans_of-within content at [] e index h = refl
spans_of-within content at (s ∷ starts) e index h =
    ground (arith, spans_of-within content (s + str_len e.old_text) starts e index h.4, h.1)

length-spans_of :
    (starts : List ℕ) (e : Edit) (index : ℕ) → length (spans_of starts e index) ≡ length starts
unfolding spans_of
length-spans_of [] e index = refl
length-spans_of (s ∷ starts) e index = ap suc (length-spans_of starts e index)

unfoldable pub expected_total : List Edit → ℕ
expected_total [] = 0
expected_total (e ∷ edits) = e.expected_occurrences + expected_total edits

-- Every edit's old text is not empty, stands in the content as often as the edit says, and the spans
-- are those of its places.
unfoldable pub Matched : String → List Edit → ℕ → List Span → Type 0
unfolding spans_of occurrences
Matched content [] index spans = spans ≡ []
Matched content (e ∷ edits) index spans =
    ((e.old_text == "") ≡ false)
    × IsScan content e.old_text 0 (occurrences content e.old_text)
    × (length (occurrences content e.old_text) ≡ e.expected_occurrences)
    × ((rest : List Span) × (spans ≡ spans_of (occurrences content e.old_text) e index ++ rest)
        × Matched content edits (suc index) rest)

pub collect-Matched :
    (content : String) (edits : List Edit) (index : ℕ) (spans : List Span)
    → collect content edits index ≡ valid spans
    → Matched content edits index spans
unfolding collect Matched
collect-Matched content [] index spans h = ground arith
collect-Matched content (e ∷ edits) index spans h =
    let found = fail_if-eq-valid (e.old_text == "") _ _ _ h in
    let counted =
      fail_if-eq-valid (not (eqb (length (occurrences content e.old_text)) e.expected_occurrences))
        _ _ _ found.1 in
    let later = then_with-eq-valid (collect content edits (suc index)) _ counted.1 in
    (
      found.0,
      (occurrences-IsScan content e.old_text found.0).1,
      ground (arith, counted.0),
      (later.0, ground (arith, later.2), collect-Matched content edits (suc index) later.0 later.1),
    )

Matched-within :
    (content : String) (edits : List Edit) (index : ℕ) (spans : List Span)
    → Matched content edits index spans
    → all (within (str_len content)) spans ≡ true
unfolding Matched all
Matched-within content [] index spans h = rw h refl
Matched-within content (e ∷ edits) index spans h = rw h.3.1 (
    all-append (within (str_len content)) (spans_of (occurrences content e.old_text) e index) h.3.0
    ∙ ap₂ (λ (a b : Bool). a && b)
        (spans_of-within content 0 (occurrences content e.old_text) e index h.1)
        (Matched-within content edits (suc index) h.3.0 h.3.2))

Matched-length :
    (content : String) (edits : List Edit) (index : ℕ) (spans : List Span)
    → Matched content edits index spans
    → length spans ≡ expected_total edits
unfolding Matched expected_total
Matched-length content [] index spans h = rw h refl
Matched-length content (e ∷ edits) index spans h = rw h.3.1 (
    length-append (spans_of (occurrences content e.old_text) e index) h.3.0
    ∙ ap₂ (λ (a b : ℕ). a + b) (length-spans_of (occurrences content e.old_text) e index ∙ h.2)
        (Matched-length content edits (suc index) h.3.0 h.3.2))

module _ (sha256 : String → String) where
  unless_overlap-valid :
      (content : String) (edits : List Edit) (spans : List Span) (o : Option (ℕ × ℕ))
      (r : PatchResult)
      → unless_overlap sha256 content edits spans o ≡ valid r
      → (o ≡ none)
        × (r.content ≡ splice content (ordered spans))
        × (r.occurrences_replaced ≡ length spans)
        × ((splice content (ordered spans) == content) ≡ false)
  unfolding unless_overlap spliced
  unless_overlap-valid content edits spans (some (i, j)) r h = ground arith
  unless_overlap-valid content edits spans none r h =
      let changed = fail_if-eq-valid (splice content (ordered spans) == content) _ _ _ h in
      (refl, ground (arith, changed.1), ground (arith, changed.1), changed.0)

  -- An accepted patch has replaced, in one pass from the front, exactly the places of the old texts:
  -- each edit's old text stands as often as the edit says, the places do not overlap, the count that
  -- the result gives is the sum of the expected ones, and the text has changed.
  pub apply_text_patch-substituted :
      (content : String) (edits : List Edit) (r : PatchResult)
      → apply_text_patch sha256 content edits ≡ valid r
      → (spans : List Span) × Matched content edits 0 spans
        × (in_order 0 (str_len content) (ordered spans) ≡ true)
        × (r.content ≡ substituted 0 content (ordered spans))
        × (r.occurrences_replaced ≡ expected_total edits)
        × ((r.content == content) ≡ false)
  unfolding apply_text_patch
  apply_text_patch-substituted content edits r h =
      let collected = then_with-eq-valid (collect content edits 0) _ h in
      let matched = collect-Matched content edits 0 collected.0 collected.1 in
      let done = unless_overlap-valid content edits collected.0 _ r collected.2 in
      let placed =
        ordered-in_order (str_len content) collected.0 done.0
          (Matched-within content edits 0 collected.0 matched) in
      (
        collected.0,
        matched,
        placed,
        done.1 ∙ splice-substituted content (ordered collected.0) placed,
        done.2 ∙ Matched-length content edits 0 collected.0 matched,
        ground (arith, done.1, done.3),
      )
