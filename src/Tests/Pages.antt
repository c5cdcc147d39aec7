-- ===== src/Tests/Pages.antt =====
-- Text patches, sections and redirects on small inputs.
use docplane.Base.{ℕ, suc, String, ◌≡◌, refl, ◌⊎◌, true, false, none, some, List, [], ◌∷◌, ◌==◌}
use docplane.Base.Dict.{Dict, lookup}
use docplane.Base.Strip.{rstrip}
use docplane.Base.Slices.{str_len, plus}
use docplane.Attempt.{Attempt, valid, invalid, Detail, fail}
use docplane.TextPatch.{
  Edit, Span, PatchResult, starts_from, occurrences, ordered, apply_text_patch,
}
use docplane.TextPatch.Search.{IsScan, occurrences-IsScan}
use docplane.TextPatch.Splice.{in_order, substituted}
use docplane.TextPatch.Patched.{Matched, expected_total, apply_text_patch-substituted}
use docplane.Markdown.Sections.{Section, find_section, split_lines}
use docplane.Markdown.Edits.{replace_section}
use docplane.Markdown.Bounds.{IsPart, find_section-IsPart}
use docplane.Markdown.EditLaws.{before, behind, replace_section-parts}
use docplane.Redirects.{follow_redirects, hops, IsCycle, follow_redirects_total}

abbrev content : String
content = "aXbXXc"

found_at : occurrences content "X" ≡ (1 ∷ 3 ∷ 4 ∷ [])
unfolding occurrences
found_at = refl

-- Occurrences do not overlap.
found_apart : occurrences "aaaa" "aa" ≡ (0 ∷ 2 ∷ [])
unfolding occurrences
found_apart = refl

occurrences-IsScan_example :
    (starts_from (suc (str_len content)) content "X" 0 ≡ some (occurrences content "X"))
    × IsScan content "X" 0 (occurrences content "X")
occurrences-IsScan_example = occurrences-IsScan content "X" refl

abbrev edits : List Edit
edits =
    record { old_text = "X"; new_text = "--"; expected_occurrences = 3 }
    ∷ record { old_text = "b"; new_text = ""; expected_occurrences = 1 }
    ∷ []

abbrev patched : Attempt PatchResult
patched = apply_text_patch (λ s. s) content edits

abbrev result_of : Attempt PatchResult → PatchResult
result_of (invalid p) = record {
  content = "";
  edits_applied = 0;
  occurrences_replaced = 0;
  before_sha256 = "";
  after_sha256 = "";
  impacts = [];
}
result_of (valid r) = r

patched_valid : patched ≡ valid (result_of patched)
unfolding apply_text_patch
patched_valid = refl

patched_content : (result_of patched).content ≡ "a------c"
unfolding apply_text_patch
patched_content = refl

apply_text_patch-substituted_example :
    (spans : List Span) × Matched content edits 0 spans
    × (in_order 0 (str_len content) (ordered spans) ≡ true)
    × ((result_of patched).content ≡ substituted 0 content (ordered spans))
    × ((result_of patched).occurrences_replaced ≡ expected_total edits)
    × (((result_of patched).content == content) ≡ false)
apply_text_patch-substituted_example =
    apply_text_patch-substituted (λ s. s) content edits (result_of patched) patched_valid

-- Edits that overlap are refused.
overlap_refused :
    apply_text_patch
      (λ s. s)
      "abc"
      (record { old_text = "ab"; new_text = "x"; expected_occurrences = 1 }
        ∷ record { old_text = "bc"; new_text = "y"; expected_occurrences = 1 }
        ∷ [])
    ≡ fail "PATCH_EDITS_OVERLAP" (Detail.counts (0 ∷ 1 ∷ []))
unfolding apply_text_patch
overlap_refused = refl

abbrev document : String
document = "# Top {#top}\nhello\n## Sub {#sub}\ntext\n```\n# no\n```\n# Next\nend\n"

abbrev sub : Section
sub = record {
  heading_id = "sub";
  title = "Sub";
  level = 2;
  start_line = 3;
  end_line = 7;
  content = "## Sub {#sub}\ntext\n```\n# no\n```\n";
  content_hash = "## Sub {#sub}\ntext\n```\n# no\n```\n";
  explicit_id = true;
}

sub_found : find_section (λ s. s) (λ s. s) document "sub" ≡ some sub
unfolding find_section
sub_found = refl

find_section-IsPart_example : (sub.heading_id ≡ "sub") × IsPart (split_lines document) sub
find_section-IsPart_example = find_section-IsPart (λ s. s) (λ s. s) document "sub" sub sub_found

replace_section-parts_example :
    ((find_section (λ s. s) (λ s. s) document "sub" ≡ none)
      × (replace_section (λ s. s) (λ s. s) document "sub" "## New {#sub}"
          ≡ fail "SECTION_NOT_FOUND" Detail.silent))
    ⊎ ((s : Section) × (find_section (λ s. s) (λ s. s) document "sub" ≡ some s)
        × (document ≡ plus (before document s) (plus s.content (behind document s)))
        × (replace_section (λ s. s) (λ s. s) document "sub" "## New {#sub}"
            ≡ valid (
                plus
                  (before document s)
                  (plus (plus (rstrip "## New {#sub}") "\n") (behind document s)))))
replace_section-parts_example =
    replace_section-parts (λ s. s) (λ s. s) document "sub" "## New {#sub}"

-- A slug that is numbered can be the explicit id of a later heading, and is found in its place.
shadowing :
    find_section (λ s. s) (λ s. s) "# a\n# a\n# b {#a-1}\n" "a-1"
    ≡ some (record {
      heading_id = "a-1";
      title = "a";
      level = 1;
      start_line = 2;
      end_line = 2;
      content = "# a\n";
      content_hash = "# a\n";
      explicit_id = false;
    })
unfolding find_section
shadowing = refl

abbrev circle : Dict String
circle = ("a", "b") ∷ ("b", "c") ∷ ("c", "b") ∷ ("d", "e") ∷ []

circle_ends_nowhere : follow_redirects "a" circle ≡ some none
unfolding follow_redirects
circle_ends_nowhere = refl

circle_end : follow_redirects "d" circle ≡ some (some "e")
unfolding follow_redirects
circle_end = refl

follow_redirects_total_example :
    ((end : String) × (follow_redirects "a" circle ≡ some (some end))
      × (lookup end circle ≡ none)
      × ((n : ℕ) × (hops n circle "a" ≡ some end)))
    ⊎ ((follow_redirects "a" circle ≡ some none) × IsCycle circle "a")
follow_redirects_total_example = follow_redirects_total "a" circle
