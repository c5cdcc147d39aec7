-- ===== src/Markdown/Edits.antt =====
-- `_replace_section` and `_insert_at_heading` of docs-api/app/publication.py.
use docplane.Base.{ℕ, ◌-◌, String, Bool, none, some, if◌then◌else◌}
use docplane.Base.Strip.{rstrip}
use docplane.Base.Slices.{plus}
use docplane.Base.Lists.{take, skip}
use docplane.Attempt.{Attempt, valid, Detail, fail}
use docplane.Markdown.Sections.{split_lines, glued, find_section}

-- The text between the first lines and those from a later line on.
unfoldable pub with_lines : String → ℕ → ℕ → String → String
unfolding split_lines glued plus
with_lines content before behind new =
    let lines = split_lines content in
    plus (glued (take before lines)) (plus new (glued (skip behind lines)))

module _ (lower sha256 : String → String) where
  unfoldable pub replace_section : String → String → String → Attempt String
  unfolding find_section with_lines rstrip
  replace_section content heading_id replacement =
      elim (find_section lower sha256 content heading_id) [
        | none ↦ fail "SECTION_NOT_FOUND" Detail.silent
        | some section ↦ valid (
            with_lines content (section.start_line - 1) section.end_line
              (plus (rstrip replacement) "\n"))
      ]

  unfoldable pub insert_at_heading : String → String → String → Bool → Attempt String
  unfolding find_section with_lines rstrip
  insert_at_heading content heading_id inserted after =
      elim (find_section lower sha256 content heading_id) [
        | none ↦ fail "SECTION_NOT_FOUND" Detail.silent
        | some section ↦
            let index = if after then section.end_line else section.start_line - 1 in
            valid (with_lines content index index (plus (rstrip inserted) "\n\n"))
      ]
