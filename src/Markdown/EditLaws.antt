-- ===== src/Markdown/EditLaws.antt =====
-- What an edit of a section leaves of the page.
use docplane.Base.{
  ℕ, zero, suc, ◌+◌, ◌-◌, String, ◌≡◌, refl, sym, ap, ap₂, ◌∙◌, ◌⊎◌, Bool, true, false, none, some,
  List, [], ◌∷◌, arith, if◌then◌else◌, Option-cases, inl, inr,
}
use docplane.Base.Strip.{rstrip}
use docplane.Base.Slices.{plus, plus_assoc}
use docplane.Base.Lists.{take, skip}
use docplane.Attempt.{valid, Detail, fail}
use docplane.Markdown.Sections.{Section, split_lines, glued, find_section}
use docplane.Markdown.Edits.{with_lines, replace_section, insert_at_heading}
use docplane.Markdown.Bounds.{glued-split_lines, find_section-IsPart, IsPart}

-- Lines cut in two make up the whole.
glued-take-skip :
    (n : ℕ) (lines : List String) → glued lines ≡ plus (glued (take n lines)) (glued (skip n lines))
unfolding glued plus
glued-take-skip zero lines = refl
glued-take-skip (suc n) [] = refl
glued-take-skip (suc n) (x ∷ lines) =
    ap (plus x) (glued-take-skip n lines) ∙ sym (plus_assoc x (glued (take n lines)) _)

skip-skip : (n k m : ℕ) (lines : List String) → n + k ≡ m → skip k (skip n lines) ≡ skip m lines
skip-skip zero k m lines h = ap (λ i. skip i lines) (omega arith)
skip-skip (suc n) k zero lines h = ground arith
skip-skip (suc n) zero (suc m) [] h = refl
skip-skip (suc n) (suc k) (suc m) [] h = refl
skip-skip (suc n) k (suc m) (x ∷ lines) h = skip-skip n k m lines (omega arith)

glued_range :
    (n k m : ℕ) (lines : List String)
    → n + k ≡ m
    → glued (take m lines) ≡ plus (glued (take n lines)) (glued (take k (skip n lines)))
unfolding glued plus
glued_range zero k m lines h = ap (λ i. glued (take i lines)) (omega arith)
glued_range (suc n) k zero lines h = ground arith
glued_range (suc n) zero (suc m) [] h = refl
glued_range (suc n) (suc k) (suc m) [] h = refl
glued_range (suc n) k (suc m) (x ∷ lines) h =
    ap (plus x) (glued_range n k m lines (omega arith))
    ∙ sym (plus_assoc x (glued (take n lines)) _)

-- The text of a page in front of a section, and behind it.
abbrev pub before : String → Section → String
before content s = glued (take (s.start_line - 1) (split_lines content))

abbrev pub behind : String → Section → String
behind content s = glued (skip s.end_line (split_lines content))

-- The lines from a section on are its text and what stands behind it …
IsPart-behind :
    (content : String) (s : Section)
    → IsPart (split_lines content) s
    → glued (skip (s.start_line - 1) (split_lines content)) ≡ plus s.content (behind content s)
IsPart-behind content s h =
    glued-take-skip (s.end_line - (s.start_line - 1))
      (skip (s.start_line - 1) (split_lines content))
    ∙ ap₂ plus (sym h.3) (
        ap glued (
          skip-skip (s.start_line - 1) (s.end_line - (s.start_line - 1)) s.end_line
            (split_lines content) (omega arith)))

-- … and those up to its end are what stands in front of it and its text.
IsPart-before :
    (content : String) (s : Section)
    → IsPart (split_lines content) s
    → glued (take s.end_line (split_lines content)) ≡ plus (before content s) s.content
IsPart-before content s h =
    glued_range (s.start_line - 1) (s.end_line - (s.start_line - 1)) s.end_line
      (split_lines content) (omega arith)
    ∙ ap (plus (before content s)) (sym h.3)

IsPart-parts :
    (content : String) (s : Section)
    → IsPart (split_lines content) s
    → content ≡ plus (before content s) (plus s.content (behind content s))
IsPart-parts content s h =
    sym (glued-split_lines content)
    ∙ glued-take-skip (s.start_line - 1) (split_lines content)
    ∙ ap (plus (before content s)) (IsPart-behind content s h)

module _ (lower sha256 : String → String) where
  -- Replacing a section replaces the text whose hash the section carries, and nothing else: the page
  -- is a text in front, the section's and a text behind, and the result has the new text, its end
  -- stripped and a newline behind it, in the section's place. Without the section nothing is done.
  pub replace_section-parts :
      (content name new : String)
      → ((find_section lower sha256 content name ≡ none)
          × (replace_section lower sha256 content name new
              ≡ fail "SECTION_NOT_FOUND" Detail.silent))
        ⊎ ((s : Section) × (find_section lower sha256 content name ≡ some s)
            × (content ≡ plus (before content s) (plus s.content (behind content s)))
            × (replace_section lower sha256 content name new
                ≡ valid
                    (plus (before content s) (plus (plus (rstrip new) "\n") (behind content s)))))
  unfolding replace_section with_lines
  replace_section-parts content name new =
      elim (Option-cases (find_section lower sha256 content name)) [
        | inl e ↦ inl (e, ground arith)
        | inr (s, e) ↦ inr (
          s,
          e,
          IsPart-parts content s (find_section-IsPart lower sha256 content name s e).1,
          rw (e, replace_section, with_lines) refl,
        )
      ]

  -- Inserting at a heading keeps the whole page: the new text, its end stripped and a blank line
  -- behind it, stands in front of the section, or behind it.
  pub insert_at_heading-parts :
      (content name new : String) (after : Bool) (s : Section)
      → find_section lower sha256 content name ≡ some s
      → (content ≡ plus (before content s) (plus s.content (behind content s)))
        × (insert_at_heading lower sha256 content name new after
            ≡ valid (
                if after
                then plus
                    (before content s)
                    (plus s.content (plus (plus (rstrip new) "\n\n") (behind content s)))
                else plus
                    (before content s)
                    (plus (plus (rstrip new) "\n\n") (plus s.content (behind content s)))))
  unfolding insert_at_heading with_lines
  insert_at_heading-parts content name new true s e =
      let part = (find_section-IsPart lower sha256 content name s e).1 in
      (
        IsPart-parts content s part,
        rw (e, insert_at_heading, with_lines)
            (ap valid (
              ap (λ (t : String). plus t (plus (plus (rstrip new) "\n\n") (behind content s)))
                (IsPart-before content s part)
              ∙ plus_assoc (before content s) s.content _)),
      )
  insert_at_heading-parts content name new false s e =
      let part = (find_section-IsPart lower sha256 content name s e).1 in
      (
        IsPart-parts content s part,
        rw (e, insert_at_heading, with_lines)
            (ap valid (
              ap (λ (t : String). plus (before content s) (plus (plus (rstrip new) "\n\n") t))
                (IsPart-behind content s part))),
      )
