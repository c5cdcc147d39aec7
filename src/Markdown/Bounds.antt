-- ===== src/Markdown/Bounds.antt =====
-- The lines of docs-api/app/markdown_sections.py: nothing of a page is lost between them, and where
-- its sections begin and end.
use Prim.Native.Char.{code}
use docplane.Base.{
  ℕ, suc, ◌+◌, ◌-◌, ◌≤◌, String, ◌≡◌, refl, ap, ◌∙◌, Bool, true, not, ◌&&◌, Option, none, some,
  List, [], ◌∷◌, arith, Option-cases, Bool-cases, inl, inr, leb, eqb, ◌==◌, eq_iff, subst,
}
use docplane.Base.Strip.{is_line_break}
use docplane.Base.Slices.{plus, plus_assoc}
use docplane.Base.Lists.{length, take, skip}
use docplane.Base.Dict.{Dict, lookup, insert}
use docplane.Markdown.Lines.{Fence, chomp}
use docplane.Markdown.Sections.{
  Heading, Section, base_of, count_of, fence_behind, first_section, find_section, split_lines,
  attach, glued, starts_newline, headings_from, heading_line, end_of, section_of, sections_from,
  sections,
}

glued-attach : (c : String) (ls : List String) → glued (attach c ls) ≡ plus c (glued ls)
unfolding glued
glued-attach c [] = refl
glued-attach c (l ∷ ls) = plus_assoc c l (glued ls)

-- Splitting a text into its lines and joining them gives the text.
pub glued-split_lines : (content : String) → glued (split_lines content) ≡ content
unfolding split_lines glued plus
glued-split_lines String.[] = refl
glued-split_lines (String.◌∷◌ c s) =
    elim (Bool-cases (is_line_break (code c) && not (eqb (code c) 13 && starts_newline s))) [
      | inl e ↦ rw e (ap (λ r. String.◌∷◌ c r) (glued-split_lines s))
      | inr e ↦ rw e (
          glued-attach (String.◌∷◌ c "") (split_lines s)
          ∙ ap (λ r. String.◌∷◌ c r) (glued-split_lines s))
    ]

-- The headings stand on lines of the page, each behind the one before.
unfoldable pub are_ascending : ℕ → ℕ → List Heading → Bool
are_ascending at total [] = true
are_ascending at total (h ∷ hs) =
    leb at h.index && leb (suc h.index) total && are_ascending (suc h.index) total hs

are_ascending_mono :
    (at later total : ℕ) (hs : List Heading)
    → at ≤ later
    → are_ascending later total hs ≡ true
    → are_ascending at total hs ≡ true
unfolding are_ascending
are_ascending_mono at later total [] h k = refl
are_ascending_mono at later total (x ∷ hs) h k = ground arith

module _ (lower : String → String) where
  headings_from-are_ascending :
      (index : ℕ) (fence : Option Fence) (slug_counts : Dict ℕ) (lines : List String) (total : ℕ)
      → index + length lines ≤ total
      → are_ascending index total (headings_from lower index fence slug_counts lines) ≡ true
  unfolding headings_from are_ascending
  headings_from-are_ascending index fence slug_counts [] total h = refl
  headings_from-are_ascending index fence slug_counts (raw ∷ lines) total h =
      elim (Option-cases (heading_line fence (chomp raw))) [
        | inl e ↦
            rw (e, headings_from)
              (are_ascending_mono index (suc index) total _ (omega arith)
                (headings_from-are_ascending (suc index) _ _ lines total (omega arith)))
        | inr ((level, title, explicit), e) ↦
            let base = base_of lower explicit title in
            rw (e, headings_from)
              (ground (
                arith,
                headings_from-are_ascending (suc index) (fence_behind fence (chomp raw))
                    (insert base (suc (count_of (lookup base slug_counts))) slug_counts) lines
                    total,
              ))
      ]

end_of-bounds :
    (level total at : ℕ) (hs : List Heading)
    → at ≤ total
    → are_ascending at total hs ≡ true
    → (at ≤ end_of level total hs) × (end_of level total hs ≤ total)
unfolding end_of are_ascending
end_of-bounds level total at [] h k = (h, omega arith)
end_of-bounds level total at (x ∷ hs) h k =
    ground (arith, end_of-bounds level total (suc x.index) hs)

-- A section of a page: its first line is not behind its last, both are lines of the page, and its
-- text is what stands between them.
abbrev pub IsPart : List String → Section → Type 0
IsPart lines s =
    (1 ≤ s.start_line)
    × (s.start_line ≤ s.end_line)
    × (s.end_line ≤ length lines)
    × (s.content ≡ glued (take (s.end_line - (s.start_line - 1)) (skip (s.start_line - 1) lines)))

module _ (sha256 : String → String) where
  section_of-IsPart :
      (lines : List String) (h : Heading) (end : ℕ)
      → suc h.index ≤ end
      → end ≤ length lines
      → IsPart lines (section_of sha256 lines h end)
  unfolding section_of
  section_of-IsPart lines h end l u =
      (omega arith, l, u, ap (λ i. glued (take (end - i) (skip i lines))) (omega arith))

  first_section-IsPart :
      (lines : List String) (name : String) (at : ℕ) (hs : List Heading) (s : Section)
      → are_ascending at (length lines) hs ≡ true
      → first_section name (sections_from sha256 lines hs) ≡ some s
      → (s.heading_id ≡ name) × IsPart lines s
  unfolding first_section sections_from are_ascending
  first_section-IsPart lines name at [] s h k = ground arith
  first_section-IsPart lines name at (x ∷ hs) s h k = elim (Bool-cases (x.heading_id == name)) [
    | inl e ↦
        let same : section_of sha256 lines x (end_of x.level (length lines) hs) ≡ s =
          ground (arith, section_of) in
        let bounds =
          end_of-bounds x.level (length lines) (suc x.index) hs (ground arith) (ground arith) in
        subst (λ (t : Section). (t.heading_id ≡ name) × IsPart lines t) same
          (
            ground (arith, section_of, eq_iff x.heading_id name),
            section_of-IsPart lines x (end_of x.level (length lines) hs) bounds.0 bounds.1,
          )
    | inr e ↦
        first_section-IsPart lines name (suc x.index) hs s (ground arith)
          (ground (arith, section_of))
  ]

module _ (lower sha256 : String → String) where
  -- A section that is found bears the heading id, begins and ends on lines of the page, the end not
  -- in front of the beginning, and its text is what stands on those lines.
  pub find_section-IsPart :
      (content name : String) (s : Section)
      → find_section lower sha256 content name ≡ some s
      → (s.heading_id ≡ name) × IsPart (split_lines content) s
  unfolding find_section sections
  find_section-IsPart content name s h =
      first_section-IsPart sha256 (split_lines content) name 0
        (headings_from lower 0 none [] (split_lines content)) s
        (headings_from-are_ascending lower 0 none [] (split_lines content)
          (length (split_lines content)) (omega arith))
        h
