-- ===== src/Markdown/Sections.antt =====
-- `sections`, `outline` and `find_section` of docs-api/app/markdown_sections.py.
use Prim.Native.Char.{code}
use docplane.Base.{
  ℕ, zero, suc, ◌-◌, ◌/◌, ◌%◌, String, Bool, true, false, not, ◌&&◌, ◌||◌, Option, none, some, List,
  [], ◌∷◌, ◌==◌, if◌then◌else◌, eqb, leb, ltb, is_some,
}
use docplane.Base.Strip.{is_line_break}
use docplane.Base.Slices.{plus}
use docplane.Base.Lists.{length, take, skip}
use docplane.Base.Dict.{Dict, lookup, insert}
use docplane.Markdown.Lines.{Fence, backticks, tildes, chomp, fence_of, heading_of, slug}

abbrev pub starts_newline : String → Bool
starts_newline String.[] = false
starts_newline (String.◌∷◌ c s) = eqb (code c) 10

abbrev pub attach : String → List String → List String
attach c [] = c ∷ []
attach c (l ∷ ls) = plus c l ∷ ls

-- `content.splitlines(keepends=True)`: a carriage return and the newline behind it are one break.
unfoldable pub split_lines : String → List String
unfolding is_line_break plus
split_lines String.[] = []
split_lines (String.◌∷◌ c s) =
    let rest = split_lines s in
    if is_line_break (code c) && not (eqb (code c) 13 && starts_newline s)
    then String.◌∷◌ c "" ∷ rest
    else attach (String.◌∷◌ c "") rest

-- `"".join(lines)`
unfoldable pub glued : List String → String
unfolding plus
glued [] = ""
glued (l ∷ ls) = plus l (glued ls)

abbrev digit : ℕ → String
digit n =
    if eqb n 0
    then "0"
    else if eqb n 1
    then "1"
    else if eqb n 2
    then "2"
    else if eqb n 3
    then "3"
    else if eqb n 4
    then "4"
    else if eqb n 5
    then "5"
    else if eqb n 6
    then "6"
    else if eqb n 7
    then "7"
    else if eqb n 8
    then "8"
    else "9"

-- `str(n)`, with as much fuel as the number
unfoldable pub decimal_from : ℕ → ℕ → String → String
unfolding plus
decimal_from zero n behind = plus (digit n) behind
decimal_from (suc fuel) n behind =
    let more = decimal_from fuel (n / 10) (plus (digit (n % 10)) behind) in
    if ltb n 10 then plus (digit n) behind else more

abbrev pub decimal : ℕ → String
decimal n = decimal_from n n ""

-- `(index, level, title, heading_id, explicit is not None)`
pub record Heading : Type 0 where
  pub index : ℕ
  pub level : ℕ
  pub title : String
  pub heading_id : String
  pub explicit : Bool

pub record Section : Type 0 where
  pub heading_id : String
  pub title : String
  pub level : ℕ
  pub start_line : ℕ
  pub end_line : ℕ
  pub content : String
  pub content_hash : String
  pub explicit_id : Bool

abbrev pub same_fence : Fence → Fence → Bool
same_fence backticks backticks = true
same_fence tildes tildes = true
same_fence _ _ = false

-- `in_fence` and `fence_marker` behind a line that is a fence.
abbrev pub after_fence : Option Fence → Fence → Option Fence
after_fence none marker = some marker
after_fence (some inside) marker = if same_fence inside marker then none else some inside

abbrev pub count_of : Option ℕ → ℕ
count_of none = 0
count_of (some n) = n

abbrev pub base_of : (String → String) → Option String → String → String
base_of lower none title = slug lower title
base_of lower (some name) title = name

abbrev pub numbered : String → ℕ → String
numbered base n = if eqb n 0 then base else plus base (plus "-" (decimal n))

-- The fence that is open behind a line.
unfoldable pub fence_behind : Option Fence → String → Option Fence
unfolding fence_of
fence_behind fence line = elim (fence_of line) [
  | none ↦ fence
  | some marker ↦ after_fence fence marker
]

-- The heading of a line that is no fence and stands in none.
unfoldable pub heading_line : Option Fence → String → Option (ℕ × String × Option String)
unfolding fence_of heading_of
heading_line fence line = if is_some (fence_of line) || is_some fence then none else heading_of line

module _ (lower : String → String) where
  -- The loop over the lines.
  unfoldable pub headings_from : ℕ → Option Fence → Dict ℕ → List String → List Heading
  unfolding fence_behind heading_line chomp slug lookup insert plus decimal_from
  headings_from index fence slug_counts [] = []
  headings_from index fence slug_counts (raw ∷ lines) = elim (heading_line fence (chomp raw)) [
    | none ↦ headings_from (suc index) (fence_behind fence (chomp raw)) slug_counts lines
    | some (level, title, explicit) ↦
        let base = base_of lower explicit title in
        let count = count_of (lookup base slug_counts) in
        record {
          index = index;
          level = level;
          title = title;
          heading_id = numbered base count;
          explicit = is_some explicit;
        }
        ∷ headings_from (suc index) (fence_behind fence (chomp raw))
            (insert base (suc count) slug_counts) lines
  ]

-- The loop over the headings behind one: where its section ends.
unfoldable pub end_of : ℕ → ℕ → List Heading → ℕ
end_of level total [] = total
end_of level total (h ∷ hs) =
    let further = end_of level total hs in if leb h.level level then h.index else further

module _ (sha256 : String → String) where
  unfoldable pub section_of : List String → Heading → ℕ → Section
  unfolding glued
  section_of lines h end =
      let content = glued (take (end - h.index) (skip h.index lines)) in
      record {
        heading_id = h.heading_id;
        title = h.title;
        level = h.level;
        start_line = suc h.index;
        end_line = end;
        content = content;
        content_hash = sha256 content;
        explicit_id = h.explicit;
      }

  unfoldable pub sections_from : List String → List Heading → List Section
  unfolding section_of end_of
  sections_from lines [] = []
  sections_from lines (h ∷ hs) =
      section_of lines h (end_of h.level (length lines) hs) ∷ sections_from lines hs

-- `next((item for item in … if item.heading_id == heading_id), None)`
unfoldable pub first_section : String → List Section → Option Section
first_section name [] = none
first_section name (s ∷ ss) = if s.heading_id == name then some s else first_section name ss

module _ (lower sha256 : String → String) where
  unfoldable pub sections : String → List Section
  unfolding split_lines headings_from sections_from
  sections content =
      let lines = split_lines content in
      sections_from sha256 lines (headings_from lower 0 none [] lines)

  unfoldable pub find_section : String → String → Option Section
  unfolding sections first_section
  find_section content heading_id = first_section heading_id (sections content)
