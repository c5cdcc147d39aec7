-- ===== src/Markdown/Lines.antt =====
-- The scanning of one line in docs-api/app/markdown_sections.py: its three regular expressions, and
-- `_slug`. `lower` is Python's `str.lower`, whose tables are Unicode's.
use Prim.Native.Char.{code}
use Prim.Native.String.{String, [], ◌∷◌}
use docplane.Base.{
  ℕ, zero, suc, Bool, true, false, not, ◌&&◌, ◌||◌, Option, none, some, ◌==◌, if◌then◌else◌, eqb,
  leb,
}
use docplane.Base.Strip.{strip}
use docplane.Base.Slices.{plus, begins, drop}

-- `[ \t]`
abbrev pub is_blank_code : ℕ → Bool
is_blank_code c = eqb c 32 || eqb c 9

unfoldable pub skip_blanks : String → String
skip_blanks [] = ""
skip_blanks (c ∷ s) = let rest = skip_blanks s in if is_blank_code (code c) then rest else c ∷ s

-- `line.rstrip("\r\n")`
unfoldable pub chomp : String → String
chomp [] = ""
chomp (c ∷ s) =
    let r = chomp s in if (eqb (code c) 10 || eqb (code c) 13) && r == "" then "" else c ∷ r

pub data Fence : Type 0 where
  backticks tildes : Fence

-- `_CODE_FENCE_RE`
unfoldable pub fence_of : String → Option Fence
unfolding skip_blanks begins
fence_of line =
    let body = skip_blanks line in
    if begins "```" body then some backticks else if begins "~~~" body then some tildes else none

-- `[a-zA-Z0-9_-]`
abbrev pub is_id_code : ℕ → Bool
is_id_code c =
    (leb 97 c && leb c 122)
    || (leb 65 c && leb c 90)
    || (leb 48 c && leb c 57)
    || eqb c 95
    || eqb c 45

-- `[a-zA-Z0-9_-]*` and what stands behind it
unfoldable pub id_prefix : String → String × String
id_prefix [] = ("", "")
id_prefix (c ∷ s) =
    let rest = id_prefix s in if is_id_code (code c) then (c ∷ rest.0, rest.1) else ("", c ∷ s)

abbrev pub starts_blank : String → Bool
starts_blank [] = false
starts_blank (c ∷ s) = is_blank_code (code c)

-- `[ \t]+\{#(…)\}[ \t]*$`: the id, if the text is nothing else.
unfoldable pub explicit_tail : String → Option String
unfolding skip_blanks begins drop id_prefix
explicit_tail s =
    let body = skip_blanks s in
    let found = id_prefix (drop 2 body) in
    if starts_blank s
      && begins "{#" body
      && not (found.0 == "")
      && begins "}" found.1
      && skip_blanks (drop 1 found.1) == ""
    then some found.0
    else none

-- `(?P<title>.*?)(?:…)?[ \t]*$`: the shortest title whose rest matches, and the explicit id.
unfoldable pub title_of : String → String × Option String
unfolding explicit_tail skip_blanks
title_of [] = ("", none)
title_of (c ∷ s) =
    let rest = title_of s in
    elim (explicit_tail (c ∷ s)) [
      | some name ↦ ("", some name)
      | none ↦ if skip_blanks (c ∷ s) == "" then ("", none) else (c ∷ rest.0, rest.1)
    ]

-- `#{1,6}`: how many there are, one past six standing for more, and what stands behind them.
unfoldable pub marks_of : ℕ → String → ℕ × String
marks_of zero s = (0, s)
marks_of (suc limit) [] = (0, "")
marks_of (suc limit) (c ∷ s) =
    let rest = marks_of limit s in if eqb (code c) 35 then (suc rest.0, rest.1) else (0, c ∷ s)

-- `_HEADING_RE`: the level, the stripped title and the explicit id.
unfoldable pub heading_of : String → Option (ℕ × String × Option String)
unfolding marks_of skip_blanks title_of strip
heading_of line =
    let marks = marks_of 7 line in
    let found = title_of (skip_blanks marks.1) in
    if leb 1 marks.0 && leb marks.0 6 && starts_blank marks.1
    then some (marks.0, strip found.0, found.1)
    else none

-- `re.sub(r"[…]", "", s)`, where the test holds for the codes that stay
unfoldable pub only : (ℕ → Bool) → String → String
only p [] = ""
only p (c ∷ s) = let rest = only p s in if p (code c) then c ∷ rest else rest

-- `re.sub(r"[…]+", "-", s)`; the flag tells that a run is open.
unfoldable pub squeeze : (ℕ → Bool) → Bool → String → String
unfolding plus
squeeze p inside [] = ""
squeeze p inside (c ∷ s) =
    let further = squeeze p true s in
    let other = squeeze p false s in
    if p (code c) then (if inside then further else plus "-" further) else c ∷ other

-- `s.strip("-")`
unfoldable pub strip_dashes : String → String
strip_dashes s = trim_end (trim_start s)
  where
    trim_start : String → String
    trim_start [] = ""
    trim_start (c ∷ s) = let rest = trim_start s in if eqb (code c) 45 then rest else c ∷ s

    trim_end : String → String
    trim_end [] = ""
    trim_end (c ∷ s) = let r = trim_end s in if eqb (code c) 45 && r == "" then "" else c ∷ r

abbrev pub is_mark_code : ℕ → Bool
is_mark_code c = eqb c 96 || eqb c 42 || eqb c 95 || eqb c 126

-- `[a-z0-9 _-]`
abbrev pub is_slug_code : ℕ → Bool
is_slug_code c =
    (leb 97 c && leb c 122) || (leb 48 c && leb c 57) || eqb c 32 || eqb c 95 || eqb c 45

unfoldable pub slug : (String → String) → String → String
unfolding only squeeze strip_dashes strip
slug lower title =
    let kept = only is_slug_code (only (λ c. not (is_mark_code c)) (strip (lower title))) in
    let dashed = squeeze (λ c. eqb c 32 || eqb c 95) false kept in
    let value = strip_dashes (squeeze (λ c. eqb c 45) false dashed) in
    if value == "" then "section" else value
