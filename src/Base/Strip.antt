-- ===== src/Base/Strip.antt =====
-- `str.strip` over Python's white space, and the cut `s[:n]` of a text by code points.
use Prim.Native.Nat.{ℕ, zero, suc}
use Prim.Native.Char.{code}
use Prim.Native.String.{String, [], ◌∷◌}
use mathlib.Core.Bool.{Bool, ◌&&◌, ◌||◌}
use text.Mathlib.Text.{◌==◌}
use docplane.Base.Tests.{if◌then◌else◌, eqb, leb}

-- The code points for which `str.isspace` holds.
unfoldable pub is_space : ℕ → Bool
is_space c =
    (leb 9 c && leb c 13)
    || (leb 28 c && leb c 32)
    || eqb c 0x85
    || eqb c 0xa0
    || eqb c 0x1680
    || (leb 0x2000 c && leb c 0x200a)
    || eqb c 0x2028
    || eqb c 0x2029
    || eqb c 0x202f
    || eqb c 0x205f
    || eqb c 0x3000

unfoldable pub lstrip : String → String
unfolding is_space
lstrip [] = ""
lstrip (c ∷ s) = if is_space (code c) then lstrip s else c ∷ s

unfoldable pub rstrip : String → String
unfolding is_space
rstrip [] = ""
rstrip (c ∷ s) = let r = rstrip s in if is_space (code c) && r == "" then "" else c ∷ r

unfoldable pub strip : String → String
unfolding lstrip rstrip
strip s = rstrip (lstrip s)

-- `s[:n]`
unfoldable pub cut : ℕ → String → String
cut zero s = ""
cut (suc n) [] = ""
cut (suc n) (c ∷ s) = c ∷ cut n s

-- The code points that `str.splitlines` breaks at.
unfoldable pub is_line_break : ℕ → Bool
is_line_break c =
    (leb 10 c && leb c 13) || (leb 28 c && leb c 30) || eqb c 0x85 || eqb c 0x2028 || eqb c 0x2029

-- `s.splitlines()[0]`, for a text that is not empty
unfoldable pub first_line : String → String
unfolding is_line_break
first_line [] = ""
first_line (c ∷ s) = let rest = first_line s in if is_line_break (code c) then "" else c ∷ rest
