-- ===== src/Base/Text.antt =====
-- Texts: equality, and the order by code points in which Python sorts `str`.
use Prim.Native.Char.{Char, code}
use Prim.Native.String
use Prim.Native.String.{String, [], ◌∷◌}
use mathlib.Core.Path.{◌≡◌, refl, ap₂}
use mathlib.Core.Bool.{Bool, true, false}
use mathlib.Core.List.{List}
use native.Mathlib.Omega.{arith}
use text.Mathlib.Text.{◌==◌}
use text.Mathlib.TextEquality.{eq_iff, Char-path}
use docplane.Base.Tests.{eqb, ltb, if◌then◌else◌}

unfoldable pub str_le : String → String → Bool
str_le [] t = true
str_le (c ∷ s) [] = false
str_le (c ∷ s) (d ∷ t) = if eqb (code c) (code d) then str_le s t else ltb (code c) (code d)

pub str_le_refl : (s : String) → str_le s s ≡ true
unfolding str_le
str_le_refl [] = refl
str_le_refl (c ∷ s) = ground (arith, str_le_refl s)

pub str_le_total : (s t : String) → str_le s t ≡ false → str_le t s ≡ true
unfolding str_le
str_le_total [] t h = ground arith
str_le_total (c ∷ s) [] h = refl
str_le_total (c ∷ s) (d ∷ t) h = ground (arith, str_le_total s t)

pub str_le_trans : (s t u : String) → str_le s t ≡ true → str_le t u ≡ true → str_le s u ≡ true
unfolding str_le
str_le_trans [] t u h k = refl
str_le_trans (c ∷ s) [] u h k = ground arith
str_le_trans (c ∷ s) (d ∷ t) [] h k = ground arith
str_le_trans (c ∷ s) (d ∷ t) (e ∷ u) h k = ground (arith, str_le_trans s t u)

cons_path : (c d : Char) (s t : String) → code c ≡ code d → s ≡ t → ◌≡◌ {A = String} (c ∷ s) (d ∷ t)
cons_path c d s t p q = ap₂ (λ (x : Char) (y : String). x ∷ y) (Char-path c d p) q

pub str_le_antisymm : (s t : String) → str_le s t ≡ true → str_le t s ≡ true → s ≡ t
unfolding str_le
str_le_antisymm [] [] h k = refl
str_le_antisymm [] (d ∷ t) h k = ground arith
str_le_antisymm (c ∷ s) [] h k = ground arith
str_le_antisymm (c ∷ s) (d ∷ t) h k =
    cons_path c d s t (ground arith) (str_le_antisymm s t (ground arith) (ground arith))

pub eq_sym : (s t : String) → (s == t) ≡ (t == s)
eq_sym s t = ground (arith, eq_iff s t, eq_iff t s)

-- The parts of an f-string, put together.
abbrev pub joined : List String → String
joined List.[] = ""
joined (List.◌∷◌ s ss) = String.◌++◌ s (joined ss)
