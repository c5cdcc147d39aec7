-- ===== src/Json.antt =====
-- JSON values as Python's `json` reads them, numbers being the integers from 0 that the program
-- writes. An object keeps its fields in order; `get` is `dict.get`.
use docplane.Base.{
  ℕ, String, Bool, Option, none, some, List, [], ◌∷◌, ◌==◌, if◌then◌else◌, ◌≡◌, refl,
}

mutual
  pub data Json : Type 0 where
    null : Json
    bool : Bool → Json
    num : ℕ → Json
    str : String → Json
    arr : Items → Json
    obj : Fields → Json

  pub data Items : Type 0 where
    nil : Items
    cons : Json → Items → Items

  pub data Fields : Type 0 where
    end : Fields
    field : String → Json → Fields → Fields

unfoldable pub get : String → Fields → Option Json
get k end = none
get k (field j v fs) = if j == k then some v else get k fs

-- A list of texts as JSON, and back: `none` if an item is no text.
unfoldable pub texts : List String → Items
texts [] = nil
texts (s ∷ ss) = cons (str s) (texts ss)

unfoldable pub cons_text : Json → Option (List String) → Option (List String)
cons_text (str s) (some ss) = some (s ∷ ss)
cons_text (str s) none = none
cons_text _ ss = none

unfoldable pub as_texts : Items → Option (List String)
unfolding cons_text
as_texts nil = some []
as_texts (cons v vs) = cons_text v (as_texts vs)

pub as_texts-texts : (ss : List String) → as_texts (texts ss) ≡ some ss
unfolding as_texts texts
as_texts-texts [] = refl
as_texts-texts (s ∷ ss) = rw (as_texts-texts ss)
