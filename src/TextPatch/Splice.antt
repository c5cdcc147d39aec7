-- ===== src/TextPatch/Splice.antt =====
-- Splicing from the back, as docs-api/app/text_patch.py does, against substitution from the front.
use docplane.Base.{
  ℕ, ◌-◌, ◌≤◌, String, ◌≡◌, refl, sym, ap, ap₂, ◌∙◌, Bool, true, ◌&&◌, none, List, [], ◌∷◌, arith,
  leb,
}
use docplane.Base.Strip.{cut}
use docplane.Base.Slices.{
  str_len, drop, plus, plus-cut-drop, plus_assoc, cut-plus, drop-plus, drop-drop, plus-cut-cut,
}
use docplane.Base.Lists.{all}
use docplane.TextPatch.{Span, place, ordered, overlap, splice}

-- One pass from the front: `at` is the place in the content where the rest begins.
unfoldable pub substituted : ℕ → String → List Span → String
unfolding cut drop plus
substituted at rest [] = rest
substituted at rest (s ∷ ss) =
    plus (cut (s.start - at) rest)
      (plus s.replacement (substituted s.stop (drop (s.stop - at) rest) ss))

-- The spans stand in order, without overlap, between a place and the end.
unfoldable pub in_order : ℕ → ℕ → List Span → Bool
in_order at end [] = leb at end
in_order at end (s ∷ ss) = leb at s.start && leb s.start s.stop && in_order s.stop end ss

in_order-le : (at end : ℕ) (ss : List Span) → in_order at end ss ≡ true → at ≤ end
unfolding in_order
in_order-le at end [] h = ground arith
in_order-le at end (s ∷ ss) h = ground (arith, in_order-le s.stop end ss)

-- One turn of the loop, on a text whose part behind the span is done.
splice_step :
    (content new tail result : String) (at start stop : ℕ)
    → at ≤ start
    → start ≤ stop
    → stop ≤ str_len content
    → result ≡ plus (cut stop content) tail
    → plus (cut start result) (plus new (drop stop result))
      ≡ plus (cut at content) (plus (cut (start - at) (drop at content)) (plus new tail))
splice_step content new tail result at start stop h k l e =
    ap (λ (r : String). plus (cut start r) (plus new (drop stop r))) e
    ∙ ap₂ (λ (a b : String). plus a (plus new b)) (cut-plus start stop content tail k l)
        (drop-plus stop content tail l)
    ∙ ap (λ (a : String). plus a (plus new tail))
        (sym (plus-cut-cut at (start - at) start content (omega arith)))
    ∙ plus_assoc (cut at content) (cut (start - at) (drop at content)) (plus new tail)

splice_behind :
    (content : String) (at : ℕ) (ss : List Span)
    → in_order at (str_len content) ss ≡ true
    → splice content ss ≡ plus (cut at content) (substituted at (drop at content) ss)
unfolding splice substituted in_order
splice_behind content at [] h = sym (plus-cut-drop at content)
splice_behind content at (s ∷ ss) h =
    splice_step content s.replacement (substituted s.stop (drop s.stop content) ss)
      (splice content ss) at s.start s.stop (ground arith) (ground arith)
      (in_order-le s.stop (str_len content) ss (ground arith))
      (splice_behind content s.stop ss (ground arith))
    ∙ ap
        (λ (r : String). plus (cut at content) (
          plus (cut (s.start - at) (drop at content))
            (plus s.replacement (substituted s.stop r ss))))
        (sym (drop-drop at (s.stop - at) s.stop content (ground arith)))

-- Working from the back changes nothing: the result is that of one pass from the front.
pub splice-substituted :
    (content : String) (ss : List Span)
    → in_order 0 (str_len content) ss ≡ true
    → splice content ss ≡ substituted 0 content ss
unfolding plus cut drop
splice-substituted content ss h = splice_behind content 0 ss h

-- A span that lies in the text.
abbrev pub within : ℕ → Span → Bool
within end s = leb s.start s.stop && leb s.stop end

all-place : (p : Span → Bool) (s : Span) (ss : List Span) → all p (place s ss) ≡ (p s && all p ss)
unfolding all place
all-place p s [] = refl
all-place p s (t ∷ ts) = ground (arith, all-place p s ts)

all-ordered : (p : Span → Bool) (ss : List Span) → all p (ordered ss) ≡ all p ss
unfolding all ordered
all-ordered p [] = refl
all-ordered p (s ∷ ss) = ground (arith, all-place p s (ordered ss), all-ordered p ss)

-- Spans of which no neighbours overlap stand in order.
overlap-in_order :
    (at end : ℕ) (s : Span) (ss : List Span)
    → at ≤ s.start
    → overlap (s ∷ ss) ≡ none
    → all (within end) (s ∷ ss) ≡ true
    → in_order at end (s ∷ ss) ≡ true
unfolding overlap in_order all
overlap-in_order at end s [] h k l = ground arith
overlap-in_order at end s (t ∷ ts) h k l = ground (arith, overlap-in_order s.stop end t ts)

in_order_start :
    (end : ℕ) (ss : List Span)
    → overlap ss ≡ none
    → all (within end) ss ≡ true
    → in_order 0 end ss ≡ true
unfolding in_order
in_order_start end [] h k = ground arith
in_order_start end (s ∷ ss) h k = overlap-in_order 0 end s ss (omega arith) h k

pub ordered-in_order :
    (end : ℕ) (ss : List Span)
    → overlap (ordered ss) ≡ none
    → all (within end) ss ≡ true
    → in_order 0 end (ordered ss) ≡ true
ordered-in_order end ss h k = in_order_start end (ordered ss) h (all-ordered (within end) ss ∙ k)
