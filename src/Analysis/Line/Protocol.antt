-- ===== src/Analysis/Line/Protocol.antt =====
-- The protocol, whose run of non-spaces ends in a quote.
use mathlib.Core.List.{append_assoc}
use parser_go.Prelude.{
  all-append, ℕ, Text, true, ◌≡◌, ◌≢◌, refl, ap, subst, [], ◌∷◌, ◌++◌, all, Option, some, arith,
}
use parser_go.Analysis.Line.{is_space, not_space, many1, unquote, closing}
use parser_go.Analysis.Line.Pattern.{Run, Stops, Closing}
use parser_go.Analysis.Line.Runs.{
  many1-inv, many1-append, bind-some, Run-Stops, space-stops_not_space,
}
use parser_go.Analysis.Line.Pieces.{SamePair, pair-inv}

pub unquote_two : (c d : ℕ) (w : Text) → unquote (c ∷ d ∷ []) ≡ some w → (d ≡ b'"') × (c ∷ [] ≡ w)
unfolding unquote
unquote_two c d w h = (ground arith, ground arith)

pub unquote_more :
    (c : ℕ) (r x w : Text)
    → r ≡ x ++ (b'"' ∷ [])
    → ◌≡◌ {A = Option Text} (some (c ∷ x)) (some w)
    → (◌≡◌ {A = Text} (c ∷ r) (w ++ (b'"' ∷ []))) × (w ≢ [])
unquote_more c r x w e g =
    let same : c ∷ x ≡ w = ground arith in (rw (← same) (ap (λ t. c ∷ t) e), λ n. cc)

pub unquote-inv : (r w : Text) → unquote r ≡ some w → (r ≡ w ++ (b'"' ∷ [])) × (w ≢ [])
unfolding unquote
unquote-inv [] w h = cc
unquote-inv (c ∷ []) w h = cc
unquote-inv (c ∷ d ∷ []) w h = let (q, e) = unquote_two c d w h in (rw (q, ← e), λ n. cc)
unquote-inv (c ∷ d ∷ e ∷ r) w h =
    let (x, f, g) = bind-some (unquote (d ∷ e ∷ r)) _ h in
    unquote_more c (d ∷ e ∷ r) x w (unquote-inv (d ∷ e ∷ r) x f).0 g

pub unquote-append : (w : Text) → w ≢ [] → unquote (w ++ (b'"' ∷ [])) ≡ some w
unfolding unquote
unquote-append [] n = absurd (n refl)
unquote-append (c ∷ []) n = refl
unquote-append (c ∷ d ∷ []) n = refl
unquote-append (c ∷ d ∷ e ∷ r) n = rw (unquote-append (d ∷ e ∷ r) (λ q. cc))

pub not_space-init : (w : Text) → all not_space (w ++ (b'"' ∷ [])) ≡ true → all not_space w ≡ true
not_space-init w h = ground (arith, all-append not_space w (b'"' ∷ []))

pub not_space-quote : (w : Text) → Run not_space w → Run not_space (w ++ (b'"' ∷ []))
not_space-quote w h = record {
  some_byte = quote-ne-nil w;
  in_class = ground (arith, all-append not_space w (b'"' ∷ []), h.in_class);
}
  where
    quote-ne-nil : (v : Text) → v ++ (b'"' ∷ []) ≢ []
    quote-ne-nil [] e = cc
    quote-ne-nil (c ∷ v) e = cc

pub Closing-build :
    (s w t q w' s1 g t' : Text)
    → (s ≡ q ++ s1) × Run not_space q × Stops not_space s1
    → (q ≡ w' ++ (b'"' ∷ [])) × (w' ≢ [])
    → (s1 ≡ g ++ t') × Run is_space g × Stops is_space t'
    → SamePair w' t' w t
    → Closing w s t
Closing-build s w t q w' s1 g t' first quote second h =
    let (ew, et) = pair-inv w' w t' t h in
    record {
      gap = g;
      shape = cc (first.0, quote.0, second.0, append_assoc w' (b'"' ∷ []) (g ++ t'));
      word = subst (Run not_space) ew (record {
        some_byte = quote.1;
        in_class = not_space-init w' (rw (← quote.0) (first.1).in_class);
      });
      space = second.1;
    }

pub closing-inv : (s w t : Text) → closing s ≡ some (w, t) → Closing w s t
unfolding closing
closing-inv s w t h =
    let ((q, s1), e, h1) = bind-some (many1 not_space s) _ h in
    let (w', u, h2) = bind-some (unquote q) _ h1 in
    let ((g, t'), f, h3) = bind-some (many1 is_space s1) _ h2 in
    Closing-build s w t q w' s1 g t' (many1-inv not_space s q s1 e) (unquote-inv q w' u)
      (many1-inv is_space s1 g t' f) h3

pub closing-append : (w s t : Text) → Closing w s t → Stops is_space t → closing s ≡ some (w, t)
unfolding closing
closing-append w s t h st = rw (
  h.shape,
  ← append_assoc w (b'"' ∷ []) (h.gap ++ t),
  many1-append not_space (w ++ (b'"' ∷ [])) (h.gap ++ t) (not_space-quote w h.word)
      (Run-Stops is_space not_space h.gap t space-stops_not_space h.space),
  unquote-append w h.word.some_byte,
  many1-append is_space h.gap t h.space st,
)
