-- ===== src/Analysis/Line/Pieces.antt =====
-- The pieces of the expression with white space behind them.
use parser_go.Prelude.{Text, ◌≡◌, refl, subst, ◌∷◌, ◌++◌, Option, some, arith}
use parser_go.Prelude.Decimal.{is_digit}
use parser_go.Analysis.Line.{is_space, not_space, not_bracket, many1, byte, word, bracketed, digits}
use parser_go.Analysis.Line.Pattern.{Run, Stops, Word, Bracketed, Digits}
use parser_go.Analysis.Line.Runs.{
  many1-inv, many1-append, bind-some, byte-inv, byte-cons, Run-Stops, space-stops_not_space,
  space-stops_digit,
}

abbrev pub SamePair : Text → Text → Text → Text → Type 0
SamePair a b c d = ◌≡◌ {A = Option (Text × Text)} (some (a, b)) (some (c, d))

pub pair-inv : (a c b d : Text) → SamePair a b c d → (a ≡ c) × (b ≡ d)
pair-inv a c b d h = (ground arith, ground arith)

pub Word-build :
    (s w t w' s' g t' : Text)
    → (s ≡ w' ++ s') × Run not_space w' × Stops not_space s'
    → (s' ≡ g ++ t') × Run is_space g × Stops is_space t'
    → SamePair w' t' w t
    → Word w s t
Word-build s w t w' s' g t' first second h =
    let (ew, et) = pair-inv w' w t' t h in
    record {
      gap = g;
      shape = cc (first.0, second.0);
      word = subst (Run not_space) ew first.1;
      space = second.1;
    }

pub word-inv : (s w t : Text) → word s ≡ some (w, t) → Word w s t
unfolding word
word-inv s w t h =
    let ((w', s'), e, h1) = bind-some (many1 not_space s) _ h in
    let ((g, t'), f, h2) = bind-some (many1 is_space s') _ h1 in
    Word-build s w t w' s' g t' (many1-inv not_space s w' s' e) (many1-inv is_space s' g t' f) h2

pub word-append : (w s t : Text) → Word w s t → Stops is_space t → word s ≡ some (w, t)
unfolding word
word-append w s t h st = rw (
  h.shape,
  many1-append not_space w (h.gap ++ t) h.word
      (Run-Stops is_space not_space h.gap t space-stops_not_space h.space),
  many1-append is_space h.gap t h.space st,
)

pub Digits-build :
    (s w t w' s' g t' : Text)
    → (s ≡ w' ++ s') × Run is_digit w' × Stops is_digit s'
    → (s' ≡ g ++ t') × Run is_space g × Stops is_space t'
    → SamePair w' t' w t
    → Digits w s t
Digits-build s w t w' s' g t' first second h =
    let (ew, et) = pair-inv w' w t' t h in
    record {
      gap = g;
      shape = cc (first.0, second.0);
      word = subst (Run is_digit) ew first.1;
      space = second.1;
    }

pub digits-inv : (s w t : Text) → digits s ≡ some (w, t) → Digits w s t
unfolding digits
digits-inv s w t h =
    let ((w', s'), e, h1) = bind-some (many1 is_digit s) _ h in
    let ((g, t'), f, h2) = bind-some (many1 is_space s') _ h1 in
    Digits-build s w t w' s' g t' (many1-inv is_digit s w' s' e) (many1-inv is_space s' g t' f) h2

pub digits-append : (w s t : Text) → Digits w s t → Stops is_space t → digits s ≡ some (w, t)
unfolding digits
digits-append w s t h st = rw (
  h.shape,
  many1-append is_digit w (h.gap ++ t) h.word
      (Run-Stops is_space is_digit h.gap t space-stops_digit h.space),
  many1-append is_space h.gap t h.space st,
)

pub bracket-Stops : (t : Text) → Stops not_bracket (b']' ∷ t)
bracket-Stops t = refl

pub Bracketed-build :
    (s w t s1 w' s2 s3 g t' : Text)
    → s ≡ b'[' ∷ s1
    → (s1 ≡ w' ++ s2) × Run not_bracket w' × Stops not_bracket s2
    → s2 ≡ b']' ∷ s3
    → (s3 ≡ g ++ t') × Run is_space g × Stops is_space t'
    → SamePair w' t' w t
    → Bracketed w s t
Bracketed-build s w t s1 w' s2 s3 g t' open_ first close second h =
    let (ew, et) = pair-inv w' w t' t h in
    record {
      gap = g;
      shape = cc (open_, first.0, close, second.0);
      word = subst (Run not_bracket) ew first.1;
      space = second.1;
    }

pub bracketed-inv : (s w t : Text) → bracketed s ≡ some (w, t) → Bracketed w s t
unfolding bracketed
bracketed-inv s w t h =
    let (s1, e0, h1) = bind-some (byte b'[' s) _ h in
    let ((w', s2), e, h2) = bind-some (many1 not_bracket s1) _ h1 in
    let (s3, e3, h3) = bind-some (byte b']' s2) _ h2 in
    let ((g, t'), f, h4) = bind-some (many1 is_space s3) _ h3 in
    Bracketed-build s w t s1 w' s2 s3 g t' (byte-inv b'[' s s1 e0)
      (many1-inv not_bracket s1 w' s2 e) (byte-inv b']' s2 s3 e3) (many1-inv is_space s3 g t' f) h4

pub bracketed-append :
    (w s t : Text) → Bracketed w s t → Stops is_space t → bracketed s ≡ some (w, t)
unfolding bracketed
bracketed-append w s t h st = rw (
  h.shape,
  byte-cons b'[' (w ++ (b']' ∷ (h.gap ++ t))),
  many1-append not_bracket w (b']' ∷ (h.gap ++ t)) h.word (bracket-Stops (h.gap ++ t)),
  byte-cons b']' (h.gap ++ t),
  many1-append is_space h.gap t h.space st,
)
