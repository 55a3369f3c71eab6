-- ===== src/Analysis/Line/Match.antt =====
-- The matcher of Analysis.Line succeeds exactly where the relation of Analysis.Line.Pattern holds.
use parser_go.Prelude.{
  some-inv, Text, ◌≡◌, ◌≢◌, ◌⊎◌, inl, inr, refl, sym, subst, [], ◌∷◌, ◌++◌, some, arith, ◌↔◌,
}
use parser_go.Prelude.Decimal.{is_digit}
use parser_go.Analysis.Line.{
  Groups, is_space, not_space, run, rest, byte, word, bracketed, closing, digits, digits_or_dash,
  or_dash, match_line,
}
use parser_go.Analysis.Line.Pattern.{Run, Stops, Word, Bracketed, Closing, Digits, Size, Matches}
use parser_go.Analysis.Line.Runs.{
  run-rest, all-run, rest-Stops, run-append, bind-some, byte-inv, Run-Stops, not_space-stops_space,
  digit-stops_space,
}
use parser_go.Analysis.Line.Pieces.{
  word-inv, word-append, digits-inv, digits-append, bracketed-inv, bracketed-append,
}
use parser_go.Analysis.Line.Protocol.{closing-inv, closing-append}

byte-Stops : (t : Text) → Stops is_space (b'"' ∷ t)
byte-Stops t = refl

Word-Stops : (w s t : Text) → Word w s t → Stops is_space s
Word-Stops w s t h =
    rw h.shape (Run-Stops not_space is_space w (h.gap ++ t) not_space-stops_space h.word)

Closing-Stops : (w s t : Text) → Closing w s t → Stops is_space s
Closing-Stops w s t h =
    rw h.shape (Run-Stops not_space is_space w (b'"' ∷ (h.gap ++ t)) not_space-stops_space h.word)

Digits-Stops : (w s t : Text) → Digits w s t → Stops is_space s
Digits-Stops w s t h =
    rw h.shape (Run-Stops is_digit is_space w (h.gap ++ t) digit-stops_space h.word)

Bracketed-Stops : (w s t : Text) → Bracketed w s t → Stops is_space s
Bracketed-Stops w s t h = rw h.shape refl

Size-Stops : (w s : Text) → Size w s → Stops is_space s
Size-Stops w s h = rw h.shape (stops h.choice)
  where
    stops :
        (Run is_digit w × Stops is_digit h.tail) ⊎ (w ≡ b'-' ∷ []) → Stops is_space (w ++ h.tail)
    stops (inl (r, st)) = Run-Stops is_digit is_space w h.tail digit-stops_space r
    stops (inr e) = rw e refl

or_dash-inv : (r s w : Text) → run is_digit s ≡ r → or_dash r s ≡ some w → Size w s
unfolding byte
or_dash-inv [] s w e h =
    let (t, f, g) = bind-some (byte b'-' s) _ h in
    let same : b'-' ∷ [] ≡ w = ground arith in
    record { tail = t; shape = cc (byte-inv b'-' s t f); choice = inr (sym same) }
or_dash-inv (c ∷ r) s w e h =
    let same : c ∷ r ≡ w = ground arith in
    record {
      tail = rest is_digit s;
      shape = cc (run-rest is_digit s);
      choice = inl (
        record { some_byte = λ n. cc; in_class = cc (all-run is_digit s) },
        rest-Stops is_digit s,
      );
    }

digits_or_dash-inv : (s w : Text) → digits_or_dash s ≡ some w → Size w s
unfolding digits_or_dash
digits_or_dash-inv s w h = or_dash-inv (run is_digit s) s w refl h

or_dash-lem : (r s : Text) → r ≢ [] → or_dash r s ≡ some r
or_dash-lem [] s n = absurd (n refl)
or_dash-lem (c ∷ r) s n = refl

dash_tail : (tail : Text) → digits_or_dash (b'-' ∷ tail) ≡ some (b'-' ∷ [])
unfolding digits_or_dash byte run
dash_tail tail = refl

digits_tail :
    (w tail : Text) → Run is_digit w → Stops is_digit tail → digits_or_dash (w ++ tail) ≡ some w
unfolding digits_or_dash
digits_tail w tail r st =
    rw (run-append is_digit w tail r.in_class st) (or_dash-lem w (w ++ tail) r.some_byte)

digits_or_dash-append : (w s : Text) → Size w s → digits_or_dash s ≡ some w
digits_or_dash-append w s h = rw h.shape (by_choice h.choice)
  where
    by_choice :
        (Run is_digit w × Stops is_digit h.tail) ⊎ (w ≡ b'-' ∷ [])
        → digits_or_dash (w ++ h.tail) ≡ some w
    by_choice (inl (r, st)) = digits_tail w h.tail r st
    by_choice (inr e) = rw e (dash_tail h.tail)

-- Where the relation holds, the matcher returns the groups.
pub match_line_complete : (line : Text) (g : Groups) → Matches line g → match_line line ≡ some g
unfolding match_line
match_line_complete line g m = rw (
  word-append g.remote line m.s1 m.remote (Word-Stops _ _ _ m.ident),
  word-append g.ident m.s1 m.s2 m.ident (Word-Stops _ _ _ m.auth),
  word-append g.auth m.s2 m.s3 m.auth (Bracketed-Stops _ _ _ m.timestamp),
  bracketed-append g.timestamp m.s3 (b'"' ∷ m.s4) m.timestamp (byte-Stops m.s4),
  word-append g.method m.s4 m.s5 m.method (Word-Stops _ _ _ m.path),
  word-append g.path m.s5 m.s6 m.path (Closing-Stops _ _ _ m.protocol),
  closing-append g.protocol m.s6 m.s7 m.protocol (Digits-Stops _ _ _ m.status),
  digits-append g.status m.s7 m.s8 m.status (Size-Stops _ _ m.size),
  digits_or_dash-append g.size m.s8 m.size,
)

match_line_sound : (line : Text) (g : Groups) → match_line line ≡ some g → Matches line g
unfolding match_line
match_line_sound line g h =
    let ((remote, s1), e1, h1) = bind-some (word line) _ h in
    let ((ident, s2), e2, h2) = bind-some (word s1) _ h1 in
    let ((auth, s3), e3, h3) = bind-some (word s2) _ h2 in
    let ((timestamp, r), e4, h4) = bind-some (bracketed s3) _ h3 in
    let (s4, e5, h5) = bind-some (byte b'"' r) _ h4 in
    let ((method, s5), e6, h6) = bind-some (word s4) _ h5 in
    let ((path, s6), e7, h7) = bind-some (word s5) _ h6 in
    let ((protocol, s7), e8, h8) = bind-some (closing s6) _ h7 in
    let ((status, s8), e9, h9) = bind-some (digits s7) _ h8 in
    let (size, e10, h10) = bind-some (digits_or_dash s8) _ h9 in
    subst (Matches line) (some-inv h10) (record {
      s1 = s1;
      s2 = s2;
      s3 = s3;
      s4 = s4;
      s5 = s5;
      s6 = s6;
      s7 = s7;
      s8 = s8;
      remote = word-inv line remote s1 e1;
      ident = word-inv s1 ident s2 e2;
      auth = word-inv s2 auth s3 e3;
      timestamp =
          subst (Bracketed timestamp s3) (byte-inv b'"' r s4 e5) (bracketed-inv s3 timestamp r e4);
      method = word-inv s4 method s5 e6;
      path = word-inv s5 path s6 e7;
      protocol = closing-inv s6 protocol s7 e8;
      status = digits-inv s7 status s8 e9;
      size = digits_or_dash-inv s8 size e10;
    })

-- The matcher gives a line the groups `g` exactly when the line can be cut into them by the pieces
-- of the combined log expression.
pub match_line-iff-Matches :
    (line : Text) (g : Groups) → (match_line line ≡ some g) ↔ Matches line g
match_line-iff-Matches line g = (match_line_sound line g, match_line_complete line g)
