-- ===== src/Analysis/Line/Pattern.antt =====
-- The combined log expression of internal/analysis/engine.go as a relation: a line matches if it can
-- be cut into the pieces of the expression, with no choice prescribed but that of the size, where
-- the expression's end is open and \d+ takes all the digits.
use parser_go.Prelude.{ℕ, Text, Bool, true, false, ◌≡◌, ◌≢◌, ◌⊎◌, [], ◌∷◌, ◌++◌, all}
use parser_go.Prelude.Decimal.{is_digit}
use parser_go.Analysis.Line.{Groups, is_space, not_space, not_bracket}

-- One or more bytes of a class.
pub record Run (p : ℕ → Bool) (s : Text) : Type 0 where
  pub some_byte : s ≢ []
  pub in_class : all p s ≡ true

-- The text does not go on with a byte of the class.
abbrev pub Stops : (ℕ → Bool) → Text → Type 0
Stops p [] = Unit {0}
Stops p (c ∷ s) = p c ≡ false

-- (\S+)\s+ takes `w` and white space off `s` and leaves `t`. The other pieces read alike.
pub record Word (w s t : Text) : Type 0 where
  pub gap : Text
  pub shape : s ≡ w ++ (gap ++ t)
  pub word : Run not_space w
  pub space : Run is_space gap

-- \[([^\]]+)\]\s+
pub record Bracketed (w s t : Text) : Type 0 where
  pub gap : Text
  pub shape : s ≡ b'[' ∷ (w ++ (b']' ∷ (gap ++ t)))
  pub word : Run not_bracket w
  pub space : Run is_space gap

-- (\S+)"\s+
pub record Closing (w s t : Text) : Type 0 where
  pub gap : Text
  pub shape : s ≡ w ++ (b'"' ∷ (gap ++ t))
  pub word : Run not_space w
  pub space : Run is_space gap

-- (\d+)\s+
pub record Digits (w s t : Text) : Type 0 where
  pub gap : Text
  pub shape : s ≡ w ++ (gap ++ t)
  pub word : Run is_digit w
  pub space : Run is_space gap

-- (\d+|-)
pub record Size (w s : Text) : Type 0 where
  pub tail : Text
  pub shape : s ≡ w ++ tail
  pub choice : (Run is_digit w × Stops is_digit tail) ⊎ (w ≡ b'-' ∷ [])

-- The whole expression.
pub record Matches (line : Text) (g : Groups) : Type 0 where
  pub s1 : Text
  pub s2 : Text
  pub s3 : Text
  pub s4 : Text
  pub s5 : Text
  pub s6 : Text
  pub s7 : Text
  pub s8 : Text
  pub remote : Word g.remote line s1
  pub ident : Word g.ident s1 s2
  pub auth : Word g.auth s2 s3
  pub timestamp : Bracketed g.timestamp s3 (b'"' ∷ s4)
  pub method : Word g.method s4 s5
  pub path : Word g.path s5 s6
  pub protocol : Closing g.protocol s6 s7
  pub status : Digits g.status s7 s8
  pub size : Size g.size s8
