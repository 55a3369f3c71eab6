-- ===== src/Analysis/Line.antt =====
-- combinedLogRegex of internal/analysis/engine.go, as a function on bytes. Each \S+ is followed by
-- white space, a quote before white space, or nothing that it could take itself, so the leftmost,
-- longest choice of the regexp engine is the only one that can succeed and no backtracking is
-- needed. Analysis.Line.Pattern states the expression as a relation. \S and [^\]] take each byte
-- of a multi-byte rune.
pub mod Pattern
pub mod Runs
pub mod Pieces
pub mod Protocol
pub mod Match
use parser_go.Prelude.{ℕ, Text, Bool, not, ◌||◌, Option, none, some, [], ◌∷◌, ◌==◌, if◌then◌else◌}
use parser_go.Prelude.Decimal.{is_digit}

-- \s
abbrev pub is_space : ℕ → Bool
is_space c = (c == 32) || ((c == 9) || ((c == 10) || ((c == 12) || (c == 13))))

-- \S
abbrev pub not_space : ℕ → Bool
not_space c = not (is_space c)

-- [^\]]
abbrev pub not_bracket : ℕ → Bool
not_bracket c = not (c == b']')

-- The longest run of bytes in a class, and what follows.
unfoldable pub run : (ℕ → Bool) → Text → Text
run p [] = []
run p (c ∷ s) = if p c then c ∷ run p s else []

unfoldable pub rest : (ℕ → Bool) → Text → Text
rest p [] = []
rest p (c ∷ s) = if p c then rest p s else c ∷ s

infixl 5 ◌>>=◌ ◌>>◌
abbrev pub ◌>>=◌ {ℓ κ} : {A : Type ℓ} {B : Type κ} → Option A → (A → Option B) → Option B
none >>= f = none
some a >>= f = f a

abbrev ◌>>◌ {ℓ κ} : {A : Type ℓ} {B : Type κ} → Option A → Option B → Option B
m >> k = m >>= λ _. k

abbrev pub some_run : Text → Text → Option (Text × Text)
some_run [] s = none
some_run (c ∷ r) s = some (c ∷ r, s)

-- p+
unfoldable pub many1 : (ℕ → Bool) → Text → Option (Text × Text)
unfolding run rest
many1 p s = some_run (run p s) (rest p s)

-- One byte.
unfoldable pub byte : ℕ → Text → Option Text
byte d [] = none
byte d (c ∷ s) = if c == d then some s else none

-- \S+" of which the run of non-spaces is given: all but the quote that must end it.
unfoldable pub unquote : Text → Option Text
unquote [] = none
unquote (c ∷ []) = none
unquote (c ∷ d ∷ []) = if d == b'"' then some (c ∷ []) else none
unquote (c ∷ d ∷ e ∷ r) = unquote (d ∷ e ∷ r) >>= λ t. some (c ∷ t)

abbrev pub or_dash : Text → Text → Option Text
or_dash [] s = do byte b'-' s; some (b'-' ∷ [])
or_dash (c ∷ r) s = some (c ∷ r)

-- \d+|-
unfoldable pub digits_or_dash : Text → Option Text
unfolding run
digits_or_dash s = or_dash (run is_digit s) s

-- (\S+)\s+
unfoldable pub word : Text → Option (Text × Text)
word s = do (w, s) ← many1 not_space s; (_, s) ← many1 is_space s; some (w, s)

-- \[([^\]]+)\]\s+
unfoldable pub bracketed : Text → Option (Text × Text)
bracketed s = do
  s ← byte b'[' s
  (w, s) ← many1 not_bracket s
  s ← byte b']' s
  (_, s) ← many1 is_space s
  some (w, s)

-- (\S+)"\s+
unfoldable pub closing : Text → Option (Text × Text)
closing s = do
  (quoted, s) ← many1 not_space s
  w ← unquote quoted
  (_, s) ← many1 is_space s
  some (w, s)

-- (\d+)\s+
unfoldable pub digits : Text → Option (Text × Text)
digits s = do (w, s) ← many1 is_digit s; (_, s) ← many1 is_space s; some (w, s)

-- The named groups of the expression.
pub record Groups : Type 0 where
  pub remote : Text
  pub ident : Text
  pub auth : Text
  pub timestamp : Text
  pub method : Text
  pub path : Text
  pub protocol : Text
  pub status : Text
  pub size : Text

-- combinedLogRegex.FindStringSubmatch
unfoldable pub match_line : Text → Option Groups
unfolding word bracketed closing digits byte digits_or_dash many1 unquote
match_line s = do
  (remote, s) ← word s
  (ident, s) ← word s
  (auth, s) ← word s
  (timestamp, s) ← bracketed s
  s ← byte b'"' s
  (method, s) ← word s
  (path, s) ← word s
  (protocol, s) ← closing s
  (status, s) ← digits s
  size ← digits_or_dash s
  some (record {
    remote = remote;
    ident = ident;
    auth = auth;
    timestamp = timestamp;
    method = method;
    path = path;
    protocol = protocol;
    status = status;
    size = size;
  })
