-- ===== src/Checks/Data.antt =====
-- Inputs that the tests share.
use parser_go.Prelude.{ℕ, ◌+◌, ◌*◌, ◌/◌, Text, text, [], ◌∷◌, ◌++◌, ltb}
use parser_go.Float.{Floats}
use parser_go.Analysis.Engine.{Engine, format_combined, profile_default}
use parser_go.Api.Handler.{Env}

-- Numbers in place of floats, rounded down.
abbrev pub naturals : Floats ℕ
naturals = record {
  of_int = λ n. n;
  add = λ a b. a + b;
  mul = λ a b. a * b;
  div = λ a b. a / b;
  fixed2 = λ a. [];
  fixed1 = λ a. [];
  trunc = λ a. a;
  is_positive = λ a. ltb 0 a;
}

abbrev pub env : Env ℕ
env = record { floats = naturals; order = λ cs. cs; sha256 = λ s. s; describe = λ e. [] }

unfoldable pub line_a : Text
unfolding text
line_a = text "1.2.3.4 - - [10/Oct/2000:13:55:36 -0700] \"GET /a HTTP/1.0\" 200 2326"

unfoldable pub line_health : Text
unfolding text
line_health = text "1.2.3.4 - - [10/Oct/2000:13:55:36 -0700] \"GET /health HTTP/1.0\" 200 -"

unfoldable pub line_bad : Text
unfolding text
line_bad = text "no log line"

unfoldable pub log : Text
unfolding line_a line_health line_bad
log = line_a ++ (10 ∷ (line_health ++ (10 ∷ (line_bad ++ (10 ∷ (line_a ++ (13 ∷ 10 ∷ [])))))))

abbrev pub engine : Engine
engine = record { format = format_combined; profile = profile_default }
