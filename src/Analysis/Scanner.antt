-- ===== src/Analysis/Scanner.antt =====
-- bufio.Scanner with ScanLines, over the buffer that Engine.Analyze of internal/analysis/engine.go
-- gives it: lines end at \n, a \r before it is dropped, what follows the last \n is a line if it
-- is not empty, and a line that fills the buffer of 1024*1024 bytes is an error.
use parser_go.Prelude.{ℕ, ◌*◌, Text, Bool, List, [], ◌∷◌, ◌==◌, leb, if◌then◌else◌, length}
use parser_go.Prelude.Strings.{cons_part}

-- The content, and whether reading fails behind it rather than end.
pub record Reader : Type 0 where
  pub content : Text
  pub fails : Bool

abbrev pub max_token_size : ℕ
max_token_size = 1024 * 1024

unfoldable pub raw_lines : Text → List Text
raw_lines [] = []
raw_lines (c ∷ s) = let lines = raw_lines s in if c == 10 then [] ∷ lines else cons_part c lines

unfoldable pub drop_cr : Text → Text
drop_cr [] = []
drop_cr (c ∷ []) = if c == 13 then [] else c ∷ []
drop_cr (c ∷ d ∷ s) = c ∷ drop_cr (d ∷ s)

abbrev pub too_long : Text → Bool
too_long line = leb max_token_size (length line)
