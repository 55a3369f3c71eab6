-- ===== src/Float.antt =====
-- float64 as an interface: the operations that the sources apply to it, and how they print it.
use parser_go.Prelude.{ℕ, Text, Bool}

pub record Floats (F : Type 0) : Type 0 where
  -- float64(n) of an integer that is not negative
  pub of_int : ℕ → F
  pub add : F → F → F
  pub mul : F → F → F
  pub div : F → F → F
  -- fmt.Sprintf("%.2f", x)
  pub fixed2 : F → Text
  -- fmt.Sprintf("%.1f", x)
  pub fixed1 : F → Text
  -- int(x) of a number that is not negative: its integer part
  pub trunc : F → ℕ
  -- x > 0
  pub is_positive : F → Bool
