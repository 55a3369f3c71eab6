-- ===== src/Prelude/Int.antt =====
-- Signed integers, for settings that may be negative: `negsuc n` is -(n + 1).
use Prim.Native.Nat.{ℕ, suc}
use mathlib.Core.Path.{◌≡◌, ap}
use mathlib.Core.Logic.{◌↔◌}
use mathlib.Core.List.{◌∷◌}
use mathlib.Core.Bool.{Bool, true, false}
use native.Mathlib.Omega.{arith}
use parser_go.Prelude.Tests.{◌==◌, ltb}
use parser_go.Prelude.Strings.{Text}
use parser_go.Prelude.Decimal.{format_int}

pub data ℤ : Type 0 where
  pos : ℕ → ℤ
  negsuc : ℕ → ℤ

-- The value if it is positive, and a default if not.
abbrev pub positive_or : ℕ → ℤ → ℕ
positive_or d (pos ℕ.zero) = d
positive_or d (pos (ℕ.suc n)) = ℕ.suc n
positive_or d (negsuc n) = d

-- `==`
unfoldable pub int_eq : ℤ → ℤ → Bool
int_eq (pos m) (pos n) = m == n
int_eq (negsuc m) (negsuc n) = m == n
int_eq (pos m) (negsuc n) = false
int_eq (negsuc m) (pos n) = false

abbrev pub is_negative : ℤ → Bool
is_negative (pos n) = false
is_negative (negsuc n) = true

abbrev pub is_positive : ℤ → Bool
is_positive (pos n) = ltb 0 n
is_positive (negsuc n) = false

pub int_eq→eq : (a b : ℤ) → int_eq a b ≡ true → a ≡ b
unfolding int_eq
int_eq→eq (pos m) (pos n) h = ap pos (ground arith)
int_eq→eq (negsuc m) (negsuc n) h = ap negsuc (ground arith)
int_eq→eq (pos m) (negsuc n) h = cc
int_eq→eq (negsuc m) (pos n) h = cc

pub int_eq_refl : (a : ℤ) → int_eq a a ≡ true
unfolding int_eq
int_eq_refl (pos m) = ground arith
int_eq_refl (negsuc m) = ground arith

pub int_eq_iff : (a b : ℤ) → (int_eq a b ≡ true) ↔ (a ≡ b)
int_eq_iff a b = (int_eq→eq a b, λ e. rw e (int_eq_refl b))

-- strconv.Itoa
unfoldable pub itoa : ℤ → Text
itoa (pos n) = format_int n
itoa (negsuc n) = b'-' ∷ format_int (suc n)

-- `<`
unfoldable pub int_lt : ℤ → ℤ → Bool
int_lt (pos m) (pos n) = ltb m n
int_lt (negsuc m) (negsuc n) = ltb n m
int_lt (pos m) (negsuc n) = false
int_lt (negsuc m) (pos n) = true
