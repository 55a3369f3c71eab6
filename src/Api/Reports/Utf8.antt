-- ===== src/Api/Reports/Utf8.antt =====
-- Encoding runes as UTF-8 and decoding them again, as truncateLabel of internal/api/report_handler.go
-- does.
use parser_go.Prelude.{
  ℕ, zero, suc, ◌+◌, ◌*◌, ◌/◌, ◌%◌, Text, true, ◌≡◌, refl, List, [], ◌∷◌, ◌++◌, arith, all, ltb→lt,
  ltb, ap, ◌<◌, ◌≤◌, Bool-cases, inl, inr,
}
use parser_go.Api.Reports.Runes.{runes, runes_from, decode_rune, encode_rune, string_of, is_scalar}

runes-one : (r : ℕ) (s : Text) → r < 128 → runes (r ∷ s) ≡ r ∷ runes s
unfolding runes
runes-one r s h = ground arith

runes-two :
    (r : ℕ) (s : Text)
    → 128 ≤ r
    → r < 2048
    → runes ((192 + r / 64) ∷ (128 + r % 64) ∷ s) ≡ r ∷ runes s
unfolding runes
runes-two r s l h = ground arith

runes-three :
    (r : ℕ) (s : Text)
    → 2048 ≤ r
    → r < 65536
    → is_scalar r ≡ true
    → runes ((224 + r / 4096) ∷ (128 + r / 64 % 64) ∷ (128 + r % 64) ∷ s) ≡ r ∷ runes s
unfolding runes
runes-three r s l h v = ground arith

decode_rune-four :
    (a b c d : ℕ) (s : Text)
    → a ≤ 4
    → b < 64
    → c < 64
    → d < 64
    → (a ≡ 0 → 16 ≤ b)
    → (a ≡ 4 → b < 16)
    → decode_rune (240 + a) ((128 + b) ∷ (128 + c) ∷ (128 + d) ∷ s)
      ≡ (a * 262144 + (b * 4096 + (c * 64 + d)), 3)
unfolding decode_rune
decode_rune-four a b c d s p q u v low high = ground arith

-- A number by its digits in base 64.
four_digits :
    (r : ℕ) → r / 262144 * 262144 + (r / 4096 % 64 * 4096 + (r / 64 % 64 * 64 + r % 64)) ≡ r
four_digits r = omega arith

runes-four :
    (r : ℕ) (s : Text)
    → 65536 ≤ r
    → r ≤ 1114111
    → runes ((240 + r / 262144) ∷ (128 + r / 4096 % 64) ∷ (128 + r / 64 % 64) ∷ (128 + r % 64) ∷ s)
      ≡ r ∷ runes s
unfolding runes
runes-four r s l h =
    rw
      (
        decode_rune-four (r / 262144) (r / 4096 % 64) (r / 64 % 64) (r % 64) s (omega arith)
            (omega arith) (omega arith) (omega arith) (λ e. omega arith) (λ e. omega arith),
        four_digits r,
      )
      refl

runes-encode_rune :
    (r : ℕ) (s : Text) → is_scalar r ≡ true → runes (encode_rune r ++ s) ≡ r ∷ runes s
unfolding encode_rune
runes-encode_rune r s v = rw v (elim (Bool-cases (ltb r 128)) [
  | inl a ↦ rw a (runes-one r s (ltb→lt r 128 a))
  | inr a ↦ elim (Bool-cases (ltb r 2048)) [
    | inl b ↦ rw (a, b) (runes-two r s (ground arith) (ltb→lt r 2048 b))
    | inr b ↦ elim (Bool-cases (ltb r 65536)) [
      | inl c ↦ rw (a, b, c) (runes-three r s (ground arith) (ltb→lt r 65536 c) v)
      | inr c ↦ rw (a, b, c) (runes-four r s (ground arith) (ground arith))
    ]
  ]
])

-- Decoding the encoding of Unicode scalar values gives them back.
pub runes-string_of : (rs : List ℕ) → all is_scalar rs ≡ true → runes (string_of rs) ≡ rs
unfolding string_of runes
runes-string_of [] v = refl
runes-string_of (r ∷ rs) v =
    rw (runes-encode_rune r (string_of rs) (ground arith))
      (ap (λ t. r ∷ t) (runes-string_of rs (ground arith)))

decode_rune-IsScalar : (c : ℕ) (s : Text) → is_scalar (decode_rune c s).0 ≡ true
unfolding decode_rune
decode_rune-IsScalar c [] = ground arith
decode_rune-IsScalar c (d ∷ []) = ground arith
decode_rune-IsScalar c (d ∷ e ∷ []) = ground arith
decode_rune-IsScalar c (d ∷ e ∷ f ∷ s) = ground arith

all-runes_from : (k : ℕ) (s : Text) → all is_scalar (runes_from k s) ≡ true
unfolding runes_from
all-runes_from k [] = refl
all-runes_from zero (c ∷ s) =
    ground (arith, decode_rune-IsScalar c s, all-runes_from (decode_rune c s).1 s)
all-runes_from (suc k) (c ∷ s) = all-runes_from k s

-- Only scalar values come out of decoding, whatever the bytes are.
pub all-runes : (s : Text) → all is_scalar (runes s) ≡ true
unfolding runes
all-runes s = all-runes_from 0 s
