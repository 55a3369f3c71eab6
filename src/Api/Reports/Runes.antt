-- ===== src/Api/Reports/Runes.antt =====
-- Go's conversions between strings and runes, which truncateLabel of internal/api/report_handler.go
-- uses: UTF-8, with U+FFFD for each byte that does not belong to an encoded rune.
use parser_go.Prelude.{
  ℕ, zero, suc, ◌+◌, ◌-◌, ◌*◌, ◌/◌, ◌%◌, Text, Bool, ◌&&◌, ◌||◌, List, [], ◌∷◌, ◌++◌, ltb, leb,
  ◌==◌, if◌then◌else◌,
}

-- utf8.RuneError
abbrev pub rune_error : ℕ
rune_error = 65533

abbrev pub in_range : ℕ → ℕ → ℕ → Bool
in_range lo hi c = leb lo c && leb c hi

-- 10xxxxxx
abbrev pub is_continuation : ℕ → Bool
is_continuation c = in_range 128 191 c

-- What may follow the first byte of three: no overlong form and no surrogate.
abbrev pub second_of_three : ℕ → ℕ → Bool
second_of_three c d =
    if c == 224
    then in_range 160 191 d
    else if c == 237
    then in_range 128 159 d
    else is_continuation d

-- What may follow the first byte of four: no overlong form, and nothing above U+10FFFF.
abbrev pub second_of_four : ℕ → ℕ → Bool
second_of_four c d =
    if c == 240
    then in_range 144 191 d
    else if c == 244
    then in_range 128 143 d
    else is_continuation d

-- A rune and the number of bytes behind its first.
abbrev pub Decoded : Type 0
Decoded = ℕ × ℕ

abbrev pub invalid : Decoded
invalid = (rune_error, 0)

abbrev pub decode_two : ℕ → Text → Decoded
decode_two c [] = invalid
decode_two c (d ∷ s) = if is_continuation d then ((c - 192) * 64 + (d - 128), 1) else invalid

abbrev pub decode_three : ℕ → Text → Decoded
decode_three c [] = invalid
decode_three c (d ∷ []) = invalid
decode_three c (d ∷ e ∷ s) =
    if second_of_three c d && is_continuation e
    then ((c - 224) * 4096 + ((d - 128) * 64 + (e - 128)), 2)
    else invalid

abbrev pub decode_four : ℕ → Text → Decoded
decode_four c [] = invalid
decode_four c (d ∷ []) = invalid
decode_four c (d ∷ e ∷ []) = invalid
decode_four c (d ∷ e ∷ f ∷ s) =
    if second_of_four c d && (is_continuation e && is_continuation f)
    then ((c - 240) * 262144 + ((d - 128) * 4096 + ((e - 128) * 64 + (f - 128))), 3)
    else invalid

-- utf8.DecodeRuneInString
unfoldable pub decode_rune : ℕ → Text → Decoded
decode_rune c s =
    if ltb c 128
    then (c, 0)
    else if in_range 194 223 c
    then decode_two c s
    else if in_range 224 239 c
    then decode_three c s
    else if in_range 240 244 c
    then decode_four c s
    else invalid

-- The runes behind bytes that belong to a rune which is read already.
unfoldable pub runes_from : ℕ → Text → List ℕ
unfolding decode_rune
runes_from k [] = []
runes_from zero (c ∷ s) = (decode_rune c s).0 ∷ runes_from (decode_rune c s).1 s
runes_from (suc k) (c ∷ s) = runes_from k s

-- []rune(s)
unfoldable pub runes : Text → List ℕ
unfolding runes_from
runes s = runes_from 0 s

-- Unicode scalar values: no surrogate, and at most U+10FFFF.
abbrev pub is_scalar : ℕ → Bool
is_scalar r = ltb r 55296 || in_range 57344 1114111 r

abbrev encode_scalar : ℕ → Text
encode_scalar r =
    if ltb r 128
    then r ∷ []
    else if ltb r 2048
    then (192 + r / 64) ∷ (128 + r % 64) ∷ []
    else if ltb r 65536
    then (224 + r / 4096) ∷ (128 + r / 64 % 64) ∷ (128 + r % 64) ∷ []
    else (240 + r / 262144) ∷ (128 + r / 4096 % 64) ∷ (128 + r / 64 % 64) ∷ (128 + r % 64) ∷ []

-- utf8.AppendRune
unfoldable pub encode_rune : ℕ → Text
encode_rune r = if is_scalar r then encode_scalar r else encode_scalar rune_error

-- string(rs)
unfoldable pub string_of : List ℕ → Text
unfolding encode_rune
string_of [] = []
string_of (r ∷ rs) = encode_rune r ++ string_of rs
