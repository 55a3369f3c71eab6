-- ===== src/Api/Space.antt =====
-- strings.TrimSpace of Go's standard library: white space is that of unicode.IsSpace, in UTF-8.
use mathlib.Core.List.{reverse, reverse_aux}
use parser_go.Prelude.{
  ℕ, Text, Bool, true, ◌≡◌, refl, all, arith, ◌&&◌, ◌||◌, [], ◌∷◌, ◌==◌, leb, if◌then◌else◌,
}

-- \t \n \v \f \r and the blank
abbrev pub is_ascii_space : ℕ → Bool
is_ascii_space c = (c == 32) || (leb 9 c && leb c 13)

-- U+0085 and U+00A0
abbrev pub is_space2 : ℕ → ℕ → Bool
is_space2 c d = (c == 0xC2) && ((d == 0x85) || (d == 0xA0))

-- U+1680, U+2000 to U+200A, U+2028, U+2029, U+202F, U+205F and U+3000
abbrev pub is_space3 : ℕ → ℕ → ℕ → Bool
is_space3 c d e =
    ((c == 0xE1) && ((d == 0x9A) && (e == 0x80)))
    || (((c == 0xE2)
          && ((d == 0x80)
              && ((leb 0x80 e && leb e 0x8A) || ((e == 0xA8) || ((e == 0xA9) || (e == 0xAF))))))
        || (((c == 0xE2) && ((d == 0x81) && (e == 0x9F)))
            || ((c == 0xE3) && ((d == 0x80) && (e == 0x80)))))

-- `wide2` and `wide3` tell the runes of two and three bytes, in the order in which they are met.
trim_by : (ℕ → ℕ → Bool) → (ℕ → ℕ → ℕ → Bool) → Text → Text
trim_by wide2 wide3 [] = []
trim_by wide2 wide3 (c ∷ []) = if is_ascii_space c then [] else c ∷ []
trim_by wide2 wide3 (c ∷ d ∷ []) =
    let after1 = trim_by wide2 wide3 (d ∷ []) in
    if is_ascii_space c then after1 else if wide2 c d then [] else c ∷ d ∷ []
trim_by wide2 wide3 (c ∷ d ∷ e ∷ s) =
    let after1 = trim_by wide2 wide3 (d ∷ e ∷ s) in
    let after2 = trim_by wide2 wide3 (e ∷ s) in
    let after3 = trim_by wide2 wide3 s in
    if is_ascii_space c
    then after1
    else if wide2 c d
    then after2
    else if wide3 c d e
    then after3
    else c ∷ d ∷ e ∷ s

trim_left : Text → Text
unfolding trim_by
trim_left s = trim_by is_space2 is_space3 s

trim_right : Text → Text
unfolding trim_by
trim_right s = reverse (trim_by (λ d c. is_space2 c d) (λ e d c. is_space3 c d e) (reverse s))

-- strings.TrimSpace
unfoldable pub trim_space : Text → Text
unfolding trim_left trim_right
trim_space s = trim_right (trim_left s)

trim_by-all :
    (p : ℕ → Bool) (wide2 : ℕ → ℕ → Bool) (wide3 : ℕ → ℕ → ℕ → Bool) (s : Text)
    → all p s ≡ true
    → all p (trim_by wide2 wide3 s) ≡ true
unfolding trim_by
trim_by-all p wide2 wide3 [] h = refl
trim_by-all p wide2 wide3 (c ∷ []) h = ground arith
trim_by-all p wide2 wide3 (c ∷ d ∷ []) h = ground arith
trim_by-all p wide2 wide3 (c ∷ d ∷ e ∷ s) h = ground (
  arith,
  trim_by-all p wide2 wide3 (d ∷ e ∷ s),
  trim_by-all p wide2 wide3 (e ∷ s),
  trim_by-all p wide2 wide3 s,
)

all-reverse_aux :
    (p : ℕ → Bool) (s t : Text) → all p s ≡ true → all p t ≡ true → all p (reverse_aux s t) ≡ true
all-reverse_aux p [] t h k = k
all-reverse_aux p (c ∷ s) t h k = ground (arith, all-reverse_aux p s (c ∷ t))

all-reverse : (p : ℕ → Bool) (s : Text) → all p s ≡ true → all p (reverse s) ≡ true
all-reverse p s h = all-reverse_aux p s [] h refl

-- Trimming brings no new byte.
pub trim_space-all : (p : ℕ → Bool) (s : Text) → all p s ≡ true → all p (trim_space s) ≡ true
unfolding trim_space trim_left trim_right
trim_space-all p s h =
    all-reverse p _ (trim_by-all p _ _ _ (all-reverse p _ (trim_by-all p is_space2 is_space3 s h)))
