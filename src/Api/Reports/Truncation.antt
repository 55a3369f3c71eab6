-- ===== src/Api/Reports/Truncation.antt =====
-- What truncateLabel and limitRankedRequests of internal/api/report_handler.go leave.
use mathlib.Core.List.{append_assoc}
use parser_go.Prelude.{
  all-take, ℕ, ◌-◌, ◌<◌, ◌≤◌, Text, true, false, ◌≡◌, refl, sym, subst, List, [], ◌∷◌, ◌++◌, arith,
  all-append, take, length, length-take, length-append, leb, leb→le, Bool-cases, inl, inr,
  if◌then◌else◌,
}
use parser_go.Api.Reports.Runes.{runes, string_of, encode_rune, is_scalar}
use parser_go.Api.Reports.Utf8.{runes-string_of, all-runes}
use parser_go.Api.Reports.Labels.{truncate_label, ellipsis}

string_of-append : (xs ys : List ℕ) → string_of (xs ++ ys) ≡ string_of xs ++ string_of ys
unfolding string_of
string_of-append [] ys = refl
string_of-append (x ∷ xs) ys =
    rw (string_of-append xs ys) (sym (append_assoc (encode_rune x) (string_of xs) (string_of ys)))

abbrev ellipsis_rune : ℕ
ellipsis_rune = 8230

string_of-ellipsis : string_of (ellipsis_rune ∷ []) ≡ ellipsis
unfolding string_of
string_of-ellipsis = refl

runes-ended :
    (n : ℕ) (s : Text)
    → runes (string_of (take n (runes s)) ++ ellipsis) ≡ take n (runes s) ++ ellipsis_rune ∷ []
runes-ended n s =
    subst (λ t. runes (string_of (take n (runes s)) ++ t) ≡ take n (runes s) ++ ellipsis_rune ∷ [])
      string_of-ellipsis
      (rw (sym (string_of-append (take n (runes s)) (ellipsis_rune ∷ []))) (
        runes-string_of (take n (runes s) ++ ellipsis_rune ∷ []) (
          ground (
            arith,
            all-append is_scalar (take n (runes s)) (ellipsis_rune ∷ []),
            all-take is_scalar n (runes s),
            all-runes s,
          ))))

runes-ellipsis : runes ellipsis ≡ ellipsis_rune ∷ []
unfolding runes
runes-ellipsis = refl

short : (s : Text) (n : ℕ) → leb (length (runes s)) n ≡ true → truncate_label s n ≡ s
unfolding truncate_label
short s n e = rw e refl

-- A label that is too long, cut to n runes.
abbrev IsCut : Text → ℕ → Type 0
IsCut s n = runes (truncate_label s n) ≡ take (n - 1) (runes s) ++ ellipsis_rune ∷ []

IsCut-one : (s : Text) → leb (length (runes s)) 1 ≡ false → IsCut s 1
unfolding truncate_label
IsCut-one s e = rw e runes-ellipsis

IsCut-label : (s : Text) (n : ℕ) → 0 < n → leb (length (runes s)) n ≡ false → IsCut s n
unfolding truncate_label
IsCut-label s n p e = elim (Bool-cases (leb n 1)) [
  | inl b ↦
      subst (λ m. leb (length (runes s)) m ≡ false → IsCut s m) (omega (arith, leb→le n 1 b, p))
        (IsCut-one s) e
  | inr b ↦ rw (e, b) (runes-ended (n - 1) s)
]

-- A label shortened to a limit of at least one rune decodes to the runes of the text if these are at
-- most that many, and otherwise to the text's first runes, one fewer than the limit, and an ellipsis;
-- either way it has at most as many runes as the limit.
pub runes-truncate_label :
    (s : Text) (n : ℕ)
    → 0 < n
    → (runes (truncate_label s n) ≡ (
        if leb (length (runes s)) n then runes s else take (n - 1) (runes s) ++ ellipsis_rune ∷ []))
      × (length (runes (truncate_label s n)) ≤ n)
runes-truncate_label s n p = elim (Bool-cases (leb (length (runes s)) n)) [
  | inl e ↦ rw (short s n e, e) (refl, ground arith)
  | inr e ↦
      rw (IsCut-label s n p e, e)
        (
          refl,
          ground (
            arith,
            length-append (take (n - 1) (runes s)) (ellipsis_rune ∷ []),
            length-take (n - 1) (runes s),
          ),
        )
]
