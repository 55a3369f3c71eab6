-- ===== src/Bench/Expansions.antt =====
-- expandString and expandKnownString of internal/bench/run.go end.
use parser_go.Prelude.{
  ℕ, zero, suc, ◌+◌, ◌<◌, Text, text_eq, Bool, true, false, not, ◌&&◌, subst, ◌⊎◌, ◌≡◌, refl, [],
  ◌∷◌, ◌++◌, arith, Option, none, some, is_some, ◌==◌, Bool-cases, Option-cases, inl, inr,
}
use parser_go.Prelude.Map
use parser_go.Prelude.Map.{Map}
use parser_go.Prelude.Keys.{AllEntries, get-AllEntries}
use parser_go.Api.Space.{trim_space}
use parser_go.Bench.Placeholders.{
  Halves, prepend, find_pair, Expansion, expanded, unclosed, unresolved, Round, return, again,
  substitute, round, rounds, braces, expand_string, expand_known_string,
}

-- The text has no "{{" left, if the expansion gives one.
abbrev pub is_resolved : Expansion → Bool
is_resolved (expanded t) = not (is_some (find_pair b'{' t))
is_resolved unclosed = true
is_resolved (unresolved key) = true

-- No placeholder's value has an opening brace.
abbrev pub IsPlain : Map Text → Type 0
IsPlain placeholders = AllEntries (λ key value. braces value ≡ 0) placeholders

braces-append : (s t : Text) → braces (s ++ t) ≡ braces s + braces t
braces-append [] t = omega arith
braces-append (c ∷ s) t = ground (arith, braces-append s t)

-- A mark of two opening braces splits the text, which has two more than the halves.
abbrev Splits : ℕ → Text → Option Halves → Type 0
Splits n s none = Unit {0}
Splits n s (some h) = braces s ≡ n + braces h.before + braces h.after

prepend-Splits :
    (n c : ℕ) (s : Text) (o : Option Halves) → Splits n s o → Splits n (c ∷ s) (prepend c o)
prepend-Splits n c s none p = tt
prepend-Splits n c s (some h) p = ground arith

find_pair-Splits_open : (s : Text) → Splits 2 s (find_pair b'{' s)
unfolding find_pair
find_pair-Splits_open [] = tt
find_pair-Splits_open (c ∷ []) = tt
find_pair-Splits_open (c ∷ d ∷ s) = elim (Bool-cases ((c == b'{') && (d == b'{'))) [
  | inl e ↦ rw e (ground arith)
  | inr e ↦
      rw e (prepend-Splits 2 c (d ∷ s) (find_pair b'{' (d ∷ s)) (find_pair-Splits_open (d ∷ s)))
]

find_pair-Splits_close : (s : Text) → Splits 0 s (find_pair b'}' s)
unfolding find_pair
find_pair-Splits_close [] = tt
find_pair-Splits_close (c ∷ []) = tt
find_pair-Splits_close (c ∷ d ∷ s) = elim (Bool-cases ((c == b'}') && (d == b'}'))) [
  | inl e ↦ rw e (ground arith)
  | inr e ↦
      rw e (prepend-Splits 0 c (d ∷ s) (find_pair b'}' (d ∷ s)) (find_pair-Splits_close (d ∷ s)))
]

-- Whether the expansion ended, and well.
abbrev pub ends : (Expansion → Bool) → Option Expansion → Bool
ends good none = false
ends good (some e) = good e

ends-is_some :
    (good : Expansion → Bool) (o : Option Expansion) → ends good o ≡ true → is_some o ≡ true
ends-is_some good none e = e
ends-is_some good (some x) e = refl

Round-cases : (r : Round) → ((e : Expansion) × (r ≡ return e)) ⊎ ((t : Text) × (r ≡ again t))
Round-cases (return e) = inl (e, refl)
Round-cases (again t) = inr (t, refl)

module _ (good : Expansion → Bool) where
  -- A round ends well, or leaves fewer opening braces.
  abbrev Advances : ℕ → Round → Type 0
  Advances n (return e) = good e ≡ true
  Advances n (again t) = braces t < n

  substitute-Advances :
      (n : ℕ) (before after : Text) (o : Option Text) (missing : Expansion)
      → good missing ≡ true
      → ((value : Text) → o ≡ some value → braces value ≡ 0)
      → braces before + braces after < n
      → Advances n (substitute before o after missing)
  substitute-Advances n before after none missing g plain l = g
  substitute-Advances n before after (some value) missing g plain l =
      elim (Bool-cases (text_eq value [])) [
        | inl e ↦ rw e g
        | inr e ↦ rw e (
            omega (
              arith,
              braces-append before (value ++ after),
              braces-append value after,
              plain value refl,
              l,
            ))
      ]

  module _ (placeholders : Map Text) (plain : IsPlain placeholders)
      (closed : good unclosed ≡ true) where
    round-Advances :
        (missing : Text → Expansion) (text : Text)
        → ((key : Text) → good (missing key) ≡ true)
        → (is_some (find_pair b'{' text) ≡ false → good (expanded text) ≡ true)
        → Advances (braces text) (round placeholders missing text)
    unfolding round
    round-Advances missing text g whole = elim (Option-cases (find_pair b'{' text)) [
      | inl e ↦ rw e (whole (rw e refl))
      | inr (h, e) ↦
          let split : Splits 2 text (some h) =
            subst (Splits 2 text) e (find_pair-Splits_open text) in
          elim (Option-cases (find_pair b'}' h.after)) [
            | inl e' ↦ rw (e, e') closed
            | inr (k, e') ↦
                let split' : Splits 0 h.after (some k) =
                  subst (Splits 0 h.after) e' (find_pair-Splits_close h.after) in
                rw (e, e')
                  (substitute-Advances (braces text) h.before k.after
                    (Map.get (trim_space k.before) placeholders) (missing (trim_space k.before))
                    (g (trim_space k.before))
                    (λ value q.
                      get-AllEntries (λ key value. braces value ≡ 0) (trim_space k.before) value
                        placeholders q plain)
                    (omega (arith, split, split')))
          ]
    ]

    rounds-end :
        (missing : Text → Text → Expansion)
        → ((text key : Text) → good (missing text key) ≡ true)
        → ((text : Text) → is_some (find_pair b'{' text) ≡ false → good (expanded text) ≡ true)
        → (fuel : ℕ) (text : Text) → braces text < fuel
        → ends good (rounds fuel placeholders missing text) ≡ true
    unfolding rounds
    rounds-end missing g whole zero text l = absurd (omega arith)
    rounds-end missing g whole (suc fuel) text l =
        let moved = round-Advances (missing text) text (g text) (whole text) in
        elim (Round-cases (round placeholders (missing text) text)) [
          | inl (e, q) ↦ rw (ends, q) (subst (Advances (braces text)) q moved)
          | inr (t, q) ↦
              let less : braces t < braces text = subst (Advances (braces text)) q moved in
              rw (ends, q) (rounds-end missing g whole fuel t (omega (arith, less, l)))
        ]

-- If no placeholder's value has an opening brace, both expansions end, after at most one round for each
-- opening brace of the text and one more; and what expandString gives, if it gives a text, has no
-- placeholder left.
pub expansions-end :
    (value : Text) (placeholders : Map Text)
    → IsPlain placeholders
    → (ends is_resolved (expand_string value placeholders) ≡ true)
      × (is_some (expand_known_string value placeholders) ≡ true)
unfolding expand_string expand_known_string
expansions-end value placeholders plain = (
  rounds-end is_resolved placeholders plain refl (λ text key. unresolved key) (λ text key. refl)
      (λ text e. ground arith) (suc (braces value)) value (omega arith),
  ends-is_some (λ e. true) (expand_known_string value placeholders)
      (rounds-end (λ e. true) placeholders plain refl (λ text key. expanded text) (λ text key. refl)
        (λ text e. refl) (suc (braces value)) value (omega arith)),
)
