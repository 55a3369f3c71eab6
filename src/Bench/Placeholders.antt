-- ===== src/Bench/Placeholders.antt =====
-- The placeholders of internal/bench/run.go: expandString and what is built on it.
use parser_go.Prelude.{
  ℕ, zero, suc, Text, text, text_eq, contains, Bool, false, ◌&&◌, ◌||◌, Option, none, some, List,
  [], ◌∷◌, ◌++◌, ◌==◌, if◌then◌else◌,
}
use parser_go.Prelude.Map
use parser_go.Prelude.Map.{Map}
use parser_go.Api.Space.{trim_space}

-- A text around a mark.
pub record Halves : Type 0 where
  pub before : Text
  pub after : Text

abbrev pub prepend : ℕ → Option Halves → Option Halves
prepend c none = none
prepend c (some h) = some (record h { before = c ∷ h.before })

-- The first place where a byte stands twice, which is where strings.Index finds "{{" or "}}".
unfoldable pub find_pair : ℕ → Text → Option Halves
find_pair mark [] = none
find_pair mark (c ∷ []) = none
find_pair mark (c ∷ d ∷ s) =
    let rest = find_pair mark (d ∷ s) in
    if (c == mark) && (d == mark) then some (record { before = []; after = s }) else prepend c rest

-- How expandString or expandKnownString ends.
pub data Expansion : Type 0 where
  expanded : Text → Expansion
  unclosed : Expansion
  unresolved : Text → Expansion

-- One round of the loop: it returns, or goes on with another text.
pub data Round : Type 0 where
  return : Expansion → Round
  again : Text → Round

-- The replacement of a key, which must not be empty.
abbrev pub substitute : Text → Option Text → Text → Expansion → Round
substitute before none after missing = return missing
substitute before (some replacement) after missing =
    if text_eq replacement [] then return missing else again (before ++ (replacement ++ after))

abbrev pub close_round : Map Text → (Text → Expansion) → Text → Option Halves → Round
close_round placeholders missing before none = return unclosed
close_round placeholders missing before (some h) =
    let key = trim_space h.before in
    substitute before (Map.get key placeholders) h.after (missing key)

abbrev pub open_round : Map Text → (Text → Expansion) → Text → Option Halves → Round
open_round placeholders missing text none = return (expanded text)
open_round placeholders missing text (some h) =
    close_round placeholders missing h.before (find_pair b'}' h.after)

unfoldable pub round : Map Text → (Text → Expansion) → Text → Round
unfolding find_pair trim_space
round placeholders missing text = open_round placeholders missing text (find_pair b'{' text)

-- The loop, with fuel; no result means that the fuel is used up.
unfoldable pub rounds : ℕ → Map Text → (Text → Text → Expansion) → Text → Option Expansion
unfolding round
rounds zero placeholders missing text = none
rounds (suc fuel) placeholders missing text = elim (round placeholders (missing text) text) [
  | return e ↦ some e
  | again next ↦ rounds fuel placeholders missing next
]

-- One round of fuel for each opening brace, and one to find that there is none.
abbrev pub braces : Text → ℕ
braces [] = 0
braces (c ∷ s) = if c == b'{' then suc (braces s) else braces s

-- expandString
unfoldable pub expand_string : Text → Map Text → Option Expansion
unfolding rounds
expand_string value placeholders =
    rounds (suc (braces value)) placeholders (λ text key. unresolved key) value

-- expandKnownString: a key that is not known ends the expansion with the text as it is
unfoldable pub expand_known_string : Text → Map Text → Option Expansion
unfolding rounds
expand_known_string value placeholders =
    rounds (suc (braces value)) placeholders (λ text key. expanded text) value

-- placeholderToken
unfoldable pub placeholder_token : Text → Text
placeholder_token key = text "{{" ++ (key ++ text "}}")

-- containsPlaceholder
unfoldable pub contains_placeholder : List Text → Text → Bool
unfolding placeholder_token
contains_placeholder [] key = false
contains_placeholder (value ∷ values) key =
    contains value (placeholder_token key) || contains_placeholder values key
