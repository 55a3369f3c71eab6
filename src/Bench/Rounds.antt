-- ===== src/Bench/Rounds.antt =====
-- The order in which the implementations run: internal/bench/fairness_runtime.go.
use parser_go.Prelude.{
  ℕ, ◌%◌, Text, text, Bool, true, false, not, List, [], ◌∷◌, if◌then◌else◌, ◌==◌,
}
use parser_go.Api.Space.{trim_space}

abbrev last_or : ℕ → List ℕ → ℕ
last_or d [] = d
last_or d (c ∷ s) = last_or c s

-- scenarioStartsWithBaseline. `sum256` gives the 32 bytes of sha256.Sum256.
unfoldable pub scenario_starts_with_baseline : (Text → Text) → Text → Bool
scenario_starts_with_baseline sum256 scenario_id =
    last_or 0 (sum256 (trim_space scenario_id)) % 2 == 0

abbrev pub order_of : Bool → List Text
order_of true = text "baseline" ∷ text "rewrite" ∷ []
order_of false = text "rewrite" ∷ text "baseline" ∷ []

-- executionOrderForRound
unfoldable pub execution_order_for_round : (Text → Text) → Text → ℕ → List Text
unfolding scenario_starts_with_baseline
execution_order_for_round sum256 scenario_id round =
    let start = scenario_starts_with_baseline sum256 scenario_id in
    order_of (if round % 2 == 0 then not start else start)
