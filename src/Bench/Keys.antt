-- ===== src/Bench/Keys.antt =====
-- The sets of strings of internal/bench/fairness_runtime.go.
use parser_go.Prelude.{
  Text, text, text_eq, text_lt, not, List, [], ◌∷◌, ◌++◌, if◌then◌else◌, any, keep_if,
}
use parser_go.Prelude.Sorting.{sort}
use parser_go.Api.Space.{trim_space}
use parser_go.Bench.Types.{IterationMetric}

-- A set of strings, which the source keeps as a map's keys.
abbrev add_key : Text → List Text → List Text
add_key k keys = if any (text_eq k) keys then keys else k ∷ keys

abbrev pub key_set : (IterationMetric → Text) → List IterationMetric → List Text
key_set f [] = []
key_set f (m ∷ ms) = add_key (f m) (key_set f ms)

-- strings.Join with a comma
abbrev join_comma : List Text → Text
join_comma [] = []
join_comma (k ∷ []) = k
join_comma (k ∷ l ∷ ks) = k ++ (text "," ++ join_comma (l ∷ ks))

-- joinKeys
unfoldable pub join_keys : List Text → Text
join_keys keys = join_comma (sort text_lt (keep_if (λ k. not (text_eq (trim_space k) [])) keys))

-- The loop of dedupeStrings, which keeps the first of equal strings.
unfoldable pub dedupe_loop : List Text → List Text → List Text
dedupe_loop seen [] = []
dedupe_loop seen (v ∷ vs) =
    let value = trim_space v in
    let skipped = dedupe_loop seen vs in
    let kept = value ∷ dedupe_loop (value ∷ seen) vs in
    if text_eq value [] then skipped else if any (text_eq value) seen then skipped else kept

-- dedupeStrings
unfoldable pub dedupe_strings : List Text → List Text
unfolding dedupe_loop
dedupe_strings values = sort text_lt (dedupe_loop [] values)
