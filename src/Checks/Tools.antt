-- ===== src/Checks/Tools.antt =====
-- The theorems on internal/bench/run.go and internal/releasecandidate at concrete inputs.
use parser_go.Prelude.{Text, text, true, ◌≡◌, refl, List, [], ◌∷◌, is_some}
use parser_go.Prelude.Map.{Map}
use parser_go.Bench.Placeholders.{expand_string, expand_known_string}
use parser_go.Bench.Expansions.{IsPlain, ends, is_resolved, expansions-end}
use parser_go.Release.Filter.{filter_tracked_files, includes_file}
use parser_go.Release.Files.{wanted, IsIncreasing, filter_tracked_files_lem}

abbrev placeholders : Map Text
placeholders =
    record { key = text "repo_root"; value = text "/srv/repo" }
    ∷ record { key = text "output"; value = text "out.json" }
    ∷ []

no_braces : IsPlain placeholders
unfolding text
no_braces = (refl, (refl, tt))

expansions-end_example :
    (ends is_resolved (expand_string (text "{{ repo_root }}/{{output}}") placeholders) ≡ true)
    × (is_some (expand_known_string (text "{{ repo_root }}/{{output}}") placeholders) ≡ true)
expansions-end_example = expansions-end (text "{{ repo_root }}/{{output}}") placeholders no_braces

abbrev tracked : List Text
tracked = text "go.mod" ∷ text "build/x" ∷ text " go.mod" ∷ text "a.swp" ∷ text "cmd/main.go" ∷ []

filter_tracked_files_lem_example :
    (includes_file (filter_tracked_files tracked) (text "go.mod") ≡ wanted tracked (text "go.mod"))
    × IsIncreasing (filter_tracked_files tracked)
filter_tracked_files_lem_example = filter_tracked_files_lem tracked (text "go.mod")
