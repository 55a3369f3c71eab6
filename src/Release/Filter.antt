-- ===== src/Release/Filter.antt =====
-- filterTrackedFiles and includePath of internal/releasecandidate/releasecandidate.go. On the systems
-- for which the program is built, filepath.ToSlash changes nothing.
use parser_go.Prelude.{
  Text, text, text_eq, text_lt, has_prefix, has_suffix, Bool, true, false, ◌||◌, not, List, [], ◌∷◌,
  ◌++◌, any, if◌then◌else◌,
}
use parser_go.Prelude.Sorting.{sort}
use parser_go.Api.Space.{trim_space}

-- excludedPrefixes
abbrev pub excluded_prefixes : List Text
excluded_prefixes =
    text ".factory/"
    ∷ text ".tools/"
    ∷ text "benchmark/results/"
    ∷ text "build/"
    ∷ text "dist/"
    ∷ text "evidence/"
    ∷ text "temp/"
    ∷ text "tmp/"
    ∷ text "wiki/"
    ∷ text "work/"
    ∷ text "workspace/"
    ∷ []

-- excludedPaths
abbrev pub excluded_paths : List Text
excluded_paths =
    text ".DS_Store"
    ∷ text "benchmark/results"
    ∷ text "build"
    ∷ text "dist"
    ∷ text "HOMELAB_LOG_SOURCES.md"
    ∷ text "Thumbs.db"
    ∷ text "temp"
    ∷ text "tmp"
    ∷ text "work"
    ∷ text "workspace"
    ∷ text "internal/bench/evidence_committed_test.go"
    ∷ []

-- excludedExactPrefixes
abbrev pub excluded_exact_prefixes : List Text
excluded_exact_prefixes = text "cmd/releasecandidate/" ∷ text "internal/releasecandidate/" ∷ []

abbrev pub excluded_suffixes : List Text
excluded_suffixes = text "~" ∷ text ".swp" ∷ text ".swo" ∷ text ".temp" ∷ text ".tmp" ∷ []

-- includePath
unfoldable pub include_path : Text → Bool
include_path rel =
    if any (text_eq rel) excluded_paths
    then false
    else if any (has_prefix rel) excluded_prefixes
    then false
    else if any (has_prefix rel) excluded_exact_prefixes
    then false
    else if any (has_suffix rel) excluded_suffixes
    then false
    else true

-- includesFile
unfoldable pub includes_file : List Text → Text → Bool
includes_file [] target = false
includes_file (path ∷ paths) target =
    if text_eq path target then true else includes_file paths target

-- The loop of filterTrackedFiles; `seen` has the paths that are included already.
unfoldable pub filter_loop : List Text → List Text → List Text
unfolding include_path includes_file trim_space
filter_loop seen [] = []
filter_loop seen (rel ∷ tracked) =
    let normalized = trim_space rel in
    let skipped = filter_loop seen tracked in
    let taken = filter_loop (normalized ∷ seen) tracked in
    if text_eq normalized [] || not (include_path normalized)
    then skipped
    else if includes_file seen normalized
    then skipped
    else normalized ∷ taken

-- filterTrackedFiles
unfoldable pub filter_tracked_files : List Text → List Text
unfolding filter_loop sort
filter_tracked_files tracked = sort text_lt (filter_loop [] tracked)

abbrev starred : List Text → List Text
starred [] = []
starred (p ∷ ps) = (p ++ text "*") ∷ starred ps

-- exclusionRules, in which `order` is the order in which Go iterates over the map of excluded paths
unfoldable pub exclusion_rules : (List Text → List Text) → List Text
unfolding sort
exclusion_rules order = sort text_lt (
    starred excluded_prefixes
    ++ (starred excluded_exact_prefixes
        ++ (order excluded_paths
            ++ text "*~" ∷ text "*.swp" ∷ text "*.swo" ∷ text "*.temp" ∷ text "*.tmp" ∷ [])))
