-- ===== src/Analysis/Engine.antt =====
-- NewEngine, Analyze and AnalyzeBytes of internal/analysis/engine.go.
use parser_go.Prelude.{
  ℕ, suc, ◌+◌, Text, text, text_eq, Bool, false, Option, none, some, List, [], ◌∷◌, ◌++◌,
  if◌then◌else◌, length,
}
use parser_go.Analysis.Entry.{Record, Parsed, malformed, filtered, matched, parse_combined_log}
use parser_go.Analysis.Scanner.{Reader, raw_lines, drop_cr, too_long}

-- The constants of type Format and Profile.
abbrev pub format_caddy : Text
format_caddy = text "caddy"

abbrev pub format_combined : Text
format_combined = text "combined"

abbrev pub profile_default : Text
profile_default = text "default"

pub record Engine : Type 0 where
  pub format : Text
  pub profile : Text

-- The errors by their causes. Their texts are built by fmt.Errorf and reach no client.
pub data AnalysisError : Type 0 where
  format_required profile_required : AnalysisError
  unsupported_format unsupported_profile : Text → AnalysisError
  nil_reader cancelled scan_error empty_input : AnalysisError

pub data Outcome {ℓ} (A : Type ℓ) : Type ℓ where
  ok : A → Outcome A
  err : AnalysisError → Outcome A

-- NewEngine
unfoldable pub new_engine : Text → Text → Outcome Engine
new_engine format profile =
    if text_eq format format_combined
    then if text_eq profile profile_default
      then ok (record { format = format; profile = profile })
      else if text_eq profile []
      then err profile_required
      else err (unsupported_profile profile)
    else if text_eq format []
    then err format_required
    else err (unsupported_format format)

-- analysis.Result
pub record Analysis : Type 0 where
  pub input_bytes : ℕ
  pub total_lines : ℕ
  pub matched : ℕ
  pub filtered : ℕ
  pub malformed : ℕ
  pub records : List Record

abbrev pub no_analysis : Analysis
no_analysis = record {
  input_bytes = 0;
  total_lines = 0;
  matched = 0;
  filtered = 0;
  malformed = 0;
  records = [];
}

-- parseLine
unfoldable pub parse_line : Engine → Text → Parsed
parse_line e line = if text_eq e.format format_combined then parse_combined_log line else malformed

-- One round of the loop in Analyze, from the line's parse.
abbrev pub tally : Parsed → Analysis → Analysis
tally malformed a = record a { total_lines = a.total_lines + 1; malformed = a.malformed + 1 }
tally filtered a = record a { total_lines = a.total_lines + 1; filtered = a.filtered + 1 }
tally (matched r) a = record a {
  total_lines = a.total_lines + 1;
  matched = a.matched + 1;
  records = a.records ++ r ∷ [];
}

-- The loop: `done n` tells whether the context is done when line n has been scanned.
unfoldable pub scan_loop : (ℕ → Bool) → Engine → Bool → ℕ → List Text → Analysis → Outcome Analysis
scan_loop done e fails n [] a = if fails then err scan_error else ok a
scan_loop done e fails n (line ∷ lines) a =
    let next = scan_loop done e fails (suc n) lines (tally (parse_line e (drop_cr line)) a) in
    if too_long line then err scan_error else if done n then err cancelled else next

abbrev pub with_input_bytes : ℕ → Outcome Analysis → Outcome Analysis
with_input_bytes n (ok a) = ok (record a { input_bytes = n })
with_input_bytes n (err x) = err x

-- Engine.Analyze
unfoldable pub analyze : (ℕ → Bool) → Engine → Option Reader → Outcome Analysis
unfolding scan_loop raw_lines
analyze done e none = err nil_reader
analyze done e (some r) =
    with_input_bytes (length r.content)
      (scan_loop done e r.fails 0 (raw_lines r.content) no_analysis)

-- Engine.AnalyzeBytes: a bytes.Reader does not fail.
unfoldable pub analyze_bytes : (ℕ → Bool) → Engine → Text → Outcome Analysis
unfolding analyze
analyze_bytes done e [] = err empty_input
analyze_bytes done e (c ∷ input) =
    analyze done e (some (record { content = c ∷ input; fails = false }))
