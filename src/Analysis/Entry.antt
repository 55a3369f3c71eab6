-- ===== src/Analysis/Entry.antt =====
-- One line of a log: parseCombinedLog and shouldFilter of internal/analysis/engine.go.
use parser_go.Prelude.{
  ℕ, ◌^◌, ◌-◌, Text, text, text_eq, has_prefix, Bool, ◌||◌, Option, none, some, List, [], ◌∷◌, ◌++◌,
  leb, if◌then◌else◌, any,
}
use parser_go.Prelude.Decimal.{decimal}
use parser_go.Clock.{Time}
use parser_go.Analysis.Line.{Groups, match_line}
use parser_go.Analysis.Timestamp.{parse_timestamp}

-- analysis.Record
pub record Record : Type 0 where
  pub timestamp : Time
  pub method : Text
  pub path : Text
  pub status : ℕ
  pub size : ℕ

abbrev pub max_int64 : ℕ
max_int64 = 2 ^ 63 - 1

-- strconv.Atoi and strconv.ParseInt(s, 10, 64) on a run of digits
unfoldable pub parse_int : Text → Option ℕ
parse_int s = let n = decimal 0 s in if leb n max_int64 then some n else none

-- "-" and a number that does not fit give 0
unfoldable pub parse_size : Text → ℕ
unfolding parse_int
parse_size s = if text_eq s (text "-") then 0 else elim (parse_int s) [ none ↦ 0 | some n ↦ n ]

abbrev pub health_paths : List Text
health_paths =
    text "/health"
    ∷ text "/healthz"
    ∷ text "/readyz"
    ∷ text "/ping"
    ∷ text "/alive"
    ∷ text "/_health"
    ∷ []

-- shouldFilter
unfoldable pub should_filter : Text → Bool
should_filter path = any (λ f. text_eq path f || has_prefix path (f ++ text "/")) health_paths

-- The three results of parseLine: (nil, err), (nil, nil) and (rec, nil).
pub data Parsed : Type 0 where
  malformed filtered : Parsed
  matched : Record → Parsed

unfoldable pub record_of : Groups → Option Time → Option ℕ → Parsed
record_of g none status = malformed
record_of g (some timestamp) none = malformed
record_of g (some timestamp) (some status) =
    if should_filter g.path
    then filtered
    else matched (record {
      timestamp = timestamp;
      method = g.method;
      path = g.path;
      status = status;
      size = parse_size g.size;
    })

abbrev pub parse_groups : Option Groups → Parsed
parse_groups none = malformed
parse_groups (some g) = record_of g (parse_timestamp g.timestamp) (parse_int g.status)

-- parseCombinedLog
unfoldable pub parse_combined_log : Text → Parsed
unfolding record_of
parse_combined_log line = parse_groups (match_line line)
