-- ===== src/Checks/Records.antt =====
-- The theorems on internal/analysis and internal/summary at concrete inputs.
use mathlib.Core.List.{Perm, reverse}
use mathlib.Core.List.Permᴰ
use mathlib.Core.List.Perm
use parser_go.Prelude.{
  text, text_eq, has_prefix, true, false, ◌≡◌, ◌↔◌, refl, List, [], ◌∷◌, length, min, any, arith,
  if◌then◌else◌, some,
}
use parser_go.Prelude.Sorting.{InOrder}
use parser_go.Analysis.Line.{Groups, match_line}
use parser_go.Analysis.Line.Pattern.{Matches}
use parser_go.Analysis.Line.Match.{match_line-iff-Matches}
use parser_go.Analysis.Timestamp.{parse_timestamp}
use parser_go.Analysis.Entry.{
  Record, matched, filtered, should_filter, parse_combined_log, parse_size,
}
use parser_go.Analysis.Scanner.{Reader, raw_lines, too_long, drop_cr}
use parser_go.Analysis.Engine.{
  Analysis, ok, err, parse_line, analyze, analyze_bytes, empty_input, scan_error,
}
use parser_go.Analysis.Accounting.{IsBalanced, expected, analyze-IsBalanced, analyze_bytes_lem}
use parser_go.Analysis.Bounds.{
  IsSound, IsHealthPath, health_endpoints, parse_combined_log-IsSound, should_filter_iff,
}
use parser_go.Analysis.RoundTrip.{
  Entry, IsWritable, format_line, groups, parse_combined_log-format_line,
}
use parser_go.Summary.Counts.{Count, count_records, occurrences}
use parser_go.Summary.Compute.{compute}
use parser_go.Summary.Ranking.{
  compute-deterministic, ranked_requests-InOrder, NotAfter, rows_exact, rows_total, rows_sum,
  has_key,
}
use parser_go.Checks.Data.{naturals, engine, log, line_a}

abbrev groups_a : Groups
groups_a = record {
  remote = text "1.2.3.4";
  ident = text "-";
  auth = text "-";
  timestamp = text "10/Oct/2000:13:55:36 -0700";
  method = text "GET";
  path = text "/a";
  protocol = text "HTTP/1.0";
  status = text "200";
  size = text "2326";
}

match_line-iff-Matches_example : (match_line line_a ≡ some groups_a) ↔ Matches line_a groups_a
match_line-iff-Matches_example = match_line-iff-Matches line_a groups_a

-- The line is in the relation.
line_a-groups : match_line line_a ≡ some groups_a
unfolding line_a match_line text
line_a-groups = refl

pub reader : Reader
unfolding log
reader = record { content = log; fails = false }

abbrev record_a : Record
record_a = record {
  timestamp = 63138603336000000000;
  method = text "GET";
  path = text "/a";
  status = 200;
  size = 2326;
}

abbrev pub result : Analysis
result = record {
  input_bytes = 219;
  total_lines = 4;
  matched = 2;
  filtered = 1;
  malformed = 1;
  records = record_a ∷ record_a ∷ [];
}

pub analyzed : analyze (λ _. false) engine (some reader) ≡ ok result
unfolding analyze log reader text parse_size parse_line text_eq parse_combined_log match_line
    drop_cr parse_timestamp should_filter has_prefix
analyzed = refl

analyze-IsBalanced_example : IsBalanced result × (result.input_bytes ≡ length reader.content)
analyze-IsBalanced_example = analyze-IsBalanced (λ _. false) engine reader result analyzed

analyze_bytes_lem_example :
    (analyze_bytes (λ _. false) engine [] ≡ err empty_input)
    × (analyze_bytes (λ _. false) engine (b'x' ∷ log) ≡ (
        if any too_long (raw_lines (b'x' ∷ log))
        then err scan_error
        else ok (expected engine (b'x' ∷ log))))
analyze_bytes_lem_example = analyze_bytes_lem engine b'x' log

line_a-matched : parse_combined_log line_a ≡ matched record_a
unfolding parse_combined_log line_a text parse_size match_line parse_timestamp should_filter text_eq
    has_prefix
line_a-matched = refl

parse_combined_log-IsSound_example : IsSound record_a
parse_combined_log-IsSound_example = parse_combined_log-IsSound line_a record_a line_a-matched

should_filter_iff_example :
    (should_filter (text "/health/db") ≡ true) ↔ IsHealthPath (text "/health/db") health_endpoints
should_filter_iff_example = should_filter_iff (text "/health/db")

abbrev entry : Entry
entry = record {
  remote = text "1.2.3.4";
  ident = text "-";
  auth = text "-";
  timestamp = text "10/Oct/2000:13:55:36 -0700";
  method = text "GET";
  path = text "/a";
  protocol = text "HTTP/1.0";
  status = 200;
  size = 2326;
}

writable : IsWritable entry
unfolding text
writable = record {
  remote = record { some_byte = λ e. cc; in_class = refl };
  ident = record { some_byte = λ e. cc; in_class = refl };
  auth = record { some_byte = λ e. cc; in_class = refl };
  timestamp = record { some_byte = λ e. cc; in_class = refl };
  method = record { some_byte = λ e. cc; in_class = refl };
  path = record { some_byte = λ e. cc; in_class = refl };
  protocol = record { some_byte = λ e. cc; in_class = refl };
  status = omega arith;
  size = omega arith;
}

timestamp-read : parse_timestamp entry.timestamp ≡ some record_a.timestamp
unfolding parse_timestamp text
timestamp-read = refl

parse_combined_log-format_line_example :
    parse_combined_log (format_line (groups entry) [])
    ≡ (if should_filter entry.path then filtered else matched record_a)
parse_combined_log-format_line_example =
    parse_combined_log-format_line entry [] record_a.timestamp writable tt timestamp-read

-- Two iterations of a map of two keys.
abbrev pub both : Analysis
both = record result { records = record_a ∷ record record_a { path = text "/b" } ∷ [] }

abbrev in_order : List Count → List Count
in_order cs = cs

abbrev pub backwards : List Count → List Count
backwards cs = reverse cs

counts-Perm : Perm (in_order (count_records both.records)) (count_records both.records)
counts-Perm = Perm.refl (count_records both.records)

pub backwards-Perm : Perm (backwards (count_records both.records)) (count_records both.records)
backwards-Perm = ∣ Permᴰ.reverse (count_records both.records) ∣₁

compute-deterministic_example : compute naturals in_order both ≡ compute naturals backwards both
compute-deterministic_example =
    compute-deterministic naturals in_order backwards both counts-Perm backwards-Perm

ranked_requests-InOrder_example : InOrder NotAfter (compute naturals backwards both).ranked_requests
ranked_requests-InOrder_example = ranked_requests-InOrder naturals backwards both backwards-Perm

rows_exact_example :
    (rows_sum
        (λ r. if has_key (text "/a") (text "GET") r then 1 else 0)
        (compute naturals backwards both).ranked_requests
      ≡ min 1 (occurrences (text "/a") (text "GET") both.records))
    × (rows_sum
          (λ r. if has_key (text "/a") (text "GET") r then r.count else 0)
          (compute naturals backwards both).ranked_requests
        ≡ occurrences (text "/a") (text "GET") both.records)
rows_exact_example = rows_exact naturals backwards both backwards-Perm (text "/a") (text "GET")

rows_total_example :
    rows_sum (λ r. r.count) (compute naturals backwards both).ranked_requests
    ≡ (compute naturals backwards both).row_count
rows_total_example = rows_total naturals backwards both backwards-Perm
