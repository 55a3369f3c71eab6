-- ===== src/Analysis/RoundTrip.antt =====
-- A line that is written in the combined format is parsed back into its record.
use parser_go.Prelude.{
  ℕ, ◌≤◌, Text, text, text_eq, true, false, ◌≡◌, inl, refl, ap, some, [], ◌∷◌, ◌++◌, arith, all,
  if◌then◌else◌, length,
}
use parser_go.Prelude.Decimal.{
  is_digit, format_int, decimal-format_int, all-format_int, length-format_int_pos,
}
use parser_go.Clock.{Time}
use parser_go.Analysis.Line.{Groups, is_space, not_space, not_bracket}
use parser_go.Analysis.Line.Pattern.{Run, Stops, Matches}
use parser_go.Analysis.Line.Match.{match_line_complete}
use parser_go.Analysis.Timestamp.{parse_timestamp}
use parser_go.Analysis.Entry.{
  matched, filtered, parse_combined_log, parse_int, parse_size, should_filter, max_int64,
}

abbrev blank : Text
blank = 32 ∷ []

-- The groups as a line of the log, with `tail` behind them: the referrer and the user agent.
pub format_line : Groups → Text → Text
format_line g tail =
    g.remote
    ++ (blank
        ++ (g.ident
            ++ (blank
                ++ (g.auth
                    ++ (blank
                        ++ (b'['
                            ∷ (g.timestamp
                                ++ (b']'
                                    ∷ (blank
                                        ++ (b'"'
                                            ∷ (g.method
                                                ++ (blank
                                                    ++ (g.path
                                                        ++ (blank
                                                            ++ (g.protocol
                                                            ++ (b'"'
                                                            ∷ (blank
                                                            ++ (g.status
                                                            ++ (blank
                                                            ++ (g.size ++ tail))))))))))))))))))))

-- The groups can be read back from the line: no group is empty or has white space in it, the
-- timestamp has no bracket and may have blanks, the numbers are digits.
pub record IsPrintable (g : Groups) : Type 0 where
  pub remote : Run not_space g.remote
  pub ident : Run not_space g.ident
  pub auth : Run not_space g.auth
  pub timestamp : Run not_bracket g.timestamp
  pub method : Run not_space g.method
  pub path : Run not_space g.path
  pub protocol : Run not_space g.protocol
  pub status : Run is_digit g.status
  pub size : Run is_digit g.size

blank-Run : Run is_space blank
blank-Run = record { some_byte = λ e. cc; in_class = refl }

format_line-Matches :
    (g : Groups) (tail : Text)
    → IsPrintable g
    → Stops is_digit tail
    → Matches (format_line g tail) g
unfolding format_line
format_line-Matches g tail v st = record {
  s1 = _;
  s2 = _;
  s3 = _;
  s4 = _;
  s5 = _;
  s6 = _;
  s7 = _;
  s8 = _;
  remote = record { gap = blank; shape = refl; word = v.remote; space = blank-Run };
  ident = record { gap = blank; shape = refl; word = v.ident; space = blank-Run };
  auth = record { gap = blank; shape = refl; word = v.auth; space = blank-Run };
  timestamp = record { gap = blank; shape = refl; word = v.timestamp; space = blank-Run };
  method = record { gap = blank; shape = refl; word = v.method; space = blank-Run };
  path = record { gap = blank; shape = refl; word = v.path; space = blank-Run };
  protocol = record { gap = blank; shape = refl; word = v.protocol; space = blank-Run };
  status = record { gap = blank; shape = refl; word = v.status; space = blank-Run };
  size = record { tail = tail; shape = refl; choice = inl (v.size, st) };
}

format_int-Run : (n : ℕ) → Run is_digit (format_int n)
format_int-Run n = record {
  some_byte = λ e. absurd (omega (arith, length-format_int_pos n, ap length e));
  in_class = all-format_int n;
}

parse_int-format_int : (n : ℕ) → n ≤ max_int64 → parse_int (format_int n) ≡ some n
unfolding parse_int
parse_int-format_int n h = ground (arith, decimal-format_int n)

digits-ne-dash : (s : Text) → all is_digit s ≡ true → text_eq s (text "-") ≡ false
unfolding text text_eq
digits-ne-dash [] h = refl
digits-ne-dash (c ∷ []) h = ground arith
digits-ne-dash (c ∷ d ∷ s) h = ground arith

parse_size-format_int : (n : ℕ) → n ≤ max_int64 → parse_size (format_int n) ≡ n
unfolding parse_size
parse_size-format_int n h =
    ground (arith, digits-ne-dash (format_int n) (all-format_int n), decimal-format_int n)

-- A record as it is written, with the groups of the line that a record does not keep.
pub record Entry : Type 0 where
  pub remote : Text
  pub ident : Text
  pub auth : Text
  pub timestamp : Text
  pub method : Text
  pub path : Text
  pub protocol : Text
  pub status : ℕ
  pub size : ℕ

abbrev pub groups : Entry → Groups
groups e = record {
  remote = e.remote;
  ident = e.ident;
  auth = e.auth;
  timestamp = e.timestamp;
  method = e.method;
  path = e.path;
  protocol = e.protocol;
  status = format_int e.status;
  size = format_int e.size;
}

pub record IsWritable (e : Entry) : Type 0 where
  pub remote : Run not_space e.remote
  pub ident : Run not_space e.ident
  pub auth : Run not_space e.auth
  pub timestamp : Run not_bracket e.timestamp
  pub method : Run not_space e.method
  pub path : Run not_space e.path
  pub protocol : Run not_space e.protocol
  pub status : e.status ≤ max_int64
  pub size : e.size ≤ max_int64

IsWritable-IsPrintable : {e : Entry} → IsWritable e → IsPrintable (groups e)
IsWritable-IsPrintable {e} v = record {
  remote = v.remote;
  ident = v.ident;
  auth = v.auth;
  timestamp = v.timestamp;
  method = v.method;
  path = v.path;
  protocol = v.protocol;
  status = format_int-Run e.status;
  size = format_int-Run e.size;
}

-- A line written from an entry whose texts are not empty, have no white space (the timestamp: no
-- bracket) and whose numbers fit an int64, with any tail that does not go on with a digit, is
-- parsed back into the entry's time, method, path, status and size, or filtered if its path is,
-- when the timestamp can be read.
pub parse_combined_log-format_line :
    (e : Entry) (tail : Text) (t : Time)
    → IsWritable e
    → Stops is_digit tail
    → parse_timestamp e.timestamp ≡ some t
    → parse_combined_log (format_line (groups e) tail) ≡ (
        if should_filter e.path
        then filtered
        else matched (record {
          timestamp = t;
          method = e.method;
          path = e.path;
          status = e.status;
          size = e.size;
        }))
unfolding parse_combined_log
parse_combined_log-format_line e tail t v st h = rw (
  match_line_complete _ _ (format_line-Matches (groups e) tail (IsWritable-IsPrintable v) st),
  h,
  parse_int-format_int e.status v.status,
  parse_size-format_int e.size v.size,
)
