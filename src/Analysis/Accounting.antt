-- ===== src/Analysis/Accounting.antt =====
-- What Analyze of internal/analysis/engine.go returns, stated without its loop.
use mathlib.Core.List.{append_assoc, append-nil}
use parser_go.Prelude.{
  ℕ, suc, ◌+◌, Text, Bool, true, false, ◌≡◌, refl, List, [], ◌∷◌, ◌++◌, map, some, arith, any,
  length, length-append, if◌then◌else◌,
}
use parser_go.Analysis.Entry.{Record, Parsed, malformed, filtered, matched}
use parser_go.Analysis.Scanner.{Reader, raw_lines, drop_cr, too_long}
use parser_go.Analysis.Engine.{
  Engine, Analysis, Outcome, ok, err, scan_error, empty_input, no_analysis, tally, parse_line,
  scan_loop, with_input_bytes, analyze, analyze_bytes,
}

-- Each line is matched, filtered or malformed, and each matched line gives a record.
pub record IsBalanced (a : Analysis) : Type 0 where
  pub lines : a.total_lines ≡ a.matched + a.filtered + a.malformed
  pub rows : length a.records ≡ a.matched

tally-IsBalanced : (p : Parsed) (a : Analysis) → IsBalanced a → IsBalanced (tally p a)
tally-IsBalanced malformed a b = omega arith
tally-IsBalanced filtered a b = omega arith
tally-IsBalanced (matched r) a b = omega (arith, length-append {0} a.records (r ∷ []))

scan_loop-IsBalanced :
    (done : ℕ → Bool) (e : Engine) (fails : Bool) (n : ℕ) (lines : List Text) (a b : Analysis)
    → IsBalanced a
    → scan_loop done e fails n lines a ≡ ok b
    → IsBalanced b
unfolding scan_loop
scan_loop-IsBalanced done e true n [] a b v h = cc
scan_loop-IsBalanced done e false n [] a b v h = ground arith
scan_loop-IsBalanced done e fails n (line ∷ lines) a b v h =
    let next = tally (parse_line e (drop_cr line)) a in
    ground (
      arith,
      scan_loop-IsBalanced done e fails (suc n) lines next b
          (tally-IsBalanced (parse_line e (drop_cr line)) a v),
    )

with_bytes-inv :
    (n : ℕ) (o : Outcome Analysis) (a : Analysis)
    → with_input_bytes n o ≡ ok a
    → ((b : Analysis) → o ≡ ok b → IsBalanced b)
    → IsBalanced a × (a.input_bytes ≡ n)
with_bytes-inv n (err x) a h k = cc
with_bytes-inv n (ok b) a h k = let v = k b refl in ground arith

-- If Analyze succeeds, whatever the reader and the context do, each line is counted once, as
-- matched, filtered or malformed, there are as many records as matched lines, and the input bytes
-- are those of the content.
pub analyze-IsBalanced :
    (done : ℕ → Bool) (e : Engine) (r : Reader) (a : Analysis)
    → analyze done e (some r) ≡ ok a
    → IsBalanced a × (a.input_bytes ≡ length r.content)
unfolding analyze
analyze-IsBalanced done e r a h =
    with_bytes-inv (length r.content) _ a h λ b q.
      scan_loop-IsBalanced done e r.fails 0 (raw_lines r.content) no_analysis b (omega arith) q

records_of : List Parsed → List Record
records_of [] = []
records_of (malformed ∷ ps) = records_of ps
records_of (filtered ∷ ps) = records_of ps
records_of (matched r ∷ ps) = r ∷ records_of ps

filtered_of : List Parsed → ℕ
filtered_of [] = 0
filtered_of (malformed ∷ ps) = filtered_of ps
filtered_of (filtered ∷ ps) = suc (filtered_of ps)
filtered_of (matched r ∷ ps) = filtered_of ps

malformed_of : List Parsed → ℕ
malformed_of [] = 0
malformed_of (malformed ∷ ps) = suc (malformed_of ps)
malformed_of (filtered ∷ ps) = malformed_of ps
malformed_of (matched r ∷ ps) = malformed_of ps

-- The results of the lines on top of an analysis.
pub plus_parses : Analysis → List Parsed → Analysis
plus_parses a ps = record a {
  total_lines = a.total_lines + length ps;
  matched = a.matched + length (records_of ps);
  filtered = a.filtered + filtered_of ps;
  malformed = a.malformed + malformed_of ps;
  records = a.records ++ records_of ps;
}

abbrev parses : Engine → List Text → List Parsed
parses e = map (λ line. parse_line e (drop_cr line))

plus_parses-tally :
    (p : Parsed) (ps : List Parsed) (a : Analysis)
    → plus_parses (tally p a) ps ≡ plus_parses a (p ∷ ps)
unfolding plus_parses records_of filtered_of malformed_of
plus_parses-tally malformed ps a = ground arith
plus_parses-tally filtered ps a = ground arith
plus_parses-tally (matched r) ps a = ground (arith, append_assoc a.records (r ∷ []) (records_of ps))

plus_parses-nil : (a : Analysis) → plus_parses a [] ≡ a
unfolding plus_parses records_of filtered_of malformed_of
plus_parses-nil a = ground (arith, append-nil a.records)

scan_loop-eq :
    (e : Engine) (n : ℕ) (lines : List Text) (a : Analysis)
    → scan_loop (λ _. false) e false n lines a
      ≡ (if any too_long lines then err scan_error else ok (plus_parses a (parses e lines)))
unfolding scan_loop
scan_loop-eq e n [] a = ground (arith, plus_parses-nil a)
scan_loop-eq e n (line ∷ lines) a =
    let p = parse_line e (drop_cr line) in
    ground (arith, scan_loop-eq e (suc n) lines (tally p a), plus_parses-tally p (parses e lines) a)

abbrev pub expected : Engine → Text → Analysis
expected e input = record (plus_parses no_analysis (parses e (raw_lines input))) {
  input_bytes = length input;
}

-- While the context is not done, AnalyzeBytes fails on the empty input and on an input with a line
-- of 1024*1024 bytes or more, and on no other; otherwise it returns the tally of its lines and the
-- records of the matched ones, in order.
pub analyze_bytes_lem :
    (e : Engine) (c : ℕ) (input : Text)
    → (analyze_bytes (λ _. false) e [] ≡ err empty_input)
      × (analyze_bytes (λ _. false) e (c ∷ input) ≡ (
          if any too_long (raw_lines (c ∷ input))
          then err scan_error
          else ok (expected e (c ∷ input))))
unfolding analyze_bytes
analyze_bytes_lem e c input =
    (refl, ground (arith, scan_loop-eq e 0 (raw_lines (c ∷ input)) no_analysis))
