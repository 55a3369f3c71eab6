-- ===== src/Summary/Compute.antt =====
-- Compute of internal/summary/summary.go.
use mathlib.Core.List.{get_last?, head?}
use parser_go.Prelude.{
  ℕ, ◌*◌, ◌/◌, ◌%◌, Text, Bool, Option, none, some, List, map, ltb, leb, not, ◌&&◌, if◌then◌else◌,
  length,
}
use parser_go.Prelude.Sorting.{sort}
use parser_go.Clock.{is_zero, sub, second}
use parser_go.Float.{Floats}
use parser_go.Analysis.Entry.{Record}
use parser_go.Analysis.Engine.{Analysis}
use parser_go.Summary.Counts.{Count, count_records}
use parser_go.Summary.Rank.{before_by}

pub record RankedRequest (F : Type 0) : Type 0 where
  pub path : Text
  pub method : Text
  pub count : ℕ
  pub percentage : F

pub record Summary (F : Type 0) : Type 0 where
  pub input_bytes : ℕ
  pub total_lines : ℕ
  pub matched_lines : ℕ
  pub filtered_lines : ℕ
  pub row_count : ℕ
  pub requests_total : ℕ
  pub requests_per_sec : F
  pub ranked_requests : List (RankedRequest F)

module _ {F : Type 0} (fl : Floats F) where
  -- duration.Seconds()
  unfoldable pub seconds : ℕ → F
  seconds d = fl.add (fl.of_int (d / second)) (fl.div (fl.of_int (d % second)) (fl.of_int second))

  unfoldable pub rate : ℕ → Option Record → Option Record → F
  unfolding seconds
  rate total none last = fl.of_int 0
  rate total (some first) none = fl.of_int 0
  rate total (some first) (some last) =
      let duration = sub last.timestamp first.timestamp in
      if not (is_zero first.timestamp) && (not (is_zero last.timestamp) && ltb 0 duration)
      then fl.div (fl.of_int total) (seconds duration)
      else fl.of_int 0

  unfoldable pub requests_per_sec : ℕ → List Record → F
  unfolding rate
  requests_per_sec total records =
      if leb 2 (length records) then rate total (head? records) (get_last? records) else fl.of_int 0

  -- The entry that Compute appends for a key and its count.
  unfoldable pub ranked : ℕ → Count → RankedRequest F
  ranked total c = record {
    path = c.path;
    method = c.method;
    count = c.count;
    percentage =
        if ltb 0 total then fl.div (fl.of_int (c.count * 100)) (fl.of_int total) else fl.of_int 0;
  }

  unfoldable pub ranks_before : RankedRequest F → RankedRequest F → Bool
  unfolding before_by
  ranks_before a b = before_by a.count a.path a.method b.count b.path b.method

  -- Compute. `order` is the order in which Go happens to iterate over the map of counts.
  unfoldable pub compute : (List Count → List Count) → Analysis → Summary F
  unfolding requests_per_sec ranked ranks_before sort count_records
  compute order a = record {
    input_bytes = a.input_bytes;
    total_lines = a.total_lines;
    matched_lines = a.matched;
    filtered_lines = a.filtered;
    row_count = length a.records;
    requests_total = a.matched;
    requests_per_sec = requests_per_sec a.matched a.records;
    ranked_requests = sort ranks_before (map (ranked a.matched) (order (count_records a.records)));
  }

  -- Compute with its error, which a nil result gives.
  unfoldable pub compute_result : (List Count → List Count) → Option Analysis → Option (Summary F)
  compute_result order none = none
  compute_result order (some a) = some (compute order a)
