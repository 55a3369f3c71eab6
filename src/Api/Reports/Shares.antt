-- ===== src/Api/Reports/Shares.antt =====
-- The chart of ranked requests of internal/api/report_handler.go, for the summaries of
-- internal/summary/summary.go, and the lines that the other chart shows.
use mathlib.Core.List.{Perm}
use parser_go.Prelude.{
  ℕ, zero, suc, ◌+◌, ◌*◌, ◌<◌, ◌≤◌, Bool, ◌≡◌, ◌⊎◌, refl, ap, sym, ◌∙◌, some, take-all, leb→le,
  List, [], ◌∷◌, map, arith, take, length, leb, ◌==◌, Bool-cases, inl, inr, if◌then◌else◌,
}
use parser_go.Prelude.Sorting.{IsSorted, NoneBefore}
use parser_go.Float.{Floats}
use parser_go.Analysis.Scanner.{Reader}
use parser_go.Analysis.Engine.{Engine, Analysis, analyze, ok}
use parser_go.Analysis.Accounting.{analyze-IsBalanced}
use parser_go.Summary.Counts.{Count, count_records}
use parser_go.Summary.Compute.{RankedRequest, compute, ranks_before}
use parser_go.Summary.Ranking.{ranked_requests-IsSorted}
use parser_go.Api.Reports.Labels.{limit_ranked_requests, top_request_chart_limit}
use parser_go.Api.Reports.Bars.{IsLaid, segments_of, not_empty, line_blocks-IsLaid}
use parser_go.Api.Reports.Charts.{
  Bar, bar_width, top_padding, row_height, bar_width_of, bars_from, top_request_bars, share,
}
use parser_go.Api.Reports.Lines.{bar_x, stack_width, blocks_from, values, line_segments}

-- What the widths need of floating point, with `below` for <= of numbers that are not negative: a
-- quotient of a number by one that is not smaller is at most 1, a product with such a factor is at most
-- the other factor, and the integer part of what is at most an integer is at most that integer.
pub record IsMonotone {F : Type 0} (fl : Floats F) (below : F → F → Type 0) : Type 0 where
  pub div_le : (m n : ℕ) → m ≤ n → 0 < n → below (fl.div (fl.of_int m) (fl.of_int n)) (fl.of_int 1)
  pub mul_le :
      (x : F) (n : ℕ) → below x (fl.of_int 1) → below (fl.mul x (fl.of_int n)) (fl.of_int n)
  pub trunc_le : (x : F) (n : ℕ) → below x (fl.of_int n) → fl.trunc x ≤ n

module _ {F : Type 0} where
  -- Bars from a row on: each is on its row, is not wider than the frame, and is at least 6 wide if the
  -- request was counted.
  abbrev pub FitFrame : ℕ → List (Bar F) → Type 0
  FitFrame i [] = Unit {0}
  FitFrame i (b ∷ bs) =
      (b.y ≡ top_padding + i * row_height)
      × (b.width ≤ bar_width)
      × ((b.request.count ≡ 0) ⊎ (6 ≤ b.width))
      × FitFrame (suc i) bs

  abbrev pub requests_of : List (Bar F) → List (RankedRequest F)
  requests_of [] = []
  requests_of (b ∷ bs) = b.request ∷ requests_of bs

  -- No count is above a bound.
  abbrev Bounded : ℕ → List (RankedRequest F) → Type 0
  Bounded n [] = Unit {0}
  Bounded n (r ∷ rs) = (r.count ≤ n) × Bounded n rs

  Bounded-take : (n k : ℕ) (rs : List (RankedRequest F)) → Bounded n rs → Bounded n (take k rs)
  Bounded-take n zero rs b = tt
  Bounded-take n (suc k) [] b = tt
  Bounded-take n (suc k) (r ∷ rs) b = (b.0, Bounded-take n k rs b.1)

  Bounded-le : (m n : ℕ) (rs : List (RankedRequest F)) → m ≤ n → Bounded m rs → Bounded n rs
  Bounded-le m n [] l b = tt
  Bounded-le m n (r ∷ rs) l b = (omega (arith, b.0), Bounded-le m n rs l b.1)

  limit_lem :
      (rs : List (RankedRequest F)) → limit_ranked_requests rs top_request_chart_limit ≡ take 6 rs
  unfolding limit_ranked_requests
  limit_lem rs = elim (Bool-cases (leb (length rs) 6)) [
    | inl e ↦ rw e (sym (take-all 6 rs (leb→le (length rs) 6 e)))
    | inr e ↦ rw e refl
  ]

module _ {F : Type 0} (fl : Floats F) where
  NoneBefore-Bounded :
      (r : RankedRequest F) (rs : List (RankedRequest F))
      → NoneBefore (ranks_before fl) r rs
      → Bounded r.count rs
  unfolding ranks_before
  NoneBefore-Bounded r [] n = tt
  NoneBefore-Bounded r (s ∷ ss) n = (ground arith, NoneBefore-Bounded r ss n.1)

  module _ {below : F → F → Type 0} (mono : IsMonotone fl below) where
    share-le : (m n w : ℕ) → m ≤ n → 0 < n → share fl m n w ≤ w
    unfolding share
    share-le m n w l p = mono.trunc_le _ w (mono.mul_le _ w (mono.div_le m n l p))

    bar_width_of-fits :
        (n count : ℕ)
        → count ≤ n
        → 0 < n
        → (bar_width_of fl n count ≤ bar_width) × ((count ≡ 0) ⊎ (6 ≤ bar_width_of fl n count))
    unfolding bar_width_of
    bar_width_of-fits n count l p = (
      ground (arith, share-le count n bar_width l p),
      ground (arith, share-le count n bar_width l p),
    )

    bars_from-FitFrame :
        (n i : ℕ) (rs : List (RankedRequest F))
        → 0 < n
        → Bounded n rs
        → FitFrame i (bars_from fl n i rs)
    unfolding bars_from
    bars_from-FitFrame n i [] p b = tt
    bars_from-FitFrame n i (r ∷ rs) p b =
        let fits = bar_width_of-fits n r.count b.0 p in
        (refl, fits.0, fits.1, bars_from-FitFrame n (suc i) rs p b.1)

    top_request_bars-FitFrame :
        (rs : List (RankedRequest F))
        → IsSorted (ranks_before fl) rs
        → FitFrame 0 (top_request_bars fl rs)
    unfolding top_request_bars bars_from
    top_request_bars-FitFrame [] s = tt
    top_request_bars-FitFrame (r ∷ rs) s = rw (limit_lem (r ∷ rs)) (
        bars_from-FitFrame (if r.count == 0 then 1 else r.count) 0 (take 6 (r ∷ rs)) (ground arith)
          (Bounded-le r.count _ (take 6 (r ∷ rs)) (ground arith)
            (Bounded-take r.count 6 (r ∷ rs) (omega arith, NoneBefore-Bounded r rs s.0))))

  requests_of-bars_from :
      (n i : ℕ) (rs : List (RankedRequest F)) → requests_of (bars_from fl n i rs) ≡ rs
  unfolding bars_from
  requests_of-bars_from n i [] = refl
  requests_of-bars_from n i (r ∷ rs) = ap (λ l. r ∷ l) (requests_of-bars_from n (suc i) rs)

  requests_of-top_request_bars :
      (rs : List (RankedRequest F)) → requests_of (top_request_bars fl rs) ≡ take 6 rs
  unfolding top_request_bars
  requests_of-top_request_bars rs =
      requests_of-bars_from _ 0 (limit_ranked_requests rs top_request_chart_limit) ∙ limit_lem rs

-- Where the order of iteration permutes the counts and floating point is monotone, the chart of a
-- summary has one bar for each of its first six ranked requests, in order, each on its own row, none
-- wider than the frame, and none under 6 wide for a request that was counted.
pub ranked_bars-FitFrame :
    {F : Type 0} (fl : Floats F) {below : F → F → Type 0} (order : List Count → List Count)
    (a : Analysis)
    → IsMonotone fl below
    → Perm (order (count_records a.records)) (count_records a.records)
    → FitFrame 0 (top_request_bars fl (compute fl order a).ranked_requests)
      × (requests_of (top_request_bars fl (compute fl order a).ranked_requests)
          ≡ take 6 (compute fl order a).ranked_requests)
ranked_bars-FitFrame fl order a mono p = (
  top_request_bars-FitFrame fl mono (compute fl order a).ranked_requests
      (ranked_requests-IsSorted fl order a p),
  requests_of-top_request_bars fl (compute fl order a).ranked_requests,
)

-- The line chart of a successful analysis, whatever floating point gives for the shares: the lines that
-- it shows add up to the lines of the input, those it calls unmatched are the malformed ones, and the
-- parts of its bar are those of the kinds of lines of which there are any, in order, side by side from
-- the bar's start; none goes beyond the bar's end, and one that does not reach it is at least 4 wide.
pub line_chart_lem :
    {F : Type 0} (fl : Floats F) (order : List Count → List Count) (done : ℕ → Bool) (e : Engine)
    (r : Reader) (a : Analysis)
    → analyze done e (some r) ≡ ok a
    → let segments = line_segments (compute fl order a) in
      (values segments ≡ a.total_lines)
      × (map (λ s. s.value) segments ≡ a.matched ∷ a.filtered ∷ a.malformed ∷ [])
      × IsLaid bar_x (bar_x + stack_width) (blocks_from fl (values segments) bar_x segments)
      × (segments_of (blocks_from fl (values segments) bar_x segments) ≡ not_empty segments)
unfolding line_segments compute
line_chart_lem fl order done e r a h =
    let b = (analyze-IsBalanced done e r a h).0 in
    let laid = line_blocks-IsLaid fl (compute fl order a) in
    (
      omega (arith, b.lines),
      ap (λ u. a.matched ∷ a.filtered ∷ u ∷ []) (omega (arith, b.lines)),
      laid.0,
      laid.1,
    )
