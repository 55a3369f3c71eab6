-- ===== src/Api/Reports/Charts.antt =====
-- The chart of ranked requests of internal/api/report_handler.go: what it shows, and how it is written as SVG.
-- Counts are natural numbers, so the tests for negative ones have no case here.
use parser_go.Prelude.{
  ℕ, suc, ◌+◌, ◌*◌, Text, text, List, [], ◌∷◌, ◌++◌, ltb, ◌==◌, ◌&&◌, if◌then◌else◌, length,
}
use parser_go.Prelude.Decimal.{format_int}
use parser_go.Float.{Floats}
use parser_go.Summary.Compute.{Summary, RankedRequest}
use parser_go.Api.Names.{escape_html}
use parser_go.Api.Reports.Labels.{truncate_label, limit_ranked_requests, top_request_chart_limit}

-- What a strings.Builder has collected.
abbrev pub collected : List Text → Text
collected [] = []
collected (s ∷ ss) = s ++ collected ss

-- U+2022 in UTF-8
abbrev bullet : Text
bullet = 226 ∷ 128 ∷ 162 ∷ []

-- A row of the chart of ranked requests.
pub record Bar (F : Type 0) : Type 0 where
  pub y : ℕ
  pub width : ℕ
  pub request : RankedRequest F

abbrev pub bar_start_x : ℕ
bar_start_x = 280

abbrev pub bar_width : ℕ
bar_width = 330

abbrev pub row_height : ℕ
row_height = 48

abbrev pub top_padding : ℕ
top_padding = 44

abbrev pub bottom_margin : ℕ
bottom_margin = 26

module _ {F : Type 0} (fl : Floats F) where
  -- int(float64(part) / float64(whole) * float64(width))
  unfoldable pub share : ℕ → ℕ → ℕ → ℕ
  share part whole width =
      fl.trunc (fl.mul (fl.div (fl.of_int part) (fl.of_int whole)) (fl.of_int width))

  -- The width of a row's bar.
  unfoldable pub bar_width_of : ℕ → ℕ → ℕ
  unfolding share
  bar_width_of max_count count =
      let width = share count max_count bar_width in if ltb 0 count && ltb width 6 then 6 else width

  unfoldable pub bars_from : ℕ → ℕ → List (RankedRequest F) → List (Bar F)
  unfolding bar_width_of
  bars_from max_count index [] = []
  bars_from max_count index (r ∷ rs) =
      record {
        y = top_padding + index * row_height;
        width = bar_width_of max_count r.count;
        request = r;
      }
      ∷ bars_from max_count (suc index) rs

  abbrev pub max_count_of : List (RankedRequest F) → ℕ
  max_count_of [] = 1
  max_count_of (r ∷ rs) = if r.count == 0 then 1 else r.count

  -- The bars of renderTopRequestsChart.
  unfoldable pub top_request_bars : List (RankedRequest F) → List (Bar F)
  unfolding bars_from limit_ranked_requests
  top_request_bars requests =
      let ranked = limit_ranked_requests requests top_request_chart_limit in
      bars_from (max_count_of ranked) 0 ranked

  -- renderTopRequestsChart's texts for a row.
  unfoldable pub write_bar : Bar F → Text
  unfolding escape_html truncate_label
  write_bar b = collected (
      text "<text x=\"20\" y=\""
      ∷ format_int (b.y + 17)
      ∷ text "\">"
      ∷ escape_html (truncate_label (b.request.method ++ (text " " ++ b.request.path)) 32)
      ∷ text "</text>"
      ∷ text "<rect x=\"280\" y=\""
      ∷ format_int b.y
      ∷ text "\" width=\"330\" height=\"22\" rx=\"6\" fill=\"#e2e8f0\"></rect>"
      ∷ text "<rect x=\"280\" y=\""
      ∷ format_int b.y
      ∷ text "\" width=\""
      ∷ format_int b.width
      ∷ text "\" height=\"22\" rx=\"6\" fill=\"#2563eb\"></rect>"
      ∷ text "<text class=\"svg-value\" x=\""
      ∷ format_int (bar_start_x + b.width + 12)
      ∷ text "\" y=\""
      ∷ format_int (b.y + 17)
      ∷ text "\">"
      ∷ format_int b.request.count
      ∷ text " "
      ∷ bullet
      ∷ text " "
      ∷ fl.fixed1 b.request.percentage
      ∷ text "%</text>"
      ∷ [])

  unfoldable pub write_bars : List (Bar F) → Text
  unfolding write_bar
  write_bars [] = []
  write_bars (b ∷ bs) = write_bar b ++ write_bars bs

  -- The chart with its bars, from the number of ranked requests.
  unfoldable pub write_chart : ℕ → List (Bar F) → Text
  unfolding write_bars
  write_chart total bars =
      if total == 0
      then text "<p class=\"no-data\">No ranked request data is available for chart rendering.</p>"
      else collected (
          text "<svg class=\"chart-svg\" viewBox=\"0 0 760 "
          ∷ format_int (top_padding + length bars * row_height + bottom_margin)
          ∷ text
              "\" role=\"img\" aria-labelledby=\"request-share-chart-title request-share-chart-desc\">"
          ∷ text "<title id=\"request-share-chart-title\">Top request share</title>"
          ∷ text "<desc id=\"request-share-chart-desc\">Bar chart showing the top "
          ∷ format_int (length bars)
          ∷ text " ranked requests by frequency.</desc>"
          ∷ write_bars bars
          ∷ text "</svg>"
          ∷ text "<p class=\"chart-note\">Showing the top "
          ∷ format_int (length bars)
          ∷ text " ranked request rows from "
          ∷ format_int total
          ∷ text " total.</p>"
          ∷ [])

  -- renderTopRequestsChart
  unfoldable pub render_top_requests_chart : Summary F → Text
  unfolding top_request_bars write_chart
  render_top_requests_chart sum =
      write_chart (length sum.ranked_requests) (top_request_bars sum.ranked_requests)
