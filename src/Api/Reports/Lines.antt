-- ===== src/Api/Reports/Lines.antt =====
-- renderLineBreakdownChart of internal/api/report_handler.go: what it shows, and how it is written as
-- SVG. Counts are natural numbers, so the tests for negative ones have no case here.
use parser_go.Prelude.{ℕ, ◌+◌, ◌-◌, Text, text, List, [], ◌∷◌, ◌++◌, ltb, ◌==◌, if◌then◌else◌}
use parser_go.Prelude.Decimal.{format_int}
use parser_go.Float.{Floats}
use parser_go.Summary.Compute.{Summary}
use parser_go.Api.Names.{escape_html}
use parser_go.Api.Reports.Charts.{collected, share}

-- A kind of lines, with its name in the chart and in the style sheet, and its colour.
pub record Segment : Type 0 where
  pub label : Text
  pub class : Text
  pub value : ℕ
  pub fill : Text

-- A part of the stacked bar.
pub record Block : Type 0 where
  pub x : ℕ
  pub width : ℕ
  pub segment : Segment

abbrev pub bar_x : ℕ
bar_x = 20

abbrev pub stack_width : ℕ
stack_width = 700

-- The segments of renderLineBreakdownChart.
unfoldable pub line_segments : {F : Type 0} → Summary F → List Segment
line_segments sum =
    record {
      label = text "Matched";
      class = text "matched";
      value = sum.matched_lines;
      fill = text "#2563eb";
    }
    ∷ record {
      label = text "Filtered";
      class = text "filtered";
      value = sum.filtered_lines;
      fill = text "#f59e0b";
    }
    ∷ record {
      label = text "Unmatched";
      class = text "unmatched";
      value = sum.total_lines - sum.matched_lines - sum.filtered_lines;
      fill = text "#94a3b8";
    }
    ∷ []

abbrev pub values : List Segment → ℕ
values [] = 0
values (s ∷ ss) = s.value + values ss

unfoldable pub write_block : Block → Text
unfolding escape_html
write_block b =
    collected (
      text "<rect x=\""
      ∷ format_int b.x
      ∷ text "\" y=\"44\" width=\""
      ∷ format_int b.width
      ∷ text "\" height=\"28\" rx=\"8\" fill=\""
      ∷ b.segment.fill
      ∷ text "\"></rect>"
      ∷ [])
    ++ (if ltb 78 b.width
        then collected (
            text "<text class=\"svg-value\" x=\""
            ∷ format_int (b.x + 10)
            ∷ text "\" y=\"62\">"
            ∷ escape_html b.segment.label
            ∷ text "</text>"
            ∷ [])
        else [])

unfoldable pub write_blocks : List Block → Text
unfolding write_block
write_blocks [] = []
write_blocks (b ∷ bs) = write_block b ++ write_blocks bs

unfoldable pub write_legend : List Segment → Text
unfolding escape_html
write_legend [] = []
write_legend (s ∷ ss) =
    collected (
      text "<li><span class=\"legend-swatch legend-"
      ∷ s.class
      ∷ text "\"></span>"
      ∷ escape_html s.label
      ∷ text " lines: "
      ∷ format_int s.value
      ∷ text "</li>"
      ∷ [])
    ++ write_legend ss

module _ {F : Type 0} (fl : Floats F) where
  -- The width of a part that begins at x: at least 4, and not beyond the end of the bar.
  unfoldable pub block_width : ℕ → ℕ → ℕ → ℕ
  unfolding share
  block_width total x value =
      let width = share fl value total stack_width in
      let width' = if ltb width 4 then 4 else width in
      if ltb (bar_x + stack_width) (x + width') then bar_x + stack_width - x else width'

  -- The loop of renderLineBreakdownChart, from x on.
  unfoldable pub blocks_from : ℕ → ℕ → List Segment → List Block
  unfolding block_width
  blocks_from total x [] = []
  blocks_from total x (s ∷ ss) =
      let width = block_width total x s.value in
      let rest = blocks_from total (x + width) ss in
      let same = blocks_from total x ss in
      if s.value == 0 then same else record { x = x; width = width; segment = s } ∷ rest

  -- renderLineBreakdownChart
  unfoldable pub render_line_breakdown_chart : Summary F → Text
  unfolding line_segments blocks_from write_blocks write_legend
  render_line_breakdown_chart sum =
      let segments = line_segments sum in
      let total = values segments in
      if total == 0
      then text
          "<p class=\"no-data\">No workload accounting data is available for chart rendering.</p>"
      else collected (
          text
            "<svg class=\"chart-svg\" viewBox=\"0 0 760 120\" role=\"img\" aria-labelledby=\"line-breakdown-chart-title line-breakdown-chart-desc\">"
          ∷ text "<title id=\"line-breakdown-chart-title\">Line processing breakdown</title>"
          ∷ text
              "<desc id=\"line-breakdown-chart-desc\">Stacked bar chart showing matched, filtered, and unmatched lines from the report summary.</desc>"
          ∷ text "<text class=\"svg-axis-label\" x=\"20\" y=\"24\">0</text>"
          ∷ text "<text class=\"svg-axis-label\" x=\"630\" y=\"24\">"
          ∷ escape_html (format_int sum.total_lines)
          ∷ text " total lines</text>"
          ∷ write_blocks (blocks_from total bar_x segments)
          ∷ text "</svg>"
          ∷ text "<ul class=\"chart-legend\">"
          ∷ write_legend segments
          ∷ text "</ul>"
          ∷ [])
