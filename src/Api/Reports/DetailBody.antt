-- ===== src/Api/Reports/DetailBody.antt =====
-- The body of the detail page of internal/api/report_handler.go, generateReportDetailHTML: what is written
-- from <body> on. The head, which is the same text on every such page, is not modelled.
use parser_go.Prelude.{Text, text, List, [], ◌∷◌, ◌++◌}
use parser_go.Api.Reports.Charts.{collected}
use parser_go.Api.Reports.Pages.{Row, DetailPage}

-- A row of generateReportDetailHTML's table.
unfoldable pub write_row : Row → Text
write_row r = collected (
    text "                <tr>\n"
    ∷ text "                    <td class=\"rank\">"
    ∷ r.rank
    ∷ text "</td>\n"
    ∷ text "                    <td class=\"method\"><span class=\"method-badge "
    ∷ r.method_class
    ∷ text "\">"
    ∷ r.method
    ∷ text "</span></td>\n"
    ∷ text "                    <td class=\"path\">"
    ∷ r.path
    ∷ text "</td>\n"
    ∷ text "                    <td class=\"count\">"
    ∷ r.count
    ∷ text "</td>\n"
    ∷ text "                    <td class=\"percentage\">"
    ∷ r.percentage
    ∷ text "</td>\n"
    ∷ text "                </tr>\n"
    ∷ [])

unfoldable pub write_rows : List Row → Text
unfolding write_row
write_rows [] = []
write_rows (r ∷ rs) = write_row r ++ write_rows rs

-- The table, or a text that there is none.
unfoldable pub write_table : List Row → Text
unfolding write_rows
write_table [] =
    text "        <p class=\"no-data\">No request data available for this analysis.</p>\n"
write_table (r ∷ rs) = collected (
    text "        <div class=\"top-requests-table-wrap\">\n"
    ∷ text "        <table>\n"
    ∷ text "            <thead>\n"
    ∷ text "                <tr>\n"
    ∷ text "                    <th class=\"rank\">Rank</th>\n"
    ∷ text "                    <th class=\"method\">Method</th>\n"
    ∷ text "                    <th>Path</th>\n"
    ∷ text "                    <th class=\"count\">Count</th>\n"
    ∷ text "                    <th class=\"percentage\">%</th>\n"
    ∷ text "                </tr>\n"
    ∷ text "            </thead>\n"
    ∷ text "            <tbody>\n"
    ∷ write_rows (r ∷ rs)
    ∷ text "            </tbody>\n"
    ∷ text "        </table>\n"
    ∷ text "</div>\n"
    ∷ [])

-- generateOptionalDatasetsHTML
unfoldable pub optional_datasets : Text
optional_datasets = collected (
    text
      "    <section class=\"optional-datasets-section\" aria-labelledby=\"optional-datasets-title\">\n"
    ∷ text
        "        <h2 id=\"optional-datasets-title\" class=\"top-requests-title\">Optional Datasets</h2>\n"
    ∷ text "        <div class=\"optional-datasets-grid\">\n"
    ∷ text "            <article class=\"optional-dataset-card\">\n"
    ∷ text
        "                <h3 class=\"optional-dataset-label\">Latency breakdown unavailable</h3>\n"
    ∷ text
        "                <span class=\"optional-dataset-status dataset-state-unavailable\">Unavailable</span>\n"
    ∷ text
        "                <p class=\"optional-dataset-note\">This report input does not include per-request latency data, so no latency distribution can be rendered.</p>\n"
    ∷ text "            </article>\n"
    ∷ text "            <article class=\"optional-dataset-card\">\n"
    ∷ text
        "                <h3 class=\"optional-dataset-label\">Per-second request chart disabled</h3>\n"
    ∷ text
        "                <span class=\"optional-dataset-status dataset-state-disabled\">Disabled</span>\n"
    ∷ text
        "                <p class=\"optional-dataset-note\">This self-contained report includes aggregate rate metrics only and does not embed per-second request buckets.</p>\n"
    ∷ text "            </article>\n"
    ∷ text "        </div>\n"
    ∷ text "    </section>\n"
    ∷ [])

-- generateChartsHTML, from the two charts
unfoldable pub charts : Text → Text → Text
charts top breakdown = collected (
    text "    <div class=\"charts-grid\">\n"
    ∷ text "        <section class=\"chart-card\">\n"
    ∷ text "            <h2 class=\"chart-title\">Top Request Share</h2>\n"
    ∷ text
        "            <p class=\"chart-help\">Self-contained inline SVG rendered from the report summary with no external scripts or data fetches.</p>\n"
    ∷ text "            "
    ∷ top
    ∷ text "\n"
    ∷ text "        </section>\n"
    ∷ text "        <section class=\"chart-card\">\n"
    ∷ text "            <h2 class=\"chart-title\">Line Processing Breakdown</h2>\n"
    ∷ text
        "            <p class=\"chart-help\">Matched, filtered, and remaining lines shown directly from workload accounting data embedded in the report.</p>\n"
    ∷ text "            "
    ∷ breakdown
    ∷ text "\n"
    ∷ text "        </section>\n"
    ∷ text "    </div>\n"
    ∷ [])

-- The body of generateReportDetailHTML's page.
unfoldable pub detail_body : DetailPage → Text
unfolding charts optional_datasets write_table
detail_body p = collected (
    text "<body>\n"
    ∷ text "    <a href=\"/reports\" class=\"back-link\">&larr; Back to Reports</a>\n"
    ∷ text "    <h1>Analysis Report</h1>\n"
    ∷ text "    <div class=\"report-id\">"
    ∷ p.job_id
    ∷ text " <span class=\"badge badge-success\">completed</span></div>\n"
    ∷ text "\n"
    ∷ text "    <div class=\"summary-section\">\n"
    ∷ text "        <h2 class=\"summary-title\">Core Metrics</h2>\n"
    ∷ text "        <div class=\"metrics-grid\">\n"
    ∷ text "            <div class=\"metric-card\">\n"
    ∷ text "                <div class=\"metric-value\">"
    ∷ p.requests_total
    ∷ text "</div>\n"
    ∷ text "                <div class=\"metric-label\">Total Requests</div>\n"
    ∷ text "            </div>\n"
    ∷ text "            <div class=\"metric-card alt\">\n"
    ∷ text "                <div class=\"metric-value\">"
    ∷ p.requests_per_sec
    ∷ text "</div>\n"
    ∷ text "                <div class=\"metric-label\">Requests/sec</div>\n"
    ∷ text "            </div>\n"
    ∷ text "            <div class=\"metric-card alt2\">\n"
    ∷ text "                <div class=\"metric-value\">"
    ∷ p.total_lines
    ∷ text "</div>\n"
    ∷ text "                <div class=\"metric-label\">Total Lines</div>\n"
    ∷ text "            </div>\n"
    ∷ text "            <div class=\"metric-card alt3\">\n"
    ∷ text "                <div class=\"metric-value\">"
    ∷ p.matched_lines
    ∷ text "</div>\n"
    ∷ text "                <div class=\"metric-label\">Matched Lines</div>\n"
    ∷ text "            </div>\n"
    ∷ text "        </div>\n"
    ∷ text "        <div class=\"workload-stats\">\n"
    ∷ text "            <h3>Workload Accounting</h3>\n"
    ∷ text "            <div class=\"stats-grid\">\n"
    ∷ text "                <div class=\"stat-item\">\n"
    ∷ text "                    <span class=\"stat-label\">Input Size:</span>\n"
    ∷ text "                    <span class=\"stat-value\">"
    ∷ p.input_size
    ∷ text "</span>\n"
    ∷ text "                </div>\n"
    ∷ text "                <div class=\"stat-item\">\n"
    ∷ text "                    <span class=\"stat-label\">Filtered Lines:</span>\n"
    ∷ text "                    <span class=\"stat-value\">"
    ∷ p.filtered_lines
    ∷ text "</span>\n"
    ∷ text "                </div>\n"
    ∷ text "                <div class=\"stat-item\">\n"
    ∷ text "                    <span class=\"stat-label\">Unique Requests:</span>\n"
    ∷ text "                    <span class=\"stat-value\">"
    ∷ p.unique_requests
    ∷ text "</span>\n"
    ∷ text "                </div>\n"
    ∷ text "                <div class=\"stat-item\">\n"
    ∷ text "                    <span class=\"stat-label\">Duration:</span>\n"
    ∷ text "                    <span class=\"stat-value\">"
    ∷ p.duration
    ∷ text "</span>\n"
    ∷ text "                </div>\n"
    ∷ text "            </div>\n"
    ∷ text "        </div>\n"
    ∷ text "    </div>\n"
    ∷ text "\n"
    ∷ text "    "
    ∷ charts p.top_requests_chart p.line_breakdown_chart
    ∷ text "\n"
    ∷ text "    "
    ∷ optional_datasets
    ∷ text "\n"
    ∷ text "\n"
    ∷ text "    <div class=\"top-requests-section\">\n"
    ∷ text "        <h2 class=\"top-requests-title\">Top Requests by Frequency</h2>\n"
    ∷ text "        <p class=\"top-requests-help\">"
    ∷ p.cap_message
    ∷ text "</p>\n"
    ∷ write_table p.rows
    ∷ text "    </div>\n"
    ∷ text "</body>\n"
    ∷ text "</html>"
    ∷ [])
