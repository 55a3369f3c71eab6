-- ===== src/Api/Reports/Bodies.antt =====
-- The bodies of the pages of internal/api/report_handler.go: what is written from <body> on. The head,
-- which is the same text on every page of a kind, is not modelled.
use parser_go.Prelude.{Text, text, List, [], ◌∷◌, ◌++◌, ◌==◌, if◌then◌else◌, length}
use parser_go.Prelude.Decimal.{format_int}
use parser_go.Clock.{Time}
use parser_go.Api.Names.{escape_html}
use parser_go.Api.Reports.Charts.{collected}
use parser_go.Api.Reports.DetailBody.{detail_body}
use parser_go.Api.Reports.Pages.{
  ReportIndexItem, Page, index_page, detail_page, missing_page, not_ready_page, failed_page,
  expired_page, error_page,
}

-- The body of writeMissingReport's page.
unfoldable pub missing_body : Text
missing_body = collected (
    text "<body>\n"
    ∷ text "    <div class=\"error-code\">404</div>\n"
    ∷ text "    <h1>Report Not Found</h1>\n"
    ∷ text "    <p>The requested analysis report does not exist or has been removed.<br>\n"
    ∷ text "    Please check the report ID and try again.</p>\n"
    ∷ text "    <a href=\"/reports\" class=\"back-link\">View All Reports</a>\n"
    ∷ text "</body>\n"
    ∷ text "</html>"
    ∷ [])

-- The body of writeNotReadyReport's page.
unfoldable pub not_ready_body : Text → Text
not_ready_body job_id = collected (
    text "<body>\n"
    ∷ text "    <div class=\"status-icon\">&#9203;</div>\n"
    ∷ text "    <h1>Analysis In Progress</h1>\n"
    ∷ text "    <p>The analysis <span class=\"job-id\">"
    ∷ job_id
    ∷ text "</span> is still running.<br>\n"
    ∷ text
        "    Please wait a moment and refresh this page, or check the job status via the API.</p>\n"
    ∷ text "    <a href=\"/reports/"
    ∷ job_id
    ∷ text "\" class=\"refresh-link\">Refresh Page</a>\n"
    ∷ text "    <br>\n"
    ∷ text "    <a href=\"/reports\" class=\"back-link\">View All Reports</a>\n"
    ∷ text "</body>\n"
    ∷ text "</html>"
    ∷ [])

-- The body of writeFailedReport's page.
unfoldable pub failed_body : Text → Text → Text
failed_body job_id message = collected (
    text "<body>\n"
    ∷ text "    <div class=\"status-icon\">&#10060;</div>\n"
    ∷ text "    <h1>Analysis Failed</h1>\n"
    ∷ text "    <p>The analysis <span class=\"job-id\">"
    ∷ job_id
    ∷ text "</span> could not be completed.</p>\n"
    ∷ text "    <div class=\"error-box\">"
    ∷ message
    ∷ text "</div>\n"
    ∷ text "    <p>Please check your input data and try again with a valid log file.</p>\n"
    ∷ text "    <a href=\"/reports\" class=\"back-link\">View All Reports</a>\n"
    ∷ text "</body>\n"
    ∷ text "</html>"
    ∷ [])

-- The body of writeExpiredReport's page.
unfoldable pub expired_body : Text → Text
expired_body job_id = collected (
    text "<body>\n"
    ∷ text "    <div class=\"status-icon\">&#9209;</div>\n"
    ∷ text "    <h1>Report Expired</h1>\n"
    ∷ text "    <p>The analysis <span class=\"job-id\">"
    ∷ job_id
    ∷ text "</span> has expired and is no longer available.<br>\n"
    ∷ text "    Please submit a new analysis if you need an updated report.</p>\n"
    ∷ text "    <a href=\"/reports\" class=\"back-link\">View All Reports</a>\n"
    ∷ text "</body>\n"
    ∷ text "</html>"
    ∷ [])

-- The body of writeError's page.
unfoldable pub error_body : Text → Text
error_body message = collected (
    text "<body>\n"
    ∷ text "    <h1>Error</h1>\n"
    ∷ text "    <p>"
    ∷ message
    ∷ text "</p>\n"
    ∷ text "</body>\n"
    ∷ text "</html>"
    ∷ [])

-- The printing of an item's time, in the machine's time zone, is the argument.
module _ (created : Time → Text) where
  -- An item of generateReportIndexHTML's list.
  unfoldable pub write_item : ReportIndexItem → Text
  unfolding escape_html
  write_item i = collected (
      text "        <li class=\"report-item\">\n"
      ∷ text "            <a href=\"/reports/"
      ∷ escape_html i.id
      ∷ text "\" class=\"report-link\">\n"
      ∷ text "                <div class=\"report-id\">"
      ∷ escape_html i.id
      ∷ text "</div>\n"
      ∷ text "                <div class=\"report-meta\">Created: "
      ∷ escape_html (created i.created_at)
      ∷ text "</div>\n"
      ∷ text "            </a>\n"
      ∷ text "        </li>\n"
      ∷ [])

  unfoldable pub write_items : List ReportIndexItem → Text
  unfolding write_item
  write_items [] = []
  write_items (i ∷ is) = write_item i ++ write_items is

  -- The list, or a text that it is empty.
  unfoldable pub write_list : List ReportIndexItem → Text
  unfolding write_items
  write_list reports =
      let items = write_items reports in
      if length reports == 0
      then collected (
          text "    <div class=\"empty-state\">\n"
          ∷ text "        <div class=\"empty-state-icon\">&#128196;</div>\n"
          ∷ text "        <div class=\"empty-state-title\">No Reports Yet</div>\n"
          ∷ text "        <div class=\"empty-state-help\">\n"
          ∷ text
              "            No analysis reports have been generated. Submit a log file for analysis \n"
          ∷ text
              "            using the API at <code>POST /v1/analyses</code> to create your first report.\n"
          ∷ text "        </div>\n"
          ∷ text "    </div>\n"
          ∷ [])
      else collected (
          text "    <div class=\"report-count\">"
          ∷ format_int (length reports)
          ∷ text " report(s) available</div>\n"
          ∷ text "    <ul class=\"report-list\">\n"
          ∷ items
          ∷ text "    </ul>\n"
          ∷ [])

  -- The body of generateReportIndexHTML's page.
  unfoldable pub index_body : List ReportIndexItem → Text
  unfolding write_list escape_html
  index_body reports = collected (
      text "<body>\n"
      ∷ text "    <h1>"
      ∷ escape_html (text "Generated Reports")
      ∷ text "</h1>\n"
      ∷ write_list reports
      ∷ text "</body>\n"
      ∷ text "</html>"
      ∷ [])

  -- The body of a page.
  unfoldable pub body_of : Page → Text
  unfolding index_body detail_body missing_body not_ready_body failed_body expired_body error_body
  body_of (index_page reports) = index_body reports
  body_of (detail_page p) = detail_body p
  body_of missing_page = missing_body
  body_of (not_ready_page job_id) = not_ready_body job_id
  body_of (failed_page job_id message) = failed_body job_id message
  body_of (expired_page job_id) = expired_body job_id
  body_of (error_page message) = error_body message
