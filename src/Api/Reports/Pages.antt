-- ===== src/Api/Reports/Pages.antt =====
-- The handlers of internal/api/report_handler.go and what their pages show. The fixed markup and the
-- style sheets are not modelled, nor is the printing of an item's time, which depends on the machine's
-- time zone.
use parser_go.Prelude.{
  ℕ, suc, ◌+◌, Text, text, text_eq, text_lt, trim_prefix, split, Bool, Option, none, some, List, [],
  ◌∷◌, ◌++◌, ltb, ◌==◌, ◌&&◌, not, if◌then◌else◌, length, is_some,
}
use parser_go.Prelude.Decimal.{format_int}
use parser_go.Prelude.Sorting.{sort}
use parser_go.Clock.{Time, second}
use parser_go.Float.{Floats}
use parser_go.Job.{
  Job, JobError, State, queued, running, succeeded, failed, expired, unset, is_succeeded,
}
use parser_go.Job.Store
use parser_go.Summary.Compute.{Summary, RankedRequest}
use parser_go.Api.Http.{Request}
use parser_go.Api.Names.{is_valid_job_id, escape_html}
use parser_go.Api.Handler.{Handler}
use parser_go.Api.Jobs.{expire_eligible_jobs}
use parser_go.Api.Detail.{is_get, stored_summary}
use parser_go.Api.Reports.Labels.{
  visible_top_request_row_limit, limit_ranked_requests, top_request_cap_message, format_bytes,
  format_duration,
}
use parser_go.Api.Reports.Charts.{render_top_requests_chart}
use parser_go.Api.Reports.Lines.{render_line_breakdown_chart}

-- ReportIndexItem
pub record ReportIndexItem : Type 0 where
  pub id : Text
  pub created_at : Time
  pub state : State

-- A row of the table of ranked requests.
pub record Row : Type 0 where
  pub rank : Text
  pub method_class : Text
  pub method : Text
  pub path : Text
  pub count : Text
  pub percentage : Text

-- What generateReportDetailHTML puts into its page.
pub record DetailPage : Type 0 where
  pub job_id : Text
  pub requests_total : Text
  pub requests_per_sec : Text
  pub total_lines : Text
  pub matched_lines : Text
  pub input_size : Text
  pub filtered_lines : Text
  pub unique_requests : Text
  pub duration : Text
  pub top_requests_chart : Text
  pub line_breakdown_chart : Text
  pub cap_message : Text
  pub rows : List Row

pub data Page : Type 0 where
  -- the list of the reports; without one, a text that says so
  index_page : List ReportIndexItem → Page
  detail_page : DetailPage → Page
  missing_page : Page
  not_ready_page : Text → Page
  failed_page : Text → Text → Page
  expired_page : Text → Page
  error_page : Text → Page

pub record PageResponse : Type 0 where
  pub status : ℕ
  pub page : Page

abbrev pub show : ℕ → Page → PageResponse
show status page = record { status = status; page = page }

-- writeError
unfoldable pub page_error : ℕ → Text → PageResponse
unfolding escape_html
page_error status message = show status (error_page (escape_html message))

-- writeMissingReport
abbrev pub missing_report : PageResponse
missing_report = show 404 missing_page

-- writeNotReadyReport
unfoldable pub not_ready_report : Text → PageResponse
unfolding escape_html
not_ready_report job_id = show 409 (not_ready_page (escape_html job_id))

abbrev pub failure_text : Option JobError → Text
failure_text none = text "Analysis failed"
failure_text (some e) =
    if text_eq e.message [] then text "Analysis failed" else escape_html e.message

-- writeFailedReport
unfoldable pub failed_report_page : Text → Option JobError → PageResponse
unfolding escape_html
failed_report_page job_id error = show 409 (failed_page (escape_html job_id) (failure_text error))

-- writeExpiredReport
unfoldable pub expired_report : Text → PageResponse
unfolding escape_html
expired_report job_id = show 410 (expired_page (escape_html job_id))

-- sortReportIndexItems: newest first, and by ID where the times are equal.
unfoldable pub listed_before : ReportIndexItem → ReportIndexItem → Bool
listed_before a b =
    if a.created_at == b.created_at then text_lt a.id b.id else ltb b.created_at a.created_at

abbrev pub method_class : Text → Text
method_class method =
    if text_eq method (text "GET")
    then text "method-get"
    else if text_eq method (text "POST")
    then text "method-post"
    else if text_eq method (text "PUT")
    then text "method-put"
    else if text_eq method (text "DELETE")
    then text "method-delete"
    else text "method-other"

abbrev pub item_of : Job → ReportIndexItem
item_of j = record { id = j.id; created_at = j.created_at; state = j.state }

module _ {F : Type 0} where
  abbrev pub has_report : Handler F → Job → Bool
  has_report h j = is_succeeded j.state && is_some (stored_summary j.id h)

  -- The loop of handleReportsIndex over the jobs that Store.List returned.
  unfoldable pub reports_of : Handler F → List Job → List ReportIndexItem
  unfolding stored_summary
  reports_of h [] = []
  reports_of h (j ∷ js) =
      let rest = reports_of h js in if has_report h j then item_of j ∷ rest else rest

  -- handleReportsIndex
  unfoldable pub handle_reports_index : Time → Request → Handler F → Handler F × PageResponse
  unfolding expire_eligible_jobs reports_of sort listed_before page_error
  handle_reports_index now r h0 =
      let h = expire_eligible_jobs now h0 in
      if not (is_get r)
      then (h0, page_error 405 (text "method not allowed"))
      else (h, show 200 (index_page (sort listed_before (reports_of h (Store.list h.job_store)))))

module _ {F : Type 0} (fl : Floats F) where
  -- The duration that generateReportDetailHTML shows, in nanoseconds.
  unfoldable pub shown_duration : Summary F → ℕ
  shown_duration sum =
      if fl.is_positive sum.requests_per_sec
      then fl.trunc
          (fl.div (fl.mul (fl.of_int second) (fl.of_int sum.requests_total)) sum.requests_per_sec)
      else 0

  unfoldable pub rows_from : ℕ → List (RankedRequest F) → List Row
  unfolding escape_html
  rows_from i [] = []
  rows_from i (r ∷ rs) =
      record {
        rank = format_int (i + 1);
        method_class = method_class r.method;
        method = escape_html r.method;
        path = escape_html r.path;
        count = format_int r.count;
        percentage = fl.fixed1 r.percentage ++ text "%";
      }
      ∷ rows_from (suc i) rs

  -- generateReportDetailHTML
  unfoldable pub report_detail : Text → Summary F → DetailPage
  unfolding shown_duration rows_from escape_html format_bytes format_duration limit_ranked_requests
      top_request_cap_message render_top_requests_chart render_line_breakdown_chart
  report_detail job_id sum =
      let visible = limit_ranked_requests sum.ranked_requests visible_top_request_row_limit in
      record {
        job_id = escape_html job_id;
        requests_total = format_int sum.requests_total;
        requests_per_sec = fl.fixed2 sum.requests_per_sec;
        total_lines = format_int sum.total_lines;
        matched_lines = format_int sum.matched_lines;
        input_size = format_bytes fl sum.input_bytes;
        filtered_lines = format_int sum.filtered_lines;
        unique_requests = format_int sum.row_count;
        duration = format_duration fl (shown_duration sum);
        top_requests_chart = render_top_requests_chart fl sum;
        line_breakdown_chart = render_line_breakdown_chart fl sum;
        cap_message = escape_html (
            top_request_cap_message (length sum.ranked_requests) (length visible)
              visible_top_request_row_limit);
        rows = rows_from 0 visible;
      }

  abbrev pub summary_page : Text → Option (Summary F) → PageResponse
  summary_page job_id none = missing_report
  summary_page job_id (some sum) = show 200 (detail_page (report_detail job_id sum))

  abbrev pub job_page : Text → Handler F → Option Job → PageResponse
  job_page job_id h none = missing_report
  job_page job_id h (some j) = elim j.state [
    | succeeded ↦ summary_page job_id (stored_summary job_id h)
    | queued ↦ not_ready_report job_id
    | running ↦ not_ready_report job_id
    | failed ↦ failed_report_page job_id j.error
    | expired ↦ expired_report job_id
    | unset ↦ missing_report
  ]

  abbrev pub path_page : Handler F → List Text → PageResponse
  path_page h [] = missing_report
  path_page h (job_id ∷ rest) =
      if text_eq job_id []
      then missing_report
      else if not (is_valid_job_id job_id)
      then missing_report
      else job_page job_id h (Store.get job_id h.job_store)

  -- handleReportDetail
  unfoldable pub handle_report_detail : Time → Request → Handler F → Handler F × PageResponse
  unfolding expire_eligible_jobs report_detail not_ready_report failed_report_page expired_report
      page_error stored_summary
  handle_report_detail now r h0 =
      let h = expire_eligible_jobs now h0 in
      if not (is_get r)
      then (h0, page_error 405 (text "method not allowed"))
      else (h, path_page h (split b'/' (trim_prefix r.path (text "/reports/"))))
