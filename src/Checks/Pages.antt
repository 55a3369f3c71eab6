-- ===== src/Checks/Pages.antt =====
-- The theorems on the report pages of internal/api at concrete inputs.
use mathlib.Core.List.{Perm}
use mathlib.Core.List.Perm
use parser_go.Prelude.{
  ℕ, Text, List, ◌+◌, text, true, false, not, all, ◌==◌, ◌≡◌, refl, [], ◌∷◌, ◌++◌, map, keep_if,
}
use parser_go.Prelude.Sorting.{InOrder, sort}
use parser_go.Clock.{second}
use parser_go.Job.{is_succeeded}
use parser_go.Job.Store
use parser_go.Summary.Compute.{compute, Summary, RankedRequest}
use parser_go.Api.Jobs.{expire_eligible_jobs}
use parser_go.Api.Detail.{handle_analysis_detail}
use parser_go.Api.Reports.Lines.{bar_x, stack_width, blocks_from, values, line_segments}
use parser_go.Api.Reports.Bars.{IsLaid, segments_of, not_empty}
use parser_go.Api.Reports.Shares.{line_chart_lem}
use parser_go.Api.Reports.Pages.{
  detail_page, report_detail, index_page, show, listed_before, reports_of, item_of,
  handle_reports_index, handle_report_detail,
}
use parser_go.Api.Reports.Index.{ListedFirst, handle_reports_index_lem}
use parser_go.Api.Reports.Bodies.{body_of}
use parser_go.Api.Reports.Markup.{both_detail, body_of-markup}
use parser_go.Api.Reports.Marks.{markup}
use parser_go.Api.Reports.Renamed.{none_left, one_more}
use parser_go.Api.Reports.Agreement.{AnswersLike, report_endpoints-agree}
use parser_go.Checks.Data.{naturals, env, engine}
use parser_go.Checks.Records.{result, backwards, reader, analyzed}
use parser_go.Checks.Scenario.{
  get_request, job_id, begun, finished, world, reached, get-is_get, finished-ready,
}

line_chart_lem_example :
    let segments = line_segments (compute naturals backwards result) in
    (values segments ≡ result.total_lines)
    × (map (λ s. s.value) segments ≡ result.matched ∷ result.filtered ∷ result.malformed ∷ [])
    × IsLaid bar_x (bar_x + stack_width) (blocks_from naturals (values segments) bar_x segments)
    × (segments_of (blocks_from naturals (values segments) bar_x segments) ≡ not_empty segments)
line_chart_lem_example =
    line_chart_lem naturals backwards (λ _. false) engine reader result analyzed

handle_reports_index_lem_example :
    let h = expire_eligible_jobs (begun + second) finished in
    let items = sort listed_before (reports_of h (Store.list h.job_store)) in
    (handle_reports_index (begun + second) (get_request (text "/reports")) finished
      ≡ (h, show 200 (index_page items)))
    × InOrder ListedFirst items
    × Perm items (map item_of (keep_if (λ j. is_succeeded j.state) (Store.list h.job_store)))
handle_reports_index_lem_example =
    handle_reports_index_lem env world (begun + second) (get_request (text "/reports"))
      (Store.list (expire_eligible_jobs (begun + second) finished).job_store) reached get-is_get
      (Perm.refl (Store.list (expire_eligible_jobs (begun + second) finished).job_store))

no_slash : all (λ c. not (c == b'/')) job_id ≡ true
unfolding text
no_slash = refl

report_endpoints-agree_example :
    AnswersLike
      (handle_analysis_detail
        (begun + second)
        (get_request (text "/v1/analyses/" ++ (job_id ++ text "/report")))
        finished).1
      (handle_report_detail naturals
        (begun + second)
        (get_request (text "/reports/" ++ job_id))
        finished).1
    × ((handle_analysis_detail
          (begun + second)
          (get_request (text "/v1/analyses/" ++ (job_id ++ text "/report")))
          finished).0
        ≡ (handle_report_detail naturals
            (begun + second)
            (get_request (text "/reports/" ++ job_id))
            finished).0)
report_endpoints-agree_example =
    report_endpoints-agree naturals env world (begun + second)
      (get_request (text "/reports/" ++ job_id))
      (get_request (text "/v1/analyses/" ++ (job_id ++ text "/report"))) job_id reached
      finished-ready get-is_get get-is_get no_slash refl refl

abbrev ranked : Text → Text → List (RankedRequest ℕ)
ranked method path = record { path = path; method = method; count = 3; percentage = 100 } ∷ []

abbrev counted : Text → Summary ℕ
counted path = record (compute naturals backwards result) {
  ranked_requests = ranked (text "GET") path;
}

body_of-markup_example :
    markup (
      body_of
        (λ _. text "Jan 2")
        (detail_page (report_detail naturals (text "a_1") (counted (text "/<script>")))))
    ≡ markup (
        body_of
          (λ _. text "Jan 2")
          (detail_page (
            report_detail naturals (text "b_2") (record (counted (text "/<script>")) {
              ranked_requests = ranked (text "PUT") (text "/");
            }))))
body_of-markup_example =
    body_of-markup (λ _. text "Jan 2") naturals
      (show 200 (detail_page (report_detail naturals (text "a_1") (counted (text "/<script>")))))
      (show 200 (
        detail_page (
          report_detail naturals (text "b_2") (record (counted (text "/<script>")) {
            ranked_requests = ranked (text "PUT") (text "/");
          }))))
      (both_detail (text "a_1") (text "b_2") (counted (text "/<script>"))
        (ranked (text "PUT") (text "/")) (one_more _ _ [] [] refl refl none_left))
