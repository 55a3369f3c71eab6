-- ===== src/Bench/Capped.antt =====
-- The cross-check of internal/bench/crosscheck.go and the cap on the rows of the report page of
-- internal/api/report_handler.go.
use parser_go.Prelude.{
  map, leb, leb→le, length-take, ℕ, suc, Text, false, ◌≤◌, List, [], ◌∷◌, ◌≡◌, refl, arith, length,
  Bool-cases, inl, inr, ◌<◌,
}
use parser_go.Float.{Floats}
use parser_go.Summary.Compute as Compute
use parser_go.Api.Reports.Labels.{limit_ranked_requests}
use parser_go.Api.Reports.Pages.{rows_from, report_detail}
use parser_go.Bench.Types.{RankedRequest}
use parser_go.Bench.CrossCheck.{
  ranked_entry, Rounding, VisibleReportMetrics, service_summary_to_implementation_output,
  run_service_cross_check,
}
use parser_go.Bench.CrossChecks.{cross_check-iff-Confirmed, SameRows-length}

length-map_entry :
    {F : Type 0} (rs : List (Compute.RankedRequest F)) → length (map ranked_entry rs) ≡ length rs
length-map_entry [] = refl
length-map_entry (r ∷ rs) = omega (arith, length-map_entry rs)

module _ {F : Type 0} (fl : Floats F) where
  length-rows_from :
      (i : ℕ) (rs : List (Compute.RankedRequest F)) → length (rows_from fl i rs) ≡ length rs
  unfolding rows_from
  length-rows_from i [] = refl
  length-rows_from i (r ∷ rs) = omega (arith, length-rows_from (suc i) rs)

  -- The page has at most fifty rows.
  length-rows : (id : Text) (sum : Compute.Summary F) → length (report_detail fl id sum).rows ≤ 50
  unfolding report_detail limit_ranked_requests
  length-rows id sum =
      rw (length-rows_from 0 (limit_ranked_requests sum.ranked_requests 50))
        (elim (Bool-cases (leb (length sum.ranked_requests) 50)) [
          | inl e ↦ rw e (leb→le (length sum.ranked_requests) 50 e)
          | inr e ↦ rw e (omega (arith, length-take 50 sum.ranked_requests))
        ])

-- A service whose summary has more than fifty ranked requests never passes the cross-check with what its
-- own page shows, even if the benchmark's output is the service's own: the page has at most fifty
-- rows, and the check wants all of them.
pub capped_page-mismatch :
    {F : Type 0} (fl : Floats F) (floats : Rounding F) (id : Text) (sum : Compute.Summary F)
    (visible : VisibleReportMetrics F) (ranked : List (RankedRequest F))
    → 50 < length sum.ranked_requests
    → length ranked ≡ length (report_detail fl id sum).rows
    → (run_service_cross_check floats
        (service_summary_to_implementation_output floats sum)
        sum
        visible
        ranked).matches
      ≡ false
unfolding service_summary_to_implementation_output
capped_page-mismatch fl floats id sum visible ranked l e =
    let check =
      run_service_cross_check floats (service_summary_to_implementation_output floats sum) sum
        visible ranked in
    elim (Bool-cases check.matches) [
      | inl m ↦
          let c = (cross_check-iff-Confirmed floats _ sum visible ranked).0 m in
          absurd (
            omega (
              arith,
              SameRows-length floats _ ranked c.page_rows,
              length-map_entry sum.ranked_requests,
              length-rows fl id sum,
              l,
              e,
            ))
      | inr m ↦ m
    ]
