-- ===== src/Api/Reports/Labels.antt =====
-- The short texts of the pages of internal/api/report_handler.go, and the cap on the ranked requests.
use parser_go.Prelude.{
  ℕ, ◌-◌, ◌*◌, ◌/◌, Text, text, List, [], ◌∷◌, ◌++◌, ltb, leb, ◌==◌, ◌||◌, if◌then◌else◌, take,
  length,
}
use parser_go.Prelude.Decimal.{format_int}
use parser_go.Clock.{second}
use parser_go.Float.{Floats}
use parser_go.Summary.Compute.{seconds}
use parser_go.Api.Reports.Runes.{runes, string_of}

abbrev pub visible_top_request_row_limit : ℕ
visible_top_request_row_limit = 50

abbrev pub top_request_chart_limit : ℕ
top_request_chart_limit = 6

-- U+2026 in UTF-8
abbrev pub ellipsis : Text
ellipsis = 226 ∷ 128 ∷ 166 ∷ []

-- truncateLabel, for a limit that is not negative
unfoldable pub truncate_label : Text → ℕ → Text
unfolding runes string_of
truncate_label value max_runes =
    let rs = runes value in
    if leb (length rs) max_runes
    then value
    else if leb max_runes 1
    then ellipsis
    else string_of (take (max_runes - 1) rs) ++ ellipsis

-- limitRankedRequests, for a limit that is not negative
unfoldable pub limit_ranked_requests {ℓ} : {A : Type ℓ} → List A → ℕ → List A
limit_ranked_requests ranked limit =
    if (limit == 0) || leb (length ranked) limit then ranked else take limit ranked

-- topRequestCapMessage
unfoldable pub top_request_cap_message : ℕ → ℕ → ℕ → Text
top_request_cap_message total visible cap =
    if total == 0
    then text "Top-request table cap: "
      ++ (format_int cap ++ text " rows. No ranked request rows are available for this report.")
    else if ltb cap total
    then text "Top-request table cap: "
      ++ (format_int cap
          ++ (text " rows. Showing "
              ++ (format_int visible
                  ++ (text " of " ++ (format_int total ++ text " ranked rows.")))))
    else text "Top-request table cap: "
      ++ (format_int cap
          ++ (text " rows. Showing all " ++ (format_int visible ++ text " ranked rows.")))

-- U+00B5 in UTF-8
abbrev micro : Text
micro = 194 ∷ 181 ∷ []

module _ {F : Type 0} (fl : Floats F) where
  -- formatBytes
  unfoldable pub format_bytes : ℕ → Text
  format_bytes bytes =
      if ltb bytes 1024
      then format_int bytes ++ text " B"
      else if ltb bytes (1024 * 1024)
      then fl.fixed1 (fl.div (fl.of_int bytes) (fl.of_int 1024)) ++ text " KB"
      else if ltb bytes (1024 * 1024 * 1024)
      then fl.fixed1 (fl.div (fl.of_int bytes) (fl.of_int (1024 * 1024))) ++ text " MB"
      else fl.fixed1 (fl.div (fl.of_int bytes) (fl.of_int (1024 * 1024 * 1024))) ++ text " GB"

  -- formatDuration, for a number of nanoseconds that is not negative
  unfoldable pub format_duration : ℕ → Text
  unfolding seconds
  format_duration d =
      if ltb d 1000000
      then format_int (d / 1000) ++ (text " " ++ (micro ++ text "s"))
      else if ltb d second
      then fl.fixed1 (fl.of_int (d / 1000000)) ++ text " ms"
      else fl.fixed2 (seconds fl d) ++ text " s"
