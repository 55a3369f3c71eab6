-- ===== src/Api/Reports/Renamed.antt =====
-- The report pages of two summaries that count the same under other methods and paths.
use parser_go.Prelude.{
  ℕ, Text, text, text_eq, Bool, Bool-cases, inl, inr, true, false, ◌≡◌, refl, ap, ◌∙◌, List, [],
  ◌∷◌, ◌==◌, length, take, zero, suc, if◌then◌else◌, ◌||◌, leb,
}
use parser_go.Float.{Floats}
use parser_go.Summary.Compute.{Summary, RankedRequest}
use parser_go.Api.Reports.Labels.{
  limit_ranked_requests, top_request_chart_limit, visible_top_request_row_limit,
}
use parser_go.Api.Reports.Charts.{
  Bar, write_chart, top_request_bars, max_count_of, bars_from, write_bar, write_bars,
  render_top_requests_chart,
}
use parser_go.Api.Reports.Pages.{method_class, rows_from, report_detail}
use parser_go.Api.Reports.DetailBody.{write_row, write_rows, write_table, charts, detail_body}
use parser_go.Api.Reports.Marks.{markup, markup-append, markup-escape_html}

module _ {F : Type 0} where
  -- Equally many rows, with the same counts and percentages.
  pub data SameCounts : List (RankedRequest F) → List (RankedRequest F) → Type 0 where
    none_left : SameCounts [] []
    one_more :
        (r s : RankedRequest F) (rs ss : List (RankedRequest F))
        → r.count ≡ s.count
        → r.percentage ≡ s.percentage
        → SameCounts rs ss
        → SameCounts (r ∷ rs) (s ∷ ss)

  SameCounts-length : (rs ss : List (RankedRequest F)) → SameCounts rs ss → length rs ≡ length ss
  SameCounts-length rs ss none_left = refl
  SameCounts-length rs ss (one_more r s rs' ss' c p h) = ap suc (SameCounts-length rs' ss' h)

  SameCounts-take :
      (n : ℕ) (rs ss : List (RankedRequest F))
      → SameCounts rs ss
      → SameCounts (take n rs) (take n ss)
  SameCounts-take zero rs ss h = none_left
  SameCounts-take (suc n) rs ss none_left = none_left
  SameCounts-take (suc n) rs ss (one_more r s rs' ss' c p h) =
      one_more r s (take n rs') (take n ss') c p (SameCounts-take n rs' ss' h)

  SameCounts-limit :
      (rs ss : List (RankedRequest F)) (n : ℕ)
      → SameCounts rs ss
      → SameCounts (limit_ranked_requests rs n) (limit_ranked_requests ss n)
  unfolding limit_ranked_requests
  SameCounts-limit rs ss n h = elim (Bool-cases ((n == 0) || leb (length ss) n)) [
    | inl t ↦ rw (SameCounts-length rs ss h, t) h
    | inr f ↦ rw (SameCounts-length rs ss h, f) (SameCounts-take n rs ss h)
  ]

markup-if :
    (b : Bool) (s t : Text) → markup s ≡ [] → markup t ≡ [] → markup (if b then s else t) ≡ []
markup-if true s t hs ht = hs
markup-if false s t hs ht = ht

markup-method_class : (m : Text) → markup (method_class m) ≡ []
unfolding text
markup-method_class m = markup-if (text_eq m (text "GET")) _ _ refl (
    markup-if (text_eq m (text "POST")) _ _ refl (
      markup-if (text_eq m (text "PUT")) _ _ refl
        (markup-if (text_eq m (text "DELETE")) _ _ refl refl)))

module _ {F : Type 0} (fl : Floats F) where
  markup-rows :
      (i : ℕ) (rs ss : List (RankedRequest F))
      → SameCounts rs ss
      → markup (write_rows (rows_from fl i rs)) ≡ markup (write_rows (rows_from fl i ss))
  unfolding write_rows write_row rows_from
  markup-rows i rs ss none_left = refl
  markup-rows i rs ss (one_more r s rs' ss' c p h) =
      simp (
        markup-append,
        markup-escape_html,
        markup-method_class,
        c,
        p,
        markup-rows (suc i) rs' ss' h,
      )

  markup-bars :
      (m i : ℕ) (rs ss : List (RankedRequest F))
      → SameCounts rs ss
      → markup (write_bars fl (bars_from fl m i rs)) ≡ markup (write_bars fl (bars_from fl m i ss))
  unfolding write_bars write_bar bars_from
  markup-bars m i rs ss none_left = refl
  markup-bars m i rs ss (one_more r s rs' ss' c p h) =
      simp (markup-append, markup-escape_html, c, p, markup-bars m (suc i) rs' ss' h)

  length-bars : (m i : ℕ) (rs : List (RankedRequest F)) → length (bars_from fl m i rs) ≡ length rs
  unfolding bars_from
  length-bars m i [] = refl
  length-bars m i (r ∷ rs) = ap suc (length-bars m (suc i) rs)

  SameCounts-max :
      (rs ss : List (RankedRequest F)) → SameCounts rs ss → max_count_of fl rs ≡ max_count_of fl ss
  SameCounts-max rs ss none_left = refl
  SameCounts-max rs ss (one_more r s rs' ss' c p h) = rw c refl

  module _ (rs ss : List (RankedRequest F)) (h : SameCounts rs ss) where
    shown :
        SameCounts
          (limit_ranked_requests rs top_request_chart_limit)
          (limit_ranked_requests ss top_request_chart_limit)
    shown = SameCounts-limit rs ss top_request_chart_limit h

    length-top_bars : length (top_request_bars fl rs) ≡ length (top_request_bars fl ss)
    unfolding top_request_bars
    length-top_bars = simp (length-bars, SameCounts-length _ _ shown)

    markup-top_bars :
        markup (write_bars fl (top_request_bars fl rs))
        ≡ markup (write_bars fl (top_request_bars fl ss))
    unfolding top_request_bars
    markup-top_bars =
        markup-bars _ 0 _ _ shown
        ∙ ap
            (λ m.
              markup (
                write_bars fl
                  (bars_from fl m 0 (limit_ranked_requests ss top_request_chart_limit))))
            (SameCounts-max _ _ shown)

  markup-write_chart :
      (total : ℕ) (bs cs : List (Bar F))
      → length bs ≡ length cs
      → markup (write_bars fl bs) ≡ markup (write_bars fl cs)
      → markup (write_chart fl total bs) ≡ markup (write_chart fl total cs)
  unfolding write_chart
  markup-write_chart total bs cs n m = elim (Bool-cases (total == 0)) [
    | inl t ↦ rw t refl
    | inr f ↦ rw (f, n) (simp (markup-append, m))
  ]

  markup-chart :
      (sum : Summary F) (ss : List (RankedRequest F))
      → SameCounts sum.ranked_requests ss
      → markup (render_top_requests_chart fl sum)
        ≡ markup (render_top_requests_chart fl (record sum { ranked_requests = ss }))
  unfolding render_top_requests_chart
  markup-chart sum ss h =
      let rs = sum.ranked_requests in
      ap (λ n. markup (write_chart fl n (top_request_bars fl rs))) (SameCounts-length rs ss h)
      ∙ markup-write_chart (length ss) (top_request_bars fl rs) (top_request_bars fl ss)
          (length-top_bars rs ss h) (markup-top_bars rs ss h)

  markup-table :
      (i : ℕ) (rs ss : List (RankedRequest F))
      → SameCounts rs ss
      → markup (write_table (rows_from fl i rs)) ≡ markup (write_table (rows_from fl i ss))
  unfolding write_table write_rows write_row rows_from
  markup-table i rs ss none_left = refl
  markup-table i rs ss (one_more r s rs' ss' c p h) =
      simp (
        markup-append,
        markup-escape_html,
        markup-method_class,
        c,
        p,
        markup-rows (suc i) rs' ss' h,
      )

  pub markup-detail_body :
      (a b : Text) (sum : Summary F) (ss : List (RankedRequest F))
      → SameCounts sum.ranked_requests ss
      → markup (detail_body (report_detail fl a sum))
        ≡ markup (detail_body (report_detail fl b (record sum { ranked_requests = ss })))
  unfolding detail_body report_detail charts
  markup-detail_body a b sum ss h =
      let same = SameCounts-limit sum.ranked_requests ss visible_top_request_row_limit h in
      simp (markup-append, markup-escape_html, markup-chart sum ss h, markup-table 0 _ _ same)
