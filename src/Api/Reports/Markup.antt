-- ===== src/Api/Reports/Markup.antt =====
-- The markup of the pages of internal/api/report_handler.go: the angle brackets and the double quotes of
-- their bodies.
use parser_go.Prelude.{
  ℕ, Text, text, text_eq, Bool-cases, inl, inr, ◌≡◌, refl, Option, some, none, List, [], ◌∷◌, ◌==◌,
  length, arith,
}
use parser_go.Clock.{Time}
use parser_go.Job.{JobError}
use parser_go.Api.Reports.Marks.{markup, markup-append, markup-escape_html}
use parser_go.Float.{Floats}
use parser_go.Summary.Compute.{Summary, RankedRequest}
use parser_go.Api.Reports.Renamed.{SameCounts, markup-detail_body}
use parser_go.Api.Reports.Pages.{
  ReportIndexItem, detail_page, report_detail, PageResponse, index_page, show, page_error,
  not_ready_report, failed_report_page, expired_report, failure_text,
}
use parser_go.Api.Reports.Bodies.{
  write_item, write_items, write_list, index_body, body_of, not_ready_body, failed_body,
  expired_body, error_body,
}

-- What the pages have in common that are of one kind: everything but the texts that are put in.
pub data Alike {F : Type 0} (fl : Floats F) : PageResponse → PageResponse → Type 0 where
  -- lists of equally many reports
  both_index :
      (a b : List ReportIndexItem)
      → length a ≡ length b
      → Alike fl (show 200 (index_page a)) (show 200 (index_page b))
  -- reports of the same numbers, under other methods and paths
  both_detail :
      (a b : Text) (sum : Summary F) (ss : List (RankedRequest F))
      → SameCounts sum.ranked_requests ss
      → Alike fl
          (show 200 (detail_page (report_detail fl a sum)))
          (show 200 (detail_page (report_detail fl b (record sum { ranked_requests = ss }))))
  both_not_ready : (a b : Text) → Alike fl (not_ready_report a) (not_ready_report b)
  both_failed :
      (a b : Text) (e f : Option JobError)
      → Alike fl (failed_report_page a e) (failed_report_page b f)
  both_expired : (a b : Text) → Alike fl (expired_report a) (expired_report b)
  both_error : (m n : ℕ) (a b : Text) → Alike fl (page_error m a) (page_error n b)

markup-failure_text : (e : Option JobError) → markup (failure_text e) ≡ []
unfolding text
markup-failure_text none = refl
markup-failure_text (some e) = elim (Bool-cases (text_eq e.message [])) [
  | inl t ↦ rw t refl
  | inr f ↦ rw f (markup-escape_html e.message)
]

module _ (created : Time → Text) where
  markup-write_item :
      (i j : ReportIndexItem) → markup (write_item created i) ≡ markup (write_item created j)
  unfolding write_item
  markup-write_item i j = simp (markup-append, markup-escape_html)

  markup-write_items :
      (a b : List ReportIndexItem)
      → length a ≡ length b
      → markup (write_items created a) ≡ markup (write_items created b)
  unfolding write_items
  markup-write_items [] [] h = refl
  markup-write_items [] (j ∷ b) h = absurd (omega arith)
  markup-write_items (i ∷ a) [] h = absurd (omega arith)
  markup-write_items (i ∷ a) (j ∷ b) h =
      rw
        (
          markup-append (write_item created i) (write_items created a),
          markup-append (write_item created j) (write_items created b),
          markup-write_item i j,
          markup-write_items a b (omega arith),
        )
        refl

  markup-write_list :
      (a b : List ReportIndexItem)
      → length a ≡ length b
      → markup (write_list created a) ≡ markup (write_list created b)
  unfolding write_list
  markup-write_list a b h = elim (Bool-cases (length b == 0)) [
    | inl t ↦ rw (h, t) refl
    | inr f ↦ rw (h, f) (simp (markup-append, markup-write_items a b h))
  ]

  markup-index_body :
      (a b : List ReportIndexItem)
      → length a ≡ length b
      → markup (index_body created a) ≡ markup (index_body created b)
  unfolding index_body
  markup-index_body a b h = simp (markup-append, markup-write_list a b h)

  -- What a user sends or a log contains cannot change the markup of a page: two pages that list
  -- equally many reports, that report the same numbers under other job IDs, methods and paths, or
  -- that say of a job that it is not ready, failed or expired, or that are both an error page, have
  -- the same angle brackets and double quotes in the same order in their bodies, whatever the IDs, the
  -- methods, the paths, the messages and the printed times are.
  pub body_of-markup :
      {F : Type 0} (fl : Floats F) (p q : PageResponse)
      → Alike fl p q
      → markup (body_of created p.page) ≡ markup (body_of created q.page)
  unfolding body_of page_error not_ready_report failed_report_page expired_report not_ready_body
      failed_body expired_body error_body
  body_of-markup fl p q (both_index a b h) = markup-index_body a b h
  body_of-markup fl p q (both_detail a b sum ss h) = markup-detail_body fl a b sum ss h
  body_of-markup fl p q (both_not_ready a b) = simp (markup-append, markup-escape_html)
  body_of-markup fl p q (both_failed a b e f) =
      simp (markup-append, markup-escape_html, markup-failure_text)
  body_of-markup fl p q (both_expired a b) = simp (markup-append, markup-escape_html)
  body_of-markup fl p q (both_error m n a b) = simp (markup-append, markup-escape_html)
