-- ===== src/Bench/Agreement.antt =====
-- When CompareOutputs of internal/bench/parity.go lets two outputs pass.
use parser_go.Prelude.{
  Text, text, text_eq, text_eq→eq, Bool, true, ◌&&◌, ◌≡◌, refl, subst, ◌↔◌, arith, Bool-cases, inl,
  inr, all, is_empty, length-is_empty,
}
use parser_go.Prelude.Int.{ℤ, int_eq_iff}
use parser_go.Bench.Types.{NormalizationRules, ImplementationOutput}
use parser_go.Bench.Parity.{
  FloatTests, almost_equal, summary_diff, workload_diff, collect, compare_outputs, compare_ints,
}
use parser_go.Bench.Fields.{
  tracks, all-tracked, all-intro, is_empty-collect, SameRanking, ranked_requests_equal→SameRanking,
  SameRanking→ranked_requests_equal,
}

module _ {F : Type 0} (floats : FloatTests F) where
  -- The two outputs agree on each field that the rules name.
  pub record Agreement (rules : NormalizationRules) (a b : ImplementationOutput F) : Type 0 where
    pub requests_total :
        tracks rules.summary_fields (text "requests_total") ≡ true
        → a.summary.requests_total ≡ b.summary.requests_total
    pub requests_per_sec :
        tracks rules.summary_fields (text "requests_per_sec") ≡ true
        → almost_equal floats a.summary.requests_per_sec b.summary.requests_per_sec ≡ true
    pub ranked_requests :
        tracks rules.summary_fields (text "ranked_requests") ≡ true
        → SameRanking floats a.summary.ranked_requests b.summary.ranked_requests
    pub input_bytes :
        tracks rules.workload_fields (text "input_bytes") ≡ true
        → a.workload.input_bytes ≡ b.workload.input_bytes
    pub total_lines :
        tracks rules.workload_fields (text "total_lines") ≡ true
        → a.workload.total_lines ≡ b.workload.total_lines
    pub matched_lines :
        tracks rules.workload_fields (text "matched_lines") ≡ true
        → a.workload.matched_lines ≡ b.workload.matched_lines
    pub filtered_lines :
        tracks rules.workload_fields (text "filtered_lines") ≡ true
        → a.workload.filtered_lines ≡ b.workload.filtered_lines
    pub rejected_lines :
        tracks rules.workload_fields (text "rejected_lines") ≡ true
        → a.workload.rejected_lines ≡ b.workload.rejected_lines
    pub row_count :
        tracks rules.workload_fields (text "row_count") ≡ true
        → a.workload.row_count ≡ b.workload.row_count

  is_empty-compare_ints :
      (field : Text) (m n : ℤ) → is_empty (compare_ints floats field m n) ≡ true → m ≡ n
  is_empty-compare_ints field m n h = ground (arith, int_eq_iff m n)

  compare_ints-same :
      (field : Text) (m n : ℤ) → m ≡ n → is_empty (compare_ints floats field m n) ≡ true
  compare_ints-same field m n e = ground (arith, int_eq_iff m n)

  module _ (rules : NormalizationRules) (a b : ImplementationOutput F) where
    abbrev summaries_agree : Text → Bool
    summaries_agree f = is_empty (summary_diff floats f a.summary b.summary)

    abbrev workloads_agree : Text → Bool
    workloads_agree f = is_empty (workload_diff floats f a.workload b.workload)

    passed-tests :
        (compare_outputs floats rules a b).passed
        ≡ (all summaries_agree rules.summary_fields && all workloads_agree rules.workload_fields)
    unfolding compare_outputs
    passed-tests =
        rw
          (
            length-is_empty (
                collect floats (λ f. summary_diff floats f a.summary b.summary)
                  rules.summary_fields),
            length-is_empty (
                collect floats (λ f. workload_diff floats f a.workload b.workload)
                  rules.workload_fields),
            is_empty-collect floats (λ f. summary_diff floats f a.summary b.summary)
                rules.summary_fields,
            is_empty-collect floats (λ f. workload_diff floats f a.workload b.workload)
                rules.workload_fields,
          )
          refl

    per_sec-same :
        summaries_agree (text "requests_per_sec") ≡ true
        → almost_equal floats a.summary.requests_per_sec b.summary.requests_per_sec ≡ true
    unfolding summary_diff text text_eq
    per_sec-same h = ground arith

    ranking-same :
        summaries_agree (text "ranked_requests") ≡ true
        → SameRanking floats a.summary.ranked_requests b.summary.ranked_requests
    unfolding summary_diff text text_eq
    ranking-same h =
        ranked_requests_equal→SameRanking floats a.summary.ranked_requests b.summary.ranked_requests
          (ground arith)

    passed→Agreement :
        all summaries_agree rules.summary_fields ≡ true
        → all workloads_agree rules.workload_fields ≡ true
        → Agreement rules a b
    unfolding summary_diff workload_diff text text_eq
    passed→Agreement s w = record {
      requests_total = λ t.
          is_empty-compare_ints (text "requests_total") _ _
            (all-tracked summaries_agree rules.summary_fields (text "requests_total") s t);
      requests_per_sec = λ t.
          per_sec-same
            (all-tracked summaries_agree rules.summary_fields (text "requests_per_sec") s t);
      ranked_requests = λ t.
          ranking-same
            (all-tracked summaries_agree rules.summary_fields (text "ranked_requests") s t);
      input_bytes = λ t.
          is_empty-compare_ints (text "input_bytes") _ _
            (all-tracked workloads_agree rules.workload_fields (text "input_bytes") w t);
      total_lines = λ t.
          is_empty-compare_ints (text "total_lines") _ _
            (all-tracked workloads_agree rules.workload_fields (text "total_lines") w t);
      matched_lines = λ t.
          is_empty-compare_ints (text "matched_lines") _ _
            (all-tracked workloads_agree rules.workload_fields (text "matched_lines") w t);
      filtered_lines = λ t.
          is_empty-compare_ints (text "filtered_lines") _ _
            (all-tracked workloads_agree rules.workload_fields (text "filtered_lines") w t);
      rejected_lines = λ t.
          is_empty-compare_ints (text "rejected_lines") _ _
            (all-tracked workloads_agree rules.workload_fields (text "rejected_lines") w t);
      row_count = λ t.
          is_empty-compare_ints (text "row_count") _ _
            (all-tracked workloads_agree rules.workload_fields (text "row_count") w t);
    }

    summary_agrees :
        Agreement rules a b
        → (f : Text) → tracks rules.summary_fields f ≡ true
        → summaries_agree f ≡ true
    unfolding summary_diff
    summary_agrees g f t = elim (Bool-cases (text_eq f (text "requests_total"))) [
      | inl e ↦ rw e (
          compare_ints-same f _ _ (
            g.requests_total
              (subst (λ x. tracks rules.summary_fields x ≡ true) (text_eq→eq f _ e) t)))
      | inr n ↦ rw n (elim (Bool-cases (text_eq f (text "requests_per_sec"))) [
        | inl e ↦
            rw
              (
                e,
                g.requests_per_sec
                    (subst (λ x. tracks rules.summary_fields x ≡ true) (text_eq→eq f _ e) t),
              )
              refl
        | inr n ↦ rw n (elim (Bool-cases (text_eq f (text "ranked_requests"))) [
          | inl e ↦
              rw
                (
                  e,
                  SameRanking→ranked_requests_equal floats a.summary.ranked_requests
                      b.summary.ranked_requests
                      (g.ranked_requests
                        (subst (λ x. tracks rules.summary_fields x ≡ true) (text_eq→eq f _ e) t)),
                )
                refl
          | inr n ↦ rw n refl
        ])
      ])
    ]

    tracked :
        (f g : Text)
        → tracks rules.workload_fields f ≡ true
        → text_eq f g ≡ true
        → tracks rules.workload_fields g ≡ true
    tracked f g t e = subst (λ x. tracks rules.workload_fields x ≡ true) (text_eq→eq f g e) t

    workload_agrees :
        Agreement rules a b
        → (f : Text) → tracks rules.workload_fields f ≡ true
        → workloads_agree f ≡ true
    unfolding workload_diff
    workload_agrees g f t = elim (Bool-cases (text_eq f (text "input_bytes"))) [
      | inl e ↦ rw e (compare_ints-same f _ _ (g.input_bytes (tracked f _ t e)))
      | inr n ↦ rw n (elim (Bool-cases (text_eq f (text "total_lines"))) [
        | inl e ↦ rw e (compare_ints-same f _ _ (g.total_lines (tracked f _ t e)))
        | inr n ↦ rw n (elim (Bool-cases (text_eq f (text "matched_lines"))) [
          | inl e ↦ rw e (compare_ints-same f _ _ (g.matched_lines (tracked f _ t e)))
          | inr n ↦ rw n (elim (Bool-cases (text_eq f (text "filtered_lines"))) [
            | inl e ↦ rw e (compare_ints-same f _ _ (g.filtered_lines (tracked f _ t e)))
            | inr n ↦ rw n (elim (Bool-cases (text_eq f (text "rejected_lines"))) [
              | inl e ↦ rw e (compare_ints-same f _ _ (g.rejected_lines (tracked f _ t e)))
              | inr n ↦ rw n (elim (Bool-cases (text_eq f (text "row_count"))) [
                | inl e ↦ rw e (compare_ints-same f _ _ (g.row_count (tracked f _ t e)))
                | inr n ↦ rw n refl
              ])
            ])
          ])
        ])
      ])
    ]

    -- Two outputs pass exactly if they agree on each field that the rules name: integers and texts are
    -- equal, rates and percentages almost equal, and rankings have the same requests in the same order.
    pub compare_outputs-passed :
        ((compare_outputs floats rules a b).passed ≡ true) ↔ Agreement rules a b
    compare_outputs-passed = (
      λ h. passed→Agreement (ground (arith, passed-tests)) (ground (arith, passed-tests)),
      λ g.
          rw
            (
              passed-tests,
              all-intro summaries_agree rules.summary_fields (summary_agrees g),
              all-intro workloads_agree rules.workload_fields (workload_agrees g),
            )
            refl,
    )
