-- ===== src/Summary/Ranking.antt =====
-- The ranked requests of a summary: what they hold, and that the map's iteration does not show.
use mathlib.Core.List.{Perm}
use parser_go.Prelude.{
  ◌⊎◌, ◌<◌, ◌==◌, true, false, Bool-cases, inl, inr, text_eq→eq, text_eq_iff, text_lt,
  text_lt_total, ℕ, ◌+◌, min, Text, text_eq, List, [], ◌∷◌, map, ◌≡◌, refl, ap, arith,
  if◌then◌else◌, ◌&&◌, Bool, ◌∙◌, sym,
}
use parser_go.Prelude.Sorting.{
  sort, sort-perm, sort-map, sort-IsSorted, InOrder, IsSorted-InOrder, IsSorted, IsSorted-map,
}
use parser_go.Float.{Floats}
use parser_go.Analysis.Engine.{Analysis}
use parser_go.Summary.Counts.{Count, count_records, occurrences}
use parser_go.Summary.Tally.{
  sum_by, sum_by-sort, count-count_records, entry-count_records, total-count_records,
}
use parser_go.Summary.Rank.{before, before-IsStrictTotal, Counts-discrete}
use parser_go.Summary.Compute.{RankedRequest, compute, ranked, ranks_before}

-- Sums over the rows.
pub rows_sum : {F : Type 0} → (RankedRequest F → ℕ) → List (RankedRequest F) → ℕ
rows_sum w [] = 0
rows_sum w (r ∷ rs) = w r + rows_sum w rs

abbrev pub has_key : {F : Type 0} → Text → Text → RankedRequest F → Bool
has_key path method r = text_eq r.path path && text_eq r.method method

-- An earlier row and a later one: by falling count, then by path, then by method.
abbrev pub NotAfter : {F : Type 0} → RankedRequest F → RankedRequest F → Type 0
NotAfter r s =
    (s.count < r.count)
    ⊎ ((r.count ≡ s.count)
        × ((text_lt r.path s.path ≡ true)
            ⊎ ((r.path ≡ s.path) × (text_lt s.method r.method ≡ false))))

module _ {F : Type 0} (fl : Floats F) where
  ranks_before-ranked :
      (n : ℕ) (c d : Count) → ranks_before fl (ranked fl n c) (ranked fl n d) ≡ before c d
  unfolding ranks_before ranked before
  ranks_before-ranked n c d = refl

  -- The rows are the counts of the records, sorted, whatever order the map is iterated in.
  pub ranked_requests_lem :
      (order : List Count → List Count) (a : Analysis)
      → Perm (order (count_records a.records)) (count_records a.records)
      → (compute fl order a).ranked_requests
        ≡ map (ranked fl a.matched) (sort before (count_records a.records))
  unfolding compute
  ranked_requests_lem order a p =
      sort-map (ranked fl a.matched) before (ranks_before fl) (ranks_before-ranked a.matched)
        (order (count_records a.records))
      ∙ ap (map (ranked fl a.matched)) (sort-perm before-IsStrictTotal Counts-discrete p)

  -- The summary does not depend on the order in which the map of counts is iterated: any two orders
  -- that permute the counts give the same summary.
  pub compute-deterministic :
      (order order' : List Count → List Count) (a : Analysis)
      → Perm (order (count_records a.records)) (count_records a.records)
      → Perm (order' (count_records a.records)) (count_records a.records)
      → compute fl order a ≡ compute fl order' a
  unfolding compute
  compute-deterministic order order' a p q =
      let same = ranked_requests_lem order a p ∙ sym (ranked_requests_lem order' a q) in
      λ i. record (compute fl order a) { ranked_requests = same i }

  pub ranked_requests-IsSorted :
      (order : List Count → List Count) (a : Analysis)
      → Perm (order (count_records a.records)) (count_records a.records)
      → IsSorted (ranks_before fl) (compute fl order a).ranked_requests
  ranked_requests-IsSorted order a p = rw (ranked_requests_lem order a p) (
      IsSorted-map (ranked fl a.matched) before (ranks_before fl) (ranks_before-ranked a.matched) _
        (sort-IsSorted before-IsStrictTotal (count_records a.records)))

  ranks_before-NotAfter : (r s : RankedRequest F) → ranks_before fl s r ≡ false → NotAfter r s
  unfolding ranks_before
  ranks_before-NotAfter r s h = elim (Bool-cases (r.count == s.count)) [
    | inr n ↦ inl (ground arith)
    | inl n ↦ elim (Bool-cases (text_eq r.path s.path)) [
      | inl e ↦ inr (
        ground arith,
        inr (
          text_eq→eq r.path s.path e,
          ground (arith, text_eq_iff s.path r.path, text_eq_iff r.path s.path),
        ),
      )
      | inr e ↦ inr (
        ground arith,
        inl (
            ground (
              arith,
              text_eq_iff s.path r.path,
              text_eq_iff r.path s.path,
              text_lt_total r.path s.path,
            )),
      )
    ]
  ]

  -- For any order of iteration that permutes the counts, of any two rows the earlier one has the
  -- higher count, or the same count and the smaller path, or the same count and path and a method
  -- that is not greater.
  pub ranked_requests-InOrder :
      (order : List Count → List Count) (a : Analysis)
      → Perm (order (count_records a.records)) (count_records a.records)
      → InOrder NotAfter (compute fl order a).ranked_requests
  ranked_requests-InOrder order a p =
      IsSorted-InOrder NotAfter (ranks_before fl) ranks_before-NotAfter
        (compute fl order a).ranked_requests (ranked_requests-IsSorted order a p)

  rows_sum-map :
      (w : RankedRequest F → ℕ) (n : ℕ) (cs : List Count)
      → rows_sum w (map (ranked fl n) cs) ≡ sum_by (λ c. w (ranked fl n c)) cs
  unfolding rows_sum sum_by
  rows_sum-map w n [] = refl
  rows_sum-map w n (c ∷ cs) = omega (arith, rows_sum-map w n cs)

  module _ (order : List Count → List Count) (a : Analysis)
      (p : Perm (order (count_records a.records)) (count_records a.records)) where
    -- A sum over the rows is the sum over the counts.
    rows_sum_lem :
        (w : RankedRequest F → ℕ)
        → rows_sum w (compute fl order a).ranked_requests
          ≡ sum_by (λ c. w (ranked fl a.matched c)) (count_records a.records)
    rows_sum_lem w = rw (ranked_requests_lem order a p) (
        rows_sum-map w a.matched (sort before (count_records a.records))
        ∙ sum_by-sort before (λ c. w (ranked fl a.matched c)) (count_records a.records))

    -- For each path and method there is one row, with the number of records that have them, or
    -- none if no record has them, for any order of iteration that permutes the counts.
    pub rows_exact :
        (path method : Text)
        → (rows_sum
              (λ r. if has_key path method r then 1 else 0)
              (compute fl order a).ranked_requests
            ≡ min 1 (occurrences path method a.records))
          × (rows_sum
                (λ r. if has_key path method r then r.count else 0)
                (compute fl order a).ranked_requests
              ≡ occurrences path method a.records)
    unfolding ranked
    rows_exact path method = (
      rows_sum_lem (λ r. if has_key path method r then 1 else 0)
          ∙ entry-count_records path method a.records,
      rows_sum_lem (λ r. if has_key path method r then r.count else 0)
          ∙ count-count_records path method a.records,
    )

    -- The counts of the rows add up to the row count, for any order of iteration that permutes the
    -- counts.
    pub rows_total :
        rows_sum (λ r. r.count) (compute fl order a).ranked_requests
        ≡ (compute fl order a).row_count
    unfolding compute ranked
    rows_total = rows_sum_lem (λ r. r.count) ∙ total-count_records a.records
