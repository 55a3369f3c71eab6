-- ===== src/Api/Reports/Bars.antt =====
-- The charts of internal/api/report_handler.go fit their frames.
use parser_go.Prelude.{
  ℕ, ◌+◌, ◌≤◌, ◌≡◌, ◌⊎◌, refl, ap, List, [], ◌∷◌, arith, ◌==◌, Bool-cases, inl, inr, if◌then◌else◌,
}
use parser_go.Float.{Floats}
use parser_go.Summary.Compute.{Summary}
use parser_go.Api.Reports.Lines.{
  Segment, Block, bar_x, stack_width, block_width, blocks_from, values, line_segments,
}

-- Parts that lie side by side from x on, none of them beyond the end, with every part shown as wide as
-- it should be, or less at the end.
abbrev pub IsLaid : ℕ → ℕ → List Block → Type 0
IsLaid x end [] = x ≤ end
IsLaid x end (b ∷ bs) =
    (b.x ≡ x) × ((b.x + b.width ≡ end) ⊎ (4 ≤ b.width)) × IsLaid (x + b.width) end bs

-- The segments that have lines.
abbrev pub not_empty : List Segment → List Segment
not_empty [] = []
not_empty (s ∷ ss) = if s.value == 0 then not_empty ss else s ∷ not_empty ss

abbrev pub segments_of : List Block → List Segment
segments_of [] = []
segments_of (b ∷ bs) = b.segment ∷ segments_of bs

module _ {F : Type 0} (fl : Floats F) where
  block_width-fits :
      (total x value : ℕ)
      → x ≤ bar_x + stack_width
      → (x + block_width fl total x value ≤ bar_x + stack_width)
        × ((x + block_width fl total x value ≡ bar_x + stack_width)
            ⊎ (4 ≤ block_width fl total x value))
  unfolding block_width
  block_width-fits total x value p = (ground arith, ground arith)

  blocks_from-IsLaid :
      (total x : ℕ) (ss : List Segment)
      → x ≤ bar_x + stack_width
      → IsLaid x (bar_x + stack_width) (blocks_from fl total x ss)
  unfolding blocks_from
  blocks_from-IsLaid total x [] p = p
  blocks_from-IsLaid total x (s ∷ ss) p = elim (Bool-cases (s.value == 0)) [
    | inl e ↦ rw e (blocks_from-IsLaid total x ss p)
    | inr e ↦
        let fits = block_width-fits total x s.value p in
        rw e (refl, fits.1, blocks_from-IsLaid total (x + block_width fl total x s.value) ss fits.0)
  ]

  blocks_from-segments :
      (total x : ℕ) (ss : List Segment) → segments_of (blocks_from fl total x ss) ≡ not_empty ss
  unfolding blocks_from
  blocks_from-segments total x [] = refl
  blocks_from-segments total x (s ∷ ss) = elim (Bool-cases (s.value == 0)) [
    | inl e ↦ rw e (blocks_from-segments total x ss)
    | inr e ↦
        rw e (ap (λ l. s ∷ l) (blocks_from-segments total (x + block_width fl total x s.value) ss))
  ]

  -- For any summary and any floating point.
  pub line_blocks-IsLaid :
      (sum : Summary F)
      → IsLaid bar_x
          (bar_x + stack_width)
          (blocks_from fl (values (line_segments sum)) bar_x (line_segments sum))
        × (segments_of (blocks_from fl (values (line_segments sum)) bar_x (line_segments sum))
            ≡ not_empty (line_segments sum))
  line_blocks-IsLaid sum = (
    blocks_from-IsLaid _ bar_x (line_segments sum) (omega arith),
    blocks_from-segments _ bar_x (line_segments sum),
  )
