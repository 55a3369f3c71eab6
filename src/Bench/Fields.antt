-- ===== src/Bench/Fields.antt =====
-- How CompareOutputs of internal/bench/parity.go goes through the fields of two outputs, and what it asks
-- of their ranked requests.
use parser_go.Prelude.{
  Text, text_eq, text_eq_iff, text_eq→eq, text_eq_refl, Bool, true, List, [], ◌∷◌, ◌≡◌, refl, sym,
  subst, arith, Bool-cases, inl, inr, any, all, is_empty, is_empty-append,
}
use parser_go.Prelude.Int.{int_eq_iff}
use parser_go.Bench.Types.{RankedRequest, DiffEntry}
use parser_go.Bench.Parity.{FloatTests, almost_equal, ranked_loop, ranked_requests_equal, collect}

-- The rules name the field.
abbrev pub tracks : List Text → Text → Bool
tracks fields f = any (text_eq f) fields

pub all-tracked :
    (p : Text → Bool) (fields : List Text) (f : Text)
    → all p fields ≡ true
    → tracks fields f ≡ true
    → p f ≡ true
all-tracked p [] f h t = cc
all-tracked p (g ∷ fields) f h t = elim (Bool-cases (text_eq f g)) [
  | inl e ↦ subst (λ x. p x ≡ true) (sym (text_eq→eq f g e)) (ground arith)
  | inr e ↦ all-tracked p fields f (ground arith) (ground arith)
]

pub all-intro :
    (p : Text → Bool) (fields : List Text)
    → ((f : Text) → tracks fields f ≡ true → p f ≡ true)
    → all p fields ≡ true
all-intro p [] h = refl
all-intro p (g ∷ fields) h =
    let first : p g ≡ true = h g (ground (arith, text_eq_refl g)) in
    let rest : all p fields ≡ true = all-intro p fields (λ f t. h f (ground arith)) in
    ground (arith, first, rest)

module _ {F : Type 0} (floats : FloatTests F) where
  pub is_empty-collect :
      (differs : Text → List (DiffEntry F)) (fields : List Text)
      → is_empty (collect floats differs fields) ≡ all (λ f. is_empty (differs f)) fields
  unfolding collect
  is_empty-collect differs [] = refl
  is_empty-collect differs (f ∷ fields) =
      rw
        (
          is_empty-append (differs f) (collect floats differs fields),
          is_empty-collect differs fields,
        )
        refl

  -- The same requests in the same order, with percentages that are almost equal.
  abbrev pub SameRanking : List (RankedRequest F) → List (RankedRequest F) → Type 0
  SameRanking [] [] = Unit {0}
  SameRanking [] (y ∷ b) = ⊥
  SameRanking (x ∷ a) [] = ⊥
  SameRanking (x ∷ a) (y ∷ b) =
      (x.path ≡ y.path)
      × (x.method ≡ y.method)
      × (x.count ≡ y.count)
      × (almost_equal floats x.percentage y.percentage ≡ true)
      × SameRanking a b

  pub ranked_requests_equal→SameRanking :
      (a b : List (RankedRequest F)) → ranked_requests_equal floats a b ≡ true → SameRanking a b
  unfolding ranked_requests_equal ranked_loop
  ranked_requests_equal→SameRanking [] [] h = tt
  ranked_requests_equal→SameRanking [] (y ∷ b) h = ground arith
  ranked_requests_equal→SameRanking (x ∷ a) [] h = ground arith
  ranked_requests_equal→SameRanking (x ∷ a) (y ∷ b) h = (
    ground (arith, text_eq_iff x.path y.path),
    ground (arith, text_eq_iff x.method y.method),
    ground (arith, int_eq_iff x.count y.count),
    ground arith,
    ranked_requests_equal→SameRanking a b (ground arith),
  )

  pub SameRanking→ranked_requests_equal :
      (a b : List (RankedRequest F)) → SameRanking a b → ranked_requests_equal floats a b ≡ true
  unfolding ranked_requests_equal ranked_loop
  SameRanking→ranked_requests_equal [] [] s = refl
  SameRanking→ranked_requests_equal [] (y ∷ b) s = absurd s
  SameRanking→ranked_requests_equal (x ∷ a) [] s = absurd s
  SameRanking→ranked_requests_equal (x ∷ a) (y ∷ b) s = ground (
    arith,
    s.0,
    s.1,
    s.2,
    s.3,
    text_eq_iff x.path y.path,
    text_eq_iff x.method y.method,
    int_eq_iff x.count y.count,
    SameRanking→ranked_requests_equal a b s.4,
  )
