-- ===== src/Bench/Controls.antt =====
-- ValidateFairness of internal/bench/parity.go.
use parser_go.Prelude.{
  Text, text, text_eq, text_eq_iff, text_eq→eq, subst, Bool, true, false, ◌&&◌, not, List, [], ◌∷◌,
  ◌++◌, length, is_empty, is_empty-append, length-is_empty, ◌==◌, ◌≡◌, refl, arith, Bool-cases, inl,
  inr, ◌↔◌, ◌≢◌,
}
use parser_go.Prelude.Int.{int_eq, int_eq_iff, itoa, is_negative, is_positive}
use parser_go.Bench.Types.{RuntimeControls, FairnessReport}

abbrev pub required_fairness_controls : List Text
required_fairness_controls =
    text "warmup_iterations"
    ∷ text "measured_iterations"
    ∷ text "cache_posture"
    ∷ text "concurrency"
    ∷ text "max_procs"
    ∷ []

-- A difference that is reported if the test holds.
unfoldable pub report_if : Bool → Text → List Text
report_if true message = message ∷ []
report_if false message = []

-- fmt.Sprintf("... baseline=%d rewrite=%d", a, b)
abbrev pub differ : Text → Text → Text → Text
differ what a b = what ++ (text " baseline=" ++ (a ++ (text " rewrite=" ++ b)))

-- The checks of one side's controls, in the order of the source when the sides take turns.
unfoldable pub validity : RuntimeControls → RuntimeControls → List Text
unfolding report_if
validity a b =
    report_if (is_negative a.warmup_iterations) (text "baseline warmup_iterations must be >= 0")
    ++ (report_if (is_negative b.warmup_iterations) (text "rewrite warmup_iterations must be >= 0")
        ++ (report_if (not (is_positive a.measured_iterations))
              (text "baseline measured_iterations must be > 0")
            ++ (report_if (not (is_positive b.measured_iterations))
                  (text "rewrite measured_iterations must be > 0")
                ++ (report_if (text_eq a.cache_posture [])
                      (text "baseline cache_posture is required")
                    ++ (report_if (text_eq b.cache_posture [])
                          (text "rewrite cache_posture is required")
                        ++ (report_if (not (is_positive a.concurrency))
                              (text "baseline concurrency must be > 0")
                            ++ (report_if (not (is_positive b.concurrency))
                                  (text "rewrite concurrency must be > 0")
                                ++ (report_if (not (is_positive a.max_procs))
                                      (text "baseline max_procs must be > 0")
                                    ++ report_if (not (is_positive b.max_procs))
                                        (text "rewrite max_procs must be > 0")))))))))

-- The comparison of the two sides. `quote` is strconv.Quote, with which %q prints.
unfoldable pub asymmetry : (Text → Text) → RuntimeControls → RuntimeControls → List Text
unfolding report_if
asymmetry quote a b =
    report_if (not (int_eq a.warmup_iterations b.warmup_iterations)) (
      differ (text "warmup_iterations differ:") (itoa a.warmup_iterations)
        (itoa b.warmup_iterations))
    ++ (report_if (not (int_eq a.measured_iterations b.measured_iterations)) (
          differ (text "measured_iterations differ:") (itoa a.measured_iterations)
            (itoa b.measured_iterations))
        ++ (report_if (not (text_eq a.cache_posture b.cache_posture)) (
              differ (text "cache_posture differs:") (quote a.cache_posture)
                (quote b.cache_posture))
            ++ (report_if (not (int_eq a.concurrency b.concurrency))
                  (differ (text "concurrency differs:") (itoa a.concurrency) (itoa b.concurrency))
                ++ report_if (not (int_eq a.max_procs b.max_procs))
                    (differ (text "max_procs differ:") (itoa a.max_procs) (itoa b.max_procs)))))

-- ValidateFairness, of the controls of the two implementations
unfoldable pub validate_fairness :
    (Text → Text) → RuntimeControls → RuntimeControls → FairnessReport
unfolding validity asymmetry
validate_fairness quote baseline rewrite =
    let differences = validity baseline rewrite ++ asymmetry quote baseline rewrite in
    let symmetric = length differences == 0 in
    record {
      required_controls = required_fairness_controls;
      symmetric = symmetric;
      differences = differences;
      claimable = symmetric;
      control_evidence = [];
      execution_schedule = [];
    }

-- Controls that a run can be started with.
pub record IsRunnable (c : RuntimeControls) : Type 0 where
  pub warmup : is_negative c.warmup_iterations ≡ false
  pub measured : is_positive c.measured_iterations ≡ true
  pub posture : c.cache_posture ≢ []
  pub concurrency : is_positive c.concurrency ≡ true
  pub procs : is_positive c.max_procs ≡ true

is_empty-report_if : (b : Bool) (m : Text) → is_empty (report_if b m) ≡ not b
unfolding report_if
is_empty-report_if true m = refl
is_empty-report_if false m = refl

is_empty-report_if-append :
    (b : Bool) (m : Text) (rest : List Text)
    → is_empty (report_if b m ++ rest) ≡ (not b && is_empty rest)
unfolding report_if
is_empty-report_if-append true m rest = refl
is_empty-report_if-append false m rest = refl

ruleset reports = (is_empty-report_if-append, is_empty-report_if)

not-not : (b : Bool) → not (not b) ≡ b
not-not true = refl
not-not false = refl

-- The checks of both sides, which take turns.
abbrev both_runnable : RuntimeControls → RuntimeControls → Bool
both_runnable a b =
    not (is_negative a.warmup_iterations)
    && (not (is_negative b.warmup_iterations)
        && (is_positive a.measured_iterations
            && (is_positive b.measured_iterations
                && (not (text_eq a.cache_posture [])
                    && (not (text_eq b.cache_posture [])
                        && (is_positive a.concurrency
                            && (is_positive b.concurrency
                                && (is_positive a.max_procs && is_positive b.max_procs))))))))

is_empty-validity : (a b : RuntimeControls) → is_empty (validity a b) ≡ both_runnable a b
unfolding validity
is_empty-validity a b = simp (reports, not-not)

unfoldable pub same_controls : RuntimeControls → RuntimeControls → Bool
same_controls a b =
    int_eq a.warmup_iterations b.warmup_iterations
    && (int_eq a.measured_iterations b.measured_iterations
        && (text_eq a.cache_posture b.cache_posture
            && (int_eq a.concurrency b.concurrency && int_eq a.max_procs b.max_procs)))

is_empty-asymmetry :
    (quote : Text → Text) (a b : RuntimeControls)
    → is_empty (asymmetry quote a b) ≡ same_controls a b
unfolding asymmetry same_controls
is_empty-asymmetry quote a b = simp (reports, not-not)

claimable-tests :
    (quote : Text → Text) (a b : RuntimeControls)
    → (validate_fairness quote a b).claimable ≡ (both_runnable a b && same_controls a b)
unfolding validate_fairness
claimable-tests quote a b =
    rw
      (
        length-is_empty (validity a b ++ asymmetry quote a b),
        is_empty-append (validity a b) (asymmetry quote a b),
        is_empty-validity a b,
        is_empty-asymmetry quote a b,
      )
      refl

pub controls-eq : (a b : RuntimeControls) → same_controls a b ≡ true → a ≡ b
unfolding same_controls
controls-eq a b h =
    let p : a.warmup_iterations ≡ b.warmup_iterations =
      ground (arith, int_eq_iff a.warmup_iterations b.warmup_iterations) in
    let q : a.measured_iterations ≡ b.measured_iterations =
      ground (arith, int_eq_iff a.measured_iterations b.measured_iterations) in
    let r : a.cache_posture ≡ b.cache_posture =
      ground (arith, text_eq_iff a.cache_posture b.cache_posture) in
    let s : a.concurrency ≡ b.concurrency =
      ground (arith, int_eq_iff a.concurrency b.concurrency) in
    let t : a.max_procs ≡ b.max_procs = ground (arith, int_eq_iff a.max_procs b.max_procs) in
    λ i. record {
      warmup_iterations = p i;
      measured_iterations = q i;
      cache_posture = r i;
      concurrency = s i;
      max_procs = t i;
    }

same_controls_refl : (a : RuntimeControls) → same_controls a a ≡ true
unfolding same_controls
same_controls_refl a = ground (
  arith,
  int_eq_iff a.warmup_iterations a.warmup_iterations,
  int_eq_iff a.measured_iterations a.measured_iterations,
  text_eq_iff a.cache_posture a.cache_posture,
  int_eq_iff a.concurrency a.concurrency,
  int_eq_iff a.max_procs a.max_procs,
)

runnable : (a b : RuntimeControls) → both_runnable a b ≡ true → IsRunnable a
runnable a b h = record {
  warmup = ground arith;
  measured = ground arith;
  posture = λ e. ground (arith, text_eq_iff a.cache_posture []);
  concurrency = ground arith;
  procs = ground arith;
}

runnable-tests : (a : RuntimeControls) → IsRunnable a → both_runnable a a ≡ true
runnable-tests a r =
    let p = r.posture in
    let nonempty : text_eq a.cache_posture [] ≡ false =
      elim (Bool-cases (text_eq a.cache_posture [])) [
        | inl t ↦ absurd (r.posture (text_eq→eq a.cache_posture [] t))
        | inr f ↦ f
      ] in
    ground (arith, r.warmup, r.measured, r.concurrency, r.procs, nonempty)

-- Performance claims are allowed at the start exactly if both sides have the same controls, and
-- these can be run: no negative number of warm-ups, at least one measured iteration, a cache posture,
-- a positive concurrency and a positive number of processors.
pub validate_fairness-claimable :
    (quote : Text → Text) (a b : RuntimeControls)
    → ((validate_fairness quote a b).claimable ≡ true) ↔ ((a ≡ b) × IsRunnable a)
validate_fairness-claimable quote a b = (
  λ h.
      let both : (both_runnable a b ≡ true) × (same_controls a b ≡ true) =
        (ground (arith, claimable-tests quote a b), ground (arith, claimable-tests quote a b)) in
      (controls-eq a b both.1, runnable a b both.0),
  λ h.
      subst (λ c. (validate_fairness quote a c).claimable ≡ true) h.0
        (rw (claimable-tests quote a a, runnable-tests a h.1, same_controls_refl a) refl),
)
