-- ===== src/Analysis/Line/Runs.antt =====
-- Runs of a class of bytes, and single bytes: what the pieces of the matcher are made of.
use parser_go.Prelude.{
  ℕ, Text, Bool, true, false, ◌≡◌, ◌≢◌, inl, inr, refl, sym, ap, ◌∙◌, [], ◌∷◌, ◌++◌, all, Option,
  none, some, arith, Bool-cases,
}
use parser_go.Prelude.Decimal.{is_digit}
use parser_go.Analysis.Line.{is_space, not_space, run, rest, many1, some_run, byte, ◌>>=◌}
use parser_go.Analysis.Line.Pattern.{Run, Stops}

pub run-rest : (p : ℕ → Bool) (s : Text) → run p s ++ rest p s ≡ s
unfolding run rest
run-rest p [] = refl
run-rest p (c ∷ s) = ground (arith, run-rest p s)

pub all-run : (p : ℕ → Bool) (s : Text) → all p (run p s) ≡ true
unfolding run
all-run p [] = refl
all-run p (c ∷ s) = ground (arith, all-run p s)

pub rest-Stops : (p : ℕ → Bool) (s : Text) → Stops p (rest p s)
unfolding rest
rest-Stops p [] = tt
rest-Stops p (c ∷ s) = elim (Bool-cases (p c)) [ inl h ↦ rw h (rest-Stops p s) | inr h ↦ rw h h ]

pub run-append : (p : ℕ → Bool) (r t : Text) → all p r ≡ true → Stops p t → run p (r ++ t) ≡ r
unfolding run
run-append p [] [] h st = refl
run-append p [] (c ∷ t) h st = rw st
run-append p (c ∷ r) t h st = ground (arith, run-append p r t)

pub rest-append : (p : ℕ → Bool) (r t : Text) → all p r ≡ true → Stops p t → rest p (r ++ t) ≡ t
unfolding rest
rest-append p [] [] h st = refl
rest-append p [] (c ∷ t) h st = rw st
rest-append p (c ∷ r) t h st = ground (arith, rest-append p r t)

pub some_run-inv :
    (r t r' t' : Text) → some_run r t ≡ some (r', t') → (r ≡ r') × (t ≡ t') × (r ≢ [])
some_run-inv [] t r' t' h = cc
some_run-inv (c ∷ r) t r' t' h = (ground arith, ground arith, λ e. cc)

pub some_run-lem : (r t : Text) → r ≢ [] → some_run r t ≡ some (r, t)
some_run-lem [] t h = absurd (h refl)
some_run-lem (c ∷ r) t h = refl

pub many1-inv :
    (p : ℕ → Bool) (s r t : Text) → many1 p s ≡ some (r, t) → (s ≡ r ++ t) × Run p r × Stops p t
unfolding many1
many1-inv p s r t h =
    let (e, f, n) = some_run-inv (run p s) (rest p s) r t h in
    (
      sym (run-rest p s) ∙ ap (λ x. x ++ rest p s) e ∙ ap (λ x. r ++ x) f,
      record { some_byte = λ q. n (e ∙ q); in_class = rw (← e) (all-run p s) },
      rw (← f) (rest-Stops p s),
    )

pub many1-append :
    (p : ℕ → Bool) (r t : Text) → Run p r → Stops p t → many1 p (r ++ t) ≡ some (r, t)
unfolding many1
many1-append p r t h st =
    rw (run-append p r t h.in_class st, rest-append p r t h.in_class st)
      (some_run-lem r t h.some_byte)

pub bind-some {ℓ κ} :
    {A : Type ℓ} {B : Type κ} (m : Option A) (f : A → Option B) {b : B}
    → (m >>= f) ≡ some b
    → (a : A) × (m ≡ some a) × (f a ≡ some b)
bind-some none f h = cc
bind-some (some a) f h = (a, refl, h)

pub byte-inv : (d : ℕ) (s t : Text) → byte d s ≡ some t → s ≡ d ∷ t
unfolding byte
byte-inv d [] t h = cc
byte-inv d (c ∷ s) t h = ground arith

pub byte-cons : (d : ℕ) (t : Text) → byte d (d ∷ t) ≡ some t
unfolding byte
byte-cons d t = ground arith

-- A run of one class stops a run of a class that shares no byte with it.
pub Run-Stops :
    (p q : ℕ → Bool) (r t : Text)
    → ((c : ℕ) → p c ≡ true → q c ≡ false)
    → Run p r
    → Stops q (r ++ t)
Run-Stops p q [] t apart h = absurd (h.some_byte refl)
Run-Stops p q (c ∷ r) t apart h = apart c (ground (arith, h.in_class))

pub space-stops_not_space : (c : ℕ) → is_space c ≡ true → not_space c ≡ false
space-stops_not_space c h = ground arith

pub not_space-stops_space : (c : ℕ) → not_space c ≡ true → is_space c ≡ false
not_space-stops_space c h = ground arith

pub space-stops_digit : (c : ℕ) → is_space c ≡ true → is_digit c ≡ false
space-stops_digit c h = ground arith

pub digit-stops_space : (c : ℕ) → is_digit c ≡ true → is_space c ≡ false
digit-stops_space c h = ground arith
