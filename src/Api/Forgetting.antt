-- ===== src/Api/Forgetting.antt =====
-- Expiry and the idempotency keys in internal/api/analysis_handler.go, what else expiry keeps, and what it
-- leaves alone.
use parser_go.Prelude.{
  ℕ, Text, Bool, true, false, ◌&&◌, Option, none, some, List, [], ◌∷◌, ◌≡◌, refl, ◌∙◌, arith,
  if◌then◌else◌, text_eq, text_eq_iff, inl, inr, Bool-cases, ◌==◌,
}
use parser_go.Prelude.Map
use parser_go.Prelude.Map.{Map, Entry, get-delete}
use parser_go.Prelude.Keys.{IsUnique}
use parser_go.Clock.{Time}
use parser_go.Job.{Job}
use parser_go.Job.Store
use parser_go.Job.Store.{Store, get-update, patch, updated}
use parser_go.Job.Laws.{update-IsWellKeyed, IsWellKeyed, list-Snapshot, has_id-list}
use parser_go.Api.Handler.{Handler, IdempotencyRecord, without_job, delete_idempotency_for_job}
use parser_go.Api.Jobs.{expiry, is_due, expire_job, expire_loop, expire_eligible_jobs}
use parser_go.Api.Expiry.{has_due, has_due-list, step_job, step-retention, due_in}

-- An idempotency record, unless its job is one of those that go.
abbrev pub forget : Bool → Option IdempotencyRecord → Option IdempotencyRecord
forget gone o = if gone then none else o

abbrev pub names_job : Text → Option IdempotencyRecord → Bool
names_job id none = false
names_job id (some r) = text_eq r.job_id id

get-without_job :
    (id key : Text) (m : Map IdempotencyRecord)
    → IsUnique m
    → Map.get key (without_job id m) ≡ forget (names_job id (Map.get key m)) (Map.get key m)
unfolding Map.get without_job
get-without_job id key [] u = refl
get-without_job id key (e ∷ m) u =
    ground (arith, get-without_job id key m u.1, u.0, text_eq_iff e.key key)

without_job-IsUnique :
    (id : Text) (m : Map IdempotencyRecord) → IsUnique m → IsUnique (without_job id m)
unfolding without_job
without_job-IsUnique id [] u = tt
without_job-IsUnique id (e ∷ m) u =
    ground (arith, get-without_job id e.key m u.1, u.0, without_job-IsUnique id m u.1)

abbrev names_due : Time → ℕ → Option IdempotencyRecord → List Job → Bool
names_due now retention none js = false
names_due now retention (some r) js = has_due now retention r.job_id js

abbrev pub names_job_due : Time → ℕ → Store → Option IdempotencyRecord → Bool
names_job_due now retention s none = false
names_job_due now retention s (some r) = due_in now retention (Store.get r.job_id s)

names_due-list :
    (now : Time) (retention : ℕ) (o : Option IdempotencyRecord) (s : Store)
    → IsWellKeyed s
    → names_due now retention o (Store.list s) ≡ names_job_due now retention s o
names_due-list now retention none s w = refl
names_due-list now retention (some r) s w = ground (
  arith,
  has_due-list now retention r.job_id s (Store.list s) (list-Snapshot s w),
  has_id-list r.job_id s w,
)

and_false : (b : Bool) → (b && false) ≡ false
and_false true = refl
and_false false = refl

text_eq-true : (s t : Text) → text_eq s t ≡ true → text_eq t s ≡ true
text_eq-true s t h = ground (arith, text_eq_iff s t, text_eq_iff t s)

text_eq-false : (s t : Text) → text_eq s t ≡ false → text_eq t s ≡ false
text_eq-false s t h = ground (arith, text_eq_iff s t, text_eq_iff t s)

-- Forgetting by the first job and then by the others.
forget-forget :
    (now : Time) (retention : ℕ) (j : Job) (js : List Job) (o : Option IdempotencyRecord)
    → forget
        (names_due now retention (forget (is_due now retention j && names_job j.id o) o) js)
        (forget (is_due now retention j && names_job j.id o) o)
      ≡ forget (names_due now retention o (j ∷ js)) o
unfolding has_due
forget-forget now retention j js none = ground arith
forget-forget now retention j js (some r) = elim (Bool-cases (is_due now retention j)) [
  | inr d ↦ rw (d, and_false (text_eq j.id r.job_id)) refl
  | inl d ↦ elim (Bool-cases (text_eq r.job_id j.id)) [
    | inl a ↦ rw (d, a, text_eq-true r.job_id j.id a) refl
    | inr a ↦ rw (d, a, text_eq-false r.job_id j.id a) refl
  ]
]

module _ {F : Type 0} where
  step-keys :
      (now : Time) (j : Job) (key : Text) (h : Handler F)
      → IsUnique h.idempotency
      → Map.get key (step_job now j h).idempotency
        ≡ forget
            (is_due now h.retention j && names_job j.id (Map.get key h.idempotency))
            (Map.get key h.idempotency)
  unfolding expire_job delete_idempotency_for_job
  step-keys now j key h u = elim (Bool-cases (is_due now h.retention j)) [
    | inl d ↦ rw d (get-without_job j.id key h.idempotency u)
    | inr d ↦ rw d refl
  ]

  step-IsUnique :
      (now : Time) (j : Job) (h : Handler F)
      → IsUnique h.idempotency
      → IsUnique (step_job now j h).idempotency
  unfolding expire_job delete_idempotency_for_job
  step-IsUnique now j h u = elim (Bool-cases (is_due now h.retention j)) [
    | inl d ↦ rw d (without_job-IsUnique j.id h.idempotency u)
    | inr d ↦ rw d u
  ]

  expire_loop-keys :
      (now : Time) (key : Text) (js : List Job) (h : Handler F)
      → IsUnique h.idempotency
      → Map.get key (expire_loop now js h).idempotency
        ≡ forget
            (names_due now h.retention (Map.get key h.idempotency) js)
            (Map.get key h.idempotency)
  unfolding expire_loop has_due
  expire_loop-keys now key [] h u = ground arith
  expire_loop-keys now key (j ∷ js) h u =
      expire_loop-keys now key js (step_job now j h) (step-IsUnique now j h u)
      ∙ rw (step-retention now j h, step-keys now j key h u)
          (forget-forget now h.retention j js (Map.get key h.idempotency))

  -- In a store that holds each job once, under its ID, with a retention that is not zero and one
  -- entry for each idempotency key, a key is forgotten if expiry finds its job due, and not
  -- otherwise.
  pub expire_eligible_jobs-keys :
      (now : Time) (key : Text) (h : Handler F)
      → IsWellKeyed h.job_store
      → IsUnique h.idempotency
      → (h.retention == 0) ≡ false
      → Map.get key (expire_eligible_jobs now h).idempotency
        ≡ forget
            (names_job_due now h.retention h.job_store (Map.get key h.idempotency))
            (Map.get key h.idempotency)
  unfolding expire_eligible_jobs
  expire_eligible_jobs-keys now key h w u r = ground (
    arith,
    expire_loop-keys now key (Store.list h.job_store) h u,
    names_due-list now h.retention (Map.get key h.idempotency) h.job_store w,
  )

  step-IsWellKeyed :
      (now : Time) (j : Job) (h : Handler F)
      → IsWellKeyed h.job_store
      → IsWellKeyed (step_job now j h).job_store
  unfolding expire_job delete_idempotency_for_job
  step-IsWellKeyed now j h w = elim (Bool-cases (is_due now h.retention j)) [
    | inl d ↦ rw d (update-IsWellKeyed (expiry now j) h.job_store w)
    | inr d ↦ rw d w
  ]

  expire_loop-keeps :
      (now : Time) (js : List Job) (h : Handler F)
      → IsWellKeyed h.job_store
      → IsUnique h.idempotency
      → IsWellKeyed (expire_loop now js h).job_store × IsUnique (expire_loop now js h).idempotency
  unfolding expire_loop
  expire_loop-keeps now [] h w u = (w, u)
  expire_loop-keeps now (j ∷ js) h w u =
      expire_loop-keeps now js (step_job now j h) (step-IsWellKeyed now j h w)
        (step-IsUnique now j h u)

  pub expire_eligible_jobs-keeps :
      (now : Time) (h : Handler F)
      → IsWellKeyed h.job_store
      → IsUnique h.idempotency
      → IsWellKeyed (expire_eligible_jobs now h).job_store
        × IsUnique (expire_eligible_jobs now h).idempotency
  unfolding expire_eligible_jobs
  expire_eligible_jobs-keeps now h w u = elim (Bool-cases (h.retention == 0)) [
    | inl r ↦ rw r (w, u)
    | inr r ↦ rw r (expire_loop-keeps now (Store.list h.job_store) h w u)
  ]

  -- The fields that expiry leaves alone.
  abbrev pub SameSettings : Handler F → Handler F → Type 0
  SameSettings a b =
      (a.max_input_size ≡ b.max_input_size)
      × (a.queue_limit ≡ b.queue_limit)
      × (a.workers ≡ b.workers)
      × (a.retention ≡ b.retention)
      × (a.ready ≡ b.ready)
      × (a.job_queue ≡ b.job_queue)

  step-SameSettings : (now : Time) (j : Job) (h : Handler F) → SameSettings (step_job now j h) h
  unfolding expire_job delete_idempotency_for_job
  step-SameSettings now j h = elim (Bool-cases (is_due now h.retention j)) [
    | inl d ↦ rw d (refl, refl, refl, refl, refl, refl)
    | inr d ↦ rw d (refl, refl, refl, refl, refl, refl)
  ]

  SameSettings-trans : (a b c : Handler F) → SameSettings a b → SameSettings b c → SameSettings a c
  SameSettings-trans a b c p q = (p.0 ∙ q.0, p.1 ∙ q.1, p.2 ∙ q.2, p.3 ∙ q.3, p.4 ∙ q.4, p.5 ∙ q.5)

  expire_loop-SameSettings :
      (now : Time) (js : List Job) (h : Handler F) → SameSettings (expire_loop now js h) h
  unfolding expire_loop
  expire_loop-SameSettings now [] h = (refl, refl, refl, refl, refl, refl)
  expire_loop-SameSettings now (j ∷ js) h =
      SameSettings-trans (expire_loop now js (step_job now j h)) (step_job now j h) h
        (expire_loop-SameSettings now js (step_job now j h)) (step-SameSettings now j h)

  pub expire_eligible_jobs-SameSettings :
      (now : Time) (h : Handler F) → SameSettings (expire_eligible_jobs now h) h
  unfolding expire_eligible_jobs
  expire_eligible_jobs-SameSettings now h = elim (Bool-cases (h.retention == 0)) [
    | inl r ↦ rw r (refl, refl, refl, refl, refl, refl)
    | inr r ↦ rw r (expire_loop-SameSettings now (Store.list h.job_store) h)
  ]
