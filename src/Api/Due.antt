-- ===== src/Api/Due.antt =====
-- Which jobs expireEligibleJobs of internal/api/analysis_handler.go expires, and what it makes of them.
use parser_go.Prelude.{
  ℕ, ◌≤◌, Text, true, false, Option, none, some, ◌≡◌, refl, ◌⊎◌, ◌==◌, inl, inr, arith, Bool-cases,
  if◌then◌else◌,
}
use parser_go.Clock.{Time, zero_time, is_zero, sub}
use parser_go.Job.{Job, State, unset, queued, running, succeeded, failed, expired}
use parser_go.Job.Store
use parser_go.Job.Laws.{IsWellKeyed}
use parser_go.Api.Handler.{Handler, is_expirable_job_state}
use parser_go.Api.Jobs.{is_due, expire_eligible_jobs}
use parser_go.Api.Expiry.{expire_eligible_jobs-get, expire_one, map_job}

-- A job that has ended, and whose last update has a time and is at least the retention ago.
pub record IsDue (now : Time) (retention : ℕ) (j : Job) : Type 0 where
  pub ended : (j.state ≡ succeeded) ⊎ (j.state ≡ failed)
  pub has_time : ¬ (j.updated_at ≡ zero_time)
  pub old : retention ≤ sub now j.updated_at

expirable-ended : (s : State) → is_expirable_job_state s ≡ true → (s ≡ succeeded) ⊎ (s ≡ failed)
expirable-ended succeeded e = inl refl
expirable-ended failed e = inr refl
expirable-ended unset e = cc
expirable-ended queued e = cc
expirable-ended running e = cc
expirable-ended expired e = cc

ended-expirable : (s : State) → (s ≡ succeeded) ⊎ (s ≡ failed) → is_expirable_job_state s ≡ true
ended-expirable s (inl e) = rw e refl
ended-expirable s (inr e) = rw e refl

pub is_due-IsDue :
    (now : Time) (retention : ℕ) (j : Job) → is_due now retention j ≡ true → IsDue now retention j
is_due-IsDue now retention j d = record {
  ended = expirable-ended j.state (ground arith);
  has_time = λ e. ground arith;
  old = ground arith;
}

IsDue-is_due :
    (now : Time) (retention : ℕ) (j : Job) → IsDue now retention j → is_due now retention j ≡ true
IsDue-is_due now retention j d =
    let ended = ended-expirable j.state d.ended in
    let has_time = d.has_time in let old = d.old in ground arith

pub not-IsDue :
    (now : Time) (retention : ℕ) (j : Job)
    → is_due now retention j ≡ false
    → ¬ IsDue now retention j
not-IsDue now retention j f d = ground (arith, IsDue-is_due now retention j d)

-- What the store has under a key before the expiry at `now` and after it.
pub data AfterExpiry (now : Time) (retention : ℕ) : Option Job → Option Job → Type 0 where
  no_job : AfterExpiry now retention none none
  expires :
      (j : Job)
      → IsDue now retention j
      → AfterExpiry now retention (some j) (
          some
            (record j { state = expired; updated_at = if is_zero now then j.updated_at else now }))
  stays : (j : Job) → ¬ IsDue now retention j → AfterExpiry now retention (some j) (some j)

expire_one-AfterExpiry :
    (now : Time) (retention : ℕ) (o : Option Job)
    → AfterExpiry now retention o (map_job (expire_one now retention) o)
expire_one-AfterExpiry now retention none = no_job
expire_one-AfterExpiry now retention (some j) = elim (Bool-cases (is_due now retention j)) [
  | inl d ↦ rw d (expires j (is_due-IsDue now retention j d))
  | inr d ↦ rw d (stays j (not-IsDue now retention j d))
]

-- In a store that holds each job once, under its ID, and with a retention that is not zero, expiry
-- marks a job as expired exactly if it succeeded or failed and its last update has a time and is at least
-- the retention ago; the time of its update becomes the present one, unless that is the zero time, and its
-- ID, error and time of creation stay. Every other job stays as it is, and no job comes or goes.
pub expire_eligible_jobs-AfterExpiry :
    {F : Type 0} (now : Time) (k : Text) (h : Handler F)
    → IsWellKeyed h.job_store
    → (h.retention == 0) ≡ false
    → AfterExpiry now h.retention
        (Store.get k h.job_store)
        (Store.get k (expire_eligible_jobs now h).job_store)
expire_eligible_jobs-AfterExpiry now k h w r =
    rw (expire_eligible_jobs-get now k h w r)
      (expire_one-AfterExpiry now h.retention (Store.get k h.job_store))
