-- ===== src/Api/Endings.antt =====
-- The end of processJob keeps the invariant of the service (internal/api/analysis_handler.go).
use mathlib.Core.List.{append_assoc}
use parser_go.Prelude.{
  Text, text_eq, text_eq_iff, true, false, ◌≡◌, refl, subst, List, ◌∷◌, ◌++◌, arith, Option, none,
  some, is_some, Bool-cases, Option-cases, inl, inr, ◌⊎◌,
}
use parser_go.Prelude.Map
use parser_go.Prelude.Map.{Map, get-put}
use parser_go.Clock.{Time}
use parser_go.Job.{Job, JobError, State, succeeded, failed, is_unset, is_pending}
use parser_go.Job.Store
use parser_go.Job.Store.{Store, get-update, updated, patch}
use parser_go.Job.Laws.{update-IsWellKeyed}
use parser_go.Summary.Compute.{Summary}
use parser_go.Api.Handler.{Env, Handler, Workspace, QueuedJob}
use parser_go.Api.Detail.{workspace_summary}
use parser_go.Api.Process.{
  Ending, failure, success, finish_job, fail_job, succeed_job, end_job, run_analysis, state_update,
}
use parser_go.Api.Works.{
  pending_in, IsValidWork, has_work, AreWorks, AreWorks-store, AreWorks-remove, Accounts,
  has_work-left,
}
use parser_go.Api.Names.{safe_terminal_error_message}
use parser_go.Api.Invariant.{Inv, consistent}

Ending-cases :
    {F : Type 0} (e : Ending F)
    → ((code : Text) × (message : Text) × (e ≡ failure code message))
      ⊎ ((sum : Summary F) × (e ≡ success sum))
Ending-cases (failure code message) = inl (code, message, refl)
Ending-cases (success sum) = inr (sum, refl)

ended-not_pending :
    (k : Text) (s : State) (error : Option JobError) (now : Time) (o : Option Job)
    → is_unset s ≡ false
    → is_pending s ≡ false
    → pending_in (patch (state_update k s error now) o) ≡ false
unfolding updated
ended-not_pending k s error now none u p = refl
ended-not_pending k s error now (some j) u p = rw (u, p) refl

module _ {F : Type 0} where
  ended-consistent :
      (k : Text) (now : Time) (error : JobError) (o : Option Job) (space : Option (Workspace F))
      → consistent (patch (state_update k failed (some error) now) o) space ≡ true
  unfolding updated
  ended-consistent k now error none space = refl
  ended-consistent k now error (some j) space = refl

  ended-consistent_with :
      (k : Text) (now : Time) (o : Option Job) (space : Option (Workspace F))
      → is_some (workspace_summary space) ≡ true
      → consistent (patch (state_update k succeeded none now) o) space ≡ true
  unfolding updated
  ended-consistent_with k now none space s = refl
  ended-consistent_with k now (some j) space s = s

  pending-space :
      (o : Option Job) (space : Option (Workspace F))
      → pending_in o ≡ true
      → consistent o space ≡ true
      → is_some space ≡ true
  pending-space none space p c = cc
  pending-space (some j) space p c = ground arith

  module _ (now : Time) (h : Handler F) (before : List QueuedJob) (w : QueuedJob)
      (after : List QueuedJob) (v : Inv h (before ++ w ∷ after)) where
    others : AreWorks h.max_input_size h.job_store ((before ++ w ∷ after) ++ h.job_queue)
    others = v.works

    left :
        AreWorks h.max_input_size h.job_store ((before ++ after) ++ h.job_queue)
        × (has_work w.id ((before ++ after) ++ h.job_queue) ≡ false)
        × (pending_in (Store.get w.id h.job_store) ≡ true)
        × IsValidWork h.max_input_size w
    left =
        let r = AreWorks-remove h.max_input_size h.job_store before w (after ++ h.job_queue) (
          subst (AreWorks h.max_input_size h.job_store)
            (append_assoc before (w ∷ after) h.job_queue) v.works) in
        let e = append_assoc before after h.job_queue in (rw e r.0, rw e r.1, r.2, r.3)

    -- The store after a job's last update: the other jobs are as they were.
    left-works :
        (j : Job)
        → j.id ≡ w.id
        → AreWorks h.max_input_size
            (Store.update j h.job_store).0
            ((before ++ after) ++ h.job_queue)
    left-works j i =
        AreWorks-store h.max_input_size h.job_store _ ((before ++ after) ++ h.job_queue)
          (λ k q p. ground (arith, get-update j k h.job_store, text_eq_iff j.id k, left.1)) left.0

    left-accounted :
        (j : Job)
        → j.id ≡ w.id
        → ((o : Option Job) → pending_in (patch j o) ≡ false)
        → Accounts (Store.update j h.job_store).0 ((before ++ after) ++ h.job_queue)
    left-accounted j i ended k p = elim (Bool-cases (text_eq w.id k)) [
      | inl t ↦ ground (arith, get-update j k h.job_store, ended (Store.get k h.job_store))
      | inr f ↦
          subst (λ b. b ≡ true) (has_work-left k before w after h.job_queue f)
            (v.accounted k (ground (arith, get-update j k h.job_store)))
    ]

    pub fail_job-Inv :
        (code message : Text) → Inv (fail_job w.id code message now h) (before ++ after)
    unfolding fail_job
    fail_job-Inv code message =
        let update : Job =
          state_update w.id failed
            (some (record { code = code; message = safe_terminal_error_message code message }))
            now in
        record {
          keyed = update-IsWellKeyed update h.job_store v.keyed;
          keys = v.keys;
          consistency = λ k. elim (Bool-cases (text_eq w.id k)) [
            | inl t ↦
                rw (get-update update k h.job_store, t)
                  (ended-consistent w.id now
                    (record { code = code; message = safe_terminal_error_message code message })
                    (Store.get k h.job_store) (Map.get k h.workspaces))
            | inr f ↦ rw (get-update update k h.job_store, f) (v.consistency k)
          ];
          works = left-works update refl;
          accounted =
              left-accounted update refl
                (λ o. ended-not_pending w.id failed update.error now o refl refl);
          queue_bound = v.queue_bound;
          retains = v.retains;
        }

    own_space : is_some (Map.get w.id h.workspaces) ≡ true
    own_space =
        pending-space (Store.get w.id h.job_store) (Map.get w.id h.workspaces) left.2
          (v.consistency w.id)

    pub succeed_job-Inv : (sum : Summary F) → Inv (succeed_job w.id sum now h) (before ++ after)
    unfolding succeed_job
    succeed_job-Inv sum = elim (Option-cases (Map.get w.id h.workspaces)) [
      | inl e ↦ ground (arith, own_space, e)
      | inr (ws, e) ↦
          let update : Job = state_update w.id succeeded none now in
          let space : Workspace F = record ws { summary = some sum } in
          rw e (record {
            keyed = update-IsWellKeyed update h.job_store v.keyed;
            keys = v.keys;
            consistency = λ k. elim (Bool-cases (text_eq w.id k)) [
              | inl t ↦
                  rw (get-update update k h.job_store, get-put w.id k space h.workspaces, t)
                    (ended-consistent_with w.id now (Store.get k h.job_store) (some space) refl)
              | inr f ↦
                  rw (get-update update k h.job_store, get-put w.id k space h.workspaces, f)
                    (v.consistency k)
            ];
            works = left-works update refl;
            accounted =
                left-accounted update refl
                  (λ o. ended-not_pending w.id succeeded none now o refl refl);
            queue_bound = v.queue_bound;
            retains = v.retains;
          })
    ]

-- A worker that ends a job leaves it with an error or with a summary.
pub finish_job-Inv :
    {F : Type 0} (env : Env F) (now : Time) (h : Handler F) (before : List QueuedJob)
    (w : QueuedJob) (after : List QueuedJob)
    → Inv h (before ++ w ∷ after)
    → Inv (finish_job env w now h) (before ++ after)
unfolding finish_job end_job
finish_job-Inv env now h before w after v =
    elim (Ending-cases (run_analysis env w.format w.profile w.input_data)) [
      | inl (code, message, e) ↦ rw e (fail_job-Inv now h before w after v code message)
      | inr (sum, e) ↦ rw e (succeed_job-Inv now h before w after v sum)
    ]
