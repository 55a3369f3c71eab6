-- ===== src/Api/Lifecycle.antt =====
-- Expiry and the start of processJob keep the invariant of the service
-- (internal/api/analysis_handler.go).
use mathlib.Core.List.{append_assoc}
use parser_go.Prelude.{
  ℕ, Text, text_eq, text_eq→eq, Bool, true, false, ◌≡◌, refl, sym, subst, List, [], ◌∷◌, ◌++◌,
  arith, Option, none, some, if◌then◌else◌, Bool-cases, inl, inr,
}
use parser_go.Prelude.Map
use parser_go.Prelude.Map.{Map, get-put}
use parser_go.Clock.{Time}
use parser_go.Job.{Job, running}
use parser_go.Job.Store
use parser_go.Job.Store.{Store, get-update, updated, patch}
use parser_go.Job.Laws.{update-IsWellKeyed}
use parser_go.Api.Handler.{Handler, Workspace, QueuedJob}
use parser_go.Api.Jobs.{expire_eligible_jobs}
use parser_go.Api.Process.{begin_job, state_update}
use parser_go.Api.Expiry.{expire_eligible_jobs-get, expire_eligible_jobs-spaces}
use parser_go.Api.Forgetting.{expire_eligible_jobs-keeps, expire_eligible_jobs-SameSettings}
use parser_go.Api.Works.{pending_in, has_work, AreWorks, AreWorks-store, AreWorks-remove}
use parser_go.Api.Invariant.{
  Inv, consistent, expired-consistent, expired-pending, expired-not_pending,
}

-- A job that goes from the queue to the workers.
AreWorks-taken :
    (max : ℕ) (s : Store) (working : List QueuedJob) (w : QueuedJob) (rest : List QueuedJob)
    → AreWorks max s (working ++ w ∷ rest)
    → AreWorks max s ((working ++ w ∷ []) ++ rest)
AreWorks-taken max s working w rest a =
    subst (AreWorks max s) (sym (append_assoc working (w ∷ []) rest)) a

started-pending :
    (id k : Text) (now : Time) (same : Bool) (o : Option Job)
    → pending_in o ≡ true
    → pending_in (if same then patch (state_update id running none now) o else o) ≡ true
unfolding updated
started-pending id k now same none p = cc
started-pending id k now same (some j) p = ground arith

started-was_pending :
    (id k : Text) (now : Time) (same : Bool) (o : Option Job)
    → pending_in (if same then patch (state_update id running none now) o else o) ≡ true
    → (same ≡ true → pending_in o ≡ true)
    → pending_in o ≡ true
started-was_pending id k now true o p h = h refl
started-was_pending id k now false o p h = p

module _ {F : Type 0} where
  -- The jobs that are due expire, with their workspaces, and no job of the workers or the queue.
  pub expire_eligible_jobs-Inv :
      (now : Time) (h : Handler F) (working : List QueuedJob)
      → Inv h working
      → Inv (expire_eligible_jobs now h) working
  expire_eligible_jobs-Inv now h working v =
      let same = expire_eligible_jobs-SameSettings now h in
      let kept = expire_eligible_jobs-keeps now h v.keyed v.keys in
      record {
        keyed = kept.0;
        keys = kept.1;
        consistency = λ k.
            rw
              (
                expire_eligible_jobs-get now k h v.keyed v.retains,
                expire_eligible_jobs-spaces now k h v.keyed v.retains,
              )
              (expired-consistent now h.retention (Store.get k h.job_store) (Map.get k h.workspaces)
                (v.consistency k));
        works =
            rw (same.0, same.5)
              (AreWorks-store h.max_input_size h.job_store _ (working ++ h.job_queue)
                (λ k q p.
                  rw (expire_eligible_jobs-get now k h v.keyed v.retains)
                    (expired-pending now h.retention (Store.get k h.job_store) p))
                v.works);
        accounted = λ k p. rw same.5 (
            v.accounted k (
              expired-not_pending now h.retention (Store.get k h.job_store) (
                subst (λ o. pending_in o ≡ true)
                  (expire_eligible_jobs-get now k h v.keyed v.retains) p)));
        queue_bound = rw (same.5, same.1) v.queue_bound;
        retains = rw same.3 v.retains;
      }

  started-consistent :
      (id k : Text) (now : Time) (o : Option Job) (space : Option (Workspace F))
      → pending_in o ≡ true
      → consistent o space ≡ true
      → consistent (patch (state_update id running none now) o) space ≡ true
  unfolding updated
  started-consistent id k now none space p h = refl
  started-consistent id k now (some j) space p h = ground arith

  -- A worker that takes a job marks it as running.
  pub begin_job-Inv :
      (now : Time) (h : Handler F) (working : List QueuedJob) (w : QueuedJob)
      (rest : List QueuedJob)
      → h.job_queue ≡ w ∷ rest
      → Inv h working
      → Inv (begin_job w.id now (record h { job_queue = rest })) (working ++ w ∷ [])
  unfolding begin_job
  begin_job-Inv now h working w rest e v =
      let update = state_update w.id running none now in
      let works =
        AreWorks-taken h.max_input_size h.job_store working w rest
          (subst (λ q. AreWorks h.max_input_size h.job_store (working ++ q)) e v.works) in
      let own =
        AreWorks-remove h.max_input_size h.job_store (working) w rest
          (subst (λ q. AreWorks h.max_input_size h.job_store (working ++ q)) e v.works) in
      record {
        keyed = update-IsWellKeyed update h.job_store v.keyed;
        keys = v.keys;
        consistency = λ k. elim (Bool-cases (text_eq w.id k)) [
          | inl t ↦
              rw (get-update update k h.job_store, t)
                (started-consistent w.id k now (Store.get k h.job_store) (Map.get k h.workspaces)
                  (subst (λ i. pending_in (Store.get i h.job_store) ≡ true) (text_eq→eq w.id k t)
                    own.2)
                  (v.consistency k))
          | inr f ↦ rw (get-update update k h.job_store, f) (v.consistency k)
        ];
        works =
            AreWorks-store h.max_input_size h.job_store _ ((working ++ w ∷ []) ++ rest)
              (λ k q p.
                rw (get-update update k h.job_store)
                  (started-pending w.id k now (text_eq w.id k) (Store.get k h.job_store) p))
              works;
        accounted = λ k p.
            subst (λ ws. has_work k ws ≡ true) (sym (append_assoc working (w ∷ []) rest))
              (subst (λ q. has_work k (working ++ q) ≡ true) e
                (v.accounted k (
                  started-was_pending w.id k now (text_eq w.id k) (Store.get k h.job_store)
                    (subst (λ o. pending_in o ≡ true) (get-update update k h.job_store) p)
                    (λ t.
                      subst (λ i. pending_in (Store.get i h.job_store) ≡ true) (text_eq→eq w.id k t)
                        own.2))));
        queue_bound = ground (arith, e, v.queue_bound);
        retains = v.retains;
      }
