-- ===== src/Api/Idempotency.antt =====
-- Repeated submissions under an idempotency key: createOrReuseIdempotentJob of
-- internal/api/analysis_handler.go.
use parser_go.Prelude.{
  Text, text_eq, text_eq_iff, text_eq_refl, text_eq→eq, false, ◌≡◌, refl, arith, length, none, some,
  ltb, Bool-cases, Option-cases, inl, inr, sym, subst,
}
use parser_go.Prelude.Map
use parser_go.Prelude.Map.{Map, get-put, get-delete}
use parser_go.Clock.{Time}
use parser_go.Job.{Job, is_expired}
use parser_go.Job.Store
use parser_go.Job.Store.{get-create, get-delete_lem}
use parser_go.Api.Handler.{Handler}
use parser_go.Api.Jobs.{
  create_queued_job, create_or_reuse_idempotent_job, lookup_duplicate_job, Submission, job,
  key_conflict, saturated, Duplicate, missing, conflict, found, remember, or_create, new_job,
  new_workspace,
}
use parser_go.Api.Invariant.{create_queued_job-room, create_queued_job-full}

module _ {F : Type 0} where
  -- The key stands for a submission of this fingerprint, whose job has not expired.
  record Holds (key fingerprint : Text) (j : Job) (h : Handler F) : Type 0 where
    pub id : Text
    pub entry : Map.get key h.idempotency ≡ some (record { fingerprint = fingerprint; job_id = id })
    pub stored : Store.get id h.job_store ≡ some j
    pub live : is_expired j.state ≡ false

  Holds-found :
      (key fingerprint : Text) (j : Job) (h : Handler F)
      → Holds key fingerprint j h
      → lookup_duplicate_job key fingerprint h ≡ (h, found j)
  unfolding lookup_duplicate_job
  Holds-found key fingerprint j h k = rw (k.entry, text_eq_refl fingerprint, k.stored, k.live) refl

  Holds-conflict :
      (key fingerprint other : Text) (j : Job) (h : Handler F)
      → Holds key fingerprint j h
      → text_eq fingerprint other ≡ false
      → lookup_duplicate_job key other h ≡ (h, conflict)
  unfolding lookup_duplicate_job
  Holds-conflict key fingerprint other j h k d = rw (k.entry, d) refl

  abbrev Looked : Text → Text → Handler F × Duplicate → Type 0
  Looked key fingerprint (h, found j) = Holds key fingerprint j h
  Looked key fingerprint (h, missing) = Unit
  Looked key fingerprint (h, conflict) = Unit

  abbrev Submitted : Text → Text → Handler F × Submission → Type 0
  Submitted key fingerprint (h, job j) = Holds key fingerprint j h
  Submitted key fingerprint (h, key_conflict) = Unit
  Submitted key fingerprint (h, saturated) = Unit

  lookup_duplicate_job-Looked :
      (key fingerprint : Text) (h : Handler F)
      → Looked key fingerprint (lookup_duplicate_job key fingerprint h)
  unfolding lookup_duplicate_job
  lookup_duplicate_job-Looked key fingerprint h = elim (Option-cases (Map.get key h.idempotency)) [
    | inl e ↦ rw e tt
    | inr (r, e) ↦ rw e (elim (Bool-cases (text_eq r.fingerprint fingerprint)) [
      | inr f ↦ rw f tt
      | inl t ↦ rw t (elim (Option-cases (Store.get r.job_id h.job_store)) [
        | inl n ↦ rw n tt
        | inr (j, s) ↦ rw s (elim (Bool-cases (is_expired j.state)) [
          | inl x ↦ rw x tt
          | inr x ↦ rw x (record {
            id = r.job_id;
            entry = rw (sym (text_eq→eq r.fingerprint fingerprint t)) e;
            stored = s;
            live = x;
          })
        ])
      ])
    ])
  ]

  created-Submitted :
      (job_id : Text) (now : Time) (format profile input key fingerprint : Text) (h : Handler F)
      → Submitted key fingerprint
          (remember key fingerprint (create_queued_job job_id now format profile input h))
  created-Submitted job_id now format profile input key fingerprint h =
      elim (Bool-cases (ltb (length h.job_queue) h.queue_limit)) [
        | inl r ↦ rw (create_queued_job-room job_id now format profile input h r) (record {
          id = job_id;
          entry =
              rw
                (
                  get-put key key (record { fingerprint = fingerprint; job_id = job_id })
                      h.idempotency,
                  text_eq_refl key,
                )
                refl;
          stored =
              rw (get-create (new_job job_id now) job_id h.job_store, text_eq_refl job_id) refl;
          live = refl;
        })
        | inr r ↦ rw (create_queued_job-full job_id now format profile input h r) tt
      ]

  or_create-Submitted :
      (job_id : Text) (now : Time) (format profile input key fingerprint : Text)
      (o : Handler F × Duplicate)
      → Looked key fingerprint o
      → Submitted key fingerprint (or_create job_id now format profile input key fingerprint o)
  or_create-Submitted job_id now format profile input key fingerprint (h, conflict) k = tt
  or_create-Submitted job_id now format profile input key fingerprint (h, found j) k = k
  or_create-Submitted job_id now format profile input key fingerprint (h, missing) k =
      created-Submitted job_id now format profile input key fingerprint h

  create_or_reuse_idempotent_job-Submitted :
      (job_id : Text) (now : Time) (format profile input key fingerprint : Text) (h : Handler F)
      → Submitted key fingerprint
          (create_or_reuse_idempotent_job job_id now format profile input key fingerprint h)
  unfolding create_or_reuse_idempotent_job
  create_or_reuse_idempotent_job-Submitted job_id now format profile input key fingerprint h =
      or_create-Submitted job_id now format profile input key fingerprint
        (lookup_duplicate_job key fingerprint h) (lookup_duplicate_job-Looked key fingerprint h)

  -- A keyed submission that was given a job gets the same job when it is sent again, whatever ID and time
  -- the repetition comes with, and the repetition changes nothing.
  pub repeated_submission :
      (job_id job_id' : Text) (now now' : Time) (format profile input key fingerprint : Text)
      (h h' : Handler F) (j : Job)
      → create_or_reuse_idempotent_job job_id now format profile input key fingerprint h
        ≡ (h', job j)
      → create_or_reuse_idempotent_job job_id' now' format profile input key fingerprint h'
        ≡ (h', job j)
  unfolding create_or_reuse_idempotent_job
  repeated_submission job_id job_id' now now' format profile input key fingerprint h h' j e =
      let holds : Holds key fingerprint j h' = subst (Submitted key fingerprint) e (
        create_or_reuse_idempotent_job-Submitted job_id now format profile input key fingerprint
          h) in
      rw (Holds-found key fingerprint j h' holds) refl

  -- After a keyed submission was given a job, a submission of another fingerprint under the key is
  -- refused as a conflict and changes nothing.
  pub conflicting_submission :
      (job_id job_id' : Text) (now now' : Time)
      (format profile input format' profile' input' key fingerprint other : Text) (h h' : Handler F)
      (j : Job)
      → create_or_reuse_idempotent_job job_id now format profile input key fingerprint h
        ≡ (h', job j)
      → text_eq fingerprint other ≡ false
      → create_or_reuse_idempotent_job job_id' now' format' profile' input' key other h'
        ≡ (h', key_conflict)
  unfolding create_or_reuse_idempotent_job
  conflicting_submission job_id job_id' now now' format profile input format' profile' input' key
        fingerprint other h h' j e d =
      let holds : Holds key fingerprint j h' = subst (Submitted key fingerprint) e (
        create_or_reuse_idempotent_job-Submitted job_id now format profile input key fingerprint
          h) in
      rw (Holds-conflict key fingerprint other j h' holds d) refl

  -- A submission that finds the queue full leaves no trace: no job and no workspace but those that were
  -- there, the same queue and the same keys, for an ID that was not in use.
  pub rejected_submission :
      (job_id : Text) (now : Time) (format profile input k : Text) (h : Handler F)
      → Store.get job_id h.job_store ≡ none
      → Map.get job_id h.workspaces ≡ none
      → ltb (length h.job_queue) h.queue_limit ≡ false
      → let h' = (create_queued_job job_id now format profile input h).0 in
        (Store.get k h'.job_store ≡ Store.get k h.job_store)
        × (Map.get k h'.workspaces ≡ Map.get k h.workspaces)
        × (h'.job_queue ≡ h.job_queue)
        × (h'.idempotency ≡ h.idempotency)
        × ((create_queued_job job_id now format profile input h).1 ≡ none)
  rejected_submission job_id now format profile input k h fresh empty full =
      rw (create_queued_job-full job_id now format profile input h full) (
        ground (
          arith,
          get-delete_lem job_id k (Store.create (new_job job_id now) h.job_store),
          get-create (new_job job_id now) k h.job_store,
          text_eq_iff job_id k,
        ),
        ground (
          arith,
          get-delete job_id k (Map.put job_id (new_workspace {F = F} job_id) h.workspaces),
          get-put job_id k (new_workspace {F = F} job_id) h.workspaces,
          text_eq_iff job_id k,
        ),
        refl,
        refl,
        refl,
      )
