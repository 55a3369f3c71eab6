-- ===== src/Api/Admission.antt =====
-- The submission path of internal/api/analysis_handler.go, from handleAnalyses to createQueuedJob,
-- keeps what its smallest parts keep.
use parser_go.Prelude.{
  ◌≤◌, ◌<◌, Text, text, text_eq, true, ◌≡◌, refl, [], arith, length, Option, none, some, ◌==◌,
  Bool-cases, Option-cases, inl, inr, ◌⊎◌,
}
use parser_go.Prelude.Map
use parser_go.Prelude.Map.{Map}
use parser_go.Clock.{Time}
use parser_go.Job.{Job, is_expired}
use parser_go.Job.Store
use parser_go.Job.Store.{Store}
use parser_go.Api.Http.{Request, MediaType}
use parser_go.Api.Space.{trim_space}
use parser_go.Api.Names.{is_valid_format, is_valid_profile, submission_fingerprint}
use parser_go.Api.Handler.{Env, Handler, IdempotencyRecord}
use parser_go.Api.Jobs.{
  create_queued_job, create_or_reuse_idempotent_job, lookup_duplicate_job, expire_eligible_jobs,
  Submission, job, key_conflict, saturated, Duplicate, missing, conflict, found, remember,
  or_create,
}
use parser_go.Api.Submit.{
  Form, Step, stop, go, read_form, create_and_run_job, handle_multipart_submission, submit_analysis,
  handle_analyses, submission_reply, queued_reply, checked_job, submit_form, submit_media, exceeds,
  or_default, default_form,
}
use parser_go.Analysis.Engine.{format_combined, profile_default}
use parser_go.Api.Upload.{SmallForm, read_form-Small}
use parser_go.Api.Works.{IsValidWork}

-- A property of the handler that submissions keep if the three operations keep it by which they change
-- the handler: dropping an idempotency key, storing one, and queueing a valid job under a new ID.
pub record Admits {F : Type 0} (P : Handler F → Type 0) : Type 0 where
  pub drop_key :
      (key : Text) (h : Handler F)
      → P h
      → P (record h { idempotency = Map.delete key h.idempotency })
  pub store_key :
      (key : Text) (r : IdempotencyRecord) (h : Handler F)
      → P h
      → P (record h { idempotency = Map.put key r h.idempotency })
  pub queue :
      (job_id : Text) (now : Time) (format profile input : Text) (h : Handler F)
      → Store.get job_id h.job_store ≡ none
      → IsValidWork h.max_input_size
          (record { id = job_id; format = format; profile = profile; input_data = input })
      → P h
      → P (create_queued_job job_id now format profile input h).0

submission_reply-same : {F : Type 0} (o : Handler F × Submission) → (submission_reply o).0 ≡ o.0
submission_reply-same (h, key_conflict) = refl
submission_reply-same (h, saturated) = refl
submission_reply-same (h, job j) = refl

queued_reply-same : {F : Type 0} (o : Handler F × Option Job) → (queued_reply o).0 ≡ o.0
queued_reply-same (h, none) = refl
queued_reply-same (h, some j) = refl

module _ {F : Type 0} where
  -- The handler as it was, or without one key.
  lookup_duplicate_job-same :
      (key fingerprint : Text) (h : Handler F)
      → ((lookup_duplicate_job key fingerprint h).0 ≡ h)
        ⊎ ((lookup_duplicate_job key fingerprint h).0
            ≡ record h { idempotency = Map.delete key h.idempotency })
  unfolding lookup_duplicate_job
  lookup_duplicate_job-same key fingerprint h = elim (Option-cases (Map.get key h.idempotency)) [
    | inl e ↦ rw e (inl refl)
    | inr (r, e) ↦ rw e (elim (Bool-cases (text_eq r.fingerprint fingerprint)) [
      | inr f ↦ rw f (inl refl)
      | inl t ↦ rw t (elim (Option-cases (Store.get r.job_id h.job_store)) [
        | inl n ↦ rw n (inr refl)
        | inr (j, s) ↦ rw s (elim (Bool-cases (is_expired j.state)) [
          | inl x ↦ rw x (inr refl)
          | inr x ↦ rw x (inl refl)
        ])
      ])
    ])
  ]

module _ {F : Type 0} {P : Handler F → Type 0} (a : Admits P) where
  lookup_duplicate_job-keeps :
      (key fingerprint : Text) (h : Handler F)
      → P h
      → P (lookup_duplicate_job key fingerprint h).0
        × ((lookup_duplicate_job key fingerprint h).0.job_store ≡ h.job_store)
        × ((lookup_duplicate_job key fingerprint h).0.max_input_size ≡ h.max_input_size)
  lookup_duplicate_job-keeps key fingerprint h v =
      elim (lookup_duplicate_job-same key fingerprint h) [
        | inl e ↦ rw e (v, refl, refl)
        | inr e ↦ rw e (a.drop_key key h v, refl, refl)
      ]

  remember-keeps :
      (key fingerprint : Text) (o : Handler F × Option Job)
      → P o.0
      → P (remember key fingerprint o).0
  remember-keeps key fingerprint (h, none) v = v
  remember-keeps key fingerprint (h, some j) v =
      a.store_key key (record { fingerprint = fingerprint; job_id = j.id }) h v

  or_create-keeps :
      (job_id : Text) (now : Time) (format profile input key fingerprint : Text)
      (o : Handler F × Duplicate)
      → Store.get job_id o.0.job_store ≡ none
      → IsValidWork o.0.max_input_size
          (record { id = job_id; format = format; profile = profile; input_data = input })
      → P o.0
      → P (or_create job_id now format profile input key fingerprint o).0
  or_create-keeps job_id now format profile input key fingerprint (h, conflict) fresh ok v = v
  or_create-keeps job_id now format profile input key fingerprint (h, found j) fresh ok v = v
  or_create-keeps job_id now format profile input key fingerprint (h, missing) fresh ok v =
      remember-keeps key fingerprint (create_queued_job job_id now format profile input h)
        (a.queue job_id now format profile input h fresh ok v)

  create_or_reuse_idempotent_job-keeps :
      (job_id : Text) (now : Time) (format profile input key fingerprint : Text) (h : Handler F)
      → Store.get job_id h.job_store ≡ none
      → IsValidWork h.max_input_size
          (record { id = job_id; format = format; profile = profile; input_data = input })
      → P h
      → P (create_or_reuse_idempotent_job job_id now format profile input key fingerprint h).0
  unfolding create_or_reuse_idempotent_job
  create_or_reuse_idempotent_job-keeps job_id now format profile input key fingerprint h fresh ok
        v =
      let looked = lookup_duplicate_job-keeps key fingerprint h v in
      or_create-keeps job_id now format profile input key fingerprint
        (lookup_duplicate_job key fingerprint h) (rw looked.1 fresh) (rw looked.2 ok) looked.0

  module _ (env : Env F) (job_id : Text) (now : Time) (h : Handler F)
      (fresh : Store.get job_id h.job_store ≡ none) (v : P h) where
    checked_job-keeps :
        (format profile input key : Text)
        → is_valid_format format ≡ true
        → is_valid_profile profile ≡ true
        → 0 < length input
        → length input ≤ h.max_input_size
        → P (checked_job env job_id now format profile input key h).0
    checked_job-keeps format profile input key f p n b =
        let ok : IsValidWork h.max_input_size
            (record { id = job_id; format = format; profile = profile; input_data = input }) =
          record { format = f; profile = p; not_empty = n; within = b } in
        elim (Bool-cases (text_eq key [])) [
          | inl t ↦
              rw (t, queued_reply-same (create_queued_job job_id now format profile input h))
                (a.queue job_id now format profile input h fresh ok v)
          | inr t ↦
              let fingerprint = submission_fingerprint env.sha256 format profile input in
              rw
                (
                  t,
                  submission_reply-same (
                      create_or_reuse_idempotent_job job_id now format profile input key fingerprint
                        h),
                )
                (create_or_reuse_idempotent_job-keeps job_id now format profile input key
                  fingerprint h fresh ok v)
        ]

    create_and_run_job-keeps :
        (format0 profile0 input key : Text)
        → 0 < length input
        → length input ≤ h.max_input_size
        → P (create_and_run_job env job_id now format0 profile0 input key h).0
    unfolding create_and_run_job
    create_and_run_job-keeps format0 profile0 input key n b =
        let format = or_default format0 format_combined in
        let profile = or_default profile0 profile_default in
        elim (Bool-cases (is_valid_format format)) [
          | inr f ↦ rw f v
          | inl f ↦ rw f (elim (Bool-cases (is_valid_profile profile)) [
            | inr p ↦ rw p v
            | inl p ↦ rw p (checked_job-keeps format profile input key f p n b)
          ])
        ]

    submit_form-keeps :
        (key : Text) (s : Step F Form)
        → SmallForm F h.max_input_size s
        → P (submit_form env job_id now key h s).0
    submit_form-keeps key (stop r) b = v
    submit_form-keeps key (go form) b = elim (Bool-cases (length form.input_data == 0)) [
      | inl z ↦ rw z v
      | inr z ↦ rw z (
          create_and_run_job-keeps form.format form.profile form.input_data (trim_space key)
            (ground arith) b)
    ]

    handle_multipart_submission-keeps :
        (boundary : Text) (r : Request)
        → P (handle_multipart_submission env job_id now boundary r h).0
    unfolding handle_multipart_submission
    handle_multipart_submission-keeps boundary r = elim (Bool-cases (text_eq boundary [])) [
      | inl t ↦ rw t v
      | inr t ↦ rw t (
          submit_form-keeps r.idempotency_key (read_form h.max_input_size default_form r.parts)
            (read_form-Small F h.max_input_size default_form r.parts (ground arith)))
    ]

    submit_media-keeps :
        (r : Request) (media : Option MediaType) → P (submit_media env job_id now r h media).0
    submit_media-keeps r none = v
    submit_media-keeps r (some media) =
        elim (Bool-cases (exceeds r.content_length h.max_input_size)) [
          | inl t ↦ rw t v
          | inr t ↦ rw t (elim (Bool-cases (text_eq media.name (text "multipart/form-data"))) [
            | inl t ↦ rw t (handle_multipart_submission-keeps media.boundary r)
            | inr t ↦ rw t (elim (Bool-cases (text_eq media.name (text "application/json"))) [
              | inl t ↦ rw t v
              | inr t ↦ rw t v
            ])
          ])
        ]

    submit_analysis-keeps : (r : Request) → P (submit_analysis env job_id now r h).0
    unfolding submit_analysis
    submit_analysis-keeps r = elim (Bool-cases (text_eq r.content_type [])) [
      | inl t ↦ rw t v
      | inr t ↦ rw t (submit_media-keeps r r.media)
    ]

  -- A request to POST /v1/analyses keeps the property, on each of its branches, if expiry does.
  pub handle_analyses-keeps :
      (env : Env F) (job_id : Text) (now now' : Time) (r : Request) (h : Handler F)
      → Store.get job_id (expire_eligible_jobs now h).job_store ≡ none
      → P (expire_eligible_jobs now h)
      → P (handle_analyses env job_id now now' r h).0
  unfolding handle_analyses
  handle_analyses-keeps env job_id now now' r h fresh v =
      let h' = expire_eligible_jobs now h in
      elim (Bool-cases h'.ready) [
        | inr t ↦ rw t v
        | inl t ↦ rw t (elim (Bool-cases (text_eq r.method (text "POST"))) [
          | inr t ↦ rw t v
          | inl t ↦ rw t (submit_analysis-keeps env job_id now' h' fresh v r)
        ])
      ]
