-- ===== src/Api/Submit.antt =====
-- The submission of an analysis in internal/api/analysis_handler.go, from handleAnalyses down to
-- createAndRunJob, on every branch.
use parser_go.Prelude.{
  ◌-◌, ◌^◌, ℕ, ◌+◌, Text, text, text_eq, Bool, false, Option, none, some, List, [], ◌∷◌, ◌++◌, ltb,
  ◌==◌, if◌then◌else◌, length, not, ◌&&◌, take,
}
use parser_go.Prelude.Decimal.{format_int}
use parser_go.Clock.{Time}
use parser_go.Job.{Job}
use parser_go.Analysis.Engine.{format_combined, profile_default}
use parser_go.Api.Http.{
  Request, Response, MediaType, Part, Event, part, broken, write_error, respond, accepted,
  unsupported_media_type, invalid_input, validation_failed, input_too_large, unsafe_filename,
  service_unavailable, service_saturated,
}
use parser_go.Api.Space.{trim_space}
use parser_go.Api.Names.{is_valid_format, is_valid_profile, submission_fingerprint}
use parser_go.Api.Filename.{Verdict, safe, traversal, absolute, validate_filename}
use parser_go.Api.Handler.{Env, Handler}
use parser_go.Api.Jobs.{
  create_queued_job, create_or_reuse_idempotent_job, expire_eligible_jobs, Submission, job,
  key_conflict, saturated,
}

abbrev pub multipart_text_field_limit : ℕ
multipart_text_field_limit = 1024

-- io.ReadAll over an io.LimitedReader of N bytes: the read fails if the failure lies within them.
abbrev pub read_limited : ℕ → Part → Option Text
read_limited n p = if p.fails && ltb (length p.content) n then none else some (take n p.content)

pub record Form : Type 0 where
  pub format : Text
  pub profile : Text
  pub input_data : Text

abbrev pub default_form : Form
default_form = record { format = format_combined; profile = profile_default; input_data = [] }

-- A response that ends the request, or a value to go on with.
pub data Step {ℓ} (F : Type 0) (A : Type ℓ) : Type ℓ where
  stop : Response F → Step F A
  go : A → Step F A

abbrev too_large_message : ℕ → Text
too_large_message n = text "input exceeds maximum size of " ++ (format_int n ++ text " bytes")

abbrev pub exceeds : Option ℕ → ℕ → Bool
exceeds none max = false
exceeds (some n) max = ltb max n

abbrev pub or_default : Text → Text → Text
or_default value default = if text_eq value [] then default else value

module _ {F : Type 0} where
  abbrev pub check_name : Verdict → Step F Text → Step F Text
  check_name safe next = next
  check_name traversal next =
      stop (write_error 422 unsafe_filename (text "path traversal not allowed"))
  check_name absolute next =
      stop (write_error 422 unsafe_filename (text "absolute paths not allowed"))

  abbrev pub refused_size : ℕ → Step F Text
  refused_size max = stop (write_error 413 input_too_large (too_large_message max))

  abbrev pub check_size : ℕ → Option Text → Step F Text
  check_size max none = stop (write_error 400 invalid_input (text "failed to read file"))
  check_size max (some content) = if ltb max (length content) then refused_size max else go content

  -- The part "file". At the largest int64 the limit of the reader, max + 1, wraps to a negative number, so
  -- nothing is read and the input is refused.
  unfoldable pub read_file : ℕ → Part → Step F Text
  read_file max p =
      check_name (validate_filename p.file_name) (
        if ltb max (2 ^ 63 - 1)
        then check_size max (read_limited (max + 1) p)
        else refused_size max)

  abbrev check_field : Text → Option Text → Step F Text
  check_field field none = stop (write_error 400 invalid_input (text "failed to read " ++ field))
  check_field field (some content) =
      if ltb multipart_text_field_limit (length content)
      then stop (
          write_error 413 input_too_large (
            field
            ++ (text " exceeds maximum size of "
                ++ (format_int multipart_text_field_limit ++ text " bytes"))))
      else go (trim_space content)

  -- readMultipartTextField
  unfoldable pub read_multipart_text_field : Part → Text → Step F Text
  read_multipart_text_field p field =
      check_field field (read_limited (multipart_text_field_limit + 1) p)

  abbrev pub map_step : {A B : Type 0} → (A → B) → Step F A → Step F B
  map_step f (stop r) = stop r
  map_step f (go a) = go (f a)

  -- One part of the form.
  unfoldable pub read_part : ℕ → Part → Form → Step F Form
  unfolding read_file read_multipart_text_field
  read_part max p form =
      if text_eq p.form_name (text "file")
      then map_step (λ v. record form { input_data = v }) (read_file max p)
      else if text_eq p.form_name (text "format")
      then map_step (λ v. record form { format = v }) (read_multipart_text_field p (text "format"))
      else if text_eq p.form_name (text "profile")
      then map_step (λ v. record form { profile = v })
          (read_multipart_text_field p (text "profile"))
      else go form

  -- The loop over the parts.
  unfoldable pub read_form : ℕ → Form → List Event → Step F Form
  unfolding read_part
  read_form max form [] = go form
  read_form max form (broken ∷ events) =
      stop (write_error 400 invalid_input (text "malformed multipart body"))
  read_form max form (part p ∷ events) = elim (read_part max p form) [
    | stop r ↦ stop r
    | go form' ↦ read_form max form' events
  ]

  -- writeAcceptedJobResponse
  unfoldable pub accepted_response : Job → Response F
  accepted_response j = respond 202 (
      accepted (record {
        id = j.id;
        state = j.state;
        created_at = j.created_at;
        location = text "/v1/analyses/" ++ j.id;
      }))

  -- writeBackpressure
  unfoldable pub backpressure : ℕ → Response F
  backpressure seconds =
      record (write_error 429 service_saturated (text "analysis queue is full; retry later")) {
        retry_after = some seconds;
      }

  abbrev pub queued_reply : Handler F × Option Job → Handler F × Response F
  queued_reply (h, none) = (h, backpressure h.retry_after_seconds)
  queued_reply (h, some j) = (h, accepted_response j)

  abbrev pub submission_reply : Handler F × Submission → Handler F × Response F
  submission_reply (h, key_conflict) = (
    h,
    write_error 409 validation_failed (text "idempotency key already used for a different request"),
  )
  submission_reply (h, saturated) = (h, backpressure h.retry_after_seconds)
  submission_reply (h, job j) = (h, accepted_response j)

module _ {F : Type 0} (env : Env F) where
  -- The rest of createAndRunJob, after its checks.
  abbrev pub checked_job :
      Text → Time → Text → Text → Text → Text → Handler F → Handler F × Response F
  checked_job job_id now format profile input key h =
      let fingerprint = submission_fingerprint env.sha256 format profile input in
      if not (text_eq key [])
      then submission_reply
          (create_or_reuse_idempotent_job job_id now format profile input key fingerprint h)
      else queued_reply (create_queued_job job_id now format profile input h)

  -- createAndRunJob, given what generateJobID and the clock return
  unfoldable pub create_and_run_job :
      Text → Time → Text → Text → Text → Text → Handler F → Handler F × Response F
  unfolding accepted_response backpressure
  create_and_run_job job_id now format0 profile0 input key h =
      let format = or_default format0 format_combined in
      let profile = or_default profile0 profile_default in
      if not (is_valid_format format)
      then (h, write_error 422 validation_failed (text "unsupported format: " ++ format))
      else if not (is_valid_profile profile)
      then (h, write_error 422 validation_failed (text "unsupported profile: " ++ profile))
      else checked_job job_id now format profile input key h

  abbrev pub submit_form : Text → Time → Text → Handler F → Step F Form → Handler F × Response F
  submit_form job_id now key h (stop r) = (h, r)
  submit_form job_id now key h (go form) =
      if length form.input_data == 0
      then (h, write_error 422 validation_failed (text "no input data provided"))
      else create_and_run_job job_id now form.format form.profile form.input_data (trim_space key) h

  -- handleMultipartSubmission
  unfoldable pub handle_multipart_submission :
      Text → Time → Text → Request → Handler F → Handler F × Response F
  unfolding read_form create_and_run_job
  handle_multipart_submission job_id now boundary r h =
      if text_eq boundary []
      then (h, write_error 400 invalid_input (text "missing boundary parameter"))
      else submit_form job_id now r.idempotency_key h
          (read_form h.max_input_size default_form r.parts)

  -- handleJSONSubmission
  unfoldable pub handle_json_submission : Request → Response F
  handle_json_submission r =
      if r.json_decodes
      then write_error 422 validation_failed
          (text "JSON submissions require base64-encoded data field (not implemented)")
      else write_error 400 invalid_input (text "malformed JSON body")

  abbrev pub submit_media :
      Text → Time → Request → Handler F → Option MediaType → Handler F × Response F
  submit_media job_id now r h none =
      (h, write_error 400 invalid_input (text "invalid content-type"))
  submit_media job_id now r h (some media) =
      if exceeds r.content_length h.max_input_size
      then (h, write_error 413 input_too_large (too_large_message h.max_input_size))
      else if text_eq media.name (text "multipart/form-data")
      then handle_multipart_submission job_id now media.boundary r h
      else if text_eq media.name (text "application/json")
      then (h, handle_json_submission r)
      else (
        h,
        write_error 415 unsupported_media_type (text "unsupported media type: " ++ media.name),
      )

  -- submitAnalysis
  unfoldable pub submit_analysis : Text → Time → Request → Handler F → Handler F × Response F
  unfolding handle_multipart_submission handle_json_submission
  submit_analysis job_id now r h =
      if text_eq r.content_type []
      then (h, write_error 415 unsupported_media_type (text "content-type required"))
      else submit_media job_id now r h r.media

  -- handleAnalyses: `now` is the clock's first reading, `now'` the one for the job that is created
  unfoldable pub handle_analyses : Text → Time → Time → Request → Handler F → Handler F × Response F
  unfolding submit_analysis expire_eligible_jobs
  handle_analyses job_id now now' r h0 =
      let h = expire_eligible_jobs now h0 in
      if not h.ready
      then (h, write_error 503 service_unavailable (text "service not ready"))
      else if not (text_eq r.method (text "POST"))
      then (h, write_error 405 service_unavailable (text "method not allowed"))
      else submit_analysis job_id now' r h
