-- ===== src/Api/Http.antt =====
-- Requests and responses of internal/api/analysis_handler.go. What net/http, mime and
-- mime/multipart deliver is the content of a request here: the parsed media type, the parts of the
-- body in order, a failure where the library reports one.
use parser_go.Prelude.{ℕ, Text, text, Bool, Option, none, List}
use parser_go.Clock.{Time}
use parser_go.Job.{State}
use parser_go.Summary.Compute.{Summary}

-- A part of a multipart body; `fails` if reading it fails behind its content.
pub record Part : Type 0 where
  pub form_name : Text
  pub file_name : Text
  pub content : Text
  pub fails : Bool

-- What reader.NextPart returns, up to io.EOF.
pub data Event : Type 0 where
  part : Part → Event
  broken : Event

pub record MediaType : Type 0 where
  pub name : Text
  pub boundary : Text

pub record Request : Type 0 where
  pub method : Text
  pub path : Text
  pub content_type : Text
  -- mime.ParseMediaType(content_type)
  pub media : Option MediaType
  -- `none` for an unknown length, which Go writes as -1
  pub content_length : Option ℕ
  pub parts : List Event
  -- whether the body decodes as the JSON of an AnalysisRequest
  pub json_decodes : Bool
  pub idempotency_key : Text

-- APIError
pub record ApiError : Type 0 where
  pub code : Text
  pub message : Text

-- AnalysisResponse
pub record AnalysisResponse : Type 0 where
  pub id : Text
  pub state : State
  pub created_at : Time
  pub location : Text

-- JobStatusResponse
pub record JobStatusResponse : Type 0 where
  pub id : Text
  pub state : State
  pub created_at : Time
  pub updated_at : Time
  pub error : Option ApiError

pub data Body (F : Type 0) : Type 0 where
  raw : Text → Body F
  error : ApiError → Body F
  accepted : AnalysisResponse → Body F
  job_status : JobStatusResponse → Body F
  summary : Summary F → Body F
  -- the report page of a job
  report : Text → Summary F → Body F

pub record Response (F : Type 0) : Type 0 where
  pub status : ℕ
  pub retry_after : Option ℕ
  pub body : Body F

module _ {F : Type 0} where
  abbrev pub respond : ℕ → Body F → Response F
  respond status body = record { status = status; retry_after = none; body = body }

  -- writeError
  abbrev pub write_error : ℕ → Text → Text → Response F
  write_error status code message =
      respond status (error (record { code = code; message = message }))

-- The values of ErrorCode.
abbrev pub unsupported_media_type : Text
unsupported_media_type = text "unsupported_media_type"

abbrev pub invalid_input : Text
invalid_input = text "invalid_input"

abbrev pub validation_failed : Text
validation_failed = text "validation_failed"

abbrev pub input_too_large : Text
input_too_large = text "input_too_large"

abbrev pub unsafe_filename : Text
unsafe_filename = text "unsafe_filename"

abbrev pub not_found : Text
not_found = text "not_found"

abbrev pub not_complete : Text
not_complete = text "analysis_not_complete"

abbrev pub expired_code : Text
expired_code = text "analysis_expired"

abbrev pub service_unavailable : Text
service_unavailable = text "service_unavailable"

abbrev pub service_saturated : Text
service_saturated = text "service_saturated"
