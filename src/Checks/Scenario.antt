-- ===== src/Checks/Scenario.antt =====
-- A service that accepts a log and analyses it, for the tests of internal/api.
use parser_go.Prelude.{
  ℕ, ◌*◌, Text, text, text_eq, contains, split, true, false, ◌≡◌, refl, [], ◌∷◌, none, some,
}
use parser_go.Prelude.Int.{pos}
use parser_go.Prelude.Map
use parser_go.Clock.{Time, second}
use parser_go.Job.{Job, succeeded}
use parser_go.Job.Store
use parser_go.Api.Http.{Request, part}
use parser_go.Api.Handler.{Handler, HandlerConfig, QueuedJob, new_handler, set_ready}
use parser_go.Api.Jobs.{create_queued_job, create_or_reuse_idempotent_job}
use parser_go.Api.Submit.{handle_analyses}
use parser_go.Api.Process.{begin_job, finish_job, run_analysis}
use parser_go.Api.Detail.{is_get}
use parser_go.Api.World.{World, Reach, start, further, ready, submit, take, finish}
use parser_go.Api.Filename.{validate_filename}
use parser_go.Api.Names.{is_valid_format, is_valid_profile}
use parser_go.Api.Space.{trim_space}
use parser_go.Job.Store.{get-update}
use parser_go.Checks.Data.{env, line_a}

abbrev pub config : HandlerConfig
config = record {
  max_input_size = pos 0;
  queue_limit = pos 0;
  worker_limit = pos 0;
  retention = pos 0;
}

abbrev pub post : Request
post = record {
  method = text "POST";
  path = text "/v1/analyses";
  content_type = text "multipart/form-data; boundary=x";
  media = some (record { name = text "multipart/form-data"; boundary = text "x" });
  content_length = none;
  parts =
      part (record {
        form_name = text "file";
        file_name = text "a.log";
        content = line_a;
        fails = false;
      })
      ∷ [];
  json_decodes = false;
  idempotency_key = text "k";
}

abbrev pub get_request : Text → Request
get_request path = record {
  method = text "GET";
  path = path;
  content_type = [];
  media = none;
  content_length = none;
  parts = [];
  json_decodes = false;
  idempotency_key = [];
}

abbrev pub job_id : Text
job_id = text "job_1700000000_5"

abbrev pub begun : Time
begun = 63800000000 * second

abbrev pub work : QueuedJob
work = record {
  id = job_id;
  format = text "combined";
  profile = text "default";
  input_data = line_a;
}

abbrev pub ready_handler : Handler ℕ
ready_handler = set_ready true (new_handler config)

abbrev pub submitted : Handler ℕ
submitted = (handle_analyses env job_id begun begun post ready_handler).0

abbrev pub taken : Handler ℕ
taken = begin_job job_id begun (record submitted { job_queue = [] })

abbrev pub finished : Handler ℕ
finished = finish_job env work begun taken

abbrev pub world : World ℕ
world = record { handler = finished; working = [] }

pub unused : Store.get job_id ready_handler.job_store ≡ none
unfolding set_ready new_handler Store.get Map.get
unused = refl

pub in_queue : submitted.job_queue ≡ work ∷ []
unfolding handle_analyses set_ready new_handler Store.list text_eq text validate_filename contains
    split line_a is_valid_format is_valid_profile trim_space create_or_reuse_idempotent_job Map.get
    create_queued_job
in_queue = refl

abbrev pub done_job : Job
done_job = record {
  id = job_id;
  state = succeeded;
  created_at = begun;
  updated_at = begun;
  error = none;
}

pub stored : Store.get job_id finished.job_store ≡ some done_job
unfolding handle_analyses set_ready new_handler Store.list text_eq text validate_filename contains
    split line_a is_valid_format is_valid_profile trim_space create_or_reuse_idempotent_job Map.get
    create_queued_job begin_job finish_job run_analysis Store.get parser_go.Api.Process.end_job
    parser_go.Analysis.Engine.analyze_bytes parser_go.Analysis.Engine.parse_line
    parser_go.Analysis.Entry.parse_combined_log parser_go.Analysis.Line.match_line
    parser_go.Analysis.Scanner.drop_cr parser_go.Analysis.Timestamp.parse_timestamp
    parser_go.Analysis.Entry.parse_int parser_go.Analysis.Entry.should_filter Store.update Map.put
    Store.create Store.updated
stored = refl

pub reached : Reach env world
unfolding handle_analyses set_ready new_handler Store.list text_eq text validate_filename contains
    split line_a is_valid_format is_valid_profile trim_space create_or_reuse_idempotent_job Map.get
    create_queued_job begin_job
reached =
    further
      (further
        (further (further (start config) (ready true (new_handler config) []))
          (submit job_id begun begun post ready_handler [] unused))
        (take begun submitted work [] [] in_queue refl))
      (finish begun taken [] work [])

pub get-is_get : is_get (get_request []) ≡ true
unfolding text_eq text
get-is_get = refl

pub finished-ready : finished.ready ≡ true
unfolding handle_analyses set_ready new_handler Store.list text_eq text validate_filename contains
    split line_a is_valid_format is_valid_profile trim_space create_or_reuse_idempotent_job Map.get
    create_queued_job begin_job finish_job run_analysis Store.get parser_go.Api.Process.end_job
    parser_go.Analysis.Engine.analyze_bytes parser_go.Analysis.Engine.parse_line
    parser_go.Analysis.Entry.parse_combined_log parser_go.Analysis.Line.match_line
    parser_go.Analysis.Scanner.drop_cr parser_go.Analysis.Timestamp.parse_timestamp
    parser_go.Analysis.Entry.parse_int parser_go.Analysis.Entry.should_filter Store.update Map.put
    Store.create Store.updated
finished-ready = refl
