-- ===== src/Checks/Service.antt =====
-- The theorems on internal/job and internal/api at concrete inputs: a service that accepts a log,
-- analyses it, and is asked for the summary.
use parser_go.Prelude.{
  ◌++◌, ℕ, ◌+◌, ◌*◌, ◌≤◌, Text, text, text_eq, has_prefix, ◌||◌, contains, true, false, ◌≡◌, refl,
  [], ◌∷◌, length, all, arith, if◌then◌else◌, none, is_some, ltb,
}
use parser_go.Prelude.Map
use parser_go.Clock.{Time, second}
use parser_go.Job.Store
use parser_go.Api.Http.{Request}
use parser_go.Api.Handler.{Handler, new_handler, set_ready}
use parser_go.Api.Jobs.{
  expire_eligible_jobs, create_queued_job, create_or_reuse_idempotent_job, Submission, job,
  key_conflict, new_job,
}
use parser_go.Api.Detail.{handle_analysis_detail}
use parser_go.Api.Invariant.{Inv}
use parser_go.Api.World.{Reach-Inv}
use parser_go.Api.Filename.{validate_filename, safe, traversal, absolute}
use parser_go.Api.Paths.{validate_filename_lem}
use parser_go.Api.Names.{is_valid_job_id, generate_job_id, safe_terminal_error_message, escape_html}
use parser_go.Api.Expiry.{expire_eligible_jobs-spaces, due_in}
use parser_go.Api.Forgetting.{expire_eligible_jobs-keys, forget, names_job_due}
use parser_go.Api.Idempotency.{repeated_submission, conflicting_submission, rejected_submission}
use parser_go.Api.Texts.{
  generate_job_id-IsValid, safe_terminal_error_message-IsSafe, escape_html-IsSafe, is_inline,
  is_known,
}
use parser_go.Api.Texts.Escaping.{is_plain, unescape}
use parser_go.Job.Updates.{AfterUpdate, update_lem}
use parser_go.Api.Due.{AfterExpiry, expire_eligible_jobs-AfterExpiry}
use parser_go.Api.Found.{SummaryAnswer, handle_summary-found}
use parser_go.Job.Laws.{Snapshot, has_id, list_lem}
use parser_go.Api.Answers.{handle_analysis_detail-answers}
use parser_go.Checks.Data.{env, line_a}
use parser_go.Checks.Scenario.{
  get-is_get, get_request, job_id, begun, work, ready_handler, finished, world, done_job, stored,
  reached,
}

Reach-Inv_example : Inv finished []
Reach-Inv_example = Reach-Inv env reached

handle_analysis_detail-answers_example :
    is_some
      (handle_analysis_detail
        (begun + second)
        (get_request (text "/v1/analyses/job_1700000000_5/summary"))
        finished).1
    ≡ true
handle_analysis_detail-answers_example =
    handle_analysis_detail-answers env world (begun + second)
      (get_request (text "/v1/analyses/job_1700000000_5/summary")) reached

abbrev summary_request : Request
summary_request = get_request (text "/v1/analyses/" ++ (job_id ++ text "/summary"))

valid_id : is_valid_job_id job_id ≡ true
unfolding is_valid_job_id text
valid_id = refl

handle_summary-found_example :
    SummaryAnswer
      (begun + second)
      finished
      job_id
      done_job
      (handle_analysis_detail (begun + second) summary_request finished).1
handle_summary-found_example =
    handle_summary-found env world (begun + second) summary_request job_id done_job reached stored
      refl valid_id get-is_get refl

abbrev first : Handler ℕ × Submission
first =
    create_or_reuse_idempotent_job job_id begun (text "combined") (text "default") line_a (text "k")
      (text "f") ready_handler

first-accepted : first ≡ (first.0, job (new_job job_id begun))
unfolding create_or_reuse_idempotent_job set_ready new_handler Map.get create_queued_job
first-accepted = refl

repeated_submission_example :
    create_or_reuse_idempotent_job
      (text "job_1700000001_6")
      (begun + second)
      (text "combined")
      (text "default")
      line_a
      (text "k")
      (text "f")
      first.0
    ≡ (first.0, job (new_job job_id begun))
repeated_submission_example =
    repeated_submission job_id (text "job_1700000001_6") begun (begun + second) (text "combined")
      (text "default") line_a (text "k") (text "f") ready_handler first.0 (new_job job_id begun)
      first-accepted

other_fingerprint : text_eq (text "f") (text "g") ≡ false
unfolding text_eq text
other_fingerprint = refl

conflicting_submission_example :
    create_or_reuse_idempotent_job
      (text "job_1700000001_6")
      (begun + second)
      (text "combined")
      (text "default")
      []
      (text "k")
      (text "g")
      first.0
    ≡ (first.0, key_conflict)
conflicting_submission_example =
    conflicting_submission job_id (text "job_1700000001_6") begun (begun + second) (text "combined")
      (text "default") line_a (text "combined") (text "default") [] (text "k") (text "f") (text "g")
      ready_handler first.0 (new_job job_id begun) first-accepted other_fingerprint

-- A service whose queue has two jobs, which is all that it takes.
abbrev full : Handler ℕ
full = record ready_handler { job_queue = work ∷ work ∷ [] }

unused_in_full : Store.get (text "new") full.job_store ≡ none
unfolding set_ready new_handler Store.get Map.get
unused_in_full = refl

no_space : Map.get (text "new") full.workspaces ≡ none
unfolding set_ready new_handler Map.get
no_space = refl

no_room : ltb (length full.job_queue) full.queue_limit ≡ false
unfolding set_ready new_handler
no_room = refl

rejected_submission_example :
    let after =
      create_queued_job (text "new") begun (text "combined") (text "default") line_a full in
    (Store.get job_id after.0.job_store ≡ Store.get job_id full.job_store)
    × (Map.get job_id after.0.workspaces ≡ Map.get job_id full.workspaces)
    × (after.0.job_queue ≡ full.job_queue)
    × (after.0.idempotency ≡ full.idempotency)
    × (after.1 ≡ none)
rejected_submission_example =
    rejected_submission (text "new") begun (text "combined") (text "default") line_a job_id full
      unused_in_full no_space no_room

held : Inv finished []
held = Reach-Inv env reached

abbrev two_days : Time
two_days = begun + 48 * 3600 * second

expire_eligible_jobs-AfterExpiry_example :
    AfterExpiry two_days finished.retention
      (Store.get job_id finished.job_store)
      (Store.get job_id (expire_eligible_jobs two_days finished).job_store)
expire_eligible_jobs-AfterExpiry_example =
    expire_eligible_jobs-AfterExpiry two_days job_id finished held.keyed held.retains

expire_eligible_jobs-spaces_example :
    Map.get job_id (expire_eligible_jobs two_days finished).workspaces ≡ (
      if due_in two_days finished.retention (Store.get job_id finished.job_store)
      then none
      else Map.get job_id finished.workspaces)
expire_eligible_jobs-spaces_example =
    expire_eligible_jobs-spaces two_days job_id finished held.keyed held.retains

expire_eligible_jobs-keys_example :
    Map.get (text "k") (expire_eligible_jobs two_days finished).idempotency
    ≡ forget
        (names_job_due two_days finished.retention finished.job_store
          (Map.get (text "k") finished.idempotency))
        (Map.get (text "k") finished.idempotency)
expire_eligible_jobs-keys_example =
    expire_eligible_jobs-keys two_days (text "k") finished held.keyed held.keys held.retains

update_lem_example :
    AfterUpdate
      (new_job job_id begun)
      job_id
      (Store.get job_id finished.job_store)
      (Store.get job_id (Store.update (new_job job_id begun) finished.job_store).0)
    × ((Store.update (new_job job_id begun) finished.job_store).1
        ≡ is_some (Store.get job_id finished.job_store))
update_lem_example = update_lem (new_job job_id begun) job_id finished.job_store

list_lem_example :
    Snapshot finished.job_store (Store.list finished.job_store)
    × (has_id job_id (Store.list finished.job_store)
        ≡ is_some (Store.get job_id finished.job_store))
list_lem_example = list_lem job_id finished.job_store held.keyed

generate_job_id-IsValid_example : is_valid_job_id (generate_job_id 1700000000 5) ≡ true
generate_job_id-IsValid_example =
    generate_job_id-IsValid 1700000000 5 (omega arith) (omega arith) (omega arith)

safe_terminal_error_message-IsSafe_example :
    (length (safe_terminal_error_message (text "analysis_failed") (text "open /srv/a")) ≤ 203)
    × (all is_inline (safe_terminal_error_message (text "analysis_failed") (text "open /srv/a"))
        ≡ true)
    × (is_known (text "analysis_failed") ≡ true
        → (other : Text)
        → safe_terminal_error_message (text "analysis_failed") (text "open /srv/a")
          ≡ safe_terminal_error_message (text "analysis_failed") other)
safe_terminal_error_message-IsSafe_example =
    safe_terminal_error_message-IsSafe (text "analysis_failed") (text "open /srv/a")

escape_html-IsSafe_example :
    (all is_plain (escape_html (text "<a href=\"&\">")) ≡ true)
    × (unescape 0 (escape_html (text "<a href=\"&\">")) ≡ text "<a href=\"&\">")
escape_html-IsSafe_example = escape_html-IsSafe (text "<a href=\"&\">")

validate_filename_lem_example : validate_filename (text "logs/./a.log") ≡ (
    if text_eq (text "logs/./a.log") []
    then safe
    else if contains (text "logs/./a.log") (text "..")
    then traversal
    else if has_prefix (text "logs/./a.log") (text "/")
        || has_prefix (text "logs/./a.log") (text "\\")
    then absolute
    else safe)
validate_filename_lem_example = validate_filename_lem (text "logs/./a.log")
