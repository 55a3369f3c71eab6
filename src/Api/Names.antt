-- ===== src/Api/Names.antt =====
-- The helper functions at the end of internal/api/analysis_handler.go: job IDs, formats, safe error
-- messages, the submission's fingerprint.
use parser_go.Prelude.{
  ℕ, Text, text, text_eq, replace_all, Bool, true, false, ◌&&◌, ◌||◌, not, [], ◌∷◌, ◌++◌, ◌==◌, ltb,
  leb, if◌then◌else◌, length, all, take,
}
use parser_go.Prelude.Decimal.{is_digit, format_int}
use parser_go.Analysis.Line.{is_space}
use parser_go.Analysis.Engine.{format_combined, profile_default}
use parser_go.Api.Space.{trim_space}

-- [a-zA-Z0-9_-]
abbrev pub is_id_byte : ℕ → Bool
is_id_byte c =
    (leb b'a' c && leb c b'z')
    || ((leb b'A' c && leb c b'Z') || (is_digit c || ((c == b'_') || (c == b'-'))))

-- isValidJobID: the expression has + and is anchored at both ends
unfoldable pub is_valid_job_id : Text → Bool
is_valid_job_id id =
    (ltb 0 (length id) && all is_id_byte id) && (leb 8 (length id) && leb (length id) 64)

-- generateJobID, from the Unix seconds of one reading of the clock and the nanoseconds of another
unfoldable pub generate_job_id : ℕ → ℕ → Text
generate_job_id unix nanosecond =
    text "job_" ++ (format_int unix ++ (text "_" ++ format_int nanosecond))

-- isValidFormat
unfoldable pub is_valid_format : Text → Bool
is_valid_format format = text_eq format format_combined

-- isValidProfile
unfoldable pub is_valid_profile : Text → Bool
is_valid_profile profile = text_eq profile profile_default

-- [^/\s]
abbrev pub is_path_byte : ℕ → Bool
is_path_byte c = not (c == b'/') && not (is_space c)

abbrev starts_name : Text → Bool
starts_name [] = false
starts_name (c ∷ s) = is_path_byte c

-- Replace each match of (?:/[^/\s]+)+ by [path]; the flag tells that a match is being skipped.
unfoldable pub replace_paths : Bool → Text → Text
replace_paths skipping [] = []
replace_paths skipping (c ∷ s) =
    let inside = replace_paths true s in
    let outside = replace_paths false s in
    if (c == b'/') && starts_name s
    then if skipping then inside else text "[path]" ++ inside
    else if skipping && is_path_byte c
    then inside
    else c ∷ outside

abbrev pub cut : Text → Text
cut msg = if ltb 200 (length msg) then take 200 msg ++ text "..." else msg

-- sanitizeErrorMessage
unfoldable pub sanitize_error_message : Text → Text
unfolding replace_paths
sanitize_error_message msg =
    let msg1 = replace_paths false msg in
    let msg2 = replace_all msg1 b'\n' (text " ") in
    let msg3 = replace_all msg2 b'\r' (text " ") in
    let msg4 = replace_all msg3 b'\t' (text " ") in cut (trim_space msg4)

abbrev pub malformed_dataset : Text
malformed_dataset = text "malformed_dataset"

abbrev pub analysis_failed : Text
analysis_failed = text "analysis_failed"

abbrev pub summary_failed : Text
summary_failed = text "summary_failed"

abbrev pub engine_creation_failed : Text
engine_creation_failed = text "engine_creation_failed"

-- safeTerminalErrorMessage
unfoldable pub safe_terminal_error_message : Text → Text → Text
unfolding sanitize_error_message
safe_terminal_error_message code raw =
    if text_eq code malformed_dataset
    then text "input contained no valid log lines"
    else if text_eq code analysis_failed
    then text "analysis could not be completed from the provided input"
    else if text_eq code summary_failed
    then text "analysis summary could not be generated"
    else if text_eq code engine_creation_failed
    then text "analysis setup could not be completed"
    else sanitize_error_message raw

-- submissionFingerprint: what is written to the hash, with a zero byte between the parts. SHA-256
-- and its printing as hexadecimal digits are the argument.
unfoldable pub submission_fingerprint : (Text → Text) → Text → Text → Text → Text
submission_fingerprint sha256 format profile input =
    sha256 (format ++ (0 ∷ (profile ++ (0 ∷ input))))

-- escapeHTML
unfoldable pub escape_html : Text → Text
escape_html s =
    replace_all
      (replace_all (replace_all (replace_all s b'&' (text "&amp;")) b'<' (text "&lt;")) b'>'
        (text "&gt;"))
      b'"' (text "&quot;")
