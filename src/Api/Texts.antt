-- ===== src/Api/Texts.antt =====
-- The texts that internal/api/analysis_handler.go makes: job IDs, safe messages and escaped HTML.
pub mod Escaping
use mathlib.Core.Bool.{true≢false}
use mathlib.Core.List.{append_assoc}
use parser_go.Prelude.{
  all-take, ℕ, ◌≤◌, ◌<◌, ◌+◌, ◌^◌, Text, text, text_eq, Bool, true, false, ◌≡◌, refl, ap, sym, ◌∙◌,
  [], ◌∷◌, ◌++◌, arith, length, length-append, length-take, all, all-append, take, if◌then◌else◌,
  ltb, ◌==◌, Bool-cases, inl, inr, not, ◌&&◌, ◌||◌, replace_all, zero, suc, has_prefix,
}
use parser_go.Prelude.Decimal.{
  is_digit, format_int, all-format_int, length-format_int_le, length-format_int_pos,
  length-format_int_gt,
}
use parser_go.Api.Space.{trim_space, trim_space-all}
use parser_go.Api.Names.{
  malformed_dataset, analysis_failed, summary_failed, engine_creation_failed, replace_paths,
  is_id_byte, is_valid_job_id, generate_job_id, escape_html, sanitize_error_message,
  safe_terminal_error_message, cut,
}
use parser_go.Api.Texts.Escaping.{is_plain, unescape, escape_html-plain, unescape-escape_html}

digits-are_id_bytes : (s : Text) → all is_digit s ≡ true → all is_id_byte s ≡ true
digits-are_id_bytes [] h = refl
digits-are_id_bytes (c ∷ s) h = ground (arith, digits-are_id_bytes s)

-- An ID that generateJobID makes at a Unix time of two to nineteen digits, with less than 10^9
-- nanoseconds, is one that isValidJobID accepts, so the routes of the job that it names can be
-- used.
pub generate_job_id-IsValid :
    (unix nanosecond : ℕ)
    → 10 ≤ unix
    → unix < 10 ^ 19
    → nanosecond < 10 ^ 9
    → is_valid_job_id (generate_job_id unix nanosecond) ≡ true
unfolding is_valid_job_id generate_job_id text
generate_job_id-IsValid unix nanosecond low high sub =
    let a = format_int unix in
    let b = format_int nanosecond in
    ground (
      arith,
      length-append a (b'_' ∷ b),
      all-append is_id_byte a (b'_' ∷ b),
      digits-are_id_bytes a (all-format_int unix),
      digits-are_id_bytes b (all-format_int nanosecond),
      length-format_int_le unix 19 high (omega arith),
      length-format_int_le nanosecond 9 sub (omega arith),
      length-format_int_gt unix low,
      length-format_int_pos nanosecond,
    )

-- Escaped HTML has no angle bracket and no double quote, so it cannot open a tag or close an attribute
-- in double quotes, and no text is lost: reading the entities back gives what was escaped.
pub escape_html-IsSafe :
    (s : Text) → (all is_plain (escape_html s) ≡ true) × (unescape 0 (escape_html s) ≡ s)
escape_html-IsSafe s = (escape_html-plain s, unescape-escape_html s)

-- The codes with which processJob fails a job.
abbrev pub is_known : Text → Bool
is_known code =
    text_eq code malformed_dataset
    || (text_eq code analysis_failed
        || (text_eq code summary_failed || text_eq code engine_creation_failed))

-- Bytes that do not break a line.
abbrev pub is_inline : ℕ → Bool
is_inline c = not (c == b'\n') && (not (c == b'\r') && not (c == b'\t'))

length-cut_le : (n : ℕ) (x t : Text) → length (take n x ++ t) ≤ n + length t
length-cut_le n x t = ground (arith, length-append (take n x) t, length-take n x)

length-cut : (x : Text) → length (cut x) ≤ 203
unfolding text
length-cut x = elim (Bool-cases (ltb 200 (length x))) [
  | inl t ↦ rw t (length-cut_le 200 x (text "..."))
  | inr f ↦ rw f (ground arith)
]

all-cut : (s : Text) → all is_inline s ≡ true → all is_inline (cut s) ≡ true
unfolding text
all-cut s h = elim (Bool-cases (ltb 200 (length s))) [
  | inl t ↦ rw (t, all-append is_inline (take 200 s) (text "..."), all-take is_inline 200 s h) refl
  | inr f ↦ rw f h
]

-- Replacing a byte by a blank leaves bytes that satisfy p, if all but that byte did.
replace_all-all :
    (p : ℕ → Bool) (s : Text) (old : ℕ) (new : Text)
    → all p new ≡ true
    → all (λ c. (c == old) || p c) s ≡ true
    → all p (replace_all s old new) ≡ true
unfolding replace_all
replace_all-all p [] old new n h = refl
replace_all-all p (c ∷ s) old new n h = elim (Bool-cases (c == old)) [
  | inl t ↦
      rw
        (
          t,
          all-append p new (replace_all s old new),
          n,
          replace_all-all p s old new n (ground arith),
        )
        refl
  | inr f ↦ ground (arith, replace_all-all p s old new n)
]

all_bytes : (p : ℕ → Bool) (s : Text) → ((c : ℕ) → p c ≡ true) → all p s ≡ true
all_bytes p [] h = refl
all_bytes p (c ∷ s) h = rw (h c, all_bytes p s h) refl

sanitize_error_message-inline : (msg : Text) → all is_inline (sanitize_error_message msg) ≡ true
unfolding sanitize_error_message text
sanitize_error_message-inline msg =
    let first = replace_all (replace_paths false msg) b'\n' (text " ") in
    let second = replace_all first b'\r' (text " ") in
    let third = replace_all second b'\t' (text " ") in
    all-cut (trim_space third) (
      trim_space-all is_inline third (
        replace_all-all is_inline second b'\t' (text " ") refl (
          replace_all-all (λ c. (c == b'\t') || is_inline c) first b'\r' (text " ") refl
            (replace_all-all (λ c. (c == b'\r') || ((c == b'\t') || is_inline c))
              (replace_paths false msg) b'\n' (text " ") refl
              (all_bytes (λ c. (c == b'\n') || ((c == b'\r') || ((c == b'\t') || is_inline c)))
                (replace_paths false msg) (λ c. ground arith))))))

sanitize_error_message-bounded : (msg : Text) → length (sanitize_error_message msg) ≤ 203
unfolding sanitize_error_message
sanitize_error_message-bounded msg = length-cut (
    trim_space (
      replace_all
        (replace_all (replace_all (replace_paths false msg) b'\n' (text " ")) b'\r' (text " "))
        b'\t' (text " ")))

-- What a failed job says is one line of at most 203 bytes, whatever text it is given, and for the codes
-- with which processJob fails a job the text has no influence at all.
pub safe_terminal_error_message-IsSafe :
    (code raw : Text)
    → (length (safe_terminal_error_message code raw) ≤ 203)
      × (all is_inline (safe_terminal_error_message code raw) ≡ true)
      × (is_known code ≡ true
          → (other : Text)
          → safe_terminal_error_message code raw ≡ safe_terminal_error_message code other)
unfolding safe_terminal_error_message text
safe_terminal_error_message-IsSafe code raw = elim (Bool-cases (text_eq code malformed_dataset)) [
  | inl t ↦ rw t (omega arith, refl, λ k other. refl)
  | inr f1 ↦ rw f1 (elim (Bool-cases (text_eq code analysis_failed)) [
    | inl t ↦ rw t (omega arith, refl, λ k other. refl)
    | inr f2 ↦ rw f2 (elim (Bool-cases (text_eq code summary_failed)) [
      | inl t ↦ rw t (omega arith, refl, λ k other. refl)
      | inr f3 ↦ rw f3 (elim (Bool-cases (text_eq code engine_creation_failed)) [
        | inl t ↦ rw t (omega arith, refl, λ k other. refl)
        | inr f4 ↦ rw f4 (
          sanitize_error_message-bounded raw,
          sanitize_error_message-inline raw,
          λ k other. absurd (true≢false (sym k)),
        )
      ])
    ])
  ])
]
