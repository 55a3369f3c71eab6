-- ===== src/Api/Texts/Escaping.antt =====
-- escapeHTML of internal/api/analysis_handler.go, byte by byte.
use mathlib.Core.List.{append_assoc}
use parser_go.Prelude.{
  ℕ, Text, text, Bool, true, ◌≡◌, refl, ap, sym, ◌∙◌, [], ◌∷◌, ◌++◌, arith, all, if◌then◌else◌,
  ◌==◌, not, ◌&&◌, replace_all, zero, suc, has_prefix,
}
use parser_go.Api.Names.{escape_html}

-- What escapeHTML writes for one byte.
abbrev escape_byte : ℕ → Text
escape_byte c =
    if c == b'&'
    then text "&amp;"
    else if c == b'<'
    then text "&lt;"
    else if c == b'>'
    then text "&gt;"
    else if c == b'"'
    then text "&quot;"
    else c ∷ []

replace_all-append :
    (s t : Text) (old : ℕ) (new : Text)
    → replace_all (s ++ t) old new ≡ replace_all s old new ++ replace_all t old new
unfolding replace_all
replace_all-append [] t old new = refl
replace_all-append (c ∷ s) t old new =
    rw (replace_all-append s t old new)
      (sym (append_assoc _ (replace_all s old new) (replace_all t old new)))

escape_html-append : (s t : Text) → escape_html (s ++ t) ≡ escape_html s ++ escape_html t
unfolding escape_html
escape_html-append s t = simp (replace_all-append)

escape_html-byte : (c : ℕ) → escape_html (c ∷ []) ≡ escape_byte c
unfolding escape_html replace_all text
escape_html-byte c = ground arith

escape_html-cons : (c : ℕ) (s : Text) → escape_html (c ∷ s) ≡ escape_byte c ++ escape_html s
escape_html-cons c s =
    escape_html-append (c ∷ []) s ∙ ap (λ e. e ++ escape_html s) (escape_html-byte c)

-- Neither an angle bracket nor a double quote: the bytes of a page's texts that begin no tag and end no
-- attribute, as the pages write all attributes in double quotes.
abbrev pub is_plain : ℕ → Bool
is_plain c = not (c == b'<') && (not (c == b'>') && not (c == b'"'))

-- Read the four entities back. The number counts the bytes of an entity that are still to skip.
pub unescape : ℕ → Text → Text
unescape skip [] = []
unescape (suc k) (c ∷ s) = unescape k s
unescape zero (c ∷ s) =
    let amp = unescape 4 s in
    let angle = unescape 3 s in
    let quote = unescape 5 s in
    let rest = unescape 0 s in
    if has_prefix (c ∷ s) (text "&amp;")
    then b'&' ∷ amp
    else if has_prefix (c ∷ s) (text "&lt;")
    then b'<' ∷ angle
    else if has_prefix (c ∷ s) (text "&gt;")
    then b'>' ∷ angle
    else if has_prefix (c ∷ s) (text "&quot;")
    then b'"' ∷ quote
    else c ∷ rest

unescape-byte : (c : ℕ) (t : Text) → unescape 0 (escape_byte c ++ t) ≡ c ∷ unescape 0 t
unfolding unescape has_prefix text
unescape-byte c t = ground arith

plain_byte : (c : ℕ) (t : Text) → all is_plain (escape_byte c ++ t) ≡ all is_plain t
unfolding text
plain_byte c t = ground arith

pub escape_html-plain : (s : Text) → all is_plain (escape_html s) ≡ true
unfolding escape_html replace_all
escape_html-plain [] = refl
escape_html-plain (c ∷ s) =
    rw (escape_html-cons c s, plain_byte c (escape_html s)) (escape_html-plain s)

pub unescape-escape_html : (s : Text) → unescape 0 (escape_html s) ≡ s
unfolding unescape escape_html replace_all
unescape-escape_html [] = refl
unescape-escape_html (c ∷ s) =
    rw (escape_html-cons c s, unescape-byte c (escape_html s), unescape-escape_html s) refl
