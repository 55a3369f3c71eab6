-- ===== src/Api/Paths.antt =====
-- validateFilename of internal/api/analysis_handler.go: the checks after filepath.Clean never fire.
use mathlib.Core.List.{reverse, reverse_aux}
use parser_go.Prelude.{
  Text, text, text_eq, has_prefix, contains, split, Bool, true, false, ◌||◌, ◌&&◌, not, List, [],
  ◌∷◌, ◌++◌, if◌then◌else◌, ◌==◌, ◌≡◌, refl, all, arith, ℕ, Bool-cases, inl, inr,
}
use parser_go.Prelude.Strings.{cons_part}
use parser_go.Api.Filename.{
  is_abs, clean_elements, join, or_dot, clean, safe, traversal, absolute, validate_filename,
}

-- What an element of a relative name without ".." is: it does not begin with a slash or with "..".
abbrev is_tame : Text → Bool
is_tame e = not (has_prefix e (b'/' ∷ [])) && not (has_prefix e (b'.' ∷ b'.' ∷ []))

-- The elements that are kept are tame, and not empty or ".".
abbrev is_kept : Text → Bool
is_kept e = is_tame e && (not (text_eq e []) && not (text_eq e (b'.' ∷ [])))

-- One byte before the parts of the rest: the parts stay tame unless the byte makes "..".
cons-tame :
    (c d : ℕ) (parts : List Text)
    → ((c == b'.') && (d == b'.')) ≡ false
    → all is_tame (if d == b'/' then [] ∷ parts else cons_part d parts) ≡ true
    → all is_tame (
        if c == b'/'
        then [] ∷ (if d == b'/' then [] ∷ parts else cons_part d parts)
        else cons_part c (if d == b'/' then [] ∷ parts else cons_part d parts))
      ≡ true
unfolding has_prefix
cons-tame c d [] n h = ground arith
cons-tame c d (p ∷ parts) n h = ground arith

split-tame : (s : Text) → contains s (b'.' ∷ b'.' ∷ []) ≡ false → all is_tame (split b'/' s) ≡ true
unfolding contains split has_prefix
split-tame [] h = refl
split-tame (c ∷ []) h = ground arith
split-tame (c ∷ d ∷ s) h =
    cons-tame c d (split b'/' s) (ground arith) (split-tame (d ∷ s) (ground arith))

tame-no_dots : (e : Text) → is_tame e ≡ true → text_eq e (b'.' ∷ b'.' ∷ []) ≡ false
unfolding text_eq has_prefix
tame-no_dots [] h = refl
tame-no_dots (c ∷ []) h = ground arith
tame-no_dots (c ∷ d ∷ e) h = ground arith

-- Tame elements are kept as they are, but for empty ones and ".".
kept-elements :
    (rooted : Bool) (kept es : List Text)
    → all is_kept kept ≡ true
    → all is_tame es ≡ true
    → all is_kept (clean_elements rooted kept es) ≡ true
unfolding clean_elements text
kept-elements rooted kept [] k h = k
kept-elements rooted kept (e ∷ es) k h =
    let tame : is_tame e ≡ true = ground arith in
    let rest : all is_tame es ≡ true = ground arith in
    elim (Bool-cases (text_eq e [] || text_eq e (b'.' ∷ []))) [
      | inl t ↦ rw t (kept-elements rooted kept es k rest)
      | inr f ↦
          rw (f, tame-no_dots e tame)
            (kept-elements rooted (e ∷ kept) es (ground (arith, f, tame)) rest)
    ]

all_kept-reverse_aux :
    (s t : List Text)
    → all is_kept s ≡ true
    → all is_kept t ≡ true
    → all is_kept (reverse_aux s t) ≡ true
all_kept-reverse_aux [] t h k = k
all_kept-reverse_aux (e ∷ s) t h k =
    all_kept-reverse_aux s (e ∷ t) (ground arith) (ground (arith, k))

before_slash-tame : (e r : Text) → is_kept e ≡ true → is_tame (e ++ (b'/' ∷ r)) ≡ true
unfolding has_prefix text_eq
before_slash-tame [] r h = ground arith
before_slash-tame (c ∷ []) r h = ground arith
before_slash-tame (c ∷ d ∷ e) r h = ground arith

join-tame : (es : List Text) → all is_kept es ≡ true → is_tame (join es) ≡ true
unfolding join text has_prefix
join-tame [] h = refl
join-tame (e ∷ []) h = ground arith
join-tame (e ∷ f ∷ es) h = before_slash-tame e (join (f ∷ es)) (ground arith)

or_dot-tame : (s : Text) → is_tame s ≡ true → is_tame (or_dot s) ≡ true
unfolding text has_prefix
or_dot-tame [] h = refl
or_dot-tame (c ∷ s) h = h

clean-tame :
    (s : Text) → is_abs s ≡ false → contains s (b'.' ∷ b'.' ∷ []) ≡ false → is_tame (clean s) ≡ true
unfolding clean
clean-tame s a h =
    let kept = kept-elements false [] (split b'/' s) refl (split-tame s h) in
    let elements = clean_elements false [] (split b'/' s) in
    rw a (
      or_dot-tame (join (reverse elements))
        (join-tame (reverse elements) (all_kept-reverse_aux elements [] kept refl)))

clean-no_slash :
    (s : Text)
    → has_prefix s (text "/") ≡ false
    → contains s (text "..") ≡ false
    → has_prefix (clean s) (text "/") ≡ false
unfolding text is_abs
clean-no_slash s a d = let tame = clean-tame s a d in ground (arith, tame)

clean-no_dots :
    (s : Text)
    → has_prefix s (text "/") ≡ false
    → contains s (text "..") ≡ false
    → has_prefix (clean s) (text "..") ≡ false
unfolding text is_abs
clean-no_dots s a d = let tame = clean-tame s a d in ground (arith, tame)

-- validateFilename accepts a name exactly if it is empty, or contains no ".." and begins with neither
-- a slash nor a backslash; a name with ".." is refused as traversal and the others as absolute. The two
-- checks after filepath.Clean change no verdict.
pub validate_filename_lem :
    (s : Text)
    → validate_filename s ≡ (
        if text_eq s []
        then safe
        else if contains s (text "..")
        then traversal
        else if has_prefix s (text "/") || has_prefix s (text "\\")
        then absolute
        else safe)
unfolding validate_filename is_abs
validate_filename_lem s = elim (Bool-cases (text_eq s [])) [
  | inl t ↦ rw t refl
  | inr n ↦ rw n (elim (Bool-cases (contains s (text ".."))) [
    | inl t ↦ rw t refl
    | inr d ↦ rw d (elim (Bool-cases (has_prefix s (text "/"))) [
      | inl t ↦ rw t refl
      | inr a ↦ elim (Bool-cases (has_prefix s (text "\\"))) [
        | inl t ↦ rw (a, t) refl
        | inr b ↦ rw (clean-no_slash s a d, clean-no_dots s a d, a, b) refl
      ]
    ])
  ])
]
