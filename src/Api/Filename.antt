-- ===== src/Api/Filename.antt =====
-- validateFilename of internal/api/analysis_handler.go, with filepath.Clean and filepath.IsAbs as
-- they are on Unix.
use mathlib.Core.List.{reverse}
use parser_go.Prelude.{
  Text, text, text_eq, has_prefix, contains, split, Bool, ◌||◌, List, [], ◌∷◌, ◌++◌, if◌then◌else◌,
}

-- filepath.IsAbs
unfoldable pub is_abs : Text → Bool
is_abs path = has_prefix path (text "/")

-- The elements that filepath.Clean keeps, the last first: it drops empty ones and ".", and ".."
-- takes the element before it away unless there is none or it is ".." itself. At the root a ".."
-- with nothing before it is dropped.
abbrev pub step_back : Bool → List Text → List Text
step_back rooted [] = if rooted then [] else text ".." ∷ []
step_back rooted (e ∷ es) = if text_eq e (text "..") then text ".." ∷ e ∷ es else es

unfoldable pub clean_elements : Bool → List Text → List Text → List Text
clean_elements rooted kept [] = kept
clean_elements rooted kept (e ∷ es) =
    clean_elements rooted
      (if text_eq e [] || text_eq e (text ".")
        then kept
        else if text_eq e (text "..")
        then step_back rooted kept
        else e ∷ kept)
      es

-- The elements, with a slash between them.
unfoldable pub join : List Text → Text
join [] = []
join (e ∷ []) = e
join (e ∷ f ∷ es) = e ++ (text "/" ++ join (f ∷ es))

abbrev pub or_dot : Text → Text
or_dot [] = text "."
or_dot (c ∷ s) = c ∷ s

-- filepath.Clean
unfoldable pub clean : Text → Text
unfolding clean_elements join is_abs
clean path =
    let elements = join (reverse (clean_elements (is_abs path) [] (split b'/' path))) in
    if is_abs path then text "/" ++ elements else or_dot elements

pub data Verdict : Type 0 where
  safe traversal absolute : Verdict

-- validateFilename
unfoldable pub validate_filename : Text → Verdict
unfolding is_abs clean
validate_filename filename =
    if text_eq filename []
    then safe
    else if contains filename (text "..")
    then traversal
    else if is_abs filename
    then absolute
    else if has_prefix filename (text "/") || has_prefix filename (text "\\")
    then absolute
    else if is_abs (clean filename)
    then absolute
    else if has_prefix (clean filename) (text "..")
    then traversal
    else safe
