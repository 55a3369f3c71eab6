-- ===== src/Summary/Counts.antt =====
-- The map of counts that Compute builds: from a path and a method to the number of records.
use parser_go.Prelude.{ℕ, ◌+◌, Text, text_eq, Bool, ◌&&◌, List, [], ◌∷◌, if◌then◌else◌}
use parser_go.Analysis.Entry.{Record}

-- An entry of `counts`, with its key.
pub record Count : Type 0 where
  pub path : Text
  pub method : Text
  pub count : ℕ

abbrev pub same_key : Text → Text → Count → Bool
same_key path method c = text_eq c.path path && text_eq c.method method

-- counts[k]++
unfoldable pub increment : Text → Text → List Count → List Count
increment path method [] = record { path = path; method = method; count = 1 } ∷ []
increment path method (c ∷ cs) =
    if same_key path method c
    then record c { count = c.count + 1 } ∷ cs
    else c ∷ increment path method cs

-- The loop over the records.
unfoldable pub count_loop : List Count → List Record → List Count
unfolding increment
count_loop counts [] = counts
count_loop counts (r ∷ rs) = count_loop (increment r.path r.method counts) rs

unfoldable pub count_records : List Record → List Count
unfolding count_loop
count_records rs = count_loop [] rs

-- How many records have the key.
unfoldable pub occurrences : Text → Text → List Record → ℕ
occurrences path method [] = 0
occurrences path method (r ∷ rs) =
    (if text_eq r.path path && text_eq r.method method then 1 else 0) + occurrences path method rs
