-- ===== src/Summary/Tally.antt =====
-- What the counts hold, by sums over their entries, which do not depend on the entries' order.
use parser_go.Prelude.{
  ℕ, ◌+◌, min, Text, text_eq, text_eq_iff, ◌&&◌, Bool, List, [], ◌∷◌, ◌≡◌, refl, arith,
  if◌then◌else◌, length,
}
use parser_go.Prelude.Sorting.{sort, insert}
use parser_go.Analysis.Entry.{Record}
use parser_go.Summary.Counts.{Count, same_key, increment, count_loop, count_records, occurrences}

unfoldable pub sum_by : (Count → ℕ) → List Count → ℕ
sum_by w [] = 0
sum_by w (c ∷ cs) = w c + sum_by w cs

sum_by-insert :
    (before : Count → Count → Bool) (w : Count → ℕ) (c : Count) (cs : List Count)
    → sum_by w (insert before c cs) ≡ w c + sum_by w cs
unfolding sum_by insert
sum_by-insert before w c [] = refl
sum_by-insert before w c (d ∷ cs) = ground (arith, sum_by-insert before w c cs)

pub sum_by-sort :
    (before : Count → Count → Bool) (w : Count → ℕ) (cs : List Count)
    → sum_by w (sort before cs) ≡ sum_by w cs
unfolding sum_by sort
sum_by-sort before w [] = refl
sum_by-sort before w (c ∷ cs) =
    omega (arith, sum_by-insert before w c (sort before cs), sum_by-sort before w cs)

-- The count that an entry adds for a key, and whether it is the key's entry.
abbrev pub key_count : Text → Text → Count → ℕ
key_count path method c = if same_key path method c then c.count else 0

abbrev pub key_entry : Text → Text → Count → ℕ
key_entry path method c = if same_key path method c then 1 else 0

count-increment :
    (p m path method : Text) (cs : List Count)
    → sum_by (key_count path method) (increment p m cs)
      ≡ (if text_eq p path && text_eq m method then 1 else 0) + sum_by (key_count path method) cs
unfolding sum_by increment
count-increment p m path method [] = ground arith
count-increment p m path method (c ∷ cs) =
    ground (arith, text_eq_iff c.path p, text_eq_iff c.method m, count-increment p m path method cs)

count-count_loop :
    (path method : Text) (cs : List Count) (rs : List Record)
    → sum_by (key_count path method) (count_loop cs rs)
      ≡ sum_by (key_count path method) cs + occurrences path method rs
unfolding count_loop occurrences
count-count_loop path method cs [] = omega arith
count-count_loop path method cs (r ∷ rs) = omega (
  arith,
  count-count_loop path method (increment r.path r.method cs) rs,
  count-increment r.path r.method path method cs,
)

pub count-count_records :
    (path method : Text) (rs : List Record)
    → sum_by (key_count path method) (count_records rs) ≡ occurrences path method rs
unfolding count_records sum_by
count-count_records path method rs = omega (arith, count-count_loop path method [] rs)

entry-increment :
    (p m path method : Text) (cs : List Count)
    → min 1 (sum_by (key_entry path method) cs) ≡ sum_by (key_entry path method) cs
    → sum_by (key_entry path method) (increment p m cs)
      ≡ min 1 (
          (if text_eq p path && text_eq m method then 1 else 0) + sum_by (key_entry path method) cs)
unfolding sum_by increment
entry-increment p m path method [] h = ground arith
entry-increment p m path method (c ∷ cs) h = ground (
  arith,
  text_eq_iff c.path p,
  text_eq_iff c.method m,
  text_eq_iff c.path path,
  text_eq_iff c.method method,
  text_eq_iff p path,
  text_eq_iff m method,
  entry-increment p m path method cs,
)

entry-count_loop :
    (path method : Text) (cs : List Count) (rs : List Record)
    → min 1 (sum_by (key_entry path method) cs) ≡ sum_by (key_entry path method) cs
    → sum_by (key_entry path method) (count_loop cs rs)
      ≡ min 1 (sum_by (key_entry path method) cs + occurrences path method rs)
unfolding count_loop occurrences
entry-count_loop path method cs [] h = omega arith
entry-count_loop path method cs (r ∷ rs) h =
    let step = entry-increment r.path r.method path method cs h in
    omega
      (arith, step, entry-count_loop path method (increment r.path r.method cs) rs (omega arith))

-- A key has one entry if some record has it, and none otherwise.
pub entry-count_records :
    (path method : Text) (rs : List Record)
    → sum_by (key_entry path method) (count_records rs) ≡ min 1 (occurrences path method rs)
unfolding count_records sum_by
entry-count_records path method rs = omega (arith, entry-count_loop path method [] rs (omega arith))

total-increment :
    (p m : Text) (cs : List Count)
    → sum_by (λ c. c.count) (increment p m cs) ≡ sum_by (λ c. c.count) cs + 1
unfolding sum_by increment
total-increment p m [] = refl
total-increment p m (c ∷ cs) = ground (arith, total-increment p m cs)

total-count_loop :
    (cs : List Count) (rs : List Record)
    → sum_by (λ c. c.count) (count_loop cs rs) ≡ sum_by (λ c. c.count) cs + length rs
unfolding count_loop
total-count_loop cs [] = omega arith
total-count_loop cs (r ∷ rs) =
    omega (
      arith,
      total-count_loop (increment r.path r.method cs) rs,
      total-increment r.path r.method cs,
    )

pub total-count_records : (rs : List Record) → sum_by (λ c. c.count) (count_records rs) ≡ length rs
unfolding count_records sum_by
total-count_records rs = omega (arith, total-count_loop [] rs)
