-- ===== src/Summary/Rank.antt =====
-- The order of ranked requests: by count, highest first, then by path, then by method.
use parser_go.Prelude.{
  ℕ, Text, text_eq, text_eq_iff, text_lt, text_lt_irrefl, text_lt_trans, text_lt_total, Bool, true,
  false, not, List, ◌≡◌, arith, if◌then◌else◌, ◌==◌, ltb,
}
use native.Mathlib.Decide.{ℕ_discrete}
use parser_go.Prelude.Sorting.{IsStrictTotal}
use parser_go.Summary.Counts.{Count}

-- The comparison that Compute gives to sort.SliceStable.
unfoldable pub before_by : ℕ → Text → Text → ℕ → Text → Text → Bool
before_by n path method n' path' method' =
    if not (n == n')
    then ltb n' n
    else if not (text_eq path path')
    then text_lt path path'
    else text_lt method method'

unfoldable pub before : Count → Count → Bool
unfolding before_by
before c d = before_by c.count c.path c.method d.count d.path d.method

pub Count-discrete : Discrete Count
Count-discrete = hlevel ℕ_discrete

pub Counts-discrete : Discrete (List Count)
Counts-discrete = hlevel ℕ_discrete

before_irrefl : (c : Count) → before c c ≡ false
unfolding before
before_irrefl c = ground (arith, text_lt_irrefl c.path, text_lt_irrefl c.method)

before_trans : (c d e : Count) → before c d ≡ true → before d e ≡ true → before c e ≡ true
unfolding before
before_trans c d e h k = ground (
  arith,
  text_lt_trans c.path d.path e.path,
  text_lt_trans c.method d.method e.method,
  text_eq_iff c.path d.path,
  text_eq_iff d.path e.path,
  text_eq_iff c.path e.path,
  text_lt_irrefl c.path,
)

before_total : (c d : Count) → before c d ≡ false → before d c ≡ false → c ≡ d
unfolding before
before_total c d h k = ground (
  arith,
  text_lt_total c.path d.path,
  text_lt_total c.method d.method,
  text_eq_iff c.path d.path,
  text_eq_iff d.path c.path,
  text_eq_iff c.method d.method,
)

pub before-IsStrictTotal : IsStrictTotal before
before-IsStrictTotal = record { irrefl = before_irrefl; trans = before_trans; total = before_total }
