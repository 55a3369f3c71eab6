-- ===== src/Analysis/Bounds.antt =====
-- What a parsed record promises, and which paths are filtered: parseCombinedLog and shouldFilter of
-- internal/analysis/engine.go.
use parser_go.Prelude.{
  ℕ, ◌≤◌, Text, text, text_eq, text_eq_iff, text_eq→eq, has_prefix, Bool, true, false, ◌≡◌, ◌↔◌,
  ◌⊎◌, inl, inr, refl, ap, ◌∙◌, Option, none, some, List, [], ◌∷◌, ◌++◌, arith, any, ◌||◌,
  Option-cases, Bool-cases,
}
use mathlib.Core.List.{append_assoc}
use parser_go.Prelude.Strings.{has_prefix-append}
use parser_go.Clock.{Time}
use parser_go.Analysis.Line.{Groups, match_line}
use parser_go.Analysis.Timestamp.{parse_timestamp}
use parser_go.Analysis.Entry.{
  Record, matched, parse_int, parse_size, record_of, should_filter, parse_combined_log, max_int64,
}

parse_int-le : (s : Text) (n : ℕ) → parse_int s ≡ some n → n ≤ max_int64
unfolding parse_int
parse_int-le s n h = ground arith

parse_size-le : (s : Text) → parse_size s ≤ max_int64
unfolding parse_size
parse_size-le s = ground arith

-- The status and the size fit an int64, and the path is not one that is filtered.
pub record IsSound (r : Record) : Type 0 where
  pub status : r.status ≤ max_int64
  pub size : r.size ≤ max_int64
  pub path : should_filter r.path ≡ false

record_of-IsSound :
    (g : Groups) (t : Option Time) (s : Option ℕ) (r : Record)
    → ((n : ℕ) → s ≡ some n → n ≤ max_int64)
    → record_of g t s ≡ matched r
    → IsSound r
unfolding record_of
record_of-IsSound g none s r bound h = cc
record_of-IsSound g (some t) none r bound h = cc
record_of-IsSound g (some t) (some n) r bound h =
    let b = bound n refl in ground (arith, parse_size-le g.size)

-- A line that is matched gives a record whose status and size fit an int64 and whose path is not
-- one that is filtered.
pub parse_combined_log-IsSound :
    (line : Text) (r : Record) → parse_combined_log line ≡ matched r → IsSound r
unfolding parse_combined_log
parse_combined_log-IsSound line r h = elim (Option-cases (match_line line)) [
  | inl e ↦ ground arith
  | inr (g, e) ↦
      record_of-IsSound g (parse_timestamp g.timestamp) (parse_int g.status) r
        (parse_int-le g.status) (ground arith)
]

-- One of the health check endpoints, or a path below it.
abbrev pub IsHealthPath : Text → List Text → Type 0
IsHealthPath path [] = ⊥
IsHealthPath path (f ∷ fs) =
    ((path ≡ f) ⊎ ((below : Text) × (path ≡ f ++ (text "/" ++ below)))) ⊎ IsHealthPath path fs

prefix-split : (path f : Text) → has_prefix path f ≡ true → (below : Text) × (path ≡ f ++ below)
unfolding has_prefix
prefix-split path [] h = (path, refl)
prefix-split [] (d ∷ f) h = cc
prefix-split (c ∷ path) (d ∷ f) h =
    let (below, e) = prefix-split path f (ground arith) in
    let same : c ≡ d = ground arith in (below, rw same (ap (λ t. d ∷ t) e))

abbrev below_or_at : Text → Text → Bool
below_or_at path f = text_eq path f || has_prefix path (f ++ text "/")

prefix-below :
    (path f below : Text) → path ≡ f ++ (text "/" ++ below) → has_prefix path (f ++ text "/") ≡ true
prefix-below path f below e =
    rw (e, ← append_assoc f (text "/") below) (has_prefix-append (f ++ text "/") below)

any-IsHealthPath :
    (path : Text) (fs : List Text) → any (below_or_at path) fs ≡ true → IsHealthPath path fs
any-IsHealthPath path [] h = cc
any-IsHealthPath path (f ∷ fs) h = elim (Bool-cases (text_eq path f)) [
  | inl e ↦ inl (inl (text_eq→eq path f e))
  | inr e ↦ elim (Bool-cases (has_prefix path (f ++ text "/"))) [
    | inl p ↦
        let (below, q) = prefix-split path (f ++ text "/") p in
        inl (inr (below, q ∙ append_assoc f (text "/") below))
    | inr p ↦ inr (any-IsHealthPath path fs (ground arith))
  ]
]

IsHealthPath-any :
    (path : Text) (fs : List Text) → IsHealthPath path fs → any (below_or_at path) fs ≡ true
IsHealthPath-any path [] h = absurd h
IsHealthPath-any path (f ∷ fs) (inl (inl e)) = ground (arith, text_eq_iff path f)
IsHealthPath-any path (f ∷ fs) (inl (inr (below, e))) = ground (arith, prefix-below path f below e)
IsHealthPath-any path (f ∷ fs) (inr h) = ground (arith, IsHealthPath-any path fs h)

-- The endpoints that health checks ask for.
abbrev pub health_endpoints : List Text
health_endpoints =
    text "/health"
    ∷ text "/healthz"
    ∷ text "/readyz"
    ∷ text "/ping"
    ∷ text "/alive"
    ∷ text "/_health"
    ∷ []

-- A path is filtered exactly when it is one of the health check endpoints that are listed, or below one.
pub should_filter_iff :
    (path : Text) → (should_filter path ≡ true) ↔ IsHealthPath path health_endpoints
unfolding should_filter
should_filter_iff path =
    (any-IsHealthPath path health_endpoints, IsHealthPath-any path health_endpoints)
