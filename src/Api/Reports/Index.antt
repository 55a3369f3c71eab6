-- ===== src/Api/Reports/Index.antt =====
-- The list of reports of internal/api/report_handler.go: which it has, and in which order.
use mathlib.Core.List.{Perm, filter_map}
use mathlib.Core.List.Perm
use native.Mathlib.Decide.{ℕ_discrete}
use parser_go.Prelude.{
  ◌⊎◌, ◌<◌, Text, text_lt, text_eq_iff, text_lt_irrefl, text_lt_trans, text_lt_total, Bool, true,
  false, ◌≡◌, refl, ap, sym, ◌∙◌, subst, List, [], ◌∷◌, map, arith, Option, none, some, ltb, ◌==◌,
  keep_if, Bool-cases, inl, inr, if◌then◌else◌,
}
use parser_go.Prelude.Map
use parser_go.Prelude.Sorting.{
  InOrder, IsSorted-InOrder, IsStrictTotal, IsSorted, IsSorted-map, sort, sort-map, sort-perm,
  sort-perm_self, sort-IsSorted,
}
use parser_go.Clock.{Time}
use parser_go.Job.{Job, State, unset, queued, running, succeeded, failed, expired, is_succeeded}
use parser_go.Job.Store
use parser_go.Job.Store.{Store}
use parser_go.Job.Laws.{Snapshot, list-Snapshot}
use parser_go.Api.Http.{Request}
use parser_go.Api.Handler.{Env, Handler}
use parser_go.Api.Jobs.{expire_eligible_jobs}
use parser_go.Api.Detail.{is_get, stored_summary}
use parser_go.Api.Invariant.{consistent}
use parser_go.Api.Lifecycle.{expire_eligible_jobs-Inv}
use parser_go.Api.World.{World, Reach, Reach-Inv}
use parser_go.Api.Reports.Pages.{
  ReportIndexItem, index_page, show, listed_before, has_report, item_of, reports_of,
  handle_reports_index,
}

-- What an item of the list is sorted by.
record IndexKey : Type 0 where
  created_at : Time
  id : Text

unfoldable key_before : IndexKey → IndexKey → Bool
key_before a b =
    if a.created_at == b.created_at then text_lt a.id b.id else ltb b.created_at a.created_at

key_before_irrefl : (a : IndexKey) → key_before a a ≡ false
unfolding key_before
key_before_irrefl a = ground (arith, text_lt_irrefl a.id)

key_before_trans :
    (a b c : IndexKey) → key_before a b ≡ true → key_before b c ≡ true → key_before a c ≡ true
unfolding key_before
key_before_trans a b c h k = ground (arith, text_lt_trans a.id b.id c.id)

key_before_total : (a b : IndexKey) → key_before a b ≡ false → key_before b a ≡ false → a ≡ b
unfolding key_before
key_before_total a b h k = ground (arith, text_lt_total a.id b.id, text_eq_iff a.id b.id)

key_before-IsStrictTotal : IsStrictTotal key_before
key_before-IsStrictTotal = record {
  irrefl = key_before_irrefl;
  trans = key_before_trans;
  total = key_before_total;
}

IndexKeys-discrete : Discrete (List IndexKey)
IndexKeys-discrete = hlevel ℕ_discrete

abbrev key_of : Job → IndexKey
key_of j = record { created_at = j.created_at; id = j.id }

-- An item of the list has the state that its job must have.
abbrev item : IndexKey → ReportIndexItem
item k = record { id = k.id; created_at = k.created_at; state = succeeded }

listed_before-item : (a b : IndexKey) → listed_before (item a) (item b) ≡ key_before a b
unfolding listed_before key_before
listed_before-item a b = refl

is_succeeded→eq : (s : State) → is_succeeded s ≡ true → succeeded ≡ s
is_succeeded→eq succeeded e = refl
is_succeeded→eq unset e = cc
is_succeeded→eq queued e = cc
is_succeeded→eq running e = cc
is_succeeded→eq failed e = cc
is_succeeded→eq expired e = cc

module _ {F : Type 0} where
  abbrev key_in : Handler F → Job → Option IndexKey
  key_in h j = if has_report h j then some (key_of j) else none

  reports_of-keys :
      (h : Handler F) (js : List Job) → reports_of h js ≡ map item (filter_map (key_in h) js)
  unfolding reports_of filter_map
  reports_of-keys h [] = refl
  reports_of-keys h (j ∷ js) = elim (Bool-cases (has_report h j)) [
    | inl e ↦
        rw (e, reports_of-keys h js)
          (ap
            (λ s.
              record { id = j.id; created_at = j.created_at; state = s }
              ∷ map item (filter_map (key_in h) js))
            (sym (is_succeeded→eq j.state (ground arith))))
    | inr e ↦ rw e (reports_of-keys h js)
  ]

  sorted_reports :
      (h : Handler F) (js : List Job)
      → sort listed_before (reports_of h js) ≡ map item (sort key_before (filter_map (key_in h) js))
  sorted_reports h js =
      ap (sort listed_before) (reports_of-keys h js)
      ∙ sort-map item key_before listed_before listed_before-item (filter_map (key_in h) js)

  -- For every order in which the jobs may come.
  reports-deterministic :
      (h : Handler F) (js js' : List Job)
      → Perm js js'
      → sort listed_before (reports_of h js) ≡ sort listed_before (reports_of h js')
  reports-deterministic h js js' p =
      sorted_reports h js
      ∙ (ap (map item)
            (sort-perm key_before-IsStrictTotal IndexKeys-discrete (Perm.filter_map (key_in h) p))
          ∙ sym (sorted_reports h js'))

  reports-IsSorted :
      (h : Handler F) (js : List Job)
      → IsSorted listed_before (sort listed_before (reports_of h js))
  reports-IsSorted h js = rw (sorted_reports h js) (
      IsSorted-map item key_before listed_before listed_before-item _
        (sort-IsSorted key_before-IsStrictTotal (filter_map (key_in h) js)))

  consistent-has_report :
      (h : Handler F) (j : Job)
      → consistent (some j) (Map.get j.id h.workspaces) ≡ true
      → has_report h j ≡ is_succeeded j.state
  unfolding stored_summary
  consistent-has_report h j c = ground arith

  reports_of-succeeded :
      (h : Handler F) (js : List Job)
      → ((k : Text) → consistent (Store.get k h.job_store) (Map.get k h.workspaces) ≡ true)
      → Snapshot h.job_store js
      → reports_of h js ≡ map item_of (keep_if (λ j. is_succeeded j.state) js)
  unfolding reports_of
  reports_of-succeeded h [] c s = refl
  reports_of-succeeded h (j ∷ js) c s =
      let own : consistent (some j) (Map.get j.id h.workspaces) ≡ true =
        subst (λ o. consistent o (Map.get j.id h.workspaces) ≡ true) s.0 (c j.id) in
      let same = consistent-has_report h j own in
      let rest = reports_of-succeeded h js c s.2 in
      elim (Bool-cases (is_succeeded j.state)) [
        | inl e ↦ rw (same, e, rest) refl
        | inr e ↦ rw (same, e, rest) refl
      ]

-- An earlier item and a later one: newest first, then by ID.
abbrev pub ListedFirst : ReportIndexItem → ReportIndexItem → Type 0
ListedFirst a b =
    (b.created_at < a.created_at) ⊎ ((a.created_at ≡ b.created_at) × (text_lt b.id a.id ≡ false))

listed_before-ListedFirst : (a b : ReportIndexItem) → listed_before b a ≡ false → ListedFirst a b
unfolding listed_before
listed_before-ListedFirst a b h = elim (Bool-cases (b.created_at == a.created_at)) [
  | inl e ↦ inr (ground arith, ground arith)
  | inr n ↦ inl (ground arith)
]

-- In every state that the service can come to, a GET for the list of reports is answered with status
-- 200 and a list that does not depend on the order in which the store's map is iterated: it has one item
-- for each job that has succeeded and is not expired, with its ID and its time of creation; of any two
-- items the earlier one has the later time of creation, or the same time and an ID that is not greater.
pub handle_reports_index_lem :
    {F : Type 0} (env : Env F) (w : World F) (now : Time) (r : Request) (js : List Job)
    → Reach env w
    → is_get r ≡ true
    → Perm js (Store.list (expire_eligible_jobs now w.handler).job_store)
    → let h = expire_eligible_jobs now w.handler in
      let items = sort listed_before (reports_of h js) in
      (handle_reports_index now r w.handler ≡ (h, show 200 (index_page items)))
      × InOrder ListedFirst items
      × Perm items (map item_of (keep_if (λ j. is_succeeded j.state) (Store.list h.job_store)))
unfolding handle_reports_index
handle_reports_index_lem env w now r js reach g p =
    let h = expire_eligible_jobs now w.handler in
    let v = expire_eligible_jobs-Inv now w.handler w.working (Reach-Inv env reach) in
    let all = Store.list h.job_store in
    rw (g, reports-deterministic h js all p)
      (
        refl,
        IsSorted-InOrder ListedFirst listed_before listed_before-ListedFirst _
            (reports-IsSorted h all),
        rw (sym (reports_of-succeeded h all v.consistency (list-Snapshot h.job_store v.keyed)))
            (sort-perm_self listed_before (reports_of h all)),
      )
