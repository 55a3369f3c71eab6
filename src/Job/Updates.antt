-- ===== src/Job/Updates.antt =====
-- What Store.Update of internal/job/job.go does to a job, field by field.
use parser_go.Prelude.{
  Text, text_eq, text_eq→eq, text_eq_iff, Option, none, some, is_some, ◌≡◌, refl, ◌⊎◌, inl, inr,
  arith, Bool-cases, Option-cases, if◌then◌else◌,
}
use parser_go.Clock.{Time, zero_time, is_zero}
use parser_go.Job.{Job, State, unset, queued, running, succeeded, failed, expired, is_unset}
use parser_go.Job.Store
use parser_go.Job.Store.{Store, get-update, update-known, updated}

-- A field of the update, or the stored one where the update leaves it unset.
abbrev pub IsChosen : {A : Type 0} → A → A → A → A → Type 0
IsChosen nothing given stored result =
    ((given ≡ nothing) × (result ≡ stored)) ⊎ ((¬ (given ≡ nothing)) × (result ≡ given))

-- What an update by `j` makes of a stored job.
pub record IsPatched (stored j result : Job) : Type 0 where
  pub id : result.id ≡ stored.id
  pub state : IsChosen unset j.state stored.state result.state
  pub created_at : IsChosen zero_time j.created_at stored.created_at result.created_at
  pub updated_at : IsChosen zero_time j.updated_at stored.updated_at result.updated_at
  pub error : result.error ≡ j.error

-- What Get returns for a key before an update by `j` and after it.
pub data AfterUpdate (j : Job) (k : Text) : Option Job → Option Job → Type 0 where
  other_key : (o : Option Job) → ¬ (j.id ≡ k) → AfterUpdate j k o o
  no_job : AfterUpdate j k none none
  patched :
      (stored result : Job)
      → j.id ≡ k
      → IsPatched stored j result
      → AfterUpdate j k (some stored) (some result)

IsChosen-state :
    (given stored : State) → IsChosen unset given stored (if is_unset given then stored else given)
IsChosen-state unset stored = inl (refl, refl)
IsChosen-state queued stored = inr (λ e. cc, refl)
IsChosen-state running stored = inr (λ e. cc, refl)
IsChosen-state succeeded stored = inr (λ e. cc, refl)
IsChosen-state failed stored = inr (λ e. cc, refl)
IsChosen-state expired stored = inr (λ e. cc, refl)

IsChosen-time :
    (given stored : Time)
    → IsChosen zero_time given stored (if is_zero given then stored else given)
IsChosen-time given stored = elim (Bool-cases (is_zero given)) [
  | inl z ↦ rw z (inl (ground arith, refl))
  | inr z ↦ rw z (inr (λ e. ground arith, refl))
]

updated-IsPatched : (stored j : Job) → IsPatched stored j (updated stored j)
unfolding updated
updated-IsPatched stored j = record {
  id = refl;
  state = IsChosen-state j.state stored.state;
  created_at = IsChosen-time j.created_at stored.created_at;
  updated_at = IsChosen-time j.updated_at stored.updated_at;
  error = refl;
}

-- An update leaves what Get returns for every other key, adds no job, and gives the job of its ID, if there
-- is one, its state, its two times where they are set, and its error, set or not; the ID stays, and so
-- does a state or a time that the update leaves unset. It returns whether there was a job.
pub update_lem :
    (j : Job) (k : Text) (s : Store)
    → AfterUpdate j k (Store.get k s) (Store.get k (Store.update j s).0)
      × ((Store.update j s).1 ≡ is_some (Store.get j.id s))
update_lem j k s = (
  elim (Bool-cases (text_eq j.id k)) [
    | inr n ↦
        rw (get-update j k s, n)
          (other_key (Store.get k s) (λ e. ground (arith, text_eq_iff j.id k)))
    | inl t ↦ elim (Option-cases (Store.get k s)) [
      | inl e ↦ rw (get-update j k s, t, e) no_job
      | inr (stored, e) ↦
          rw (get-update j k s, t, e)
            (patched stored (updated stored j) (text_eq→eq j.id k t) (updated-IsPatched stored j))
    ]
  ],
  update-known j s,
)
