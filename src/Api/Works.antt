-- ===== src/Api/Works.antt =====
-- Lists of queued jobs: what they promise and how their IDs differ.
use mathlib.Core.List.{append_assoc}
use parser_go.Prelude.{
  ℕ, ◌≤◌, ◌<◌, Text, text_eq, text_eq_iff, Bool, true, false, ◌||◌, ◌≡◌, refl, List, [], ◌∷◌, ◌++◌,
  arith, length, Option, none, some,
}
use parser_go.Job.{Job, is_pending}
use parser_go.Job.Store
use parser_go.Job.Store.{Store}
use parser_go.Api.Handler.{QueuedJob}
use parser_go.Api.Names.{is_valid_format, is_valid_profile}

-- Queued or running, if there is a job.
abbrev pub pending_in : Option Job → Bool
pending_in none = false
pending_in (some j) = is_pending j.state

-- What a submission checks before it queues a job: the format and the profile are supported, and the
-- input is not empty and within the limit.
pub record IsValidWork (max : ℕ) (w : QueuedJob) : Type 0 where
  pub format : is_valid_format w.format ≡ true
  pub profile : is_valid_profile w.profile ≡ true
  pub not_empty : 0 < length w.input_data
  pub within : length w.input_data ≤ max

abbrev pub has_work : Text → List QueuedJob → Bool
has_work id [] = false
has_work id (w ∷ ws) = text_eq w.id id || has_work id ws

-- Valid jobs that the store holds as queued or running, each ID once.
abbrev pub AreWorks : ℕ → Store → List QueuedJob → Type 0
AreWorks max s [] = Unit {0}
AreWorks max s (w ∷ ws) =
    (pending_in (Store.get w.id s) ≡ true)
    × IsValidWork max w
    × (has_work w.id ws ≡ false)
    × AreWorks max s ws

pub has_work-append :
    (id : Text) (xs ys : List QueuedJob)
    → has_work id (xs ++ ys) ≡ (has_work id xs || has_work id ys)
has_work-append id [] ys = refl
has_work-append id (x ∷ xs) ys = ground (arith, has_work-append id xs ys)

-- A store that has the same jobs pending under the IDs of the list.
pub AreWorks-store :
    (max : ℕ) (s t : Store) (ws : List QueuedJob)
    → ((id : Text)
        → has_work id ws ≡ true
        → pending_in (Store.get id s) ≡ true
        → pending_in (Store.get id t) ≡ true)
    → AreWorks max s ws
    → AreWorks max t ws
AreWorks-store max s t [] k a = tt
AreWorks-store max s t (w ∷ ws) k a = (
  k w.id (ground (arith, text_eq_iff w.id w.id)) a.0,
  a.1,
  a.2,
  AreWorks-store max s t ws (λ id h p. k id (ground arith) p) a.3,
)

-- A job at the end, whose ID is new.
pub AreWorks-append :
    (max : ℕ) (s : Store) (ws : List QueuedJob) (w : QueuedJob)
    → AreWorks max s ws
    → has_work w.id ws ≡ false
    → pending_in (Store.get w.id s) ≡ true
    → IsValidWork max w
    → AreWorks max s (ws ++ w ∷ [])
AreWorks-append max s [] w a h p v = (p, v, refl, tt)
AreWorks-append max s (x ∷ ws) w a h p v = (
  a.0,
  a.1,
  ground
      (arith, has_work-append x.id ws (w ∷ []), a.2, text_eq_iff w.id x.id, text_eq_iff x.id w.id),
  AreWorks-append max s ws w a.3 (ground arith) p v,
)

-- Without a job in the middle, which then has its ID alone.
pub AreWorks-remove :
    (max : ℕ) (s : Store) (xs : List QueuedJob) (w : QueuedJob) (ys : List QueuedJob)
    → AreWorks max s (xs ++ w ∷ ys)
    → AreWorks max s (xs ++ ys)
      × (has_work w.id (xs ++ ys) ≡ false)
      × (pending_in (Store.get w.id s) ≡ true)
      × IsValidWork max w
AreWorks-remove max s [] w ys a = (a.3, a.2, a.0, a.1)
AreWorks-remove max s (x ∷ xs) w ys a =
    let (rest, alone, p, v) = AreWorks-remove max s xs w ys a.3 in
    let split = has_work-append x.id xs (w ∷ ys) in
    let split' = has_work-append x.id xs ys in
    (
      (a.0, a.1, ground (arith, split, split', a.2), rest),
      ground (arith, split, a.2, text_eq_iff w.id x.id, text_eq_iff x.id w.id),
      p,
      v,
    )

-- A job of the list is pending, so an ID that the store does not have is not in it.
pub has_work_pending :
    (max : ℕ) (s : Store) (id : Text) (ws : List QueuedJob)
    → AreWorks max s ws
    → has_work id ws ≡ true
    → pending_in (Store.get id s) ≡ true
has_work_pending max s id [] a h = cc
has_work_pending max s id (w ∷ ws) a h =
    ground (arith, a.0, text_eq_iff w.id id, has_work_pending max s id ws a.3)

-- Every job that is pending in the store is in the list: none is lost.
abbrev pub Accounts : Store → List QueuedJob → Type 0
Accounts s ws = (k : Text) → pending_in (Store.get k s) ≡ true → has_work k ws ≡ true

pub has_work-middle :
    (k : Text) (xs : List QueuedJob) (w : QueuedJob) (ys : List QueuedJob)
    → has_work k (xs ++ w ∷ ys) ≡ (text_eq w.id k || has_work k (xs ++ ys))
has_work-middle k [] w ys = refl
has_work-middle k (x ∷ xs) w ys = ground (arith, has_work-middle k xs w ys)

-- Without a job in the middle, the other IDs are in the list as before.
pub has_work-left :
    (k : Text) (before : List QueuedJob) (w : QueuedJob) (after queue : List QueuedJob)
    → text_eq w.id k ≡ false
    → has_work k ((before ++ w ∷ after) ++ queue) ≡ has_work k ((before ++ after) ++ queue)
has_work-left k before w after queue f =
    rw
      (
        append_assoc before (w ∷ after) queue,
        append_assoc before after queue,
        has_work-middle k before w (after ++ queue),
        f,
      )
      refl
