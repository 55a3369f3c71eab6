-- ===== src/Job/Laws.antt =====
-- The job store as a map from IDs to jobs: what its methods keep.
use parser_go.Prelude.{
  Text, Bool, false, some, List, [], ◌∷◌, ◌≡◌, refl, arith, text_eq, text_eq_iff, text_eq_refl, inl,
  inr, Option-cases, ◌||◌, is_some,
}
use parser_go.Prelude.Map
use parser_go.Prelude.Keys.{
  IsUnique, put-IsUnique, delete-IsUnique, AllEntries, put-AllEntries, delete-AllEntries,
  get-AllEntries,
}
use parser_go.Job.{Job}
use parser_go.Job.Store.{Store, get, create, delete, update, updated, list}

abbrev HasKey : Text → Job → Type 0
HasKey k j = j.id ≡ k

-- Each job stands under its own ID, and no ID has two entries.
pub record IsWellKeyed (s : Store) : Type 0 where
  pub keyed : AllEntries HasKey s
  pub unique : IsUnique s

pub create-IsWellKeyed : (j : Job) (s : Store) → IsWellKeyed s → IsWellKeyed (create j s)
unfolding create
create-IsWellKeyed j s w = record {
  keyed = put-AllEntries HasKey j.id j s refl w.keyed;
  unique = put-IsUnique j.id j s w.unique;
}

pub delete-IsWellKeyed : (id : Text) (s : Store) → IsWellKeyed s → IsWellKeyed (delete id s)
unfolding delete
delete-IsWellKeyed id s w = record {
  keyed = delete-AllEntries HasKey id s w.keyed;
  unique = delete-IsUnique id s w.unique;
}

pub update-IsWellKeyed : (j : Job) (s : Store) → IsWellKeyed s → IsWellKeyed (update j s).0
unfolding update updated
update-IsWellKeyed j s w = elim (Option-cases (Map.get j.id s)) [
  | inl e ↦ rw (e, update) w
  | inr (x, e) ↦
      rw (e, update)
        (record {
          keyed =
              put-AllEntries HasKey j.id (updated x j) s (get-AllEntries HasKey j.id x s e w.keyed)
                w.keyed;
          unique = put-IsUnique j.id (updated x j) s w.unique;
        })
]

pub get-id : (k : Text) (j : Job) (s : Store) → get k s ≡ some j → IsWellKeyed s → j.id ≡ k
unfolding get
get-id k j s h w = get-AllEntries HasKey k j s h w.keyed

-- Whether a list of jobs has one of the ID.
abbrev pub has_id : Text → List Job → Bool
has_id k [] = false
has_id k (j ∷ js) = text_eq j.id k || has_id k js

-- The jobs are those of the store, each once.
abbrev pub Snapshot : Store → List Job → Type 0
Snapshot s [] = Unit {0}
Snapshot s (j ∷ js) = (get j.id s ≡ some j) × (has_id j.id js ≡ false) × Snapshot s js

has_id-values : (k : Text) (s : Store) → AllEntries HasKey s → has_id k (list s) ≡ is_some (get k s)
unfolding list get Map.get Map.values
has_id-values k [] a = refl
has_id-values k (e ∷ s) a = let q = a.0 in ground (arith, has_id-values k s a.1)

Snapshot-grow :
    (e : Map.Entry Job) (s : Store) (js : List Job)
    → has_id e.key js ≡ false
    → Snapshot s js
    → Snapshot (e ∷ s) js
unfolding get Map.get
Snapshot-grow e s [] h n = tt
Snapshot-grow e s (j ∷ js) h n = (
  ground (arith, n.0, text_eq_iff e.key j.id, text_eq_iff j.id e.key),
  n.1,
  Snapshot-grow e s js (ground arith) n.2,
)

entries-Snapshot : (s : Store) → AllEntries HasKey s → IsUnique s → Snapshot s (list s)
unfolding list get Map.get Map.values
entries-Snapshot [] a u = tt
entries-Snapshot (e ∷ s) a u =
    let absent : has_id e.key (list s) ≡ false = ground (arith, has_id-values e.key s a.1, u.0) in
    let q = a.0 in
    (
      ground (arith, text_eq_refl e.key),
      ground arith,
      Snapshot-grow e s (list s) absent (entries-Snapshot s a.1 u.1),
    )

-- What Store.List returns: jobs of the store, each once.
pub list-Snapshot : (s : Store) → IsWellKeyed s → Snapshot s (list s)
list-Snapshot s w = entries-Snapshot s w.keyed w.unique

pub has_id-list : (k : Text) (s : Store) → IsWellKeyed s → has_id k (list s) ≡ is_some (get k s)
has_id-list k s w = has_id-values k s w.keyed

-- In a store that holds each job under its ID, with one entry for each ID, what List returns are jobs
-- that Get returns too, each once, and List has a job of an ID exactly if Get has one.
pub list_lem :
    (k : Text) (s : Store)
    → IsWellKeyed s
    → Snapshot s (list s) × (has_id k (list s) ≡ is_some (get k s))
list_lem k s w = (list-Snapshot s w, has_id-list k s w)
