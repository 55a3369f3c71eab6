-- ===== src/Job/Store.antt =====
-- The methods of job.Store and their laws.
use parser_go.Prelude.{
  Text, Bool, true, false, Option, none, some, List, [], ◌≡◌, arith, if◌then◌else◌, text_eq,
  text_eq_iff, is_some, inl, inr, Option-cases,
}
use parser_go.Prelude.Map
use parser_go.Prelude.Map.{Map, get-put, get-delete}
use parser_go.Clock.{is_zero}
use parser_go.Job.{Job, is_unset}

abbrev pub Store : Type 0
Store = Map Job

-- NewStore
abbrev pub new_store : Store
new_store = []

-- Store.Get
unfoldable pub get : Text → Store → Option Job
get id s = Map.get id s

-- Store.Create
unfoldable pub create : Job → Store → Store
create j s = Map.put j.id j s

-- Store.Delete
unfoldable pub delete : Text → Store → Store
delete id s = Map.delete id s

-- The copy that Store.Update makes of the stored job.
unfoldable pub updated : Job → Job → Job
updated existing j = record existing {
  state = if is_unset j.state then existing.state else j.state;
  created_at = if is_zero j.created_at then existing.created_at else j.created_at;
  updated_at = if is_zero j.updated_at then existing.updated_at else j.updated_at;
  error = j.error;
}

-- Store.Update
unfoldable pub update : Job → Store → Store × Bool
update j s = elim (Map.get j.id s) [
  | none ↦ (s, false)
  | some existing ↦ (Map.put j.id (updated existing j) s, true)
]

-- Store.List, in the order of the map's iteration.
unfoldable pub list : Store → List Job
unfolding Map.values
list s = Map.values s

abbrev pub patch : Job → Option Job → Option Job
patch j none = none
patch j (some existing) = some (updated existing j)

pub get-create :
    (j : Job) (k : Text) (s : Store)
    → get k (create j s) ≡ (if text_eq j.id k then some j else get k s)
unfolding get create
get-create j k s = get-put j.id k j s

pub get-delete_lem :
    (id k : Text) (s : Store) → get k (delete id s) ≡ (if text_eq id k then none else get k s)
unfolding get delete
get-delete_lem id k s = get-delete id k s

pub get-update :
    (j : Job) (k : Text) (s : Store)
    → get k (update j s).0 ≡ (if text_eq j.id k then patch j (get k s) else get k s)
unfolding get update
get-update j k s = elim (Option-cases (Map.get j.id s)) [
  | inl e ↦ ground (arith, text_eq_iff j.id k)
  | inr (x, e) ↦ ground (arith, text_eq_iff j.id k, get-put j.id k (updated x j) s)
]

pub update-known : (j : Job) (s : Store) → (update j s).1 ≡ is_some (get j.id s)
unfolding get update
update-known j s = ground arith

pub ruleset store_laws = (get-create, get-delete_lem, get-update)
