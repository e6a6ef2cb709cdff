-- ===== src/Worker/Registry.antt =====
-- worker/workerManager.cpp and field/FieldManager.cpp: the maps from names to workers and from ids to
-- fields. A worker or a field is known by a number for its address.
use mmorpg_server_rl_portfol.Prelude.{
  ℕ, suc, ℤ, Key, int_eq, nat_eq, Bool, true, false, Option, none, some, update, if◌then◌else◌,
}

module _ {K : Type 0} ⦃key : Key K⦄ where
  -- `WorkerManager::insert` of a worker that is not null.
  unfoldable pub insert_found : (K → Option ℕ) → K → ℕ → Option ℕ → (K → Option ℕ) × Bool
  insert_found workers k worker none = (update workers k (some worker), true)
  insert_found workers k worker (some old) = (workers, false)

  unfoldable pub insert_worker : (K → Option ℕ) → K → Option ℕ → (K → Option ℕ) × Bool
  unfolding insert_found
  insert_worker workers k none = (workers, false)
  insert_worker workers k (some worker) = insert_found workers k worker (workers k)

  unfoldable pub get_worker : (K → Option ℕ) → K → Option ℕ
  get_worker workers k = workers k

  unfoldable pub remove_worker : (K → Option ℕ) → K → (K → Option ℕ)
  remove_worker workers k = update workers k none

-- `fresh` numbers the fields that `make_shared` makes.
pub record FieldManager : Type 0 where
  pub fields : ℤ → Option ℕ
  pub has_storage : Bool
  pub fresh : ℕ

unfoldable pub create_absent : FieldManager → ℤ → FieldManager × Option ℕ
create_absent mgr field_id =
    if mgr.has_storage
    then (
      record mgr { fields = update mgr.fields field_id (some mgr.fresh); fresh = suc mgr.fresh },
      some mgr.fresh,
    )
    else (mgr, none)

unfoldable pub create_found : FieldManager → ℤ → Option ℕ → FieldManager × Option ℕ
unfolding create_absent
create_found mgr field_id none = create_absent mgr field_id
create_found mgr field_id (some field) = (mgr, some field)

unfoldable pub create_field : FieldManager → ℤ → FieldManager × Option ℕ
unfolding create_found
create_field mgr field_id = create_found mgr field_id (mgr.fields field_id)

unfoldable pub get_field : FieldManager → ℤ → Option ℕ
get_field mgr field_id = mgr.fields field_id

unfoldable pub set_storage : FieldManager → Bool → FieldManager
set_storage mgr has_storage = record mgr { has_storage = has_storage }

-- `stop_all`, after every field is stopped.
unfoldable pub clear_fields : FieldManager → FieldManager
clear_fields mgr = record mgr { fields = λ field_id. none }
