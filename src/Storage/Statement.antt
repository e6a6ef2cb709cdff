-- ===== src/Storage/Statement.antt =====
-- The prepared statements of storage/DB/Proc/userStateProc.cpp and storage/DB/userUpsert.cpp. The
-- client of MySQL is a parameter: a call changes the outside and may fail. What a statement is bound
-- to are buffers, which `mysql_stmt_execute` reads: their values go with that call.
pub mod Calls
use mmorpg_server_rl_portfol.Prelude.{
  ℕ, zero, suc, ℤ, Bool, true, false, not, List, [], ◌∷◌, ◌++◌, Option, none, some, is_empty,
  if◌then◌else◌,
}
use Prim.Native.String.{String}
use mmorpg_server_rl_portfol.Field.Types.{UserSnapshot}
use mmorpg_server_rl_portfol.Storage.Json.{codes, build_snapshot_json}

-- The value of a buffer; a string is none where `is_null` is set.
pub data Value (F : Type 0) : Type 0 where
  longlong : ℕ → Value F
  float : F → Value F
  long : ℤ → Value F
  string : Option (List ℕ) → Value F

-- true where the call of the client answers 0, or a statement. `results_left` bounds the results that
-- `mysql_stmt_next_result` still finds.
pub record StatementClient (F : Type 0) : Type 1 where
  pub Outside : Type 0
  pub init : Outside → Outside × Bool
  pub prepare : Outside → List ℕ → Outside × Bool
  pub bind_param : Outside → Outside × Bool
  pub execute : Outside → List (Value F) → Outside × Bool
  pub next_result : Outside → Outside × Bool
  pub results_left : Outside → ℕ
  pub close : Outside → Outside

abbrev pub sp_upsert : List ℕ
sp_upsert = codes "CALL sp_upsert_user_state_batch(?)"

abbrev pub insert_user_state : List ℕ
insert_user_state =
    codes "INSERT INTO user_state(uid, x, z, hp, sp, inv_json) VALUES(?,?,?,?,?,?) "
    ++ (codes "ON DUPLICATE KEY UPDATE x=VALUES(x), z=VALUES(z), hp=VALUES(hp), "
        ++ codes "sp=VALUES(sp), inv_json=VALUES(inv_json)")

-- The bytes of a text; an empty one is the null of SQL.
unfoldable pub inv_value : List ℕ → Option (List ℕ)
inv_value [] = none
inv_value (c ∷ text) = some (c ∷ text)

unfoldable pub values_of : {F : Type 0} → UserSnapshot F → List (Value F)
unfolding inv_value
values_of r =
    longlong r.uid
    ∷ float r.x
    ∷ float r.z
    ∷ long r.hp
    ∷ long r.sp
    ∷ string (inv_value (codes r.inv_json))
    ∷ []

module _ {F : Type 0} (show_double : F → List ℕ) (sql : StatementClient F) where
  open sql use {Outside, init, prepare, bind_param, execute, next_result, results_left, close}

  -- `while (mysql_stmt_next_result(stmt) == 0)`, and whether it ended by its test.
  unfoldable pub skip_results : ℕ → Outside → Outside × Bool
  skip_results zero o = (o, false)
  skip_results (suc fuel) o =
      let (o', more) = next_result o in
      let rest = skip_results fuel o' in if more then rest else (o', true)

  -- `CallSpUpsertUserStateBatch` after `mysql_stmt_execute`: none where the results do not end.
  unfoldable pub finish_call : Outside → Outside × Option Bool
  unfolding skip_results
  finish_call o =
      let (o', ended) = skip_results (suc (results_left o)) o in
      if ended then (close o', some true) else (o', none)

  -- `CallSpUpsertUserStateBatch` once there is a statement.
  unfoldable pub call_prepared : Outside → List ℕ → Outside × Option Bool
  unfolding finish_call
  call_prepared o json =
      let (o1, prepared) = prepare o sp_upsert in
      let (o2, bound) = bind_param o1 in
      let (o3, executed) = execute o2 (string (some json) ∷ []) in
      if not prepared
      then (close o1, some false)
      else if not bound
      then (close o2, some false)
      else if not executed
      then (close o3, some false)
      else finish_call o3

  -- `CallSpUpsertUserStateBatch` with a connection.
  unfoldable pub call_sp_upsert_user_state_batch :
      Outside → List (UserSnapshot F) → Outside × Option Bool
  unfolding call_prepared
  call_sp_upsert_user_state_batch o [] = (o, some true)
  call_sp_upsert_user_state_batch o (s ∷ snap) =
      let (o1, made) = init o in
      if not made
      then (o1, some false)
      else call_prepared o1 (build_snapshot_json show_double (s ∷ snap))

  -- The loop of `UpsertUserState`.
  unfoldable pub upsert_rows : Outside → List (UserSnapshot F) → Outside × Bool
  upsert_rows o [] = (close o, true)
  upsert_rows o (r ∷ rows) =
      let (o1, bound) = bind_param o in
      let (o2, executed) = execute o1 (values_of r) in
      let rest = upsert_rows o2 rows in
      if not bound then (close o1, false) else if not executed then (close o2, false) else rest

  unfoldable pub upsert_prepared : Outside → List (UserSnapshot F) → Outside × Bool
  unfolding upsert_rows
  upsert_prepared o rows =
      let (o1, prepared) = prepare o insert_user_state in
      let (o2, bound) = bind_param o1 in
      if not prepared
      then (close o1, false)
      else if not bound
      then (close o2, false)
      else upsert_rows o2 rows

  -- `UpsertUserState` with a connection.
  unfoldable pub upsert_user_state : Outside → List (UserSnapshot F) → Outside × Bool
  unfolding upsert_prepared
  upsert_user_state o [] = (o, true)
  upsert_user_state o (r ∷ rows) =
      let (o1, made) = init o in if not made then (o1, false) else upsert_prepared o1 (r ∷ rows)
