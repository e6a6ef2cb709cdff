-- ===== src/Examples/Ledger.antt =====
-- A database that executes whatever it is told, and the text of two snapshots.
use mmorpg_server_rl_portfol.Prelude.{
  ℕ, zero, suc, ◌+◌, ◌-◌, ◌/◌, ◌%◌, ℤ, pos, negsuc, ltb, ◌≡◌, ◌⊎◌, inl, refl, Bool, true, false,
  List, [], ◌∷◌, ◌++◌, map, some, by_test, arith,
}
use mmorpg_server_rl_portfol.Field.Types.{UserSnapshot}
use mmorpg_server_rl_portfol.Storage.DbWorker.{new_worker}
use mmorpg_server_rl_portfol.Storage.DirtyHub.{new_hub}
use mmorpg_server_rl_portfol.Storage.System.{Impl}
use mmorpg_server_rl_portfol.Storage.Json.{
  codes, show_digits, show_nat, show_int, show_row, build_snapshot_json,
}
use mmorpg_server_rl_portfol.Storage.Reading.{read_json, IsPlain}
use mmorpg_server_rl_portfol.Storage.Reading.Rows.{row_of, read_json-build_snapshot_json}
use mmorpg_server_rl_portfol.Storage.Statement.{
  Value, StatementClient, call_sp_upsert_user_state_batch,
}
use mmorpg_server_rl_portfol.Storage.Statement.Calls.{
  IsClient, Adds, call_of, call_sp_upsert_user_state_batch-Adds,
}
use mmorpg_server_rl_portfol.Storage.Clients.{Clients}
use mmorpg_server_rl_portfol.Examples.Cache.{idle_cache, toy_context}

abbrev print : ℤ → List ℕ
print x = show_int x []

show_digits-IsPlain :
    (fuel n : ℕ) (rest : List ℕ) → IsPlain rest → IsPlain (show_digits fuel n rest)
unfolding show_digits
show_digits-IsPlain zero n rest plain = plain
show_digits-IsPlain (suc fuel) n rest plain =
    let digit = b'0' + n % 10 in
    let more : IsPlain (digit ∷ rest) = (ground arith, plain) in
    by_test IsPlain (ltb n 10) _ _ more (show_digits-IsPlain fuel (n / 10) (digit ∷ rest) more)

print-IsPlain : (x : ℤ) → IsPlain (print x)
unfolding show_int show_nat
print-IsPlain (pos n) = show_digits-IsPlain (suc n) n [] tt
print-IsPlain (negsuc n) = (refl, show_digits-IsPlain (suc (suc n)) (suc n) [] tt)

abbrev hurt : UserSnapshot ℤ
hurt = record { uid = 71; x = pos 3; z = negsuc 3; hp = negsuc 4; sp = pos 0; inv_json = "" }

abbrev fresh : UserSnapshot ℤ
fresh = record { uid = 8; x = pos 0; z = pos 40; hp = pos 500; sp = pos 100; inv_json = "" }

two_rows :
    build_snapshot_json print (hurt ∷ fresh ∷ [])
    ≡ codes "[{\"uid\":71,\"x\":3,\"z\":-4,\"hp\":-5,\"sp\":0},"
      ++ codes "{\"uid\":8,\"x\":0,\"z\":40,\"hp\":500,\"sp\":100}]"
unfolding build_snapshot_json show_row show_int show_nat
two_rows = refl

read_json-build_snapshot_json_example :
    read_json 3 (build_snapshot_json print (hurt ∷ fresh ∷ []))
    ≡ some (map (row_of print print-IsPlain) (hurt ∷ fresh ∷ []))
read_json-build_snapshot_json_example =
    read_json-build_snapshot_json print print-IsPlain (hurt ∷ fresh ∷ []) 3 (omega arith)

record Desk : Type 0 where
  handles : ℕ
  text : List ℕ
  done : List (List ℕ × List (Value ℤ))
  left : ℕ

abbrev skip : Desk → ℕ → Desk × Bool
skip o zero = (o, false)
skip o (suc n) = (record o { left = n }, true)

-- An execution leaves one result.
abbrev toy_client : StatementClient ℤ
toy_client = record {
  Outside = Desk;
  init = λ o. (record o { handles = suc o.handles }, true);
  prepare = λ o q. (record o { text = q }, true);
  bind_param = λ o. (o, true);
  execute = λ o vs. (record o { done = o.done ++ (o.text, vs) ∷ []; left = 1 }, true);
  next_result = λ o. skip o o.left;
  results_left = λ o. o.left;
  close = λ o. record o { handles = o.handles - 1 };
}

toy_client-IsClient : IsClient toy_client
toy_client-IsClient = record {
  handles = λ o. o.handles;
  text = λ o. o.text;
  done = λ o. o.done;
  inited = λ o. (refl, refl);
  prepared = λ o q. (refl, refl, λ went. refl);
  bound = λ o. (refl, refl, refl);
  executed = λ o vs. (refl, inl refl, refl);
  skipped = λ o. ground arith;
  closed = λ o. (refl, refl);
}

abbrev empty_desk : Desk
empty_desk = record { handles = 0; text = []; done = []; left = 0 }

call_sp_upsert_user_state_batch-Adds_example :
    let r = call_sp_upsert_user_state_batch print toy_client empty_desk (hurt ∷ []) in
    ((r.1 ≡ some false)
      × (Adds print toy_client toy_client-IsClient empty_desk [] r.0
          ⊎ Adds print toy_client toy_client-IsClient empty_desk
              (call_of print toy_client toy_client-IsClient (hurt ∷ []))
              r.0))
    ⊎ ((r.1 ≡ some true)
        × Adds print toy_client toy_client-IsClient empty_desk
            (call_of print toy_client toy_client-IsClient (hurt ∷ []))
            r.0)
call_sp_upsert_user_state_batch-Adds_example =
    call_sp_upsert_user_state_batch-Adds print toy_client toy_client-IsClient empty_desk (hurt ∷ [])

abbrev toy_clients : Clients ℤ
toy_clients = record {
  redis = toy_context;
  sql = toy_client;
  redis_connect = λ c. (idle_cache, some false);
  redis_free = λ c. c;
  mysql_init = λ o. (o, true);
  mysql_real_connect = λ o. (o, true);
  mysql_close = λ o. o;
}

abbrev connected_storage : Impl (toy_context.Conn × Desk) (UserSnapshot ℤ)
connected_storage = record {
  started = true;
  max_batch_uids = 512;
  dirty = new_hub;
  db = new_worker;
  redis_ctx = true;
  mysql = true;
  rt_q = [];
  rt_pending = 0;
  outside = (idle_cache, empty_desk);
}
