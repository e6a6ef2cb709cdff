-- ===== src/Field/Sending.antt =====
-- worker/fieldWorker.cpp: what a field tells its players.
use Prim.Native.String.{String, len}
use mmorpg_server_rl_portfol.Prelude.{
  ℕ, ℤ, nat_eq, ◌==◌, leb, Bool, List, [], ◌∷◌, ◌++◌, none, some, contains, if◌then◌else◌,
}
use mmorpg_server_rl_portfol.Game.Player.{Player}
use mmorpg_server_rl_portfol.Monster.World.{AiState}
use mmorpg_server_rl_portfol.Aoi.Types.{Sent}
use mmorpg_server_rl_portfol.Aoi.System.{FieldAoiSystem, each_watcher}
use mmorpg_server_rl_portfol.Field.Types.{
  EntityType, player_type, monster_type, AiStateType, PlayerState, to_fb_state, to_fb_player_state,
  to_field_cmd_type, cmd_enter, Packet, field_cmd, combat_event, stat_event, ai_state_event,
  UserSnapshot, Effect, sends, writes, Field, Run, find_player,
}

unfoldable pub is_monster_id : ℕ → Bool
is_monster_id id = leb 1000 id

abbrev pub entity_type : Bool → EntityType
entity_type is_monster = if is_monster then monster_type else player_type

-- `if (prefabName.empty()) prefabName = "Default";`
abbrev pub or_default : String → String
or_default name = if len name == 0 then "Default" else name

module _ {F : Type 0} where
  -- `find_by_player_id(id)`, and `send_payload` if there is a session.
  unfoldable pub send_to : Field F → ℕ → Packet F → List (Effect F)
  send_to f id packet = if f.has_session id then sends id packet ∷ [] else []

  unfoldable pub get_prefab_name : Field F → ℕ → Bool → String
  get_prefab_name f id is_monster =
      let of_monster : String = elim (f.monster_world.components id) [
        | none ↦ ""
        | some m ↦ m.prefab_name
      ] in
      let of_player = if contains id f.players then "Paladin" else "" in
      if is_monster then of_monster else of_player

  -- The function that the constructor gives to `set_send_func`, on one call.
  unfoldable pub send_event : Field F → Sent F → List (Effect F)
  unfolding send_to get_prefab_name is_monster_id to_field_cmd_type
  send_event f (watcher, ev) =
      let is_monster = is_monster_id ev.subject_id in
      let name = or_default (get_prefab_name f ev.subject_id is_monster) in
      send_to f watcher (
        field_cmd (to_field_cmd_type ev.type) (entity_type is_monster) ev.subject_id ev.position.x
          ev.position.y name)

  unfoldable pub send_events : Field F → List (Sent F) → List (Effect F)
  unfolding send_event
  send_events f [] = []
  send_events f (call ∷ calls) = send_event f call ++ send_events f calls

  -- An operation of the grid, its calls of the send function included.
  unfoldable pub in_grid : Field F → (FieldAoiSystem F → FieldAoiSystem F × List (Sent F)) → Run F
  unfolding send_events
  in_grid f op =
      let (aoi_system, calls) = op f.aoi_system in
      (record f { aoi_system = aoi_system }, send_events f calls)

  unfoldable pub send_field_enter : Field F → ℕ → ℕ → Bool → F → F → List (Effect F)
  unfolding send_to get_prefab_name
  send_field_enter f watcher subject is_monster x y =
      let name = or_default (get_prefab_name f subject is_monster) in
      send_to f watcher (field_cmd cmd_enter (entity_type is_monster) subject x y name)

  unfoldable pub send_combat_event :
      Field F → EntityType → ℕ → EntityType → ℕ → ℤ → ℤ → List (Effect F)
  unfolding send_to
  send_combat_event f attacker_type attacker target_type target damage remain_hp =
      send_to f target (combat_event attacker_type attacker target_type target damage remain_hp)

  unfoldable pub send_stat_event : Field F → ℕ → ℕ → Bool → ℤ → ℤ → ℤ → ℤ → List (Effect F)
  unfolding send_to
  send_stat_event f watcher subject is_monster hp max_hp sp max_sp =
      send_to f watcher (stat_event (entity_type is_monster) subject hp max_hp sp max_sp)

  -- A payload for each of these watchers that has a session.
  unfoldable pub send_each : Field F → List ℕ → Packet F → List (Effect F)
  unfolding send_to
  send_each f [] packet = []
  send_each f (watcher ∷ ws) packet = send_to f watcher packet ++ send_each f ws packet

  unfoldable pub broadcast_ai_state : Field F → ℕ → EntityType → AiStateType → List (Effect F)
  unfolding send_each each_watcher
  broadcast_ai_state f id et st =
      send_each f (each_watcher f.aoi_system id) (ai_state_event et id st)

  unfoldable pub broadcast_monster_ai_state : Field F → ℕ → AiState → List (Effect F)
  unfolding broadcast_ai_state to_fb_state
  broadcast_monster_ai_state f id st = broadcast_ai_state f id monster_type (to_fb_state st)

  unfoldable pub broadcast_player_ai_state : Field F → ℕ → PlayerState → List (Effect F)
  unfolding broadcast_ai_state to_fb_player_state
  broadcast_player_ai_state f id st = broadcast_ai_state f id player_type (to_fb_player_state st)

  unfoldable pub broadcast_stat_event : Field F → ℕ → EntityType → ℤ → ℤ → ℤ → ℤ → List (Effect F)
  unfolding send_each each_watcher
  broadcast_stat_event f id et hp max_hp sp max_sp =
      send_each f (each_watcher f.aoi_system id) (stat_event et id hp max_hp sp max_sp)

  unfoldable pub broadcast_monster_stat : Field F → ℕ → ℤ → ℤ → ℤ → ℤ → List (Effect F)
  unfolding broadcast_stat_event
  broadcast_monster_stat f id hp max_hp sp max_sp =
      broadcast_stat_event f id monster_type hp max_hp sp max_sp

  unfoldable pub broadcast_player_stat : Field F → ℕ → ℤ → ℤ → ℤ → ℤ → List (Effect F)
  unfolding broadcast_stat_event
  broadcast_player_stat f id hp max_hp sp max_sp =
      broadcast_stat_event f id player_type hp max_hp sp max_sp

  -- The body of `env_.broadcastCombat`, whose last argument nothing reads.
  unfoldable pub broadcast_combat : Field F → ℕ → ℕ → ℤ → List (Effect F)
  unfolding send_combat_event find_player
  broadcast_combat f monster_id player_id damage = elim (find_player f player_id) [
    | none ↦ []
    | some p ↦ send_combat_event f monster_type monster_id player_type player_id damage p.stat.hp
  ]

  unfoldable pub write_player_rt_enqueue : Field F → ℕ → Player F → List (Effect F)
  write_player_rt_enqueue f uid p =
      let snapshot : UserSnapshot F = record {
        uid = uid;
        x = p.position.x;
        z = p.position.y;
        hp = p.stat.hp;
        sp = p.stat.sp;
        inv_json = "";
      } in
      if f.has_redis_rt_writer then writes snapshot ∷ [] else []
