-- ===== src/Examples/Hunt.antt =====
-- A world with one monster of ten hit points, and players whose points are one record.
use mmorpg_server_rl_portfol.Prelude.{
  ℕ, ℤ, Bool, nat_eq, pos, ◌==◌, ◌≡◌, ◌≢◌, ◌∙◌, refl, ap, true, false, some, none, [], ◌∷◌, Option,
  update, contains, if◌then◌else◌, if_false, arith, ◌-ℤ◌, beq_ne, update_self,
}
use mmorpg_server_rl_portfol.Game.Player.{PlayerStat, new_stat}
use mmorpg_server_rl_portfol.Game.Stats.{do_calls-IsStat, do_calls}
use mmorpg_server_rl_portfol.Monster.World.{
  Monster, MonsterWorld, CStats, new_world, create_monster, player_attack_monster, set_monster,
  strike, hit, slay, kill_monster, attack_found, attack_loop, patrol, spawn_update, remove_from_aoi,
}
use mmorpg_server_rl_portfol.Monster.Combat.{
  PlayerSide, IsPlayerSide, attack_player, attack_stats, damaged,
}
use mmorpg_server_rl_portfol.Monster.Attack.{IsStruck, player_attack_monster_lem, attack_player_lem}
use mmorpg_server_rl_portfol.Monster.Respawn.{Lived, empty, created, attacked, spawn_update-still}
use mmorpg_server_rl_portfol.Examples.Floats.{whole_floats}

abbrev pub weak : CStats
weak = record {
  max_hp = pos 10;
  hp = pos 10;
  max_sp = pos 0;
  sp = pos 0;
  atk = pos 7;
  def = pos 0;
  dirty = false;
}

abbrev pub den : MonsterWorld ℤ
den = create_monster whole_floats new_world 5 (pos 1) (pos 2) "Bow" (pos 0) weak

hunt_code : Unit {0}
unfolding create_monster new_world set_monster update contains player_attack_monster attack_loop
    attack_found strike hit slay kill_monster ◌-ℤ◌ attack_player attack_stats damaged
hunt_code = tt

abbrev pub beast : Monster ℤ
beast = record {
  transform = record { x = pos 1; y = pos 2 };
  stats = weak;
  monster_type = pos 0;
  spawn_info = record {
    spawn_x = pos 1;
    spawn_y = pos 2;
    respawn_delay = pos 0;
    pending_respawn = false;
    respawn_timer = pos 0;
    dead_timer = pos 0;
  };
  ai = record {
    state = patrol;
    target_id = 0;
    think_cooldown = pos 0;
    attack_cooldown = pos 1;
    attack_timer = pos 0;
    move_dir_x = pos 0;
    move_dir_y = pos 0;
    move_speed = pos 0;
    idle_patrol_timer = pos 0;
    net_synced = false;
    rng = 0x12345678;
    attack_cd = pos 0;
  };
  prefab_name = "Bow";
}

player_attack_monster_lem_example :
    (m' : Monster ℤ) × (died : Bool) × (player_attack_monster whole_floats den 5
      ≡ some (set_monster den 5 m', (if died then remove_from_aoi 5 ∷ [] else [], died)))
    × IsStruck whole_floats beast m' died
unfolding hunt_code
player_attack_monster_lem_example = player_attack_monster_lem whole_floats den 5 beast refl refl

abbrev hunted : MonsterWorld ℤ
hunted = set_monster den 5 (slay whole_floats (hit whole_floats beast))

den-Lived : Lived whole_floats den
den-Lived = created 5 (pos 1) (pos 2) "Bow" (pos 0) weak empty

hunted-Lived : Lived whole_floats hunted
unfolding hunt_code
hunted-Lived = attacked 5 (remove_from_aoi 5 ∷ [], true) refl den-Lived

spawn_update-still_example : spawn_update whole_floats (pos 100) hunted ≡ some (hunted, [])
spawn_update-still_example = spawn_update-still whole_floats hunted (pos 100) refl hunted-Lived

abbrev written : Option PlayerStat → ℤ → ℤ → Option PlayerStat
written none hp sp = none
written (some st) hp sp = some (record st { hp = hp; sp = sp })

abbrev one_party : PlayerSide
one_party = record {
  Players = ℕ → Option PlayerStat;
  get_player_stats = λ p id. p id;
  set_player_stats = λ p id hp sp. update p id (written (p id) hp sp);
  has_position = λ p id. true;
}

one_party-IsPlayerSide : IsPlayerSide one_party
unfolding update
one_party-IsPlayerSide = record {
  set_self = λ p id st hp sp at low high sp_low sp_high.
      update_self p id (written (p id) hp sp) ∙ ap (λ o. written o hp sp) at;
  set_other = λ p id j hp sp apart. if_false _ (p j) (beq_ne j id apart);
}

abbrev party : ℕ → Option PlayerStat
party id = if id == 1 then some new_stat else none

attack_player_lem_example :
    (one_party.get_player_stats (attack_player one_party party 5 1 (pos 7)).0 1
      ≡ some (record new_stat { hp = pos 493 }))
    × (◌≢◌ {A = ℕ} 2 1
        → one_party.get_player_stats (attack_player one_party party 5 1 (pos 7)).0 2
          ≡ one_party.get_player_stats party 2)
unfolding hunt_code do_calls
attack_player_lem_example =
    attack_player_lem one_party one_party-IsPlayerSide party 5 1 2 (pos 7) new_stat refl
      (omega arith) (do_calls-IsStat [])
