-- ===== src/Field/Worker.antt =====
-- worker/fieldWorker.cpp: the field worker, with its messages, its monsters and its clock. Ids that
-- the missing ids.h makes, and what flatbuffers reads from a payload, are parameters.
use Prim.Native.String.{String}
use mmorpg_server_rl_portfol.Prelude.{
  ℕ, ℤ, zero, suc, pos, ◌+◌, ◌/◌, ◌%◌, int_eq, nat_eq, ◌==◌, ltb, Bool, true, false, not, List, [],
  ◌∷◌, ◌++◌, Option, none, some, get_elem?, length, map, if◌then◌else◌, FloatArith,
}
use mmorpg_server_rl_portfol.Monster.World.{
  CStats, dead, create_monster, new_world, player_attack_monster, f0, ◌>>=◌,
}
use mmorpg_server_rl_portfol.Aoi.System.{new_system, set_send_func, set_initialized}
use mmorpg_server_rl_portfol.Storage.DirtyHub.{DirtyHub}
use mmorpg_server_rl_portfol.Field.Types.{Field, Run, player_attack, ◌then◌, done}
use mmorpg_server_rl_portfol.Field.Sending.{broadcast_player_ai_state, broadcast_monster_ai_state}
use mmorpg_server_rl_portfol.Field.Players.{FieldCmd, on_client_move_input, tick_players}
use mmorpg_server_rl_portfol.Field.Monsters.{aoi_calls, monster_spawn_in_aoi, tick_monsters}

-- `NetMessage`; a session is a number for its address, and its `player_id()` is asked for when the
-- message is handled.
pub data MessageType : Type 0 where
  skill_cmd_message custom_message other_message : MessageType

pub record NetMessage : Type 0 where
  pub type : MessageType
  pub session : Option ℕ
  pub payload : List ℕ

-- What flatbuffers makes of a payload: the `FieldCmd` of an envelope that has one, and the target of
-- a `SkillCmd` that the verifier accepts.
pub record FieldCodec (F : Type 0) : Type 0 where
  pub get_field_cmd : List ℕ → Option (FieldCmd F)
  pub get_skill_cmd : List ℕ → Option ℕ

pub record MonsterTemplate : Type 0 where
  pub name : String
  pub max_hp : ℤ
  pub hp : ℤ
  pub max_sp : ℤ
  pub sp : ℤ
  pub atk : ℤ
  pub def : ℤ

abbrev template : String → MonsterTemplate
template name = record {
  name = name;
  max_hp = pos 200;
  hp = pos 200;
  max_sp = pos 100;
  sp = pos 100;
  atk = pos 7;
  def = pos 3;
}

abbrev pub k_monster_templates : List MonsterTemplate
k_monster_templates = map template (
    "BowAndArrow1" ∷ "BowAndArrow2" ∷ "BowAndArrow3" ∷ "DoubleSwords1" ∷ "DoubleSwords2"
    ∷ "DoubleSwords3" ∷ "MagicWand1" ∷ "MagicWand2" ∷ "MagicWand3" ∷ [])

-- The entry at an index, which the code keeps below the size.
unfoldable pub template_at : ℕ → MonsterTemplate
template_at i = elim (get_elem? k_monster_templates i) [ none ↦ template "" | some tpl ↦ tpl ]

-- The last arguments of `create_monster`, in a `CStats`, whose mark is off.
abbrev pub stats_of : MonsterTemplate → CStats
stats_of tpl = record {
  max_hp = tpl.max_hp;
  hp = tpl.hp;
  max_sp = tpl.max_sp;
  sp = tpl.sp;
  atk = tpl.atk;
  def = tpl.def;
  dirty = false;
}

unfoldable pub monster_type_of : ℕ → ℤ
monster_type_of type_index =
    if ltb type_index 3 then pos 1 else if ltb type_index 6 then pos 2 else pos 3

module _ (fl : FloatArith) where
  open fl use {F, lit, of_int, fadd, fsub, fmul, fdiv, flt, fle}

  -- `FieldWorker::clampf`: `std::max(lo, std::min(v, hi))`
  unfoldable pub clampf : F → F → F → F
  clampf v lo hi = let low = if flt hi v then hi else v in if flt lo low then low else lo

  -- A turn of the loop of `SpawnMonstersEvenGrid`. The ids come from `MakeDatabaseID`.
  unfoldable pub spawn_monster : (ℕ → ℕ) → ℕ → Field F → Run F
  unfolding clampf template_at monster_type_of create_monster monster_spawn_in_aoi
  spawn_monster make_database_id i f =
      let min = lit 0 1 in
      let max = lit 500 1 in
      let cell = fdiv (fsub max min) (lit 10 1) in
      let centre =
        λ (k : ℕ). clampf (fadd min (fmul (fadd (of_int (pos k)) (lit 5 10)) cell)) min max in
      let x = centre (i % 10) in
      let y = centre (i / 10) in
      let type_index = i % length k_monster_templates in
      let tpl = template_at type_index in
      let id = make_database_id i in
      let w =
        create_monster fl f.monster_world id x y tpl.name (monster_type_of type_index)
          (stats_of tpl) in
      monster_spawn_in_aoi fl (record f { monster_world = w }) id x y

  -- So many turns from an index on.
  unfoldable pub spawn_monsters : (ℕ → ℕ) → ℕ → ℕ → Field F → Run F
  unfolding spawn_monster
  spawn_monsters make_database_id zero i f = done f
  spawn_monsters make_database_id (suc count) i f =
      spawn_monster make_database_id i f then spawn_monsters make_database_id count (i + 1)

  unfoldable pub spawn_monsters_even_grid : (ℕ → ℕ) → ℤ → Field F → Run F
  unfolding spawn_monsters
  spawn_monsters_even_grid make_database_id field_id f =
      if not (field_id == pos 1000) then done f else spawn_monsters make_database_id 300 0 f

  -- The members of a field before the body of the constructor. Sessions and players are outside.
  unfoldable pub empty_field : ℤ → DirtyHub → (ℕ → Bool) → (ℕ → Bool) → Field F
  empty_field field_id hub has_session registered = record {
    field_id = field_id;
    world_time = f0 fl;
    monster_world = new_world;
    aoi_system = set_send_func (new_system fl field_id (lit 15 1) (pos 2));
    players = [];
    objects = λ id. none;
    player_acc = f0 fl;
    monster_acc = f0 fl;
    dirty_hub = hub;
    has_redis_rt_writer = false;
    has_session = has_session;
    registered = registered;
  }

  -- `FieldWorker::FieldWorker`
  unfoldable pub new_field : (ℕ → ℕ) → ℤ → DirtyHub → (ℕ → Bool) → (ℕ → Bool) → Run F
  unfolding empty_field spawn_monsters_even_grid
  new_field make_database_id field_id hub has_session registered =
      let f = empty_field field_id hub has_session registered in
      let spawned =
        if field_id == pos 1000
        then spawn_monsters_even_grid make_database_id (pos 1000) f
        else done f in
      spawned then (λ g. done (record g { aoi_system = set_initialized g.aoi_system true }))

  -- `session->player_id()`, if there is a session.
  unfoldable pub asker : (ℕ → ℕ) → Option ℕ → Option ℕ
  asker player_id none = none
  asker player_id (some session) = some (player_id session)

  -- `handle_skill` for a command that was read: the player `pid` strikes the monster `target`.
  unfoldable pub use_skill : ℕ → ℕ → Field F → Option (Run F)
  unfolding aoi_calls
  use_skill pid target f = do
    (w, struck) ← player_attack_monster fl f.monster_world target
    let r = aoi_calls fl struck.0 (record f { monster_world = w })
    let said = if struck.1 then broadcast_monster_ai_state r.0 target dead else []
    some (r.0, broadcast_player_ai_state f pid player_attack ++ (r.1 ++ said))

  unfoldable pub handle_skill : FieldCodec F → (ℕ → ℕ) → NetMessage → Field F → Option (Run F)
  unfolding use_skill asker
  handle_skill codec player_id msg f = elim (asker player_id msg.session) [
    | none ↦ some (done f)
    | some pid ↦ elim (codec.get_skill_cmd msg.payload) [
      | none ↦ some (done f)
      | some target ↦ use_skill pid target f
    ]
  ]

  unfoldable pub handle_custom : FieldCodec F → (ℕ → ℕ) → NetMessage → Field F → Run F
  unfolding on_client_move_input asker
  handle_custom codec player_id msg f = elim (codec.get_field_cmd msg.payload) [
    | none ↦ done f
    | some cmd ↦ on_client_move_input fl f cmd (asker player_id msg.session)
  ]

  unfoldable pub handle_by_type :
      FieldCodec F → (ℕ → ℕ) → NetMessage → MessageType → Field F → Option (Run F)
  unfolding handle_skill handle_custom
  handle_by_type codec player_id msg skill_cmd_message f = handle_skill codec player_id msg f
  handle_by_type codec player_id msg custom_message f = some (handle_custom codec player_id msg f)
  handle_by_type codec player_id msg other_message f = some (done f)

  -- The second argument is what the sessions answer then.
  unfoldable pub handle_message : FieldCodec F → (ℕ → ℕ) → NetMessage → Field F → Option (Run F)
  unfolding handle_by_type
  handle_message codec player_id msg f = handle_by_type codec player_id msg msg.type f

  abbrev pub player_step : F
  player_step = lit 5 100

  abbrev pub monster_step : F
  monster_step = lit 10 100

  -- The loop over the players' clock, at most so many turns more.
  unfoldable pub player_loops : ℕ → Field F → Run F
  unfolding tick_players
  player_loops zero f = done f
  player_loops (suc n) f =
      let ticked = tick_players fl player_step f in
      let spent = record (ticked.0) { player_acc = fsub ticked.0.player_acc player_step } in
      let rest = player_loops n spent in
      if fle player_step f.player_acc then (rest.0, ticked.1 ++ rest.1) else done f

  -- The loop over the monsters' clock.
  unfoldable pub monster_loops : (List F → List F) → ℕ → Field F → Option (Run F)
  unfolding tick_monsters
  monster_loops policy zero f = some (done f)
  monster_loops policy (suc n) f =
      let all : Option (Run F) = (do
        ticked ← tick_monsters fl monster_step policy f
        rest ←
            monster_loops policy n
              (record (ticked.0) { monster_acc = fsub ticked.0.monster_acc monster_step })
        some (rest.0, ticked.1 ++ rest.1)) in
      if fle monster_step f.monster_acc then all else some (done f)

  unfoldable pub update_world : (List F → List F) → F → Field F → Option (Run F)
  unfolding player_loops monster_loops
  update_world policy dt f =
      let timed = record f {
        world_time = fadd f.world_time dt;
        player_acc = fadd f.player_acc dt;
      } in
      let walked = player_loops 5 timed in
      let ready = record (walked.0) { monster_acc = fadd walked.0.monster_acc dt } in
      let hunted : Option (Run F) = (do
        r ← monster_loops policy 3 ready
        some (r.0, walked.1 ++ r.1)) in
      if fle dt (f0 fl) then some (done f) else hunted
