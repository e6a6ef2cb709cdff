-- ===== src/Monster/Movement.antt =====
-- field/monster/Systems/MovementSystem.cpp.
use mmorpg_server_rl_portfol.Prelude.{
  ℕ, nat_eq, ◌==◌, ◌≡◌, refl, ap, ◌⊎◌, inl, inr, Bool, true, false, not, ◌||◌, List, [], ◌∷◌, ◌++◌,
  Option, none, some, if◌then◌else◌, FloatArith,
}
use mmorpg_server_rl_portfol.Monster.World.{
  Monster, MonsterWorld, CTransform, CAi, AiState, idle, patrol, chase, attack, return_home, dead,
  set_monster, set_monster_move, stop_move, f0, ◌>>=◌,
}

-- `env.moveInAoi`
pub data MoveCall (F : Type 0) : Type 0 where
  move_in_aoi : ℕ → F → F → MoveCall F

-- What the branches on the state decide.
pub data Course (F : Type 0) : Type 0 where
  rests : Course F
  halts : Course F
  goes : F → F → F → Course F

module _ (fl : FloatArith) where
  open fl use {F, lit, fadd, fsub, fmul, fdiv, flt, fle, feq, sqrt}

  -- The chase, by what `getPlayerPosition` finds; the target 0 is none.
  unfoldable pub chase_course : CTransform F → F → ℕ → Option (F × F) → Course F
  chase_course tr speed target none = halts
  chase_course tr speed target (some (px, py)) =
      let dx = fsub px tr.x in
      let dy = fsub py tr.y in
      let len2 = fadd (fmul dx dx) (fmul dy dy) in
      let inv = fdiv (lit 1 1) (sqrt len2) in
      if target == 0
      then halts
      else if flt len2 (lit 1 1000000)
      then halts
      else goes (fmul dx inv) (fmul dy inv) (if fle speed (f0 fl) then lit 6 1 else speed)

  unfoldable pub walk_course : CAi F → Course F
  walk_course ai =
      let len2 = fadd (fmul ai.move_dir_x ai.move_dir_x) (fmul ai.move_dir_y ai.move_dir_y) in
      if flt len2 (lit 1 1000000) || fle ai.move_speed (f0 fl)
      then halts
      else goes ai.move_dir_x ai.move_dir_y ai.move_speed

  unfoldable pub rest_course : CAi F → Course F
  rest_course ai =
      if not (feq ai.move_speed (f0 fl))
        || not (feq ai.move_dir_x (f0 fl))
        || not (feq ai.move_dir_y (f0 fl))
      then halts
      else rests

  unfoldable pub course_of : (ℕ → Option (F × F)) → Monster F → AiState → Course F
  unfolding chase_course walk_course rest_course
  course_of positions m idle = rest_course m.ai
  course_of positions m attack = rest_course m.ai
  course_of positions m dead = rest_course m.ai
  course_of positions m chase =
      chase_course m.transform m.ai.move_speed m.ai.target_id (positions m.ai.target_id)
  course_of positions m patrol = walk_course m.ai
  course_of positions m return_home = walk_course m.ai

  unfoldable pub follow : F → ℕ → Monster F → Course F → Monster F × List (MoveCall F)
  follow dt e m rests = (m, [])
  follow dt e m halts = (record m { ai = stop_move fl m.ai }, [])
  follow dt e m (goes dir_x dir_y speed) =
      let x = fadd m.transform.x (fmul (fmul dir_x speed) dt) in
      let y = fadd m.transform.y (fmul (fmul dir_y speed) dt) in
      let ai = record (m.ai) { move_dir_x = dir_x; move_dir_y = dir_y; move_speed = speed } in
      (
        record m {
          transform = record { x = x; y = y };
          ai = set_monster_move fl ai dir_x dir_y speed;
        },
        move_in_aoi e x y ∷ [],
      )

  -- The body of the loop of `MovementSystem::update`, for one monster.
  unfoldable pub move_one : F → (ℕ → Option (F × F)) → ℕ → Monster F → Monster F × List (MoveCall F)
  unfolding course_of follow
  move_one dt positions e m = follow dt e m (course_of positions m m.ai.state)

  unfoldable pub move_found :
      F
      → (ℕ → Option (F × F))
      → MonsterWorld F
      → ℕ
      → Option (Monster F)
      → Option (MonsterWorld F × List (MoveCall F))
  unfolding move_one
  move_found dt positions w e none = none
  move_found dt positions w e (some m) =
      let (m', calls) = move_one dt positions e m in some (set_monster w e m', calls)

  -- `MovementSystem::update`, from a place in the list of monsters on.
  unfoldable pub move_loop :
      F
      → (ℕ → Option (F × F))
      → MonsterWorld F
      → List ℕ
      → Option (MonsterWorld F × List (MoveCall F))
  unfolding move_found
  move_loop dt positions w [] = some (w, [])
  move_loop dt positions w (e ∷ es) = do
    (w', first) ← move_found dt positions w e (w.components e)
    (w'', later) ← move_loop dt positions w' es
    some (w'', first ++ later)

  -- The states in which a monster stands.
  abbrev pub is_standing : AiState → Bool
  is_standing idle = true
  is_standing attack = true
  is_standing dead = true
  is_standing st = false

  -- The monster stays where it is and nothing is reported, or it walks and its new place is reported.
  abbrev pub IsReported : ℕ → Monster F → Monster F × List (MoveCall F) → Type 0
  IsReported e m (m', calls) =
      ((calls ≡ []) × (m'.transform ≡ m.transform))
      ⊎ ((calls ≡ move_in_aoi e m'.transform.x m'.transform.y ∷ [])
          × (is_standing m.ai.state ≡ false))

  rest_lem :
      (dt : F) (e : ℕ) (m : Monster F) (b : Bool)
      → IsReported e m (follow dt e m (if b then halts else rests))
  unfolding follow
  rest_lem dt e m true = inl (refl, refl)
  rest_lem dt e m false = inl (refl, refl)

  follow_lem :
      (dt : F) (e : ℕ) (m : Monster F) (c : Course F)
      → is_standing m.ai.state ≡ false
      → IsReported e m (follow dt e m c)
  unfolding follow
  follow_lem dt e m rests walks = inl (refl, refl)
  follow_lem dt e m halts walks = inl (refl, refl)
  follow_lem dt e m (goes dir_x dir_y speed) walks = inr (refl, walks)

  by_state :
      (dt : F) (positions : ℕ → Option (F × F)) (e : ℕ) (m : Monster F) (st : AiState)
      → m.ai.state ≡ st
      → IsReported e m (follow dt e m (course_of positions m st))
  unfolding course_of rest_course
  by_state dt positions e m idle same = rest_lem dt e m _
  by_state dt positions e m attack same = rest_lem dt e m _
  by_state dt positions e m dead same = rest_lem dt e m _
  by_state dt positions e m chase same = follow_lem dt e m _ (ap is_standing same)
  by_state dt positions e m patrol same = follow_lem dt e m _ (ap is_standing same)
  by_state dt positions e m return_home same = follow_lem dt e m _ (ap is_standing same)

  -- A turn of the movement leaves a monster where it is and reports nothing to the grid, or puts it
  -- somewhere and reports just that place; a monster that idles, attacks or is dead stays.
  pub move_one-IsReported :
      (dt : F) (positions : ℕ → Option (F × F)) (e : ℕ) (m : Monster F)
      → IsReported e m (move_one dt positions e m)
  unfolding move_one
  move_one-IsReported dt positions e m = by_state dt positions e m m.ai.state refl
