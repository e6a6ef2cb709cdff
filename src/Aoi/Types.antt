-- ===== src/Aoi/Types.antt =====
-- The data of field/AoiWorld.h. The callback of the class is the flag `send_cb`: an operation
-- returns the calls that it makes, in order. Sector coordinates are unbounded integers.
use mmorpg_server_rl_portfol.Prelude.{
  ℕ, ℤ, int_beq, int_beq_iff, Key, ◌≡◌, ◌↔◌, Bool, true, ◌&&◌, List, Option, arith,
}

pub record AoiVec2 (F : Type 0) : Type 0 where
  pub x : F
  pub y : F

pub record AoiSectorCoord : Type 0 where
  pub x : ℤ
  pub y : ℤ

-- `operator==`
abbrev pub coord_beq : AoiSectorCoord → AoiSectorCoord → Bool
coord_beq a b = int_beq a.x b.x && int_beq a.y b.y

pub coord_beq_iff : (a b : AoiSectorCoord) → (coord_beq a b ≡ true) ↔ (a ≡ b)
coord_beq_iff a b = ground (arith, int_beq_iff a.x b.x, int_beq_iff a.y b.y)

instance abbrev pub coord_eq : Key AoiSectorCoord
coord_eq = record { same = coord_beq; same_iff = coord_beq_iff }

-- `AoiEvent::Type`
pub data EventType : Type 0 where
  enter leave move snapshot : EventType

pub record AoiEvent (F : Type 0) : Type 0 where
  pub type : EventType
  pub subject_id : ℕ
  pub position : AoiVec2 F

pub record Entity (F : Type 0) : Type 0 where
  pub id : ℕ
  pub is_player : Bool
  pub pos : AoiVec2 F
  pub sector : AoiSectorCoord
  pub subscribed : List AoiSectorCoord

pub record Sector : Type 0 where
  pub entities : List ℕ
  pub watchers : List ℕ

abbrev pub SectorMap : Type 0
SectorMap = AoiSectorCoord → Option Sector

abbrev pub EntityMap : Type 0 → Type 0
EntityMap F = ℕ → Option (Entity F)

pub record AoiWorld (F : Type 0) : Type 0 where
  pub entities : EntityMap F
  pub sectors : SectorMap
  pub sector_size : F
  pub view_radius : ℤ
  pub send_cb : Bool

-- One call of the callback: the watcher, and the event.
abbrev pub Sent : Type 0 → Type 0
Sent F = ℕ × AoiEvent F
