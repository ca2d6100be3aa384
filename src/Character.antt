-- ===== src/Character.antt =====
-- src/character.cpp and src/character.hpp: what a character carries, wears, offers and has stored.
-- An item's id is the bit pattern of a `short` and an amount that of an `int` (Base/Word). What the
-- functions read of the settings and of the item files is the record `World`.
pub mod Items
pub mod Weight
pub mod Equipment
pub mod Samples
mod Tests
use etheos.Base.{ℕ, Bool, List}

-- `Character_Item`.
pub record Item : Type 0 where
  pub id : ℕ
  pub amount : ℕ

-- `paperdoll` is an array of 15 ids, 0 where nothing is worn.
pub record Character : Type 0 where
  pub inventory : List Item
  pub paperdoll : List ℕ
  pub bank : List Item
  pub goldbank : ℕ
  pub bankmax : ℕ
  pub weight : ℕ
  pub maxweight : ℕ
  pub admin : ℕ
  pub x : ℕ
  pub y : ℕ
  pub npc : ℕ
  pub npc_type : ℕ
  pub trading : Bool
  pub trade_agree : Bool
  pub trade_inventory : List Item

-- What `EIF_Data` says of an item.
pub record ItemData : Type 0 where
  pub id : ℕ
  pub weight : ℕ
  pub special : ℕ

-- `formula_weight` is what the formula of the settings for the weight gives for a character.
pub record World : Type 0 where
  pub eif : List ItemData
  pub blank : ItemData
  pub formula_weight : Character → ℕ
  pub unlimited_weight : ℕ
  pub enforce_weight : ℕ
  pub max_item : ℕ
  pub max_trade : ℕ
  pub trade_add_quantity : Bool
  pub max_bank_gold : ℕ
  pub max_bank : ℕ
  pub base_bank_size : ℕ
  pub bank_size_step : ℕ
  pub bank_upgrade_base : ℕ
  pub bank_upgrade_step : ℕ
  pub max_bank_upgrades : ℕ
