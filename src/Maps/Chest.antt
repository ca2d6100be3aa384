-- ===== src/Maps/Chest.antt =====
-- src/map.cpp, `Map_Chest`. The integers are bit patterns (Base/Word); the time of the program's
-- clock is an argument, a number that stands for the `double`.
pub mod Amounts
pub mod Limits
pub mod Samples
use etheos.Base.{
  ℕ, ◌+◌, ◌-◌, ◌%◌, ◌^◌, Bool, true, false, Option, none, some, List, [], ◌∷◌, ◌++◌, ◌||◌, ◌&&◌,
  map, ◌==◌, length, leb, if◌then◌else◌,
}
use etheos.Base.Word.{add32, sub32, is_negative, lt32, le32}
use etheos.Packet.Builder.{Builder, new_builder, add_short, add_three}
use etheos.Character.{Character}
use etheos.Character.Items.{is_none}
use etheos.Handlers.Ids.{packet_chest, packet_agree}

-- `Map_Chest_Item`; a slot of 0 is that of an item which a player has put in.
pub record ChestItem : Type 0 where
  pub id : ℕ
  pub amount : ℕ
  pub slot : ℕ

-- `Map_Chest_Spawn`, as far as the operations reach.
pub record ChestSpawn : Type 0 where
  pub slot : ℕ
  pub last_taken : ℕ

-- `Map_Chest`.
pub record Chest : Type 0 where
  pub x : ℕ
  pub y : ℕ
  pub items : List ChestItem
  pub spawns : List ChestSpawn
  pub slots : ℕ
  pub maxchest : ℕ
  pub chestslots : ℕ
  pub key : ℕ

-- The loops over the items that end at the first one with the id: a search, a change, a removal.
unfoldable pub first_item : ℕ → List ChestItem → Option ChestItem
first_item id [] = none
first_item id (i ∷ items) = let rest = first_item id items in if i.id == id then some i else rest

unfoldable pub set_first : ℕ → ℕ → ℕ → List ChestItem → List ChestItem
set_first id amount slot [] = []
set_first id amount slot (i ∷ items) =
    let rest = set_first id amount slot items in
    if i.id == id then record i { amount = amount; slot = slot } ∷ items else i ∷ rest

unfoldable pub erase_first : ℕ → List ChestItem → List ChestItem
erase_first id [] = []
erase_first id (i ∷ items) =
    let rest = erase_first id items in if i.id == id then items else i ∷ rest

unfoldable pub user_items : List ChestItem → ℕ
user_items [] = 0
user_items (i ∷ items) = if i.slot == 0 then user_items items + 1 else user_items items

-- `static_cast<std::size_t>` of an `int`.
abbrev pub as_size : ℕ → ℕ
as_size n = if is_negative n then n + (2 ^ 64 - 2 ^ 32) else n

-- `Map_Chest::HasItem`.
unfoldable pub chest_has_item : ℕ → Chest → ℕ
unfolding first_item
chest_has_item id h = elim (first_item id h.items) [ none ↦ 0 | some i ↦ i.amount ]

-- The part of `AddItem` that makes a new entry.
unfoldable pub new_entry : ℕ → ℕ → ℕ → Chest → ℕ × Chest
unfolding user_items
new_entry id amount slot h =
    let entry : ChestItem = record { id = id; amount = amount; slot = slot } in
    if leb (as_size h.chestslots) (length h.items) || lt32 h.maxchest amount
    then (0, h)
    else if slot == 0
    then if le32 h.chestslots (add32 (user_items h.items) h.slots)
      then (0, h)
      else (amount, record h { items = h.items ++ entry ∷ [] })
    else (amount, record h { items = entry ∷ h.items })

-- `Map_Chest::AddItem`.
unfoldable pub chest_add_item : ℕ → ℕ → ℕ → Chest → ℕ × Chest
unfolding first_item set_first new_entry
chest_add_item id amount slot h =
    let grow : Option ChestItem → ℕ × Chest = λ found. elim found [
      | none ↦ new_entry id amount slot h
      | some i ↦
          let sum : ℕ = add32 i.amount amount in
          if is_negative sum || lt32 h.maxchest sum
          then (0, h)
          else (amount, record h { items = set_first id sum i.slot h.items })
    ] in
    if is_none amount
    then (0, h)
    else if slot == 0
    then grow (first_item id h.items)
    else new_entry id amount slot h

-- The spawn that an item comes from starts to wait again.
unfoldable pub taken_at : ℕ → ℕ → List ChestSpawn → List ChestSpawn
taken_at now slot [] = []
taken_at now slot (s ∷ spawns) =
    (if s.slot == slot then record s { last_taken = now } else s) ∷ taken_at now slot spawns

abbrev pub respawn : ℕ → ℕ → Chest → Chest
respawn now slot h = if slot == 0 then h else record h { spawns = taken_at now slot h.spawns }

-- `Map_Chest::DelItem`.
unfoldable pub chest_del_item : ℕ → ℕ → Chest → ℕ × Chest
unfolding first_item erase_first taken_at
chest_del_item now id h = elim (first_item id h.items) [
  | none ↦ (0, h)
  | some i ↦ (i.amount, respawn now i.slot (record h { items = erase_first id h.items }))
]

-- `Map_Chest::DelSomeItem`.
unfoldable pub chest_del_some_item : ℕ → ℕ → ℕ → Chest → ℕ × Chest
unfolding first_item set_first chest_del_item
chest_del_some_item now id amount h = elim (first_item id h.items) [
  | none ↦ (0, h)
  | some i ↦
      if lt32 amount i.amount
      then (
        sub32 i.amount amount,
        respawn now i.slot (record h { items = set_first id (sub32 i.amount amount) 0 h.items }),
      )
      else chest_del_item now id h
]

-- The packet of `Map_Chest::Update`.
unfoldable pub update_items : List ChestItem → Builder → Builder
update_items [] b = b
update_items (i ∷ items) b = update_items items (add_three i.amount (add_short (i.id % 2 ^ 16) b))

unfoldable pub chest_update : Chest → Builder
unfolding update_items
chest_update h = update_items h.items (new_builder packet_chest packet_agree)
