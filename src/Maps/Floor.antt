-- ===== src/Maps/Floor.antt =====
-- src/map.cpp: the items that lie on a map, `GenerateItemID`, `AddItem`, `GetItem` and `DelSomeItem`.
-- The packets that the others in range get are left out.
pub mod Ids
pub mod Amounts
use etheos.Base.{
  ℕ, zero, suc, ◌+◌, ◌^◌, Bool, true, false, Option, none, some, List, [], ◌∷◌, ◌++◌, ◌&&◌, ◌||◌,
  ◌==◌, ltb, length, if◌then◌else◌,
}
use etheos.Base.Word.{sub32, is_negative, le32, lt32}

-- `Map_Item`. The `uid` is the bit pattern of a `short`, the amount that of an `int`.
pub record MapItem : Type 0 where
  pub uid : ℕ
  pub id : ℕ
  pub amount : ℕ
  pub x : ℕ
  pub y : ℕ
  pub owner : ℕ
  pub unprotecttime : ℕ

-- A `short` below 0 equals no id that is looked for.
unfoldable pub has_uid : ℕ → List MapItem → Bool
has_uid uid [] = false
has_uid uid (i ∷ items) = (i.uid == uid && ltb i.uid (2 ^ 15)) || has_uid uid items

-- `GenerateItemID` from some `lowest_free_id` on; a round for each `goto restart_loop`.
unfoldable pub free_from : ℕ → ℕ → List MapItem → Option ℕ
unfolding has_uid
free_from zero lowest items = none
free_from (suc fuel) lowest items =
    let rest = free_from fuel (lowest + 1) items in
    if has_uid lowest items then rest else some lowest

-- There are fewer rounds than items, and one more.
unfoldable pub generate_item_id : List MapItem → Option ℕ
unfolding free_from
generate_item_id items = free_from (suc (length items)) 1 items

unfoldable pub on_tile : ℕ → ℕ → List MapItem → ℕ
on_tile x y [] = 0
on_tile x y (i ∷ items) = let n = on_tile x y items in if i.x == x && i.y == y then n + 1 else n

-- The two limits, `MaxTile` and `MaxMap`.
pub record Limits : Type 0 where
  pub max_tile : ℕ
  pub max_map : ℕ

unfoldable pub is_full : Limits → ℕ → ℕ → List MapItem → Bool
unfolding on_tile
is_full l x y items = le32 l.max_tile (on_tile x y items) || le32 l.max_map (length items)

-- `AddItem` for a character that drops an item: what it returns, and whether it has put that on the map.
unfoldable pub add_map_item : Limits → MapItem → List MapItem → Option (Bool × MapItem)
unfolding is_full generate_item_id
add_map_item l new items =
    if is_full l new.x new.y items then some (false, new) else elim (generate_item_id items) [
      | none ↦ none
      | some uid ↦ some (true, record new { uid = uid })
    ]

-- `GetItem`.
unfoldable pub get_map_item : ℕ → List MapItem → Option MapItem
get_map_item uid [] = none
get_map_item uid (i ∷ items) =
    let rest = get_map_item uid items in if i.uid == uid then some i else rest

-- The loop of `DelSomeItem`, with `DelItem` where all is taken.
unfoldable pub take_some : ℕ → ℕ → List MapItem → List MapItem
take_some uid amount [] = []
take_some uid amount (i ∷ items) =
    let rest = take_some uid amount items in
    if i.uid == uid
    then (if lt32 amount i.amount
        then record i { amount = sub32 i.amount amount } ∷ items
        else items)
    else i ∷ rest

-- `DelSomeItem`.
unfoldable pub del_some_item : ℕ → ℕ → List MapItem → List MapItem
unfolding take_some
del_some_item uid amount items = if is_negative amount then items else take_some uid amount items
