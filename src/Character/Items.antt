-- ===== src/Character/Items.antt =====
-- src/character.cpp: `HasItem`, `AddItem`, `DelItem`, `CanHoldItem`, `AddTradeItem` and
-- `DelTradeItem`. Each loop ends at the first item with the id, so that it is a search
-- (`find_item`), a change of the one found (`set_item`) or its removal (`erase_item`). The Boolean
-- is what the function returns. Quest rules, which some of them check at the end, are left out.
pub mod Stock
pub mod Contents
pub mod Moves
pub mod Offers
pub mod Capacity
use etheos.Base.{
  ℕ, ◌+◌, ◌-◌, ◌/◌, ◌%◌, ◌^◌, Bool, true, false, not, Option, none, some, List, [], ◌∷◌, ◌++◌, ◌||◌,
  ◌&&◌, length, ltb, leb, ◌==◌, if◌then◌else◌,
}
use etheos.Base.Word.{add32, sub32, is_negative, lt32, le32, min32, max32, shifted16}
use etheos.Character.{Item, Character, ItemData, World}
use etheos.Character.Weight.{item_data, calculate_stats}

unfoldable pub find_item : ℕ → List Item → Option ℕ
find_item id [] = none
find_item id (i ∷ items) =
    let rest = find_item id items in if i.id == id then some i.amount else rest

unfoldable pub set_item : ℕ → ℕ → List Item → List Item
set_item id amount [] = []
set_item id amount (i ∷ items) =
    let rest = set_item id amount items in
    if i.id == id then record i { amount = amount } ∷ items else i ∷ rest

unfoldable pub erase_item : ℕ → List Item → List Item
erase_item id [] = []
erase_item id (i ∷ items) = let rest = erase_item id items in if i.id == id then items else i ∷ rest

-- `item <= 0 || item >= eif->data.size()`, for a `short`.
abbrev pub is_unknown : World → ℕ → Bool
is_unknown w id = id == 0 || leb (2 ^ 15) id || leb (length w.eif) id

-- `amount <= 0`.
abbrev pub is_none : ℕ → Bool
is_none amount = amount == 0 || is_negative amount

unfoldable pub has_item : Character → ℕ → Bool → ℕ
unfolding find_item
has_item c id include_trade = elim (find_item id c.inventory) [
  | none ↦ 0
  | some amount ↦
      if c.trading && not include_trade
      then elim (find_item id c.trade_inventory) [
        | none ↦ amount
        | some offered ↦ max32 (sub32 amount offered) 0
      ]
      else amount
]

unfoldable pub add_item : World → ℕ → ℕ → Character → Bool × Character
unfolding find_item set_item
add_item w id amount c =
    if is_none amount || is_unknown w id then (false, c) else elim (find_item id c.inventory) [
      | none ↦ (
        true,
        calculate_stats w
            (record c { inventory = c.inventory ++ record { id = id; amount = amount } ∷ [] }),
      )
      | some held ↦ if is_negative (add32 held amount) then (false, c) else (
        true,
        calculate_stats w (record c {
          inventory = set_item id (min32 (add32 held amount) w.max_item) c.inventory;
        }),
      )
    ]

unfoldable pub del_item : World → ℕ → ℕ → Character → Bool × Character
unfolding find_item set_item erase_item
del_item w id amount c = if is_none amount then (false, c) else elim (find_item id c.inventory) [
  | none ↦ (false, c)
  | some held ↦ (
    true,
    calculate_stats w (record c {
      inventory =
          if is_negative held || is_none (sub32 held amount)
          then erase_item id c.inventory
          else set_item id (sub32 held amount) c.inventory;
    }),
  )
]

-- How many of the item the weight allows; both weights are `short`s.
unfoldable pub can_hold_item : World → ℕ → ℕ → Character → ℕ
can_hold_item w id max_amount c =
    let item = item_data w id in
    let room : ℕ = shifted16 c.maxweight - shifted16 c.weight in
    let amount : ℕ =
      if le32 2 w.enforce_weight && lt32 c.admin w.unlimited_weight
      then if ltb (shifted16 c.maxweight) (shifted16 c.weight)
        then 0
        else if item.id == 0 || item.weight == 0
        then max_amount
        else min32 (room / item.weight) max_amount
      else max_amount in
    min32 amount w.max_item

-- The loop of `AddTradeItem` that looks for the amount on offer: the last one counts.
unfoldable pub offered_amount : ℕ → List Item → ℕ → ℕ
offered_amount id [] tradeitem = tradeitem
offered_amount id (i ∷ items) tradeitem =
    offered_amount id items (if i.id == id then i.amount else tradeitem)

unfoldable pub add_trade_item : World → ℕ → ℕ → Character → Bool × Character
unfolding find_item set_item offered_amount
add_trade_item w id wanted c =
    let add = w.trade_add_quantity in
    let amount : ℕ = min32 wanted (has_item c id (not add)) in
    let sum : ℕ = add32 (offered_amount id c.trade_inventory 0) amount in
    if is_unknown w id
      || (is_none amount || lt32 w.max_trade amount)
      || (add && (is_negative sum || lt32 w.max_trade sum))
    then (false, c)
    else elim (find_item id c.trade_inventory) [
      | none ↦ (
        true,
        record c {
          trade_inventory = c.trade_inventory ++ record { id = id; amount = amount } ∷ [];
        },
      )
      | some offered ↦ (
        true,
        record c {
          trade_inventory =
              set_item id (if add then add32 offered amount else amount) c.trade_inventory;
        },
      )
    ]

unfoldable pub del_trade_item : ℕ → Character → Bool × Character
unfolding find_item erase_item
del_trade_item id c = elim (find_item id c.trade_inventory) [
  | none ↦ (false, c)
  | some offered ↦ (true, record c { trade_inventory = erase_item id c.trade_inventory })
]
