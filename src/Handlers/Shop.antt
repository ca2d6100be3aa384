-- ===== src/Handlers/Shop.antt =====
-- src/handlers/Shop.cpp: crafting, buying and selling at a shop. What `NPC_Data` lists for the shop
-- is an argument.
pub mod Prices
mod Tests
use etheos.Base.{
  ℕ, ◌+◌, ◌-◌, ◌*◌, ◌%◌, ◌^◌, Bool, true, false, List, [], ◌∷◌, ◌++◌, ◌||◌, ◌&&◌, not, ◌==◌, ltb,
  leb, if◌then◌else◌,
}
use etheos.Base.Word.{sub32, is_negative, lt32, le32, shifted16}
use etheos.Packet.Reader.{Reader, Outcome, ok, ◌>>=◌, get_short, get_int}
use etheos.Packet.Builder.{Builder, new_builder, add_short, add_int}
use etheos.Character.{Item, Character, World}
use etheos.Character.Items.{is_none, has_item, add_item, del_item}
use etheos.Handlers.Locker.{add_weights}
use etheos.Handlers.Ids.{packet_shop, packet_create, packet_buy, packet_sell, npc_shop, gold}

-- `NPC_Shop_Trade_Item`; the prices are `int`s.
pub record TradeItem : Type 0 where
  pub id : ℕ
  pub buy : ℕ
  pub sell : ℕ

-- `NPC_Shop_Craft_Item`.
pub record CraftItem : Type 0 where
  pub id : ℕ
  pub ingredients : List Item

-- An `unsigned short` against a `short`, which is negative from 2 ^ 15 on.
abbrev pub same_id : ℕ → ℕ → Bool
same_id id item = id == item && ltb item (2 ^ 15)

-- An `int` that is not negative, times a price, is refused: below 0 or above the limit.
abbrev pub is_refused : ℕ → ℕ → ℕ → Bool
is_refused limit amount price = is_negative price || is_negative limit || ltb limit (amount * price)

unfoldable pub buy_one : World → ℕ → ℕ → ℕ → Character → Character × List Builder
buy_one w item amount cost c =
    let c' = (add_item w item amount (del_item w gold cost c).1).1 in
    if lt32 (has_item c gold false) cost then (c, []) else (
      c',
      add_weights c' (
            add_int amount (
              add_short (item % 2 ^ 16)
                (add_int (has_item c' gold false) (new_builder packet_shop packet_buy))))
          ∷ [],
    )

-- The loop of `Shop_Buy`.
unfoldable pub buy_from : World → List TradeItem → ℕ → ℕ → Character → Character × List Builder
unfolding buy_one
buy_from w [] item amount c = (c, [])
buy_from w (t ∷ ts) item amount c =
    let rest = buy_from w ts item amount c in
    if same_id t.id item && not (t.buy == 0)
    then if is_refused w.max_item amount t.buy
      then (c, [])
      else buy_one w item amount (amount * t.buy) c
    else rest

unfoldable pub shop_buy :
    World → ℕ → List TradeItem → Character → Reader → Outcome (Character × List Builder)
unfolding buy_from
shop_buy w max_shop_buy trade c r = if c.trading then ok (c, []) else do
  (item, r1) ← get_short r
  (amount, r2) ← get_int r1
  ok (
      if is_none amount
        || lt32 max_shop_buy amount
        || leb (shifted16 c.maxweight) (shifted16 c.weight)
        || not (c.npc_type == npc_shop)
      then (c, [])
      else buy_from w trade item amount c)

unfoldable pub sell_one : World → ℕ → ℕ → ℕ → Character → Character × List Builder
sell_one w item amount owed c =
    let c' = (add_item w gold owed (del_item w item amount c).1).1 in
    if lt32 (has_item c item false) amount then (c, []) else (
      c',
      add_weights c' (
            add_int (has_item c' gold false) (
              add_short (item % 2 ^ 16)
                (add_int (has_item c' item false) (new_builder packet_shop packet_sell))))
          ∷ [],
    )

-- The loop of `Shop_Sell`.
unfoldable pub sell_to : World → List TradeItem → ℕ → ℕ → Character → Character × List Builder
unfolding sell_one
sell_to w [] item amount c = (c, [])
sell_to w (t ∷ ts) item amount c =
    let rest = sell_to w ts item amount c in
    if same_id t.id item && not (t.sell == 0)
    then if is_refused (sub32 w.max_item (has_item c gold false)) amount t.sell
      then (c, [])
      else sell_one w item amount (amount * t.sell) c
    else rest

unfoldable pub shop_sell :
    World → List TradeItem → Character → Reader → Outcome (Character × List Builder)
unfolding sell_to
shop_sell w trade c r = if c.trading then ok (c, []) else do
  (item, r1) ← get_short r
  (amount, r2) ← get_int r1
  ok (
      if is_none amount || lt32 w.max_item amount || not (c.npc_type == npc_shop)
      then (c, [])
      else sell_to w trade item amount c)

-- `Shop_Create` asks for every ingredient, and then takes each away.
unfoldable pub has_ingredients : List Item → Character → Bool
has_ingredients [] c = true
has_ingredients (i ∷ is) c = not (lt32 (has_item c i.id false) i.amount) && has_ingredients is c

unfoldable pub use_ingredients : World → List Item → Character → Builder → Character × Builder
use_ingredients w [] c b = (c, b)
use_ingredients w (i ∷ is) c b =
    let c' = (del_item w i.id i.amount c).1 in
    use_ingredients w is c' (add_int (has_item c' i.id false) (add_short (i.id % 2 ^ 16) b))

unfoldable pub craft : World → CraftItem → Character → Character × List Builder
unfolding use_ingredients
craft w t c =
    let (c', reply) =
      use_ingredients w t.ingredients c
        (add_weights c (add_short (t.id % 2 ^ 16) (new_builder packet_shop packet_create))) in
    ((add_item w t.id 1 c').1, reply ∷ [])

-- The loop of `Shop_Create`, which goes on behind an item that has been crafted.
unfoldable pub create_from : World → List CraftItem → ℕ → Character → Character × List Builder
unfolding has_ingredients craft
create_from w [] item c = (c, [])
create_from w (t ∷ ts) item c =
    let (c', sent) =
      if same_id t.id item && has_ingredients t.ingredients c then craft w t c else (c, []) in
    let (c'', more) = create_from w ts item c' in (c'', sent ++ more)

unfoldable pub shop_create :
    World → List CraftItem → Character → Reader → Outcome (Character × List Builder)
unfolding create_from
shop_create w crafts c r = if c.trading then ok (c, []) else do
  (item, r1) ← get_short r
  ok (if c.npc_type == npc_shop then create_from w crafts item c else (c, []))
