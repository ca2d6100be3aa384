-- ===== src/Handlers/Item/Losses.antt =====
-- src/handlers/Item.cpp: an item dropped where there is no room for it.
use etheos.Base.{ℕ, ◌+◌, ◌≤◌, ◌≡◌, refl, true, false, not, some, List, ◌||◌, ◌&&◌, arith}
use etheos.Base.Word.{le32}
use etheos.Character.{Character, World}
use etheos.Character.Items.{has_item}
use etheos.Character.Items.Stock.{IsAmount, IsStock}
use etheos.Character.Items.Offers.{has_item_lt}
use etheos.Character.Items.Moves.{has_item-del_item, has_item-not_trading}
use etheos.Maps.Floor.{MapItem, is_full, add_map_item}
use etheos.Maps.Walk.{walkable}
use etheos.Handlers.Item.{Floor, Turn, is_far, new_item, drop_at}

add_map_item_full :
    (f : Floor) (new : MapItem) (items : List MapItem)
    → is_full f.limits new.x new.y items ≡ true
    → add_map_item f.limits new items ≡ some (false, new)
unfolding add_map_item
add_map_item_full f new items full = rw (add_map_item, full) refl

-- `Item_Drop` loses what is dropped where the tile or the map is full: the map's items stay as they
-- were, and what is carried falls by the amount. (The place is near enough and walkable, the amount is
-- carried, and the map is not the jail; the inventory holds each id once, with amounts above 0.)
pub drop_at-lost :
    (w : World) (f : Floor) (id a x y : ℕ) (items : List MapItem) (c : Character)
    → IsStock c.inventory
    → c.trading ≡ false
    → IsAmount a
    → is_full f.limits x y items ≡ true
    → (is_far f c x y || not (walkable f.ghost_arena f.map x y false)) ≡ false
    → (le32 a (has_item c id false) && not f.is_jail) ≡ true
    → (t : Turn) × (drop_at w f id a x y items c ≡ some t)
      × (t.items ≡ items)
      × (has_item t.character id true + a ≡ has_item c id true)
unfolding drop_at
drop_at-lost w f id a x y items c s free p full near enough =
    let e = add_map_item_full f (new_item id a x y) items full in
    let le : a ≤ has_item c id true =
      ground (arith, has_item-not_trading c id free, has_item_lt c id s, p.0, p.1, enough) in
    let carried = has_item-del_item w id a c s p.1 id in
    rw (drop_at, near, enough, e) (_, refl, refl, ground (arith, carried, le))
