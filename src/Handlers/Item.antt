-- ===== src/Handlers/Item.antt =====
-- src/handlers/Item.cpp: dropping an item on the map, getting it from there, and junking it.
pub mod Contents
pub mod Losses
mod Tests
use etheos.Base.{
  ℕ, ◌+◌, ◌%◌, ◌^◌, Bool, true, false, Option, none, some, List, [], ◌∷◌, ◌++◌, ◌||◌, ◌&&◌, not,
  ◌==◌, ltb, leb, if◌then◌else◌,
}
use etheos.Base.Word.{le32, lt32, min32, is_negative}
use etheos.Packet.Number.{number}
use etheos.Packet.Reader.{
  Reader, Outcome, ok, ◌>>=◌, get_byte, get_short, get_three, get_int, remaining,
}
use etheos.Packet.Builder.{Builder, new_builder, add_char, add_short, add_three, add_int}
use etheos.Character.{Character, World}
use etheos.Character.Weight.{item_data}
use etheos.Character.Items.{is_none, has_item, add_item, del_item, can_hold_item}
use etheos.Maps.Floor.{MapItem, Limits, add_map_item, get_map_item, del_some_item}
use etheos.Maps.Walk.{GameMap, walkable}
use etheos.Handlers.Locker.{path_length, add_weights}
use etheos.Handlers.Ids.{packet_item, packet_drop, packet_get, packet_junk, special_lore}

-- What the handlers read besides the character and the map's items: `now` and `protect_drop` (the
-- setting `ProtectPlayerDrop`) in one unit, `CanInteractItems`, and whether this is the jail's map.
pub record Floor : Type 0 where
  pub map : GameMap
  pub ghost_arena : Bool
  pub limits : Limits
  pub max_drop : ℕ
  pub drop_distance : ℕ
  pub protect_drop : ℕ
  pub now : ℕ
  pub player_id : ℕ
  pub can_interact : Bool
  pub is_jail : Bool

-- What a handler leaves, and sends to the character.
pub record Turn : Type 0 where
  pub character : Character
  pub items : List MapItem
  pub sent : List Builder

abbrev pub still : Character → List MapItem → Turn
still c items = record { character = c; items = items; sent = [] }

abbrev pub is_far : Floor → Character → ℕ → ℕ → Bool
is_far f c x y = ltb f.drop_distance (path_length x y c.x c.y)

-- `Item_Drop` with what `AddItem` has returned: never a null pointer. Owner and time are set in the
-- object, which the map shares if it has taken it.
abbrev pub dropped : World → Floor → ℕ → ℕ → List MapItem → Character → Bool × MapItem → Turn
dropped w f id amount items c (placed, item) =
    let item' : MapItem = record item {
      owner = f.player_id;
      unprotecttime = f.now + f.protect_drop;
    } in
    let c' = (del_item w id amount c).1 in
    record {
      character = c';
      items = if placed then items ++ item' ∷ [] else items;
      sent =
          add_weights c' (
            add_char item.y (
              add_char item.x (
                add_short item.uid (
                  add_int (has_item c' id false) (
                    add_three amount
                      (add_short (id % 2 ^ 16) (new_builder packet_item packet_drop)))))))
          ∷ [];
    }

-- What `AddItem` makes at first.
abbrev pub new_item : ℕ → ℕ → ℕ → ℕ → MapItem
new_item id amount x y = record {
  uid = 0;
  id = id;
  amount = amount;
  x = x;
  y = y;
  owner = 0;
  unprotecttime = 0;
}

-- `Item_Drop` when the place is known; `none` where `GenerateItemID` has not come to an end.
unfoldable pub drop_at : World → Floor → ℕ → ℕ → ℕ → ℕ → List MapItem → Character → Option Turn
unfolding add_map_item
drop_at w f id amount x y items c =
    if is_far f c x y || not (walkable f.ghost_arena f.map x y false)
    then some (still c items)
    else if le32 amount (has_item c id false) && not f.is_jail
    then elim (add_map_item f.limits (new_item id amount x y) items) [
      | none ↦ none
      | some added ↦ some (dropped w f id amount items c added)
    ]
    else some (still c items)

-- Where the client names the place (255, 255), it is the character's.
abbrev pub drop_spot : ℕ → ℕ → Character → ℕ × ℕ
drop_spot x y c =
    if x == 255 && y == 255 then (c.x, c.y) else (number x 254 254 254, number y 254 254 254)

-- `Item_Drop` behind the test of the item.
unfoldable pub drop_read :
    World → Floor → ℕ → List MapItem → Character → Reader → Outcome (Option Turn)
unfolding drop_at
drop_read w f id items c r = do
  (wanted, r1) ← (if remaining r == 5 then get_three r else get_int r)
  (bx, r2) ← get_byte r1
  (by, r3) ← get_byte r2
  let amount : ℕ = min32 wanted f.max_drop
  let spot : ℕ × ℕ = drop_spot bx by c
  ok (if is_none amount then some (still c items) else drop_at w f id amount spot.0 spot.1 items c)

-- `Item_Drop`.
unfoldable pub item_drop : World → Floor → List MapItem → Character → Reader → Outcome (Option Turn)
unfolding drop_read
item_drop w f items c r = if c.trading || not f.can_interact then ok (some (still c items)) else do
  (id, r1) ← get_short r
  if (item_data w id).special == special_lore
      then ok (some (still c items))
      else drop_read w f id items c r1

-- `Item_Junk` when the packet is read.
unfoldable pub junk : World → ℕ → ℕ → List MapItem → Character → Turn
junk w id amount items c =
    let c' = (del_item w id amount c).1 in
    if is_none amount || not (le32 amount (has_item c id false)) then still c items else record {
      character = c';
      items = items;
      sent =
          add_weights c' (
            add_int (has_item c' id false)
              (add_three amount (add_short (id % 2 ^ 16) (new_builder packet_item packet_junk))))
          ∷ [];
    }

-- `Item_Junk`.
unfoldable pub item_junk : World → List MapItem → Character → Reader → Outcome Turn
unfolding junk
item_junk w items c r =
    if c.trading
    then ok (still c items)
    else do (id, r1) ← get_short r; (amount, r2) ← get_int r1; ok (junk w id amount items c)

abbrev pub gotten : World → ℕ → ℕ → MapItem → List MapItem → Character → Turn
gotten w uid taken i items c =
    let c' = (add_item w i.id taken c).1 in
    record {
      character = c';
      items = del_some_item i.uid taken items;
      sent =
          add_weights c' (
            add_three taken
              (add_short i.id (add_short (uid % 2 ^ 16) (new_builder packet_item packet_get))))
          ∷ [];
    }

-- `Item_Get` when the id is read.
unfoldable pub get_from : World → Floor → ℕ → List MapItem → Character → Turn
unfolding get_map_item
get_from w f uid items c = elim (get_map_item uid items) [
  | none ↦ still c items
  | some i ↦
      let taken : ℕ = can_hold_item w i.id i.amount c in
      if is_far f c i.x i.y || (not (i.owner == f.player_id) && ltb f.now i.unprotecttime)
      then still c items
      else if lt32 0 taken
      then gotten w uid taken i items c
      else still c items
]

-- `Item_Get`.
unfoldable pub item_get : World → Floor → List MapItem → Character → Reader → Outcome Turn
unfolding get_from
item_get w f items c r = do (uid, r1) ← get_short r; ok (get_from w f uid items c)
