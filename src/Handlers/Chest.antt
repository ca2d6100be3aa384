-- ===== src/Handlers/Chest.antt =====
-- src/handlers/Chest.cpp: putting items into the chests of a map and taking them out.
pub mod Contents
use etheos.Base.{
  ℕ, ◌%◌, ◌^◌, Bool, true, false, List, [], ◌∷◌, ◌++◌, ◌||◌, ◌&&◌, not, ◌==◌, leb, if◌then◌else◌,
}
use etheos.Base.Word.{sub32, lt32, le32, min32}
use etheos.Packet.Reader.{Reader, Outcome, ok, ◌>>=◌, get_char, get_short, get_three}
use etheos.Packet.Builder.{Builder, new_builder, add_short, add_three, add_int}
use etheos.Character.{Character, World}
use etheos.Character.Weight.{item_data}
use etheos.Character.Items.{has_item, add_item, del_item, can_hold_item}
use etheos.Maps.Chest.{
  ChestItem, Chest, chest_has_item, chest_add_item, chest_del_some_item, chest_update,
}
use etheos.Handlers.Locker.{Place, get_spec, path_length, add_weights}
use etheos.Handlers.Ids.{packet_chest, packet_reply, packet_get, special_lore, chest_tile}

-- What a handler leaves, sends to the character (`sent`), and has `Map_Chest::Update` send to the
-- others beside the chest (`told`).
pub record Result : Type 0 where
  pub character : Character
  pub chests : List Chest
  pub sent : List Builder
  pub told : List Builder

unfoldable pub unchanged : Character → List Chest → Result
unchanged c hs = record { character = c; chests = hs; sent = []; told = [] }

-- The loops that add the chest's items to a packet.
unfoldable pub shown_items : List ChestItem → Builder → Builder
shown_items [] b = b
shown_items (i ∷ items) b =
    shown_items items (if i.id == 0 then b else add_three i.amount (add_short (i.id % 2 ^ 16) b))

-- `Chest_Add` in front of a chest.
unfoldable pub put_in : World → ℕ → ℕ → ℕ → Chest → Character → Result
unfolding unchanged shown_items
put_in w max_chest id amount h c =
    let moved : ℕ = min32 amount (sub32 max_chest (chest_has_item id h)) in
    let (added, h') = chest_add_item id moved 0 h in
    let c' = (del_item w id moved c).1 in
    let stored : Result = record {
      character = c';
      chests = h' ∷ [];
      sent =
          shown_items h'.items (
            add_weights c' (
              add_int (has_item c' id false)
                (add_short (id % 2 ^ 16) (new_builder packet_chest packet_reply))))
          ∷ [];
      told = chest_update h' ∷ [];
    } in
    if le32 moved (has_item c id false)
    then if added == 0 then unchanged c (h' ∷ []) else stored
    else unchanged c (h ∷ [])

-- The loop of `Chest_Add` over the chests of the map, up to the first one at the place.
unfoldable pub put_in_chests : World → ℕ → ℕ → ℕ → ℕ → ℕ → List Chest → Character → Result
unfolding put_in
put_in_chests w max_chest x y id amount [] c = unchanged c []
put_in_chests w max_chest x y id amount (h ∷ hs) c =
    let r = put_in w max_chest id amount h c in
    let rest = put_in_chests w max_chest x y id amount hs c in
    if h.x == x && h.y == y
    then record r { chests = r.chests ++ hs }
    else record rest { chests = h ∷ rest.chests }

abbrev pub is_at_chest : Place → Character → ℕ → ℕ → Bool
is_at_chest p c x y = leb (path_length c.x c.y x y) 1 && get_spec p x y == chest_tile

-- `Chest_Add`, where `can_interact` is `CanInteractItems`.
unfoldable pub chest_add :
    World → ℕ → Bool → Place → List Chest → Character → Reader → Outcome Result
unfolding unchanged put_in_chests
chest_add w max_chest can_interact p hs c r =
    if c.trading || not can_interact then ok (unchanged c hs) else do
      (x, r1) ← get_char r
      (y, r2) ← get_char r1
      (id, r3) ← get_short r2
      (amount, r4) ← get_three r3
      ok (
          if not ((item_data w id).special == special_lore) && is_at_chest p c x y
          then put_in_chests w max_chest x y id amount hs c
          else unchanged c hs)

-- `Chest_Take` in front of a chest.
unfoldable pub take_from : World → ℕ → ℕ → ℕ → Chest → Character → Result
unfolding unchanged shown_items
take_from w now id taken h c =
    let h' = (chest_del_some_item now id taken h).1 in
    let c' = (add_item w id taken c).1 in
    record {
      character = c';
      chests = h' ∷ [];
      sent =
          shown_items h'.items (
            add_weights c'
              (add_three taken (add_short (id % 2 ^ 16) (new_builder packet_chest packet_get))))
          ∷ [];
      told = chest_update h' ∷ [];
    }

-- The loop of `Chest_Take`, which ends where something has been taken.
unfoldable pub take_from_chests : World → ℕ → ℕ → ℕ → ℕ → List Chest → Character → Result
unfolding take_from unchanged
take_from_chests w now x y id [] c = unchanged c []
take_from_chests w now x y id (h ∷ hs) c =
    let taken : ℕ = can_hold_item w id (chest_has_item id h) c in
    let r = take_from w now id taken h c in
    let rest = take_from_chests w now x y id hs c in
    if h.x == x && h.y == y && lt32 0 taken
    then record r { chests = r.chests ++ hs }
    else record rest { chests = h ∷ rest.chests }

-- `Chest_Take`.
unfoldable pub chest_take : World → ℕ → Place → List Chest → Character → Reader → Outcome Result
unfolding unchanged take_from_chests
chest_take w now p hs c r = do
  (x, r1) ← get_char r
  (y, r2) ← get_char r1
  (id, r3) ← get_short r2
  ok (if is_at_chest p c x y then take_from_chests w now x y id hs c else unchanged c hs)
