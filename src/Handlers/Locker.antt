-- ===== src/Handlers/Locker.antt =====
-- src/handlers/Locker.cpp, with `Map::GetSpec` of src/map.cpp and `util::path_length` of
-- src/util.hpp.
pub mod Storage
pub mod Upgrade
use etheos.Base.{
  ℕ, ◌+◌, ◌-◌, ◌*◌, ◌%◌, ◌^◌, Bool, true, false, Option, none, some, List, [], ◌∷◌, ◌++◌, ◌||◌,
  ◌&&◌, not, ◌==◌, length, get_or, ltb, leb, if◌then◌else◌,
}
use etheos.Base.Word.{add32, sub32, is_negative, lt32, le32, min32}
use etheos.Packet.Reader.{Reader, Outcome, ok, ◌>>=◌, get_char, get_short, get_three}
use etheos.Packet.Builder.{Builder, new_builder, add_char, add_short, add_three, add_int}
use etheos.Character.{Item, Character, World}
use etheos.Character.Weight.{calculate_stats}
use etheos.Character.Items.{
  is_none, find_item, set_item, erase_item, has_item, add_item, del_item, can_hold_item,
}
use etheos.Handlers.Ids.{
  packet_locker, packet_reply, packet_open, packet_buy, packet_spec, packet_get, npc_bank, gold,
  bank_vault, no_spec,
}

-- What the handlers read of a map: its size and the special kinds of its tiles, row by row.
pub record Place : Type 0 where
  pub width : ℕ
  pub height : ℕ
  pub tiles : List ℕ

-- `Map::GetSpec`.
unfoldable pub get_spec : Place → ℕ → ℕ → ℕ
get_spec p x y =
    if ltb x p.width && ltb y p.height then get_or p.tiles (y * p.width + x) no_spec else no_spec

-- `util::path_length`; the places of a map are at least 0.
unfoldable pub path_length : ℕ → ℕ → ℕ → ℕ → ℕ
path_length x1 y1 x2 y2 = (x1 - x2) + (x2 - x1) + ((y1 - y2) + (y2 - y1))

-- The two conditions of every use of a locker at a place.
abbrev pub is_at_vault : Place → Character → ℕ → ℕ → Bool
is_at_vault p c x y = leb (path_length c.x c.y x y) 1 && get_spec p x y == bank_vault

-- The loops that add the locker's items to a packet.
unfoldable pub add_items : List Item → Builder → Builder
add_items [] b = b
add_items (i ∷ items) b = add_items items (add_three i.amount (add_short (i.id % 2 ^ 16) b))

abbrev pub add_weights : Character → Builder → Builder
add_weights c b = add_char (c.maxweight % 2 ^ 8) (add_char (c.weight % 2 ^ 8) b)

-- `add_common`.
unfoldable pub add_common : World → ℕ → ℕ → Character → Character × List Builder
unfolding add_items
add_common w item amount c =
    let c' = calculate_stats w (del_item w item amount c).1 in
    (
      c',
      add_items c'.bank (
            add_weights c' (
              add_int (has_item c' item false)
                (add_short item (new_builder packet_locker packet_reply))))
          ∷ [],
    )

unfoldable pub locker_max : World → Character → ℕ
locker_max w c = add32 w.base_bank_size ((c.bankmax * w.bank_size_step) % 2 ^ 32)

-- `Locker_Add` in front of a vault.
unfoldable pub store : World → ℕ → ℕ → Character → Character × List Builder
unfolding add_common locker_max
store w item amount c = elim (find_item item c.bank) [
  | some held ↦
      let moved : ℕ = min32 amount (sub32 w.max_bank held) in
      let stored =
        add_common w item moved (record c { bank = set_item item (add32 held moved) c.bank }) in
      if is_negative (add32 held amount) then (c, []) else stored
  | none ↦
      let moved : ℕ = min32 amount w.max_bank in
      let stored =
        add_common w item moved
          (record c { bank = c.bank ++ record { id = item; amount = moved } ∷ [] }) in
      if leb (locker_max w c) (length c.bank)
      then (c, add_char (locker_max w c % 2 ^ 8) (new_builder packet_locker packet_spec) ∷ [])
      else stored
]

-- `Locker_Add` from where the packet has been read.
unfoldable pub locker_store : World → Place → ℕ → ℕ → ℕ → ℕ → Character → Character × List Builder
unfolding store
locker_store w p x y item amount c =
    if item == gold || is_none amount || lt32 (has_item c item false) amount
    then (c, [])
    else if is_at_vault p c x y
    then store w item amount c
    else (c, [])

unfoldable pub locker_add : World → Place → Character → Reader → Outcome (Character × List Builder)
unfolding locker_store
locker_add w p c r = if c.trading then ok (c, []) else do
  (x, r1) ← get_char r
  (y, r2) ← get_char r1
  (item, r3) ← get_short r2
  (amount, r4) ← get_three r3
  ok (locker_store w p x y item amount c)

-- `Locker_Take` in front of a vault. (`AddItem` reports no failure.)
unfoldable pub retrieve : World → ℕ → Character → Character × List Builder
unfolding add_items
retrieve w item c = elim (find_item item c.bank) [
  | none ↦ (c, [])
  | some held ↦
      let taken : ℕ = can_hold_item w item held c in
      let c' = calculate_stats w (add_item w item taken c).1 in
      let left : ℕ = sub32 held taken in
      let bank = if is_none left then erase_item item c'.bank else set_item item left c'.bank in
      (
        record c' { bank = bank },
        add_items bank (
              add_weights c'
                (add_three taken (add_short item (new_builder packet_locker packet_get))))
            ∷ [],
      )
]

unfoldable pub locker_take : World → Place → Character → Reader → Outcome (Character × List Builder)
unfolding retrieve
locker_take w p c r = if c.trading then ok (c, []) else do
  (x, r1) ← get_char r
  (y, r2) ← get_char r1
  (item, r3) ← get_short r2
  ok (if is_at_vault p c x y then retrieve w item c else (c, []))

unfoldable pub locker_open : Place → Character → Reader → Outcome (Character × List Builder)
unfolding add_items
locker_open p c r = do
  (x, r1) ← get_char r
  (y, r2) ← get_char r1
  ok (
      if is_at_vault p c x y
      then (
        c,
        add_items c.bank (add_char y (add_char x (new_builder packet_locker packet_open))) ∷ [],
      )
      else (c, []))

-- `Locker_Buy`.
unfoldable pub locker_buy : World → Character → Character × List Builder
locker_buy w c =
    let cost : ℕ = add32 w.bank_upgrade_base ((c.bankmax * w.bank_upgrade_step) % 2 ^ 32) in
    let c' = (del_item w gold cost (record c { bankmax = add32 c.bankmax 1 })).1 in
    if c.trading
      || not (c.npc_type == npc_bank)
      || le32 w.max_bank_upgrades c.bankmax
      || lt32 (has_item c gold false) cost
    then (c, [])
    else (
      c',
      add_char (c'.bankmax % 2 ^ 8)
            (add_int (has_item c' gold false) (new_builder packet_locker packet_buy))
          ∷ [],
    )
