-- ===== src/Character/Equipment.antt =====
-- src/character.cpp, `Equip` and `Unequip`: items move between the inventory and the paperdoll, which
-- has 15 places. What the item file and the class file say, and the values that `Equip` compares
-- with them, are arguments. Messages to the player are left out.
pub mod Wearing
mod Tests
use mathlib.Core.Option
use etheos.Base.{
  ℕ, zero, suc, ◌+◌, Bool, true, false, not, Option, none, some, List, [], ◌∷◌, ◌||◌, ◌&&◌, ◌==◌,
  ltb, get_or, set, if◌then◌else◌,
}
use etheos.Base.Word.{shifted16}
use etheos.Character.{Character, World}
use etheos.Character.Weight.{calculate_stats}
use etheos.Character.Items.{has_item, add_item, del_item}

-- What `EIF_Data` says of an item that may be worn.
pub record WearData : Type 0 where
  pub type : ℕ
  pub subtype : ℕ
  pub gender : ℕ
  pub dual_wield_dollgraphic : ℕ
  pub levelreq : ℕ
  pub classreq : ℕ
  pub reqs : List ℕ

-- What `Equip` reads of the character besides its items; `stats` are the six displayed ones, `base`
-- is that of its class.
pub record Wearer : Type 0 where
  pub gender : ℕ
  pub clas : ℕ
  pub base : ℕ
  pub level : ℕ
  pub stats : List ℕ

-- `EIF::Type`, `EIF::SubType` and `EquipLocation`.
abbrev pub weapon_type : ℕ
weapon_type = 10

abbrev pub shield_type : ℕ
shield_type = 11

abbrev pub armor_type : ℕ
armor_type = 12

abbrev pub arrows : ℕ
arrows = 2

abbrev pub wings : ℕ
wings = 3

abbrev pub two_handed : ℕ
two_handed = 4

abbrev pub shield_slot : ℕ
shield_slot = 7

abbrev pub weapon_slot : ℕ
weapon_slot = 8

-- The place of a `Ring2`, `Armlet2` or `Bracer2`.
abbrev pub is_second : ℕ → Bool
is_second i = i == 10 || i == 12 || i == 14

-- The loop of `Unequip`, from the place `i` on: how far behind it the item is worn.
unfoldable pub find_worn : ℕ → ℕ → ℕ → List ℕ → Option ℕ
find_worn item subloc i [] = none
find_worn item subloc i (p ∷ ps) =
    let rest = Option.map suc (find_worn item subloc (i + 1) ps) in
    if p == item && (if is_second i then 1 else 0) == subloc then some 0 else rest

-- `Character::Unequip`.
unfoldable pub unequip : World → ℕ → ℕ → Character → Bool × Character
unfolding find_worn
unequip w item subloc c =
    if item == 0 then (false, c) else elim (find_worn item subloc 0 c.paperdoll) [
      | none ↦ (false, c)
      | some i ↦ (
        true,
        calculate_stats w (add_item w item 1 (record c { paperdoll = set c.paperdoll i 0 })).1,
      )
    ]

-- `character_equip_oneslot`, and each branch of `character_equip_twoslot`.
unfoldable pub equip_slot : World → ℕ → ℕ → Character → Bool × Character
equip_slot w item slot c = if not (get_or c.paperdoll slot 0 == 0) then (false, c) else (
  true,
  calculate_stats w (del_item w item 1 (record c { paperdoll = set c.paperdoll slot item })).1,
)

-- The `switch` over the type of the item.
unfoldable pub slot_of : ℕ → ℕ → Option ℕ
slot_of type subloc =
    if type == 10
    then some 8
    else if type == 11
    then some 7
    else if type == 12
    then some 4
    else if type == 13
    then some 6
    else if type == 14
    then some 0
    else if type == 15
    then some 2
    else if type == 16
    then some 1
    else if type == 17
    then some 3
    else if type == 18
    then some 5
    else if type == 19
    then some (if subloc == 0 then 9 else 10)
    else if type == 20
    then some (if subloc == 0 then 11 else 12)
    else if type == 21
    then some (if subloc == 0 then 13 else 14)
    else none

-- A weapon for two hands and a shield: not both, but for some arrows and wings.
unfoldable pub hands_clash : (ℕ → WearData) → ℕ → List ℕ → Bool
hands_clash eif item paperdoll =
    let held : ℕ = get_or paperdoll weapon_slot 0 in
    let back : ℕ = get_or paperdoll shield_slot 0 in
    let is_back : ℕ → Bool = λ id. (eif id).subtype == arrows || (eif id).subtype == wings in
    ((eif item).type == weapon_type
      && (eif item).subtype == two_handed
      && not (back == 0)
      && (not ((eif item).dual_wield_dollgraphic == 0) || not (is_back back)))
    || ((eif item).type == shield_type
        && not (held == 0)
        && (eif held).subtype == two_handed
        && (not ((eif held).dual_wield_dollgraphic == 0) || not (is_back item)))

-- The six comparisons of a displayed statistic with what the item asks for; all are `short`s.
unfoldable pub falls_short : List ℕ → List ℕ → Bool
falls_short [] reqs = false
falls_short (s ∷ stats) [] = false
falls_short (s ∷ stats) (r ∷ reqs) = ltb (shifted16 s) (shifted16 r) || falls_short stats reqs

-- `Character::Equip`.
unfoldable pub equip : World → (ℕ → WearData) → Wearer → ℕ → ℕ → Character → Bool × Character
unfolding equip_slot slot_of hands_clash falls_short
equip w eif who item subloc c =
    let data_of = eif item in
    if has_item c item false == 0
      || (data_of.type == armor_type && not (data_of.gender == who.gender))
      || hands_clash eif item c.paperdoll
      || ltb (shifted16 who.level) (shifted16 data_of.levelreq)
      || (not (who.clas == data_of.classreq) && not (who.base == data_of.classreq))
      || falls_short who.stats data_of.reqs
    then (false, c)
    else elim (slot_of data_of.type subloc) [
      | none ↦ (false, c)
      | some slot ↦ equip_slot w item slot c
    ]
