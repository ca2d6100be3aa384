-- ===== src/Character/Equipment/Tests.antt =====
-- `Equip` and `Unequip` on a sample character.
use etheos.Base.{ℕ, ◌+◌, ◌≤◌, ◌≡◌, refl, true, false, [], ◌∷◌, arith, ◌==◌, if◌then◌else◌}
use etheos.Character.{Character}
use etheos.Character.Items.{has_item}
use etheos.Character.Samples.{world, hero, hero-IsStock}
use etheos.Character.Equipment.{WearData, Wearer, equip, unequip}
use etheos.Character.Equipment.Wearing.{kept, equip-kept}

-- Item 2 is a hat that asks for level 3, and 3 is an accessory.
abbrev wear_data : ℕ → WearData
wear_data id = record {
  type = if id == 2 then 13 else 16;
  subtype = 0;
  gender = 0;
  dual_wield_dollgraphic = 0;
  levelreq = 3;
  classreq = 0;
  reqs = 0 ∷ 0 ∷ 0 ∷ 0 ∷ 0 ∷ 0 ∷ [];
}

abbrev wearer : Wearer
wearer = record { gender = 0; clas = 0; base = 0; level = 5; stats = 1 ∷ 1 ∷ 1 ∷ 1 ∷ 1 ∷ 1 ∷ [] }

abbrev dressed : Character
dressed = record hero { paperdoll = 0 ∷ 3 ∷ 0 ∷ 0 ∷ 0 ∷ 0 ∷ 0 ∷ 0 ∷ 0 ∷ 0 ∷ 0 ∷ 0 ∷ 0 ∷ 0 ∷ 0 ∷ [] }

put_on : (equip world wear_data wearer 2 0 dressed).0 ≡ true
unfolding equip has_item
put_on = refl

too_low : (equip world wear_data (record wearer { level = 2 }) 2 0 dressed).0 ≡ false
unfolding equip has_item
too_low = refl

taken_off : (unequip world 3 0 dressed).0 ≡ true
unfolding unequip
taken_off = refl

equip-kept_example : kept (equip world wear_data wearer 2 0 dressed).1 2 ≡ kept dressed 2
equip-kept_example = equip-kept world 2 dressed hero-IsStock 2 (omega arith) wear_data wearer 0 refl

no_herbs : has_item dressed 3 true + 1 ≤ 500
unfolding has_item
no_herbs = omega arith
