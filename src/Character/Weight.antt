-- ===== src/Character/Weight.antt =====
-- src/character.cpp, the weights in `Character::CalculateStats`, and `EIF::Get` of src/eodata.cpp.
use etheos.Base.{
  ℕ, zero, suc, refl, replicate, ◌+◌, ◌*◌, ◌%◌, ◌^◌, ◌≤◌, ◌≡◌, List, [], ◌∷◌, ◌||◌, ◌&&◌, arith,
  length, get_or, ltb, leb, ◌==◌, if◌then◌else◌,
}
use etheos.Base.Word.{le32}
use etheos.Character.{Item, Character, ItemData, World}

-- `EIF::Get`: the first record stands for an id that is not in the file.
unfoldable pub item_data : World → ℕ → ItemData
item_data w id = if ltb id (length w.eif) then get_or w.eif id w.blank else get_or w.eif 0 w.blank

-- The loop over the inventory, which a weight of 250 ends.
unfoldable pub carried : World → List Item → ℕ → ℕ
unfolding item_data
carried w [] weight = weight
carried w (i ∷ items) weight =
    let weight' : ℕ = (weight + (item_data w i.id).weight * i.amount) % 2 ^ 16 in
    let rest = carried w items weight' in
    if leb 250 weight' && ltb weight' (2 ^ 15) then weight' else rest

-- The loop over what is worn.
unfoldable pub worn : World → List ℕ → ℕ → ℕ
unfolding item_data
worn w [] weight = weight
worn w (i ∷ items) weight =
    let rest = worn w items ((weight + (item_data w i).weight) % 2 ^ 16) in
    let skipped = worn w items weight in if i == 0 then skipped else rest

-- `CalculateStats`, of which only the weights are modelled.
unfoldable pub calculate_stats : World → Character → Character
unfolding carried worn
calculate_stats w c =
    let sum : ℕ = worn w c.paperdoll (carried w c.inventory 0) in
    let limit : ℕ = w.formula_weight c % 2 ^ 16 in
    if le32 w.unlimited_weight c.admin then record c { weight = 0; maxweight = 251 } else record c {
      weight = if ltb 250 sum then 250 else sum;
      maxweight = if ltb limit 70 || ltb 250 limit then 250 else limit;
    }

-- After `CalculateStats` the weight is at most 250, and its limit is from 70 to 250, or 251 for those
-- without a limit.
pub calculate_stats_bounds :
    (w : World) (c : Character)
    → let c' = calculate_stats w c in (c'.weight ≤ 250) × (70 ≤ c'.maxweight) × (c'.maxweight ≤ 251)
unfolding calculate_stats
calculate_stats_bounds w c = ground arith

worn_nothing : (w : World) (n weight : ℕ) → worn w (replicate n 0) weight ≡ weight
unfolding worn
worn_nothing w zero weight = refl
worn_nothing w (suc n) weight = worn_nothing w n weight

-- The weight is summed in a `short`: any multiple of 65536 of one item, whatever one of it weighs,
-- weighs nothing, if nothing else is carried and all 15 places of the paperdoll are empty.
pub calculate_stats_wraps :
    (w : World) (c : Character) (id k : ℕ)
    → c.inventory ≡ record { id = id; amount = 65536 * k } ∷ []
    → c.paperdoll ≡ replicate 15 0
    → (calculate_stats w c).weight ≡ 0
unfolding calculate_stats
calculate_stats_wraps w c id k e p =
    let one : ℕ = (item_data w id).weight in
    let product : one * (65536 * k) ≡ 65536 * (one * k) = omega arith in
    let none_left : (0 + one * (65536 * k)) % 2 ^ 16 ≡ 0 = omega (arith, product) in
    rw (e, p, none_left, carried, worn_nothing w 15 0) (ground arith)
