-- ===== src/Character/Items/Capacity.antt =====
-- src/character.cpp, `CanHoldItem`.
use native.Mathlib.Nat.{div-le_self, div-mul-le_self, mul-le-mul_right}
use etheos.Base.{ℕ, ◌+◌, ◌-◌, ◌*◌, ◌/◌, ◌^◌, ◌≤◌, ◌<◌, ◌≡◌, ◌≢◌, true, arith, ne→==}
use etheos.Base.Word.{lt32, le32, shifted16}
use etheos.Character.{Character, World}
use etheos.Character.Weight.{item_data}
use etheos.Character.Items.{can_hold_item}
use etheos.Character.Items.Stock.{IsAmount}

pub can_hold_item_le_any :
    (w : World) (item held : ℕ) (c : Character)
    → held < 2 ^ 31
    → IsAmount w.max_item
    → can_hold_item w item held c ≤ held
unfolding can_hold_item
can_hold_item_le_any w item held c h m =
    let room : ℕ = shifted16 c.maxweight - shifted16 c.weight in
    ground (arith, div-le_self room (item_data w item).weight)

pub can_hold_item_le :
    (w : World) (item held : ℕ) (c : Character)
    → IsAmount held
    → IsAmount w.max_item
    → can_hold_item w item held c ≤ held
can_hold_item_le w item held c h m = can_hold_item_le_any w item held c h.1 m

-- Where weights are enforced on a character that is not overloaded, as many of a known item with a
-- weight as `CanHoldItem` allows weigh no more than is free, and are no more than were asked for.
pub can_hold_item-weight :
    (w : World) (id asked : ℕ) (c : Character)
    → IsAmount asked
    → IsAmount w.max_item
    → le32 2 w.enforce_weight ≡ true
    → lt32 c.admin w.unlimited_weight ≡ true
    → (item_data w id).id ≢ 0
    → (item_data w id).weight ≢ 0
    → c.weight ≤ c.maxweight
    → c.maxweight < 2 ^ 15
    → (can_hold_item w id asked c ≤ asked)
      × (c.weight + can_hold_item w id asked c * (item_data w id).weight ≤ c.maxweight)
unfolding can_hold_item
can_hold_item-weight w id asked c a m enforced limited real heavy free small =
    let each : ℕ = (item_data w id).weight in
    let room : ℕ = c.maxweight - c.weight in
    let exact : shifted16 c.maxweight - shifted16 c.weight ≡ room = omega (arith, free, small) in
    let light : room / each ≤ room = div-le_self room each in
    let fits : can_hold_item w id asked c ≤ room / each =
      rw (enforced, limited, ne→== (item_data w id).id 0 real, ne→== each 0 heavy, exact)
        (ground (arith, light)) in
    (
      can_hold_item_le w id asked c a m,
      omega (arith, mul-le-mul_right each fits, div-mul-le_self room each),
    )
