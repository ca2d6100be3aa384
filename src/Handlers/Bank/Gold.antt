-- ===== src/Handlers/Bank/Gold.antt =====
-- src/handlers/Bank.cpp: what becomes of a character's gold, carried and stored, at the bank.
use etheos.Base.{
  ℕ, ◌+◌, ◌-◌, ◌^◌, ◌≤◌, ◌<◌, ◌≡◌, refl, true, false, arith, inl, inr, Bool-cases, ◌||◌, ◌==◌,
  ==→ne, ◌⊎◌, min,
}
use etheos.Base.Word.{add32, sub32, is_negative, lt32, min32}
use etheos.Character.{Character, World}
use etheos.Character.Weight.{calculate_stats}
use etheos.Character.Items.{is_none, is_unknown, has_item, add_item, del_item}
use etheos.Character.Items.Stock.{IsAmount, IsStock}
use etheos.Character.Items.Contents.{add_item-contents, del_item-contents, stacked}
use etheos.Character.Items.Moves.{has_item-not_trading}
use etheos.Handlers.Ids.{npc_bank, gold}
use etheos.Handlers.Bank.{deposit, withdraw}

-- The gold carried and that in the bank.
abbrev pub total_gold : Character → ℕ
total_gold c = has_item c gold true + c.goldbank

-- The gold in the bank is no matter to the inventory.
has_item-goldbank :
    (c : Character) (j g : ℕ) → has_item (record c { goldbank = g }) j true ≡ has_item c j true
unfolding has_item
has_item-goldbank c j g = refl

goldbank-add_item :
    (w : World) (id amount : ℕ) (c : Character) → (add_item w id amount c).1.goldbank ≡ c.goldbank
unfolding add_item calculate_stats
goldbank-add_item w id amount c = ground arith

has_item-del_gold :
    (w : World) (a : ℕ) (c : Character)
    → IsStock c.inventory
    → a < 2 ^ 31
    → has_item (del_item w gold a c).1 gold true ≡ has_item c gold true - a
unfolding del_item
has_item-del_gold w a c s h = elim (Bool-cases (a == 0)) [
  | inl nothing ↦ ground arith
  | inr some_gold ↦ (del_item-contents w gold a c s (omega (arith, ==→ne a 0 some_gold), h)).1 gold
]

-- `Bank_Add`, where no trade is under way, makes and loses no gold, whatever amount the client
-- names: what is carried and what is stored add up as before. What is stored stays as it was or is
-- at most `MaxBankGold`. (The inventory holds each id once, and the gold owned fits an `int`, as
-- `MaxBankGold` does.)
pub deposit-total_gold :
    (w : World) (wanted : ℕ) (c : Character)
    → IsStock c.inventory
    → IsAmount w.max_bank_gold
    → c.trading ≡ false
    → wanted < 2 ^ 32
    → total_gold c < 2 ^ 31
    → let c' = (deposit w wanted c).0 in
      (total_gold c' ≡ total_gold c)
      × ((c'.goldbank ≡ c.goldbank) ⊎ (c'.goldbank ≤ w.max_bank_gold))
unfolding deposit
deposit-total_gold w wanted c s m t h total =
    let carried = has_item-not_trading c gold t in
    let a : ℕ = min32 wanted (has_item c gold false) in
    let newgold : ℕ = add32 c.goldbank a in
    elim (Bool-cases (is_none wanted)) [
      | inl refused ↦ rw refused (refl, inl refl)
      | inr allowed ↦ elim (Bool-cases (c.npc_type == npc_bank)) [
        | inl banker ↦ elim (Bool-cases (lt32 newgold c.goldbank || lt32 w.max_bank_gold newgold)) [
          | inl full ↦ rw (allowed, banker, full) (refl, inl refl)
          | inr room ↦
              rw (allowed, banker, room)
                (
                  rw (has_item-goldbank, has_item-del_gold w a c s (ground arith)) (ground arith),
                  inr (ground arith),
                )
        ]
        | inr other ↦ rw (allowed, other) (refl, inl refl)
      ]
    ]

has_item-add_gold :
    (w : World) (amount g : ℕ) (c : Character)
    → IsStock c.inventory
    → IsAmount w.max_item
    → is_unknown w gold ≡ false
    → 0 < amount
    → has_item c gold true + amount < 2 ^ 31
    → has_item (add_item w gold amount (record c { goldbank = g })).1 gold true
      ≡ stacked w (has_item c gold true) amount
unfolding has_item
has_item-add_gold w amount g c s m known some_gold fits =
    (add_item-contents w gold amount (record c { goldbank = g }) m s known some_gold fits).1 gold

-- `Bank_Take` makes and loses no gold, whatever amount the client names, if what is carried and the
-- amount, or the gold stored if that is less, are together at most `MaxItem`. (The inventory holds
-- each id once, gold is a known item, and the gold owned fits an `int`.)
pub withdraw-total_gold :
    (w : World) (amount : ℕ) (c : Character)
    → IsStock c.inventory
    → IsAmount w.max_item
    → is_unknown w gold ≡ false
    → amount < 2 ^ 32
    → total_gold c < 2 ^ 31
    → has_item c gold true + min amount c.goldbank ≤ w.max_item
    → total_gold (withdraw w amount c).0 ≡ total_gold c
unfolding withdraw
withdraw-total_gold w amount c s m known h total limit =
    let newgold : ℕ = sub32 c.goldbank amount in
    elim (Bool-cases (is_none amount)) [
      | inl refused ↦ rw refused
      | inr allowed ↦ elim (Bool-cases (c.npc_type == npc_bank)) [
        | inl banker ↦ elim (Bool-cases (lt32 c.goldbank newgold || is_negative newgold)) [
          | inl short ↦ rw (allowed, banker, short)
          | inr room ↦
              rw (allowed, banker, room)
                (rw
                  (
                    goldbank-add_item,
                    has_item-add_gold w amount newgold c s m known (ground arith) (ground arith),
                  )
                  (ground arith))
        ]
        | inr other ↦ rw (allowed, other)
      ]
    ]

-- At a banker, where the amount is above 0 and stored, some gold is carried already, and together
-- it would be more than `MaxItem`: `Bank_Take` takes the whole amount out of the bank, and what
-- lies above `MaxItem` is lost: then `MaxItem` is carried, and the gold owned has fallen by the rest. (The inventory holds each id once, gold is a known item, and the
-- gold owned fits an `int`.)
pub withdraw-lost :
    (w : World) (amount : ℕ) (c : Character)
    → IsStock c.inventory
    → IsAmount w.max_item
    → is_unknown w gold ≡ false
    → c.npc_type ≡ npc_bank
    → 0 < amount
    → amount ≤ c.goldbank
    → total_gold c < 2 ^ 31
    → 0 < has_item c gold true
    → w.max_item < has_item c gold true + amount
    → let c' = (withdraw w amount c).0 in
      (c'.goldbank + amount ≡ c.goldbank)
      × (has_item c' gold true ≡ w.max_item)
      × (total_gold c' + (has_item c gold true + amount - w.max_item) ≡ total_gold c)
unfolding withdraw
withdraw-lost w amount c s m known banker some_gold enough total carries over =
    let newgold : ℕ = sub32 c.goldbank amount in
    let allowed : is_none amount ≡ false = ground arith in
    let room : (lt32 c.goldbank newgold || is_negative newgold) ≡ false = ground arith in
    let at_bank : (c.npc_type == npc_bank) ≡ true = ground arith in
    rw
      (
        allowed,
        at_bank,
        room,
        goldbank-add_item,
        has_item-add_gold w amount newgold c s m known some_gold (omega arith),
      )
      (ground arith, ground arith, ground arith)
