-- ===== src/Character/Items/Moves.antt =====
-- src/character.cpp: `AddItem` and `DelItem` with any amount that is not negative, 0 included, where
-- nothing is cut off, and what they leave alone.
use etheos.Base.{
  ℕ, ◌+◌, ◌-◌, ◌^◌, ◌≤◌, ◌<◌, ◌≡◌, sym, ◌∙◌, ap, true, false, arith, ◌==◌, ==→eq, ==→ne, inl, inr,
  Bool-cases, if◌then◌else◌,
}
use etheos.Character.{Character, World}
use etheos.Character.Weight.{calculate_stats}
use etheos.Character.Items.{is_unknown, has_item, add_item, del_item}
use etheos.Character.Items.Stock.{IsAmount, IsStock, amount_of}
use etheos.Character.Items.Contents.{
  has_item-inventory, inventory-calculate_stats, add_item-contents, del_item-contents,
}

-- `DelItem` called with any amount that is not negative.
pub has_item-del_item :
    (w : World) (id a : ℕ) (c : Character)
    → IsStock c.inventory
    → a < 2 ^ 31
    → (j : ℕ)
    → has_item (del_item w id a c).1 j true
      ≡ (if id == j then has_item c id true - a else has_item c j true)
unfolding del_item
has_item-del_item w id a c s h j = elim (Bool-cases (a == 0)) [
  | inl nothing ↦ elim (Bool-cases (id == j)) [
    | inl same ↦
        rw (nothing, same)
          (let e : has_item c id true ≡ has_item c j true =
              ap (λ k. has_item c k true) (==→eq id j same) in
            ground (arith, e))
    | inr other ↦ rw (nothing, other)
  ]
  | inr some_left ↦ (del_item-contents w id a c s (omega (arith, ==→ne a 0 some_left), h)).1 j
]

pub has_item-calculate_stats :
    (w : World) (c : Character) (j : ℕ) → has_item (calculate_stats w c) j true ≡ has_item c j true
has_item-calculate_stats w c j =
    has_item-inventory _ j
    ∙ ap (amount_of j) (inventory-calculate_stats w c)
    ∙ sym (has_item-inventory c j)

-- `CalculateStats`, `AddItem` and `DelItem` leave what is stored alone.
pub bank-calculate_stats : (w : World) (c : Character) → (calculate_stats w c).bank ≡ c.bank
unfolding calculate_stats
bank-calculate_stats w c = ground arith

pub bank-add_item :
    (w : World) (id amount : ℕ) (c : Character) → (add_item w id amount c).1.bank ≡ c.bank
unfolding add_item calculate_stats
bank-add_item w id amount c = ground arith

pub bank-del_item :
    (w : World) (id amount : ℕ) (c : Character) → (del_item w id amount c).1.bank ≡ c.bank
unfolding del_item calculate_stats
bank-del_item w id amount c = ground arith

-- `AddItem` where nothing is cut off, and called with any amount that is not negative.
pub has_item-add_within :
    (w : World) (item a : ℕ) (c : Character)
    → IsStock c.inventory
    → IsAmount w.max_item
    → is_unknown w item ≡ false
    → has_item c item true + a ≤ w.max_item
    → (j : ℕ)
    → has_item (add_item w item a c).1 j true
      ≡ (if item == j then has_item c item true + a else has_item c j true)
unfolding add_item
has_item-add_within w item a c s m known limit j = elim (Bool-cases (a == 0)) [
  | inl nothing ↦ elim (Bool-cases (item == j)) [
    | inl same ↦
        rw (nothing, same)
          (let e : has_item c item true ≡ has_item c j true =
              ap (λ k. has_item c k true) (==→eq item j same) in
            omega (arith, e, ==→eq a 0 nothing))
    | inr other ↦ rw (nothing, other)
  ]
  | inr some_new ↦
      let added =
        add_item-contents w item a c m s known (omega (arith, ==→ne a 0 some_new))
          (omega (arith, m.1)) in
      added.1 j ∙ ground arith
]

pub has_item-not_trading :
    (c : Character) (j : ℕ) → c.trading ≡ false → has_item c j false ≡ has_item c j true
unfolding has_item
has_item-not_trading c j h = ground arith
