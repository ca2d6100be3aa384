-- ===== src/Character/Items/Offers.antt =====
-- src/character.cpp, `AddTradeItem`: what a character offers in a trade.
use etheos.Base.{
  ℕ, ◌+◌, ◌-◌, ◌^◌, ◌≤◌, ◌<◌, ◌≡◌, ap, true, false, not, some, List, arith, inl, inr, Bool-cases,
  Option-cases, ◌||◌, ◌&&◌, ◌==◌, ==→eq, if◌then◌else◌,
}
use etheos.Base.Word.{add32, is_negative, lt32, min32}
use etheos.Character.{Item, Character, World}
use etheos.Character.Items.{
  is_none, is_unknown, find_item, has_item, offered_amount, add_trade_item,
}
use etheos.Character.Items.Stock.{
  IsAmount, IsStock, amount_of, find_item-push, find_item-set, push-IsStock, set_item-IsStock,
}
use etheos.Character.Items.Contents.{has_item-inventory, find_item-IsAmount}

-- All that is on offer is carried.
abbrev pub IsCovered : Character → Type 0
IsCovered c = (j : ℕ) → amount_of j c.trade_inventory ≤ amount_of j c.inventory

pub has_item-offered :
    (c : Character) (id : ℕ)
    → IsStock c.inventory
    → IsStock c.trade_inventory
    → c.trading ≡ true
    → IsCovered c
    → has_item c id false ≡ amount_of id c.inventory - amount_of id c.trade_inventory
unfolding has_item
has_item-offered c id s o t v = elim (Option-cases (find_item id c.inventory)) [
  | inl missing ↦ rw (missing, has_item) (omega arith)
  | inr (held, e) ↦ elim (Option-cases (find_item id c.trade_inventory)) [
    | inl none_offered ↦ rw (e, has_item, none_offered) (ground (arith, t))
    | inr (offered, d) ↦
        rw (e, has_item, d)
          (ground (
            arith,
            find_item-IsAmount id held c.inventory s e,
            find_item-IsAmount id offered c.trade_inventory o d,
            v id,
            t,
            e,
            d,
          ))
  ]
]

pub amount_of_lt : (id : ℕ) (items : List Item) → IsStock items → amount_of id items < 2 ^ 31
amount_of_lt id items s = elim (Option-cases (find_item id items)) [
  | inl missing ↦ rw missing (omega arith)
  | inr (held, e) ↦ rw e (find_item-IsAmount id held items s e).1
]

pub has_item_lt : (c : Character) (j : ℕ) → IsStock c.inventory → has_item c j true < 2 ^ 31
has_item_lt c j s = rw (has_item-inventory c j) (amount_of_lt j c.inventory s)

-- What `AddTradeItem` adds or sets is carried beyond what stays on offer.
wanted_le :
    (w : World) (id wanted : ℕ) (c : Character)
    → IsStock c.inventory
    → IsStock c.trade_inventory
    → c.trading ≡ true
    → IsCovered c
    → wanted < 2 ^ 32
    → let amount = min32 wanted (has_item c id (not w.trade_add_quantity)) in
      is_none amount ≡ false
      → IsAmount amount
        × ((if w.trade_add_quantity then amount_of id c.trade_inventory + amount else amount)
            ≤ amount_of id c.inventory)
wanted_le w id wanted c s o t v h some_left =
    let small = amount_of_lt id c.inventory s in
    elim (Bool-cases w.trade_add_quantity) [
      | inl add ↦ ground (arith, add, has_item-offered c id s o t v, small, v id)
      | inr replace ↦ ground (arith, replace, has_item-inventory c id, small)
    ]

covers :
    (c : Character) (id k : ℕ) (offers : List Item)
    → IsCovered c
    → k ≤ amount_of id c.inventory
    → ((j : ℕ) → find_item j offers ≡ (if id == j then some k else find_item j c.trade_inventory))
    → (j : ℕ) → amount_of j offers ≤ amount_of j c.inventory
covers c id k offers v le changed j = elim (Bool-cases (id == j)) [
  | inl same ↦
      let e : amount_of id c.inventory ≡ amount_of j c.inventory =
        ap (λ i. amount_of i c.inventory) (==→eq id j same) in
      ground (arith, same, e, changed j)
  | inr other ↦ ground (arith, other, v j, changed j)
]

-- While a character trades, `AddTradeItem` keeps its offers a list of distinct items with amounts
-- above 0, and never lets it offer more of an item than it carries, whatever it is called with and
-- whether or not `TradeAddQuantity` is set.
pub add_trade_item-IsCovered :
    (w : World) (id wanted : ℕ) (c : Character)
    → IsStock c.inventory
    → IsStock c.trade_inventory
    → c.trading ≡ true
    → IsCovered c
    → wanted < 2 ^ 32
    → let c' = (add_trade_item w id wanted c).1 in IsStock c'.trade_inventory × IsCovered c'
unfolding add_trade_item
add_trade_item-IsCovered w id wanted c s o t v h =
    let amount : ℕ = min32 wanted (has_item c id (not w.trade_add_quantity)) in
    let sum : ℕ = add32 (offered_amount id c.trade_inventory 0) amount in
    elim (Bool-cases (
      is_unknown w id
      || (is_none amount || lt32 w.max_trade amount)
      || (w.trade_add_quantity && (is_negative sum || lt32 w.max_trade sum)))) [
        | inl refused ↦ rw refused (o, v)
        | inr allowed ↦
            let (a, le) = wanted_le w id wanted c s o t v h (ground arith) in
            elim (Option-cases (find_item id c.trade_inventory)) [
              | inl missing ↦
                  rw (allowed, missing)
                    (
                      push-IsStock id amount c.trade_inventory o a missing,
                      covers c id amount _ v (ground (arith, le))
                          (λ j. find_item-push j id amount c.trade_inventory missing),
                    )
              | inr (offered, e) ↦
                  let k : ℕ = if w.trade_add_quantity then add32 offered amount else amount in
                  let small = amount_of_lt id c.inventory s in
                  let exact : k ≡ (
                      if w.trade_add_quantity
                      then amount_of id c.trade_inventory + amount
                      else amount) =
                    ground (arith, le, small, e) in
                  rw (allowed, e)
                    (
                      set_item-IsStock id k c.trade_inventory o
                          (ground (arith, exact, le, small, a)),
                      covers c id k _ v (ground (arith, exact, le))
                          (λ j. find_item-set j id k offered c.trade_inventory e),
                    )
            ]
      ]
