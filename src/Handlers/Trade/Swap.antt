-- ===== src/Handlers/Trade/Swap.antt =====
-- src/handlers/Trade.cpp: what two characters carry after both have agreed on a trade.
use mathlib.Core.Option
use etheos.Base.{
  ℕ, ◌+◌, ◌-◌, ◌≤◌, ◌≡◌, refl, sym, ap, ◌∙◌, true, false, List, [], ◌∷◌, arith, All, inl, inr,
  Bool-cases, ◌==◌, ==_self, ==→eq, if◌then◌else◌,
}
use etheos.Character.{Item, Character, World}
use etheos.Character.Items.{is_unknown, find_item, has_item, add_item, del_item}
use etheos.Character.Items.Stock.{IsAmount, IsStock, amount_of}
use etheos.Character.Items.Contents.{has_item-inventory, add_item-IsStock, del_item-IsStock}
use etheos.Character.Items.Moves.{has_item-del_item, has_item-add_within}
use etheos.Handlers.Trade.{Traders, give, swap}

amount_of-cons :
    (j : ℕ) (i : Item) (items : List Item)
    → amount_of j (i ∷ items) ≡ (if i.id == j then i.amount else amount_of j items)
unfolding find_item
amount_of-cons j i items = ground arith

amount_of-rest :
    (j : ℕ) (i : Item) (items : List Item)
    → IsStock (i ∷ items)
    → (i.id == j) ≡ true
    → amount_of j items ≡ 0
amount_of-rest j i items s e =
    ap (λ k. amount_of k items) (sym (==→eq i.id j e)) ∙ ap (λ n. Option.get_or n 0) (s.1)

-- The offer `items` can be handed over: it lists each item once, all of them known, the one who
-- gives carries them, and the one who takes can carry them as well.
pub record IsFair (w : World) (items : List Item) (from to : Character) : Type 0 where
  pub listed : IsStock items
  pub known : All (λ i. is_unknown w i.id ≡ false) items
  pub giver : IsStock from.inventory
  pub taker : IsStock to.inventory
  pub carried : (j : ℕ) → amount_of j items ≤ has_item from j true
  pub limit : (j : ℕ) → has_item to j true + amount_of j items ≤ w.max_item

-- What `give` does to the two.
record Given (items : List Item) (from to from' to' : Character) : Type 0 where
  giver : IsStock from'.inventory
  taker : IsStock to'.inventory
  lost : (j : ℕ) → has_item from' j true + amount_of j items ≡ has_item from j true
  won : (j : ℕ) → has_item to' j true ≡ has_item to j true + amount_of j items

module _ (w : World) (m : IsAmount w.max_item) where
  module _ (i : Item) (items : List Item) (from to : Character)
      (f : IsFair w (i ∷ items) from to) where
    from1 : Character
    from1 = (del_item w i.id i.amount from).1

    to1 : Character
    to1 = (add_item w i.id i.amount to).1

    has_item-from1 :
        (j : ℕ)
        → has_item from1 j true
          ≡ (if i.id == j then has_item from i.id true - i.amount else has_item from j true)
    unfolding from1
    has_item-from1 j = has_item-del_item w i.id i.amount from f.giver f.listed.0.1 j

    first_limit : has_item to i.id true + i.amount ≤ w.max_item
    first_limit = ground (arith, f.limit i.id, amount_of-cons i.id i items, ==_self i.id)

    has_item-to1 :
        (j : ℕ)
        → has_item to1 j true
          ≡ (if i.id == j then has_item to i.id true + i.amount else has_item to j true)
    unfolding to1
    has_item-to1 j = has_item-add_within w i.id i.amount to f.taker m f.known.0 first_limit j

    -- The step changes what is still on offer, what the giver has and what the taker has alike.
    lost_first :
        (j : ℕ)
        → has_item from1 j true + amount_of j (i ∷ items) ≡ has_item from j true + amount_of j items
    lost_first j = elim (Bool-cases (i.id == j)) [
      | inl same ↦
          let e : has_item from i.id true ≡ has_item from j true =
            ap (λ k. has_item from k true) (==→eq i.id j same) in
          ground (
            arith,
            same,
            e,
            has_item-from1 j,
            amount_of-cons j i items,
            amount_of-rest j i items f.listed same,
            f.carried j,
          )
      | inr other ↦ ground (arith, other, has_item-from1 j, amount_of-cons j i items)
    ]

    won_first :
        (j : ℕ)
        → has_item to1 j true + amount_of j items ≡ has_item to j true + amount_of j (i ∷ items)
    won_first j = elim (Bool-cases (i.id == j)) [
      | inl same ↦
          let e : has_item to i.id true ≡ has_item to j true =
            ap (λ k. has_item to k true) (==→eq i.id j same) in
          ground (
            arith,
            same,
            e,
            has_item-to1 j,
            amount_of-cons j i items,
            amount_of-rest j i items f.listed same,
          )
      | inr other ↦ ground (arith, other, has_item-to1 j, amount_of-cons j i items)
    ]

    rest-IsFair : IsFair w items from1 to1
    unfolding from1 to1
    rest-IsFair = record {
      listed = f.listed.2;
      known = f.known.1;
      giver = del_item-IsStock w i.id i.amount from f.giver;
      taker = add_item-IsStock w i.id i.amount to m f.taker;
      carried = λ j. omega (arith, lost_first j, f.carried j);
      limit = λ j. omega (arith, won_first j, f.limit j);
    }

  give-Given :
      (items : List Item) (from to : Character)
      → IsFair w items from to
      → Given items from to (give w items from to).0 (give w items from to).1
  unfolding give find_item from1 to1
  give-Given [] from to f = record {
    giver = f.giver;
    taker = f.taker;
    lost = λ j. omega arith;
    won = λ j. omega arith;
  }
  give-Given (i ∷ items) from to f =
      let g =
        give-Given items (from1 i items from to f) (to1 i items from to f)
          (rest-IsFair i items from to f) in
      record {
        giver = g.giver;
        taker = g.taker;
        lost = λ j. omega (arith, g.lost j, lost_first i items from to f j);
        won = λ j. omega (arith, g.won j, won_first i items from to f j);
      }

has_item-same :
    (c c' : Character) (j : ℕ) → c'.inventory ≡ c.inventory → has_item c' j true ≡ has_item c j true
has_item-same c c' j e = has_item-inventory c' j ∙ ap (amount_of j) e ∙ sym (has_item-inventory c j)

-- Where both have agreed and each offer can be handed over (it lists known items once each, the one
-- who gives carries them, and the other can carry them as well within `MaxItem`), each of the two
-- ends up with what it had, less what it has offered, and with what the other has offered; both are
-- out of the trade with nothing on offer.
pub swap-exchange :
    (w : World) (t : Traders)
    → IsAmount w.max_item
    → IsFair w t.you.trade_inventory t.you t.me
    → IsFair w t.me.trade_inventory t.me t.you
    → let t' = swap w t in
      ((j : ℕ)
        → has_item t'.me j true + amount_of j t.me.trade_inventory
          ≡ has_item t.me j true + amount_of j t.you.trade_inventory)
      × ((j : ℕ)
          → has_item t'.you j true + amount_of j t.you.trade_inventory
            ≡ has_item t.you j true + amount_of j t.me.trade_inventory)
      × (t'.me.trading ≡ false)
      × (t'.you.trading ≡ false)
      × (t'.me.trade_inventory ≡ [])
      × (t'.you.trade_inventory ≡ [])
unfolding swap
swap-exchange w t m yours mine =
    let first : Character × Character = give w t.you.trade_inventory t.you t.me in
    let g = give-Given w m t.you.trade_inventory t.you t.me yours in
    let f : IsFair w t.me.trade_inventory first.1 first.0 = record {
      listed = mine.listed;
      known = mine.known;
      giver = g.taker;
      taker = g.giver;
      carried = λ j. omega (arith, g.won j, mine.carried j);
      limit = λ j. omega (arith, g.lost j, mine.limit j);
    } in
    let second : Character × Character = give w t.me.trade_inventory first.1 first.0 in
    let h = give-Given w m t.me.trade_inventory first.1 first.0 f in
    (
      λ j. omega (arith, has_item-same second.0 (swap w t).me j refl, h.lost j, g.won j),
      λ j. omega (arith, has_item-same second.1 (swap w t).you j refl, h.won j, g.lost j),
      refl,
      refl,
      refl,
      refl,
    )
