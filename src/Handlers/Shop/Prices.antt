-- ===== src/Handlers/Shop/Prices.antt =====
-- src/handlers/Shop.cpp: what is paid and got at a shop.
use mathlib.Core.List.{Mem, mem-cons_self, mem-cons_of_mem}
use etheos.Base.{
  ℕ, ◌+◌, ◌-◌, ◌*◌, ◌^◌, ◌≤◌, ◌<◌, ◌≡◌, ◌≢◌, ◌⊎◌, refl, sym, ◌∙◌, true, false, List, [], ◌∷◌, arith,
  inl, inr, Bool-cases, ◌==◌, ne→==, if◌then◌else◌, ◌&&◌, not,
}
use etheos.Base.Word.{sub32, lt32}
use etheos.Character.{Character, World}
use etheos.Character.Items.{is_unknown, has_item, add_item, del_item}
use etheos.Character.Items.Stock.{IsAmount, IsStock}
use etheos.Character.Items.Offers.{has_item_lt}
use etheos.Character.Items.Contents.{stacked, add_item-contents, del_item-IsStock}
use etheos.Character.Items.Moves.{has_item-del_item, has_item-add_within, has_item-not_trading}
use etheos.Handlers.Ids.{gold}
use etheos.Handlers.Shop.{TradeItem, same_id, is_refused, buy_one, buy_from, sell_one, sell_to}

-- One item is given up and another, a different one, got.
abbrev pub Exchanged : ℕ → ℕ → ℕ → ℕ → Character → Character → Type 0
Exchanged given paid got now c c' =
    (has_item c' given true + paid ≡ has_item c given true)
    × (has_item c' got true ≡ now)
    × ((j : ℕ) → j ≢ given → j ≢ got → has_item c' j true ≡ has_item c j true)

-- What is left of one item and then got of another.
exchange :
    (given got paid now : ℕ) (before mid after : ℕ → ℕ)
    → given ≢ got
    → paid ≤ before given
    → ((j : ℕ) → mid j ≡ (if given == j then before given - paid else before j))
    → ((j : ℕ) → after j ≡ (if got == j then now else mid j))
    → (after given + paid ≡ before given)
      × (after got ≡ now)
      × ((j : ℕ) → j ≢ given → j ≢ got → after j ≡ before j)
exchange given got paid now before mid after apart le m a = (
  ground (arith, m given, a given),
  ground (arith, a got),
  λ j away off.
      ground (arith, m j, a j, ne→== given j (λ e. away (sym e)), ne→== got j (λ e. off (sym e))),
)

module _ (w : World) (item amount : ℕ) (c : Character) (s : IsStock c.inventory)
    (free : c.trading ≡ false) (m : IsAmount w.max_item) (p : IsAmount amount)
    (other : item ≢ gold) where
  buy_one-Exchanged :
      (cost : ℕ)
      → is_unknown w item ≡ false
      → has_item c item true + amount < 2 ^ 31
      → cost < 2 ^ 31
      → ((buy_one w item amount cost c).0 ≡ c)
        ⊎ Exchanged gold cost item
            (stacked w (has_item c item true) amount)
            c
            (buy_one w item amount cost c).0
  unfolding buy_one
  buy_one-Exchanged cost known fits small = elim (Bool-cases (lt32 (has_item c gold false) cost)) [
    | inl poor ↦ rw poor (inl refl)
    | inr rich ↦
        let c1 = (del_item w gold cost c).1 in
        let s1 : IsStock c1.inventory = del_item-IsStock w gold cost c s in
        let paid = has_item-del_item w gold cost c s small in
        let enough : cost ≤ has_item c gold true =
          ground (arith, has_item-not_trading c gold free, has_item_lt c gold s) in
        let apart : (gold == item) ≡ false = ne→== gold item (λ e. other (sym e)) in
        let same : has_item c1 item true ≡ has_item c item true = paid item ∙ rw apart in
        let added = (add_item-contents w item amount c1 m s1 known p.0 (omega (arith, same))).1 in
        rw rich (
          inr (
            exchange gold item cost (stacked w (has_item c item true) amount)
              (λ j. has_item c j true) (λ j. has_item c1 j true)
              (λ j. has_item (add_item w item amount c1).1 j true) (λ e. other (sym e)) enough paid
              (λ j. added j ∙ rw same)))
  ]

  sell_one-Exchanged :
      (owed : ℕ)
      → is_unknown w gold ≡ false
      → has_item c gold true + owed ≤ w.max_item
      → ((sell_one w item amount owed c).0 ≡ c)
        ⊎ Exchanged item amount gold
            (has_item c gold true + owed)
            c
            (sell_one w item amount owed c).0
  unfolding sell_one
  sell_one-Exchanged owed known limit = elim (Bool-cases (lt32 (has_item c item false) amount)) [
    | inl few ↦ rw few (inl refl)
    | inr enough ↦
        let c1 = (del_item w item amount c).1 in
        let s1 : IsStock c1.inventory = del_item-IsStock w item amount c s in
        let paid = has_item-del_item w item amount c s p.1 in
        let le : amount ≤ has_item c item true =
          ground (arith, has_item-not_trading c item free, has_item_lt c item s) in
        let same : has_item c1 gold true ≡ has_item c gold true =
          paid gold ∙ rw (ne→== item gold other) in
        let added = has_item-add_within w gold owed c1 s1 m known (omega (arith, same, limit)) in
        rw enough (
          inr (
            exchange item gold amount (has_item c gold true + owed) (λ j. has_item c j true)
              (λ j. has_item c1 j true) (λ j. has_item (add_item w gold owed c1).1 j true) other le
              paid (λ j. added j ∙ rw same)))
  ]

  -- `Shop_Buy` of an amount above 0 of a known item other than gold changes nothing, or there is a
  -- price on the list at which the character has paid for the whole amount in gold and got it,
  -- where what is carried is limited to `MaxItem` if there was some before; nothing else changes.
  -- (The inventory holds each id once, the character is not trading, and no `int` overflows.)
  pub buy_from-Exchanged :
      (trade : List TradeItem)
      → is_unknown w item ≡ false
      → has_item c item true + amount < 2 ^ 31
      → ((buy_from w trade item amount c).0 ≡ c)
        ⊎ ((t : TradeItem) × Mem t trade
            × (t.id ≡ item)
            × Exchanged gold
                (amount * t.buy)
                item
                (stacked w (has_item c item true) amount)
                c
                (buy_from w trade item amount c).0)
  unfolding buy_from
  buy_from-Exchanged [] known fits = inl refl
  buy_from-Exchanged (t ∷ ts) known fits =
      elim (Bool-cases (same_id t.id item && not (t.buy == 0))) [
        | inr no_match ↦
            rw (buy_from, no_match)
              (elim (buy_from-Exchanged ts known fits) [
                | inl e ↦ inl e
                | inr (u, listed, p, q) ↦ inr (u, mem-cons_of_mem t listed, p, q)
              ])
        | inl listed ↦ elim (Bool-cases (is_refused w.max_item amount t.buy)) [
          | inl refused ↦ rw (buy_from, listed, refused) (inl refl)
          | inr allowed ↦
              let cost : amount * t.buy < 2 ^ 31 = ground arith in
              let same : t.id ≡ item = ground arith in
              rw (buy_from, listed, allowed)
                (elim (buy_one-Exchanged (amount * t.buy) known fits cost) [
                  | inl unchanged ↦ inl unchanged
                  | inr done ↦ inr (t, mem-cons_self, same, done)
                ])
        ]
      ]

  -- `Shop_Sell` of an amount above 0 of an item other than gold changes nothing, or there is a price
  -- on the list at which the character has given the whole amount and got all the gold for it;
  -- nothing else changes. No gold is lost above `MaxItem`. (The inventory holds each id once, the
  -- character is not trading, and gold is a known item.)
  pub sell_to-Exchanged :
      (trade : List TradeItem)
      → is_unknown w gold ≡ false
      → ((sell_to w trade item amount c).0 ≡ c)
        ⊎ ((t : TradeItem) × Mem t trade
            × (t.id ≡ item)
            × Exchanged item amount gold
                (has_item c gold true + amount * t.sell)
                c
                (sell_to w trade item amount c).0)
  unfolding sell_to
  sell_to-Exchanged [] known = inl refl
  sell_to-Exchanged (t ∷ ts) known = elim (Bool-cases (same_id t.id item && not (t.sell == 0))) [
    | inr no_match ↦
        rw (sell_to, no_match)
          (elim (sell_to-Exchanged ts known) [
            | inl e ↦ inl e
            | inr (u, listed, p, q) ↦ inr (u, mem-cons_of_mem t listed, p, q)
          ])
    | inl listed ↦
        elim (Bool-cases (is_refused (sub32 w.max_item (has_item c gold false)) amount t.sell)) [
          | inl refused ↦ rw (sell_to, listed, refused) (inl refl)
          | inr allowed ↦
              let limit : has_item c gold true + amount * t.sell ≤ w.max_item =
                ground (arith, has_item-not_trading c gold free, has_item_lt c gold s) in
              let same : t.id ≡ item = ground arith in
              rw (sell_to, listed, allowed)
                (elim (sell_one-Exchanged (amount * t.sell) known limit) [
                  | inl unchanged ↦ inl unchanged
                  | inr done ↦ inr (t, mem-cons_self, same, done)
                ])
        ]
  ]
