-- ===== src/Handlers/Tests.antt =====
-- The handlers on sample characters.
use etheos.Base.{ℕ, ◌+◌, ◌-◌, ◌≤◌, ◌≡◌, refl, false, [], ◌∷◌, ◌⊎◌, arith, true}
use etheos.Character.Items.{has_item}
use etheos.Character.Items.Stock.{amount_of}
use etheos.Character.Samples.{
  world, hero, seller, buyer, hero-IsStock, bank-IsStock, seller_offer-IsStock, buyer_offer-IsStock,
  hero_gold, hero_stones, stored_stones, seller_carries, buyer_carries, seller_limit, buyer_limit,
}
use etheos.Handlers.Bank.{deposit, withdraw}
use etheos.Handlers.Bank.Gold.{total_gold, deposit-total_gold, withdraw-lost}
use etheos.Handlers.Locker.{store}
use etheos.Handlers.Locker.Storage.{owned, store-owned}
use etheos.Handlers.Trade.{Traders, swap}
use etheos.Maps.Chest.{chest_has_item}
use etheos.Maps.Chest.Samples.{chest, chest-IsChest}
use etheos.Handlers.Chest.{put_in_chests}
use etheos.Handlers.Chest.Contents.{laid, all_of, put_in_chests-all_of}
use etheos.Handlers.Trade.Swap.{IsFair, swap-exchange}

deposit-total_gold_example :
    (total_gold (deposit world 350 hero).0 ≡ total_gold hero)
    × (((deposit world 350 hero).0.goldbank ≡ 400) ⊎ ((deposit world 350 hero).0.goldbank ≤ 1000))
deposit-total_gold_example =
    deposit-total_gold world 350 hero hero-IsStock (omega arith, omega arith) refl (omega arith)
      (omega (arith, hero_gold))

withdraw-lost_example :
    ((withdraw world 350 hero).0.goldbank + 350 ≡ hero.goldbank)
    × (has_item (withdraw world 350 hero).0 1 true ≡ 500)
    × (total_gold (withdraw world 350 hero).0 + (has_item hero 1 true + 350 - 500)
        ≡ total_gold hero)
withdraw-lost_example =
    withdraw-lost world 350 hero hero-IsStock (omega arith, omega arith) refl refl (omega arith)
      (omega arith) (omega (arith, hero_gold)) (omega (arith, hero_gold)) (omega (arith, hero_gold))

store-owned_example : owned (store world 2 4 hero).0 2 ≡ owned hero 2
store-owned_example =
    store-owned world 2 4 hero hero-IsStock bank-IsStock (omega arith, omega arith)
      (omega arith, omega arith) (omega (arith, hero_stones)) (omega (arith, stored_stones)) 2

abbrev traders : Traders
traders = record { me = buyer; you = seller; linked = true }

seller-IsFair : IsFair world seller.trade_inventory seller buyer
seller-IsFair = record {
  listed = seller_offer-IsStock;
  known = (refl, tt);
  giver = hero-IsStock;
  taker = hero-IsStock;
  carried = seller_carries;
  limit = buyer_limit;
}

buyer-IsFair : IsFair world buyer.trade_inventory buyer seller
buyer-IsFair = record {
  listed = buyer_offer-IsStock;
  known = (refl, tt);
  giver = hero-IsStock;
  taker = hero-IsStock;
  carried = buyer_carries;
  limit = seller_limit;
}

swap-exchange_example :
    ((j : ℕ)
      → has_item (swap world traders).me j true + amount_of j buyer.trade_inventory
        ≡ has_item buyer j true + amount_of j seller.trade_inventory)
    × ((j : ℕ)
        → has_item (swap world traders).you j true + amount_of j seller.trade_inventory
          ≡ has_item seller j true + amount_of j buyer.trade_inventory)
    × ((swap world traders).me.trading ≡ false)
    × ((swap world traders).you.trading ≡ false)
    × ((swap world traders).me.trade_inventory ≡ [])
    × ((swap world traders).you.trade_inventory ≡ [])
swap-exchange_example =
    swap-exchange world traders (omega arith, omega arith) seller-IsFair buyer-IsFair

put_in_chests-all_of_example :
    all_of 2 (put_in_chests world 100 4 6 2 3 (chest ∷ []) hero)
    ≡ has_item hero 2 true + laid 2 (chest ∷ [])
put_in_chests-all_of_example =
    put_in_chests-all_of world 100 4 6 2 3 (chest ∷ []) hero hero-IsStock (chest-IsChest, tt) refl
      (omega arith) (omega arith) 2

chest_herbs : chest_has_item 3 chest ≡ 20
unfolding chest_has_item
chest_herbs = refl
