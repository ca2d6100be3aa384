-- ===== src/Character/Samples.antt =====
-- A world and two characters for the tests.
use etheos.Base.{replicate, ℕ, ◌+◌, ◌≤◌, ◌≡◌, refl, true, false, [], ◌∷◌, arith}
use etheos.Character.{Character, ItemData, World}
use etheos.Character.Items.{find_item, has_item}
use etheos.Character.Items.Stock.{IsStock, amount_of}

abbrev nothing : ItemData
nothing = record { id = 0; weight = 0; special = 0 }

abbrev pub world : World
world = record {
  eif =
      nothing
      ∷ record { id = 1; weight = 0; special = 0 }
      ∷ record { id = 2; weight = 3; special = 0 }
      ∷ record { id = 3; weight = 1; special = 0 }
      ∷ [];
  blank = nothing;
  formula_weight = λ c. 90;
  unlimited_weight = 4;
  enforce_weight = 2;
  max_item = 500;
  max_trade = 500;
  trade_add_quantity = true;
  max_bank_gold = 1000;
  max_bank = 200;
  base_bank_size = 25;
  bank_size_step = 5;
  bank_upgrade_base = 100;
  bank_upgrade_step = 100;
  max_bank_upgrades = 7;
}

abbrev pub hero : Character
hero = record {
  inventory = record { id = 1; amount = 300 } ∷ record { id = 2; amount = 5 } ∷ [];
  paperdoll = 3 ∷ replicate 14 0;
  bank = record { id = 3; amount = 20 } ∷ [];
  goldbank = 400;
  bankmax = 1;
  weight = 16;
  maxweight = 90;
  admin = 0;
  x = 4;
  y = 5;
  npc = 2;
  npc_type = 9;
  trading = false;
  trade_agree = false;
  trade_inventory = [];
}

abbrev pub seller : Character
seller = record hero {
  trading = true;
  trade_agree = true;
  trade_inventory = record { id = 2; amount = 4 } ∷ [];
}

abbrev pub buyer : Character
buyer = record hero { trading = true; trade_inventory = record { id = 1; amount = 60 } ∷ [] }

pub hero-IsStock : IsStock hero.inventory
unfolding find_item
hero-IsStock = ((omega arith, omega arith), refl, ((omega arith, omega arith), refl, tt))

pub bank-IsStock : IsStock hero.bank
unfolding find_item
bank-IsStock = ((omega arith, omega arith), refl, tt)

pub seller_offer-IsStock : IsStock seller.trade_inventory
unfolding find_item
seller_offer-IsStock = ((omega arith, omega arith), refl, tt)

pub buyer_offer-IsStock : IsStock buyer.trade_inventory
unfolding find_item
buyer_offer-IsStock = ((omega arith, omega arith), refl, tt)

pub hero_gold : has_item hero 1 true ≡ 300
unfolding has_item find_item
hero_gold = refl

pub hero_stones : has_item hero 2 true ≡ 5
unfolding has_item find_item
hero_stones = refl

pub hero_herbs : has_item hero 3 true ≡ 0
unfolding has_item find_item
hero_herbs = refl

pub stored_herbs : amount_of 3 hero.bank ≡ 20
unfolding find_item
stored_herbs = refl

pub stored_stones : amount_of 2 hero.bank ≡ 0
unfolding find_item
stored_stones = refl

pub seller-IsCovered : (j : ℕ) → amount_of j seller.trade_inventory ≤ amount_of j seller.inventory
unfolding find_item
seller-IsCovered j = ground arith

pub seller_carries : (j : ℕ) → amount_of j seller.trade_inventory ≤ has_item seller j true
unfolding find_item has_item
seller_carries j = ground arith

pub buyer_carries : (j : ℕ) → amount_of j buyer.trade_inventory ≤ has_item buyer j true
unfolding find_item has_item
buyer_carries j = ground arith

pub seller_limit : (j : ℕ) → has_item seller j true + amount_of j buyer.trade_inventory ≤ 500
unfolding find_item has_item
seller_limit j = ground arith

pub buyer_limit : (j : ℕ) → has_item buyer j true + amount_of j seller.trade_inventory ≤ 500
unfolding find_item has_item
buyer_limit j = ground arith
