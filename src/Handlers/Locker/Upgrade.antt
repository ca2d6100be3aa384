-- ===== src/Handlers/Locker/Upgrade.antt =====
-- src/handlers/Locker.cpp, `Locker_Buy`.
use etheos.Base.{
  ℕ, ◌+◌, ◌*◌, ◌%◌, ◌^◌, ◌<◌, ◌≡◌, refl, true, false, not, arith, inl, inr, ◌⊎◌, Bool-cases, ◌||◌,
  ◌==◌,
}
use etheos.Base.Word.{add32, lt32, le32}
use etheos.Character.{Character, World}
use etheos.Character.Weight.{calculate_stats}
use etheos.Character.Items.{has_item, del_item}
use etheos.Character.Items.Stock.{IsStock}
use etheos.Character.Items.Moves.{has_item-del_item, has_item-not_trading}
use etheos.Handlers.Ids.{npc_bank, gold}
use etheos.Handlers.Locker.{locker_buy}

-- The price of the next upgrade.
abbrev pub upgrade_cost : World → Character → ℕ
upgrade_cost w c = add32 w.bank_upgrade_base ((c.bankmax * w.bank_upgrade_step) % 2 ^ 32)

bankmax-del_item :
    (w : World) (id amount : ℕ) (c : Character) → (del_item w id amount c).1.bankmax ≡ c.bankmax
unfolding del_item calculate_stats
bankmax-del_item w id amount c = ground arith

has_item-bankmax :
    (c : Character) (j n : ℕ) → has_item (record c { bankmax = n }) j true ≡ has_item c j true
unfolding has_item
has_item-bankmax c j n = refl

-- `Locker_Buy` changes nothing, or the character has one upgrade more, had fewer than the settings
-- allow, and has paid the price in gold. (The inventory holds each id once, and neither the price
-- nor the gold carried is negative as an `int`.)
pub locker_buy-paid :
    (w : World) (c : Character)
    → IsStock c.inventory
    → upgrade_cost w c < 2 ^ 31
    → has_item c gold true < 2 ^ 31
    → let c' = (locker_buy w c).0 in
      (c' ≡ c)
      ⊎ ((c'.bankmax ≡ add32 c.bankmax 1)
          × (lt32 c.bankmax w.max_bank_upgrades ≡ true)
          × (has_item c' gold true + upgrade_cost w c ≡ has_item c gold true))
unfolding locker_buy
locker_buy-paid w c s h g =
    let cost : ℕ = upgrade_cost w c in
    elim (Bool-cases (
      c.trading
      || not (c.npc_type == npc_bank)
      || le32 w.max_bank_upgrades c.bankmax
      || lt32 (has_item c gold false) cost)) [
        | inl refused ↦ rw refused (inl refl)
        | inr allowed ↦
            let open_trade : c.trading ≡ false = ground arith in
            let same = has_item-not_trading c gold open_trade in
            let paid =
              has_item-del_item w gold cost (record c { bankmax = add32 c.bankmax 1 }) s h gold in
            rw allowed (
              inr (
                bankmax-del_item w gold cost (record c { bankmax = add32 c.bankmax 1 }),
                ground arith,
                ground (arith, paid, same, has_item-bankmax c gold (add32 c.bankmax 1)),
              ))
      ]
