-- ===== src/Handlers/Trade/Agreement.antt =====
-- src/handlers/Trade.cpp: an agreement never outlives a change of the offers.
use etheos.Base.{ℕ, ◌≡◌, refl, false, not, inl, inr, ◌⊎◌, Bool-cases, ◌||◌, ◌&&◌, length, leb, ◌==◌}
use etheos.Character.{World}
use etheos.Character.Weight.{item_data}
use etheos.Character.Items.{add_trade_item}
use etheos.Handlers.Ids.{special_lore}
use etheos.Handlers.Trade.{Traders, offer, is_offered}

-- Nothing has changed, or neither of the two agrees.
abbrev pub IsUnchangedOrOpen : Traders → Traders → Type 0
IsUnchangedOrOpen t t' = (t' ≡ t) ⊎ ((t'.me.trade_agree ≡ false) × (t'.you.trade_agree ≡ false))

-- After `Trade_Add`, whatever it is called with, the trade is as before or neither of the two agrees
-- to it any more.
pub offer-IsUnchangedOrOpen :
    (w : World) (item amount : ℕ) (t : Traders) → IsUnchangedOrOpen t (offer w item amount t)
unfolding offer
offer-IsUnchangedOrOpen w item amount t =
    elim (Bool-cases (
      (item_data w item).special == special_lore
      || (not (is_offered item t.me.trade_inventory) && leb 10 (length t.me.trade_inventory)))) [
        | inl refused ↦ rw refused (inl refl)
        | inr allowed ↦ elim (Bool-cases (add_trade_item w item amount t.me).0) [
          | inl added ↦ rw (allowed, added) (inr (refl, refl))
          | inr failed ↦ rw (allowed, failed) (inl refl)
        ]
      ]
