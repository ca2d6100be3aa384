-- ===== src/Handlers/Trade.antt =====
-- src/handlers/Trade.cpp, for two characters that are each other's `trade_partner`. The packets sent,
-- the emote and the quest rules are left out.
pub mod Swap
pub mod Agreement
use etheos.Base.{
  ℕ, ◌≡◌, Bool, true, false, not, Option, none, some, List, [], ◌∷◌, ◌||◌, ◌&&◌, length, ltb, leb,
  ◌==◌, if◌then◌else◌,
}
use etheos.Packet.Reader.{Reader, Outcome, ok, ◌>>=◌, get_char, get_short, get_int}
use etheos.Character.{Item, Character, ItemData, World}
use etheos.Character.Weight.{item_data}
use etheos.Character.Items.{find_item, add_item, del_item, add_trade_item, del_trade_item}
use etheos.Handlers.Ids.{special_lore}

-- The character whose packet is handled, and its partner. `linked` says that they are each other's
-- `trade_partner`.
pub record Traders : Type 0 where
  pub me : Character
  pub you : Character
  pub linked : Bool

-- What both have agreed on no longer stands.
abbrev pub disagree : Traders → Traders
disagree t = record t {
  me = record t.me { trade_agree = false };
  you = record t.you { trade_agree = false };
}

unfoldable pub trade_remove : Traders → Reader → Outcome Traders
trade_remove t r = if not t.me.trading then ok t else do
  (item, r') ← get_short r
  let (removed, me') = del_trade_item item t.me
  ok (
      if ltb 5 (length t.me.trade_inventory)
      then t
      else if removed
      then disagree (record t { me = me' })
      else t)

-- The loops of `Trade_Agree` that hand over what one of the two offers.
unfoldable pub give : World → List Item → Character → Character → Character × Character
give w [] from to = (from, to)
give w (i ∷ items) from to =
    give w items (del_item w i.id i.amount from).1 (add_item w i.id i.amount to).1

-- Both are out of the trade.
abbrev pub part : Traders → Traders
part t = record {
  me = record t.me { trading = false; trade_inventory = []; trade_agree = false };
  you = record t.you { trading = false; trade_inventory = [] };
  linked = false;
}

-- `Trade_Agree` where both agree.
unfoldable pub swap : World → Traders → Traders
unfolding give
swap w t =
    let (you1, me1) = give w t.you.trade_inventory t.you t.me in
    let (me2, you2) = give w t.me.trade_inventory me1 you1 in
    part (record t { me = me2; you = you2 })

-- `Trade_Agree` from where the packet has been read.
unfoldable pub agree_to : World → ℕ → Traders → Traders
unfolding swap
agree_to w agree t =
    let t' = record t { me = record t.me { trade_agree = not (agree == 0) } } in
    if not (agree == 0) && not (length t.me.trade_inventory == 0) && t.you.trade_agree
    then swap w t'
    else t'

unfoldable pub trade_agree : World → Traders → Reader → Outcome Traders
unfolding agree_to
trade_agree w t r =
    if not t.me.trading then ok t else do (agree, r') ← get_char r; ok (agree_to w agree t)

unfoldable pub is_offered : ℕ → List Item → Bool
is_offered id [] = false
is_offered id (i ∷ items) = i.id == id || is_offered id items

-- `Trade_Add` from where the packet has been read.
unfoldable pub offer : World → ℕ → ℕ → Traders → Traders
unfolding is_offered
offer w item amount t =
    let (added, me') = add_trade_item w item amount t.me in
    if (item_data w item).special == special_lore
      || (not (is_offered item t.me.trade_inventory) && leb 10 (length t.me.trade_inventory))
    then t
    else if added
    then disagree (record t { me = me' })
    else t

unfoldable pub trade_add : World → Traders → Reader → Outcome Traders
unfolding offer
trade_add w t r =
    if not t.me.trading
    then ok t
    else do (item, r1) ← get_short r; (amount, r2) ← get_int r1; ok (offer w item amount t)

unfoldable pub trade_close : Traders → Reader → Outcome Traders
trade_close t r = if not t.me.trading then ok t else do (something, r') ← get_char r; ok (part t)
