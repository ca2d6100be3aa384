-- ===== src/Handlers/Bank.antt =====
-- src/handlers/Bank.cpp.
pub mod Gold
use etheos.Base.{ℕ, ◌%◌, ◌^◌, Bool, true, false, List, [], ◌∷◌, ◌||◌, ◌&&◌, ◌==◌, if◌then◌else◌}
use etheos.Base.Word.{add32, sub32, is_negative, lt32, min32}
use etheos.Packet.Reader.{Reader, Outcome, ok, ◌>>=◌, get_short, get_int}
use etheos.Packet.Builder.{Builder, new_builder, add_char, add_three, add_int}
use etheos.Character.{Character, World}
use etheos.Character.Items.{is_none, has_item, add_item, del_item}
use etheos.Handlers.Ids.{packet_bank, packet_reply, packet_open, npc_bank, gold}

-- An NPC of the character's map: its index, and the type in its `ENF_Data`.
pub record Npc : Type 0 where
  pub index : ℕ
  pub kind : ℕ

-- The loop of `Bank_Open`, which the first banker with the index ends.
unfoldable pub open_banker : List Npc → ℕ → Character → Character × List Builder
open_banker [] id c = (c, [])
open_banker (n ∷ npcs) id c =
    let rest = open_banker npcs id c in
    if n.index == id && n.kind == npc_bank
    then (
      record c { npc = n.index; npc_type = npc_bank },
      add_char (c.bankmax % 2 ^ 8)
            (add_three 0 (add_int c.goldbank (new_builder packet_bank packet_open)))
          ∷ [],
    )
    else rest

unfoldable pub bank_open : List Npc → Character → Reader → Outcome (Character × List Builder)
unfolding open_banker
bank_open npcs c r = do (id, r') ← get_short r; ok (open_banker npcs id c)

unfoldable pub gold_reply : Character → Builder
gold_reply c =
    add_int c.goldbank (add_int (has_item c gold false) (new_builder packet_bank packet_reply))

-- `Bank_Add` from where the amount has been read.
unfoldable pub deposit : World → ℕ → Character → Character × List Builder
unfolding gold_reply
deposit w wanted c =
    let amount : ℕ = min32 wanted (has_item c gold false) in
    let newgold : ℕ = add32 c.goldbank amount in
    let after = record ((del_item w gold amount c).1) { goldbank = newgold } in
    if is_none wanted
    then (c, [])
    else if c.npc_type == npc_bank
    then if lt32 newgold c.goldbank || lt32 w.max_bank_gold newgold
      then (c, [])
      else (after, gold_reply after ∷ [])
    else (c, [])

unfoldable pub bank_add : World → Character → Reader → Outcome (Character × List Builder)
unfolding deposit
bank_add w c r =
    if c.trading then ok (c, []) else do (amount, r') ← get_int r; ok (deposit w amount c)

-- `Bank_Take` from where the amount has been read.
unfoldable pub withdraw : World → ℕ → Character → Character × List Builder
unfolding gold_reply
withdraw w amount c =
    let newgold : ℕ = sub32 c.goldbank amount in
    let after = (add_item w gold amount (record c { goldbank = newgold })).1 in
    if is_none amount
    then (c, [])
    else if c.npc_type == npc_bank
    then if lt32 c.goldbank newgold || is_negative newgold
      then (c, [])
      else (after, gold_reply after ∷ [])
    else (c, [])

unfoldable pub bank_take : World → Character → Reader → Outcome (Character × List Builder)
unfolding withdraw
bank_take w c r = do (amount, r') ← get_int r; ok (withdraw w amount c)
