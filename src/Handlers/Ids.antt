-- ===== src/Handlers/Ids.antt =====
-- src/fwd/packet.hpp and src/eodata.hpp: the families, actions and types that the handlers name.
use etheos.Base.{ℕ, ◌-◌, ◌^◌}

abbrev pub packet_bank : ℕ
packet_bank = 36

abbrev pub packet_reply : ℕ
packet_reply = 3

abbrev pub packet_open : ℕ
packet_open = 13

-- `ENF::Bank`.
abbrev pub npc_bank : ℕ
npc_bank = 9

-- The id of gold.
abbrev pub gold : ℕ
gold = 1

abbrev pub packet_locker : ℕ
packet_locker = 37

abbrev pub packet_buy : ℕ
packet_buy = 11

abbrev pub packet_spec : ℕ
packet_spec = 16

abbrev pub packet_get : ℕ
packet_get = 27

-- `Map_Tile::BankVault`; `no_spec` stands for `Map_Tile::None`, which is -1.
abbrev pub bank_vault : ℕ
bank_vault = 16

abbrev pub no_spec : ℕ
no_spec = 2 ^ 32 - 1

-- `EIF::Lore`.
abbrev pub special_lore : ℕ
special_lore = 4

abbrev pub packet_chest : ℕ
packet_chest = 33

abbrev pub packet_agree : ℕ
packet_agree = 5

-- `Map_Tile::Chest`.
abbrev pub chest_tile : ℕ
chest_tile = 9

abbrev pub packet_shop : ℕ
packet_shop = 13

abbrev pub packet_create : ℕ
packet_create = 6

abbrev pub packet_sell : ℕ
packet_sell = 12

-- `ENF::Shop`.
abbrev pub npc_shop : ℕ
npc_shop = 6

abbrev pub packet_item : ℕ
packet_item = 14

abbrev pub packet_drop : ℕ
packet_drop = 24

abbrev pub packet_junk : ℕ
packet_junk = 25

abbrev pub packet_door : ℕ
packet_door = 34

abbrev pub packet_close : ℕ
packet_close = 14
