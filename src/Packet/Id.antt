-- ===== src/Packet/Id.antt =====
-- src/packet.cpp, `PacketProcessor::PID` and `EPID`: a packet's id packs its action over its family.
use Prim.Native.Nat.{bit_or}
use etheos.Base.{ℕ, ◌*◌, ◌/◌, ◌%◌, ◌^◌, ◌<◌, ◌≡◌, arith}
use etheos.Base.Bits.{bit_or_disjoint}

-- `PACKET_F_INIT` and `PACKET_A_INIT`.
abbrev pub f_init : ℕ
f_init = 255

abbrev pub a_init : ℕ
a_init = 255

-- `family | (action << 8)`, as `unsigned short`.
unfoldable pub pid : ℕ → ℕ → ℕ
pid family action = bit_or family (action * 2 ^ 8) % 2 ^ 16

-- The action's byte, then the family's.
unfoldable pub epid : ℕ → ℕ × ℕ
epid id = (id / 2 ^ 8 % 256, id % 256)

-- Splitting the id packed of a family and an action, each a byte, gives the action and the family
-- back.
pub epid-pid :
    (family action : ℕ) → family < 256 → action < 256 → epid (pid family action) ≡ (action, family)
unfolding epid pid
epid-pid family action hf ha = ground (arith, bit_or_disjoint 8 family action hf)
