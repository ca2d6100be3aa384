-- ===== src/Packet/Number.antt =====
-- src/packet.cpp, `PacketProcessor::Number` and `PacketProcessor::ENumber`: numbers in base 253,
-- least digit first, a byte a digit.
pub mod Roundtrip
use etheos.Base.{
  ℕ, ◌+◌, ◌-◌, ◌*◌, ◌/◌, ◌%◌, ◌^◌, ◌<◌, Bool, List, [], ◌∷◌, ltb, leb, ◌==◌, if◌then◌else◌,
}

-- The limits of one, two and three digits (`MAX1`, `MAX2`, `MAX3`); `max4` is that of four.
abbrev pub max1 : ℕ
max1 = 253

abbrev pub max2 : ℕ
max2 = 64009

abbrev pub max3 : ℕ
max3 = 16194277

abbrev pub max4 : ℕ
max4 = 4097152081

-- `std::array<unsigned char, 4>`.
pub record Bytes4 : Type 0 where
  pub b1 : ℕ
  pub b2 : ℕ
  pub b3 : ℕ
  pub b4 : ℕ

abbrev pub to_list : Bytes4 → List ℕ
to_list b = b.b1 ∷ b.b2 ∷ b.b3 ∷ b.b4 ∷ []

-- One digit: 254 stands for none, 0 reads as 128, and each byte is one more than its digit.
unfoldable pub digit : ℕ → ℕ
digit b =
    let filled : ℕ = if b == 254 then 1 else b in
    let nonzero : ℕ = if filled == 0 then 128 else filled in nonzero - 1

-- `PacketProcessor::Number`, in `unsigned int`.
unfoldable pub number : ℕ → ℕ → ℕ → ℕ → ℕ
number b1 b2 b3 b4 = (digit b4 * max3 + digit b3 * max2 + digit b2 * max1 + digit b1) % 2 ^ 32

-- `PacketProcessor::ENumber`: a digit's byte is written only where the number reaches it.
unfoldable pub e_number : ℕ → Bytes4
e_number n =
    let below3 : ℕ = if leb max3 n then n % max3 else n in
    let below2 : ℕ = if leb max2 n then below3 % max2 else below3 in
    let below1 : ℕ = if leb max1 n then below2 % max1 else below2 in
    record {
      b1 = (below1 + 1) % 256;
      b2 = if leb max1 n then (below2 / max1 + 1) % 256 else 254;
      b3 = if leb max2 n then (below3 / max2 + 1) % 256 else 254;
      b4 = if leb max3 n then (n / max3 + 1) % 256 else 254;
    }

-- The loop at the end of `ENumber` that sets its output `size`.
unfoldable pub e_number_size : Bytes4 → ℕ
e_number_size b = if ltb 0 b.b4 then 4 else if ltb 0 b.b3 then 3 else if ltb 0 b.b2 then 2 else 1
