-- ===== src/Packet/Number/Roundtrip.antt =====
-- src/packet.cpp, `Number` after `ENumber`, and what bytes the encoder writes.
use etheos.Base.{ℕ, ◌+◌, ◌/◌, ◌%◌, ◌≤◌, ◌<◌, ◌≡◌, refl, arith}
use etheos.Packet.Number.{max1, max2, max3, max4, digit, number, e_number, e_number_size}

abbrev pub IsByteDigit : ℕ → Type 0
IsByteDigit b = (0 < b) × (b ≤ 254)

digit_of_byte : (d : ℕ) → d < 253 → digit ((d + 1) % 256) ≡ d
unfolding digit
digit_of_byte d h = ground arith

digit_of_filler : digit 254 ≡ 0
unfolding digit
digit_of_filler = refl

-- Decoding the four bytes of an encoded number below 253 ^ 4 gives the number back.
pub number-e_number : (n : ℕ) → n < max4 → let b = e_number n in number b.b1 b.b2 b.b3 b.b4 ≡ n
unfolding number e_number
number-e_number n h = ground (
  arith,
  digit_of_byte (n / max3),
  digit_of_byte (n % max3 / max2),
  digit_of_byte (n % max3 % max2 / max1),
  digit_of_byte (n % max3 % max2 % max1),
  digit_of_byte (n / max2),
  digit_of_byte (n % max2 / max1),
  digit_of_byte (n % max2 % max1),
  digit_of_byte (n / max1),
  digit_of_byte (n % max1),
  digit_of_byte n,
  digit_of_filler,
)

-- Each byte of an encoded number below 253 ^ 4 is a digit's byte or the filler: neither 0 nor the
-- separator 255.
pub e_number_bytes :
    (n : ℕ)
    → n < max4
    → let b = e_number n in
      (IsByteDigit b.b1 × IsByteDigit b.b2 × IsByteDigit b.b3 × IsByteDigit b.b4)
unfolding e_number
e_number_bytes n h = ground arith

-- The first byte of an encoded number below 253, the first two of one below 253 ^ 2 and the first
-- three of one below 253 ^ 3 decode, with fillers behind them, to the number.
pub number-e_number_short :
    (n : ℕ)
    → let b = e_number n in
      (n < max1 → number b.b1 254 254 254 ≡ n)
      × (n < max2 → number b.b1 b.b2 254 254 ≡ n)
      × (n < max3 → number b.b1 b.b2 b.b3 254 ≡ n)
unfolding number e_number digit
number-e_number_short n = ground arith

-- `size` is 4 for every number below 253 ^ 4, since the bytes that are left out are fillers too.
pub e_number_size_four : (n : ℕ) → n < max4 → e_number_size (e_number n) ≡ 4
unfolding e_number_size e_number
e_number_size_four n h = ground arith
