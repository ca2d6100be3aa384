-- ===== src/Base/Bits.antt =====
-- Facts about the bit operations: a finite table over the bytes, and a disjoint `or`.
use Prim.Native.Nat.{
  ℕ, zero, suc, ◌+◌, ◌-◌, ◌*◌, ◌/◌, ◌%◌, ◌^◌, ◌≤◌, ◌<◌, min, max, bit_and, bit_or, digits,
  bit_and-bitwise, bit_or-bitwise,
}
use mathlib.Core.Path.{◌≡◌, refl, sym, ap, ◌∙◌}
use mathlib.Core.Bool.{Bool, true, ◌&&◌}
use native.Mathlib.Omega.{arith}
use native.Mathlib.Nat.{
  pow-suc, pow-zero, zero-mod, mod-lt, mod-eq_of_lt, mul-add-mod_self_left, div-add-mod, mul_assoc,
}

-- Over a small range every value is checked by evaluation.
unfoldable pub byte_table : (ℕ → Bool) → ℕ → Bool
byte_table test zero = true
byte_table test (suc n) = test n && byte_table test n

pub byte_entry : (test : ℕ → Bool) (i n : ℕ) → i < n → byte_table test n ≡ true → test i ≡ true
unfolding byte_table
byte_entry test i zero below e = absurd (omega arith)
byte_entry test i (suc n) below e = ground (arith, byte_entry test i n)

abbrev or_digits : ℕ → ℕ → ℕ → ℕ
or_digits n a b = digits (λ b. b) max n a b

-- A number below 2 ^ k shares no digit with a multiple of 2 ^ k.
or_digits_disjoint : (k n a c : ℕ) → a < 2 ^ k → a ≤ n → or_digits n a (c * 2 ^ k) ≡ a + c * 2 ^ k
or_digits_disjoint k zero zero c h l = omega arith
or_digits_disjoint k (suc n) zero c h l = omega arith
or_digits_disjoint k zero (suc a) c h l = absurd (omega arith)
or_digits_disjoint zero (suc n) (suc a) c h l = absurd (omega arith)
or_digits_disjoint (suc k) (suc n) (suc a) c h l =
    let double : 2 ^ suc k ≡ 2 * 2 ^ k = omega (arith, pow-suc 2 k) in
    let multiple : c * 2 ^ suc k ≡ 2 * (c * 2 ^ k) = omega (arith, ap (λ (t : ℕ). c * t) double) in
    let half : c * 2 ^ suc k / 2 ≡ c * 2 ^ k = omega (arith, multiple) in
    rw half (
      omega (
        arith,
        multiple,
        or_digits_disjoint k n (suc a / 2) c (omega (arith, double)) (omega arith),
      ))

-- `a | (c << k)` is a sum where `a` has at most `k` digits.
pub bit_or_disjoint : (k a c : ℕ) → a < 2 ^ k → bit_or a (c * 2 ^ k) ≡ a + c * 2 ^ k
bit_or_disjoint k a c h = bit_or-bitwise a (c * 2 ^ k) ∙ or_digits_disjoint k a a c h (omega arith)

abbrev low_digits : ℕ → ℕ → ℕ → ℕ
low_digits n a b = digits (λ b. zero) min n a b

pow_pos : (k : ℕ) → 0 < 2 ^ k
pow_pos zero = omega (arith, pow-zero 2)
pow_pos (suc k) = omega (arith, pow-suc 2 k, pow_pos k)

double_mod : (a m : ℕ) → 0 < m → a % (2 * m) ≡ 2 * (a / 2 % m) + a % 2
double_mod a m h =
    let q = a / 2 / m in
    let c = 2 * (a / 2 % m) + a % 2 in
    let e : a ≡ 2 * m * q + c = omega (arith, div-add-mod (a / 2) m, mul_assoc 2 m q) in
    let small : c < 2 * m = omega (arith, mod-lt (a / 2) h) in
    ap (λ n. n % (2 * m)) e ∙ mul-add-mod_self_left (2 * m) q c ∙ mod-eq_of_lt small

low_digits-zero : (n a : ℕ) → low_digits n a 0 ≡ 0
low_digits-zero zero zero = refl
low_digits-zero zero (suc a) = refl
low_digits-zero (suc n) zero = refl
low_digits-zero (suc n) (suc a) = omega (arith, low_digits-zero n (suc a / 2))

low_digits_mod : (k n a : ℕ) → a ≤ n → low_digits n a (2 ^ k - 1) ≡ a % 2 ^ k
low_digits_mod k zero zero l = sym (zero-mod (2 ^ k))
low_digits_mod k zero (suc a) l = absurd (omega arith)
low_digits_mod k (suc n) zero l = sym (zero-mod (2 ^ k))
low_digits_mod zero (suc n) (suc a) l = omega (arith, low_digits-zero n (suc a / 2))
low_digits_mod (suc k) (suc n) (suc a) l =
    let double : 2 ^ suc k ≡ 2 * 2 ^ k = omega (arith, pow-suc 2 k) in
    let half : (2 ^ suc k - 1) / 2 ≡ 2 ^ k - 1 = omega (arith, double, pow_pos k) in
    let odd : (2 ^ suc k - 1) % 2 ≡ 1 = omega (arith, double, pow_pos k) in
    rw
      (
        half,
        odd,
        double,
        low_digits_mod k n (suc a / 2) (omega arith),
        double_mod (suc a) (2 ^ k) (pow_pos k),
      )
      (omega arith)

-- Masking by `2 ^ k - 1` is the remainder by `2 ^ k`.
pub bit_and_mask : (k a : ℕ) → bit_and a (2 ^ k - 1) ≡ a % 2 ^ k
bit_and_mask k a = bit_and-bitwise a (2 ^ k - 1) ∙ low_digits_mod k a a (omega arith)
