-- ===== src/Eoplus/Lex/Operators.antt =====
-- src/fwd/eoplus.hpp: the code that `UOP2` gives to an operator.
use etheos.Base.{ℕ, ◌+◌, ◌-◌, ◌*◌, ◌%◌, ◌≡◌, sym, ap, ◌∙◌, true, ◌==◌, ◌||◌, if◌then◌else◌, arith}
use etheos.Eoplus.Lex.{uop2, check_op}

-- The second character from the code of the pair.
second_of : ℕ → ℕ
second_of code =
    if code == 158
    then b'&'
    else if code == 76
    then b'|'
    else if code == 21
    then 2
    else if code == 16 || code == 17 || code == 18 || code == 245
    then b'='
    else 0

second_of-uop2 : (a b : ℕ) → check_op a b ≡ true → second_of (uop2 a b) ≡ b
unfolding check_op uop2 second_of
second_of-uop2 a b h = ground arith

check_op_first : (a b : ℕ) → check_op a b ≡ true → (32 + (uop2 a b + 256 * 4 - b * 4)) % 256 ≡ a
unfolding check_op uop2
check_op_first a b h = ground arith

-- `UOP2` gives different codes to different operators, for all pairs of characters that `check_op`
-- lets through.
pub uop2_injective :
    (a b c d : ℕ)
    → check_op a b ≡ true
    → check_op c d ≡ true
    → uop2 a b ≡ uop2 c d
    → (a ≡ c) × (b ≡ d)
uop2_injective a b c d h k e =
    let second : b ≡ d = sym (second_of-uop2 a b h) ∙ ap second_of e ∙ second_of-uop2 c d k in
    (
      sym (check_op_first a b h)
          ∙ (λ i. (32 + (e i + 256 * 4 - second i * 4)) % 256)
          ∙ check_op_first c d k,
      second,
    )
