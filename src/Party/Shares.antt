-- ===== src/Party/Shares.antt =====
-- src/party.cpp, `ShareEXP`: the shares add up.
use native.Mathlib.Nat.{
  div-mul-le_self, lt-div-mul-add, mul-le-mul_left, mul-one, le_of_mul-le-mul_right,
  lt_of_mul-lt-mul_right, add-mul,
}
use etheos.Base.{
  ℕ, ◌+◌, ◌-◌, ◌*◌, ◌^◌, ◌≤◌, ◌<◌, ◌≡◌, ◌⊎◌, refl, sym, subst, true, false, List, [], ◌∷◌, arith,
  inl, inr, Bool-cases, ◌==◌, if◌then◌else◌, All,
}
use etheos.Base.Word.{add32}
use etheos.Party.{
  Member, Levels, takes_part, counted_level, sum_level, count_members, ceil_div, reward_of,
  give_reward, share_loop, share_exp,
}

ceil_div_bounds : (a b : ℕ) → 0 < b → (a ≤ ceil_div a b * b) × (ceil_div a b * b + 1 ≤ a + b)
unfolding ceil_div
ceil_div_bounds a b h =
    let below = div-mul-le_self (a + b - 1) b in
    let above = lt-div-mul-add {a = a + b - 1} h in
    (omega (arith, below, above), omega (arith, below, above))

-- A share has a weight: 1 in the first mode, the level in the second.
abbrev weight : ℕ → Member → ℕ
weight mode m = if mode == 1 then 1 else counted_level m

weights : ℕ → List Member → ℕ
weights mode [] = 0
weights mode (m ∷ ms) = if takes_part m then weight mode m + weights mode ms else weights mode ms

share : ℕ → ℕ → ℕ → Member → ℕ
share mode exp total m = ceil_div (exp * weight mode m) total

-- The rewards that the second loop gives.
shares : ℕ → ℕ → ℕ → List Member → ℕ
shares mode exp total [] = 0
shares mode exp total (m ∷ ms) =
    if takes_part m
    then share mode exp total m + shares mode exp total ms
    else shares mode exp total ms

shares_bounds :
    (mode exp total : ℕ) (ms : List Member)
    → 0 < total
    → (exp * weights mode ms ≤ shares mode exp total ms * total)
      × (shares mode exp total ms * total + count_members ms
          ≤ exp * weights mode ms + count_members ms * total)
unfolding weights shares share count_members
shares_bounds mode exp total [] h = (omega arith, omega arith)
shares_bounds mode exp total (m ∷ ms) h = elim (Bool-cases (takes_part m)) [
  | inr absent ↦ rw absent (shares_bounds mode exp total ms h)
  | inl present ↦
      let (low, high) = shares_bounds mode exp total ms h in
      let (below, above) = ceil_div_bounds (exp * weight mode m) total h in
      rw present (grind arith, grind arith)
]

-- A product bounds a factor.
quotient_lt : (q e n t : ℕ) → q * t < e * t + n * t → q < e + n
quotient_lt q e n t h = lt_of_mul-lt-mul_right t (subst (λ k. q * t < k) (sym (add-mul e n t)) h)

share_le :
    (mode exp total : ℕ) (m : Member)
    → 0 < total
    → weight mode m ≤ total
    → share mode exp total m ≤ exp
unfolding share
share_le mode exp total m h le =
    let (_, above) = ceil_div_bounds (exp * weight mode m) total h in
    let more : exp * weight mode m ≤ exp * total = mul-le-mul_left exp le in
    omega (arith, quotient_lt (share mode exp total m) exp 1 total (omega (arith, above, more)))

weights_one : (ms : List Member) → weights 1 ms ≡ count_members ms
unfolding weights count_members
weights_one [] = refl
weights_one (m ∷ ms) = ground (arith, weights_one ms)

weights_level : (mode : ℕ) (ms : List Member) → (mode == 1) ≡ false → weights mode ms ≡ sum_level ms
unfolding weights sum_level
weights_level mode [] h = refl
weights_level mode (m ∷ ms) h = ground (arith, weights_level mode ms h)

-- No weight is above the sum.
abbrev Fits : ℕ → ℕ → List Member → Type 0
Fits mode total = All (λ m. takes_part m ≡ true → weight mode m ≤ total)

weights-Fits : (mode total : ℕ) (ms : List Member) → weights mode ms ≤ total → Fits mode total ms
unfolding weights
weights-Fits mode total [] h = tt
weights-Fits mode total (m ∷ ms) h =
    (λ present. ground arith, weights-Fits mode total ms (ground arith))

-- All the experience of the members.
abbrev pub exp_sum : List Member → ℕ
exp_sum [] = 0
exp_sum (m ∷ ms) = m.exp + exp_sum ms

exp_sum-share_loop :
    (w : Levels) (mode exp members sumlevel total : ℕ) (ms : List Member)
    → 0 < total
    → ((m : Member) → reward_of mode exp members sumlevel m ≡ share mode exp total m)
    → Fits mode total ms
    → All (λ m. m.exp + exp < 2 ^ 31) ms
    → exp_sum (share_loop w mode exp members sumlevel ms).0 ≡ exp_sum ms + shares mode exp total ms
unfolding share_loop give_reward shares
exp_sum-share_loop w mode exp members sumlevel total [] pos r f small = refl
exp_sum-share_loop w mode exp members sumlevel total (m ∷ ms) pos r f small =
    let rest = exp_sum-share_loop w mode exp members sumlevel total ms pos r f.1 small.1 in
    elim (Bool-cases (takes_part m)) [
      | inr absent ↦ rw (share_loop, absent) (omega (arith, rest))
      | inl present ↦
          let le = share_le mode exp total m pos (f.0 present) in
          let got : add32 m.exp (share mode exp total m) ≡ m.exp + share mode exp total m =
            omega (arith, le, small.0) in
          rw (share_loop, present, r m, got) (omega (arith, rest))
    ]

-- The weights are at least those who take part.
count_le : (ms : List Member) → count_members ms ≤ sum_level ms
unfolding count_members sum_level
count_le [] = omega arith
count_le (m ∷ ms) = ground (arith, count_le ms)

share_loop_bounds :
    (w : Levels) (mode exp members sumlevel : ℕ) (ms : List Member)
    → 0 < count_members ms
    → 0 < weights mode ms
    → ((m : Member) → reward_of mode exp members sumlevel m ≡ share mode exp (weights mode ms) m)
    → All (λ m. m.exp + exp < 2 ^ 31) ms
    → (exp_sum ms + exp ≤ exp_sum (share_loop w mode exp members sumlevel ms).0)
      × (exp_sum (share_loop w mode exp members sumlevel ms).0
          < exp_sum ms + exp + count_members ms)
share_loop_bounds w mode exp members sumlevel ms some_here pos r small =
    let total = weights mode ms in
    let given = shares mode exp total ms in
    let (low, high) = shares_bounds mode exp total ms pos in
    let sum =
      exp_sum-share_loop w mode exp members sumlevel total ms pos r
        (weights-Fits mode total ms (omega arith)) small in
    let enough : exp ≤ given = le_of_mul-le-mul_right {k = total} low pos in
    let few : given < exp + count_members ms =
      quotient_lt given exp (count_members ms) total (omega (arith, high, some_here)) in
    (omega (arith, sum, enough), omega (arith, sum, few))

share_exp_lem :
    (w : Levels) (exp mode : ℕ) (ms : List Member)
    → 0 < count_members ms
    → share_exp w exp mode ms ≡ share_loop w mode exp (count_members ms) (sum_level ms) ms
unfolding share_exp
share_exp_lem w exp mode ms some_here = ground (arith, count_le ms)

-- `ShareEXP` in the mode 1 (equal shares) or 2 (by level), where a member takes part and no
-- experience overflows: the members together get at least the experience that is shared, and less
-- than one point more for each member that takes part.
pub share_exp_bounds :
    (w : Levels) (exp mode : ℕ) (ms : List Member)
    → (mode ≡ 1) ⊎ (mode ≡ 2)
    → 0 < count_members ms
    → All (λ m. m.exp + exp < 2 ^ 31) ms
    → (exp_sum ms + exp ≤ exp_sum (share_exp w exp mode ms).0)
      × (exp_sum (share_exp w exp mode ms).0 < exp_sum ms + exp + count_members ms)
unfolding reward_of share
share_exp_bounds w exp mode ms (inl equal) some_here small = rw equal (
    rw (share_exp_lem w exp 1 ms some_here) (
      share_loop_bounds w 1 exp (count_members ms) (sum_level ms) ms some_here
        (omega (arith, weights_one ms))
        (λ m i. ceil_div (sym (mul-one exp) i) (sym (weights_one ms) i)) small))
share_exp_bounds w exp mode ms (inr by_level) some_here small = rw by_level (
    rw (share_exp_lem w exp 2 ms some_here) (
      share_loop_bounds w 2 exp (count_members ms) (sum_level ms) ms some_here
        (omega (arith, weights_level 2 ms refl, count_le ms))
        (λ m i. ceil_div (exp * counted_level m) (sym (weights_level 2 ms refl) i)) small))
