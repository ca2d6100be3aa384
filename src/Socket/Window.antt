-- ===== src/Socket/Window.antt =====
-- A stretch of a ring: the bytes behind a position, going round at the end.
use native.Mathlib.Nat.{mod-lt, mod-add-mod, mod-eq_of_lt, mod-eq-sub-mod, add-zero}
use mathlib.Core.Path.{ap₂}
use native.Mathlib.Decide.{dec_lt}
use etheos.Base.{
  ℕ, zero, suc, min, ◌+◌, ◌-◌, ◌%◌, ◌≤◌, ◌<◌, ◌≡◌, ◌≢◌, refl, sym, ap, ◌∙◌, List, [], ◌∷◌, ◌++◌,
  arith, length, get_or, set, take, drop,
}

get_or-set_self : (xs : List ℕ) (i v : ℕ) → i < length xs → get_or (set xs i v) i 0 ≡ v
get_or-set_self [] i v h = absurd (omega arith)
get_or-set_self (x ∷ xs) zero v h = refl
get_or-set_self (x ∷ xs) (suc i) v h = get_or-set_self xs i v (omega arith)

get_or-set_ne : (xs : List ℕ) (i j v : ℕ) → i ≢ j → get_or (set xs i v) j 0 ≡ get_or xs j 0
get_or-set_ne [] i j v h = refl
get_or-set_ne (x ∷ xs) zero zero v h = absurd (h refl)
get_or-set_ne (x ∷ xs) zero (suc j) v h = refl
get_or-set_ne (x ∷ xs) (suc i) zero v h = refl
get_or-set_ne (x ∷ xs) (suc i) (suc j) v h = get_or-set_ne xs i j v (λ e. h (ap suc e))

-- The `n` bytes behind the position `p` of a ring of `cap` places.
abbrev pub behind : List ℕ → ℕ → ℕ → ℕ → List ℕ
behind bytes cap p zero = []
behind bytes cap p (suc n) = get_or bytes ((p + 1) % cap) 0 ∷ behind bytes cap ((p + 1) % cap) n

pub length-behind : (bytes : List ℕ) (cap p n : ℕ) → length (behind bytes cap p n) ≡ n
length-behind bytes cap p zero = refl
length-behind bytes cap p (suc n) = ap suc (length-behind bytes cap ((p + 1) % cap) n)

-- Only the position's remainder matters.
pub step_on : (cap p n : ℕ) → ((p + 1) % cap + n) % cap ≡ (p + suc n) % cap
step_on cap p n = mod-add-mod (p + 1) cap n ∙ ap (λ k. k % cap) (omega arith)

pub drop-behind :
    (bytes : List ℕ) (cap p k n : ℕ)
    → p < cap
    → drop k (behind bytes cap p (k + n)) ≡ behind bytes cap ((p + k) % cap) n
drop-behind bytes cap p zero n h =
    ap (behind bytes cap p) (let e : 0 + n ≡ n = omega arith in e)
    ∙ ap (λ q. behind bytes cap q n) (sym (ap (λ q. q % cap) (add-zero p) ∙ mod-eq_of_lt h))
drop-behind bytes cap p (suc k) n h =
    ap (λ m. drop (suc k) (behind bytes cap p m))
      (let e : suc k + n ≡ suc (k + n) = omega arith in e)
    ∙ drop-behind bytes cap ((p + 1) % cap) k n (mod-lt (p + 1) (omega arith))
    ∙ ap (λ q. behind bytes cap q n) (step_on cap p k)

pub take-behind :
    (bytes : List ℕ) (cap p k n : ℕ) → take k (behind bytes cap p (k + n)) ≡ behind bytes cap p k
take-behind bytes cap p zero n = refl
take-behind bytes cap p (suc k) n =
    ap (λ m. take (suc k) (behind bytes cap p m))
      (let e : suc k + n ≡ suc (k + n) = omega arith in e)
    ∙ ap (◌∷◌ (get_or bytes ((p + 1) % cap) 0)) (take-behind bytes cap ((p + 1) % cap) k n)

-- Fewer places on than there are do not lead back to the start.
away : (cap p n : ℕ) → p < cap → suc n < cap → (p + suc n) % cap ≢ p
away cap p n h k = elim (dec_lt (p + suc n) cap) [
  | yes inside ↦ omega (arith, mod-eq_of_lt inside)
  | no round ↦ omega (
    arith,
    mod-eq-sub-mod {n = p + suc n} {m = cap} (omega arith),
    mod-eq_of_lt {n = p + suc n - cap} {m = cap} (omega arith),
  )
]

-- Writing the place next to a stretch lengthens it by that byte.
pub behind-set :
    (bytes : List ℕ) (cap p n x i : ℕ)
    → cap ≤ length bytes
    → p < cap
    → n < cap
    → i ≡ (p + suc n) % cap
    → behind (set bytes i x) cap p (suc n) ≡ behind bytes cap p n ++ x ∷ []
behind-set bytes cap p zero x i hs hp hn e =
    let first : i ≡ (p + 1) % cap = e in
    rw (← first)
      (ap (λ y. y ∷ []) (get_or-set_self bytes i x (omega (arith, e, mod-lt (p + 1) hn))))
behind-set bytes cap p (suc n) x i hs hp hn e =
    let q = (p + 1) % cap in
    let inside : q < cap = mod-lt (p + 1) (omega arith) in
    let e' : i ≡ (q + suc n) % cap = e ∙ sym (step_on cap p (suc n)) in
    ap₂ ◌∷◌ (get_or-set_ne bytes i q x (λ same. away cap q n inside hn (sym e' ∙ same)))
      (behind-set bytes cap q n x i hs inside (omega arith) e')

pub take-min : (n : ℕ) (xs : List ℕ) → take (min n (length xs)) xs ≡ take n xs
take-min zero xs = ap (λ k. take k xs) (let e : min 0 (length xs) ≡ 0 = omega arith in e)
take-min (suc n) [] = ap (λ k. take k []) (let e : min (suc n) 0 ≡ 0 = omega arith in e)
take-min (suc n) (x ∷ xs) =
    ap (λ k. take k (x ∷ xs))
      (let e : min (suc n) (suc (length xs)) ≡ suc (min n (length xs)) = omega arith in e)
    ∙ ap (◌∷◌ x) (take-min n xs)

pub drop-min : (n : ℕ) (xs : List ℕ) → drop (min n (length xs)) xs ≡ drop n xs
drop-min zero xs = ap (λ k. drop k xs) (let e : min 0 (length xs) ≡ 0 = omega arith in e)
drop-min (suc n) [] = ap (λ k. drop k []) (let e : min (suc n) 0 ≡ 0 = omega arith in e)
drop-min (suc n) (x ∷ xs) =
    ap (λ k. drop k (x ∷ xs))
      (let e : min (suc n) (suc (length xs)) ≡ suc (min n (length xs)) = omega arith in e)
    ∙ drop-min n xs

pub take-take : (k n : ℕ) (xs : List ℕ) → k ≤ n → take k (take n xs) ≡ take k xs
take-take zero n xs h = refl
take-take (suc k) zero xs h = absurd (omega arith)
take-take (suc k) (suc n) [] h = refl
take-take (suc k) (suc n) (x ∷ xs) h = ap (◌∷◌ x) (take-take k n xs (omega arith))
