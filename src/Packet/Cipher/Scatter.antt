-- ===== src/Packet/Cipher/Scatter.antt =====
-- src/packet.cpp, the two loops of `Encode`: the first bytes go to the even places, the rest to the
-- odd places from the end.
use mathlib.Core.List.{reverse-cons}
use etheos.Base.{
  ℕ, zero, suc, ◌-◌, ◌+◌, ◌≤◌, ◌≡◌, refl, ap, List, [], ◌∷◌, ◌++◌, map, reverse, arith, length, set,
  take, drop, lt→ltb, le→leb, ◌*◌, length-reverse,
}
use etheos.Packet.Cipher.{flip, write_up, write_down, last_odd}
use etheos.Packet.Cipher.Gather.{evens, odds, IsOdd, last_odd-step, last_odd-IsOdd}

pub write_up-shift :
    (i a b : ℕ) (src out : List ℕ)
    → write_up (suc (suc i)) src (a ∷ b ∷ out)
      ≡ ((write_up i src out).0, a ∷ b ∷ (write_up i src out).1)
unfolding write_up
write_up-shift i a b [] out = refl
write_up-shift i a b (c ∷ src) out =
    ground (arith, write_up-shift (suc (suc i)) a b src (set out i (flip c)))

-- What the first loop does to a string that is no longer than its source.
pub record Filled (src out rest out' : List ℕ) : Type 0 where
  pub even : evens out' ≡ map flip (take (length (evens out)) src)
  pub odd : odds out' ≡ odds out
  pub left : rest ≡ drop (length (evens out)) src
  pub size : length out' ≡ length out

pub write_up-Filled :
    (src out : List ℕ)
    → length out ≤ length src
    → Filled src out (write_up 0 src out).0 (write_up 0 src out).1
unfolding write_up
write_up-Filled [] [] h = record { even = refl; odd = refl; left = refl; size = refl }
write_up-Filled [] (x ∷ out) h = absurd (omega arith)
write_up-Filled (c ∷ src) [] h = record { even = refl; odd = refl; left = refl; size = refl }
write_up-Filled (c ∷ []) (x ∷ []) h = record { even = refl; odd = refl; left = refl; size = refl }
write_up-Filled (c ∷ d ∷ src) (x ∷ []) h = record {
  even = refl;
  odd = refl;
  left = refl;
  size = refl;
}
write_up-Filled (c ∷ src) (x ∷ y ∷ out) h =
    let ih = write_up-Filled src out (omega arith) in
    rw (lt→ltb 0 (suc (suc (length out))) (omega arith), write_up-shift 0 (flip c) y src out)
      (record {
        even = ap (◌∷◌ (flip c)) ih.even;
        odd = ap (◌∷◌ y) ih.odd;
        left = ih.left;
        size = ap (λ n. suc (suc n)) ih.size;
      })

-- The second loop of `Encode`, seen from behind the two bytes of length.
pub fill_down : ℕ → List ℕ → List ℕ → List ℕ
fill_down k [] out = out
fill_down zero (c ∷ src) out = out
fill_down (suc zero) (c ∷ src) out = set out 1 (flip c)
fill_down (suc (suc k)) (c ∷ src) out = fill_down k src (set out (suc (suc k)) (flip c))

pub write_down-fill_down :
    (k x y : ℕ) (src out : List ℕ)
    → IsOdd k
    → write_down (suc (suc k)) src (x ∷ y ∷ out) ≡ x ∷ y ∷ fill_down k src out
unfolding write_down fill_down
write_down-fill_down zero x y src out h = absurd h
write_down-fill_down (suc zero) x y [] out h = refl
write_down-fill_down (suc zero) x y (c ∷ []) out h = refl
write_down-fill_down (suc zero) x y (c ∷ d ∷ src) out h = refl
write_down-fill_down (suc (suc k)) x y [] out h = refl
write_down-fill_down (suc (suc k)) x y (c ∷ src) out h =
    let back : suc (suc (suc (suc k))) - 2 ≡ suc (suc k) = omega arith in
    rw (le→leb 2 (suc (suc (suc (suc k)))) (omega arith), back)
      (write_down-fill_down k x y src (set out (suc (suc k)) (flip c)) h)

fill_down-last :
    (k t x y : ℕ) (src out : List ℕ)
    → IsOdd k
    → 2 * length src ≡ k + 1
    → fill_down (suc (suc k)) (src ++ t ∷ []) (x ∷ y ∷ out) ≡ x ∷ flip t ∷ fill_down k src out
unfolding fill_down
fill_down-last zero t x y src out h n = absurd h
fill_down-last (suc zero) t x y [] out h n = absurd (omega arith)
fill_down-last (suc zero) t x y (s ∷ []) out h n = refl
fill_down-last (suc zero) t x y (s ∷ s' ∷ src) out h n = absurd (omega arith)
fill_down-last (suc (suc k)) t x y [] out h n = absurd (omega arith)
fill_down-last (suc (suc k)) t x y (s ∷ src) out h n =
    fill_down-last k t x y src (set out (suc (suc k)) (flip s)) h (omega arith)

length-odds :
    (a b : ℕ) (r : List ℕ) → 2 * length (odds (a ∷ b ∷ r)) ≡ last_odd (suc (suc (length r))) + 1
length-odds a b [] = unfold last_odd in omega arith
length-odds a b (c ∷ []) = unfold last_odd in omega arith
length-odds a b (c ∷ d ∷ r) =
    omega (arith, length-odds c d r, last_odd-step (suc (suc (length r))) (omega arith))

-- From the end, the second loop fills the odd places and leaves the even ones.
pub fill_down-odds :
    (a b : ℕ) (r ts : List ℕ)
    → length ts ≡ length (odds (a ∷ b ∷ r))
    → let out = fill_down (last_odd (suc (suc (length r)))) (reverse ts) (a ∷ b ∷ r) in
      (odds out ≡ map flip ts)
      × (evens out ≡ evens (a ∷ b ∷ r))
      × (length out ≡ suc (suc (length r)))
unfolding fill_down
fill_down-odds a b r [] n = absurd (omega arith)
fill_down-odds a b [] (t ∷ []) n = unfold last_odd in (refl, refl, refl)
fill_down-odds a b [] (t ∷ t' ∷ ts) n = absurd (omega arith)
fill_down-odds a b (c ∷ []) (t ∷ []) n = unfold last_odd in (refl, refl, refl)
fill_down-odds a b (c ∷ []) (t ∷ t' ∷ ts) n = absurd (omega arith)
fill_down-odds a b (c ∷ d ∷ r) (t ∷ ts) n =
    let writes : 2 * length (reverse ts) ≡ last_odd (suc (suc (length r))) + 1 =
      omega (arith, length-reverse ts, length-odds c d r) in
    let ih = fill_down-odds c d r ts (omega arith) in
    rw
      (
        last_odd-step (suc (suc (length r))) (omega arith),
        reverse-cons t ts,
        fill_down-last _ t a b (reverse ts) (c ∷ d ∷ r) (last_odd-IsOdd _ (omega arith)) writes,
      )
      (ap (◌∷◌ (flip t)) ih.0, ap (◌∷◌ a) ih.1, ap (λ k. suc (suc k)) ih.2)
