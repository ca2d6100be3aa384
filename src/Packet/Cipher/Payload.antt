-- ===== src/Packet/Cipher/Payload.antt =====
-- src/packet.cpp, `Encode`: where its loops put each byte of a payload.
use mathlib.Core.List.{reverse-reverse}
use etheos.Base.{
  ℕ, suc, ◌-◌, ◌≡◌, refl, ap, sym, ◌∙◌, List, [], ◌∷◌, map, reverse, arith, length, take, drop,
  replicate, length-reverse, length-replicate, length-drop,
}
use etheos.Packet.Cipher.{flip, write_up, write_down, last_odd, scatter}
use etheos.Packet.Cipher.Gather.{evens, odds, length-evens-odds, last_odd-step, last_odd-IsOdd}
use etheos.Packet.Cipher.Scatter.{
  write_up-shift, write_up-Filled, fill_down, write_down-fill_down, fill_down-odds,
}

-- How many bytes of a payload of this length stand at even places.
abbrev pub front : List ℕ → ℕ
front p = length (evens p)

-- The payload `p` as the two loops leave it.
pub record Scattered (p q : List ℕ) : Type 0 where
  pub even : evens q ≡ map flip (take (front p) p)
  pub odd : odds q ≡ map flip (reverse (drop (front p) p))
  pub size : length q ≡ length p

length-evens_same : (xs ys : List ℕ) → length xs ≡ length ys → length (evens xs) ≡ length (evens ys)
length-evens_same [] [] h = refl
length-evens_same [] (y ∷ ys) h = absurd (omega arith)
length-evens_same (x ∷ xs) [] h = absurd (omega arith)
length-evens_same (x ∷ []) (y ∷ []) h = refl
length-evens_same (x ∷ []) (y ∷ y' ∷ ys) h = absurd (omega arith)
length-evens_same (x ∷ x' ∷ xs) (y ∷ []) h = absurd (omega arith)
length-evens_same (x ∷ x' ∷ xs) (y ∷ y' ∷ ys) h = ap suc (length-evens_same xs ys (omega arith))

-- What the second loop makes of a payload that the first has filled.
record Finished (x y : ℕ) (src out q : List ℕ) : Type 0 where
  written : write_down (last_odd (suc (suc (length out)))) src (x ∷ y ∷ out) ≡ x ∷ y ∷ q
  odd : odds q ≡ map flip (reverse src)
  even : evens q ≡ evens out
  size : length q ≡ length out

write_down-Finished :
    (x y : ℕ) (src out : List ℕ)
    → length src ≡ length (odds out)
    → (q : List ℕ) × Finished x y src out q
unfolding write_down
write_down-Finished x y [] [] h =
    ([], record { written = refl; odd = refl; even = refl; size = refl })
write_down-Finished x y (c ∷ src) [] h = absurd (omega arith)
write_down-Finished x y [] (a ∷ []) h =
    (a ∷ [], record { written = refl; odd = refl; even = refl; size = refl })
write_down-Finished x y (c ∷ src) (a ∷ []) h = absurd (omega arith)
write_down-Finished x y src (a ∷ b ∷ r) h =
    let filled = fill_down-odds a b r (reverse src) (length-reverse src ∙ h) in
    (
      fill_down (last_odd (suc (suc (length r)))) src (a ∷ b ∷ r),
      record {
        written =
            rw (last_odd-step (suc (suc (length r))) (omega arith))
              (write_down-fill_down _ x y src (a ∷ b ∷ r) (last_odd-IsOdd _ (omega arith)));
        odd = rw reverse-reverse at filled.0;
        even = rw reverse-reverse at filled.1;
        size = rw reverse-reverse at filled.2;
      },
    )

write_down-length :
    (src out p z : List ℕ)
    → length out ≡ length p
    → write_down (last_odd (suc (suc (length out)))) src z
      ≡ write_down (last_odd (suc (suc (length p)))) src z
write_down-length src out p z full = ap (λ n. write_down (last_odd (suc (suc n))) src z) full

-- `Encode` keeps the two bytes of length, and puts the front of the payload at the even places and
-- the rest, from its end, at the odd ones.
pub scatter-Scattered :
    (x y : ℕ) (p : List ℕ) → (q : List ℕ) × (scatter (x ∷ y ∷ p) ≡ x ∷ y ∷ q) × Scattered p q
unfolding scatter
scatter-Scattered x y p =
    let blank : List ℕ = replicate (length p) 0 in
    let blank_size : length blank ≡ length p = length-replicate {A = ℕ} (length p) 0 in
    let filled = write_up-Filled p blank (omega (arith, blank_size)) in
    let fronts : front blank ≡ front p = length-evens_same blank p (blank_size) in
    let out : List ℕ = (write_up 0 p blank).1 in
    let full : length out ≡ length p = filled.size ∙ blank_size in
    let (q, done) = write_down-Finished x y (write_up 0 p blank).0 out (
      omega (
        arith,
        ap length filled.left,
        length-drop (front blank) p,
        ap length filled.odd,
        length-evens-odds blank,
        blank_size,
      )) in
    let cut : suc (suc (length p)) - 2 ≡ length p = omega arith in
    (
      q,
      rw (cut, write_up-shift 0 x y p blank)
          (sym (write_down-length _ out p (x ∷ y ∷ out) full) ∙ done.written),
      record {
        even = done.even ∙ rw fronts at filled.even;
        odd = done.odd ∙ ap (λ xs. map flip (reverse xs)) (rw fronts at filled.left);
        size = done.size ∙ full;
      },
    )
