-- ===== src/Packet/Cipher/Wind.antt =====
-- src/packet.cpp, `DickWinder`: it is its own inverse, and a byte that `emulti` does not divide
-- parts what stands before it from what stands behind.
use mathlib.Core.List.{reverse-reverse, append_assoc, append-nil}
use etheos.Base.{
  ℕ, ◌%◌, ◌≡◌, ◌≢◌, refl, ap, ◌∙◌, List, [], ◌∷◌, ◌++◌, reverse, All, All-append, All-reverse,
  arith, ◌==◌, ne→==, inl, inr, Bool-cases, ==→eq,
}
use etheos.Packet.Cipher.{flush, wind_loop, dick_winder}

abbrev Divides : ℕ → ℕ → Type 0
Divides e c = c % e ≡ 0

pub flush-reverse : (xs : List ℕ) → flush xs ≡ reverse xs
flush-reverse [] = refl
flush-reverse (x ∷ xs) = ground arith

module _ (e : ℕ) where
  -- A run of multiples goes to the buffer.
  wind_loop-run :
      (buffer ys rest : List ℕ)
      → All (Divides e) ys
      → wind_loop e buffer (ys ++ rest) ≡ wind_loop e (buffer ++ ys) rest
  unfolding wind_loop
  wind_loop-run buffer [] rest h = rw append-nil
  wind_loop-run buffer (y ∷ ys) rest h = rw (h.0) (
      wind_loop-run (buffer ++ y ∷ []) ys rest h.1
      ∙ ap (λ b. wind_loop e b rest) (append_assoc buffer (y ∷ []) ys))

  wind_loop-flushed :
      (buffer rest : List ℕ)
      → All (Divides e) buffer
      → wind_loop e [] (flush buffer ++ rest) ≡ wind_loop e (reverse buffer) rest
  wind_loop-flushed buffer rest h =
      rw (flush-reverse buffer) (wind_loop-run [] (reverse buffer) rest (All-reverse _ buffer h))

  wind_loop-twice :
      (buffer str : List ℕ)
      → All (Divides e) buffer
      → wind_loop e [] (wind_loop e buffer str) ≡ buffer ++ str
  unfolding wind_loop
  wind_loop-twice buffer [] h =
      rw (← append-nil (flush buffer))
        (wind_loop-flushed buffer [] h ∙ rw (flush-reverse, reverse-reverse, append-nil))
  wind_loop-twice buffer (c ∷ str) h = elim (Bool-cases (c % e == 0)) [
    | inl hit ↦ rw hit (
        wind_loop-twice (buffer ++ c ∷ []) str
          (All-append _ buffer (c ∷ []) h (==→eq (c % e) 0 hit, tt))
        ∙ append_assoc buffer (c ∷ []) str)
    | inr miss ↦ rw miss (
        wind_loop-flushed buffer (c ∷ wind_loop e [] str) h
        ∙ rw (miss, wind_loop) (rw (flush-reverse, reverse-reverse, wind_loop-twice [] str tt)))
  ]

-- Winding twice gives the string back, whatever the multiplier.
pub dick_winder-dick_winder : (str : List ℕ) (e : ℕ) → dick_winder (dick_winder str e) e ≡ str
unfolding dick_winder
dick_winder-dick_winder str e = elim (Bool-cases (e == 0)) [
  | inl off ↦ rw off
  | inr on ↦ rw on (wind_loop-twice e [] str tt)
]

All-wind_loop {ℓ} :
    (P : ℕ → Type ℓ) (e : ℕ) (buffer str : List ℕ)
    → All P buffer
    → All P str
    → All P (wind_loop e buffer str)
unfolding wind_loop
All-wind_loop P e buffer [] hb hs = rw flush-reverse (All-reverse P buffer hb)
All-wind_loop P e buffer (c ∷ str) hb hs = elim (Bool-cases (c % e == 0)) [
  | inl hit ↦
      rw hit
        (All-wind_loop P e (buffer ++ c ∷ []) str (All-append P buffer (c ∷ []) hb (hs.0, tt)) hs.1)
  | inr miss ↦
      rw (miss, flush-reverse)
        (All-append P (reverse buffer) (c ∷ wind_loop e [] str) (All-reverse P buffer hb)
          (hs.0, All-wind_loop P e [] str tt hs.1))
]

-- Winding makes up no byte.
pub All-dick_winder {ℓ} :
    (P : ℕ → Type ℓ) (str : List ℕ) (e : ℕ) → All P str → All P (dick_winder str e)
unfolding dick_winder
All-dick_winder P str e h = elim (Bool-cases (e == 0)) [
  | inl off ↦ rw off h
  | inr on ↦ rw on (All-wind_loop P e [] str tt h)
]

-- The two bytes of a packet's length stay in front, as they are, if the multiplier does not divide
-- the second.
pub dick_winder-header :
    (x y e : ℕ) (str : List ℕ) → y % e ≢ 0 → dick_winder (x ∷ y ∷ str) e ≡ x ∷ y ∷ dick_winder str e
unfolding dick_winder wind_loop
dick_winder-header x y e str h = elim (Bool-cases (e == 0)) [
  | inl off ↦ rw off
  | inr on ↦ elim (Bool-cases (x % e == 0)) [
    | inl hit ↦ rw (on, hit, ne→== (y % e) 0 h)
    | inr miss ↦ rw (on, miss, ne→== (y % e) 0 h)
  ]
]

-- Where the multiplier divides both bytes of a packet's length, but not the byte behind them, winding
-- swaps the two.
pub dick_winder-swaps_header :
    (x y a e : ℕ) (str : List ℕ)
    → e ≢ 0
    → x % e ≡ 0
    → y % e ≡ 0
    → a % e ≢ 0
    → dick_winder (x ∷ y ∷ a ∷ str) e ≡ y ∷ x ∷ a ∷ dick_winder str e
unfolding dick_winder wind_loop
dick_winder-swaps_header x y a e str on hx hy ha = rw (ne→== e 0 on, hx, hy, ne→== (a % e) 0 ha)
