-- ===== src/Packet/Cipher/Roundtrip.antt =====
-- src/packet.cpp: `Decode` with a multiplier gives back what `Encode` with it was given.
use mathlib.Core.List.{map-append, reverse-reverse, reverse-cons}
use etheos.Base.{
  ℕ, suc, ◌%◌, ◌<◌, ◌≡◌, ◌≢◌, refl, ap, ◌∙◌, true, false, not, some, List, [], ◌∷◌, ◌++◌, map,
  reverse, All, arith, length, le→ltb, get_or, take-append-drop, ◌==◌, ◌||◌, ==→eq, ne→==,
}
use etheos.Base.Bits.{byte_table, byte_entry}
use etheos.Packet.Cipher.{
  Processor, dick_winder, flip, swap_zero, swap_zeros, is_init, gather, encode, decode,
}
use etheos.Packet.Cipher.Wind.{dick_winder-dick_winder, dick_winder-header, All-dick_winder}
use etheos.Packet.Cipher.Gather.{evens, odds, gather_lem}
use etheos.Packet.Cipher.Payload.{Scattered, scatter-Scattered}

-- A byte after both ends have flipped it, and the sender alone has swapped 0 and 128.
settle : ℕ → ℕ
unfolding flip swap_zero
settle b = flip (swap_zero (flip b))

swap_zero-settle_table : byte_table (λ b. swap_zero (settle b) == b) 256 ≡ true
unfolding byte_table settle
swap_zero-settle_table = refl

swap_zero-settle : (b : ℕ) → b < 256 → swap_zero (settle b) ≡ b
swap_zero-settle b h = ==→eq _ b (byte_entry _ b 256 h swap_zero-settle_table)

settle_table : byte_table (λ b. settle b == b || (b == 0 || b == 128)) 256 ≡ true
unfolding byte_table settle
settle_table = refl

settle_id : (b : ℕ) → b < 256 → b ≢ 0 → b ≢ 128 → settle b ≡ b
settle_id b h z m =
    ground (arith, byte_entry (λ b. settle b == b || (b == 0 || b == 128)) b 256 h settle_table)

sent_table : byte_table (λ b. b == 127 || not (swap_zero (flip b) == 255)) 256 ≡ true
unfolding byte_table swap_zero flip
sent_table = refl

-- No byte but 127 is sent as 255.
sent-ne-init : (b : ℕ) → b < 256 → b ≢ 127 → (swap_zero (flip b) == 255) ≡ false
sent-ne-init b h n =
    ground (arith, byte_entry (λ b. b == 127 || not (swap_zero (flip b) == 255)) b 256 h sent_table)

evens-map : (f : ℕ → ℕ) (xs : List ℕ) → evens (map f xs) ≡ map f (evens xs)
evens-map f [] = refl
evens-map f (x ∷ []) = refl
evens-map f (x ∷ y ∷ xs) = ap (◌∷◌ (f x)) (evens-map f xs)

odds-map : (f : ℕ → ℕ) (xs : List ℕ) → odds (map f xs) ≡ map f (odds xs)
odds-map f [] = refl
odds-map f (x ∷ []) = refl
odds-map f (x ∷ y ∷ xs) = ap (◌∷◌ (f y)) (odds-map f xs)

map-reverse : (f : ℕ → ℕ) (xs : List ℕ) → map f (reverse xs) ≡ reverse (map f xs)
map-reverse f [] = refl
map-reverse f (x ∷ xs) =
    rw (reverse-cons x xs, map-append, map-reverse f xs, reverse-cons (f x) (map f xs))

map-settle : (xs : List ℕ) → map flip (map swap_zero (map flip xs)) ≡ map settle xs
unfolding settle
map-settle [] = refl
map-settle (x ∷ xs) = ap (◌∷◌ (settle x)) (map-settle xs)

map-swap_zero-settle : (xs : List ℕ) → All (λ b. b < 256) xs → map swap_zero (map settle xs) ≡ xs
map-swap_zero-settle [] h = refl
map-swap_zero-settle (x ∷ xs) h = rw (swap_zero-settle x h.0, map-swap_zero-settle xs h.1)

places-settle :
    (w q : List ℕ)
    → Scattered w q
    → map flip (evens (map swap_zero q)) ++ reverse (map flip (odds (map swap_zero q)))
      ≡ map settle w
places-settle w q sc =
    rw (evens-map swap_zero q, odds-map swap_zero q, sc.even, sc.odd)
      (rw (map-settle, map-settle, map-reverse, reverse-reverse, ← map-append, take-append-drop))

-- Collecting what was scattered settles each byte in its place.
gather-Scattered :
    (w : List ℕ) (a b : ℕ) (r : List ℕ)
    → Scattered w (a ∷ b ∷ r)
    → gather (map swap_zero (a ∷ b ∷ r)) ≡ some (map settle w)
gather-Scattered w a b r sc =
    gather_lem (swap_zero a) (swap_zero b) (map swap_zero r)
    ∙ ap some (places-settle w (a ∷ b ∷ r) sc)

-- The conditions on the first two bytes of the wound payload under which both ends agree: 0 and 128
-- are not swapped back there, and a first byte 127 can look like the init packet.
abbrev pub IsPlain : List ℕ → Type 0
IsPlain [] = ⊥
IsPlain (a ∷ []) = ⊥
IsPlain (a ∷ b ∷ r) = (a ≢ 0) × (a ≢ 127) × (a ≢ 128) × (b ≢ 0) × (b ≢ 128)

swap_zeros-settle : (w : List ℕ) → All (λ b. b < 256) w → IsPlain w → swap_zeros (map settle w) ≡ w
swap_zeros-settle [] h n = absurd n
swap_zeros-settle (a ∷ []) h n = absurd n
swap_zeros-settle (a ∷ b ∷ r) h (a0, _, a128, b0, b128) =
    rw (settle_id a h.0 a0 a128, settle_id b h.1.0 b0 b128, map-swap_zero-settle r h.1.1)

decode-Scattered :
    (c : Processor) (w q : List ℕ)
    → c.emulti_d ≢ 0
    → All (λ b. b < 256) w
    → IsPlain w
    → Scattered w q
    → decode c (map swap_zero q) ≡ some (dick_winder w c.emulti_d)
unfolding decode
decode-Scattered c [] q on h n sc = absurd n
decode-Scattered c (u ∷ []) q on h n sc = absurd n
decode-Scattered c (u ∷ v ∷ w) [] on h n sc = absurd (omega (arith, sc.size))
decode-Scattered c (u ∷ v ∷ w) (a ∷ []) on h n sc = absurd (omega (arith, sc.size))
decode-Scattered c (u ∷ v ∷ w) (a ∷ b ∷ q) on h n sc =
    let first : a ≡ flip u = ap (λ xs. get_or xs 0 0) sc.even in
    let other : (swap_zero a == 255) ≡ false =
      ap (λ t. swap_zero t == 255) first ∙ sent-ne-init u h.0 n.1 in
    rw
      (
        ne→== c.emulti_d 0 on,
        le→ltb (suc (suc (length (map swap_zero q)))) 2 (omega arith),
        other,
        gather-Scattered (u ∷ v ∷ w) a b q sc,
      )
      (ap (λ t. some (dick_winder t c.emulti_d)) (swap_zeros-settle (u ∷ v ∷ w) h n))

-- What `Encode` makes of a packet, `Decode` at the same nonzero multiplier turns back into its
-- payload, with the length bytes in front left alone, if the second of them is no multiple of the
-- multiplier, the packet is not the init packet, its bytes are below 256, and the first two bytes
-- of the wound payload are not 0 or 128 and the first not 127.
pub decode-encode :
    (s c : Processor) (x y : ℕ) (p : List ℕ)
    → s.emulti_e ≡ c.emulti_d
    → c.emulti_d ≢ 0
    → y % c.emulti_d ≢ 0
    → is_init (get_or p 0 0) (get_or p 1 0) ≡ false
    → All (λ b. b < 256) p
    → IsPlain (dick_winder p c.emulti_d)
    → (q : List ℕ) × (encode s (x ∷ y ∷ p) ≡ some (x ∷ y ∷ q)) × (decode c q ≡ some p)
unfolding encode
decode-encode s c x y p same on odd start h n =
    let w = dick_winder p c.emulti_d in
    let (q, sent, sc) = scatter-Scattered x y w in
    (
      map swap_zero q,
      rw
          (
            same,
            ne→== c.emulti_d 0 on,
            le→ltb (suc (suc (length p))) 2 (omega arith),
            start,
            dick_winder-header x y c.emulti_d p odd,
          )
          (ap (λ t. some (swap_zeros t)) sent),
      decode-Scattered c w q on (All-dick_winder (λ b. b < 256) p c.emulti_d h) n sc
          ∙ ap some (dick_winder-dick_winder p c.emulti_d),
    )
