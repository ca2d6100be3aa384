-- ===== src/Client/Frame/Parse.antt =====
-- What the stream of bytes means, apart from how it arrives: each packet is two bytes of length and
-- as many bytes. Behind a length of zero nothing more is read.
use etheos.Base.{
  ℕ, zero, suc, ◌≤◌, ◌<◌, ◌≡◌, refl, ap, false, List, [], ◌∷◌, ◌++◌, arith, ◌||◌, length, take,
  drop, length-drop, ne→==, le→ltb, length-append, take_all, drop_all, ltb, ◌==◌, if◌then◌else◌,
}
use etheos.Packet.Number.{number}

-- The complete packets at the front of a stream; the fuel need not exceed its length.
unfoldable pub parse_fuel : ℕ → List ℕ → List (List ℕ)
parse_fuel zero bytes = []
parse_fuel (suc fuel) [] = []
parse_fuel (suc fuel) (a ∷ []) = []
parse_fuel (suc fuel) (a ∷ b ∷ r) =
    let n = number a b 254 254 in
    let rest = parse_fuel fuel (drop n r) in
    if n == 0 || ltb (length r) n then [] else take n r ∷ rest

unfoldable pub parse : List ℕ → List (List ℕ)
parse bytes = parse_fuel (length bytes) bytes

parse_fuel-enough :
    (f g : ℕ) (bytes : List ℕ)
    → length bytes ≤ f
    → length bytes ≤ g
    → parse_fuel f bytes ≡ parse_fuel g bytes
unfolding parse_fuel
parse_fuel-enough zero zero bytes h k = refl
parse_fuel-enough zero (suc g) [] h k = refl
parse_fuel-enough zero (suc g) (a ∷ r) h k = absurd (omega arith)
parse_fuel-enough (suc f) zero [] h k = refl
parse_fuel-enough (suc f) zero (a ∷ r) h k = absurd (omega arith)
parse_fuel-enough (suc f) (suc g) [] h k = refl
parse_fuel-enough (suc f) (suc g) (a ∷ []) h k = refl
parse_fuel-enough (suc f) (suc g) (a ∷ b ∷ r) h k =
    let n = number a b 254 254 in
    let left = length-drop n r in
    ap (λ rest. if n == 0 || ltb (length r) n then [] else take n r ∷ rest)
      (parse_fuel-enough f g (drop n r) (omega (arith, left)) (omega (arith, left)))

-- A complete packet at the front is the first of the packets.
pub parse_complete :
    (a b : ℕ) (payload rest : List ℕ)
    → number a b 254 254 ≡ length payload
    → 0 < length payload
    → parse (a ∷ b ∷ payload ++ rest) ≡ payload ∷ parse rest
unfolding parse parse_fuel
parse_complete a b payload rest e pos =
    let some_left : (length payload == 0) ≡ false = ne→== (length payload) 0 (omega arith) in
    let whole : ltb (length (payload ++ rest)) (length payload) ≡ false =
      le→ltb (length (payload ++ rest)) (length payload)
        (omega (arith, length-append payload rest)) in
    rw (e, some_left, whole, take_all payload rest, drop_all payload rest)
      (ap (◌∷◌ payload) (
        parse_fuel-enough (suc (length (payload ++ rest))) (length rest) rest
          (omega (arith, length-append payload rest)) (omega arith)))
