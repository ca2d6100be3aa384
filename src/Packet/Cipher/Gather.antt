-- ===== src/Packet/Cipher/Gather.antt =====
-- src/packet.cpp, the two loops of `Decode`: first the bytes at even places, then those at odd
-- places from the end.
use mathlib.Core.List.{reverse-cons, append-nil}
use etheos.Base.{
  ℕ, zero, suc, ◌+◌, ◌-◌, ◌<◌, sym, true, false, Option, none, some, ltb, length-append, length-map,
  length-reverse, ◌≤◌, ◌≡◌, refl, ap, ◌∙◌, List, [], ◌∷◌, ◌++◌, map, reverse, arith, length,
}
use etheos.Packet.Cipher.{
  read_at, push, written_to, flip, collect_up, collect_down, last_odd, gather,
}

-- The elements at the even places, and those at the odd ones.
abbrev pub evens {ℓ} : {A : Type ℓ} → List A → List A
evens [] = []
evens (x ∷ []) = x ∷ []
evens (x ∷ y ∷ r) = x ∷ evens r

abbrev pub odds {ℓ} : {A : Type ℓ} → List A → List A
odds [] = []
odds (x ∷ []) = []
odds (x ∷ y ∷ r) = y ∷ odds r

pub length-evens-odds {ℓ} :
    {A : Type ℓ} (xs : List A) → length (evens xs) + length (odds xs) ≡ length xs
length-evens-odds [] = omega arith
length-evens-odds (x ∷ []) = omega arith
length-evens-odds (x ∷ y ∷ xs) = omega (arith, length-evens-odds xs)

pub length-places :
    (f : ℕ → ℕ) (xs : List ℕ) → length (map f (evens xs) ++ reverse (map f (odds xs))) ≡ length xs
length-places f xs = omega (
  arith,
  length-append (map f (evens xs)) (reverse (map f (odds xs))),
  length-reverse (map f (odds xs)),
  length-map (evens xs) f,
  length-map (odds xs) f,
  length-evens-odds xs,
)

collect_up-shift :
    (f i a b : ℕ) (r : List ℕ) → collect_up f (suc (suc i)) (a ∷ b ∷ r) ≡ collect_up f i r
unfolding collect_up
collect_up-shift zero i a b r = refl
collect_up-shift (suc f) i a b r =
    let rest = collect_up-shift f (suc (suc i)) a b r in
    let same : ltb (suc (suc i)) (suc (suc (length r))) ≡ ltb i (length r) = ground arith in
    rw (same, rest) refl

pub collect_up-evens :
    (f : ℕ) (str : List ℕ) → length str < f → collect_up f 0 str ≡ some (map flip (evens str))
unfolding collect_up
collect_up-evens zero str h = absurd (omega arith)
collect_up-evens (suc f) [] h = refl
collect_up-evens (suc zero) (a ∷ r) h = absurd (omega arith)
collect_up-evens (suc (suc f)) (a ∷ []) h = refl
collect_up-evens (suc f) (a ∷ b ∷ r) h =
    let some_left : ltb 0 (suc (suc (length r))) ≡ true = ground arith in
    rw (some_left, collect_up-shift f 0 a b r, collect_up-evens f r (omega arith)) refl

abbrev pub IsOdd : ℕ → Type 0
IsOdd zero = ⊥
IsOdd (suc zero) = Unit
IsOdd (suc (suc n)) = IsOdd n

abbrev then_last : ℕ → Option (List ℕ) → Option (List ℕ)
then_last b (some cs) = some (cs ++ b ∷ [])
then_last b none = none

push-then_last :
    (b : ℕ) (c : Option ℕ) (cs : Option (List ℕ))
    → push c (then_last b cs) ≡ then_last b (push c cs)
push-then_last b (some c) (some cs) = refl
push-then_last b (some c) none = refl
push-then_last b none cs = refl

collect_down-shift :
    (i a b : ℕ) (r : List ℕ)
    → IsOdd i
    → collect_down (a ∷ b ∷ r) (suc (suc i)) ≡ then_last (flip b) (collect_down r i)
unfolding collect_down
collect_down-shift zero a b r h = absurd h
collect_down-shift (suc zero) a b r h = push-then_last (flip b) (read_at r 1) (some [])
collect_down-shift (suc (suc i)) a b r h =
    ap (push (read_at r (suc (suc i)))) (collect_down-shift i a b r h)
    ∙ push-then_last (flip b) (read_at r (suc (suc i))) (collect_down r i)

pub last_odd-step : (n : ℕ) → 2 ≤ n → last_odd (suc (suc n)) ≡ suc (suc (last_odd n))
unfolding last_odd
last_odd-step n h = ground arith

pub last_odd-IsOdd : (n : ℕ) → 2 ≤ n → IsOdd (last_odd n)
last_odd-IsOdd zero h = absurd (omega arith)
last_odd-IsOdd (suc zero) h = absurd (omega arith)
last_odd-IsOdd (suc (suc zero)) h = unfold last_odd in tt
last_odd-IsOdd (suc (suc (suc zero))) h = unfold last_odd in tt
last_odd-IsOdd (suc (suc (suc (suc n)))) h =
    rw (last_odd-step (suc (suc n)) (omega arith)) (last_odd-IsOdd (suc (suc n)) (omega arith))

pub collect_down-odds :
    (a b : ℕ) (r : List ℕ)
    → collect_down (a ∷ b ∷ r) (last_odd (suc (suc (length r))))
      ≡ some (reverse (map flip (odds (a ∷ b ∷ r))))
unfolding collect_down
collect_down-odds a b [] = unfold last_odd in refl
collect_down-odds a b (c ∷ []) = unfold last_odd in refl
collect_down-odds a b (c ∷ d ∷ r) = rw (last_odd-step (suc (suc (length r))) (omega arith)) (
    collect_down-shift _ a b (c ∷ d ∷ r) (last_odd-IsOdd _ (omega arith))
    ∙ ap (then_last (flip b)) (collect_down-odds c d r)
    ∙ ap some (sym (reverse-cons (flip b) (map flip (odds (c ∷ d ∷ r))))))

abbrev pub collected : List ℕ → List ℕ
collected str = map flip (evens str) ++ reverse (map flip (odds str))

written_whole : (n : ℕ) (xs : List ℕ) → length xs ≡ n → written_to n xs ≡ some xs
written_whole n xs h =
    let fits : ltb n (length xs) ≡ false = ground (arith, h) in
    let no_more : n - length xs ≡ 0 = omega (arith, h) in
    rw (fits, no_more) (ap some (append-nil xs))

-- `Decode` reads a string of two bytes or more inside it, and fills one of the same length.
pub gather_lem : (a b : ℕ) (r : List ℕ) → gather (a ∷ b ∷ r) ≡ some (collected (a ∷ b ∷ r))
unfolding gather
gather_lem a b r =
    rw
      (
        collect_up-evens (suc (suc (suc (length r)))) (a ∷ b ∷ r) (omega arith),
        collect_down-odds a b r,
      )
      (written_whole (suc (suc (length r))) (collected (a ∷ b ∷ r))
        (length-places flip (a ∷ b ∷ r)))
