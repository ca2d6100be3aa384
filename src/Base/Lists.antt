-- ===== src/Base/Lists.antt =====
-- Lists measured and indexed by the native numbers, under the library's names.
use Prim.Native.Nat.{ℕ, zero, suc, ◌+◌, ◌-◌, ◌≤◌, min}
use mathlib.Core.Path.{◌≡◌, refl, ap}
use mathlib.Core.List.{List, [], ◌∷◌, ◌++◌, map, reverse, reverse-cons}
use native.Mathlib.Omega.{arith}

-- A predicate that holds of every element.
abbrev pub All {ℓ κ} : {A : Type ℓ} → (A → Type κ) → List A → Type κ
All P [] = Unit
All P (x ∷ xs) = P x × All P xs

pub All-append {ℓ κ} :
    {A : Type ℓ} (P : A → Type κ) (xs ys : List A) → All P xs → All P ys → All P (xs ++ ys)
All-append P [] ys hx hy = hy
All-append P (x ∷ xs) ys hx hy = (hx.0, All-append P xs ys hx.1 hy)

pub All-reverse {ℓ κ} : {A : Type ℓ} (P : A → Type κ) (xs : List A) → All P xs → All P (reverse xs)
All-reverse P [] h = tt
All-reverse P (x ∷ xs) h =
    rw reverse-cons (All-append P (reverse xs) (x ∷ []) (All-reverse P xs h.1) (h.0, tt))

module _ {ℓ} {A : Type ℓ} where
  abbrev pub length : List A → ℕ
  length [] = 0
  length (x ∷ xs) = suc (length xs)

  abbrev pub get_or : List A → ℕ → A → A
  get_or [] i d = d
  get_or (x ∷ xs) zero d = x
  get_or (x ∷ xs) (suc i) d = get_or xs i d

  abbrev pub take : ℕ → List A → List A
  take zero xs = []
  take (suc n) [] = []
  take (suc n) (x ∷ xs) = x ∷ take n xs

  abbrev pub drop : ℕ → List A → List A
  drop zero xs = xs
  drop (suc n) [] = []
  drop (suc n) (x ∷ xs) = drop n xs

  -- A write out of bounds changes nothing.
  abbrev pub set : List A → ℕ → A → List A
  set [] i v = []
  set (x ∷ xs) zero v = v ∷ xs
  set (x ∷ xs) (suc i) v = x ∷ set xs i v

  abbrev pub replicate : ℕ → A → List A
  replicate zero a = []
  replicate (suc n) a = a ∷ replicate n a

  pub length-append : (xs ys : List A) → length (xs ++ ys) ≡ length xs + length ys
  length-append [] ys = omega arith
  length-append (x ∷ xs) ys = omega (arith, length-append xs ys)

  pub take-append-drop : (n : ℕ) (xs : List A) → take n xs ++ drop n xs ≡ xs
  take-append-drop zero xs = refl
  take-append-drop (suc n) [] = refl
  take-append-drop (suc n) (x ∷ xs) = ap (◌∷◌ x) (take-append-drop n xs)

  pub length-take : (n : ℕ) (xs : List A) → length (take n xs) ≡ min n (length xs)
  length-take zero xs = omega arith
  length-take (suc n) [] = omega arith
  length-take (suc n) (x ∷ xs) = omega (arith, length-take n xs)

  pub length-drop : (n : ℕ) (xs : List A) → length (drop n xs) ≡ length xs - n
  length-drop zero xs = omega arith
  length-drop (suc n) [] = omega arith
  length-drop (suc n) (x ∷ xs) = omega (arith, length-drop n xs)

  pub length-replicate : (n : ℕ) (a : A) → length (replicate n a) ≡ n
  length-replicate zero a = refl
  length-replicate (suc n) a = ap suc (length-replicate n a)

module _ {ℓ} {A : Type ℓ} where
  pub length-set : (xs : List A) (i : ℕ) (v : A) → length (set xs i v) ≡ length xs
  length-set [] i v = refl
  length-set (x ∷ xs) zero v = refl
  length-set (x ∷ xs) (suc i) v = ap suc (length-set xs i v)

  pub length-map {κ} : {B : Type κ} (xs : List A) (f : A → B) → length (map f xs) ≡ length xs
  length-map [] f = refl
  length-map (x ∷ xs) f = ap suc (length-map xs f)

  pub length-reverse : (xs : List A) → length (reverse xs) ≡ length xs
  length-reverse [] = refl
  length-reverse (x ∷ xs) =
      omega (
        arith,
        ap length (reverse-cons x xs),
        length-append (reverse xs) (x ∷ []),
        length-reverse xs,
      )

  pub take_all : (xs ys : List A) → take (length xs) (xs ++ ys) ≡ xs
  take_all [] ys = refl
  take_all (x ∷ xs) ys = ap (◌∷◌ x) (take_all xs ys)

  pub drop_all : (xs ys : List A) → drop (length xs) (xs ++ ys) ≡ ys
  drop_all [] ys = refl
  drop_all (x ∷ xs) ys = drop_all xs ys

  pub take_whole : (n : ℕ) (xs : List A) → length xs ≤ n → take n xs ≡ xs
  take_whole zero [] h = refl
  take_whole zero (x ∷ xs) h = absurd (omega arith)
  take_whole (suc n) [] h = refl
  take_whole (suc n) (x ∷ xs) h = ap (◌∷◌ x) (take_whole n xs (omega arith))

  pub take-length : (xs : List A) → take (length xs) xs ≡ xs
  take-length xs = take_whole (length xs) xs (omega arith)

  pub drop_whole : (n : ℕ) (xs : List A) → length xs ≤ n → drop n xs ≡ []
  drop_whole zero [] h = refl
  drop_whole zero (x ∷ xs) h = absurd (omega arith)
  drop_whole (suc n) [] h = refl
  drop_whole (suc n) (x ∷ xs) h = drop_whole n xs (omega arith)
