-- ===== src/Maps/Walk/Sight.antt =====
-- src/map.cpp, `Map::Walk`: who comes into view and who leaves it, against `InRange`.
use etheos.Base.{
  ℕ, zero, suc, ◌+◌, ◌-◌, ◌*◌, ◌<◌, ◌≡◌, refl, ap, ◌∙◌, Bool, true, false, not, List, [], ◌∷◌, ◌++◌,
  ◌&&◌, arith, inl, inr, Bool-cases, ◌==◌, ltb, leb, if◌then◌else◌,
}
use etheos.Base.Int.{pos, sub_ℕ, eqb_ℤ}
use etheos.Maps.Walk.{
  Direction, down, left, up, right, Spot, Being, distance_of, new_spot, old_spot, is_at, look_one,
  look_all, sights,
}

-- `util::path_length` and `Character::InRange`.
abbrev pub gap : ℕ → ℕ → ℕ
gap a b = if ltb a b then b - a else a - b

abbrev pub is_in_range : ℕ → ℕ → ℕ → Being → Bool
is_in_range see x y b = leb (gap x b.x + gap y b.y) see

eqb-sub_ℕ : (p a b : ℕ) → eqb_ℤ (pos p) (sub_ℕ a b) ≡ (p + b == a)
eqb-sub_ℕ p a b = ground arith

-- What the inner loop notes where the two tests hold or not.
abbrev noted : Being → Bool → Bool → List Being × List Being
noted b o w = if o then (b ∷ [], []) else if w then ([], b ∷ []) else ([], [])

noted_first :
    (b : Being) (o w : Bool)
    → (if o then ([] ++ b ∷ [], []) else if w then ([], [] ++ b ∷ []) else ([], [])) ≡ noted b o w
noted_first b o w = refl

-- Only the round `p - a` can find the being.
look_one_lem :
    (olds news : ℕ → Spot) (b : Being) (a p : ℕ) (qo qn : ℕ → Bool)
    → ((j : ℕ) → is_at b (olds j) ≡ ((p == a + j) && qo j))
    → ((j : ℕ) → is_at b (news j) ≡ ((p == a + j) && qn j))
    → (n : ℕ)
    → look_one olds news n b
      ≡ (if leb a p && ltb p (a + n) then noted b (qo (p - a)) (qn (p - a)) else ([], []))
unfolding look_one
look_one_lem olds news b a p qo qn ho hn zero =
    let none_yet : (leb a p && ltb p (a + 0)) ≡ false = ground arith in rw none_yet refl
look_one_lem olds news b a p qo qn ho hn (suc n) =
    let before = look_one_lem olds news b a p qo qn ho hn n in
    elim (Bool-cases (p == a + n)) [
      | inl here ↦
          let same : n ≡ p - a = ground arith in
          let not_yet : (leb a p && ltb p (a + n)) ≡ false = ground arith in
          let now : (leb a p && ltb p (a + suc n)) ≡ true = ground arith in
          let clean : look_one olds news n b ≡ ([], []) = before ∙ rw not_yet refl in
          let o : is_at b (olds n) ≡ qo (p - a) = ho n ∙ rw here (ap qo same) in
          let w : is_at b (news n) ≡ qn (p - a) = hn n ∙ rw here (ap qn same) in
          rw (clean, o, w, now) (noted_first b (qo (p - a)) (qn (p - a)))
      | inr other ↦
          let o : is_at b (olds n) ≡ false = ho n ∙ rw other refl in
          let w : is_at b (news n) ≡ false = hn n ∙ rw other refl in
          let same : (leb a p && ltb p (a + suc n)) ≡ (leb a p && ltb p (a + n)) = ground arith in
          rw (o, w, same) before
    ]

noted_if :
    (b : Being) (c o w : Bool) → (if c then noted b o w else ([], [])) ≡ noted b (c && o) (c && w)
noted_if b true o w = refl
noted_if b false o w = refl

and_swap : (a b : Bool) → (a && b) ≡ (b && a)
and_swap true true = refl
and_swap true false = refl
and_swap false true = refl
and_swap false false = refl

-- The place that the character has come from.
abbrev pub from_x : Direction → ℕ → ℕ
from_x left x = x + 1
from_x right x = x - 1
from_x d x = x

abbrev pub from_y : Direction → ℕ → ℕ
from_y up y = y + 1
from_y down y = y - 1
from_y d y = y

-- A step to the right or down has come to a place behind the border.
abbrev pub IsReached : Direction → ℕ → ℕ → Type 0
IsReached right x y = 0 < x
IsReached down x y = 0 < y
IsReached d x y = Unit

abbrev within : ℕ → ℕ → ℕ → Bool
within see a p = leb a p && ltb p (a + (2 * see + 1))

-- The round that finds the being stands for its distance along the line.
within-gap : (see a q : ℕ) → within see a (q + see) ≡ leb (gap a q) see
within-gap see a q = ground arith

distance_of-gap : (see a q : ℕ) → leb (gap a q) see ≡ true → distance_of see (q + see - a) ≡ gap a q
distance_of-gap see a q h = ground arith

round_of :
    (see a q : ℕ) (f : ℕ → Bool)
    → (within see a (q + see) && f (distance_of see (q + see - a)))
      ≡ (leb (gap a q) see && f (gap a q))
round_of see a q f = elim (Bool-cases (leb (gap a q) see)) [
  | inl near ↦ rw (within-gap see a q, near, distance_of-gap see a q near) refl
  | inr far ↦ rw (within-gap see a q, far) refl
]

-- Across the line, where `g` is the distance along it.
module _ (see g y q : ℕ) where
  leave_plus :
      (leb g see && (q + g == y + see + 1))
      ≡ (leb (g + gap (y + 1) q) see && not (leb (g + gap y q) see))
  leave_plus = ground arith

  come_plus :
      (leb g see && (q + see == y + g))
      ≡ (leb (g + gap y q) see && not (leb (g + gap (y + 1) q) see))
  come_plus = ground arith

  leave_minus :
      0 < y
      → (leb g see && (q + (see + 1) == y + g))
        ≡ (leb (g + gap (y - 1) q) see && not (leb (g + gap y q) see))
  leave_minus h = ground arith

  come_minus :
      0 < y
      → (leb g see && (q + g == y + see))
        ≡ (leb (g + gap y q) see && not (leb (g + gap (y - 1) q) see))
  come_minus h = ground arith

swapped :
    (a b c d see : ℕ)
    → (leb (a + b) see && not (leb (c + d) see)) ≡ (leb (b + a) see && not (leb (d + c) see))
swapped a b c d see =
    ap (λ (n : ℕ). leb n see && not (leb (c + d) see)) (omega arith)
    ∙ ap (λ (n : ℕ). leb (b + a) see && not (leb n see)) (omega arith)

module _ (see x y : ℕ) (b : Being) where
  -- The being is to be noted: it was in range and is so no more, or the other way round.
  abbrev leaves : Direction → Bool
  leaves d = is_in_range see (from_x d x) (from_y d y) b && not (is_in_range see x y b)

  abbrev comes : Direction → Bool
  comes d = is_in_range see x y b && not (is_in_range see (from_x d x) (from_y d y) b)

  noted_by :
      (d : Direction) (a p : ℕ) (qo qn : ℕ → Bool)
      → ((j : ℕ) → is_at b (old_spot d see x y j) ≡ ((p == a + j) && qo j))
      → ((j : ℕ) → is_at b (new_spot d see x y j) ≡ ((p == a + j) && qn j))
      → (within see a p && qo (p - a)) ≡ leaves d
      → (within see a p && qn (p - a)) ≡ comes d
      → look_one (old_spot d see x y) (new_spot d see x y) (2 * see + 1) b
        ≡ noted b (leaves d) (comes d)
  noted_by d a p qo qn ho hn eo en =
      look_one_lem (old_spot d see x y) (new_spot d see x y) b a p qo qn ho hn (2 * see + 1)
      ∙ noted_if b (within see a p) (qo (p - a)) (qn (p - a))
      ∙ (λ k. noted b (eo k) (en k))

  both :
      (p q a c e f : ℕ)
      → (eqb_ℤ (pos p) (sub_ℕ a c) && eqb_ℤ (pos q) (sub_ℕ e f)) ≡ ((p + c == a) && (q + f == e))
  both p q a c e f = rw (eqb-sub_ℕ p a c, eqb-sub_ℕ q e f) refl

  swapped_both :
      (p q a c e f : ℕ)
      → (eqb_ℤ (pos p) (sub_ℕ a c) && eqb_ℤ (pos q) (sub_ℕ e f)) ≡ ((q + f == e) && (p + c == a))
  swapped_both p q a c e f = both p q a c e f ∙ and_swap (p + c == a) (q + f == e)

  noted_up :
      look_one (old_spot up see x y) (new_spot up see x y) (2 * see + 1) b
      ≡ noted b (leaves up) (comes up)
  unfolding old_spot new_spot
  noted_up =
      noted_by up x (b.x + see) (λ j. b.y + distance_of see j == y + see + 1)
        (λ j. b.y + see == y + distance_of see j)
        (λ j. both b.x b.y (x + j) see (y + see + 1) (distance_of see j))
        (λ j. both b.x b.y (x + j) see (y + distance_of see j) see)
        (round_of see x b.x (λ g. b.y + g == y + see + 1) ∙ leave_plus see (gap x b.x) y b.y)
        (round_of see x b.x (λ g. b.y + see == y + g) ∙ come_plus see (gap x b.x) y b.y)

  noted_down :
      0 < y
      → look_one (old_spot down see x y) (new_spot down see x y) (2 * see + 1) b
        ≡ noted b (leaves down) (comes down)
  unfolding old_spot new_spot
  noted_down h =
      noted_by down x (b.x + see) (λ j. b.y + (see + 1) == y + distance_of see j)
        (λ j. b.y + distance_of see j == y + see)
        (λ j. both b.x b.y (x + j) see (y + distance_of see j) (see + 1))
        (λ j. both b.x b.y (x + j) see (y + see) (distance_of see j))
        (round_of see x b.x (λ g. b.y + (see + 1) == y + g) ∙ leave_minus see (gap x b.x) y b.y h)
        (round_of see x b.x (λ g. b.y + g == y + see) ∙ come_minus see (gap x b.x) y b.y h)

  noted_left :
      look_one (old_spot left see x y) (new_spot left see x y) (2 * see + 1) b
      ≡ noted b (leaves left) (comes left)
  unfolding old_spot new_spot
  noted_left =
      noted_by left y (b.y + see) (λ j. b.x + distance_of see j == x + see + 1)
        (λ j. b.x + see == x + distance_of see j)
        (λ j. swapped_both b.x b.y (x + see + 1) (distance_of see j) (y + j) see)
        (λ j. swapped_both b.x b.y (x + distance_of see j) see (y + j) see)
        (round_of see y b.y (λ g. b.x + g == x + see + 1)
          ∙ leave_plus see (gap y b.y) x b.x
          ∙ swapped _ _ _ _ see)
        (round_of see y b.y (λ g. b.x + see == x + g)
          ∙ come_plus see (gap y b.y) x b.x
          ∙ swapped _ _ _ _ see)

  noted_right :
      0 < x
      → look_one (old_spot right see x y) (new_spot right see x y) (2 * see + 1) b
        ≡ noted b (leaves right) (comes right)
  unfolding old_spot new_spot
  noted_right h =
      noted_by right y (b.y + see) (λ j. b.x + (see + 1) == x + distance_of see j)
        (λ j. b.x + distance_of see j == x + see)
        (λ j. swapped_both b.x b.y (x + distance_of see j) (see + 1) (y + j) see)
        (λ j. swapped_both b.x b.y (x + see) (distance_of see j) (y + j) see)
        (round_of see y b.y (λ g. b.x + (see + 1) == x + g)
          ∙ leave_minus see (gap y b.y) x b.x h
          ∙ swapped _ _ _ _ see)
        (round_of see y b.y (λ g. b.x + g == x + see)
          ∙ come_minus see (gap y b.y) x b.x h
          ∙ swapped _ _ _ _ see)

  look_one-noted :
      (d : Direction)
      → IsReached d x y
      → look_one (old_spot d see x y) (new_spot d see x y) (2 * see + 1) b
        ≡ noted b (leaves d) (comes d)
  look_one-noted up h = noted_up
  look_one-noted down h = noted_down h
  look_one-noted left h = noted_left
  look_one-noted right h = noted_right h

-- The beings that pass a test.
abbrev pub filter : (Being → Bool) → List Being → List Being
filter f [] = []
filter f (b ∷ beings) = if f b then b ∷ filter f beings else filter f beings

noted_filter :
    (b : Being) (o w : Bool) (os ws : List Being)
    → (o && w) ≡ false
    → ◌≡◌ {A = List Being × List Being}
        ((noted b o w).0 ++ os, (noted b o w).1 ++ ws)
        (if o then b ∷ os else os, if w then b ∷ ws else ws)
noted_filter b true true os ws h = cc
noted_filter b true false os ws h = refl
noted_filter b false true os ws h = refl
noted_filter b false false os ws h = refl

disjoint : (o n : Bool) → ((o && not n) && (n && not o)) ≡ false
disjoint true true = refl
disjoint true false = refl
disjoint false true = refl
disjoint false false = refl

-- When a character has walked one place to `x`, `y`, those that are noted as coming into view are just
-- those in range of the new place and not of the old one, and those noted as leaving it the other way
-- round; each is noted once, in the order of the map's list. (A step right or down ends behind the
-- border of the map.)
pub sights-filter :
    (d : Direction) (see x y : ℕ) (beings : List Being)
    → IsReached d x y
    → sights d see x y beings ≡ (
      filter
          (λ b. is_in_range see (from_x d x) (from_y d y) b && not (is_in_range see x y b))
          beings,
      filter
          (λ b. is_in_range see x y b && not (is_in_range see (from_x d x) (from_y d y) b))
          beings,
    )
unfolding sights look_all
sights-filter d see x y [] h = refl
sights-filter d see x y (b ∷ beings) h =
    let o = leaves see x y b d in
    let w = comes see x y b d in
    let here = look_one-noted see x y b d h in
    let there = sights-filter d see x y beings h in
    (λ k. ((here k).0 ++ (there k).0, (here k).1 ++ (there k).1))
    ∙ noted_filter b o w _ _
        (disjoint (is_in_range see (from_x d x) (from_y d y) b) (is_in_range see x y b))
