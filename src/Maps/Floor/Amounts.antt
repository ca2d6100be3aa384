-- ===== src/Maps/Floor/Amounts.antt =====
-- src/map.cpp: how much of an item lies on a map.
use etheos.Base.{
  ℕ, ◌+◌, ◌-◌, ◌≤◌, ◌<◌, ◌^◌, ◌≡◌, refl, ap, sym, subst, ◌∙◌, false, none, some, List, [], ◌∷◌,
  ◌++◌, ◌==◌, arith, inl, inr, Bool-cases, ==→eq, if◌then◌else◌,
}
use etheos.Base.Word.{sub32, is_negative, lt32}
use etheos.Maps.Floor.{MapItem, get_map_item, take_some, del_some_item}

abbrev pub lying : ℕ → List MapItem → ℕ
lying j [] = 0
lying j (i ∷ items) = (if i.id == j then i.amount else 0) + lying j items

pub lying-append : (j : ℕ) (xs ys : List MapItem) → lying j (xs ++ ys) ≡ lying j xs + lying j ys
lying-append j [] ys = omega arith
lying-append j (i ∷ xs) ys = omega (arith, lying-append j xs ys)

-- What is left of an item counts as what it was less what has been taken.
taken_from :
    (uid j a : ℕ) (h : MapItem) (items : List MapItem)
    → a ≤ h.amount
    → h.amount < 2 ^ 31
    → lying j (if lt32 a h.amount then record h { amount = sub32 h.amount a } ∷ items else items)
        + (if h.id == j then a else 0)
      ≡ (if h.id == j then h.amount else 0) + lying j items
taken_from uid j a h items le small = elim (Bool-cases (lt32 a h.amount)) [
  | inl part ↦ rw part (
      let left : sub32 h.amount a ≡ h.amount - a = ground (arith, le, small) in
      ground (arith, left, le))
  | inr whole ↦
      rw whole (let all : a ≡ h.amount = ground (arith, whole, le, small) in ground (arith, all))
]

lying-take_some :
    (uid a : ℕ) (i : MapItem) (items : List MapItem)
    → get_map_item uid items ≡ some i
    → a ≤ i.amount
    → i.amount < 2 ^ 31
    → (j : ℕ) → lying j (take_some uid a items) + (if i.id == j then a else 0) ≡ lying j items
unfolding get_map_item take_some
lying-take_some uid a i [] found le small j = cc
lying-take_some uid a i (h ∷ items) found le small j = elim (Bool-cases (h.uid == uid)) [
  | inl here ↦
      let same : h ≡ i =
        let found' : some h ≡ some i =
          (let e : some h ≡ get_map_item uid (h ∷ items) = rw here refl in e) ∙ found in
        ap (λ r. elim r [ none ↦ h | some k ↦ k ]) found' in
      subst
        (λ k.
          lying j (take_some uid a (h ∷ items)) + (if k.id == j then a else 0)
          ≡ lying j (h ∷ items))
        same
        (let le' : a ≤ h.amount = subst (λ k. a ≤ k.amount) (sym same) le in
          let small' : h.amount < 2 ^ 31 = subst (λ k. k.amount < 2 ^ 31) (sym same) small in
          rw (take_some, here) (taken_from uid j a h items le' small'))
  | inr elsewhere ↦
      let there =
        lying-take_some uid a i items
          ((let e : get_map_item uid items ≡ get_map_item uid (h ∷ items) = rw elsewhere refl in e)
            ∙ found)
          le small j in
      rw (take_some, elsewhere) (omega (arith, there))
]

-- `DelSomeItem` takes from the item that `GetItem` finds.
pub lying-del_some :
    (uid a : ℕ) (i : MapItem) (items : List MapItem)
    → get_map_item uid items ≡ some i
    → a ≤ i.amount
    → i.amount < 2 ^ 31
    → (j : ℕ) → lying j (del_some_item uid a items) + (if i.id == j then a else 0) ≡ lying j items
unfolding del_some_item
lying-del_some uid a i items found le small j =
    let ok : is_negative a ≡ false = ground (arith, le, small) in
    rw (del_some_item, ok) (lying-take_some uid a i items found le small j)

-- `GetItem` finds an item with the id.
pub get_map_item-uid :
    (uid : ℕ) (i : MapItem) (items : List MapItem) → get_map_item uid items ≡ some i → i.uid ≡ uid
unfolding get_map_item
get_map_item-uid uid i [] found = cc
get_map_item-uid uid i (h ∷ items) found = elim (Bool-cases (h.uid == uid)) [
  | inl here ↦
      let found' : some h ≡ some i =
        (let e : some h ≡ get_map_item uid (h ∷ items) = rw here refl in e) ∙ found in
      ap (λ r. elim r [ none ↦ uid | some k ↦ k.uid ]) (sym found') ∙ ==→eq h.uid uid here
  | inr elsewhere ↦ get_map_item-uid uid i items (
      (let e : get_map_item uid items ≡ get_map_item uid (h ∷ items) = rw elsewhere refl in e)
      ∙ found)
]
