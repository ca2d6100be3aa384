-- ===== src/Character/Items/Stock.antt =====
-- Lists of items: what a search finds after a change, and the lists in which each id occurs once and
-- each amount is above 0.
use mathlib.Core.Option
use etheos.Base.{
  ℕ, ◌^◌, ◌<◌, ◌≡◌, refl, none, some, List, [], ◌∷◌, ◌++◌, arith, ◌==◌, inl, inr, Bool-cases,
  if◌then◌else◌,
}
use etheos.Character.{Item}
use etheos.Character.Items.{find_item, set_item, erase_item}

-- An amount that can be stored.
abbrev pub IsAmount : ℕ → Type 0
IsAmount a = (0 < a) × (a < 2 ^ 31)

abbrev pub IsStock : List Item → Type 0
IsStock [] = Unit
IsStock (i ∷ items) = IsAmount i.amount × (find_item i.id items ≡ none) × IsStock items

abbrev pub amount_of : ℕ → List Item → ℕ
amount_of id items = Option.get_or (find_item id items) 0

pub find_item-push :
    (j id amount : ℕ) (items : List Item)
    → find_item id items ≡ none
    → find_item j (items ++ record { id = id; amount = amount } ∷ [])
      ≡ (if id == j then some amount else find_item j items)
unfolding find_item
find_item-push j id amount [] h = refl
find_item-push j id amount (i ∷ items) h = ground (arith, find_item-push j id amount items)

pub find_item-set :
    (j id amount held : ℕ) (items : List Item)
    → find_item id items ≡ some held
    → find_item j (set_item id amount items) ≡ (if id == j then some amount else find_item j items)
unfolding find_item set_item
find_item-set j id amount held [] h = cc
find_item-set j id amount held (i ∷ items) h = ground (arith, find_item-set j id amount held items)

pub find_item-erase :
    (j id : ℕ) (items : List Item)
    → IsStock items
    → find_item j (erase_item id items) ≡ (if id == j then none else find_item j items)
unfolding find_item erase_item
find_item-erase j id [] h = ground arith
find_item-erase j id (i ∷ items) h = ground (arith, find_item-erase j id items h.2, h.1)

pub push-IsStock :
    (id amount : ℕ) (items : List Item)
    → IsStock items
    → IsAmount amount
    → find_item id items ≡ none
    → IsStock (items ++ record { id = id; amount = amount } ∷ [])
unfolding find_item
push-IsStock id amount [] h a e = (a, refl, tt)
push-IsStock id amount (i ∷ items) h a e = (
  h.0,
  ground (arith, find_item-push i.id id amount items, h.1),
  push-IsStock id amount items h.2 a (ground arith),
)

-- Neither change brings in an id.
find_item-set_missing :
    (j id amount : ℕ) (items : List Item)
    → find_item j items ≡ none
    → find_item j (set_item id amount items) ≡ none
unfolding find_item set_item
find_item-set_missing j id amount [] h = refl
find_item-set_missing j id amount (i ∷ items) h =
    ground (arith, find_item-set_missing j id amount items)

find_item-erase_missing :
    (j id : ℕ) (items : List Item)
    → find_item j items ≡ none
    → find_item j (erase_item id items) ≡ none
unfolding find_item erase_item
find_item-erase_missing j id [] h = refl
find_item-erase_missing j id (i ∷ items) h = ground (arith, find_item-erase_missing j id items)

pub set_item-IsStock :
    (id amount : ℕ) (items : List Item)
    → IsStock items
    → IsAmount amount
    → IsStock (set_item id amount items)
unfolding find_item set_item
set_item-IsStock id amount [] h a = tt
set_item-IsStock id amount (i ∷ items) h a = elim (Bool-cases (i.id == id)) [
  | inl hit ↦ rw hit (a, h.1, h.2)
  | inr miss ↦
      rw miss (
        h.0,
        find_item-set_missing i.id id amount items h.1,
        set_item-IsStock id amount items h.2 a,
      )
]

pub erase_item-IsStock :
    (id : ℕ) (items : List Item) → IsStock items → IsStock (erase_item id items)
unfolding find_item erase_item
erase_item-IsStock id [] h = tt
erase_item-IsStock id (i ∷ items) h = elim (Bool-cases (i.id == id)) [
  | inl hit ↦ rw hit (h.2)
  | inr miss ↦
      rw miss (h.0, find_item-erase_missing i.id id items h.1, erase_item-IsStock id items h.2)
]
