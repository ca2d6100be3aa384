-- ===== src/Maps/Chest/Amounts.antt =====
-- src/map.cpp, `Map_Chest`: how many of an item lie in a chest.
use etheos.Base.{
  ℕ, ◌+◌, ◌^◌, ◌≤◌, ◌<◌, ◌≡◌, some, List, [], ◌∷◌, ◌++◌, arith, inl, inr, Option-cases, ◌==◌,
  if◌then◌else◌, All,
}
use etheos.Base.Word.{add32, sub32}
use etheos.Character.Items.Stock.{IsAmount}
use etheos.Maps.Chest.{
  ChestItem, Chest, first_item, set_first, erase_first, chest_has_item, new_entry, chest_add_item,
  chest_del_item, chest_del_some_item,
}

-- All of an item that lies in a chest, in however many entries.
abbrev pub stored : ℕ → List ChestItem → ℕ
stored j [] = 0
stored j (i ∷ items) = (if i.id == j then i.amount else 0) + stored j items

-- Every entry has an amount above 0 that is not negative as an `int`.
abbrev pub HasAmounts : List ChestItem → Type 0
HasAmounts = All (λ i. IsAmount i.amount)

pub stored-append :
    (j : ℕ) (xs ys : List ChestItem) → stored j (xs ++ ys) ≡ stored j xs + stored j ys
stored-append j [] ys = omega arith
stored-append j (i ∷ xs) ys = omega (arith, stored-append j xs ys)

pub stored-set :
    (j id amount slot : ℕ) (items : List ChestItem) (it : ChestItem)
    → first_item id items ≡ some it
    → stored j (set_first id amount slot items) + (if id == j then it.amount else 0)
      ≡ stored j items + (if id == j then amount else 0)
unfolding first_item set_first
stored-set j id amount slot [] it e = cc
stored-set j id amount slot (i ∷ items) it e = ground (arith, stored-set j id amount slot items it)

pub stored-erase :
    (j id : ℕ) (items : List ChestItem) (it : ChestItem)
    → first_item id items ≡ some it
    → stored j (erase_first id items) + (if id == j then it.amount else 0) ≡ stored j items
unfolding first_item erase_first
stored-erase j id [] it e = cc
stored-erase j id (i ∷ items) it e = ground (arith, stored-erase j id items it)

pub first-IsAmount :
    (id : ℕ) (items : List ChestItem) (it : ChestItem)
    → HasAmounts items
    → first_item id items ≡ some it
    → IsAmount it.amount
unfolding first_item
first-IsAmount id [] it a e = cc
first-IsAmount id (i ∷ items) it a e = ground (arith, a.0, first-IsAmount id items it a.1)

stored-new_entry :
    (id amount slot : ℕ) (h : Chest) (j : ℕ)
    → stored j (new_entry id amount slot h).1.items
      ≡ stored j h.items + (if id == j then (new_entry id amount slot h).0 else 0)
unfolding new_entry
stored-new_entry id amount slot h j =
    ground (arith, stored-append j h.items (record { id = id; amount = amount; slot = slot } ∷ []))

-- What `AddItem` returns has been put in: nothing if it is 0.
pub stored-add :
    (id amount slot : ℕ) (h : Chest)
    → HasAmounts h.items
    → amount < 2 ^ 32
    → (j : ℕ)
    → stored j (chest_add_item id amount slot h).1.items
      ≡ stored j h.items + (if id == j then (chest_add_item id amount slot h).0 else 0)
unfolding chest_add_item
stored-add id amount slot h a small j = elim (Option-cases (first_item id h.items)) [
  | inl missing ↦ rw missing (ground (arith, stored-new_entry id amount slot h j))
  | inr (it, e) ↦
      let v : IsAmount it.amount = first-IsAmount id h.items it a e in
      rw e (
        ground (
          arith,
          stored-new_entry id amount slot h j,
          stored-set j id (add32 it.amount amount) it.slot h.items it e,
        ))
]

-- `DelSomeItem` takes out what it is told to, at most what the first entry holds.
pub stored-del_some :
    (now id amount : ℕ) (h : Chest)
    → HasAmounts h.items
    → amount ≤ chest_has_item id h
    → (j : ℕ)
    → stored j (chest_del_some_item now id amount h).1.items + (if id == j then amount else 0)
      ≡ stored j h.items
unfolding chest_del_some_item chest_del_item chest_has_item
stored-del_some now id amount h a le j = elim (Option-cases (first_item id h.items)) [
  | inl missing ↦
      rw (chest_del_some_item, missing)
        (let none_left : amount ≡ 0 = ground (arith, missing, le) in ground arith)
  | inr (it, e) ↦
      let v : IsAmount it.amount = first-IsAmount id h.items it a e in
      let below : amount ≤ it.amount = ground (arith, e, le) in
      rw (chest_del_some_item, e)
        (ground (
          arith,
          stored-set j id (sub32 it.amount amount) 0 h.items it e,
          stored-erase j id h.items it e,
        ))
]

pub chest_has_item_lt : (id : ℕ) (h : Chest) → HasAmounts h.items → chest_has_item id h < 2 ^ 31
unfolding chest_has_item
chest_has_item_lt id h a = elim (Option-cases (first_item id h.items)) [
  | inl missing ↦ rw (chest_has_item, missing) (omega arith)
  | inr (it, e) ↦ rw (chest_has_item, e) (first-IsAmount id h.items it a e).1
]
