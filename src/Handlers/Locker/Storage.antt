-- ===== src/Handlers/Locker/Storage.antt =====
-- src/handlers/Locker.cpp: what becomes of the items, carried and stored, at a locker.
use etheos.Base.{
  ℕ, ◌+◌, ◌-◌, ◌^◌, ◌≤◌, ◌<◌, ◌≡◌, refl, ap, ◌∙◌, true, false, none, some, List, [], ◌∷◌, ◌++◌,
  arith, inl, inr, Bool-cases, Option-cases, ◌==◌, ==→eq, if◌then◌else◌, length, leb,
}
use etheos.Base.Word.{add32, sub32, is_negative, min32}
use etheos.Character.{Item, Character, World}
use etheos.Character.Weight.{calculate_stats}
use etheos.Character.Items.{
  is_none, is_unknown, find_item, set_item, erase_item, has_item, add_item, can_hold_item,
}
use etheos.Character.Items.Stock.{
  IsAmount, IsStock, amount_of, find_item-push, find_item-set, find_item-erase,
}
use etheos.Character.Items.Contents.{find_item-IsAmount}
use etheos.Character.Items.Capacity.{can_hold_item_le}
use etheos.Character.Items.Moves.{
  has_item-del_item, has_item-calculate_stats, bank-calculate_stats, bank-add_item, bank-del_item,
  has_item-add_within,
}
use etheos.Handlers.Locker.{add_common, locker_max, store, retrieve}

-- How many of an item are carried and stored.
abbrev pub owned : Character → ℕ → ℕ
owned c j = has_item c j true + amount_of j c.bank

-- What is stored is no matter to the inventory.
has_item-bank :
    (c : Character) (bank : List Item) (j : ℕ)
    → has_item (record c { bank = bank }) j true ≡ has_item c j true
unfolding has_item
has_item-bank c bank j = refl

has_item-add_common :
    (w : World) (item a : ℕ) (c : Character)
    → IsStock c.inventory
    → a < 2 ^ 31
    → (j : ℕ)
    → has_item (add_common w item a c).0 j true
      ≡ (if item == j then has_item c item true - a else has_item c j true)
unfolding add_common
has_item-add_common w item a c s h j =
    has_item-calculate_stats w _ j ∙ has_item-del_item w item a c s h j

bank-add_common : (w : World) (item a : ℕ) (c : Character) → (add_common w item a c).0.bank ≡ c.bank
unfolding add_common
bank-add_common w item a c = bank-calculate_stats w _ ∙ bank-del_item w item a c

owned-add_common :
    (w : World) (item a : ℕ) (bank : List Item) (c : Character)
    → IsStock c.inventory
    → a < 2 ^ 31
    → (j : ℕ)
    → owned (add_common w item a (record c { bank = bank })).0 j
      ≡ (if item == j then has_item c item true - a else has_item c j true) + amount_of j bank
unfolding has_item
owned-add_common w item a bank c s h j =
    let moved : Character = record c { bank = bank } in
    ap (λ n. n + amount_of j (add_common w item a moved).0.bank)
      (has_item-add_common w item a moved s h j)
    ∙ ap
        (λ items.
          (if item == j then has_item c item true - a else has_item c j true) + amount_of j items)
        (bank-add_common w item a moved)

-- The two amounts of one item change by the same number, those of any other by none.
shift_amounts :
    (item j a kept : ℕ) (here there : ℕ → ℕ)
    → a ≤ here item
    → kept ≡ there item + a
    → (if item == j then here item - a else here j) + (if item == j then kept else there j)
      ≡ here j + there j
shift_amounts item j a kept here there h k = elim (Bool-cases (item == j)) [
  | inl same ↦ rw same (
      let p : here item ≡ here j = ap here (==→eq item j same) in
      let q : there item ≡ there j = ap there (==→eq item j same) in omega (arith, p, q))
  | inr other ↦ rw other
]

amount_of-push :
    (j id amount : ℕ) (items : List Item)
    → find_item id items ≡ none
    → amount_of j (items ++ record { id = id; amount = amount } ∷ [])
      ≡ (if id == j then amount else amount_of j items)
amount_of-push j id amount items h = ground (arith, find_item-push j id amount items h)

amount_of-set :
    (j id amount held : ℕ) (items : List Item)
    → find_item id items ≡ some held
    → amount_of j (set_item id amount items) ≡ (if id == j then amount else amount_of j items)
amount_of-set j id amount held items h = ground (arith, find_item-set j id amount held items h)

-- `add_common` on a locker that has gained what it takes from the inventory.
owned-moved :
    (w : World) (item a kept : ℕ) (bank : List Item) (c : Character)
    → IsStock c.inventory
    → a < 2 ^ 31
    → a ≤ has_item c item true
    → kept ≡ amount_of item c.bank + a
    → ((j : ℕ) → amount_of j bank ≡ (if item == j then kept else amount_of j c.bank))
    → (j : ℕ) → owned (add_common w item a (record c { bank = bank })).0 j ≡ owned c j
owned-moved w item a kept bank c s h carried k stored j =
    owned-add_common w item a bank c s h j
    ∙ ap (λ n. (if item == j then has_item c item true - a else has_item c j true) + n) (stored j)
    ∙ shift_amounts item j a kept (λ i. has_item c i true) (λ i. amount_of i c.bank) carried k

-- `Locker_Add` in front of a vault makes and loses no item, if the amount is above 0 and carried
-- and the locker holds no more of it than `MaxBank`. (The inventory and the locker hold each id
-- once, with amounts above 0.)
pub store-owned :
    (w : World) (item amount : ℕ) (c : Character)
    → IsStock c.inventory
    → IsStock c.bank
    → IsAmount w.max_bank
    → IsAmount amount
    → amount ≤ has_item c item true
    → amount_of item c.bank ≤ w.max_bank
    → (j : ℕ) → owned (store w item amount c).0 j ≡ owned c j
unfolding store
store-owned w item amount c s t m a carried limit j = elim (Option-cases (find_item item c.bank)) [
  | inl missing ↦
      let moved : ℕ = min32 amount w.max_bank in
      elim (Bool-cases (leb (locker_max w c) (length c.bank))) [
        | inl full ↦ rw (missing, store, full)
        | inr room ↦
            rw (missing, store, room)
              (owned-moved w item moved moved _ c s (ground arith) (ground arith)
                (rw missing (omega arith)) (λ i. amount_of-push i item moved c.bank missing) j)
      ]
  | inr (held, e) ↦
      let moved : ℕ = min32 amount (sub32 w.max_bank held) in
      let h : IsAmount held = find_item-IsAmount item held c.bank t e in
      let below : held ≤ w.max_bank = ground (arith, limit, e) in
      elim (Bool-cases (is_negative (add32 held amount))) [
        | inl over ↦ rw (e, store, over)
        | inr fits ↦
            rw (e, store, fits)
              (owned-moved w item moved (add32 held moved) _ c s (ground arith) (ground arith)
                (rw e (ground arith)) (λ i. amount_of-set i item (add32 held moved) held c.bank e)
                j)
      ]
]

-- What is left in the locker.
amount_of-left :
    (item taken held : ℕ) (bank : List Item)
    → IsStock bank
    → find_item item bank ≡ some held
    → IsAmount held
    → taken ≤ held
    → (j : ℕ)
    → amount_of j (
        if is_none (sub32 held taken)
        then erase_item item bank
        else set_item item (sub32 held taken) bank)
      ≡ (if item == j then amount_of item bank - taken else amount_of j bank)
amount_of-left item taken held bank s e h le j =
    ground
      (arith, find_item-erase j item bank s, find_item-set j item (sub32 held taken) held bank e, e)

-- `Locker_Take` in front of a vault makes and loses no item, if what is carried and stored of the
-- item, a known one, is together at most `MaxItem`. (The inventory and the locker hold each id
-- once, with amounts above 0.)
pub retrieve-owned :
    (w : World) (item : ℕ) (c : Character)
    → IsStock c.inventory
    → IsStock c.bank
    → IsAmount w.max_item
    → is_unknown w item ≡ false
    → owned c item ≤ w.max_item
    → (j : ℕ) → owned (retrieve w item c).0 j ≡ owned c j
unfolding retrieve
retrieve-owned w item c s t m known limit j = elim (Option-cases (find_item item c.bank)) [
  | inl missing ↦ rw (missing, retrieve)
  | inr (held, e) ↦
      let taken : ℕ = can_hold_item w item held c in
      let h : IsAmount held = find_item-IsAmount item held c.bank t e in
      let le : taken ≤ held = can_hold_item_le w item held c h m in
      let c' : Character = calculate_stats w (add_item w item taken c).1 in
      let left : List Item → List Item = λ bank.
        if is_none (sub32 held taken)
        then erase_item item bank
        else set_item item (sub32 held taken) bank in
      let enough : taken ≤ amount_of item c.bank = rw e le in
      let carried =
        has_item-bank c' (left c'.bank) j
        ∙ has_item-calculate_stats w (add_item w item taken c).1 j
        ∙ has_item-add_within w item taken c s m known (omega (arith, limit, enough)) j in
      let stored =
        ap (λ bank. amount_of j (left bank))
          (bank-calculate_stats w (add_item w item taken c).1 ∙ bank-add_item w item taken c)
        ∙ amount_of-left item taken held c.bank t e h le j in
      let shifted =
        shift_amounts item j taken (has_item c item true + taken) (λ i. amount_of i c.bank)
          (λ i. has_item c i true) enough refl in
      rw (e, retrieve) (omega (arith, carried, stored, shifted))
]
