-- ===== src/Character/Items/Contents.antt =====
-- src/character.cpp: what `AddItem` and `DelItem` do to the amounts that `HasItem` reports, and that
-- they keep the inventory a list in which each id occurs once with an amount above 0.
use etheos.Base.{
  ℕ, ◌+◌, ◌-◌, ◌^◌, ◌<◌, ◌≡◌, ◌∙◌, ap, min, true, false, some, List, ◌∷◌, ◌++◌, [], arith, ◌==◌,
  ◌||◌, ltb, inl, inr, Bool-cases, Option-cases, if◌then◌else◌,
}
use etheos.Base.Word.{add32, sub32, min32, is_negative}
use etheos.Character.{Item, Character, World}
use etheos.Character.Weight.{calculate_stats}
use etheos.Character.Items.{
  find_item, set_item, erase_item, is_none, is_unknown, has_item, add_item, del_item,
}
use etheos.Character.Items.Stock.{
  IsAmount, IsStock, amount_of, find_item-push, find_item-set, find_item-erase, push-IsStock,
  set_item-IsStock, erase_item-IsStock,
}

-- `CalculateStats` moves no items.
pub inventory-calculate_stats :
    (w : World) (c : Character) → (calculate_stats w c).inventory ≡ c.inventory
unfolding calculate_stats
inventory-calculate_stats w c = ground arith

pub has_item-inventory : (c : Character) (j : ℕ) → has_item c j true ≡ amount_of j c.inventory
unfolding has_item
has_item-inventory c j = ground arith

-- What `HasItem` reports of an inventory that has just been changed.
has_item-moved :
    (w : World) (c : Character) (items : List Item) (j : ℕ)
    → has_item (calculate_stats w (record c { inventory = items })) j true ≡ amount_of j items
has_item-moved w c items j =
    has_item-inventory _ j ∙ ap (amount_of j) (inventory-calculate_stats w _)

pub find_item-IsAmount :
    (id held : ℕ) (items : List Item)
    → IsStock items
    → find_item id items ≡ some held
    → IsAmount held
unfolding find_item
find_item-IsAmount id held [] h e = ground arith
find_item-IsAmount id held (i ∷ items) h e =
    ground (arith, find_item-IsAmount id held items h.2, h.0)

-- `AddItem` keeps an inventory in which each id occurs once, with an amount above 0 and below 2 ^
-- 31, whatever it is called with, if `MaxItem` is such an amount.
pub add_item-IsStock :
    (w : World) (id amount : ℕ) (c : Character)
    → IsAmount w.max_item
    → IsStock c.inventory
    → IsStock (add_item w id amount c).1.inventory
unfolding add_item
add_item-IsStock w id amount c m s = elim (Bool-cases (is_none amount || is_unknown w id)) [
  | inl refused ↦ rw refused s
  | inr allowed ↦ elim (Option-cases (find_item id c.inventory)) [
    | inl missing ↦
        rw (allowed, missing, inventory-calculate_stats)
          (push-IsStock id amount c.inventory s (ground arith) missing)
    | inr (held, e) ↦
        rw (allowed, e)
          (elim (Bool-cases (is_negative (add32 held amount))) [
            | inl over ↦ rw over s
            | inr fits ↦
                rw (fits, inventory-calculate_stats)
                  (set_item-IsStock id (min32 (add32 held amount) w.max_item) c.inventory s
                    (ground (arith, find_item-IsAmount id held c.inventory s e)))
          ])
  ]
]

-- `DelItem` keeps an inventory in which each id occurs once, with an amount above 0 and below 2 ^
-- 31, whatever it is called with.
pub del_item-IsStock :
    (w : World) (id amount : ℕ) (c : Character)
    → IsStock c.inventory
    → IsStock (del_item w id amount c).1.inventory
unfolding del_item
del_item-IsStock w id amount c s = elim (Bool-cases (is_none amount)) [
  | inl refused ↦ rw refused s
  | inr allowed ↦ elim (Option-cases (find_item id c.inventory)) [
    | inl missing ↦ rw (allowed, missing) s
    | inr (held, e) ↦
        rw (allowed, e, inventory-calculate_stats)
          (elim (Bool-cases (is_negative held || is_none (sub32 held amount))) [
            | inl gone ↦ rw gone (erase_item-IsStock id c.inventory s)
            | inr left ↦
                rw left (set_item-IsStock id (sub32 held amount) c.inventory s (ground arith))
          ])
  ]
]

-- What `AddItem` makes of an amount that is held: only what was there already is limited to `MaxItem`.
abbrev pub stacked : World → ℕ → ℕ → ℕ
stacked w held amount = if held == 0 then amount else min (held + amount) w.max_item

-- In an inventory that holds each id once, with amounts above 0, and with `MaxItem` above 0:
-- `AddItem`, called with a known item and an amount above 0 such that no `int` overflows, succeeds;
-- the item is then reported in the amount before and the new one, limited to `MaxItem` if there
-- were some before, and every other item in the amount before.
pub add_item-contents :
    (w : World) (id amount : ℕ) (c : Character)
    → IsAmount w.max_item
    → IsStock c.inventory
    → is_unknown w id ≡ false
    → 0 < amount
    → has_item c id true + amount < 2 ^ 31
    → ((add_item w id amount c).0 ≡ true)
      × ((j : ℕ)
          → has_item (add_item w id amount c).1 j true
            ≡ (if id == j then stacked w (has_item c id true) amount else has_item c j true))
unfolding add_item
add_item-contents w id amount c m s known some_new fits =
    let allowed : (is_none amount || is_unknown w id) ≡ false = ground arith in
    elim (Option-cases (find_item id c.inventory)) [
      | inl missing ↦ (
        rw (allowed, missing),
        λ j.
            rw (allowed, missing)
              (ground (
                arith,
                has_item-moved w c (c.inventory ++ record { id = id; amount = amount } ∷ []) j,
                find_item-push j id amount c.inventory missing,
                has_item-inventory c j,
                has_item-inventory c id,
                missing,
              )),
      )
      | inr (held, e) ↦
          let h : IsAmount held = find_item-IsAmount id held c.inventory s e in
          let no_overflow : is_negative (add32 held amount) ≡ false =
            ground (arith, has_item-inventory c id, e, h) in
          (
            rw (allowed, e, no_overflow),
            λ j.
                rw (allowed, e, no_overflow)
                  (ground (
                    arith,
                    has_item-moved w c
                        (set_item id (min32 (add32 held amount) w.max_item) c.inventory) j,
                    find_item-set j id (min32 (add32 held amount) w.max_item) held c.inventory e,
                    has_item-inventory c j,
                    has_item-inventory c id,
                    e,
                    h,
                  )),
          )
    ]

-- In an inventory that holds each id once, with amounts above 0: `DelItem`, called with an amount
-- above 0, succeeds exactly if the item is there; of the item as many are left as the amount
-- leaves, and every other item is reported as before.
pub del_item-contents :
    (w : World) (id amount : ℕ) (c : Character)
    → IsStock c.inventory
    → IsAmount amount
    → ((del_item w id amount c).0 ≡ ltb 0 (has_item c id true))
      × ((j : ℕ)
          → has_item (del_item w id amount c).1 j true
            ≡ (if id == j then has_item c id true - amount else has_item c j true))
unfolding del_item
del_item-contents w id amount c s a = elim (Option-cases (find_item id c.inventory)) [
  | inl missing ↦
      let allowed : is_none amount ≡ false = ground arith in
      (
        rw (allowed, missing) (ground (arith, has_item-inventory c id, missing)),
        λ j.
            rw (allowed, missing)
              (ground (arith, has_item-inventory c j, has_item-inventory c id, missing)),
      )
  | inr (held, e) ↦
      let allowed : is_none amount ≡ false = ground arith in
      let h : IsAmount held = find_item-IsAmount id held c.inventory s e in
      (
        rw (allowed, e) (ground (arith, has_item-inventory c id, e, h)),
        λ j.
            rw (allowed, e)
              (ground (
                arith,
                has_item-moved w c (erase_item id c.inventory) j,
                has_item-moved w c (set_item id (sub32 held amount) c.inventory) j,
                find_item-erase j id c.inventory s,
                find_item-set j id (sub32 held amount) held c.inventory e,
                has_item-inventory c j,
                has_item-inventory c id,
                e,
                h,
              )),
      )
]
