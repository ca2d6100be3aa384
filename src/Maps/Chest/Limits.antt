-- ===== src/Maps/Chest/Limits.antt =====
-- src/map.cpp, `Map_Chest`: the limits of a chest.
use etheos.Base.{
  ℕ, ◌⊎◌, ◌||◌, ◌+◌, ◌^◌, ◌≤◌, ◌<◌, ◌≡◌, refl, Bool, true, false, none, some, List, [], ◌∷◌, ◌++◌,
  arith, inl, inr, Bool-cases, Option-cases, ◌==◌, if◌then◌else◌, length, length-append, leb, All,
  All-append,
}
use etheos.Base.Word.{add32, is_negative, lt32, le32}
use etheos.Character.Items.{is_none}
use etheos.Character.Items.Stock.{IsAmount}
use etheos.Maps.Chest.{
  ChestItem, Chest, first_item, set_first, erase_first, user_items, as_size, new_entry,
  chest_add_item,
}
use etheos.Maps.Chest.Amounts.{HasAmounts, first-IsAmount}

-- Every entry holds something, and no more than the limit; there are no more entries than slots.
pub record IsChest (h : Chest) : Type 0 where
  pub limit : h.maxchest < 2 ^ 31
  pub places : h.chestslots < 2 ^ 31
  pub amounts : HasAmounts h.items
  pub within : All (λ i. i.amount ≤ h.maxchest) h.items
  pub entries : length h.items ≤ h.chestslots

All-set_first :
    (P : ℕ → Type 0) (id amount slot : ℕ) (items : List ChestItem)
    → P amount
    → All (λ i. P i.amount) items
    → All (λ i. P i.amount) (set_first id amount slot items)
unfolding set_first
All-set_first P id amount slot [] p a = tt
All-set_first P id amount slot (i ∷ items) p a = elim (Bool-cases (i.id == id)) [
  | inl same ↦ rw (set_first, same) (p, a.1)
  | inr other ↦ rw (set_first, other) (a.0, All-set_first P id amount slot items p a.1)
]

All-erase_first :
    (P : ℕ → Type 0) (id : ℕ) (items : List ChestItem)
    → All (λ i. P i.amount) items
    → All (λ i. P i.amount) (erase_first id items)
unfolding erase_first
All-erase_first P id [] a = tt
All-erase_first P id (i ∷ items) a = elim (Bool-cases (i.id == id)) [
  | inl same ↦ rw (erase_first, same) a.1
  | inr other ↦ rw (erase_first, other) (a.0, All-erase_first P id items a.1)
]

length-set_first :
    (id amount slot : ℕ) (items : List ChestItem)
    → length (set_first id amount slot items) ≡ length items
unfolding set_first
length-set_first id amount slot [] = refl
length-set_first id amount slot (i ∷ items) = ground (arith, length-set_first id amount slot items)

length-erase_first :
    (id : ℕ) (items : List ChestItem) → length (erase_first id items) ≤ length items
unfolding erase_first
length-erase_first id [] = omega arith
length-erase_first id (i ∷ items) = ground (arith, length-erase_first id items)

-- An entry that is there takes a new amount.
set-IsChest :
    (id amount slot : ℕ) (h : Chest)
    → IsChest h
    → IsAmount amount
    → amount ≤ h.maxchest
    → IsChest (record h { items = set_first id amount slot h.items })
set-IsChest id amount slot h v p le = record {
  limit = v.limit;
  places = v.places;
  amounts = All-set_first IsAmount id amount slot h.items p v.amounts;
  within = All-set_first (λ a. a ≤ h.maxchest) id amount slot h.items le v.within;
  entries = omega (arith, length-set_first id amount slot h.items, v.entries);
}

-- What `AddItem` leaves, and what it returns.
abbrev pub Adds : ℕ → Chest → ℕ × Chest → Type 0
Adds amount h r = IsChest r.1 × ((r.0 ≡ amount) ⊎ (r ≡ (0, h)))

module _ (id amount slot : ℕ) (h : Chest) (v : IsChest h) (p : IsAmount amount) where
  entry : ChestItem
  entry = record { id = id; amount = amount; slot = slot }

  -- A new entry at either end, where there is a place for it.
  pushed :
      (length h.items < h.chestslots)
      → amount ≤ h.maxchest
      → IsChest (record h { items = h.items ++ entry ∷ [] })
        × IsChest (record h { items = entry ∷ h.items })
  unfolding entry
  pushed room le =
      let one : length (h.items ++ entry ∷ []) ≡ length h.items + 1 =
        length-append h.items (entry ∷ []) in
      (
        record {
          limit = v.limit;
          places = v.places;
          amounts = All-append (λ i. IsAmount i.amount) h.items (entry ∷ []) v.amounts (p, tt);
          within = All-append (λ i. i.amount ≤ h.maxchest) h.items (entry ∷ []) v.within (le, tt);
          entries = omega (arith, one);
        },
        record {
          limit = v.limit;
          places = v.places;
          amounts = (p, v.amounts);
          within = (le, v.within);
          entries = omega arith;
        },
      )

  new_entry-Adds : Adds amount h (new_entry id amount slot h)
  unfolding new_entry entry
  new_entry-Adds =
      elim (Bool-cases (leb (as_size h.chestslots) (length h.items) || lt32 h.maxchest amount)) [
        | inl full ↦ rw full (v, inr refl)
        | inr fits ↦
            let (back, front) =
              pushed (ground (arith, v.places, fits)) (ground (arith, v.limit, p.1, fits)) in
            elim (Bool-cases (slot == 0)) [
              | inl player ↦
                  elim (Bool-cases (le32 h.chestslots (add32 (user_items h.items) h.slots))) [
                    | inl none_left ↦ rw (fits, player, none_left) (v, inr refl)
                    | inr left ↦ rw (fits, player, left) (back, inl refl)
                  ]
              | inr spawn ↦ rw (fits, spawn) (front, inl refl)
            ]
      ]

Adds-if :
    (amount : ℕ) (h : Chest) (b : Bool) {x y : ℕ × Chest}
    → Adds amount h x
    → Adds amount h y
    → Adds amount h (if b then x else y)
Adds-if amount h true p q = p
Adds-if amount h false p q = q

-- Where the item is looked for.
grow-Adds :
    (id amount slot : ℕ) (h : Chest)
    → IsChest h
    → IsAmount amount
    → Adds amount h (new_entry id amount slot h)
    → Adds amount h (elim (first_item id h.items) [
      | none ↦ new_entry id amount slot h
      | some i ↦
          if is_negative (add32 i.amount amount) || lt32 h.maxchest (add32 i.amount amount)
          then (0, h)
          else (amount, record h { items = set_first id (add32 i.amount amount) i.slot h.items })
    ])
grow-Adds id amount slot h v p fresh = elim (Option-cases (first_item id h.items)) [
  | inl missing ↦ rw missing fresh
  | inr (it, e) ↦
      let q : IsAmount it.amount = first-IsAmount id h.items it v.amounts e in
      let sum : ℕ = add32 it.amount amount in
      elim (Bool-cases (is_negative sum || lt32 h.maxchest sum)) [
        | inl over ↦ rw (e, over) (v, inr refl)
        | inr fits ↦
            rw (e, fits)
              (
                set-IsChest id sum it.slot h v (ground (arith, q, p, fits))
                    (ground (arith, q, p, v.limit, fits)),
                inl refl,
              )
      ]
]

-- `AddItem` keeps the limits of a chest, for an item of a player and of a spawn: every entry holds
-- something and at most `maxchest`, and there are at most `chestslots` entries. It returns the whole
-- amount, or 0 and leaves the chest as it is.
pub chest_add_item-Adds :
    (id amount slot : ℕ) (h : Chest)
    → IsChest h
    → amount < 2 ^ 32
    → Adds amount h (chest_add_item id amount slot h)
unfolding chest_add_item
chest_add_item-Adds id amount slot h v small = elim (Bool-cases (is_none amount)) [
  | inl nothing ↦ rw nothing (v, inr refl)
  | inr something ↦
      let p : IsAmount amount = ground arith in
      let fresh = new_entry-Adds id amount slot h v p in
      rw something (Adds-if amount h (slot == 0) (grow-Adds id amount slot h v p fresh) fresh)
]

-- `AddItem` does nothing with an amount that is not above 0.
pub chest_add_item_none :
    (id amount slot : ℕ) (h : Chest)
    → is_none amount ≡ true
    → chest_add_item id amount slot h ≡ (0, h)
unfolding chest_add_item
chest_add_item_none id amount slot h e = rw (chest_add_item, e)
