-- ===== src/Handlers/Chest/Contents.antt =====
-- src/handlers/Chest.cpp: what becomes of the items, carried and in the chests.
use etheos.Base.{
  ℕ, ◌+◌, ◌-◌, ◌^◌, ◌≤◌, ◌<◌, ◌≡◌, refl, ap, ◌∙◌, true, false, List, [], ◌∷◌, ◌++◌, arith, inl, inr,
  Bool-cases, ◌==◌, ==→eq, ==→ne, if◌then◌else◌, ◌&&◌, All,
}
use etheos.Base.Word.{sub32, lt32, le32, min32}
use etheos.Character.{Character, World}
use etheos.Character.Items.{is_none, is_unknown, has_item, can_hold_item}
use etheos.Character.Items.Stock.{IsAmount, IsStock}
use etheos.Character.Items.Offers.{has_item_lt}
use etheos.Character.Items.Capacity.{can_hold_item_le_any}
use etheos.Character.Items.Moves.{has_item-del_item, has_item-add_within, has_item-not_trading}
use etheos.Maps.Chest.{Chest, chest_has_item, chest_add_item}
use etheos.Maps.Chest.Amounts.{stored, stored-add, stored-del_some, chest_has_item_lt}
use etheos.Maps.Chest.Limits.{IsChest, chest_add_item-Adds, chest_add_item_none}
use etheos.Handlers.Chest.{Result, put_in, put_in_chests, take_from, take_from_chests}

-- All of an item that lies in the chests of a map.
abbrev pub laid : ℕ → List Chest → ℕ
laid j [] = 0
laid j (h ∷ hs) = stored j h.items + laid j hs

-- All of an item, carried and laid.
abbrev pub all_of : ℕ → Result → ℕ
all_of j r = has_item r.character j true + laid j r.chests

laid-append : (j : ℕ) (xs ys : List Chest) → laid j (xs ++ ys) ≡ laid j xs + laid j ys
laid-append j [] ys = omega arith
laid-append j (h ∷ xs) ys = omega (arith, laid-append j xs ys)

-- What `AddItem` has put in is above 0, and is the whole amount.
added_whole :
    (id amount slot : ℕ) (h : Chest)
    → IsChest h
    → amount < 2 ^ 32
    → ((chest_add_item id amount slot h).0 == 0) ≡ false
    → ((chest_add_item id amount slot h).0 ≡ amount) × IsAmount amount
added_whole id amount slot h v small added = elim (Bool-cases (is_none amount)) [
  | inl nothing ↦
      let zero_put = ap (λ r. r.0) (chest_add_item_none id amount slot h nothing) in
      absurd (omega (arith, zero_put, ==→ne _ 0 added))
  | inr something ↦ elim (chest_add_item-Adds id amount slot h v small).1 [
    | inl whole ↦ (whole, ground arith)
    | inr refused ↦
        let zero_put = ap (λ r. r.0) refused in absurd (omega (arith, zero_put, ==→ne _ 0 added))
  ]
]

-- One amount falls by what the other grows by.
shifted :
    (id j a : ℕ) (here there : ℕ → ℕ)
    → a ≤ here id
    → (if id == j then here id - a else here j) + (there j + (if id == j then a else 0))
      ≡ here j + there j
shifted id j a here there le = elim (Bool-cases (id == j)) [
  | inl same ↦
      rw same (let e : here id ≡ here j = ap here (==→eq id j same) in omega (arith, e, le))
  | inr other ↦ rw other (omega arith)
]

-- `Chest_Add` in front of a chest makes and loses no item, whatever amount the client names and
-- whether or not the chest takes it: what is carried and what lies in the chest is together as
-- before, for every item. (The inventory holds each id once, with amounts above 0, the chest is
-- within its limits, and the character is not trading.)
pub put_in-all_of :
    (w : World) (max_chest id amount : ℕ) (h : Chest) (c : Character)
    → IsStock c.inventory
    → IsChest h
    → c.trading ≡ false
    → max_chest < 2 ^ 31
    → amount < 2 ^ 32
    → (j : ℕ) → all_of j (put_in w max_chest id amount h c) ≡ has_item c j true + stored j h.items
unfolding put_in
put_in-all_of w max_chest id amount h c s v free m small j =
    let moved : ℕ = min32 amount (sub32 max_chest (chest_has_item id h)) in
    let r = chest_add_item id moved 0 h in
    let bound : moved < 2 ^ 32 = ground arith in
    let put = stored-add id moved 0 h v.amounts bound j in
    elim (Bool-cases (le32 moved (has_item c id false))) [
      | inr few ↦ rw few (omega arith)
      | inl enough ↦ elim (Bool-cases (r.0 == 0)) [
        | inl refused ↦
            rw (enough, refused)
              (let nil : r.0 ≡ 0 = ==→eq r.0 0 refused in ground (arith, put, nil))
        | inr added ↦
            let (whole, p) = added_whole id moved 0 h v bound added in
            let le : moved ≤ has_item c id true =
              ground (arith, has_item-not_trading c id free, has_item_lt c id s, p.0, p.1) in
            let carried = has_item-del_item w id moved c s p.1 j in
            let sum = shifted id j moved (λ k. has_item c k true) (λ k. stored k h.items) le in
            let got : stored j r.1.items ≡ stored j h.items + (if id == j then moved else 0) =
              put ∙ ap (λ a. stored j h.items + (if id == j then a else 0)) whole in
            rw (enough, added) (omega (arith, carried, got, sum))
      ]
    ]

-- `Chest_Add` at a place of a map makes and loses no item, whatever amount the client names, and
-- whether or not there is a chest that takes it: what is carried and what lies in all the chests is
-- together as before, for every item. (The inventory holds each id once, with amounts above 0, the
-- chests are within their limits, and the character is not trading.)
pub put_in_chests-all_of :
    (w : World) (max_chest x y id amount : ℕ) (hs : List Chest) (c : Character)
    → IsStock c.inventory
    → All IsChest hs
    → c.trading ≡ false
    → max_chest < 2 ^ 31
    → amount < 2 ^ 32
    → (j : ℕ)
    → all_of j (put_in_chests w max_chest x y id amount hs c) ≡ has_item c j true + laid j hs
unfolding put_in_chests
put_in_chests-all_of w max_chest x y id amount [] c s v free m small j = refl
put_in_chests-all_of w max_chest x y id amount (h ∷ hs) c s v free m small j =
    let r = put_in w max_chest id amount h c in
    elim (Bool-cases (h.x == x && h.y == y)) [
      | inl here ↦
          let one = put_in-all_of w max_chest id amount h c s v.0 free m small j in
          rw (put_in_chests, here) (omega (arith, one, laid-append j r.chests hs))
      | inr elsewhere ↦
          let others = put_in_chests-all_of w max_chest x y id amount hs c s v.1 free m small j in
          rw (put_in_chests, elsewhere) (omega (arith, others))
    ]

held_le :
    (w : World) (id : ℕ) (h : Chest) (c : Character)
    → IsChest h
    → IsAmount w.max_item
    → can_hold_item w id (chest_has_item id h) c ≤ chest_has_item id h
held_le w id h c v m =
    can_hold_item_le_any w id (chest_has_item id h) c (chest_has_item_lt id h v.amounts) m

take_from-all_of :
    (w : World) (now id : ℕ) (h : Chest) (c : Character)
    → IsStock c.inventory
    → IsChest h
    → IsAmount w.max_item
    → is_unknown w id ≡ false
    → has_item c id true + chest_has_item id h ≤ w.max_item
    → (j : ℕ)
    → all_of j (take_from w now id (can_hold_item w id (chest_has_item id h) c) h c)
      ≡ has_item c j true + stored j h.items
unfolding take_from
take_from-all_of w now id h c s v m known limit j =
    let taken = can_hold_item w id (chest_has_item id h) c in
    let le = held_le w id h c v m in
    let carried = has_item-add_within w id taken c s m known (omega (arith, le, limit)) j in
    let out = stored-del_some now id taken h v.amounts le j in
    elim (Bool-cases (id == j)) [
      | inl same ↦
          let e : has_item c id true ≡ has_item c j true =
            ap (λ k. has_item c k true) (==→eq id j same) in
          ground (arith, carried, out, e)
      | inr other ↦ ground (arith, carried, out)
    ]

-- `Chest_Take` at a place of a map makes and loses no item, where what is carried of a known item
-- and what any one entry of a chest's holds is together at most `MaxItem`: what is carried and what
-- lies in all the chests is together as before, for every item. (The inventory holds each id once,
-- with amounts above 0, and the chests are within their limits.)
pub take_from_chests-all_of :
    (w : World) (now x y id : ℕ) (hs : List Chest) (c : Character)
    → IsStock c.inventory
    → All IsChest hs
    → IsAmount w.max_item
    → is_unknown w id ≡ false
    → All (λ h. has_item c id true + chest_has_item id h ≤ w.max_item) hs
    → (j : ℕ) → all_of j (take_from_chests w now x y id hs c) ≡ has_item c j true + laid j hs
unfolding take_from_chests
take_from_chests-all_of w now x y id [] c s v m known limit j = refl
take_from_chests-all_of w now x y id (h ∷ hs) c s v m known limit j =
    let taken : ℕ = can_hold_item w id (chest_has_item id h) c in
    let r = take_from w now id taken h c in
    elim (Bool-cases (h.x == x && h.y == y && lt32 0 taken)) [
      | inl here ↦
          let one = take_from-all_of w now id h c s v.0 m known limit.0 j in
          rw (take_from_chests, here) (omega (arith, one, laid-append j r.chests hs))
      | inr elsewhere ↦
          let others = take_from_chests-all_of w now x y id hs c s v.1 m known limit.1 j in
          rw (take_from_chests, elsewhere) (omega (arith, others))
    ]
