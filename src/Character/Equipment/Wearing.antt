-- ===== src/Character/Equipment/Wearing.antt =====
-- src/character.cpp, `Equip` and `Unequip`: no item is made or lost.
use etheos.Base.{
  ℕ, zero, suc, ◌+◌, ◌-◌, ◌≤◌, ◌<◌, ◌≡◌, ◌≢◌, refl, ap, ◌∙◌, Bool, true, false, not, some, List, [],
  ◌∷◌, arith, inl, inr, Bool-cases, Option-cases, ◌==◌, ==→eq, ltb, get_or, set, length,
  if◌then◌else◌, ◌&&◌, ◌||◌,
}
use etheos.Base.Word.{shifted16}
use etheos.Character.{Character, World}
use etheos.Character.Weight.{calculate_stats}
use etheos.Character.Items.{is_unknown, find_item, has_item, add_item, del_item}
use etheos.Character.Items.Stock.{IsAmount, IsStock}
use etheos.Character.Items.Contents.{find_item-IsAmount}
use etheos.Character.Items.Moves.{has_item-del_item, has_item-calculate_stats, has_item-add_within}
use etheos.Character.Equipment.{
  WearData, Wearer, is_second, find_worn, unequip, equip_slot, slot_of, hands_clash, falls_short,
  equip, armor_type,
}

-- How often an item is worn.
abbrev pub worn_count : ℕ → List ℕ → ℕ
worn_count j [] = 0
worn_count j (p ∷ ps) = (if p == j then 1 else 0) + worn_count j ps

worn_count-set :
    (j i v : ℕ) (ps : List ℕ)
    → i < length ps
    → worn_count j (set ps i v) + (if get_or ps i 0 == j then 1 else 0)
      ≡ worn_count j ps + (if v == j then 1 else 0)
worn_count-set j i v [] h = absurd (omega arith)
worn_count-set j zero v (p ∷ ps) h = omega arith
worn_count-set j (suc i) v (p ∷ ps) h = omega (arith, worn_count-set j i v ps (omega arith))

find_worn_lem :
    (item subloc i k : ℕ) (ps : List ℕ)
    → find_worn item subloc i ps ≡ some k
    → (get_or ps k 0 ≡ item) × (k < length ps)
unfolding find_worn
find_worn_lem item subloc i k [] e = cc
find_worn_lem item subloc i k (p ∷ ps) e =
    elim (Bool-cases (p == item && (if is_second i then 1 else 0) == subloc)) [
      | inl here ↦
          let first : k ≡ 0 = ground arith in
          let same : p ≡ item = ground arith in rw first (same, omega arith)
      | inr other ↦ elim (Option-cases (find_worn item subloc (i + 1) ps)) [
        | inl nowhere ↦ ground arith
        | inr (k', e') ↦
            let behind : k ≡ suc k' = ground arith in
            let (same, inside) = find_worn_lem item subloc (i + 1) k' ps e' in
            rw behind (same, omega (arith, inside))
      ]
    ]

-- An item, worn and carried.
abbrev pub kept : Character → ℕ → ℕ
kept c j = worn_count j c.paperdoll + has_item c j true

paperdoll-calculate_stats :
    (w : World) (c : Character) → (calculate_stats w c).paperdoll ≡ c.paperdoll
unfolding calculate_stats
paperdoll-calculate_stats w c = ground arith

paperdoll-add_item :
    (w : World) (id a : ℕ) (c : Character) → (add_item w id a c).1.paperdoll ≡ c.paperdoll
unfolding add_item calculate_stats
paperdoll-add_item w id a c = ground arith

paperdoll-del_item :
    (w : World) (id a : ℕ) (c : Character) → (del_item w id a c).1.paperdoll ≡ c.paperdoll
unfolding del_item calculate_stats
paperdoll-del_item w id a c = ground arith

has_item-paperdoll :
    (c : Character) (ps : List ℕ) (j : ℕ)
    → has_item (record c { paperdoll = ps }) j true ≡ has_item c j true
unfolding has_item
has_item-paperdoll c ps j = refl

has_item-true :
    (c : Character) (j : ℕ)
    → IsStock c.inventory
    → (has_item c j false == 0) ≡ false
    → 0 < has_item c j true
unfolding has_item
has_item-true c j s h = elim (Option-cases (find_item j c.inventory)) [
  | inl missing ↦ ground (arith, missing, h)
  | inr (held, e) ↦
      let some_held : IsAmount held = find_item-IsAmount j held c.inventory s e in
      ground (arith, e, some_held)
]

slot_of_lt : (type subloc : ℕ) {slot : ℕ} → slot_of type subloc ≡ some slot → slot < 15
unfolding slot_of
slot_of_lt type subloc e = ground arith

-- Any item other than 0, which stands for a free place, on what is put on and taken off.
module _ (w : World) (item : ℕ) (c : Character) (s : IsStock c.inventory) (j : ℕ)
    (real : j ≢ 0) where
  equip_slot-kept :
      (slot : ℕ)
      → slot < length c.paperdoll
      → 0 < has_item c item true
      → kept (equip_slot w item slot c).1 j ≡ kept c j
  unfolding equip_slot
  equip_slot-kept slot inside carried = elim (Bool-cases (get_or c.paperdoll slot 0 == 0)) [
    | inr taken ↦ rw taken
    | inl free ↦
        let dressed : Character = record c { paperdoll = set c.paperdoll slot item } in
        let removed = (del_item w item 1 dressed).1 in
        let worn =
          ap (worn_count j)
            (paperdoll-calculate_stats w removed ∙ paperdoll-del_item w item 1 dressed) in
        let left =
          has_item-calculate_stats w removed j
          ∙ has_item-del_item w item 1 dressed s (omega arith) j
          ∙ (λ i.
              if item == j
              then has_item-paperdoll c dressed.paperdoll item i - 1
              else has_item-paperdoll c dressed.paperdoll j i) in
        let counts = worn_count-set j slot item c.paperdoll inside in
        let empty : (get_or c.paperdoll slot 0 == j) ≡ false = ground (arith, free, real) in
        rw free (elim (Bool-cases (item == j)) [
          | inl same ↦
              let e : has_item c item true ≡ has_item c j true =
                ap (λ k. has_item c k true) (==→eq item j same) in
              ground (arith, worn, left, counts, empty, same, e, carried)
          | inr other ↦ ground (arith, worn, left, counts, empty, other)
        ])
  ]

  -- `Equip` makes and loses no item, whether it succeeds or not: each item `j` but 0 is worn and carried
  -- together as often as before, where the paperdoll has 15 places and the inventory holds each id once
  -- with an amount that an `int` holds and that is above 0.
  pub equip-kept :
      (eif : ℕ → WearData) (who : Wearer) (subloc : ℕ)
      → length c.paperdoll ≡ 15
      → kept (equip w eif who item subloc c).1 j ≡ kept c j
  unfolding equip
  equip-kept eif who subloc places =
      let refused : Bool =
        has_item c item false == 0
        || ((eif item).type == armor_type && not ((eif item).gender == who.gender))
        || hands_clash eif item c.paperdoll
        || ltb (shifted16 who.level) (shifted16 (eif item).levelreq)
        || (not (who.clas == (eif item).classreq) && not (who.base == (eif item).classreq))
        || falls_short who.stats (eif item).reqs in
      elim (Bool-cases refused) [
        | inl bad ↦ rw bad
        | inr good ↦
            let carried = has_item-true c item s (ground (arith, good)) in
            elim (Option-cases (slot_of (eif item).type subloc)) [
              | inl unwearable ↦ rw (good, unwearable)
              | inr (slot, e) ↦
                  rw (good, e)
                    (equip_slot-kept slot
                      (omega (arith, slot_of_lt (eif item).type subloc e, places)) carried)
            ]
      ]

  -- `Unequip` of a known item makes and loses no item `j` but 0, where less of it than `MaxItem` (an
  -- `int` above 0) is carried, and the inventory holds each id once with an amount above 0.
  pub unequip-kept :
      (subloc : ℕ)
      → IsAmount w.max_item
      → is_unknown w item ≡ false
      → has_item c item true + 1 ≤ w.max_item
      → kept (unequip w item subloc c).1 j ≡ kept c j
  unfolding unequip
  unequip-kept subloc m known limit = elim (Bool-cases (item == 0)) [
    | inl nothing ↦ rw nothing
    | inr something ↦ elim (Option-cases (find_worn item subloc 0 c.paperdoll)) [
      | inl unworn ↦ rw (something, unworn)
      | inr (i, e) ↦
          let (there, inside) = find_worn_lem item subloc 0 i c.paperdoll e in
          let bare : Character = record c { paperdoll = set c.paperdoll i 0 } in
          let added = (add_item w item 1 bare).1 in
          let worn =
            ap (worn_count j)
              (paperdoll-calculate_stats w added ∙ paperdoll-add_item w item 1 bare) in
          let held =
            has_item-calculate_stats w added j
            ∙ has_item-add_within w item 1 bare s m known
                (rw (has_item-paperdoll c bare.paperdoll item) limit) j
            ∙ (λ k.
                if item == j
                then has_item-paperdoll c bare.paperdoll item k + 1
                else has_item-paperdoll c bare.paperdoll j k) in
          let counts = worn_count-set j i 0 c.paperdoll inside in
          rw (something, e)
            (elim (Bool-cases (item == j)) [
              | inl same ↦
                  let e' : has_item c item true ≡ has_item c j true =
                    ap (λ k. has_item c k true) (==→eq item j same) in
                  ground (arith, worn, held, counts, there, same, e', real)
              | inr other ↦ ground (arith, worn, held, counts, there, other, real)
            ])
    ]
  ]
