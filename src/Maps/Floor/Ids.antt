-- ===== src/Maps/Floor/Ids.antt =====
-- src/map.cpp: `GenerateItemID` comes to an end, with an id that no item has.
use etheos.Base.{
  ℕ, zero, suc, ◌+◌, ◌^◌, ◌≤◌, ◌<◌, ◌≡◌, refl, true, false, Option, some, List, [], ◌∷◌, ◌&&◌, ◌==◌,
  ltb, leb, length, arith, inl, inr, Bool-cases, if◌then◌else◌,
}
use etheos.Maps.Floor.{Limits, is_full, add_map_item, MapItem, has_uid, free_from, generate_item_id}

-- How many items have an id from `lowest` on.
count_from : ℕ → List MapItem → ℕ
count_from lowest [] = 0
count_from lowest (i ∷ items) = count_from lowest items + (if leb lowest i.uid then 1 else 0)

count_from_le : (lowest : ℕ) (items : List MapItem) → count_from lowest items ≤ length items
unfolding count_from
count_from_le lowest [] = omega arith
count_from_le lowest (i ∷ items) = ground (arith, count_from_le lowest items)

count_from-next : (n : ℕ) (items : List MapItem) → count_from (n + 1) items ≤ count_from n items
unfolding count_from
count_from-next n [] = omega arith
count_from-next n (i ∷ items) = ground (arith, count_from-next n items)

-- The id that is taken is not counted from the next on.
count_from-taken :
    (n : ℕ) (items : List MapItem)
    → has_uid n items ≡ true
    → count_from (n + 1) items < count_from n items
unfolding count_from has_uid
count_from-taken n [] h = ground (arith, h)
count_from-taken n (i ∷ items) h = elim (Bool-cases (i.uid == n && ltb i.uid (2 ^ 15))) [
  | inl here ↦ ground (arith, count_from-next n items, here)
  | inr elsewhere ↦
      ground
        (arith, count_from-taken n items (ground (arith, h, elsewhere)), count_from-next n items)
]

-- An id that no item has, and that is found behind taken ones only.
abbrev pub IsLowestFree : ℕ → List MapItem → Option ℕ → Type 0
IsLowestFree from items r =
    (n : ℕ) × (r ≡ some n)
    × (from ≤ n)
    × (has_uid n items ≡ false)
    × ((k : ℕ) → from ≤ k → k < n → has_uid k items ≡ true)

free_from-IsLowestFree :
    (fuel lowest : ℕ) (items : List MapItem)
    → count_from lowest items < fuel
    → IsLowestFree lowest items (free_from fuel lowest items)
unfolding free_from
free_from-IsLowestFree zero lowest items h = absurd (omega (arith, h))
free_from-IsLowestFree (suc fuel) lowest items h = elim (Bool-cases (has_uid lowest items)) [
  | inr free ↦
      rw (free_from, free)
        (lowest, refl, omega arith, free, λ k ge lt. absurd (omega (arith, ge, lt)))
  | inl taken ↦
      let (n, e, ge, free, below) =
        free_from-IsLowestFree fuel (lowest + 1) items
          (let less = count_from-taken lowest items taken in omega (arith, less, h)) in
      rw (free_from, taken)
        (
          n,
          e,
          omega (arith, ge),
          free,
          λ k from to. elim (Bool-cases (k == lowest)) [
            | inl same ↦ rw (let e' : k ≡ lowest = ground (arith, same) in e') taken
            | inr other ↦ below k (ground (arith, from, other)) to
          ],
        )
]

-- `GenerateItemID` comes to an end, however many items lie on the map: it gives the lowest id from 1 on
-- that no item has, where a `uid` below 0, as a `short`, equals none.
pub generate_item_id-IsLowestFree :
    (items : List MapItem) → IsLowestFree 1 items (generate_item_id items)
unfolding generate_item_id
generate_item_id-IsLowestFree items =
    free_from-IsLowestFree (suc (length items)) 1 items
      (let le = count_from_le 1 items in omega (arith, le))

-- Where there is room, `AddItem` comes to an end and puts the item on the map.
pub add_map_item_room :
    (l : Limits) (new : MapItem) (items : List MapItem)
    → is_full l new.x new.y items ≡ false
    → (uid : ℕ) × (add_map_item l new items ≡ some (true, record new { uid = uid }))
unfolding add_map_item
add_map_item_room l new items room =
    let (uid, e, ge, free, below) = generate_item_id-IsLowestFree items in
    (uid, rw (add_map_item, room, e) refl)
