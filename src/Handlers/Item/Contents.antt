-- ===== src/Handlers/Item/Contents.antt =====
-- src/handlers/Item.cpp: what becomes of the items, carried and on the map.
use etheos.Base.{
  ℕ, ◌+◌, ◌≤◌, ◌≡◌, refl, ap, ◌∙◌, true, false, not, some, List, ◌||◌, ◌&&◌, arith, inl, inr,
  Bool-cases, ◌==◌, ltb, ==→eq, if◌then◌else◌,
}
use etheos.Base.Word.{lt32, le32}
use etheos.Character.{Character, World}
use etheos.Character.Items.{is_unknown, has_item, can_hold_item, del_item}
use etheos.Character.Items.Stock.{IsAmount, IsStock}
use etheos.Character.Items.Offers.{has_item_lt}
use etheos.Character.Items.Capacity.{can_hold_item_le_any}
use etheos.Character.Items.Moves.{has_item-del_item, has_item-add_within, has_item-not_trading}
use etheos.Maps.Floor.{MapItem, is_full, get_map_item}
use etheos.Maps.Floor.Ids.{add_map_item_room}
use etheos.Maps.Floor.Amounts.{lying, lying-append, get_map_item-uid, lying-del_some}
use etheos.Maps.Walk.{walkable}
use etheos.Handlers.Item.{Floor, Turn, still, is_far, new_item, drop_at, gotten, get_from}

-- All of an item, carried and lying on the map.
abbrev pub all_of : ℕ → Turn → ℕ
all_of j t = has_item t.character j true + lying j t.items

-- Carried items that are laid down.
laid_down :
    (w : World) (id a : ℕ) (c : Character) (j here : ℕ)
    → IsStock c.inventory
    → IsAmount a
    → a ≤ has_item c id true
    → has_item (del_item w id a c).1 j true + (here + ((if id == j then a else 0) + 0))
      ≡ has_item c j true + here
laid_down w id a c j here s p le =
    let carried = has_item-del_item w id a c s p.1 j in
    elim (Bool-cases (id == j)) [
      | inl same ↦
          let e : has_item c id true ≡ has_item c j true =
            ap (λ k. has_item c k true) (==→eq id j same) in
          ground (arith, carried, e, same, le)
      | inr other ↦ ground (arith, carried, other)
    ]

-- `Item_Drop` comes to an end, and where the tile and the map are not full it makes and loses no item:
-- what is carried and what lies on the map is together as before, for every item, whether or not
-- the item may be dropped there. (The inventory holds each id once, with amounts above 0, the character
-- is not trading, and the amount is above 0, as the handler has tested.)
pub drop_at-all_of :
    (w : World) (f : Floor) (id a x y : ℕ) (items : List MapItem) (c : Character)
    → IsStock c.inventory
    → c.trading ≡ false
    → IsAmount a
    → is_full f.limits x y items ≡ false
    → (t : Turn) × (drop_at w f id a x y items c ≡ some t)
      × ((j : ℕ) → all_of j t ≡ has_item c j true + lying j items)
unfolding drop_at
drop_at-all_of w f id a x y items c s free p room =
    elim (Bool-cases (is_far f c x y || not (walkable f.ghost_arena f.map x y false))) [
      | inl bad ↦ rw (drop_at, bad) (still c items, refl, λ j. refl)
      | inr good ↦ elim (Bool-cases (le32 a (has_item c id false) && not f.is_jail)) [
        | inr few ↦ rw (drop_at, good, few) (still c items, refl, λ j. refl)
        | inl enough ↦
            let (uid, e) = add_map_item_room f.limits (new_item id a x y) items room in
            let le : a ≤ has_item c id true =
              ground
                (arith, has_item-not_trading c id free, has_item_lt c id s, p.0, p.1, enough) in
            rw (drop_at, good, enough, e)
              (
                _,
                refl,
                λ j.
                    ap (λ n. has_item (del_item w id a c).1 j true + n) (lying-append j items _)
                    ∙ laid_down w id a c j (lying j items) s p le,
              )
      ]
    ]

-- `Item_Get` makes and loses no item, where what is carried and what lies there of a known item is
-- together at most `MaxItem`: what is carried and what lies on the map is together as before, for
-- every item. (The inventory holds each id once, with amounts above 0, and so do the map's items.)
pub get_from-all_of :
    (w : World) (f : Floor) (uid : ℕ) (i : MapItem) (items : List MapItem) (c : Character)
    → IsStock c.inventory
    → IsAmount w.max_item
    → get_map_item uid items ≡ some i
    → IsAmount i.amount
    → is_unknown w i.id ≡ false
    → has_item c i.id true + i.amount ≤ w.max_item
    → (j : ℕ) → all_of j (get_from w f uid items c) ≡ has_item c j true + lying j items
unfolding get_from
get_from-all_of w f uid i items c s m found p known limit j =
    let taken = can_hold_item w i.id i.amount c in
    let le = can_hold_item_le_any w i.id i.amount c p.1 m in
    let carried = has_item-add_within w i.id taken c s m known (omega (arith, le, limit)) j in
    let at = get_map_item-uid uid i items found in
    let found' : get_map_item i.uid items ≡ some i = ap (λ k. get_map_item k items) at ∙ found in
    let left = lying-del_some i.uid taken i items found' le p.1 j in
    let sum : all_of j (gotten w uid taken i items c) ≡ has_item c j true + lying j items =
      elim (Bool-cases (i.id == j)) [
        | inl same ↦
            let e : has_item c i.id true ≡ has_item c j true =
              ap (λ k. has_item c k true) (==→eq i.id j same) in
            ground (arith, carried, left, e, same)
        | inr other ↦ ground (arith, carried, left, other)
      ] in
    elim (Bool-cases
      (is_far f c i.x i.y || (not (i.owner == f.player_id) && ltb f.now i.unprotecttime))) [
        | inl bad ↦ rw (get_from, found, bad) refl
        | inr good ↦ elim (Bool-cases (lt32 0 taken)) [
          | inl some_taken ↦ rw (get_from, found, good, some_taken) sum
          | inr nothing ↦ rw (get_from, found, good, nothing) refl
        ]
      ]
