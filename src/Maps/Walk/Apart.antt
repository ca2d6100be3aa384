-- ===== src/Maps/Walk/Apart.antt =====
-- src/map.cpp, `Map::Walk` for an NPC: no two NPCs come to stand on one place.
use etheos.Base.{
  ℕ, ◌≡◌, refl, Bool, true, false, not, List, [], ◌∷◌, ◌&&◌, ◌||◌, arith, inl, inr, Bool-cases,
  Option-cases, ◌==◌,
}
use etheos.Maps.Walk.{
  Direction, NpcOnMap, GameMap, in_bounds, any_npc, occupied, walkable, target_of, put_npc,
  walk_npc,
}

-- No two of the NPCs that are alive stand on one place.
abbrev pub IsApart : List NpcOnMap → Type 0
IsApart [] = Unit
IsApart (n ∷ ns) = (n.alive ≡ true → any_npc n.x n.y ns ≡ false) × IsApart ns

any_npc-put :
    (x y : ℕ) (n : NpcOnMap) (ns : List NpcOnMap)
    → any_npc x y ns ≡ false
    → (n.x == x && n.y == y) ≡ false
    → any_npc x y (put_npc n ns) ≡ false
unfolding any_npc put_npc
any_npc-put x y n [] h away = refl
any_npc-put x y n (k ∷ ks) h away = elim (Bool-cases (k.index == n.index)) [
  | inl same ↦ rw same (ground (arith, h, away))
  | inr other ↦
      rw other (let rest = any_npc-put x y n ks (ground (arith, h)) away in ground (arith, h, rest))
]

put_npc-IsApart :
    (n : NpcOnMap) (ns : List NpcOnMap)
    → any_npc n.x n.y ns ≡ false
    → IsApart ns
    → IsApart (put_npc n ns)
unfolding any_npc put_npc
put_npc-IsApart n [] free apart = tt
put_npc-IsApart n (k ∷ ks) free apart =
    let rest : any_npc n.x n.y ks ≡ false = ground (arith, free) in
    elim (Bool-cases (k.index == n.index)) [
      | inl same ↦ rw same (λ alive. rest, apart.1)
      | inr other ↦ rw other (
        λ alive. any_npc-put k.x k.y n ks (apart.0 alive) (ground (arith, free, alive)),
        put_npc-IsApart n ks rest apart.1,
      )
    ]

free_of_npcs :
    (m : GameMap) (x y : ℕ) (ghost : Bool)
    → occupied m x y true ghost ≡ false
    → in_bounds m x y ≡ true
    → any_npc x y m.npcs ≡ false
unfolding occupied
free_of_npcs m x y ghost free inside = ground (arith, free, inside)

walkable-inside :
    (ghost_arena : Bool) (m : GameMap) (x y : ℕ)
    → walkable ghost_arena m x y true ≡ true
    → in_bounds m x y ≡ true
unfolding walkable
walkable-inside ghost_arena m x y ok = ground (arith, ok)

-- A walk of an NPC keeps the NPCs that are alive apart: where no two of them stood on one place, no two
-- do so afterwards, whether or not the NPC could walk.
pub walk_npc-IsApart :
    (ghost_arena : Bool) (m : GameMap) (n : NpcOnMap) (d : Direction)
    → IsApart m.npcs
    → IsApart (walk_npc ghost_arena m n d).1.npcs
unfolding walk_npc
walk_npc-IsApart ghost_arena m n d apart = elim (Option-cases (target_of d n.x n.y)) [
  | inl nowhere ↦ rw (walk_npc, nowhere) apart
  | inr (t, e) ↦
      elim (Bool-cases
        (not (walkable ghost_arena m t.0 t.1 true) || occupied m t.0 t.1 true n.hunts)) [
          | inl bad ↦ rw (walk_npc, e, bad) apart
          | inr good ↦
              let free : occupied m t.0 t.1 true n.hunts ≡ false = ground (arith, good) in
              let inside : in_bounds m t.0 t.1 ≡ true =
                walkable-inside ghost_arena m t.0 t.1 (ground (arith, good)) in
              rw (walk_npc, e, good)
                (put_npc-IsApart _ m.npcs (free_of_npcs m t.0 t.1 n.hunts free inside) apart)
        ]
]
