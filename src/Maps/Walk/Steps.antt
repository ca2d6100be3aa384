-- ===== src/Maps/Walk/Steps.antt =====
-- src/map.cpp, `Map::Walk`: a step goes one place, inside the map, and nobody else moves.
use etheos.Base.{
  ℕ, ◌-◌, ◌+◌, ◌≤◌, ◌<◌, ◌≡◌, refl, ap, ◌∙◌, List, [], ◌∷◌, Bool, true, false, not, some, ◌&&◌,
  ◌||◌, arith, inl, inr, Bool-cases, Option-cases, ◌==◌, ==→eq, min, ltb, leb, if◌then◌else◌,
}
use etheos.Maps.Walk.{
  put_walker, Direction, down, left, up, right, tile_at, Walker, GameMap, in_bounds, occupied,
  walkable, target_of, WalkResult, walk_fail, walk_ok, walk_warped, through, locked, respawn,
  put_on, is_spiked, Setting, moved, step_to, through_warp, walk_to, walk,
}
use etheos.Maps.Walk.Sight.{from_x, from_y, IsReached}

-- The place one step from `x`, `y`.
abbrev pub IsNext : Direction → ℕ → ℕ → ℕ → ℕ → Type 0
IsNext d x y tx ty = (from_x d tx ≡ x) × (from_y d ty ≡ y) × IsReached d tx ty

-- Inside a map no coordinate wraps round.
target_of-IsNext :
    (d : Direction) (x y tx ty : ℕ)
    → x < 255
    → y < 255
    → target_of d x y ≡ some (tx, ty)
    → IsNext d x y tx ty
unfolding target_of
target_of-IsNext up x y tx ty hx hy e = (ground arith, ground arith, tt)
target_of-IsNext right x y tx ty hx hy e = (ground arith, ground arith, ground arith)
target_of-IsNext down x y tx ty hx hy e = (ground arith, ground arith, ground arith)
target_of-IsNext left x y tx ty hx hy e = (ground arith, ground arith, tt)

put_walker-twice :
    (c e : Walker) (cs : List Walker)
    → c.id ≡ e.id
    → put_walker e (put_walker c cs) ≡ put_walker e cs
unfolding put_walker
put_walker-twice c e [] same = refl
put_walker-twice c e (k ∷ ks) same = elim (Bool-cases (k.id == c.id)) [
  | inl here ↦
      let other : (k.id == e.id) ≡ true = ground (arith, here, same) in
      let self : (c.id == e.id) ≡ true = ground (arith, same) in rw (here, other, self) refl
  | inr away ↦
      let other : (k.id == e.id) ≡ false = ground (arith, away, same) in
      rw (away, other, put_walker-twice c e ks same) refl
]

module _ (s : Setting) (m : GameMap) (c : Walker) (d : Direction) (admin : Bool) where
  -- The character has gone to the next place, which is on the map and, but for `admin`, walkable, and
  -- spiked or not; it has so many hit points. Nobody else has changed.
  abbrev pub Went : ℕ → Bool → GameMap → Type 0
  Went hp spiked m' =
      (x : ℕ) × (y : ℕ) × (m' ≡ put_on m (record (moved s d x y c) { hp = hp }))
      × IsNext d c.x c.y x y
      × (in_bounds m x y ≡ true)
      × (admin ≡ false → walkable s.ghost_arena m x y false ≡ true)
      × (is_spiked s m c x y ≡ spiked)

  -- A walk that fails, or that is to end in a warp, leaves the map as it is; but one that ends with a
  -- respawn, and one that is well, is a step.
  abbrev pub Stepped : WalkResult × GameMap → Type 0
  Stepped (walk_fail, m') = m' ≡ m
  Stepped (walk_warped respawn, m') = Went 0 true m'
  Stepped (walk_warped locked, m') = m' ≡ m
  Stepped (walk_warped (through map x y), m') = m' ≡ m
  Stepped (walk_ok, m') =
      (hp : ℕ) × (spiked : Bool) × (hp ≤ c.hp) × (spiked ≡ false → hp ≡ c.hp) × Went hp spiked m'

  either :
      (b : Bool) (p q : WalkResult × GameMap) → Stepped p → Stepped q → Stepped (if b then p else q)
  either true p q hp hq = hp
  either false p q hp hq = hq

  warped-Stepped :
      (b : Bool) (map x y : ℕ) → Stepped (walk_warped (if b then locked else through map x y), m)
  warped-Stepped true map x y = refl
  warped-Stepped false map x y = refl

  module _ (x y : ℕ) (next : IsNext d c.x c.y x y) where
    step_to-Stepped :
        ((c' : Walker) (m' : GameMap) → s.check_quests c' m' ≡ (c', m'))
        → in_bounds m x y ≡ true
        → (admin ≡ false → walkable s.ghost_arena m x y false ≡ true)
        → Stepped (step_to s m c d x y)
    step_to-Stepped no_quests inside open_tile =
        let there = moved s d x y c in
        let left : ℕ = c.hp - min (s.spike_amount c.maxhp) c.hp in
        let place : ℕ → GameMap = λ hp. put_on m (record there { hp = hp }) in
        let once : put_on (put_on m there) (record there { hp = left }) ≡ place left =
          ap (λ ws. record m { characters = ws })
            (put_walker-twice there (record there { hp = left }) m.characters refl) in
        rw (no_quests there (put_on m there)) (elim (Bool-cases (is_spiked s m c x y)) [
          | inr safe ↦
              rw safe
                (c.hp, false, omega arith, λ k. refl, (x, y, refl, next, inside, open_tile, safe))
          | inl spiked ↦ elim (Bool-cases (left == 0)) [
            | inl dead ↦
                rw (spiked, dead)
                  (x, y, once ∙ ap place (==→eq left 0 dead), next, inside, open_tile, spiked)
            | inr alive ↦
                rw (spiked, alive)
                  (left, true, omega arith, λ k. cc, (x, y, once, next, inside, open_tile, spiked))
          ]
        ])

    walk_to-Stepped :
        ((c' : Walker) (m' : GameMap) → s.check_quests c' m' ≡ (c', m'))
        → Stepped (walk_to s m c d admin x y)
    unfolding walk_to
    walk_to-Stepped no_quests =
        let w = (tile_at m x y).warp in
        let barred =
          not admin
          && (not (walkable s.ghost_arena m x y false)
              || (occupied m x y false false && ltb s.now (c.last_walk + s.ghost_timer))) in
        elim (Bool-cases (not (in_bounds m x y))) [
          | inl outside ↦ rw outside refl
          | inr inside ↦ elim (Bool-cases barred) [
            | inl bad ↦ rw (inside, bad) refl
            | inr free ↦
                let step : Stepped (step_to s m c d x y) =
                  step_to-Stepped no_quests (ground arith) (λ k. ground (arith, k, free)) in
                rw (inside, free)
                  (either (not (w.map == 0)) (through_warp s m c d admin x y w)
                    (step_to s m c d x y)
                    (either (leb w.levelreq c.level && (w.spec == 0 || w.is_open)) _ _
                      (warped-Stepped (s.is_locked w.map) w.map w.x w.y)
                      (either (not admin) _ _ refl step))
                    step)
          ]
        ]

-- A walk from a place on the map that meets no quest rule which changes the character or the map: if it
-- is one step, then to the next place in the direction, without a coordinate that wraps round, which is
-- on the map and walkable unless for `admin`; only the walker has changed, and it has no more hit points
-- than before, and fewer only on spikes. The same holds where it warps because it has died: it has
-- stepped on spikes, and no hit points are left. If it fails, or is to go through a warp, then the map
-- is as it was. (What `Warp` and `DeathRespawn` then do is left out.)
pub walk-Stepped :
    (s : Setting) (m : GameMap) (c : Walker) (d : Direction) (admin : Bool)
    → m.width ≤ 255
    → m.height ≤ 255
    → in_bounds m c.x c.y ≡ true
    → ((c' : Walker) (m' : GameMap) → s.check_quests c' m' ≡ (c', m'))
    → Stepped s m c d admin (walk s m c d admin)
unfolding walk
walk-Stepped s m c d admin wide high inside no_quests = elim (Option-cases (target_of d c.x c.y)) [
  | inl nowhere ↦ rw (walk, nowhere) refl
  | inr (t, e) ↦
      rw (walk, e)
        (walk_to-Stepped s m c d admin t.0 t.1
          (target_of-IsNext d c.x c.y t.0 t.1 (ground arith) (ground arith) e) no_quests)
]
