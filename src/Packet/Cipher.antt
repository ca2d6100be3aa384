-- ===== src/Packet/Cipher.antt =====
-- src/packet.cpp, `PacketProcessor`'s state with `Encode`, `Decode` and `DickWinder`. `none` is a
-- run that reads outside its string, which the source leaves undefined.
pub mod Wind
pub mod Gather
pub mod Scatter
pub mod Payload
pub mod Roundtrip
use Prim.Native.Nat.{bit_xor}
use etheos.Base.{
  ℕ, zero, suc, ◌-◌, ◌%◌, Option, none, some, Bool, List, [], ◌∷◌, ◌++◌, ◌&&◌, map, reverse, length,
  get_or, take, drop, set, replicate, ltb, leb, ◌==◌, if◌then◌else◌,
}
use etheos.Packet.Id.{f_init, a_init}

pub record Processor : Type 0 where
  pub emulti_e : ℕ
  pub emulti_d : ℕ

unfoldable pub new_processor : Processor
new_processor = record { emulti_e = 0; emulti_d = 0 }

unfoldable pub set_emulti : ℕ → ℕ → Processor → Processor
set_emulti e d p = record { emulti_e = e; emulti_d = d }

abbrev pub flush : List ℕ → List ℕ
flush buffer = if ltb 0 (length buffer) then reverse buffer else []

-- The loop of `DickWinder` from the bytes in its buffer: what it adds to `newstr`.
unfoldable pub wind_loop : ℕ → List ℕ → List ℕ → List ℕ
wind_loop emulti buffer [] = flush buffer
wind_loop emulti buffer (c ∷ str) =
    let kept = wind_loop emulti (buffer ++ c ∷ []) str in
    let flushed = wind_loop emulti [] str in
    if c % emulti == 0 then kept else flush buffer ++ c ∷ flushed

-- Reverses each run of bytes that `emulti` divides.
unfoldable pub dick_winder : List ℕ → ℕ → List ℕ
unfolding wind_loop
dick_winder str emulti = if emulti == 0 then str else wind_loop emulti [] str

unfoldable pub flip : ℕ → ℕ
flip c = bit_xor c 0x80

-- One round of the last loop of `Encode` and `Decode`.
unfoldable pub swap_zero : ℕ → ℕ
swap_zero c = if c == 128 then 0 else if c == 0 then 128 else c

abbrev pub swap_zeros : List ℕ → List ℕ
swap_zeros str = take 2 str ++ map swap_zero (drop 2 str)

-- A read of a string, and what is put behind what has been read before it.
abbrev pub read_at : List ℕ → ℕ → Option ℕ
read_at [] i = none
read_at (x ∷ xs) zero = some x
read_at (x ∷ xs) (suc i) = read_at xs i

abbrev pub push : Option ℕ → Option (List ℕ) → Option (List ℕ)
push (some c) (some cs) = some (flip c ∷ cs)
push (some c) none = none
push none rest = none

-- The first loop of `Decode`: the bytes at `i`, `i + 2` and so on. There are fewer rounds than bytes,
-- and one more.
unfoldable pub collect_up : ℕ → ℕ → List ℕ → Option (List ℕ)
collect_up zero i str = none
collect_up (suc fuel) i str =
    let rest = collect_up fuel (suc (suc i)) str in
    if ltb i (length str) then push (read_at str i) rest else some []

-- The second loop of `Decode`: the bytes at `i`, `i - 2` and so on, down to 0 or 1.
unfoldable pub collect_down : List ℕ → ℕ → Option (List ℕ)
collect_down str zero = push (read_at str 0) (some [])
collect_down str (suc zero) = push (read_at str 1) (some [])
collect_down str (suc (suc i)) = push (read_at str (suc (suc i))) (collect_down str i)

-- Where the loops from the end begin: `length - 1`, or one less at an odd length.
unfoldable pub last_odd : ℕ → ℕ
last_odd n = if n % 2 == 0 then n - 1 else n - 2

abbrev pub is_init : ℕ → ℕ → Bool
is_init action family = action == a_init && family == f_init

-- What is written from the front to a string of `n` zeros.
abbrev pub written_to : ℕ → List ℕ → Option (List ℕ)
written_to n xs = if ltb n (length xs) then none else some (xs ++ replicate (n - length xs) 0)

abbrev pub both : ℕ → Option (List ℕ) → Option (List ℕ) → Option (List ℕ)
both n (some up) (some down) = written_to n (up ++ down)
both n (some up) none = none
both n none down = none

-- The first two loops of `Decode`.
unfoldable pub gather : List ℕ → Option (List ℕ)
gather str =
    both (length str) (collect_up (suc (length str)) 0 str)
      (collect_down str (last_odd (length str)))

-- In a string of less than two bytes the second loop begins at -1.
unfoldable pub decode : Processor → List ℕ → Option (List ℕ)
decode p str =
    if p.emulti_d == 0
    then some str
    else if ltb (length str) 2
    then none
    else if is_init (get_or str 0 0) (get_or str 1 0)
    then some str
    else elim (gather str) [
      | none ↦ none
      | some newstr ↦ some (dick_winder (swap_zeros newstr) p.emulti_d)
    ]

-- The first loop of `Encode`: the next bytes of `src` go to `i`, `i + 2` and so on. Returns the
-- bytes that are left, and the string.
unfoldable pub write_up : ℕ → List ℕ → List ℕ → List ℕ × List ℕ
write_up i [] newstr = ([], newstr)
write_up i (c ∷ src) newstr =
    let rest = write_up (suc (suc i)) src (set newstr i (flip c)) in
    if ltb i (length newstr) then rest else (c ∷ src, newstr)

-- The second loop of `Encode`: the next bytes go to `i`, `i - 2` and so on, while `i` is 2 or more.
unfoldable pub write_down : ℕ → List ℕ → List ℕ → List ℕ
write_down i [] newstr = newstr
write_down i (c ∷ src) newstr =
    let rest = write_down (i - 2) src (set newstr i (flip c)) in if leb 2 i then rest else newstr

unfoldable pub scatter : List ℕ → List ℕ
scatter str =
    let blank = get_or str 0 0 ∷ get_or str 1 0 ∷ replicate (length str - 2) 0 in
    let (src, newstr) = write_up 2 (drop 2 str) blank in
    write_down (last_odd (length str)) src newstr

unfoldable pub encode : Processor → List ℕ → Option (List ℕ)
encode p rawstr =
    if p.emulti_e == 0
    then some rawstr
    else if ltb (length rawstr) 2
    then none
    else if is_init (get_or rawstr 2 0) (get_or rawstr 3 0)
    then some rawstr
    else some (swap_zeros (scatter (dick_winder rawstr p.emulti_e)))
