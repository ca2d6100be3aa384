-- ===== src/Packet/Reader.antt =====
-- src/packet.cpp, `PacketReader`: a cursor over the bytes of a received packet. A `std::size_t` is
-- a number below 2 ^ 64, and its sums and differences wrap. A read outside the buffer, which the
-- source leaves undefined, is `overrun`; `out_of_range` is the exception of `std::string::substr`.
pub mod Bounds
pub mod At
pub mod Codes
use mathlib.Core.Option
use etheos.Base.{
  ℕ, ◌+◌, ◌-◌, ◌%◌, ◌^◌, min, Bool, Option, none, some, ◌||◌, List, [], ◌∷◌, ◌++◌, length, get_or,
  take, drop, ltb, ◌==◌, if◌then◌else◌,
}
use etheos.Packet.Number.{number}

abbrev pub size_mod : ℕ
size_mod = 2 ^ 64

-- `std::string::npos`.
abbrev pub npos : ℕ
npos = 2 ^ 64 - 1

pub record Reader : Type 0 where
  pub bytes : List ℕ
  pub pos : ℕ

pub data Outcome {ℓ} (A : Type ℓ) : Type ℓ where
  ok : A → Outcome A
  overrun out_of_range : Outcome A

infixl 5 ◌>>=◌
abbrev pub ◌>>=◌ {ℓ κ} : {A : Type ℓ} {B : Type κ} → Outcome A → (A → Outcome B) → Outcome B
ok a >>= f = f a
overrun >>= f = overrun
out_of_range >>= f = out_of_range

-- The constructor: reading starts behind the action's and the family's bytes.
unfoldable pub new_reader : List ℕ → Reader
new_reader bytes = record { bytes = bytes; pos = 2 }

abbrev pub advance : Reader → ℕ → Reader
advance r n = record r { pos = (r.pos + n) % size_mod }

abbrev pub remaining : Reader → ℕ
remaining r = (length r.bytes + size_mod - r.pos) % size_mod

unfoldable pub action : Reader → ℕ
action r = if ltb (length r.bytes) 1 then 0 else get_or r.bytes 0 0

unfoldable pub family : Reader → ℕ
family r = if ltb (length r.bytes) 2 then 0 else get_or r.bytes 1 0

-- The four bytes that `GetNumber` decodes: those read, then the fillers.
abbrev pub filled : List ℕ → ℕ → List ℕ
filled xs n = take n xs ++ drop n (254 ∷ 254 ∷ 254 ∷ 254 ∷ [])

abbrev pub number_of : List ℕ → ℕ
number_of xs = number (get_or xs 0 0) (get_or xs 1 0) (get_or xs 2 0) (get_or xs 3 0)

unfoldable pub get_number : ℕ → Reader → Outcome (ℕ × Reader)
get_number len r =
    let read_len : ℕ = min len (remaining r) in
    if ltb 4 read_len || ltb (length r.bytes) (r.pos + read_len)
    then overrun
    else ok (number_of (filled (drop r.pos r.bytes) read_len), advance r read_len)

unfoldable pub get_byte : Reader → Outcome (ℕ × Reader)
get_byte r =
    if ltb (remaining r) 1
    then ok (0, r)
    else if ltb r.pos (length r.bytes)
    then ok (get_or (drop r.pos r.bytes) 0 0, advance r 1)
    else overrun

unfoldable pub get_char : Reader → Outcome (ℕ × Reader)
get_char r = do (n, r') ← get_number 1 r; ok (n % 2 ^ 8, r')

unfoldable pub get_short : Reader → Outcome (ℕ × Reader)
get_short r = do (n, r') ← get_number 2 r; ok (n % 2 ^ 16, r')

unfoldable pub get_three : Reader → Outcome (ℕ × Reader)
get_three r = get_number 3 r

unfoldable pub get_int : Reader → Outcome (ℕ × Reader)
get_int r = get_number 4 r

unfoldable pub get_fixed_string : ℕ → Reader → Outcome (List ℕ × Reader)
get_fixed_string len r =
    if ltb (remaining r) len
    then ok ([], r)
    else if ltb (length r.bytes) r.pos
    then out_of_range
    else let ret : List ℕ = take len (drop r.pos r.bytes) in ok (ret, advance r (length ret))

-- The place of the first `c`.
unfoldable pub index_of : ℕ → List ℕ → Option ℕ
index_of c [] = none
index_of c (x ∷ xs) = if x == c then some 0 else Option.map (λ i. i + 1) (index_of c xs)

-- `std::string::find_first_of`.
unfoldable pub find_first_of : ℕ → ℕ → List ℕ → ℕ
unfolding index_of
find_first_of c pos xs =
    if ltb (length xs) pos
    then npos
    else Option.get_or (Option.map (λ i. pos + i) (index_of c (drop pos xs))) npos

unfoldable pub get_break_string : ℕ → Reader → Outcome (List ℕ × Reader)
get_break_string c r = do
  let found = find_first_of c r.pos r.bytes
  (ret, r') ← get_fixed_string ((found + size_mod - r.pos) % size_mod) r
  ok (ret, advance r' 1)

unfoldable pub get_end_string : Reader → Outcome (List ℕ × Reader)
get_end_string r = get_fixed_string (remaining r) r
