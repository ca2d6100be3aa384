-- ===== src/Packet/Builder.antt =====
-- src/packet.cpp, `PacketBuilder`: a packet under construction. Each `Add` writes behind the bytes
-- so far; the capacity, which is only a hint for the allocator, is left out.
pub mod Roundtrip
use etheos.Base.{
  ℕ, ◌+◌, ◌%◌, ◌^◌, Bool, List, [], ◌∷◌, ◌++◌, length, take, ltb, ◌==◌, ◌&&◌, ◌||◌, if◌then◌else◌,
}
use etheos.Base.Int.{ℤ, pos, leb_ℤ}
use etheos.Packet.Number.{max1, max2, max3, Bytes4, to_list, e_number}
use etheos.Packet.Id.{f_init, a_init, pid, epid}

pub record Builder : Type 0 where
  pub id : ℕ
  pub bytes : List ℕ
  pub add_size : ℕ

abbrev pub append : List ℕ → Builder → Builder
append xs b = record b { bytes = b.bytes ++ xs }

-- `SetID(unsigned short)`: 0 stands for the id of the init packet.
unfoldable pub set_id : ℕ → Builder → Builder
set_id id b = record b { id = if id == 0 then pid f_init a_init else id }

unfoldable pub new_builder : ℕ → ℕ → Builder
unfolding set_id
new_builder family action = set_id (pid family action) (record { id = 0; bytes = []; add_size = 0 })

unfoldable pub add_byte : ℕ → Builder → Builder
add_byte byte = append (byte ∷ [])

unfoldable pub add_char : ℕ → Builder → Builder
add_char num = append (take 1 (to_list (e_number num)))

unfoldable pub add_short : ℕ → Builder → Builder
add_short num = append (take 2 (to_list (e_number num)))

unfoldable pub add_three : ℕ → Builder → Builder
add_three num = append (take 3 (to_list (e_number num)))

unfoldable pub add_int : ℕ → Builder → Builder
add_int num = append (take 4 (to_list (e_number num)))

-- The arguments of `AddChar` and `AddShort` are converted to their types.
unfoldable pub add_var : ℤ → ℤ → ℕ → Builder → Builder
unfolding add_char add_short add_three add_int
add_var low high num b =
    if leb_ℤ low (pos 1) && (leb_ℤ high (pos 1) || ltb num max1)
    then add_char (num % 2 ^ 8) b
    else if leb_ℤ low (pos 2) && (leb_ℤ high (pos 2) || ltb num max2)
    then add_short (num % 2 ^ 16) b
    else if leb_ℤ low (pos 3) && (leb_ℤ high (pos 3) || ltb num max3)
    then add_three num b
    else add_int num b

unfoldable pub add_string : List ℕ → Builder → Builder
add_string = append

-- The loop of `AddBreakString`: each separator in the text becomes a `y`.
unfoldable pub replace_breaks : ℕ → List ℕ → List ℕ
replace_breaks c [] = []
replace_breaks c (x ∷ xs) = (if x == c then b'y' else x) ∷ replace_breaks c xs

unfoldable pub add_break_string : ℕ → List ℕ → Builder → Builder
unfolding replace_breaks
add_break_string c text b = append (c ∷ []) (append (replace_breaks c text) b)

unfoldable pub add_extra_size : ℕ → Builder → Builder
add_extra_size size b = record b { add_size = (b.add_size + size) % 2 ^ 64 }

unfoldable pub reset : Builder → Builder
reset b = record b { bytes = [] }

-- `PacketBuilder::Get`: two bytes of length, which counts the id and the announced extra size, the
-- id, and the bytes.
unfoldable pub get : Builder → List ℕ
get b =
    let (action, family) = epid b.id in
    take 2 (to_list (e_number ((length b.bytes + 2 + b.add_size) % 2 ^ 32)))
    ++ action ∷ family ∷ b.bytes
