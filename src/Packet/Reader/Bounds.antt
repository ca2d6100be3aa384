-- ===== src/Packet/Reader/Bounds.antt =====
-- src/packet.cpp, `PacketReader`: which reads stay in the buffer, and which leave it.
use etheos.Base.{
  ℕ, zero, suc, ◌+◌, ◌≤◌, ◌<◌, ◌≡◌, refl, inl, inr, Option-cases, some, List, [], ◌∷◌, arith,
  length, drop, length-take, length-drop,
}
use etheos.Packet.Reader.{
  Reader, Outcome, ok, overrun, out_of_range, size_mod, npos, remaining, get_number, get_byte,
  get_char, get_short, get_three, get_int, get_fixed_string, get_break_string, get_end_string,
  find_first_of, index_of,
}

-- The cursor is in the buffer or at its end.
pub record IsWithin (r : Reader) : Type 0 where
  pub cursor : r.pos ≤ length r.bytes
  pub sized : length r.bytes < npos

-- The read has an outcome that leaves the cursor in the buffer, and does not move it back.
abbrev pub Reads {ℓ} : {A : Type ℓ} → Reader → Outcome (A × Reader) → Type 0
Reads r (ok (a, r')) = IsWithin r' × (r'.bytes ≡ r.bytes) × (r.pos ≤ r'.pos)
Reads r overrun = ⊥
Reads r out_of_range = ⊥

-- From here the left sides stay shut in `remaining`.
pub remaining-IsWithin : (r : Reader) → IsWithin r → r.pos + remaining r ≡ length r.bytes
remaining-IsWithin r v = ground arith

pub get_number-Reads : (len : ℕ) (r : Reader) → IsWithin r → len ≤ 4 → Reads r (get_number len r)
unfolding get_number
get_number-Reads len r v h = ground (arith, remaining-IsWithin r v)

pub get_byte-Reads : (r : Reader) → IsWithin r → Reads r (get_byte r)
unfolding get_byte
get_byte-Reads r v = ground (arith, remaining-IsWithin r v)

pub get_fixed_string-Reads : (len : ℕ) (r : Reader) → IsWithin r → Reads r (get_fixed_string len r)
unfolding get_fixed_string
get_fixed_string-Reads len r v =
    ground (
      arith,
      remaining-IsWithin r v,
      length-take len (drop r.pos r.bytes),
      length-drop r.pos r.bytes,
    )

pub get_char-Reads : (r : Reader) → IsWithin r → Reads r (get_char r)
unfolding get_char
get_char-Reads r v = ground (arith, get_number-Reads 1 r v)

pub get_short-Reads : (r : Reader) → IsWithin r → Reads r (get_short r)
unfolding get_short
get_short-Reads r v = ground (arith, get_number-Reads 2 r v)

pub get_end_string-Reads : (r : Reader) → IsWithin r → Reads r (get_end_string r)
unfolding get_end_string
get_end_string-Reads r v = get_fixed_string-Reads (remaining r) r v

-- With the cursor in the buffer or at its end, no getter but `GetBreakString` reads outside the
-- buffer or throws; each leaves the cursor in the buffer or at its end, and does not move it back.
pub getters-Reads :
    (r : Reader)
    → IsWithin r
    → Reads r (get_byte r)
      × Reads r (get_char r)
      × Reads r (get_short r)
      × Reads r (get_three r)
      × Reads r (get_int r)
      × ((len : ℕ) → Reads r (get_fixed_string len r))
      × Reads r (get_end_string r)
unfolding get_three get_int
getters-Reads r v = (
  get_byte-Reads r v,
  get_char-Reads r v,
  get_short-Reads r v,
  get_number-Reads 3 r v (omega arith),
  get_number-Reads 4 r v (omega arith),
  λ len. get_fixed_string-Reads len r v,
  get_end_string-Reads r v,
)

pub index_of_lt : (c i : ℕ) (xs : List ℕ) → index_of c xs ≡ some i → i < length xs
unfolding index_of
index_of_lt c i [] h = cc
index_of_lt c zero (x ∷ xs) h = omega arith
index_of_lt c (suc i) (x ∷ xs) h = ground (arith, index_of_lt c i xs)

-- With the cursor in the buffer, `GetBreakString` stays in the buffer while a byte remains, whether
-- or not it finds its separator.
pub get_break_string-Reads :
    (c : ℕ) (r : Reader) → IsWithin r → 0 < remaining r → Reads r (get_break_string c r)
unfolding get_break_string find_first_of get_fixed_string
get_break_string-Reads c r v h = elim (Option-cases (index_of c (drop r.pos r.bytes))) [
  | inl missing ↦ ground (arith, remaining-IsWithin r v, length-drop r.pos r.bytes)
  | inr (i, e) ↦ ground (
    arith,
    remaining-IsWithin r v,
    index_of_lt c i (drop r.pos r.bytes) e,
    length-take i (drop r.pos r.bytes),
    length-drop r.pos r.bytes,
  )
]

get_break_string_steps :
    (c : ℕ) (r : Reader)
    → IsWithin r
    → r.pos ≡ length r.bytes
    → get_break_string c r ≡ ok ([], record r { pos = length r.bytes + 1 })
unfolding get_break_string find_first_of get_fixed_string
get_break_string_steps c r v e = elim (Option-cases (index_of c (drop r.pos r.bytes))) [
  | inl missing ↦ ground arith
  | inr (i, found) ↦
      absurd (omega (arith, index_of_lt c i (drop r.pos r.bytes) found, length-drop r.pos r.bytes))
]

get_end_string_past :
    (r : Reader) → r.pos ≡ length r.bytes + 1 → r.pos < size_mod → get_end_string r ≡ out_of_range
unfolding get_end_string get_fixed_string
get_end_string_past r e h = ground arith

-- At the end of the buffer `GetBreakString` still steps over a separator that is not there: its
-- cursor leaves the buffer, after which `GetByte` and every number getter read outside the buffer,
-- and `GetEndString` throws.
pub get_break_string-at_end :
    (c len : ℕ) (r : Reader)
    → IsWithin r
    → r.pos ≡ length r.bytes
    → 0 < len
    → let past = record r { pos = length r.bytes + 1 } in
      (get_break_string c r ≡ ok ([], past))
      × (get_byte past ≡ overrun)
      × (get_number len past ≡ overrun)
      × (get_end_string past ≡ out_of_range)
unfolding get_byte get_number
get_break_string-at_end c len r v e h = (
  get_break_string_steps c r v e,
  ground arith,
  ground arith,
  get_end_string_past (record r { pos = length r.bytes + 1 }) refl (omega (arith, v.sized)),
)
