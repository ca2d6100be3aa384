-- ===== src/Packet/Reader/Codes.antt =====
-- src/packet.cpp: the number getters on the bytes of an encoded number.
use etheos.Base.{ℕ, ◌<◌, ◌≡◌, List, ◌++◌, take, arith}
use etheos.Packet.Number.{max1, max2, max3, max4, to_list, e_number}
use etheos.Packet.Number.Roundtrip.{number-e_number, number-e_number_short}
use etheos.Packet.Reader.{Reader, ok, advance, get_char, get_short, get_three, get_int}
use etheos.Packet.Reader.At.{At, get_number-At}

-- The bytes of a number of so many digits.
abbrev pub digits_of : ℕ → ℕ → List ℕ
digits_of k n = take k (to_list (e_number n))

module _ (n : ℕ) (r : Reader) (ys : List ℕ) where
  pub get_char-digits : n < max1 → At r (digits_of 1 n ++ ys) → get_char r ≡ ok (n, advance r 1)
  unfolding get_char
  get_char-digits h a =
      rw (get_number-At r (digits_of 1 n) ys a (omega arith), (number-e_number_short n).0 h)
        (ground arith)

  pub get_short-digits : n < max2 → At r (digits_of 2 n ++ ys) → get_short r ≡ ok (n, advance r 2)
  unfolding get_short
  get_short-digits h a =
      rw (get_number-At r (digits_of 2 n) ys a (omega arith), (number-e_number_short n).1 h)
        (ground arith)

  pub get_three-digits : n < max3 → At r (digits_of 3 n ++ ys) → get_three r ≡ ok (n, advance r 3)
  unfolding get_three
  get_three-digits h a =
      rw (get_number-At r (digits_of 3 n) ys a (omega arith), (number-e_number_short n).2 h)

  pub get_int-digits : n < max4 → At r (digits_of 4 n ++ ys) → get_int r ≡ ok (n, advance r 4)
  unfolding get_int
  get_int-digits h a = rw (get_number-At r (digits_of 4 n) ys a (omega arith), number-e_number n h)
