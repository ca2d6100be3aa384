-- ===== src/Packet/Reader/At.antt =====
-- src/packet.cpp, `PacketReader`: what each getter returns, by the bytes in front of the cursor.
use etheos.Base.{
  ℕ, zero, suc, ==_self, ne→==, false, ltb, le→ltb, ap, ◌∙◌, ◌+◌, ◌-◌, ◌%◌, ◌≤◌, min, ◌≡◌, ◌≢◌,
  some, List, [], ◌∷◌, ◌++◌, All, arith, length, drop, length-drop, length-append, take_all,
  drop_all,
}
use etheos.Packet.Reader.{
  Reader, ok, size_mod, remaining, advance, number_of, get_number, get_byte, get_fixed_string,
  get_break_string, find_first_of, index_of,
}
use etheos.Packet.Reader.Bounds.{IsWithin, remaining-IsWithin}

-- The cursor is in the buffer, and these bytes are still to be read.
pub record At (r : Reader) (xs : List ℕ) : Type 0 where
  pub within : IsWithin r
  pub ahead : drop r.pos r.bytes ≡ xs

drop-add {ℓ} : {A : Type ℓ} (m n : ℕ) (xs : List A) → drop (m + n) xs ≡ drop n (drop m xs)
drop-add zero n xs = ap (λ k. drop k xs) (omega arith)
drop-add (suc m) zero [] = ap (λ k. drop k []) (let e : suc m + 0 ≡ suc m = omega arith in e)
drop-add (suc m) (suc n) [] =
    ap (λ k. drop k []) (let e : suc m + suc n ≡ suc (m + suc n) = omega arith in e)
drop-add (suc m) n (x ∷ xs) =
    ap (λ k. drop k (x ∷ xs)) (let e : suc m + n ≡ suc (m + n) = omega arith in e) ∙ drop-add m n xs

pub remaining-At : (r : Reader) (xs : List ℕ) → At r xs → remaining r ≡ length xs
remaining-At r xs a =
    omega (arith, remaining-IsWithin r a.within, length-drop r.pos r.bytes, ap length a.ahead)

within_ahead : (r : Reader) (xs ys : List ℕ) → At r (xs ++ ys) → r.pos + length xs ≤ length r.bytes
within_ahead r xs ys a =
    omega (arith, remaining-IsWithin r a.within, remaining-At r (xs ++ ys) a, length-append xs ys)

pub advance-At : (r : Reader) (xs ys : List ℕ) → At r (xs ++ ys) → At (advance r (length xs)) ys
advance-At r xs ys a =
    let moved : (r.pos + length xs) % size_mod ≡ r.pos + length xs =
      omega (arith, a.within.sized, within_ahead r xs ys a) in
    record {
      within = record {
        cursor = omega (arith, moved, within_ahead r xs ys a);
        sized = a.within.sized;
      };
      ahead = rw (moved, drop-add, a.ahead) (drop_all xs ys);
    }

pub get_number-At :
    (r : Reader) (xs ys : List ℕ)
    → At r (xs ++ ys)
    → length xs ≤ 4
    → get_number (length xs) r
      ≡ ok (number_of (xs ++ drop (length xs) (254 ∷ 254 ∷ 254 ∷ 254 ∷ [])), advance r (length xs))
unfolding get_number
get_number-At r xs ys a h =
    let read : min (length xs) (remaining r) ≡ length xs =
      omega (arith, remaining-At r (xs ++ ys) a, length-append xs ys) in
    let fits : ltb (length r.bytes) (r.pos + length xs) ≡ false =
      le→ltb (length r.bytes) (r.pos + length xs) (within_ahead r xs ys a) in
    rw (read, fits, le→ltb 4 (length xs) h, a.ahead, take_all xs ys)

pub get_byte-At :
    (r : Reader) (x : ℕ) (ys : List ℕ) → At r (x ∷ ys) → get_byte r ≡ ok (x, advance r 1)
unfolding get_byte
get_byte-At r x ys a =
    rw a.ahead (ground (arith, remaining-At r (x ∷ ys) a, remaining-IsWithin r a.within))

pub get_fixed_string-At :
    (r : Reader) (xs ys : List ℕ)
    → At r (xs ++ ys)
    → get_fixed_string (length xs) r ≡ ok (xs, advance r (length xs))
unfolding get_fixed_string
get_fixed_string-At r xs ys a =
    let enough : ltb (remaining r) (length xs) ≡ false =
      le→ltb (remaining r) (length xs)
        (omega (arith, remaining-At r (xs ++ ys) a, length-append xs ys)) in
    rw (enough, le→ltb (length r.bytes) r.pos a.within.cursor, a.ahead, take_all xs ys)

index_of-append :
    (c : ℕ) (xs ys : List ℕ) → All (λ x. x ≢ c) xs → index_of c (xs ++ c ∷ ys) ≡ some (length xs)
unfolding index_of
index_of-append c [] ys h = rw (==_self c)
index_of-append c (x ∷ xs) ys h =
    rw (ne→== x c h.0, index_of-append c xs ys h.1)
      (let e : length xs + 1 ≡ suc (length xs) = omega arith in ap some e)

pub get_break_string-At :
    (c : ℕ) (r : Reader) (xs ys : List ℕ)
    → At r (xs ++ c ∷ ys)
    → All (λ x. x ≢ c) xs
    → get_break_string c r ≡ ok (xs, advance (advance r (length xs)) 1)
unfolding get_break_string find_first_of
get_break_string-At c r xs ys a h =
    let inside : ltb (length r.bytes) r.pos ≡ false =
      le→ltb (length r.bytes) r.pos a.within.cursor in
    let dist : (r.pos + length xs + size_mod - r.pos) % size_mod ≡ length xs =
      omega (arith, within_ahead r xs (c ∷ ys) a, a.within.sized) in
    rw (inside, a.ahead, index_of-append c xs ys h, dist, get_fixed_string-At r xs (c ∷ ys) a)
