-- ===== src/Packet/Builder/Roundtrip.antt =====
-- src/packet.cpp: what `PacketReader` reads of a packet that `PacketBuilder` has built.
use mathlib.Core.List.{append_assoc, append-nil}
use etheos.Base.{
  ℕ, ◌+◌, ◌%◌, ◌^◌, ◌<◌, ◌≡◌, ◌≢◌, ne→==, ◌∙◌, sym, ap, refl, List, [], ◌∷◌, ◌++◌, All, arith,
  length, get_or, drop,
}
use etheos.Packet.Number.{max1, max2, max3, max4, number}
use etheos.Packet.Number.Roundtrip.{number-e_number_short}
use etheos.Packet.Id.{pid, epid, epid-pid}
use etheos.Packet.Reader.{
  Reader, Outcome, ok, ◌>>=◌, npos, advance, new_reader, action, family, remaining, get_byte,
  get_char, get_short, get_three, get_int, get_break_string,
}
use etheos.Packet.Reader.At.{At, advance-At, remaining-At, get_byte-At, get_break_string-At}
use etheos.Packet.Reader.Codes.{
  digits_of, get_char-digits, get_short-digits, get_three-digits, get_int-digits,
}
use etheos.Packet.Builder.{
  Builder, new_builder, add_byte, add_char, add_short, add_three, add_int, add_break_string,
  replace_breaks, get,
}

-- One value of a packet, by the call that writes it.
pub data Field : Type 0 where
  byte char short three int : ℕ → Field
  text : List ℕ → Field

-- The values that the call can carry.
abbrev pub Fits : Field → Type 0
Fits (byte n) = n < 256
Fits (char n) = n < max1
Fits (short n) = n < max2
Fits (three n) = n < max3
Fits (int n) = n < max4
Fits (text s) = All (λ x. x ≢ 255) s

unfoldable pub add_field : Field → Builder → Builder
add_field (byte n) = add_byte n
add_field (char n) = add_char n
add_field (short n) = add_short n
add_field (three n) = add_three n
add_field (int n) = add_int n
add_field (text s) = add_break_string 255 s

unfoldable pub add_fields : List Field → Builder → Builder
unfolding add_field
add_fields [] b = b
add_fields (f ∷ fs) b = add_fields fs (add_field f b)

-- Reads a value of the kind of the given one.
unfoldable pub get_field : Field → Reader → Outcome (Field × Reader)
get_field (byte _) r = do (n, r') ← get_byte r; ok (byte n, r')
get_field (char _) r = do (n, r') ← get_char r; ok (char n, r')
get_field (short _) r = do (n, r') ← get_short r; ok (short n, r')
get_field (three _) r = do (n, r') ← get_three r; ok (three n, r')
get_field (int _) r = do (n, r') ← get_int r; ok (int n, r')
get_field (text _) r = do (s, r') ← get_break_string 255 r; ok (text s, r')

unfoldable pub get_fields : List Field → Reader → Outcome (List Field × Reader)
unfolding get_field
get_fields [] r = ok ([], r)
get_fields (f ∷ fs) r = do (g, r') ← get_field f r; (gs, r'') ← get_fields fs r'; ok (g ∷ gs, r'')

-- The bytes of one value.
code : Field → List ℕ
code (byte n) = n ∷ []
code (char n) = digits_of 1 n
code (short n) = digits_of 2 n
code (three n) = digits_of 3 n
code (int n) = digits_of 4 n
code (text s) = s ++ 255 ∷ []

codes : List Field → List ℕ
codes [] = []
codes (f ∷ fs) = code f ++ codes fs

replace_breaks_none : (c : ℕ) (s : List ℕ) → All (λ x. x ≢ c) s → replace_breaks c s ≡ s
unfolding replace_breaks
replace_breaks_none c [] h = refl
replace_breaks_none c (x ∷ s) h = ground (arith, replace_breaks_none c s h.1)

add_field-code :
    (f : Field) (b : Builder) → Fits f → add_field f b ≡ record b { bytes = b.bytes ++ code f }
unfolding add_field code add_byte add_char add_short add_three add_int add_break_string
add_field-code (byte n) b h = refl
add_field-code (char n) b h = refl
add_field-code (short n) b h = refl
add_field-code (three n) b h = refl
add_field-code (int n) b h = refl
add_field-code (text s) b h = rw (replace_breaks_none 255 s h, append_assoc)

add_fields-codes :
    (fs : List Field) (b : Builder)
    → All Fits fs
    → add_fields fs b ≡ record b { bytes = b.bytes ++ codes fs }
unfolding add_fields codes
add_fields-codes [] b h = rw append-nil
add_fields-codes (f ∷ fs) b h = rw (add_field-code f b h.0, add_fields-codes fs _ h.1, append_assoc)

-- Reading one value leaves the cursor in front of what follows.
get_field-At :
    (f : Field) (r : Reader) (ys : List ℕ)
    → Fits f
    → At r (code f ++ ys)
    → (r' : Reader) × (get_field f r ≡ ok (f, r')) × At r' ys
unfolding get_field code
get_field-At (byte n) r ys h a =
    (advance r 1, rw (get_byte-At r n ys a), advance-At r (n ∷ []) ys a)
get_field-At (char n) r ys h a =
    (advance r 1, rw (get_char-digits n r ys h a), advance-At r (code (char n)) ys a)
get_field-At (short n) r ys h a =
    (advance r 2, rw (get_short-digits n r ys h a), advance-At r (code (short n)) ys a)
get_field-At (three n) r ys h a =
    (advance r 3, rw (get_three-digits n r ys h a), advance-At r (code (three n)) ys a)
get_field-At (int n) r ys h a =
    (advance r 4, rw (get_int-digits n r ys h a), advance-At r (code (int n)) ys a)
get_field-At (text s) r ys h a =
    let a' : At r (s ++ 255 ∷ ys) = rw (append_assoc s (255 ∷ []) ys) at a in
    (
      advance (advance r (length s)) 1,
      rw (get_break_string-At 255 r s ys a' h),
      advance-At (advance r (length s)) (255 ∷ []) ys (advance-At r s (255 ∷ ys) a'),
    )

get_fields-At :
    (fs : List Field) (r : Reader) (ys : List ℕ)
    → All Fits fs
    → At r (codes fs ++ ys)
    → (r' : Reader) × (get_fields fs r ≡ ok (fs, r')) × At r' ys
unfolding get_fields codes
get_fields-At [] r ys h a = (r, refl, a)
get_fields-At (f ∷ fs) r ys h a =
    let (r', one, a') =
      get_field-At f r (codes fs ++ ys) h.0 (rw (append_assoc (code f) (codes fs) ys) at a) in
    let (r'', more, a'') = get_fields-At fs r' ys h.1 a' in (r'', rw (one, more), a'')

pid-ne-zero : (fam act : ℕ) → 0 < fam → fam < 256 → act < 256 → pid fam act ≢ 0
unfolding epid
pid-ne-zero fam act pf hf ha e =
    omega (arith, ap (λ p. p.1) (sym (epid-pid fam act hf ha) ∙ ap epid e))

new_builder-id :
    (fam act : ℕ)
    → 0 < fam
    → fam < 256
    → act < 256
    → new_builder fam act ≡ record { id = pid fam act; bytes = []; add_size = 0 }
unfolding new_builder
new_builder-id fam act pf hf ha = rw (ne→== (pid fam act) 0 (pid-ne-zero fam act pf hf ha))

built :
    (fam act : ℕ) (fs : List Field)
    → 0 < fam
    → fam < 256
    → act < 256
    → All Fits fs
    → drop 2 (get (add_fields fs (new_builder fam act))) ≡ act ∷ fam ∷ codes fs
unfolding get
built fam act fs pf hf ha h =
    rw (new_builder-id fam act pf hf ha, add_fields-codes fs _ h) (rw (epid-pid fam act hf ha))

-- A packet built for family `fam`, which is not the reserved 0, and action `act`, of any values
-- that their `Add` calls can carry, and no longer than a string can be, is read back by the `Get`
-- calls of the same kinds: the same action, family and values, and then nothing remains.
pub get_fields-add_fields :
    (fam act : ℕ) (fs : List Field)
    → 0 < fam
    → fam < 256
    → act < 256
    → All Fits fs
    → length (add_fields fs (new_builder fam act)).bytes + 2 < npos
    → let r = new_reader (drop 2 (get (add_fields fs (new_builder fam act)))) in
      (action r ≡ act)
      × (family r ≡ fam)
      × (r' : Reader) × (get_fields fs r ≡ ok (fs, r'))
      × (remaining r' ≡ 0)
unfolding new_reader action family
get_fields-add_fields fam act fs pf hf ha h size =
    let short : length (codes fs) + 2 < npos =
      rw (new_builder-id fam act pf hf ha, add_fields-codes fs _ h) at size in
    let start : At (new_reader (act ∷ fam ∷ codes fs)) (codes fs ++ []) = record {
      within = record { cursor = omega arith; sized = omega (arith, short) };
      ahead = sym (append-nil (codes fs));
    } in
    let (r', reads, a) = get_fields-At fs _ [] h start in
    rw (built fam act fs pf hf ha h) (ground arith, ground arith, r', reads, remaining-At r' [] a)

-- The first two bytes of a packet are the number of bytes behind them, the announced extra size
-- included, if that is below 253 ^ 2.
pub number-get :
    (b : Builder)
    → length b.bytes + 2 + b.add_size < max2
    → (number (get_or (get b) 0 0) (get_or (get b) 1 0) 254 254
        ≡ length (drop 2 (get b)) + b.add_size)
unfolding get epid
number-get b h =
    let total = length b.bytes + 2 + b.add_size in
    let narrow : total % 2 ^ 32 ≡ total = omega arith in
    rw (narrow, (number-e_number_short total).1 h) (omega arith)
