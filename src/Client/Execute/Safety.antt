-- ===== src/Client/Execute/Safety.antt =====
-- src/eoclient.cpp, `EOClient::Execute`: no received packet makes it read outside a buffer.
use etheos.Base.{
  ℕ, suc, ◌%◌, ◌+◌, ◌≤◌, ◌<◌, ◌≡◌, refl, ◌∙◌, Bool, true, false, some, List, [], ◌∷◌, ◌++◌, reverse,
  arith, inl, inr, Bool-cases, length, length-append, length-map, length-reverse, ◌==◌, ltb, le→ltb,
}
use etheos.Packet.Cipher.{
  Processor, wind_loop, dick_winder, swap_zero, swap_zeros, is_init, flip, decode,
}
use etheos.Packet.Cipher.Wind.{flush-reverse}
use etheos.Packet.Cipher.Gather.{gather_lem, length-places, collected}
use etheos.Packet.Reader.{
  Reader, Outcome, ok, overrun, out_of_range, npos, new_reader, family, ◌>>=◌,
}
use etheos.Packet.Reader.Bounds.{IsWithin, Reads, get_char-Reads, get_short-Reads}
use etheos.Base.Int.{ℤ}
use etheos.Client.Execute.{
  Client, f_internal, close, async_op_pending, add_action, get_sequence, check_sequence, dispatch,
  execute,
}
use etheos.Client.Sequence.{gen_sequence}
use etheos.Packet.Id.{f_init}

length-wind_loop :
    (e : ℕ) (buffer str : List ℕ) → length (wind_loop e buffer str) ≡ length buffer + length str
unfolding wind_loop
length-wind_loop e buffer [] = rw (flush-reverse, length-reverse) (omega arith)
length-wind_loop e buffer (c ∷ str) = elim (Bool-cases (c % e == 0)) [
  | inl hit ↦
      rw hit
        (omega (arith, length-wind_loop e (buffer ++ c ∷ []) str, length-append buffer (c ∷ [])))
  | inr miss ↦
      rw (miss, flush-reverse)
        (omega (
          arith,
          length-append (reverse buffer) (c ∷ wind_loop e [] str),
          length-reverse buffer,
          length-wind_loop e [] str,
        ))
]

length-dick_winder : (str : List ℕ) (e : ℕ) → length (dick_winder str e) ≡ length str
unfolding dick_winder
length-dick_winder str e = elim (Bool-cases (e == 0)) [
  | inl off ↦ rw off
  | inr on ↦ rw on (omega (arith, length-wind_loop e [] str))
]

length-swap_zeros : (str : List ℕ) → length (swap_zeros str) ≡ length str
length-swap_zeros [] = refl
length-swap_zeros (a ∷ []) = refl
length-swap_zeros (a ∷ b ∷ r) = omega (arith, length-map r swap_zero)

-- `Decode` stays in a string of two bytes or more, and gives one of the same length.
pub decode_total :
    (p : Processor) (str : List ℕ)
    → 2 ≤ length str
    → (t : List ℕ) × (decode p str ≡ some t) × (length t ≡ length str)
unfolding decode
decode_total p [] h = absurd (omega arith)
decode_total p (a ∷ []) h = absurd (omega arith)
decode_total p (a ∷ b ∷ r) h = elim (Bool-cases (p.emulti_d == 0)) [
  | inl off ↦ (a ∷ b ∷ r, rw off, refl)
  | inr on ↦ elim (Bool-cases (is_init a b)) [
    | inl start ↦ (a ∷ b ∷ r, rw (on, start) (ground arith), refl)
    | inr other ↦ (
      dick_winder (swap_zeros (collected (a ∷ b ∷ r))) p.emulti_d,
      rw (on, other, le→ltb (suc (suc (length r))) 2 (omega arith), gather_lem a b r) refl,
      length-dick_winder (swap_zeros (collected (a ∷ b ∷ r))) p.emulti_d
          ∙ length-swap_zeros (collected (a ∷ b ∷ r))
          ∙ length-places flip (a ∷ b ∷ r),
    )
  ]
]

get_sequence-Reads : (n : ℤ) (r : Reader) → IsWithin r → Reads r (get_sequence n r)
unfolding get_sequence
get_sequence-Reads n r v = ground (arith, get_char-Reads r v, get_short-Reads r v)

after-Reads :
    (r : Reader) (m : Outcome (ℕ × Reader)) (k : ℕ × Reader → Client)
    → Reads r m
    → (c' : Client) × ((m >>= λ x. ok (k x)) ≡ ok c')
after-Reads r (ok x) k h = (k x, refl)
after-Reads r overrun k h = absurd h
after-Reads r out_of_range k h = absurd h

check_sequence_total :
    (enforce : Bool) (c : Client) (r : Reader)
    → IsWithin r
    → (c' : Client) × (check_sequence enforce c r ≡ ok c')
unfolding check_sequence
check_sequence_total enforce c r v = after-Reads r (get_sequence _ r) _ (get_sequence-Reads _ r v)

pub new_reader-IsWithin :
    (text : List ℕ) → 2 ≤ length text → length text < npos → IsWithin (new_reader text)
unfolding new_reader
new_reader-IsWithin text h k = record { cursor = h; sized = k }

dispatch_total :
    (enforce : Bool) (c : Client) (r : Reader)
    → IsWithin r
    → (c' : Client) × (dispatch enforce c r ≡ ok c')
unfolding dispatch
dispatch_total enforce c r v = elim (Bool-cases (family r == f_internal)) [
  | inl internal ↦ (close (async_op_pending false c), rw internal)
  | inr public ↦ elim (Bool-cases (family r == f_init)) [
    | inl start ↦
        (add_action r (record c { sequence = (gen_sequence c.sequence).1 }), rw (public, start))
    | inr other ↦ let (c', e) = check_sequence_total enforce c r v in (c', rw (public, other) e)
  ]
]

pub execute-decoded :
    (enforce : Bool) (c : Client) (bytes text : List ℕ)
    → 2 ≤ length bytes
    → c.connected ≡ true
    → decode c.processor bytes ≡ some text
    → execute enforce c bytes ≡ dispatch enforce c (new_reader text)
unfolding execute
execute-decoded enforce c bytes text h o d = ground arith

execute_open :
    (enforce : Bool) (c : Client) (bytes : List ℕ)
    → 2 ≤ length bytes
    → length bytes < npos
    → c.connected ≡ true
    → (c' : Client) × (execute enforce c bytes ≡ ok c')
execute_open enforce c bytes long h o =
    let (text, decoded, size) = decode_total c.processor bytes long in
    let (c', e) =
      dispatch_total enforce c (new_reader text)
        (new_reader-IsWithin text (omega (arith, size)) (omega (arith, size))) in
    (c', execute-decoded enforce c bytes text long o decoded ∙ e)

-- `Execute` comes to an end inside its buffers on every packet that a string can hold, whatever its
-- bytes and whatever the state of the connection.
pub execute_total :
    (enforce : Bool) (c : Client) (bytes : List ℕ)
    → length bytes < npos
    → (c' : Client) × (execute enforce c bytes ≡ ok c')
unfolding execute
execute_total enforce c bytes h = elim (Bool-cases (ltb (length bytes) 2)) [
  | inl short ↦ (c, rw short)
  | inr long ↦ elim (Bool-cases c.connected) [
    | inl o ↦ execute_open enforce c bytes (ground arith) h o
    | inr shut ↦ (c, ground arith)
  ]
]
