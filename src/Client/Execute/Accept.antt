-- ===== src/Client/Execute/Accept.antt =====
-- src/eoclient.cpp, `EOClient::Execute`: which packets reach the handlers.
use mathlib.Core.Option.{some-injective}
use etheos.Base.{
  ℕ, suc, ◌+◌, ◌%◌, ◌≤◌, ◌<◌, ◌≡◌, ◌≢◌, refl, ap, ◌∙◌, sym, Bool, true, false, some, List, [], ◌∷◌,
  ◌++◌, inl, inr, Bool-cases, arith, length, leb, ltb, le→ltb, ◌==◌, ◌&&◌, if◌then◌else◌,
}
use etheos.Base.Int.{pos, ◌+ℤ◌, wrap32}
use etheos.Packet.Number.{max2}
use etheos.Packet.Id.{f_init}
use etheos.Packet.Cipher.{Processor, decode}
use etheos.Packet.Reader.{Reader, ok, npos, advance, new_reader, action, family}
use etheos.Packet.Reader.At.{At, advance-At}
use etheos.Packet.Reader.Codes.{digits_of, get_char-digits, get_short-digits}
use etheos.Client.Sequence.{Sequence, gen_sequence}
use etheos.Client.Execute.{
  Client, f_internal, f_connection, a_ping, close, async_op_pending, add_action, get_sequence,
  check_sequence, dispatch, execute,
}
use etheos.Client.Execute.Safety.{decode_total, execute-decoded, new_reader-IsWithin}

-- How a client writes the sequence number `n`.
abbrev pub sequence_code : ℕ → List ℕ
sequence_code n = if leb 253 n then digits_of 2 n else digits_of 1 n

-- A number `m` in as many digits as are due for `n`, and what these can carry.
abbrev pub written : ℕ → ℕ → List ℕ
written n m = if leb 253 n then digits_of 2 m else digits_of 1 m

abbrev pub limit_of : ℕ → ℕ
limit_of n = if leb 253 n then max2 else 253

get_sequence-written :
    (n m : ℕ) (r : Reader) (ys : List ℕ)
    → m < limit_of n
    → At r (written n m ++ ys)
    → (r' : Reader) × (get_sequence (pos n) r ≡ ok (m, r')) × At r' ys
unfolding get_sequence
get_sequence-written n m r ys h a = elim (Bool-cases (leb 253 n)) [
  | inl two ↦
      let a' : At r (digits_of 2 m ++ ys) = rw two at a in
      (
        advance r 2,
        ground (arith, get_short-digits m r ys (ground (arith, h, two)) a', two),
        advance-At r (digits_of 2 m) ys a',
      )
  | inr one ↦
      let a' : At r (digits_of 1 m ++ ys) = rw one at a in
      (
        advance r 1,
        ground (arith, get_char-digits m r ys (ground (arith, h, one)) a', one),
        advance-At r (digits_of 1 m) ys a',
      )
]

get_sequence-At :
    (n : ℕ) (r : Reader) (ys : List ℕ)
    → n < max2
    → At r (sequence_code n ++ ys)
    → (r' : Reader) × (get_sequence (pos n) r ≡ ok (n, r')) × At r' ys
get_sequence-At n r ys h a = get_sequence-written n n r ys (ground (arith, h)) a

abbrev pub counted : Client → Client
counted c = record c { sequence = record c.sequence { seq = (c.sequence.seq + 1) % 10 } }

gen_sequence-pos :
    (s : Sequence) (start : ℕ)
    → s.seq_start ≡ pos start
    → start + s.seq < max2
    → gen_sequence s ≡ (pos (start + s.seq), record s { seq = (s.seq + 1) % 10 })
unfolding gen_sequence ◌+ℤ◌ wrap32
gen_sequence-pos s start e h = ground arith

module _ (c : Client) (r : Reader) (start : ℕ) where
  abbrev expected : ℕ
  expected = start + c.sequence.seq

  check_accepts :
      (enforce : Bool) (ys : List ℕ)
      → (family r == f_connection && action r == a_ping) ≡ false
      → c.sequence.seq_start ≡ pos start
      → expected < max2
      → At r (sequence_code expected ++ ys)
      → (r' : Reader) × (check_sequence enforce c r ≡ ok (add_action r' (counted c))) × At r' ys
  unfolding check_sequence
  check_accepts enforce ys ping e h a =
      let (r', reads, a') = get_sequence-At expected r ys h a in
      (r', rw (ping, gen_sequence-pos c.sequence start e h, reads) (ground arith), a')

  check_enforces :
      (m : ℕ) (ys : List ℕ)
      → (family r == f_connection && action r == a_ping) ≡ false
      → c.sequence.seq_start ≡ pos start
      → expected < max2
      → m < limit_of expected
      → At r (written expected m ++ ys)
      → (r' : Reader) × (check_sequence true c r
          ≡ ok (
              if m == expected
              then add_action r' (counted c)
              else close (async_op_pending false (counted c))))
        × At r' ys
  unfolding check_sequence
  check_enforces m ys ping e h small a =
      let (r', reads, a') = get_sequence-written expected m r ys small a in
      (
        r',
        rw (ping, gen_sequence-pos c.sequence start e h, reads)
            (elim (Bool-cases (m == expected)) [
              | inl same ↦ rw same (ground (arith, same))
              | inr other ↦ rw other (ground (arith, other))
            ]),
        a',
      )

dispatch-check :
    (enforce : Bool) (c : Client) (act fam : ℕ) (rest : List ℕ)
    → fam ≢ f_internal
    → fam ≢ f_init
    → dispatch enforce c (new_reader (act ∷ fam ∷ rest))
      ≡ check_sequence enforce c (new_reader (act ∷ fam ∷ rest))
unfolding dispatch family new_reader
dispatch-check enforce c act fam rest internal init = ground arith

decode-long :
    (p : Processor) (bytes : List ℕ) (x y : ℕ) (rest : List ℕ)
    → decode p bytes ≡ some (x ∷ y ∷ rest)
    → 2 ≤ length bytes
unfolding decode
decode-long p [] x y rest d = elim (Bool-cases (p.emulti_d == 0)) [
  | inl off ↦ ground (arith, d, off)
  | inr on ↦ ground (arith, d, on)
]
decode-long p (b ∷ []) x y rest d = elim (Bool-cases (p.emulti_d == 0)) [
  | inl off ↦ ground (arith, d, off)
  | inr on ↦ ground (arith, d, on)
]
decode-long p (b ∷ c ∷ bs) x y rest d = omega arith

decoded-At :
    (p : Processor) (bytes : List ℕ) (x y : ℕ) (rest : List ℕ)
    → length bytes < npos
    → decode p bytes ≡ some (x ∷ y ∷ rest)
    → At (new_reader (x ∷ y ∷ rest)) rest
unfolding new_reader
decoded-At p bytes x y rest size d =
    let (text, decoded, same) = decode_total p bytes (decode-long p bytes x y rest d) in
    let e : length text ≡ length (x ∷ y ∷ rest) =
      ap length (some-injective _ _ (sym decoded ∙ d)) in
    record {
      within = new_reader-IsWithin (x ∷ y ∷ rest) (omega arith) (omega (arith, same, e, size));
      ahead = refl;
    }

-- The action and the family of a packet are its first two bytes.
other_packet :
    (act fam : ℕ) (rest : List ℕ)
    → (fam == f_connection && act == a_ping) ≡ false
    → (family (new_reader (act ∷ fam ∷ rest)) == f_connection
        && action (new_reader (act ∷ fam ∷ rest)) == a_ping)
      ≡ false
unfolding family action new_reader
other_packet act fam rest ping =
    let long : ltb (suc (suc (length rest))) 2 ≡ false =
      le→ltb (suc (suc (length rest))) 2 (omega arith) in
    let some_byte : ltb (suc (suc (length rest))) 1 ≡ false =
      le→ltb (suc (suc (length rest))) 1 (omega arith) in
    rw (long, some_byte) ping

-- On an open connection whose start is not below 0, a packet that decodes to an action, a family
-- that is not reserved, the sequence number that is due, which two digits can carry, and a payload,
-- and is no ping reply, is queued for the handlers with its cursor in front of the payload; of the
-- connection else only the counter moves on.
pub execute-accepts :
    (enforce : Bool) (c : Client) (bytes : List ℕ) (act fam start : ℕ) (payload : List ℕ)
    → c.connected ≡ true
    → length bytes < npos
    → decode c.processor bytes
      ≡ some (act ∷ fam ∷ sequence_code (start + c.sequence.seq) ++ payload)
    → fam ≢ f_internal
    → fam ≢ f_init
    → (fam == f_connection && act == a_ping) ≡ false
    → c.sequence.seq_start ≡ pos start
    → start + c.sequence.seq < max2
    → (r : Reader) × (execute enforce c bytes ≡ ok (add_action r (counted c))) × At r payload
execute-accepts enforce c bytes act fam start payload o size d internal init ping e h =
    let long : 2 ≤ length bytes = decode-long c.processor bytes act fam _ d in
    let text : List ℕ = sequence_code (start + c.sequence.seq) ++ payload in
    let a : At (new_reader (act ∷ fam ∷ text)) text =
      decoded-At c.processor bytes act fam text size d in
    let (r, e', a') =
      check_accepts c (new_reader (act ∷ fam ∷ text)) start enforce payload
        (other_packet act fam text ping) e h a in
    (
      r,
      execute-decoded enforce c bytes _ long o d
          ∙ dispatch-check enforce c act fam text internal init
          ∙ e',
      a',
    )

-- With `EnforceSequence`, on an open connection whose start is not below 0, a packet of a family that
-- is not reserved, and no ping reply, that has any number in as many digits as are due, one below 253
-- and two from there on: if it is the number that is due, the packet is queued with its cursor in front
-- of the payload, and if it is any other, the connection is closed and nothing is queued. The counter
-- moves on in both cases. (Two digits can carry the number that is due, and so these digits the number
-- in the packet.)
pub execute-enforces :
    (c : Client) (bytes : List ℕ) (act fam start m : ℕ) (payload : List ℕ)
    → c.connected ≡ true
    → length bytes < npos
    → decode c.processor bytes ≡ some (act ∷ fam ∷ written (start + c.sequence.seq) m ++ payload)
    → fam ≢ f_internal
    → fam ≢ f_init
    → (fam == f_connection && act == a_ping) ≡ false
    → c.sequence.seq_start ≡ pos start
    → start + c.sequence.seq < max2
    → m < limit_of (start + c.sequence.seq)
    → (r : Reader) × (execute true c bytes
        ≡ ok (
            if m == start + c.sequence.seq
            then add_action r (counted c)
            else close (async_op_pending false (counted c))))
      × At r payload
execute-enforces c bytes act fam start m payload o size d internal init ping e h small =
    let long : 2 ≤ length bytes = decode-long c.processor bytes act fam _ d in
    let text : List ℕ = written (start + c.sequence.seq) m ++ payload in
    let a : At (new_reader (act ∷ fam ∷ text)) text =
      decoded-At c.processor bytes act fam text size d in
    let (r, e', a') =
      check_enforces c (new_reader (act ∷ fam ∷ text)) start m payload
        (other_packet act fam text ping) e h small a in
    (
      r,
      execute-decoded true c bytes _ long o d
          ∙ dispatch-check true c act fam text internal init
          ∙ e',
      a',
    )
