-- ===== src/Eoplus/Tokens/Lines.antt =====
-- src/eoplus/parse.cpp: what `GetToken` and `PutBack` do to the line and to the tokens that are left.
use Prim.Native.Nat.{bit_and-bitwise}
use etheos.Base.{
  ℕ, zero, suc, ◌+◌, ◌≤◌, ◌<◌, ◌≡◌, refl, Bool, true, false, List, [], ◌∷◌, ◌++◌, arith, inl, inr,
  Bool-cases, length, length-append, length-replicate, replicate, if◌then◌else◌,
}
use etheos.Eoplus.Lex.{Token, invalid, new_line}
use etheos.Eoplus.Tokens.{
  is_allowed, TokenServer, Got, next_token, next_buffered, is_new_line, put_back, taken, get_token,
  is_valid, get_token_if,
}

-- The ends of lines among some tokens.
abbrev pub ends : List Token → ℕ
ends [] = 0
ends (t ∷ ts) = is_new_line t + ends ts

abbrev pub pending : TokenServer → ℕ
pending s = length s.token_buffer + length s.it

abbrev pub one_if_valid : Token → ℕ
one_if_valid t = if is_valid t then 1 else 0

-- The line and the ends of lines that are left make `total`; no line stands behind it.
pub record IsSound (total : ℕ) (s : TokenServer) : Type 0 where
  pub lines : s.line + ends s.token_buffer + ends s.it ≡ total
  pub rejected : s.reject_line ≤ total
  pub positive : s.newlines < s.line
  pub started : 0 < s.reject_line

ends-append : (xs ys : List Token) → ends (xs ++ ys) ≡ ends xs + ends ys
ends-append [] ys = omega arith
ends-append (x ∷ xs) ys = omega (arith, ends-append xs ys)

ends-replicate : (n : ℕ) → ends (replicate n new_line) ≡ n
ends-replicate zero = refl
ends-replicate (suc n) = omega (arith, ends-replicate n)

-- What the loop has got stands for what it has left out.
abbrev Takes : ℕ → ℕ → Got → Type 0
Takes e n g =
    (e ≡ g.newlines + is_new_line g.token + ends g.token_buffer + ends g.it)
    × (g.newlines + one_if_valid g.token + length g.token_buffer + length g.it ≤ n)

next_token-Takes :
    (keep : Bool) (it : List Token) → Takes (ends it) (length it) (next_token keep it)
unfolding next_token
next_token-Takes keep [] = (refl, omega arith)
next_token-Takes true (new_line ∷ it) = (refl, omega arith)
next_token-Takes false (new_line ∷ it) =
    let (e, n) = next_token-Takes false it in (omega (arith, e), omega (arith, n))
next_token-Takes keep (invalid ∷ it) = (refl, omega arith)
next_token-Takes keep (t ∷ it) = (refl, omega arith)

next_buffered-Takes :
    (keep : Bool) (buffer it : List Token)
    → Takes (ends buffer + ends it) (length buffer + length it) (next_buffered keep buffer it)
unfolding next_buffered
next_buffered-Takes keep [] it =
    let (e, n) = next_token-Takes keep it in (omega (arith, e), omega (arith, n))
next_buffered-Takes true (new_line ∷ buffer) it = (refl, omega arith)
next_buffered-Takes false (new_line ∷ buffer) it =
    let (e, n) = next_buffered-Takes false buffer it in (omega (arith, e), omega (arith, n))
next_buffered-Takes keep (invalid ∷ buffer) it = (refl, omega arith)
next_buffered-Takes keep (t ∷ buffer) it = (refl, omega arith)

-- What `GetToken` leaves.
abbrev pub Gets : ℕ → TokenServer → Token × TokenServer → Type 0
Gets total s (t, s') =
    IsSound total s'
    × (pending s' + s'.newlines + one_if_valid t ≤ pending s)
    × (s'.newlines + is_new_line t < s'.line)

taken-Gets :
    (total allow : ℕ) (s : TokenServer)
    → IsSound total s
    → Gets total s (taken allow s)
      × ((taken allow s).1.newlines + is_new_line (taken allow s).0 + s.line
          ≡ (taken allow s).1.line)
unfolding taken
taken-Gets total allow s h =
    let (e, n) = next_buffered-Takes (is_allowed new_line allow) s.token_buffer s.it in
    (
      (
        record {
          lines = omega (arith, e, h.lines);
          rejected = h.rejected;
          positive = omega (arith, h.positive);
          started = h.started;
        },
        omega (arith, n),
        omega (arith, h.positive),
      ),
      omega arith,
    )

-- `PutBack` of a token that is not the end of a line, or where its lines are behind the first one.
pub put_back-Gets :
    (total : ℕ) (t : Token) (s : TokenServer)
    → IsSound total s
    → s.newlines + is_new_line t < s.line
    → IsSound total (put_back t s)
      × (pending (put_back t s) ≡ pending s + s.newlines + 1)
      × ((put_back t s).newlines < (put_back t s).line)
      × ((put_back t s).newlines ≡ 0)
unfolding put_back
put_back-Gets total t s h far =
    let lined = ends-append (replicate s.newlines new_line) s.token_buffer in
    let counted = ends-replicate s.newlines in
    let longer = length-append (replicate s.newlines new_line) s.token_buffer in
    let measured = length-replicate s.newlines new_line in
    (
      record {
        lines = omega (arith, h.lines, lined, counted, far);
        rejected = omega (arith, h.lines);
        positive = omega (arith, far);
        started = omega (arith, far);
      },
      omega (arith, longer, measured),
      omega (arith, far),
      refl,
    )

refused_valid : (t : Token) (allow : ℕ) → is_allowed t allow ≡ false → is_valid t ≡ true
refused_valid invalid allow h = ground (arith, bit_and-bitwise 0 allow)
refused_valid t allow h = refl

pub get_token-Gets :
    (total allow : ℕ) (s : TokenServer) → IsSound total s → Gets total s (get_token allow s)
unfolding get_token
get_token-Gets total allow s h =
    let (gets, far) = taken-Gets total allow s h in
    let t = (taken allow s).0 in
    let s' = (taken allow s).1 in
    elim (Bool-cases (is_allowed t allow)) [
      | inl takes ↦ rw takes gets
      | inr refuses ↦
          let (sound, size, near, none_left) = put_back-Gets total t s' gets.0 (gets.2) in
          let valid = refused_valid t allow refuses in
          rw refuses (sound, ground (arith, size, gets.1, valid, none_left), omega (arith, near))
    ]

pub get_token_if-Gets :
    (total allow : ℕ) (f : Token → Bool) (s : TokenServer)
    → IsSound total s
    → Gets total s (get_token_if f allow s)
unfolding get_token_if
get_token_if-Gets total allow f s h =
    let gets = get_token-Gets total allow s h in
    let t = (get_token allow s).0 in
    let s' = (get_token allow s).1 in
    elim (Bool-cases (is_valid t)) [
      | inr nothing ↦ rw nothing gets
      | inl valid ↦ elim (Bool-cases (f t)) [
        | inl takes ↦ rw (valid, takes) gets
        | inr refuses ↦
            let (sound, size, near, none_left) = put_back-Gets total t s' gets.0 gets.2 in
            rw (valid, refuses)
              (sound, ground (arith, size, gets.1, valid, none_left), omega (arith, near))
      ]
    ]
