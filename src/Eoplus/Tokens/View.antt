-- ===== src/Eoplus/Tokens/View.antt =====
-- src/eoplus/parse.cpp: `GetToken` and `PutBack` on the tokens without the ends of lines.
use etheos.Base.{
  ℕ, zero, suc, ◌≡◌, refl, ap, ◌∙◌, Bool, true, false, List, [], ◌∷◌, ◌++◌, replicate, arith, inl,
  inr, Bool-cases,
}
use etheos.Eoplus.Lex.{Token, invalid, new_line}
use etheos.Eoplus.Tokens.{
  is_allowed, TokenServer, next_token, next_buffered, is_new_line, put_back, taken, get_token,
  is_valid, get_token_if,
}

-- The tokens but for the ends of lines.
abbrev pub strip : List Token → List Token
strip [] = []
strip (new_line ∷ ts) = strip ts
strip (t ∷ ts) = t ∷ strip ts

-- What is left to be read.
abbrev pub view : TokenServer → List Token
view s = strip s.token_buffer ++ strip s.it

next_token-strip :
    (it ts : List Token) (t : Token)
    → strip it ≡ t ∷ ts
    → ((next_token false it).token ≡ t)
      × ((next_token false it).token_buffer ≡ [])
      × (strip (next_token false it).it ≡ ts)
unfolding next_token
next_token-strip [] ts t e = cc
next_token-strip (new_line ∷ it) ts t e = next_token-strip it ts t e
next_token-strip (u ∷ it) ts t e = (cc, refl, cc)

next_buffered-strip :
    (buffer it ts : List Token) (t : Token)
    → strip buffer ++ strip it ≡ t ∷ ts
    → ((next_buffered false buffer it).token ≡ t)
      × (strip (next_buffered false buffer it).token_buffer
            ++ strip (next_buffered false buffer it).it
          ≡ ts)
unfolding next_buffered
next_buffered-strip [] it ts t e =
    let (got, empty, rest) = next_token-strip it ts t e in
    (got, ap (λ b. strip b ++ strip (next_token false it).it) empty ∙ rest)
next_buffered-strip (new_line ∷ buffer) it ts t e = next_buffered-strip buffer it ts t e
next_buffered-strip (u ∷ buffer) it ts t e = (cc, cc)

taken-view :
    (allow : ℕ) (s : TokenServer) (t : Token) (ts : List Token)
    → is_allowed new_line allow ≡ false
    → view s ≡ t ∷ ts
    → ((taken allow s).0 ≡ t) × (view (taken allow s).1 ≡ ts)
unfolding taken
taken-view allow s t ts h e = rw h (next_buffered-strip s.token_buffer s.it ts t e)

strip-replicate : (n : ℕ) (ts : List Token) → strip (replicate n new_line ++ ts) ≡ strip ts
strip-replicate zero ts = refl
strip-replicate (suc n) ts = strip-replicate n ts

strip_head : (t : Token) (ts : List Token) → is_new_line t ≡ 0 → strip (t ∷ ts) ≡ t ∷ strip ts
strip_head new_line ts h = absurd (omega arith)
strip_head t ts h = refl

view-put_back : (t : Token) (s : TokenServer) → is_new_line t ≡ 0 → view (put_back t s) ≡ t ∷ view s
unfolding put_back
view-put_back t s h =
    ap (λ ts. ts ++ strip s.it)
      (strip_head t (replicate s.newlines new_line ++ s.token_buffer) h
        ∙ ap (◌∷◌ t) (strip-replicate s.newlines s.token_buffer))

-- A token that is allowed is got.
pub get_token-view :
    (allow : ℕ) (s : TokenServer) (t : Token) (ts : List Token)
    → is_allowed new_line allow ≡ false
    → is_allowed t allow ≡ true
    → view s ≡ t ∷ ts
    → ((get_token allow s).0 ≡ t) × (view (get_token allow s).1 ≡ ts)
unfolding get_token
get_token-view allow s t ts h fits e =
    let (first, rest) = taken-view allow s t ts h e in
    let ok : is_allowed (taken allow s).0 allow ≡ true =
      ap (λ u. is_allowed u allow) first ∙ fits in
    rw ok (first, rest)

-- Another one is left.
pub get_token-refuses :
    (allow : ℕ) (s : TokenServer) (t : Token) (ts : List Token)
    → is_allowed new_line allow ≡ false
    → is_allowed t allow ≡ false
    → is_new_line t ≡ 0
    → view s ≡ t ∷ ts
    → ((get_token allow s).0 ≡ invalid) × (view (get_token allow s).1 ≡ t ∷ ts)
unfolding get_token
get_token-refuses allow s t ts h bars inner e =
    let (first, rest) = taken-view allow s t ts h e in
    let bad : is_allowed (taken allow s).0 allow ≡ false =
      ap (λ u. is_allowed u allow) first ∙ bars in
    let plain : is_new_line (taken allow s).0 ≡ 0 = ap is_new_line first ∙ inner in
    rw bad (refl, view-put_back (taken allow s).0 (taken allow s).1 plain ∙ cc (first, rest))

pub get_token_if-view :
    (f : Token → Bool) (allow : ℕ) (s : TokenServer) (t : Token) (ts : List Token)
    → is_allowed new_line allow ≡ false
    → is_allowed t allow ≡ true
    → f t ≡ true
    → view s ≡ t ∷ ts
    → ((get_token_if f allow s).0 ≡ t) × (view (get_token_if f allow s).1 ≡ ts)
unfolding get_token_if
get_token_if-view f allow s t ts h fits accepts e =
    let (first, rest) = get_token-view allow s t ts h fits e in
    let good : f (get_token allow s).0 ≡ true = ap f first ∙ accepts in
    elim (Bool-cases (is_valid (get_token allow s).0)) [
      | inl valid ↦ rw (valid, good) (first, rest)
      | inr nothing ↦ rw nothing (first, rest)
    ]

pub get_token_if-refuses :
    (f : Token → Bool) (allow : ℕ) (s : TokenServer) (t : Token) (ts : List Token)
    → is_allowed new_line allow ≡ false
    → is_new_line t ≡ 0
    → is_valid t ≡ true
    → f t ≡ false
    → view s ≡ t ∷ ts
    → ((get_token_if f allow s).0 ≡ invalid) × (view (get_token_if f allow s).1 ≡ t ∷ ts)
unfolding get_token_if
get_token_if-refuses f allow s t ts h inner valid refuses e =
    elim (Bool-cases (is_allowed t allow)) [
      | inl fits ↦
          let (first, rest) = get_token-view allow s t ts h fits e in
          let bad : f (get_token allow s).0 ≡ false = ap f first ∙ refuses in
          let real : is_valid (get_token allow s).0 ≡ true = ap is_valid first ∙ valid in
          let plain : is_new_line (get_token allow s).0 ≡ 0 = ap is_new_line first ∙ inner in
          rw (real, bad)
            (
              refl,
              view-put_back (get_token allow s).0 (get_token allow s).1 plain ∙ cc (first, rest),
            )
      | inr bars ↦
          let (first, rest) = get_token-refuses allow s t ts h bars inner e in
          let nothing : is_valid (get_token allow s).0 ≡ false = ap is_valid first in
          rw nothing (first, rest)
    ]
