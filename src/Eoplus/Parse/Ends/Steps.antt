-- ===== src/Eoplus/Parse/Ends/Steps.antt =====
-- src/eoplus/parse.cpp: when a function of `Parser` comes to an end, and where its errors stand.
use etheos.Base.{ℕ, ◌+◌, ◌≤◌, ◌<◌, ◌≡◌, refl, Bool, true, arith}
use etheos.Eoplus.Lex.{Token, invalid}
use etheos.Eoplus.Tokens.{TokenServer, get_token, is_valid, is_new_line}
use etheos.Eoplus.Tokens.Lines.{IsSound, pending, Gets, get_token-Gets, get_token_if-Gets}
use etheos.Eoplus.Parse.Monad.{
  Message, Outcome, ok, error, running, Parser, pure, then_parse, ◌>>=◌, token, token_if, fail,
  fail_got,
}

-- A result leaves at most `n` tokens, and an error stands on one of the lines of the script.
abbrev pub After {ℓ} : {A : Type ℓ} → ℕ → ℕ → Outcome A → Type 0
After total n (ok a s) = IsSound total s × (pending s ≤ n)
After total n (error m t line) = (0 < line) × (line ≤ total)
After total n running = ⊥

abbrev pub Ending {ℓ} : {A : Type ℓ} → ℕ → ℕ → Parser A → Type 0
Ending total n p = (s : TokenServer) → IsSound total s → pending s ≤ n → After total n (p s)

module _ {ℓ} (A : Type ℓ) (total : ℕ) where
  pub After-mono : (m n : ℕ) (o : Outcome A) → m ≤ n → After total m o → After total n o
  After-mono m n (ok a s) h p = (p.0, omega (arith, p.1))
  After-mono m n (error e t line) h p = p
  After-mono m n running h p = p

  pub pure-Ending : (n : ℕ) (a : A) → Ending total n (pure a)
  pure-Ending n a s h small = (h, small)

  pub fail-Ending : (n : ℕ) (m : Message) → Ending total n (fail {A = A} m)
  fail-Ending n m s h small =
      (omega (arith, h.lines, h.rejected, h.started), omega (arith, h.lines, h.rejected))

  pub fail_got-Ending : (n : ℕ) (m : Message) → Ending total n (fail_got {A = A} m)
  fail_got-Ending n m s h small =
      (omega (arith, h.lines, h.rejected, h.started), omega (arith, h.lines, h.rejected))

pub token-Ending : (total n allow : ℕ) → Ending total n (token allow)
token-Ending total n allow s h small =
    let gets = get_token-Gets total allow s h in (gets.0, omega (arith, gets.1))

pub token_if-Ending : (total n allow : ℕ) (f : Token → Bool) → Ending total n (token_if f allow)
token_if-Ending total n allow f s h small =
    let gets = get_token_if-Gets total allow f s h in (gets.0, omega (arith, gets.1))

module _ {ℓ} {A : Type ℓ} {total : ℕ} where
  pub then_parse-After {κ} :
      {B : Type κ} (n : ℕ) (o : Outcome B) (f : B → Parser A)
      → After total n o
      → ((b : B) → Ending total n (f b))
      → After total n (then_parse o f)
  then_parse-After n (ok b s) f p each = each b s p.0 p.1
  then_parse-After n (error m t line) f p each = p
  then_parse-After n running f p each = elim p [ ]

  pub bind-Ending {κ} :
      {B : Type κ} (n : ℕ) (p : Parser B) (f : B → Parser A)
      → Ending total n p
      → ((b : B) → Ending total n (f b))
      → Ending total n (p >>= f)
  bind-Ending n p f first each s h small = then_parse-After n (p s) f (first s h small) each

  pub token_then :
      (n allow : ℕ) (f : Token → Parser A)
      → ((t : Token) → Ending total n (f t))
      → Ending total n (token allow >>= f)
  token_then n allow f each = bind-Ending n (token allow) f (token-Ending total n allow) each

  pub token_if_then :
      (n allow : ℕ) (g : Token → Bool) (f : Token → Parser A)
      → ((t : Token) → Ending total n (f t))
      → Ending total n (token_if g allow >>= f)
  token_if_then n allow g f each =
      bind-Ending n (token_if g allow) f (token_if-Ending total n allow g) each

  -- A round of a loop: what follows a valid token has fewer tokens left.
  pub token_round :
      (n allow : ℕ) (f : Token → Parser A)
      → Ending total n (f invalid)
      → ((t : Token) (s : TokenServer)
          → is_valid t ≡ true
          → IsSound total s
          → pending s + s.newlines < n
          → s.newlines + is_new_line t < s.line
          → After total n (f t s))
      → Ending total n (token allow >>= f)
  token_round n allow f none_left each s h small =
      go (get_token allow s).0 (get_token allow s).1 (get_token-Gets total allow s h)
    where
      go : (t : Token) (s' : TokenServer) → Gets total s (t, s') → After total n (f t s')
      go invalid s' gets = none_left s' gets.0 (omega (arith, gets.1))
      go t s' gets = each t s' refl gets.0 (omega (arith, gets.1)) gets.2
