-- ===== src/Eoplus/Parse/Reading/Runs.antt =====
-- src/eoplus/parse.cpp: what a function of `Parser` reads, ends of lines aside.
use etheos.Base.{ℕ, ◌≡◌, refl, ap, ◌∙◌, Bool, true, false, List, ◌∷◌}
use etheos.Eoplus.Lex.{Token, invalid, new_line}
use etheos.Eoplus.Tokens.{is_allowed, TokenServer, is_new_line, is_valid, get_token, get_token_if}
use etheos.Eoplus.Tokens.View.{
  view, get_token-view, get_token-refuses, get_token_if-view, get_token_if-refuses,
}
use etheos.Eoplus.Parse.{Outcome, ok, Parser, pure, then_parse, ◌>>=◌, token, token_if}

-- With the tokens `ts` to be read the result is `a`, and `rest` is left.
pub record Reads {ℓ} {A : Type ℓ} (o : Outcome A) (a : A) (rest : List Token) : Type ℓ where
  pub server : TokenServer
  pub gives : o ≡ ok a server
  pub leaves : view server ≡ rest

abbrev pub Runs {ℓ} : {A : Type ℓ} → Parser A → List Token → A → List Token → Type ℓ
Runs p ts a rest = (s : TokenServer) → view s ≡ ts → Reads (p s) a rest

pub pure-Runs {ℓ} : {A : Type ℓ} (a : A) (ts : List Token) → Runs (pure a) ts a ts
pure-Runs a ts s e = record { server = s; gives = refl; leaves = e }

pub bind-Runs {ℓ κ} :
    {A : Type ℓ} {B : Type κ} {ts us vs : List Token} {a : A} {b : B} (p : Parser A)
    (f : A → Parser B)
    → Runs p ts a us
    → Runs (f a) us b vs
    → Runs (p >>= f) ts b vs
bind-Runs p f first second s e =
    let r = first s e in
    let q = second r.server r.leaves in
    record {
      server = q.server;
      gives = ap (λ o. then_parse o f) r.gives ∙ q.gives;
      leaves = q.leaves;
    }

module _ (allow : ℕ) (t : Token) (ts : List Token) (h : is_allowed new_line allow ≡ false) where
  pub token-Runs : is_allowed t allow ≡ true → Runs (token allow) (t ∷ ts) t ts
  token-Runs fits s e =
      let (first, rest) = get_token-view allow s t ts h fits e in
      record {
        server = (get_token allow s).1;
        gives = ap (λ u. ok u (get_token allow s).1) first;
        leaves = rest;
      }

  pub token_refused :
      is_allowed t allow ≡ false → is_new_line t ≡ 0 → Runs (token allow) (t ∷ ts) invalid (t ∷ ts)
  token_refused bars inner s e =
      let (first, rest) = get_token-refuses allow s t ts h bars inner e in
      record {
        server = (get_token allow s).1;
        gives = ap (λ u. ok u (get_token allow s).1) first;
        leaves = rest;
      }

  pub token_if-Runs :
      (f : Token → Bool)
      → is_allowed t allow ≡ true
      → f t ≡ true
      → Runs (token_if f allow) (t ∷ ts) t ts
  token_if-Runs f fits accepts s e =
      let (first, rest) = get_token_if-view f allow s t ts h fits accepts e in
      record {
        server = (get_token_if f allow s).1;
        gives = ap (λ u. ok u (get_token_if f allow s).1) first;
        leaves = rest;
      }

  pub token_if_refused :
      (f : Token → Bool)
      → is_new_line t ≡ 0
      → is_valid t ≡ true
      → f t ≡ false
      → Runs (token_if f allow) (t ∷ ts) invalid (t ∷ ts)
  token_if_refused f inner valid refuses s e =
      let (first, rest) = get_token_if-refuses f allow s t ts h inner valid refuses e in
      record {
        server = (get_token_if f allow s).1;
        gives = ap (λ u. ok u (get_token_if f allow s).1) first;
        leaves = rest;
      }
