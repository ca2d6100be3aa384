-- ===== src/Login/Tests.antt =====
-- Logins at concrete inputs.
use etheos.Base.{
  take, drop, length, ◌+◌, ◌≤◌, ◌<◌, ℕ, ◌≡◌, refl, Bool, true, false, some, none, List, [], ◌∷◌,
  arith, if◌then◌else◌,
}
use etheos.Eoplus.Lex.{same_text}
use etheos.Login.{
  Accounts, Hashers, Credentials, login_ok, hashed, check_login, change_password, login,
  update_version, Request, LoginQueue, is_busy, check_credential, complete,
}
use etheos.Login.Passwords.{
  same_text_self, is_accepted, HasPassword, change_password-accepts, update_version-overwrites,
}
use etheos.Login.Count.{leaks, IsCounted, ask, done, none_yet, after, steps-IsCounted}

-- A hasher that keeps what it has drawn and the first two bytes of the text, as one with a bound on its
-- input does.
abbrev plain : Hashers
plain = record {
  hash = λ version draw s. draw ∷ take 2 s;
  check = λ version s t. same_text (take 2 s) (drop 1 t);
  check-hash = λ version draw s. same_text_self (take 2 s);
}

abbrev user : List ℕ
user = 7 ∷ []

abbrev accounts : Accounts
accounts name =
    if same_text name (7 ∷ []) then some (hashed plain [] 1 50 (7 ∷ []) (2 ∷ [])) else none

stored : HasPassword plain [] accounts user 1 50 (2 ∷ [])
unfolding same_text
stored = refl

abbrev changed : Bool × Accounts
changed = change_password plain [] 2 60 user (2 ∷ []) (3 ∷ []) accounts

change_password-accepts_example :
    (changed.0 ≡ is_accepted plain [] 1 50 user (2 ∷ []) (2 ∷ []))
    × ((q : List ℕ)
        → check_login plain [] user q changed.1 ≡ (
            if changed.0
            then is_accepted plain [] 2 60 user (3 ∷ []) q
            else is_accepted plain [] 1 50 user (2 ∷ []) q))
    × (changed.0 ≡ true → check_login plain [] user (3 ∷ []) changed.1 ≡ true)
    × ((name : List ℕ) → same_text name user ≡ false → changed.1 name ≡ accounts name)
change_password-accepts_example =
    change_password-accepts plain [] 2 60 accounts user (2 ∷ []) (2 ∷ []) (3 ∷ []) 1 50 stored

abbrev job : Credentials
job = record { username = user; password = 2 ∷ []; hash_func = 2 }

abbrev updated : Accounts
updated = update_version plain [] 70 job changed.1

update_version-overwrites_example :
    (login plain [] 2 user (2 ∷ []) accounts ≡ (login_ok, job ∷ []))
    × (changed.0 ≡ true)
    × ((q : List ℕ)
        → check_login plain [] user q changed.1 ≡ is_accepted plain [] 2 60 user (3 ∷ []) q)
    × ((q : List ℕ)
        → check_login plain [] user q updated ≡ is_accepted plain [] 2 70 user (2 ∷ []) q)
    × (check_login plain [] user (2 ∷ []) updated ≡ true)
update_version-overwrites_example =
    update_version-overwrites plain [] 2 60 70 accounts user (2 ∷ []) (3 ∷ []) 1 50 stored
      (omega arith)

abbrev request : Request
request = record { client = 4; credentials = job }

abbrev idle : LoginQueue
idle = record { process_count = 0; pending = λ client. false; waiting = [] }

abbrev asked : LoginQueue
asked = (check_credential 2 request idle).1

-- The same client again, before its login has come to its end: the second request is counted in vain.
abbrev again : LoginQueue
again = (check_credential 2 request asked).1

leaked : leaks 2 request asked ≡ 1
unfolding check_credential
leaked = refl

left_over : (complete 0 again).process_count ≡ 1
unfolding check_credential complete
left_over = refl

waits : 0 < length again.waiting
unfolding check_credential
waits = omega arith

steps-IsCounted_example :
    IsCounted 2 (0 + (0 + leaks 2 request idle + leaks 2 request asked + 0)) (complete 0 again)
    × (2 ≤ 0 + (0 + leaks 2 request idle + leaks 2 request asked + 0)
        → is_busy 2 (complete 0 again) ≡ true)
steps-IsCounted_example =
    steps-IsCounted
      (after (after (after none_yet (ask request idle)) (ask request asked)) (done 0 again waits))
      (record { counted = refl; bounded = omega arith })
