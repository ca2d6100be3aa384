-- ===== src/Login/Passwords.antt =====
-- src/loginmanager.cpp: which password is accepted.
use etheos.Base.{
  ℕ, ◌<◌, ◌≡◌, refl, ◌∙◌, Bool, true, false, some, List, [], ◌∷◌, ◌==◌, ltb, arith, inl, inr,
  Bool-cases, if◌then◌else◌,
}
use etheos.Eoplus.Lex.{same_text}
use etheos.Login.{
  Account, Accounts, Hashers, salt_password, Credentials, login_ok, update_account, hashed,
  check_login, set_password, change_password, login, update_version,
}

pub same_text_self : (s : List ℕ) → same_text s s ≡ true
unfolding same_text
same_text_self [] = refl
same_text_self (c ∷ s) = ground (arith, same_text_self s)

module _ (h : Hashers) (salt : List ℕ) where
  -- Whether `q` is accepted where a hash has been made of `p`.
  abbrev pub is_accepted : ℕ → ℕ → List ℕ → List ℕ → List ℕ → Bool
  is_accepted version draw user p q =
      h.check version (salt_password salt user q) (h.hash version draw (salt_password salt user p))

  -- The stored hash was made of the password `p`.
  abbrev pub HasPassword : Accounts → List ℕ → ℕ → ℕ → List ℕ → Type 0
  HasPassword accounts user version draw p =
      accounts user ≡ some (hashed h salt version draw user p)

  -- Then it is the one that decides what is accepted.
  pub check_login-HasPassword :
      (accounts : Accounts) (user p : List ℕ) (version draw : ℕ)
      → HasPassword accounts user version draw p
      → (q : List ℕ) → check_login h salt user q accounts ≡ is_accepted version draw user p q
  unfolding check_login
  check_login-HasPassword accounts user p version draw e q = rw (check_login, e) refl

  update_self :
      (accounts : Accounts) (user : List ℕ) (a old : Account)
      → accounts user ≡ some old
      → update_account user a accounts user ≡ some a
  unfolding update_account
  update_self accounts user a old e = rw (update_account, same_text_self user, e)

  update_other :
      (accounts : Accounts) (user name : List ℕ) (a : Account)
      → same_text name user ≡ false
      → update_account user a accounts name ≡ accounts name
  unfolding update_account
  update_other accounts user name a e = rw (update_account, e)

  -- Where the hash of an account was made of the password `p`, a change of it succeeds exactly if the
  -- old password that is given is accepted against that hash. After it the hash of the new password
  -- alone decides what is accepted, which the new password is; if it has failed, that of `p` alone still
  -- does. The rows of all other users are as before.
  pub change_password-accepts :
      (current draw : ℕ) (accounts : Accounts) (user p old new : List ℕ) (version drawn : ℕ)
      → HasPassword accounts user version drawn p
      → let (changed, accounts') = change_password h salt current draw user old new accounts in
        (changed ≡ is_accepted version drawn user p old)
        × ((q : List ℕ)
            → check_login h salt user q accounts' ≡ (
                if changed
                then is_accepted current draw user new q
                else is_accepted version drawn user p q))
        × (changed ≡ true → check_login h salt user new accounts' ≡ true)
        × ((name : List ℕ) → same_text name user ≡ false → accounts' name ≡ accounts name)
  unfolding change_password set_password
  change_password-accepts current draw accounts user p old new version drawn e =
      let asked = check_login-HasPassword accounts user p version drawn e old in
      let row = hashed h salt current draw user new in
      let after = update_self accounts user row (hashed h salt version drawn user p) e in
      let decides =
        check_login-HasPassword (update_account user row accounts) user new current draw after in
      elim (Bool-cases (is_accepted version drawn user p old)) [
        | inl right ↦
            rw (change_password, asked, right)
              (
                refl,
                decides,
                λ k. decides new ∙ h.check-hash current draw (salt_password salt user new),
                λ name n. update_other accounts user name row n,
              )
        | inr wrong ↦
            rw (change_password, asked, wrong)
              (
                refl,
                check_login-HasPassword accounts user p version drawn e,
                λ k. cc,
                λ name n. refl,
              )
      ]

  -- A login with the right password to an account whose hash is of an older version starts an update
  -- in the background. If the password is changed before the update runs, the change succeeds and the
  -- hash of the new password alone decides what is accepted; but when the update has run, a hash of the
  -- old password alone does, and the old password is accepted again.
  pub update_version-overwrites :
      (current draw again : ℕ) (accounts : Accounts) (user p new : List ℕ) (version drawn : ℕ)
      → HasPassword accounts user version drawn p
      → version < current
      → let job : Credentials = record { username = user; password = p; hash_func = current } in
        let (changed, accounts') = change_password h salt current draw user p new accounts in
        let accounts'' = update_version h salt again job accounts' in
        (login h salt current user p accounts ≡ (login_ok, job ∷ []))
        × (changed ≡ true)
        × ((q : List ℕ) → check_login h salt user q accounts' ≡ is_accepted current draw user new q)
        × ((q : List ℕ) → check_login h salt user q accounts'' ≡ is_accepted current again user p q)
        × (check_login h salt user p accounts'' ≡ true)
  unfolding login update_version change_password set_password
  update_version-overwrites current draw again accounts user p new version drawn e older =
      let right : is_accepted version drawn user p p ≡ true =
        h.check-hash version drawn (salt_password salt user p) in
      let asked = check_login-HasPassword accounts user p version drawn e p ∙ right in
      let is_older : ltb version current ≡ true = ground arith in
      let some_version : (current == 0) ≡ false = ground arith in
      let row = hashed h salt current draw user new in
      let back = hashed h salt current again user p in
      let changed_row = update_self accounts user row (hashed h salt version drawn user p) e in
      let changed_accounts = update_account user row accounts in
      let new_decides =
        check_login-HasPassword changed_accounts user new current draw changed_row in
      let old_decides =
        check_login-HasPassword (update_account user back changed_accounts) user p current again
          (update_self changed_accounts user back row changed_row) in
      (
        rw (login, e, right, is_older),
        rw (change_password, asked) refl,
        λ q. rw (change_password, asked) (new_decides q),
        λ q. rw (change_password, asked, update_version, some_version) (old_decides q),
        rw (change_password, asked, update_version, some_version)
            (old_decides p ∙ h.check-hash current again (salt_password salt user p)),
      )
