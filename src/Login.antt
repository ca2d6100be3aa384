-- ===== src/Login.antt =====
-- src/loginmanager.cpp: logins and passwords, with `World::CheckCredential` of src/world.cpp. What the
-- hash functions and the salt give is a parameter; the database's table of accounts is a function
-- from the user name. The queries of one operation are taken to be a single step each.
pub mod Passwords
pub mod Count
mod Tests
use etheos.Base.{
  ℕ, zero, suc, ◌+◌, ◌-◌, ◌≡◌, Bool, true, false, Option, none, some, List, [], ◌∷◌, ◌++◌, ◌==◌,
  ltb, leb, if◌then◌else◌,
}
use etheos.Eoplus.Lex.{same_text}

-- The `password` and `password_version` of a row of `accounts`.
pub record Account : Type 0 where
  pub password : List ℕ
  pub version : ℕ

abbrev pub Accounts : Type 0
Accounts = List ℕ → Option Account

-- The hashers by version; `draw` is what one draws at random. A hash is accepted for what it was made
-- of; nothing is said of other texts, of which some may be accepted as well.
pub record Hashers : Type 0 where
  pub hash : ℕ → ℕ → List ℕ → List ℕ
  pub check : ℕ → List ℕ → List ℕ → Bool
  pub check-hash : (version draw : ℕ) (s : List ℕ) → check version s (hash version draw s) ≡ true

-- `Hasher::SaltPassword`.
abbrev pub salt_password : List ℕ → List ℕ → List ℕ → List ℕ
salt_password salt user password = salt ++ user ++ password

-- `AccountCredentials`.
pub record Credentials : Type 0 where
  pub username : List ℕ
  pub password : List ℕ
  pub hash_func : ℕ

pub data LoginReply : Type 0 where
  login_wrong_user login_wrong_userpass login_ok login_busy : LoginReply

-- `UPDATE accounts SET ... WHERE username = '$'`: no row is made.
unfoldable pub update_account : List ℕ → Account → Accounts → Accounts
update_account user a accounts name =
    if same_text name user
    then elim (accounts name) [ none ↦ none | some old ↦ some a ]
    else accounts name

-- `salt` is `PasswordSalt` of the settings.
module _ (h : Hashers) (salt : List ℕ) where
  abbrev pub hashed : ℕ → ℕ → List ℕ → List ℕ → Account
  hashed version draw user password = record {
    password = h.hash version draw (salt_password salt user password);
    version = version;
  }

  -- `LoginManager::CheckLogin`.
  unfoldable pub check_login : List ℕ → List ℕ → Accounts → Bool
  check_login user password accounts = elim (accounts user) [
    | none ↦ false
    | some a ↦ h.check a.version (salt_password salt user password) a.password
  ]

  -- `LoginManager::SetPassword`, where `current` is `PasswordCurrentVersion`.
  unfoldable pub set_password : ℕ → ℕ → List ℕ → List ℕ → Accounts → Accounts
  unfolding update_account
  set_password current draw user password accounts =
      update_account user (hashed current draw user password) accounts

  -- The operation of `SetPasswordAsync`.
  unfoldable pub change_password : ℕ → ℕ → List ℕ → List ℕ → List ℕ → Accounts → Bool × Accounts
  unfolding check_login set_password
  change_password current draw user old new accounts =
      if check_login user old accounts
      then (true, set_password current draw user new accounts)
      else (false, accounts)

  -- The operation of `CheckLoginAsync`: the reply, and the update that it starts in the background.
  unfoldable pub login : ℕ → List ℕ → List ℕ → Accounts → LoginReply × List Credentials
  login current user password accounts = elim (accounts user) [
    | none ↦ (login_wrong_user, [])
    | some a ↦
        if h.check a.version (salt_password salt user password) a.password
        then (
          login_ok,
          if ltb a.version current
              then record { username = user; password = password; hash_func = current } ∷ []
              else [],
        )
        else (login_wrong_userpass, [])
  ]

  -- `UpdatePasswordVersionInBackground`, when its thread gets to run.
  unfoldable pub update_version : ℕ → Credentials → Accounts → Accounts
  unfolding update_account
  update_version draw c accounts =
      if c.hash_func == 0
      then accounts
      else update_account c.username (hashed c.hash_func draw c.username c.password) accounts

-- A login that a client has asked for.
pub record Request : Type 0 where
  pub client : ℕ
  pub credentials : Credentials

-- `_processCount`, which clients have `IsAsyncOpPending`, and the logins that are under way.
pub record LoginQueue : Type 0 where
  pub process_count : ℕ
  pub pending : ℕ → Bool
  pub waiting : List Request

-- `LoginBusy`, where `size` is `LoginQueueSize`.
abbrev pub is_busy : ℕ → LoginQueue → Bool
is_busy size q = leb size q.process_count

-- `AsyncOpPending` of a client.
abbrev pub set_pending : ℕ → Bool → (ℕ → Bool) → ℕ → Bool
set_pending client b pending j = if j == client then b else pending j

-- What becomes of a request: `Execute` throws for a client that has an operation pending.
pub data Answer : Type 0 where
  queued thrown : Answer
  replied : LoginReply → Answer

-- `World::CheckCredential` and `AsyncOperation::Execute`: where the queue is full, the operation is
-- over at once.
unfoldable pub check_credential : ℕ → Request → LoginQueue → Answer × LoginQueue
check_credential size c q =
    let counted : LoginQueue = record q { process_count = q.process_count + 1 } in
    if is_busy size q
    then if q.pending c.client
      then (thrown, q)
      else (replied login_busy, record q { pending = set_pending c.client false q.pending })
    else if q.pending c.client
    then (thrown, counted)
    else (
      queued,
      record counted {
        pending = set_pending c.client true q.pending;
        waiting = q.waiting ++ c ∷ [];
      },
    )

-- The thread pool comes to the end of a login, the one at `i`, and calls `OnComplete`.
unfoldable pub remove_at : ℕ → List Request → List Request
remove_at i [] = []
remove_at zero (c ∷ cs) = cs
remove_at (suc i) (c ∷ cs) = c ∷ remove_at i cs

-- The client whose login is at `i` has no operation pending any more.
unfoldable pub settle : ℕ → List Request → (ℕ → Bool) → ℕ → Bool
settle i [] pending = pending
settle zero (c ∷ cs) pending = set_pending c.client false pending
settle (suc i) (c ∷ cs) pending = settle i cs pending

unfoldable pub complete : ℕ → LoginQueue → LoginQueue
unfolding remove_at settle
complete i q = record {
  process_count = q.process_count - 1;
  pending = settle i q.waiting q.pending;
  waiting = remove_at i q.waiting;
}
