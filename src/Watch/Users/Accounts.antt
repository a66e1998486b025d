-- ===== src/Watch/Users/Accounts.antt =====
-- users.py: the management of accounts and roles.
use cvebeacon.Prelude.{
  ℕ, ◌+◌, String, Bool, Option, none, some, List, [], ◌∷◌, ◌&&◌, ◌==◌, not, if◌then◌else◌, str_eq,
  PyText,
}
use cvebeacon.Watch.Chain.{ChainText}
use cvebeacon.Watch.Users.{
  Account, unlocked, Role, Users, Proof, Machine, UserText, Attempt, rejected, granted, ◌>>=◌,
  user_named, change_account, append_audit, user_not_found, bootstrap_only_first, password_rejected,
}
use cvebeacon.Watch.Users.Access.{validate_proof, authorize_target, protect_last_admin}

-- `authorization`
pub data Authorization : Type 0 where
  unattended bootstrap : Authorization
  login : Proof → Authorization

abbrev pub found : Option Account → Attempt Account
found none = rejected user_not_found
found (some a) = granted a

-- The name of the actor, for a change of the account.
abbrev pub actor_for : Users → Authorization → Account → Attempt (Option String)
actor_for t unattended user = granted none
actor_for t bootstrap user = rejected bootstrap_only_first
actor_for t (login proof) user =
    authorize_target t proof user >>= λ actor. granted (some actor.username)

-- The same for a password, which an account may change for itself.
abbrev pub password_actor : Users → Authorization → Account → Attempt (Option String)
password_actor t unattended user = granted none
password_actor t bootstrap user = rejected bootstrap_only_first
password_actor t (login proof) user = validate_proof t proof >>= λ current.
    if current.id == user.id
    then granted (some current.username)
    else authorize_target t proof user >>= λ actor. granted (some current.username)

abbrev pub disabled_row : Bool → ℕ → Account → Account
disabled_row value now a = record a {
  disabled = value;
  updated_at = now;
  credential_version = a.credential_version + 1;
}

abbrev pub unlocked_row : ℕ → Account → Account
unlocked_row now a = record a { failed_logins = 0; lock = unlocked; updated_at = now }

abbrev pub password_row : String → ℕ → Account → Account
password_row encoded now a = record a {
  password_hash = some encoded;
  password_changed_at = some now;
  updated_at = now;
  failed_logins = 0;
  lock = unlocked;
  credential_version = a.credential_version + 1;
}

abbrev pub edited_row :
    Option String → Option String → Option String → String → Bool → ℕ → Account → Account
edited_row shown address key role disabled now a = record a {
  display_name = shown;
  email = address;
  email_key = key;
  is_admin = str_eq role "admin";
  disabled = disabled;
  updated_at = now;
  credential_version = a.credential_version + 1;
}

-- `INSERT ... ON CONFLICT(user_id) DO UPDATE`
unfoldable pub put_user_role : ℕ → String → List (ℕ × String) → List (ℕ × String)
put_user_role i role [] = (i, role) ∷ []
put_user_role i role ((j, old) ∷ rest) =
    let later = (j, old) ∷ put_user_role i role rest in if j == i then (i, role) ∷ rest else later

unfoldable pub put_role : Role → List Role → List Role
put_role new [] = new ∷ []
put_role new (r ∷ rest) =
    let later = r ∷ put_role new rest in if str_eq r.name new.name then new ∷ rest else later

unfoldable pub last_account : ℕ → List Account → ℕ
last_account default [] = default
last_account default (a ∷ rest) = last_account a.id rest

module _ ⦃py : PyText⦄ ⦃ct : ChainText⦄ ⦃ut : UserText⦄ where
  -- `_set_disabled`, with the action "disable" or "enable"
  unfoldable pub set_disabled :
      (username : String)
      → Bool
      → (action : String) → Authorization
      → ℕ
      → Machine
      → Users
      → Attempt Users
  set_disabled username value action authorization now machine t =
      found (user_named username t.accounts) >>= λ user. actor_for t authorization user >>= λ actor.
      (if value && user.is_admin && not user.disabled
        then protect_last_admin t user.id
        else granted 0)
      >>= λ _.
          granted
            (append_audit action user.username now machine actor (record t {
              accounts = change_account user.id (disabled_row value now) t.accounts;
            })).1

  -- `unlock`
  unfoldable pub unlock : (username : String) → Authorization → ℕ → Machine → Users → Attempt Users
  unlock username authorization now machine t = found (user_named username t.accounts) >>= λ user.
      actor_for t authorization user >>= λ actor.
      granted
        (append_audit "unlock" user.username now machine actor
          (record t { accounts = change_account user.id (unlocked_row now) t.accounts })).1

  abbrev pub encoded_or_error : Option String → Attempt String
  encoded_or_error none = rejected password_rejected
  encoded_or_error (some encoded) = granted encoded

  -- `set_password`; `encoded` is the new hash, or nothing for a password that is not accepted.
  unfoldable pub set_password :
      (username : String)
      → (encoded : Option String) → Authorization
      → ℕ
      → Machine
      → Users
      → Attempt Users
  set_password username encoded authorization now machine t =
      found (user_named username t.accounts) >>= λ user.
      password_actor t authorization user >>= λ actor. encoded_or_error encoded >>= λ stored.
      granted
        (append_audit "passwd" user.username now machine actor
          (record t { accounts = change_account user.id (password_row stored now) t.accounts })).1
