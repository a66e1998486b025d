-- ===== src/Watch/Users/Roles.antt =====
-- users.py: new accounts, edits of accounts, and the roles. The values come in validated.
pub mod Checks
pub mod Grants
use cvebeacon.Prelude.{
  ℕ, ◌+◌, String, Bool, true, false, Option, none, some, List, [], ◌∷◌, ◌++◌, ◌&&◌, ◌||◌, ◌==◌, not,
  if◌then◌else◌, str_eq, any, is_some, is_nil, concat, join, PyText,
}
use cvebeacon.Watch.Chain.{ChainText}
use cvebeacon.Watch.Users.{
  Account, unlocked, Role, Users, Proof, Machine, UserText, Attempt, rejected, granted, ◌>>=◌,
  find_username, change_account, append_audit, already_registered, own_role, role_in_use,
  bad_role_name, unknown_permission, admin_required, store_not_empty,
}
use cvebeacon.Watch.Users.Access.{
  all_permissions, subset, require_admin, require_permission, authorize_target,
  authorize_assignment, require_role, protect_last_admin, role_in, has_admin,
}
use cvebeacon.Watch.Users.Accounts.{
  Authorization, unattended, bootstrap, login, found, edited_row, put_user_role, put_role,
  last_account,
}
use cvebeacon.Watch.Users.Login.{same_text}

module _ ⦃ut : UserText⦄ where
  -- `email_lookup_key(address) if address else None`
  abbrev pub key_for : Option String → Option String
  key_for none = none
  key_for (some address) = some (ut.email_lookup_key address)

  -- A name or an address that is taken as a user name or an address.
  abbrev pub is_taken : List Account → String → Bool
  is_taken accounts value =
      let key = ut.email_lookup_key value in
      any (λ a. str_eq (ut.email_lookup_key a.username) key) accounts
      || any
          (λ a. str_eq (ut.nocase a.username) (ut.nocase value) || same_text a.email_key (some key))
          accounts

  abbrev pub address_taken : List Account → Option String → Bool
  address_taken accounts none = false
  address_taken accounts (some address) = is_taken accounts address

  -- The key is another account's user name or, in the table's unique index, its address.
  abbrev pub key_taken : ℕ → List Account → Option String → Bool
  key_taken i accounts none = false
  key_taken i accounts (some key) =
      any
        (λ a.
          not (a.id == i)
          && (str_eq (ut.email_lookup_key a.username) key || same_text a.email_key (some key)))
        accounts

abbrev pub unless : Bool → Attempt ℕ → Attempt ℕ
unless true denied = denied
unless false denied = granted 0

abbrev pub granted_list : Attempt (List String) → Attempt ℕ
granted_list (rejected e) = rejected e
granted_list (granted permissions) = granted 0

abbrev pub new_account :
    ℕ → String → Option String → Option String → Option String → Option String → Bool → ℕ → Account
new_account i name shown address key encoded is_admin now = record {
  id = i;
  username = name;
  display_name = shown;
  email = address;
  email_key = key;
  password_hash = encoded;
  is_admin = is_admin;
  disabled = false;
  created_at = now;
  updated_at = now;
  password_changed_at = if is_some encoded then some now else none;
  failed_logins = 0;
  lock = unlocked;
  credential_version = 0;
}

-- `add`: the actor, when the authorization holds.
abbrev pub adding_actor : Users → Authorization → (role : String) → Attempt (Option String)
adding_actor t unattended role = granted none
adding_actor t bootstrap role =
    if has_admin t then rejected admin_required else granted (some "(bootstrap)")
adding_actor t (login proof) role = require_permission t proof "manage_users" >>= λ current.
    authorize_assignment t current role >>= λ _. granted (some current.username)

abbrev pub has_role : String → List (ℕ × String) → Account → Bool
has_role name [] a = false
has_role name ((i, role) ∷ rest) a =
    ((i == a.id) && str_eq role name && not a.is_admin) || has_role name rest a

unfoldable pub drop_role : String → List Role → List Role
drop_role name [] = []
drop_role name (r ∷ rest) =
    let later = drop_role name rest in if str_eq r.name name then later else r ∷ later

module _ ⦃py : PyText⦄ ⦃ct : ChainText⦄ where
  -- `delete_role`
  unfoldable pub delete_role : (name : String) → Proof → ℕ → Machine → Users → Attempt Users
  delete_role name proof now machine t = require_admin t proof >>= λ actor.
      granted_list (require_role t name) >>= λ _.
      unless (any (has_role name t.user_roles) t.accounts) (rejected role_in_use) >>= λ _.
      granted
        (append_audit (concat ("role_delete:" ∷ name ∷ [])) actor.username now machine
          (some actor.username) (record t { roles = drop_role name t.roles })).1

module _ ⦃py : PyText⦄ ⦃ct : ChainText⦄ ⦃ut : UserText⦄ where
  -- `add`
  unfoldable pub add :
      (name : String)
      → (shown address encoded : Option String) → (is_admin : Bool) → Authorization
      → (role : String) → (empty_store_only : Bool) → ℕ
      → Machine
      → Users
      → Attempt Users
  add name shown address encoded is_admin authorization role empty_store_only now machine t =
      unless (empty_store_only && not (is_nil t.accounts)) (rejected store_not_empty) >>= λ _.
      adding_actor t authorization (if is_admin then "admin" else role) >>= λ actor.
      (if is_admin then granted 0 else granted_list (require_role t role)) >>= λ _.
      unless (is_taken t.accounts name || address_taken t.accounts address)
        (rejected already_registered)
      >>= λ _.
          let i = last_account 0 t.accounts + 1 in
          let new = new_account i name shown address (key_for address) encoded is_admin now in
          granted
            (append_audit "add" name now machine actor (record t {
              accounts = t.accounts ++ new ∷ [];
              user_roles = t.user_roles ++ (i, role) ∷ [];
            })).1

  -- `edit_user`; the clock is read for the row and for the log.
  unfoldable pub edit_user :
      (username role : String)
      → (disabled : Bool) → (shown address : Option String) → Proof
      → (now later : ℕ) → Machine
      → Users
      → Attempt Users
  edit_user username role disabled shown address proof now later machine t =
      require_permission t proof "manage_users" >>= λ actor.
      found (find_username username t.accounts) >>= λ user. authorize_target t proof user >>= λ _.
      let kept = str_eq role (role_in t user) in
      unless (not actor.is_admin && (actor.id == user.id) && not kept) (rejected own_role) >>= λ _.
      (if kept then granted actor else authorize_assignment t actor role) >>= λ _.
      (if str_eq role "admin" then granted 0 else granted_list (require_role t role)) >>= λ _.
      (if user.is_admin && not user.disabled && (not (str_eq role "admin") || disabled)
        then protect_last_admin t user.id
        else granted 0)
      >>= λ _.
          unless (key_taken user.id t.accounts (key_for address)) (rejected already_registered)
          >>= λ _.
              let row = edited_row shown address (key_for address) role disabled now in
              let action =
                concat
                  ("user_edit:" ∷ role ∷ (if disabled then ":disabled" else ":enabled") ∷ []) in
              granted
                (append_audit action user.username later machine (some actor.username) (record t {
                  accounts = change_account user.id row t.accounts;
                  user_roles = put_user_role user.id role t.user_roles;
                })).1

  -- `save_role`: `well_named` tells that the name matches the pattern, and the permissions are sorted.
  unfoldable pub save_role :
      (name : String)
      → (well_named : Bool) → (permissions : List String) → Proof
      → ℕ
      → Machine
      → Users
      → Attempt Users
  save_role name well_named permissions proof now machine t =
      unless (not well_named || str_eq name "admin") (rejected bad_role_name) >>= λ _.
      unless (not (subset permissions all_permissions)) (rejected unknown_permission) >>= λ _.
      require_admin t proof >>= λ actor.
      granted
        (append_audit (concat ("role_save:" ∷ name ∷ ":" ∷ join "," permissions ∷ []))
          actor.username now machine (some actor.username)
          (record t {
            roles = put_role (record { name = name; permissions = permissions }) t.roles;
          })).1
