-- ===== src/Watch/Users/Calls/Effects.antt =====
-- What each call does to the table of accounts, when it is granted: the guards are passed once, here.
use cvebeacon.Prelude.{
  ℕ, ◌+◌, String, ◌≡◌, refl, Bool, true, false, Option, none, some, List, [], ◌∷◌, ◌++◌, ◌&&◌, ◌||◌,
  ◌==◌, not, any, arith, if◌then◌else◌, Option-cases, PyText, str_eq, is_nil, truthy,
}
use cvebeacon.Watch.Chain.{ChainText}
use cvebeacon.Watch.Users.{
  Account, Users, Proof, Machine, UserText, Attempt, rejected, granted, ◌>>=◌, account_by_id,
  change_account, user_named, find_username, append_audit, store_not_empty, already_registered,
  own_role, bad_role_name, unknown_permission, role_in_use, bad_action, bad_account,
}
use cvebeacon.Watch.Users.Access.{
  current_account, validate_proof, protect_last_admin, is_enabled_admin, require_permission,
  require_admin, require_role, authorize_target, authorize_assignment, role_in, subset,
  all_permissions,
}
use cvebeacon.Watch.Users.Login.{record_logout}
use cvebeacon.Watch.Users.Accounts.{
  Authorization, found, actor_for, password_actor, disabled_row, unlocked_row, password_row,
  edited_row, last_account, set_disabled, unlock, set_password, encoded_or_error,
}
use cvebeacon.Watch.Users.Roles.{
  new_account, unless, granted_list, adding_actor, key_for, is_taken, address_taken, key_taken,
  has_role, add, edit_user, save_role, delete_role,
}
use cvebeacon.Watch.Users.Actions.{detailed, record_action}
use cvebeacon.Watch.Users.Granted.{Ensures, bind-Ensures}

module _ (P : Users → Type 0) where
  -- The row that was found.
  found-Ensures :
      (o : Option Account) (f : Account → Attempt Users)
      → ((a : Account) → o ≡ some a → Ensures P (f a))
      → Ensures P (found o >>= f)
  found-Ensures none f h = tt
  found-Ensures (some a) f h = h a refl

-- Another administrator is enabled.
abbrev pub others_remain : ℕ → List Account → Bool
others_remain i accounts = any (λ a. is_enabled_admin a && not (a.id == i)) accounts

protect_last_admin-remain :
    (t : Users) (i j : ℕ) → protect_last_admin t i ≡ granted j → others_remain i t.accounts ≡ true
unfolding protect_last_admin
protect_last_admin-remain t i j h = ground arith

-- The account of a proof that holds.
pub validate_proof-id :
    (t : Users) (proof : Proof) (user : Account)
    → validate_proof t proof ≡ granted user
    → account_by_id proof.user_id t.accounts ≡ some user
unfolding validate_proof current_account
validate_proof-id t proof user h =
    ground (arith, Option-cases (account_by_id proof.user_id t.accounts))

module _ ⦃py : PyText⦄ ⦃ct : ChainText⦄ (P : List Account → Type 0) where
  abbrev After : Users → Type 0
  After t = P t.accounts

  pub record_logout-effect :
      (proof : Proof) (all_sessions : Bool) (now : ℕ) (machine : Machine) (t : Users)
      → ((user : Account)
          → account_by_id proof.user_id t.accounts ≡ some user
          → P (
              if all_sessions
              then change_account user.id
                  (λ a. record a { credential_version = a.credential_version + 1 })
                  t.accounts
              else t.accounts))
      → Ensures After (record_logout proof all_sessions now machine t)
  unfolding record_logout append_audit
  record_logout-effect proof all_sessions now machine t h =
      bind-Ensures After (validate_proof t proof) _
        λ user e. h user (validate_proof-id t proof user e)

  module _ ⦃ut : UserText⦄ where
    pub set_disabled-effect :
        (username : String) (value : Bool) (action : String) (authorization : Authorization)
        (now : ℕ) (machine : Machine) (t : Users)
        → ((user : Account)
            → user_named username t.accounts ≡ some user
            → (value ≡ true
                → is_enabled_admin user ≡ true
                → others_remain user.id t.accounts ≡ true)
            → P (change_account user.id (disabled_row value now) t.accounts))
        → Ensures After (set_disabled username value action authorization now machine t)
    unfolding set_disabled append_audit
    set_disabled-effect username value action authorization now machine t h =
        found-Ensures After (user_named username t.accounts) _ λ user e.
          bind-Ensures After (actor_for t authorization user) _ λ actor _.
            bind-Ensures After
              (if value && user.is_admin && not user.disabled
                then protect_last_admin t user.id
                else granted 0)
              _ λ i guard. h user e (λ v w. protect_last_admin-remain t user.id i (ground arith))

    pub unlock-effect :
        (username : String) (authorization : Authorization) (now : ℕ) (machine : Machine)
        (t : Users)
        → ((user : Account) → P (change_account user.id (unlocked_row now) t.accounts))
        → Ensures After (unlock username authorization now machine t)
    unfolding unlock append_audit
    unlock-effect username authorization now machine t h =
        found-Ensures After (user_named username t.accounts) _
          λ user e. bind-Ensures After (actor_for t authorization user) _ λ actor _. h user

    pub set_password-effect :
        (username : String) (encoded : Option String) (authorization : Authorization) (now : ℕ)
        (machine : Machine) (t : Users)
        → ((user : Account) (stored : String)
            → user_named username t.accounts ≡ some user
            → P (change_account user.id (password_row stored now) t.accounts))
        → Ensures After (set_password username encoded authorization now machine t)
    unfolding set_password append_audit
    set_password-effect username encoded authorization now machine t h =
        found-Ensures After (user_named username t.accounts) _ λ user e.
          bind-Ensures After (password_actor t authorization user) _
            λ actor _. bind-Ensures After (encoded_or_error encoded) _ λ stored _. h user stored e

    pub add-effect :
        (name : String) (shown address encoded : Option String) (is_admin : Bool)
        (authorization : Authorization) (role : String) (empty_store_only : Bool) (now : ℕ)
        (machine : Machine) (t : Users)
        → ((new : Account) → new.id ≡ last_account 0 t.accounts + 1 → P (t.accounts ++ new ∷ []))
        → Ensures After (
            add name shown address encoded is_admin authorization role empty_store_only now machine
              t)
    unfolding add append_audit
    add-effect name shown address encoded is_admin authorization role empty_store_only now machine t
          h =
        bind-Ensures After
          (unless (empty_store_only && not (is_nil t.accounts)) (rejected store_not_empty)) _
          λ _ _.
            bind-Ensures After (adding_actor t authorization (if is_admin then "admin" else role)) _
              λ actor _.
                bind-Ensures After
                  (if is_admin then granted 0 else granted_list (require_role t role)) _
                  λ _ _.
                    bind-Ensures After
                      (unless (is_taken t.accounts name || address_taken t.accounts address)
                        (rejected already_registered))
                      _ λ _ _. h (new_account _ _ _ _ _ _ _ _) refl

    pub edit_user-effect :
        (username role : String) (disabled : Bool) (shown address : Option String) (proof : Proof)
        (now later : ℕ) (machine : Machine) (t : Users)
        → ((user : Account) (key : Option String)
            → find_username username t.accounts ≡ some user
            → (is_enabled_admin user ≡ true
                → str_eq role "admin" && not disabled ≡ false
                → others_remain user.id t.accounts ≡ true)
            → P (
                change_account user.id (edited_row shown address key role disabled now) t.accounts))
        → Ensures After (edit_user username role disabled shown address proof now later machine t)
    unfolding edit_user append_audit
    edit_user-effect username role disabled shown address proof now later machine t h =
        bind-Ensures After (require_permission t proof "manage_users") _ λ actor _.
          found-Ensures After (find_username username t.accounts) _ λ user e.
            bind-Ensures After (authorize_target t proof user) _ λ _ _.
              bind-Ensures After
                (unless
                  (not actor.is_admin
                    && (actor.id == user.id)
                    && not (str_eq role (role_in t user)))
                  (rejected own_role))
                _
                λ _ _.
                  bind-Ensures After
                    (if str_eq role (role_in t user)
                      then granted actor
                      else authorize_assignment t actor role)
                    _
                    λ _ _.
                      bind-Ensures After
                        (if str_eq role "admin"
                          then granted 0
                          else granted_list (require_role t role))
                        _
                        λ _ _.
                          bind-Ensures After
                            (if user.is_admin
                                && not user.disabled
                                && (not (str_eq role "admin") || disabled)
                              then protect_last_admin t user.id
                              else granted 0)
                            _
                            λ i guard.
                              bind-Ensures After
                                (unless (key_taken user.id t.accounts (key_for address))
                                  (rejected already_registered))
                                _
                                λ _ _.
                                  h user _ e
                                    (λ v w. protect_last_admin-remain t user.id i (ground arith))

    pub save_role-effect :
        (name : String) (well_named : Bool) (permissions : List String) (proof : Proof) (now : ℕ)
        (machine : Machine) (t : Users)
        → P t.accounts
        → Ensures After (save_role name well_named permissions proof now machine t)
    unfolding save_role append_audit
    save_role-effect name well_named permissions proof now machine t h =
        bind-Ensures After (unless (not well_named || str_eq name "admin") (rejected bad_role_name))
          _
          λ _ _.
            bind-Ensures After
              (unless (not (subset permissions all_permissions)) (rejected unknown_permission)) _
              λ _ _. bind-Ensures After (require_admin t proof) _ λ actor _. h

  pub delete_role-effect :
      (name : String) (proof : Proof) (now : ℕ) (machine : Machine) (t : Users)
      → P t.accounts
      → Ensures After (delete_role name proof now machine t)
  unfolding delete_role append_audit
  delete_role-effect name proof now machine t h =
      bind-Ensures After (require_admin t proof) _ λ actor _.
        bind-Ensures After (granted_list (require_role t name)) _ λ _ _.
          bind-Ensures After
            (unless (any (has_role name t.user_roles) t.accounts) (rejected role_in_use)) _ λ _ _. h

  pub record_action-effect :
      (action : String) (well_named : Bool) (username : String) (actor detail : Option String)
      (printable : Bool) (audit_name : String → String) (now : ℕ) (machine : Machine) (t : Users)
      → P t.accounts
      → Ensures After
          (record_action action well_named username actor detail printable audit_name now machine t)
  unfolding record_action append_audit
  record_action-effect action well_named username actor detail printable audit_name now machine t
        h =
      bind-Ensures After (unless (not well_named) (rejected bad_action)) _ λ _ _.
        bind-Ensures After (unless (not (truthy username)) (rejected bad_account)) _
          λ _ _. bind-Ensures After (detailed action detail printable) _ λ entry _. h
