-- ===== src/Watch/Users/Audit/Methods.antt =====
-- watch/users.py: the log verifies after every method of the account store.
use cvebeacon.Prelude.{
  ℕ, String, Bool, Option, none, some, List, ◌&&◌, ◌||◌, ◌==◌, not, any, if◌then◌else◌, PyText,
  str_eq, is_nil, truthy,
}
use cvebeacon.Watch.Chain.{ChainText}
use cvebeacon.Watch.Users.{
  Account, Users, Proof, Machine, UserText, Attempt, rejected, granted, ◌>>=◌, user_named,
  find_username, append_audit, store_not_empty, already_registered, own_role, bad_role_name,
  unknown_permission, role_in_use, bad_action, bad_account,
}
use cvebeacon.Watch.Users.Access.{
  validate_proof, protect_last_admin, require_permission, require_admin, require_role,
  authorize_target, authorize_assignment, role_in, subset, all_permissions,
}
use cvebeacon.Watch.Users.Login.{record_logout}
use cvebeacon.Watch.Users.Accounts.{
  Authorization, found, actor_for, password_actor, set_disabled, unlock, set_password,
  encoded_or_error,
}
use cvebeacon.Watch.Users.Roles.{
  unless, granted_list, adding_actor, key_for, is_taken, address_taken, key_taken, has_role, add,
  edit_user, save_role, delete_role,
}
use cvebeacon.Watch.Users.Actions.{detailed, record_action}
use cvebeacon.Watch.Users.Granted.{Ensures}
use cvebeacon.Watch.Users.Audit.Verified.{IsLog, audit_entry-IsLog}

module _ ⦃py : PyText⦄ ⦃ct : ChainText⦄ where
  abbrev pub IsLogged : Users → Type 0
  IsLogged t = IsLog t.audit

  pub append_audit-IsLogged :
      (action username : String) (at : ℕ) (machine : Machine) (actor : Option String) (t : Users)
      → IsLogged t
      → IsLogged (append_audit action username at machine actor t).1
  unfolding append_audit
  append_audit-IsLogged action username at machine actor t h =
      audit_entry-IsLog action username at machine actor t.audit h

  -- The account was found, which is looked up first, and every other guard passed.
  found-IsLogged :
      (o : Option Account) (f : Account → Attempt Users)
      → ((a : Account) → Ensures IsLogged (f a))
      → Ensures IsLogged (found o >>= f)
  found-IsLogged none f h = tt
  found-IsLogged (some a) f h = h a

  guard-IsLogged {ℓ} :
      {A : Type ℓ} (e : Attempt A) (f : A → Attempt Users)
      → ((a : A) → Ensures IsLogged (f a))
      → Ensures IsLogged (e >>= f)
  guard-IsLogged (rejected e) f h = tt
  guard-IsLogged (granted a) f h = h a

  pub record_logout-IsLogged :
      (proof : Proof) (all_sessions : Bool) (now : ℕ) (machine : Machine) (t : Users)
      → IsLogged t
      → Ensures IsLogged (record_logout proof all_sessions now machine t)
  unfolding record_logout
  record_logout-IsLogged proof all_sessions now machine t h =
      guard-IsLogged (validate_proof t proof) _
        λ user. append_audit-IsLogged _ _ now machine _ (record t { accounts = _ }) h

  pub delete_role-IsLogged :
      (name : String) (proof : Proof) (now : ℕ) (machine : Machine) (t : Users)
      → IsLogged t
      → Ensures IsLogged (delete_role name proof now machine t)
  unfolding delete_role
  delete_role-IsLogged name proof now machine t h =
      guard-IsLogged (require_admin t proof) _ λ actor.
        guard-IsLogged (granted_list (require_role t name)) _ λ _.
          guard-IsLogged
            (unless (any (has_role name t.user_roles) t.accounts) (rejected role_in_use)) _
            λ _. append_audit-IsLogged _ _ now machine _ _ h

  pub record_action-IsLogged :
      (action : String) (well_named : Bool) (username : String) (actor detail : Option String)
      (printable : Bool) (audit_name : String → String) (now : ℕ) (machine : Machine) (t : Users)
      → IsLogged t
      → Ensures IsLogged
          (record_action action well_named username actor detail printable audit_name now machine t)
  unfolding record_action
  record_action-IsLogged action well_named username actor detail printable audit_name now machine t
        h =
      guard-IsLogged (unless (not well_named) (rejected bad_action)) _ λ _.
        guard-IsLogged (unless (not (truthy username)) (rejected bad_account)) _ λ _.
          guard-IsLogged (detailed action detail printable) _
            λ entry. append_audit-IsLogged _ _ now machine _ t h

  module _ ⦃ut : UserText⦄ where
    pub set_disabled-IsLogged :
        (username : String) (value : Bool) (action : String) (authorization : Authorization)
        (now : ℕ) (machine : Machine) (t : Users)
        → IsLogged t
        → Ensures IsLogged (set_disabled username value action authorization now machine t)
    unfolding set_disabled
    set_disabled-IsLogged username value action authorization now machine t h =
        found-IsLogged (user_named username t.accounts) _ λ user.
          guard-IsLogged (actor_for t authorization user) _ λ actor.
            guard-IsLogged
              (if value && user.is_admin && not user.disabled
                then protect_last_admin t user.id
                else granted 0)
              _ λ _. append_audit-IsLogged _ _ now machine _ _ h

    pub unlock-IsLogged :
        (username : String) (authorization : Authorization) (now : ℕ) (machine : Machine)
        (t : Users)
        → IsLogged t
        → Ensures IsLogged (unlock username authorization now machine t)
    unfolding unlock
    unlock-IsLogged username authorization now machine t h =
        found-IsLogged (user_named username t.accounts) _ λ user.
          guard-IsLogged (actor_for t authorization user) _
            λ actor. append_audit-IsLogged _ _ now machine _ _ h

    pub set_password-IsLogged :
        (username : String) (encoded : Option String) (authorization : Authorization) (now : ℕ)
        (machine : Machine) (t : Users)
        → IsLogged t
        → Ensures IsLogged (set_password username encoded authorization now machine t)
    unfolding set_password
    set_password-IsLogged username encoded authorization now machine t h =
        found-IsLogged (user_named username t.accounts) _ λ user.
          guard-IsLogged (password_actor t authorization user) _ λ actor.
            guard-IsLogged (encoded_or_error encoded) _
              λ stored. append_audit-IsLogged _ _ now machine _ _ h

    pub add-IsLogged :
        (name : String) (shown address encoded : Option String) (is_admin : Bool)
        (authorization : Authorization) (role : String) (empty_store_only : Bool) (now : ℕ)
        (machine : Machine) (t : Users)
        → IsLogged t
        → Ensures IsLogged (
            add name shown address encoded is_admin authorization role empty_store_only now machine
              t)
    unfolding add
    add-IsLogged name shown address encoded is_admin authorization role empty_store_only now machine
          t h =
        guard-IsLogged
          (unless (empty_store_only && not (is_nil t.accounts)) (rejected store_not_empty)) _
          λ _.
            guard-IsLogged (adding_actor t authorization (if is_admin then "admin" else role)) _
              λ actor.
                guard-IsLogged (if is_admin then granted 0 else granted_list (require_role t role))
                  _
                  λ _.
                    guard-IsLogged
                      (unless (is_taken t.accounts name || address_taken t.accounts address)
                        (rejected already_registered))
                      _ λ _. append_audit-IsLogged _ _ now machine _ _ h

    pub edit_user-IsLogged :
        (username role : String) (disabled : Bool) (shown address : Option String) (proof : Proof)
        (now later : ℕ) (machine : Machine) (t : Users)
        → IsLogged t
        → Ensures IsLogged
            (edit_user username role disabled shown address proof now later machine t)
    unfolding edit_user
    edit_user-IsLogged username role disabled shown address proof now later machine t h =
        guard-IsLogged (require_permission t proof "manage_users") _ λ actor.
          found-IsLogged (find_username username t.accounts) _ λ user.
            guard-IsLogged (authorize_target t proof user) _ λ _.
              guard-IsLogged
                (unless
                  (not actor.is_admin
                    && (actor.id == user.id)
                    && not (str_eq role (role_in t user)))
                  (rejected own_role))
                _
                λ _.
                  guard-IsLogged
                    (if str_eq role (role_in t user)
                      then granted actor
                      else authorize_assignment t actor role)
                    _
                    λ _.
                      guard-IsLogged
                        (if str_eq role "admin"
                          then granted 0
                          else granted_list (require_role t role))
                        _
                        λ _.
                          guard-IsLogged
                            (if user.is_admin
                                && not user.disabled
                                && (not (str_eq role "admin") || disabled)
                              then protect_last_admin t user.id
                              else granted 0)
                            _
                            λ _.
                              guard-IsLogged
                                (unless (key_taken user.id t.accounts (key_for address))
                                  (rejected already_registered))
                                _ λ _. append_audit-IsLogged _ _ later machine _ _ h

    pub save_role-IsLogged :
        (name : String) (well_named : Bool) (permissions : List String) (proof : Proof) (now : ℕ)
        (machine : Machine) (t : Users)
        → IsLogged t
        → Ensures IsLogged (save_role name well_named permissions proof now machine t)
    unfolding save_role
    save_role-IsLogged name well_named permissions proof now machine t h =
        guard-IsLogged (unless (not well_named || str_eq name "admin") (rejected bad_role_name)) _
          λ _.
            guard-IsLogged
              (unless (not (subset permissions all_permissions)) (rejected unknown_permission)) _
              λ _.
                guard-IsLogged (require_admin t proof) _
                  λ actor. append_audit-IsLogged _ _ now machine _ _ h
