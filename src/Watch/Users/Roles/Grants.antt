-- ===== src/Watch/Users/Roles/Grants.antt =====
-- An account that is no administrator gives nobody a permission that it does not hold.
use mathlib.Core.Option.{some-injective}
use cvebeacon.Prelude.{
  ℕ, String, ◌≡◌, refl, sym, ap, ◌∙◌, subst, Bool, true, false, Option, some, ◌==◌, not, ◌&&◌, ◌||◌,
  if◌then◌else◌, PyText, str_eq,
}
use cvebeacon.Watch.Chain.{ChainText}
use cvebeacon.Watch.Users.{
  Account, Users, Proof, Machine, UserText, rejected, granted, account_by_id, change_account,
  find_username, append_audit, already_registered, own_role,
}
use cvebeacon.Watch.Users.Access.{
  subset, validate_proof, role_in, stored_role, permissions_in, role_permissions, known_permissions,
  require_permission, authorize_target, authorize_assignment, require_role, protect_last_admin,
}
use cvebeacon.Watch.Users.Accounts.{put_user_role, edited_row, found}
use cvebeacon.Watch.Users.Roles.{edit_user, unless, granted_list, key_for, key_taken}
use cvebeacon.Watch.Users.Granted.{granted-injective, Ensures, bind-Ensures, Ensures-granted}
use cvebeacon.Watch.Users.Roles.Checks.{
  stored_role-put, target-subset, plain-permissions, role-within, require_permission-valid,
  changed-row, found-some,
}

module _ ⦃py : PyText⦄ ⦃ct : ChainText⦄ ⦃ut : UserText⦄ where
  abbrev Within : Users → Account → Account → Users → Type 0
  Within t actor user after =
      (row : Account)
      → account_by_id user.id after.accounts ≡ some row
      → (row.is_admin ≡ false) × (subset (permissions_in after row) (permissions_in t actor) ≡ true)

  edited-Within :
      (t after : Users) (proof : Proof) (actor user holder target given checked : Account)
      (role : String) (change : Account → Account)
      → validate_proof t proof ≡ granted actor
      → actor.is_admin ≡ false
      → str_eq (stored_role t.user_roles user.id) "admin" ≡ false
      → require_permission t proof "manage_users" ≡ granted holder
      → user ≡ target
      → authorize_target t proof target ≡ granted checked
      → (if str_eq role (role_in t target)
          then granted holder
          else authorize_assignment t holder role)
        ≡ granted given
      → ((a : Account) → (change a).is_admin ≡ str_eq role "admin")
      → ((a : Account) → (change a).id ≡ a.id)
      → after.accounts ≡ change_account target.id change t.accounts
      → after.user_roles ≡ put_user_role target.id role t.user_roles
      → after.roles ≡ t.roles
      → Within t actor user after
  edited-Within t after proof actor user holder target given checked role change valid plain stored
        allowed same target_ok guard flag kept accounts assigned roles row present =
      let one : holder ≡ actor =
        granted-injective holder actor
          (sym (require_permission-valid t proof "manage_users" holder allowed) ∙ valid) in
      let (below, within) =
        target-subset t proof actor user checked valid plain
          (subst (λ a. authorize_target t proof a ≡ granted checked) (sym same) target_ok) in
      let (modest, fits) = role-within t actor user given role plain below within stored (
        subst
          (λ a.
            (if str_eq role (role_in t a) then granted actor else authorize_assignment t actor role)
            ≡ granted given)
          (sym same)
          (subst
            (λ a.
              (if str_eq role (role_in t target) then granted a else authorize_assignment t a role)
              ≡ granted given)
            one guard)) in
      let (flagged, numbered) =
        changed-row user.id change (str_eq role "admin") t.accounts row flag kept (
          sym (
            ap (account_by_id user.id)
              (accounts ∙ ap (λ a. change_account a.id change t.accounts) (sym same)))
          ∙ present) in
      let role_now : stored_role after.user_roles row.id ≡ role =
        ap (λ l. stored_role l row.id)
          (assigned ∙ ap (λ a. put_user_role a.id role t.user_roles) (sym same))
        ∙ ap (stored_role (put_user_role user.id role t.user_roles)) numbered
        ∙ stored_role-put user.id role t.user_roles in
      (
        flagged ∙ modest,
        ap (λ ps. subset ps (permissions_in t actor))
              (plain-permissions after row role (flagged ∙ modest) role_now
                ∙ ap (λ l. known_permissions (role_permissions l role)) roles)
            ∙ fits,
      )

  edit-Within :
      (username role : String) (disabled : Bool) (shown address : Option String) (proof : Proof)
      (now later : ℕ) (machine : Machine) (t : Users) (actor user : Account)
      → validate_proof t proof ≡ granted actor
      → actor.is_admin ≡ false
      → find_username username t.accounts ≡ some user
      → str_eq (stored_role t.user_roles user.id) "admin" ≡ false
      → Ensures
          (Within t actor user)
          (edit_user username role disabled shown address proof now later machine t)
  unfolding edit_user append_audit
  edit-Within username role disabled shown address proof now later machine t actor user valid plain
        named stored =
      bind-Ensures P (require_permission t proof "manage_users") _ λ holder allowed.
        bind-Ensures P (found (find_username username t.accounts)) _ λ target e.
          bind-Ensures P (authorize_target t proof target) _ λ checked target_ok.
            bind-Ensures P
              (unless
                (not holder.is_admin
                  && (holder.id == target.id)
                  && not (str_eq role (role_in t target)))
                (rejected own_role))
              _
              λ _ _.
                bind-Ensures P
                  (if str_eq role (role_in t target)
                    then granted holder
                    else authorize_assignment t holder role)
                  _
                  λ given guard.
                    bind-Ensures P
                      (if str_eq role "admin"
                        then granted 0
                        else granted_list (require_role t role))
                      _
                      λ _ _.
                        bind-Ensures P
                          (if target.is_admin
                              && not target.disabled
                              && (not (str_eq role "admin") || disabled)
                            then protect_last_admin t target.id
                            else granted 0)
                          _
                          λ _ _.
                            bind-Ensures P
                              (unless (key_taken target.id t.accounts (key_for address))
                                (rejected already_registered))
                              _
                              λ _ _.
                                edited-Within t _ proof actor user holder target given checked role
                                  (edited_row shown address (key_for address) role disabled now)
                                  valid plain stored allowed
                                  (some-injective _ _ (
                                    sym named
                                    ∙ found-some (find_username username t.accounts) target e))
                                  target_ok guard (λ a. refl) (λ a. refl) refl refl refl
    where
      P : Users → Type 0
      P = Within t actor user

  -- When the holder of a valid proof, who is no administrator, is granted the edit of an account
  -- whose stored role is not the administrator's, the edited account is no administrator and has
  -- no permission in the new tables that the editor does not have in the old ones.
  pub edit_within :
      (username role : String) (disabled : Bool) (shown address : Option String) (proof : Proof)
      (now later : ℕ) (machine : Machine) (t after : Users) (actor user row : Account)
      → edit_user username role disabled shown address proof now later machine t ≡ granted after
      → validate_proof t proof ≡ granted actor
      → actor.is_admin ≡ false
      → find_username username t.accounts ≡ some user
      → str_eq (stored_role t.user_roles user.id) "admin" ≡ false
      → account_by_id user.id after.accounts ≡ some row
      → (row.is_admin ≡ false) × (subset (permissions_in after row) (permissions_in t actor) ≡ true)
  edit_within username role disabled shown address proof now later machine t after actor user row h
        valid plain named stored present =
      Ensures-granted (Within t actor user)
        (edit_user username role disabled shown address proof now later machine t) after
        (edit-Within username role disabled shown address proof now later machine t actor user valid
          plain named stored)
        h row present
