-- ===== src/Watch/Users/Calls/Admins.antt =====
-- No call removes the last enabled administrator.
use cvebeacon.Prelude.{
  ℕ, String, ◌≡◌, refl, true, false, some, List, [], ◌∷◌, ◌&&◌, not, any, arith, str_eq, Bool-cases,
  inl, inr, PyText,
}
use cvebeacon.Watch.Chain.{ChainText}
use cvebeacon.Watch.Users.{
  Account, Users, UserText, Attempt, rejected, granted, change_account, user_named,
}
use cvebeacon.Watch.Users.Access.{is_enabled_admin}
use cvebeacon.Watch.Users.Login.{failed_row, reset_row}
use cvebeacon.Watch.Users.Accounts.{disabled_row, unlocked_row, password_row, edited_row}
use cvebeacon.Watch.Users.Calls.{
  UserCall, authenticate_call, logout_call, set_disabled_call, unlock_call, set_password_call,
  add_call, edit_call, save_role_call, delete_role_call, record_action_call, attempt, committed,
  perform_each,
}
use cvebeacon.Watch.Users.Calls.Effects.{
  others_remain, record_logout-effect, set_disabled-effect, unlock-effect, set_password-effect,
  add-effect, edit_user-effect, save_role-effect, delete_role-effect, record_action-effect,
}
use cvebeacon.Watch.Users.Calls.Logins.{authenticate-effect}
use cvebeacon.Watch.Users.Calls.Order.{
  IsOrdered, change_account-IsOrdered, append-IsOrdered, user_named-by_id, others-remain,
  others-kept, admins-kept, admins-append,
}
use cvebeacon.Watch.Users.Calls.Revoked.{find_username-named}
use cvebeacon.Watch.Users.Granted.{Ensures}

module _ ⦃py : PyText⦄ ⦃ct : ChainText⦄ ⦃ut : UserText⦄ where
  -- The identifiers rise, and an administrator is enabled.
  abbrev pub IsManaged : List Account → Type 0
  IsManaged accounts = IsOrdered 0 accounts × (any is_enabled_admin accounts ≡ true)

  change-IsManaged :
      (i : ℕ) (change : Account → Account) (accounts : List Account)
      → ((a : Account) → (change a).id ≡ a.id)
      → ((a : Account) → is_enabled_admin a ≡ true → is_enabled_admin (change a) ≡ true)
      → IsManaged accounts
      → IsManaged (change_account i change accounts)
  change-IsManaged i change accounts same keep (h, k) =
      (change_account-IsOrdered 0 i change accounts same h, admins-kept i change accounts keep k)

  -- A change of one row that the guard allows.
  guarded-IsManaged :
      (name : String) (user : Account) (change : Account → Account) (accounts : List Account)
      → ((a : Account) → (change a).id ≡ a.id)
      → user_named name accounts ≡ some user
      → (is_enabled_admin user ≡ true → others_remain user.id accounts ≡ true)
      → IsManaged accounts
      → IsManaged (change_account user.id change accounts)
  guarded-IsManaged name user change accounts same e guard (h, k) =
      let remain : others_remain user.id accounts ≡ true = ground (
        arith,
        Bool-cases (is_enabled_admin user),
        guard,
        others-remain 0 user.id accounts user h (user_named-by_id 0 name accounts user h e),
      ) in
      (
        change_account-IsOrdered 0 user.id change accounts same h,
        others-kept user.id change accounts remain,
      )

  attempt-IsManaged :
      (c : UserCall) (t : Users)
      → IsManaged t.accounts
      → Ensures (λ after. IsManaged after.accounts) (attempt c t)
  attempt-IsManaged (authenticate_call before identifier password typed started now machine) t h =
      authenticate-effect IsManaged before identifier password typed started now machine t h
        (λ row _. change-IsManaged row.id (failed_row now) t.accounts (λ a. refl) (λ a k. k) h)
        (λ row _. change-IsManaged row.id (reset_row now) t.accounts (λ a. refl) (λ a k. k) h)
  attempt-IsManaged (logout_call proof true now machine) t h =
      record_logout-effect IsManaged proof true now machine t
        λ user _. change-IsManaged user.id _ t.accounts (λ a. refl) (λ a k. k) h
  attempt-IsManaged (logout_call proof false now machine) t h =
      record_logout-effect IsManaged proof false now machine t λ user _. h
  attempt-IsManaged (set_disabled_call username true action authorization now machine) t h =
      set_disabled-effect IsManaged username true action authorization now machine t λ user e guard.
        guarded-IsManaged username user (disabled_row true now) t.accounts (λ a. refl) e
          (guard refl) h
  attempt-IsManaged (set_disabled_call username false action authorization now machine) t h =
      set_disabled-effect IsManaged username false action authorization now machine t
        λ user e guard.
          change-IsManaged user.id (disabled_row false now) t.accounts (λ a. refl)
            (λ a k. ground arith) h
  attempt-IsManaged (unlock_call username authorization now machine) t h =
      unlock-effect IsManaged username authorization now machine t
        λ user. change-IsManaged user.id (unlocked_row now) t.accounts (λ a. refl) (λ a k. k) h
  attempt-IsManaged (set_password_call username encoded authorization now machine) t h =
      set_password-effect IsManaged username encoded authorization now machine t λ user stored _.
        change-IsManaged user.id (password_row stored now) t.accounts (λ a. refl) (λ a k. k) h
  attempt-IsManaged
        (add_call name shown address encoded is_admin authorization role empty now machine) t h =
      add-effect IsManaged name shown address encoded is_admin authorization role empty now machine
        t λ new e. (append-IsOrdered 0 t.accounts new e h.0, admins-append t.accounts new h.1)
  attempt-IsManaged (edit_call username role disabled shown address proof now later machine) t h =
      edit_user-effect IsManaged username role disabled shown address proof now later machine t
        λ user key e guard. elim (Bool-cases (str_eq role "admin" && not disabled)) [
          | inl stays ↦
              change-IsManaged user.id (edited_row shown address key role disabled now) t.accounts
                (λ a. refl) (λ a k. stays) h
          | inr goes ↦
              guarded-IsManaged username user (edited_row shown address key role disabled now)
                t.accounts (λ a. refl) (find_username-named username t.accounts user e)
                (λ k. guard k goes) h
        ]
  attempt-IsManaged (save_role_call name well_named permissions proof now machine) t h =
      save_role-effect IsManaged name well_named permissions proof now machine t h
  attempt-IsManaged (delete_role_call name proof now machine) t h =
      delete_role-effect IsManaged name proof now machine t h
  attempt-IsManaged
        (record_action_call action well_named username actor detail printable audit_name now
          machine)
        t h =
      record_action-effect IsManaged action well_named username actor detail printable audit_name
        now machine t h

  -- From a table of accounts whose identifiers rise and that has an enabled administrator, any
  -- calls of the account store, with any arguments and in any order, leave a table whose
  -- identifiers rise and that has an enabled administrator.
  pub admin_remains :
      (calls : List UserCall) (t : Users)
      → IsManaged t.accounts
      → IsManaged (perform_each calls t).accounts
  unfolding perform_each
  admin_remains [] t h = h
  admin_remains (c ∷ cs) t h =
      admin_remains cs (committed t (attempt c t)) (step (attempt c t) (attempt-IsManaged c t h))
    where
      step :
          (r : Attempt Users)
          → Ensures (λ after. IsManaged after.accounts) r
          → IsManaged (committed t r).accounts
      step (rejected e) k = h
      step (granted after) k = k
