-- ===== src/Watch/Users/Calls/Versions.antt =====
-- The credential version of an account never falls, and a change of its credentials raises it.
use cvebeacon.Prelude.{
  ℕ, ◌≤◌, ◌+◌, String, ◌≡◌, refl, true, false, Option, none, some, List, [], ◌∷◌, ◌++◌, arith,
  is_some, PyText,
}
use cvebeacon.Watch.Chain.{ChainText}
use cvebeacon.Watch.Users.{
  Account, Users, UserText, Attempt, rejected, granted, account_by_id, change_account, user_named,
}
use cvebeacon.Watch.Users.Login.{failed_row, reset_row}
use cvebeacon.Watch.Users.Accounts.{disabled_row, unlocked_row, password_row, edited_row}
use cvebeacon.Watch.Users.Calls.{
  UserCall, authenticate_call, logout_call, set_disabled_call, unlock_call, set_password_call,
  add_call, edit_call, save_role_call, delete_role_call, record_action_call, attempt, committed,
  perform_each,
}
use cvebeacon.Watch.Users.Calls.Effects.{
  record_logout-effect, set_disabled-effect, unlock-effect, set_password-effect, add-effect,
  edit_user-effect, save_role-effect, delete_role-effect, record_action-effect,
}
use cvebeacon.Watch.Users.Calls.Logins.{authenticate-effect}
use cvebeacon.Watch.Users.Granted.{Ensures}

abbrev pub version : Option Account → ℕ
version none = 0
version (some a) = a.credential_version

-- The credential version of the account; 0 when there is none.
abbrev pub version_of : ℕ → List Account → ℕ
version_of i accounts = version (account_by_id i accounts)

-- A change that keeps the identifier and does not lower the version.
record IsForward (change : Account → Account) : Type 0 where
  keeps_id : (a : Account) → (change a).id ≡ a.id
  rises : (a : Account) → a.credential_version ≤ (change a).credential_version

change_account-version :
    (i j : ℕ) (change : Account → Account) (accounts : List Account)
    → IsForward change
    → version_of i accounts ≤ version_of i (change_account j change accounts)
unfolding change_account account_by_id
change_account-version i j change [] h = omega arith
change_account-version i j change (a ∷ rest) h =
    ground (arith, change_account-version i j change rest h, h.keeps_id a, h.rises a)

append-version :
    (i : ℕ) (accounts : List Account) (new : Account)
    → version_of i accounts ≤ version_of i (accounts ++ new ∷ [])
unfolding account_by_id
append-version i [] new = ground arith
append-version i (a ∷ rest) new = ground (arith, append-version i rest new)

pub raise-version :
    (i : ℕ) (change : Account → Account) (accounts : List Account)
    → ((a : Account) → (change a).id ≡ a.id)
    → ((a : Account) → (change a).credential_version ≡ a.credential_version + 1)
    → is_some (account_by_id i accounts) ≡ true
    → version_of i (change_account i change accounts) ≡ version_of i accounts + 1
unfolding change_account account_by_id
raise-version i change [] same raised h = ground arith
raise-version i change (b ∷ rest) same raised h =
    ground (arith, raise-version i change rest same raised, same b, raised b)

pub account_by_id-named :
    ⦃ut : UserText⦄
    → (name : String) (accounts : List Account) (a : Account) → user_named name accounts ≡ some a
    → is_some (account_by_id a.id accounts) ≡ true
unfolding account_by_id user_named
account_by_id-named name [] a h = ground arith
account_by_id-named name (b ∷ rest) a h = ground (arith, account_by_id-named name rest a)

module _ ⦃py : PyText⦄ ⦃ct : ChainText⦄ ⦃ut : UserText⦄ where
  abbrev pub Rises : ℕ → List Account → List Account → Type 0
  Rises i before after = version_of i before ≤ version_of i after

  change-Rises :
      (i j : ℕ) (change : Account → Account) (accounts : List Account)
      → ((a : Account) → (change a).id ≡ a.id)
      → ((a : Account) → a.credential_version ≤ (change a).credential_version)
      → Rises i accounts (change_account j change accounts)
  change-Rises i j change accounts same rise =
      change_account-version i j change accounts (record { keeps_id = same; rises = rise })

  attempt-Rises :
      (i : ℕ) (c : UserCall) (t : Users)
      → Ensures (λ after. Rises i t.accounts after.accounts) (attempt c t)
  attempt-Rises i (authenticate_call before identifier password typed started now machine) t =
      authenticate-effect (Rises i t.accounts) before identifier password typed started now machine
        t (omega arith)
        (λ row _. change-Rises i row.id (failed_row now) t.accounts (λ a. refl) (λ a. omega arith))
        (λ row _. change-Rises i row.id (reset_row now) t.accounts (λ a. refl) (λ a. omega arith))
  attempt-Rises i (logout_call proof true now machine) t =
      record_logout-effect (Rises i t.accounts) proof true now machine t
        λ user _. change-Rises i user.id _ t.accounts (λ a. refl) (λ a. omega arith)
  attempt-Rises i (logout_call proof false now machine) t =
      record_logout-effect (Rises i t.accounts) proof false now machine t λ user _. omega arith
  attempt-Rises i (set_disabled_call username value action authorization now machine) t =
      set_disabled-effect (Rises i t.accounts) username value action authorization now machine t
        λ user _ _.
          change-Rises i user.id (disabled_row value now) t.accounts (λ a. refl) (λ a. omega arith)
  attempt-Rises i (unlock_call username authorization now machine) t =
      unlock-effect (Rises i t.accounts) username authorization now machine t
        λ user. change-Rises i user.id (unlocked_row now) t.accounts (λ a. refl) (λ a. omega arith)
  attempt-Rises i (set_password_call username encoded authorization now machine) t =
      set_password-effect (Rises i t.accounts) username encoded authorization now machine t
        λ user stored _.
          change-Rises i user.id (password_row stored now) t.accounts (λ a. refl) (λ a. omega arith)
  attempt-Rises i
        (add_call name shown address encoded is_admin authorization role empty now machine) t =
      add-effect (Rises i t.accounts) name shown address encoded is_admin authorization role empty
        now machine t λ new _. append-version i t.accounts new
  attempt-Rises i (edit_call username role disabled shown address proof now later machine) t =
      edit_user-effect (Rises i t.accounts) username role disabled shown address proof now later
        machine t
        λ user key _ _.
          change-Rises i user.id (edited_row shown address key role disabled now) t.accounts
            (λ a. refl) (λ a. omega arith)
  attempt-Rises i (save_role_call name well_named permissions proof now machine) t =
      save_role-effect (Rises i t.accounts) name well_named permissions proof now machine t
        (omega arith)
  attempt-Rises i (delete_role_call name proof now machine) t =
      delete_role-effect (Rises i t.accounts) name proof now machine t (omega arith)
  attempt-Rises i
        (record_action_call action well_named username actor detail printable audit_name now
          machine)
        t =
      record_action-effect (Rises i t.accounts) action well_named username actor detail printable
        audit_name now machine t (omega arith)

  pub perform_each-Rises :
      (i : ℕ) (calls : List UserCall) (t : Users)
      → Rises i t.accounts (perform_each calls t).accounts
  unfolding perform_each
  perform_each-Rises i [] t = omega arith
  perform_each-Rises i (c ∷ cs) t =
      step (attempt c t) (attempt-Rises i c t) (perform_each-Rises i cs)
    where
      step :
          (r : Attempt Users)
          → Ensures (λ after. Rises i t.accounts after.accounts) r
          → ((u : Users) → Rises i u.accounts (perform_each cs u).accounts)
          → Rises i t.accounts (perform_each cs (committed t r)).accounts
      step (rejected e) h later = later t
      step (granted after) h later = omega (arith, h, later after)
