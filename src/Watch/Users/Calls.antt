-- ===== src/Watch/Users/Calls.antt =====
-- The calls of the account store that change its tables.
pub mod Effects
pub mod Logins
pub mod Versions
pub mod Revoked
pub mod Order
pub mod Admins
use cvebeacon.Prelude.{ℕ, String, Bool, Option, List, [], ◌∷◌, PyText}
use cvebeacon.Watch.Chain.{ChainText}
use cvebeacon.Watch.Users.{Users, Proof, Machine, UserText, Attempt, rejected, granted}
use cvebeacon.Watch.Users.Login.{authenticate, record_logout}
use cvebeacon.Watch.Users.Accounts.{Authorization, set_disabled, unlock, set_password}
use cvebeacon.Watch.Users.Roles.{add, edit_user, save_role, delete_role}
use cvebeacon.Watch.Users.Actions.{record_action}

pub data UserCall : Type 0 where
  authenticate_call :
      (before : Users) → (identifier password typed : String) → ℕ → ℕ → Machine → UserCall
  logout_call : Proof → Bool → ℕ → Machine → UserCall
  set_disabled_call : String → Bool → (action : String) → Authorization → ℕ → Machine → UserCall
  unlock_call : String → Authorization → ℕ → Machine → UserCall
  set_password_call : String → Option String → Authorization → ℕ → Machine → UserCall
  add_call :
      String
      → (shown address encoded : Option String) → Bool
      → Authorization
      → (role : String) → Bool
      → ℕ
      → Machine
      → UserCall
  edit_call :
      (username role : String)
      → Bool
      → (shown address : Option String) → Proof
      → ℕ
      → ℕ
      → Machine
      → UserCall
  save_role_call : String → Bool → List String → Proof → ℕ → Machine → UserCall
  delete_role_call : String → Proof → ℕ → Machine → UserCall
  record_action_call :
      (action : String)
      → Bool
      → (username : String) → (actor detail : Option String) → Bool
      → (audit_name : String → String) → ℕ
      → Machine
      → UserCall

module _ ⦃py : PyText⦄ ⦃ct : ChainText⦄ ⦃ut : UserText⦄ where
  -- The tables after a call, or its error.
  abbrev pub attempt : UserCall → Users → Attempt Users
  attempt (authenticate_call before identifier password typed started now machine) t =
      granted (authenticate before identifier password typed started now machine t).1
  attempt (logout_call proof all_sessions now machine) t =
      record_logout proof all_sessions now machine t
  attempt (set_disabled_call username value action authorization now machine) t =
      set_disabled username value action authorization now machine t
  attempt (unlock_call username authorization now machine) t =
      unlock username authorization now machine t
  attempt (set_password_call username encoded authorization now machine) t =
      set_password username encoded authorization now machine t
  attempt (add_call name shown address encoded is_admin authorization role empty now machine) t =
      add name shown address encoded is_admin authorization role empty now machine t
  attempt (edit_call username role disabled shown address proof now later machine) t =
      edit_user username role disabled shown address proof now later machine t
  attempt (save_role_call name well_named permissions proof now machine) t =
      save_role name well_named permissions proof now machine t
  attempt (delete_role_call name proof now machine) t = delete_role name proof now machine t
  attempt
        (record_action_call action well_named username actor detail printable audit_name now
          machine)
        t =
      record_action action well_named username actor detail printable audit_name now machine t

  -- An error rolls the transaction back.
  abbrev pub committed : Users → Attempt Users → Users
  committed t (rejected e) = t
  committed t (granted after) = after

  unfoldable pub perform_each : List UserCall → Users → Users
  perform_each [] t = t
  perform_each (c ∷ cs) t = perform_each cs (committed t (attempt c t))
