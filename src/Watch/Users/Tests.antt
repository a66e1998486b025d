-- ===== src/Watch/Users/Tests.antt =====
-- The theorems on accounts at concrete tables, and runs of the calls.
use cvebeacon.Prelude.{
  ℕ, String, ◌≡◌, refl, Bool, true, false, Option, none, some, [], ◌∷◌, arith, str_eq,
}
use cvebeacon.Watch.Rules.Tests.{plain_text}
use cvebeacon.Watch.Chain.Encoding.{plain_chain}
use cvebeacon.Watch.Users.{
  Account, AuditRow, unlocked, Users, Proof, Machine, UserText, granted, account_by_id,
  change_account, user_named, find_username, append_audit, append_login_failure, audit_by_id,
  last_audit, text_length,
}
use cvebeacon.Watch.Users.Access.{
  validate_proof, current_account, permissions_in, subset, role_in, stored_role, role_permissions,
  require_permission, authorize_target, require_role,
}
use cvebeacon.Watch.Users.Login.{authenticate, is_locked, reset_row, verifies}
use cvebeacon.Watch.Users.Login.Lockout.{Try, attempt as login_attempt, successes, locked_out}
use cvebeacon.Watch.Users.Login.Proofs.{login_proves}
use cvebeacon.Watch.Users.Accounts.{unattended, set_disabled, edited_row}
use cvebeacon.Watch.Users.Roles.{edit_user}
use cvebeacon.Watch.Users.Roles.Grants.{edit_within}
use cvebeacon.Watch.Users.Calls.{UserCall, set_disabled_call, attempt, committed, perform_each}
use cvebeacon.Watch.Users.Calls.Revoked.{revokes, denies, revoked}
use cvebeacon.Watch.Users.Calls.Admins.{IsManaged, admin_remains}

instance abbrev pub plain_users : UserText
plain_users = record {
  nocase = λ s. s;
  email_lookup_key = λ s. s;
  verify_password = λ stored password. str_eq stored password;
}

abbrev pub account : ℕ → String → Bool → ℕ → Account
account i name is_admin failures = record {
  id = i;
  username = name;
  display_name = none;
  email = none;
  email_key = none;
  password_hash = some "secret";
  is_admin = is_admin;
  disabled = false;
  created_at = 1;
  updated_at = 1;
  password_changed_at = some 1;
  failed_logins = failures;
  lock = unlocked;
  credential_version = 0;
}

abbrev login_entry : ℕ → String → AuditRow
login_entry i name = record {
  id = i;
  action = "login";
  username = name;
  actor = none;
  at = 1;
  os_account = "svc";
  host = "desk";
  chain = "a";
}

-- An administrator, a manager, and a viewer with four failed logins.
abbrev pub tables : Users
tables = record {
  accounts = account 1 "root" true 0 ∷ account 2 "mia" false 0 ∷ account 3 "bob" false 4 ∷ [];
  roles =
      record { name = "viewer"; permissions = "view" ∷ [] }
      ∷ record { name = "manager"; permissions = "view" ∷ "manage_users" ∷ [] }
      ∷ [];
  user_roles = (1, "admin") ∷ (2, "manager") ∷ (3, "viewer") ∷ [];
  audit = login_entry 1 "root" ∷ login_entry 2 "mia" ∷ login_entry 3 "bob" ∷ [];
  failed_login_audits = none;
}

abbrev pub desk : Machine
desk = record { os_account = "svc"; host = "desk" }

abbrev proof_of : ℕ → String → Proof
proof_of i name = record { user_id = i; username = name; login_id = i; credential_version = 0 }

abbrev try : String → ℕ → Try
try password now = record {
  before = tables;
  password = password;
  typed = "bob";
  started = now;
  now = now;
  machine = desk;
}

locked_out_example :
    successes "bob" (try "secret" 200 ∷ []) (login_attempt "bob" (try "wrong" 100) tables).1 ≡ 0
unfolding authenticate find_username user_named append_login_failure append_audit text_length
locked_out_example =
    locked_out "bob" (try "wrong" 100) (try "secret" 200 ∷ []) (account 3 "bob" false 4) tables refl
      refl (omega arith) refl (omega arith, tt)

abbrev disable : UserCall
disable = set_disabled_call "bob" true "disable" unattended 10 desk

abbrev enable : UserCall
enable = set_disabled_call "bob" false "enable" unattended 20 desk

revoked_example :
    denies (
      validate_proof
        (perform_each (enable ∷ []) (committed tables (attempt disable tables)))
        (proof_of 3 "bob"))
    ≡ true
unfolding set_disabled user_named account_by_id revokes
revoked_example =
    revoked disable (enable ∷ []) (proof_of 3 "bob") tables
      (committed tables (attempt disable tables)) refl refl (omega arith)

admin_remains_example : IsManaged (perform_each (disable ∷ enable ∷ []) tables).accounts
admin_remains_example =
    admin_remains (disable ∷ enable ∷ []) tables
      ((omega arith, (omega arith, (omega arith, tt))), refl)

abbrev bob_before : Account
bob_before = account 3 "bob" false 4

abbrev bob_login : Option Proof × Users
bob_login = authenticate tables "bob" "secret" "bob" 40 50 desk tables

abbrev bob_proof : Proof
bob_proof = record { user_id = 3; username = "bob"; login_id = 4; credential_version = 0 }

login_proves_example :
    (row : Account) × (find_username "bob" tables.accounts ≡ some row)
    × (row.disabled ≡ false)
    × (is_locked row.lock 50 ≡ false)
    × (verifies row.password_hash "secret" ≡ true)
    × (validate_proof bob_login.1 bob_proof ≡ granted (reset_row 50 row))
unfolding authenticate find_username user_named append_audit text_length last_audit
login_proves_example =
    login_proves tables "bob" "secret" "bob" 40 50 desk tables bob_login.1 bob_proof
      (omega arith, (omega arith, (omega arith, tt)))
      (omega arith, (omega arith, (omega arith, tt))) refl

abbrev bob_edited : Account
bob_edited = edited_row (some "Bob") none none "viewer" false 60 bob_before

edit_within_example :
    (bob_edited.is_admin ≡ false)
    × (subset
          (permissions_in
            (committed tables (
              edit_user "bob" "viewer" false
                (some "Bob")
                none
                (proof_of 2 "mia")
                60
                61
                desk
                tables))
            bob_edited)
          (permissions_in tables (account 2 "mia" false 0))
        ≡ true)
unfolding edit_user find_username user_named append_audit text_length validate_proof current_account
    account_by_id audit_by_id permissions_in stored_role role_permissions role_in require_permission
    authorize_target require_role change_account
edit_within_example =
    edit_within "bob" "viewer" false (some "Bob") none (proof_of 2 "mia") 60 61 desk tables
      (committed tables
        (edit_user "bob" "viewer" false (some "Bob") none (proof_of 2 "mia") 60 61 desk tables))
      (account 2 "mia" false 0) bob_before bob_edited refl refl refl refl refl refl
