-- ===== src/Watch/Users/Audit/Calls.antt =====
-- watch/users.py: the log verifies after any calls of the account store.
use cvebeacon.Prelude.{
  ℕ, String, ◌≡◌, Bool, true, false, Option, none, some, List, [], ◌∷◌, ◌&&◌, ◌==◌, not,
  if◌then◌else◌, PyText, ltb,
}
use cvebeacon.Watch.Chain.{ChainText, verify_chain}
use cvebeacon.Watch.Users.{
  Account, Users, Proof, Machine, UserText, Attempt, rejected, granted, change_account,
  find_username, append_login_failure, failure_count, max_login_failure_audits,
}
use cvebeacon.Watch.Users.Login.{failed_row, is_locked, authenticate, finish_login}
use cvebeacon.Watch.Users.Calls.{
  UserCall, authenticate_call, logout_call, set_disabled_call, unlock_call, set_password_call,
  add_call, edit_call, save_role_call, delete_role_call, record_action_call, attempt, committed,
  perform_each,
}
use cvebeacon.Watch.Users.Granted.{Ensures}
use cvebeacon.Watch.Users.Audit.{verify_audit}
use cvebeacon.Watch.Users.Audit.Verified.{verified-IsLog}
use cvebeacon.Watch.Users.Audit.Methods.{
  IsLogged, append_audit-IsLogged, record_logout-IsLogged, delete_role-IsLogged,
  set_disabled-IsLogged, unlock-IsLogged, set_password-IsLogged, add-IsLogged, edit_user-IsLogged,
  save_role-IsLogged, record_action-IsLogged,
}

module _ ⦃py : PyText⦄ ⦃ct : ChainText⦄ where
  if-IsLogged : (b : Bool) (t u : Users) → IsLogged t → IsLogged u → IsLogged (if b then t else u)
  if-IsLogged true t u h k = h
  if-IsLogged false t u h k = k

  append_login_failure-IsLogged :
      (action username : String) (at : ℕ) (machine : Machine) (t : Users)
      → IsLogged t
      → IsLogged (append_login_failure action username at machine t)
  unfolding append_login_failure
  append_login_failure-IsLogged action username at machine t h =
      let n = failure_count t.failed_login_audits t.audit in
      if-IsLogged (ltb max_login_failure_audits n) t _ h (
        if-IsLogged (n == max_login_failure_audits) _ _
          (append_audit-IsLogged "login_failures_suppressed" "(all accounts)" at machine none t h)
          (append_audit-IsLogged action username at machine none t h))

  choice-IsLogged :
      (b : Bool) (x y : Option Proof × Users)
      → IsLogged x.1
      → IsLogged y.1
      → IsLogged (if b then x else y).1
  choice-IsLogged true x y h k = h
  choice-IsLogged false x y h k = k

  finish_login-IsLogged :
      (o : Option Account) (accepted : Bool) (typed : String) (started now : ℕ) (machine : Machine)
      (t : Users)
      → IsLogged t
      → IsLogged (finish_login o accepted typed started now machine t).1
  finish_login-IsLogged none accepted typed started now machine t h =
      append_login_failure-IsLogged "login_failed" typed started machine t h
  finish_login-IsLogged (some row) accepted typed started now machine t h =
      choice-IsLogged (is_locked row.lock now) _ _
        (append_login_failure-IsLogged "login_locked" typed now machine t h)
        (choice-IsLogged (not (accepted && not row.disabled)) _ _
          (append_login_failure-IsLogged "login_failed" typed now machine
            (record t { accounts = change_account row.id (failed_row now) t.accounts }) h)
          (append_audit-IsLogged "login" row.username now machine none _ h))

  module _ ⦃ut : UserText⦄ where
    committed-IsLogged :
        (t : Users) (e : Attempt Users) → IsLogged t → Ensures IsLogged e → IsLogged (committed t e)
    committed-IsLogged t (rejected e) h k = h
    committed-IsLogged t (granted after) h k = k

    attempt-IsLogged :
        (call : UserCall) (t : Users) → IsLogged t → Ensures IsLogged (attempt call t)
    unfolding authenticate
    attempt-IsLogged (authenticate_call before identifier password typed started now machine) t h =
        finish_login-IsLogged (find_username identifier t.accounts) _ typed started now machine t h
    attempt-IsLogged (logout_call proof all_sessions now machine) t h =
        record_logout-IsLogged proof all_sessions now machine t h
    attempt-IsLogged (set_disabled_call username value action authorization now machine) t h =
        set_disabled-IsLogged username value action authorization now machine t h
    attempt-IsLogged (unlock_call username authorization now machine) t h =
        unlock-IsLogged username authorization now machine t h
    attempt-IsLogged (set_password_call username encoded authorization now machine) t h =
        set_password-IsLogged username encoded authorization now machine t h
    attempt-IsLogged
          (add_call name shown address encoded is_admin authorization role empty now machine) t h =
        add-IsLogged name shown address encoded is_admin authorization role empty now machine t h
    attempt-IsLogged (edit_call username role disabled shown address proof now later machine) t h =
        edit_user-IsLogged username role disabled shown address proof now later machine t h
    attempt-IsLogged (save_role_call name well_named permissions proof now machine) t h =
        save_role-IsLogged name well_named permissions proof now machine t h
    attempt-IsLogged (delete_role_call name proof now machine) t h =
        delete_role-IsLogged name proof now machine t h
    attempt-IsLogged
          (record_action_call action well_named username actor detail printable audit_name now
            machine)
          t h =
        record_action-IsLogged action well_named username actor detail printable audit_name now
          machine t h

    perform_each-IsLogged :
        (calls : List UserCall) (t : Users) → IsLogged t → IsLogged (perform_each calls t)
    unfolding perform_each
    perform_each-IsLogged [] t h = h
    perform_each-IsLogged (call ∷ calls) t h =
        perform_each-IsLogged calls (committed t (attempt call t))
          (committed-IsLogged t (attempt call t) h (attempt-IsLogged call t h))

    -- From a log that verifies, any calls of the methods of the account store that write to its
    -- tables, the entries of dashboard jobs included, with any arguments and in any order,
    -- granted or not, leave a log that verifies.
    pub audit_verifies :
        (calls : List UserCall) (t : Users)
        → verify_audit t.audit ≡ none
        → verify_audit (perform_each calls t).audit ≡ none
    unfolding verify_audit verify_chain
    audit_verifies calls t e = rw (perform_each-IsLogged calls t (verified-IsLog t.audit e))
