-- ===== src/Watch/Service/Accountable.antt =====
-- A report in registered or authenticated mode is made for an account that is there and enabled.
use cvebeacon.Prelude.{
  ℕ, String, ◌≡◌, sym, ap, ◌∙◌, subst, Bool, true, false, Option, none, some, List, arith,
  Option-cases, inl, inr, PyText,
}
use cvebeacon.Watch.Chain.{ChainText}
use cvebeacon.Watch.Users.{Account, Users, Proof, granted, account_by_id}
use cvebeacon.Watch.Users.Access.{current_account, validate_proof, require_permission}
use cvebeacon.Watch.Users.Granted.{Attempt-cases}
use cvebeacon.Watch.Users.Roles.Checks.{require_permission-valid}
use cvebeacon.Watch.Users.Calls.Revoked.{account_by_id-id}
use cvebeacon.Watch.Reports.{
  IdentityMode, open_mode, registered, authenticated, ReportRow, ReportStore, outcome, report_cve,
  new_report, channel_set, Action, report, Reporter,
}
use cvebeacon.Watch.Reports.Marks.{report_cve-created, appended-new}
use cvebeacon.Watch.Service.{
  Identity, Session, answered, proof_of, login_user, check_account, check_login, check_by, is_user,
  fits, is_open, reporter_of, require_current, id_of, service_report,
}

-- What the checks of an identity establish: a login is the user's.
abbrev LoginOf : IdentityMode → Option Session → Option Account → Type 0
LoginOf authenticated login user = login_user login ≡ user
LoginOf _ login user = Unit

-- An account that is there and enabled.
abbrev pub IsEnabled : Users → Account → Type 0
IsEnabled t a = (account_by_id a.id t.accounts ≡ some a) × (a.disabled ≡ false)

current_account-IsEnabled :
    (t : Users) (proof : Proof) (a : Account)
    → current_account t proof ≡ granted a
    → IsEnabled t a × (a.id ≡ proof.user_id)
unfolding current_account
current_account-IsEnabled t proof a h = ground (
  arith,
  Option-cases (account_by_id proof.user_id t.accounts),
  account_by_id-id proof.user_id t.accounts a,
)

validate_proof-current :
    (t : Users) (proof : Proof) (a : Account)
    → validate_proof t proof ≡ granted a
    → current_account t proof ≡ granted a
unfolding validate_proof
validate_proof-current t proof a h = ground (arith, Attempt-cases (current_account t proof))

abbrev Named : Users → Option Account → Type 0
Named t user = (a : Account) × IsEnabled t a × (id_of user ≡ some a.id)

is_user-id : (user : Option Account) (a : Account) → is_user user a ≡ true → id_of user ≡ some a.id
is_user-id none a h = ground arith
is_user-id (some u) a h = ground (arith, h)

check_login-Named :
    (t : Users) (login : Option Session) (a : Account)
    → check_login t login ≡ granted a
    → Named t (login_user login)
check_login-Named t none a h = ground arith
check_login-Named t (some s) a h =
    let (enabled, same) =
      current_account-IsEnabled t (proof_of s) a (validate_proof-current t (proof_of s) a h) in
    (a, enabled, ap some (sym same))

check_account-Named : (t : Users) (u a : Account) → check_account t u ≡ granted a → Named t (some u)
check_account-Named t u a h =
    let (enabled, same) =
      current_account-IsEnabled t
        (record { user_id = u.id; username = u.username; login_id = 0; credential_version = 0 }) a
        h in
    (a, enabled, ap some (sym same))

-- The check of the account in a mode that is not open.
checked-Named :
    (t : Users) (mode : IdentityMode) (login : Option Session) (user : Option Account) (a : Account)
    → is_open mode ≡ false
    → LoginOf mode login user
    → check_by t mode login user ≡ granted a
    → Named t user
checked-Named t open_mode login user a plain same h = ground arith
checked-Named t registered login none a plain same h = ground arith
checked-Named t registered login (some u) a plain same h = check_account-Named t u a h
checked-Named t authenticated login none a plain same h = ground arith
checked-Named t authenticated login (some u) a plain same h =
    subst (Named t) same (check_login-Named t login a h)

session-Named :
    (t : Users) (mode : IdentityMode) (login : Option Session) (user : Option Account)
    (display : String) (proof : Proof) (a : Account)
    → is_open mode ≡ false
    → LoginOf mode login user
    → require_permission t proof "report" ≡ granted a
    → fits mode login user display a ≡ true
    → Named t user
session-Named t mode login user display proof a plain same h fit =
    let (enabled, _) =
      current_account-IsEnabled t proof a
        (validate_proof-current t proof a (require_permission-valid t proof "report" a h)) in
    (a, enabled, named mode plain same fit)
  where
    named :
        (m : IdentityMode)
        → is_open m ≡ false
        → LoginOf m login user
        → fits m login user display a ≡ true
        → id_of user ≡ some a.id
    named open_mode p s f = ground arith
    named registered p s f = is_user-id user a f
    named authenticated p s f =
        subst (λ o. id_of o ≡ some a.id) s (is_user-id (login_user login) a f)

-- What a granted check has established.
require_current-Named :
    (t : Users) (identity : Identity) (o : Option Account)
    → is_open identity.mode ≡ false
    → LoginOf identity.mode identity.login identity.user
    → require_current t identity ≡ granted o
    → Named t identity.user
unfolding require_current
require_current-Named t identity o plain same h = elim (Option-cases identity.session) [
  | inl e ↦ elim (Attempt-cases (check_by t identity.mode identity.login identity.user)) [
    | inl (r, f) ↦ absurd (ground (arith, e, f, h, plain))
    | inr (a, f) ↦ checked-Named t identity.mode identity.login identity.user a plain same f
  ]
  | inr (p, e) ↦ elim (Attempt-cases (require_permission t (proof_of p) "report")) [
    | inl (r, f) ↦ absurd (ground (arith, e, f, h))
    | inr (a, f) ↦
        session-Named t identity.mode identity.login identity.user identity.display (proof_of p) a
          plain same f (ground (arith, e, f, h))
  ]
]

module _ ⦃py : PyText⦄ ⦃ct : ChainText⦄ where
  new_report-user :
      (i : String) (action : Action) (who : Reporter) (remark : Option String) (now : ℕ)
      (rows : List ReportRow) (entry : ReportRow)
      → new_report i action who remark now rows ≡ entry
      → (entry.user_id ≡ who.user_id) × (entry.identity_mode ≡ some who.mode)
  unfolding new_report
  new_report-user i action who remark now rows entry e =
      (sym (ap (λ r. r.user_id) e), sym (ap (λ r. r.identity_mode) e))

  -- When the service makes the row of a report for an identity that is not open and whose login,
  -- in authenticated mode, is its user's, the row names an account that is in the table of
  -- accounts and enabled, and the identity's mode.
  pub service_report-IsEnabled :
      (t : Users) (identity : Identity) (os_account host cve_id : String) (remark : Option String)
      (force : Bool) (channels : List String) (now : ℕ) (s after : ReportStore) (entry : ReportRow)
      (event : Option ℕ)
      → is_open identity.mode ≡ false
      → LoginOf identity.mode identity.login identity.user
      → service_report t identity os_account host cve_id remark force channels now s
        ≡ (answered (outcome (some entry) true event), after)
      → (a : Account) × IsEnabled t a
        × (entry.user_id ≡ some a.id)
        × (entry.identity_mode ≡ some identity.mode)
  unfolding service_report
  service_report-IsEnabled t identity os_account host cve_id remark force channels now s after entry
        event plain same h =
      elim (Attempt-cases (require_current t identity)) [
        | inl (r, f) ↦ absurd (ground (arith, f, h))
        | inr (o, f) ↦
            let who = reporter_of identity os_account host in
            let ran : report_cve cve_id who false remark force channels now s
                ≡ (outcome (some entry) true event, after) =
              ground (arith, f, h) in
            let (_, made) =
              report_cve-created cve_id who remark force channels now s after entry event ran in
            let (user, mode) = new_report-user cve_id report who remark now s.reports entry (
              appended-new cve_id report who remark (channel_set channels) now s after entry event
                made) in
            let (a, enabled, named) = require_current-Named t identity o plain same f in
            (a, enabled, user ∙ named, mode)
      ]
