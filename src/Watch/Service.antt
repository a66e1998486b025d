-- ===== src/Watch/Service.antt =====
-- src/cvebeacon/watch/identity.py and reporting.py, and users.py: `require_current_in`: who reports, the
-- check of the account that is held through the report, and the report. The texts of an identity come in
-- valid. The recheck inside the watch transaction reads the same locked tables as the check before it.
pub mod Accountable
pub mod Tests
use cvebeacon.Prelude.{
  ℕ, String, Bool, true, false, Option, none, some, List, [], ◌∷◌, ◌&&◌, ◌||◌, ◌==◌, not,
  if◌then◌else◌, str_eq, is_some, PyText,
}
use cvebeacon.Watch.Chain.{ChainText}
use cvebeacon.Watch.Users.{
  Account, Users, Proof, UserText, UserError, Attempt, rejected, granted, ◌>>=◌, session_mismatch,
  user_missing, not_a_login,
}
use cvebeacon.Watch.Users.Access.{current_account, validate_proof, require_permission}
use cvebeacon.Watch.Users.Login.{same_text}
use cvebeacon.Watch.Reports.{
  IdentityMode, open_mode, registered, authenticated, Reporter, ReportStore, ReportOutcome,
  report_cve, unreport_cve,
}

-- AuthenticatedUser
pub record Session : Type 0 where
  pub user : Account
  pub login_id : ℕ
  pub credential_version : ℕ

-- ReportIdentity
pub record Identity : Type 0 where
  pub mode : IdentityMode
  pub display : String
  pub user : Option Account
  pub login : Option Session
  pub email : Option String
  pub session : Option Session

abbrev pub proof_of : Session → Proof
proof_of s = record {
  user_id = s.user.id;
  username = s.user.username;
  login_id = s.login_id;
  credential_version = s.credential_version;
}

-- `User.identity`
abbrev pub label : Account → String
label a = elim a.display_name [ none ↦ a.username | some s ↦ if str_eq s "" then a.username else s ]

-- `user is None or user.id != current.id`
abbrev pub is_user : Option Account → Account → Bool
is_user none current = false
is_user (some a) current = a.id == current.id

abbrev pub login_user : Option Session → Option Account
login_user none = none
login_user (some s) = some s.user

-- The session of a dashboard fits the identity.
abbrev pub fits :
    IdentityMode → Option Session → Option Account → (display : String) → Account → Bool
fits open_mode login user display current = str_eq current.username display
fits registered login user display current = is_user user current
fits authenticated login user display current = is_user (login_user login) current

abbrev pub check_login : Users → Option Session → Attempt Account
check_login t none = rejected not_a_login
check_login t (some s) = validate_proof t (proof_of s)

abbrev pub check_account : Users → Account → Attempt Account
check_account t a =
    current_account t
      (record { user_id = a.id; username = a.username; login_id = 0; credential_version = 0 })

-- The account of an identity without a session.
abbrev pub check_by : Users → IdentityMode → Option Session → Option Account → Attempt Account
check_by t mode login none = rejected user_missing
check_by t authenticated login (some a) = check_login t login
check_by t mode login (some a) = check_account t a

abbrev pub checked : Attempt Account → Attempt (Option Account)
checked (rejected e) = rejected e
checked (granted a) = granted (some a)

abbrev pub is_open : IdentityMode → Bool
is_open open_mode = true
is_open _ = false

-- `require_current_in`, with the account that it has checked
unfoldable pub require_current : Users → Identity → Attempt (Option Account)
require_current t identity = elim identity.session [
  | some s ↦ require_permission t (proof_of s) "report" >>= λ current.
      if fits identity.mode identity.login identity.user identity.display current
      then granted (some current)
      else rejected session_mismatch
  | none ↦
      if is_open identity.mode
      then granted none
      else checked (check_by t identity.mode identity.login identity.user)
]

abbrev pub is_rejected : Attempt (Option Account) → Bool
is_rejected (rejected e) = true
is_rejected (granted a) = false

abbrev pub id_of : Option Account → Option ℕ
id_of none = none
id_of (some a) = some a.id

abbrev name_of : Option Account → Option String
name_of none = none
name_of (some a) = some a.username

-- What a row keeps of the identity.
abbrev pub reporter_of : Identity → (os_account host : String) → Reporter
reporter_of identity os_account host = record {
  display = identity.display;
  user_id = id_of identity.user;
  username = name_of identity.user;
  mode = identity.mode;
  os_account = os_account;
  host = host;
}

-- The error of the guard, or the outcome of the store.
pub data ServiceOutcome : Type 0 where
  denied : UserError → ServiceOutcome
  answered : ReportOutcome → ServiceOutcome

abbrev answer : ReportOutcome × ReportStore → ServiceOutcome × ReportStore
answer (o, s) = (answered o, s)

-- `_identity_guard`: the work under the lock, or the error of the check.
abbrev guarded :
    Users
    → Identity
    → ReportStore
    → (Bool → ReportOutcome × ReportStore)
    → ServiceOutcome × ReportStore
guarded t identity s work = elim (require_current t identity) [
  | rejected e ↦ (denied e, s)
  | granted a ↦ answer (work (is_rejected (require_current t identity)))
]

module _ ⦃py : PyText⦄ ⦃ct : ChainText⦄ where
  -- `ReportService.report_cve`, for a resolved identity
  unfoldable pub service_report :
      Users
      → Identity
      → (os_account host cve_id : String) → Option String
      → (force : Bool) → List String
      → ℕ
      → ReportStore
      → ServiceOutcome × ReportStore
  service_report t identity os_account host cve_id remark force channels now s =
      guarded t identity s λ changed.
        report_cve cve_id (reporter_of identity os_account host) changed remark force channels now s

  -- `ReportService.unreport_cve`, for a resolved identity
  unfoldable pub service_unreport :
      Users
      → Identity
      → (os_account host cve_id : String) → Option String
      → List String
      → ℕ
      → ReportStore
      → ServiceOutcome × ReportStore
  service_unreport t identity os_account host cve_id remark channels now s =
      guarded t identity s λ changed.
        unreport_cve cve_id (reporter_of identity os_account host) changed remark channels now s
