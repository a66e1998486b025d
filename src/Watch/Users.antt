-- ===== src/Watch/Users.antt =====
-- src/cvebeacon/watch/users.py: the accounts of the dashboard, their roles and the chained audit log.
-- A time is a number of microseconds. The permissions of a role are the list that was saved; the
-- database file, its migrations and the sanitising of a typed name (`audit_name`) are not modelled.
pub mod Access
pub mod Granted
pub mod Login
pub mod Accounts
pub mod Roles
pub mod Actions
pub mod Calls
pub mod Audit
pub mod Tests
use Prim.Native.String
use cvebeacon.Prelude.{
  ℕ, ◌+◌, String, Bool, true, false, Option, none, some, List, [], ◌∷◌, ◌++◌, ◌&&◌, ◌||◌, ◌==◌, not,
  if◌then◌else◌, ltb, str_eq, PyText, member,
}
use cvebeacon.Watch.Chain.{Cell, integer, text, Row, ChainText, chain_hash}

-- `locked_until`: NULL or empty, a time, or a text that is no time.
pub data Lock : Type 0 where
  unlocked unreadable : Lock
  locked_until : ℕ → Lock

-- A row of `cb_user`.
pub record Account : Type 0 where
  pub id : ℕ
  pub username : String
  pub display_name : Option String
  pub email : Option String
  pub email_key : Option String
  pub password_hash : Option String
  pub is_admin : Bool
  pub disabled : Bool
  pub created_at : ℕ
  pub updated_at : ℕ
  pub password_changed_at : Option ℕ
  pub failed_logins : ℕ
  pub lock : Lock
  pub credential_version : ℕ

-- A row of `cb_user_audit`.
pub record AuditRow : Type 0 where
  pub id : ℕ
  pub action : String
  pub username : String
  pub actor : Option String
  pub at : ℕ
  pub os_account : String
  pub host : String
  pub chain : String

pub record Role : Type 0 where
  pub name : String
  pub permissions : List String

-- The tables; `failed_login_audits` is the counter in `cb_user_meta`.
pub record Users : Type 0 where
  pub accounts : List Account
  pub roles : List Role
  pub user_roles : List (ℕ × String)
  pub audit : List AuditRow
  pub failed_login_audits : Option ℕ

-- What is read of an AuthenticatedUser.
pub record Proof : Type 0 where
  pub user_id : ℕ
  pub username : String
  pub login_id : ℕ
  pub credential_version : ℕ

-- os_account() and host_name()
pub record Machine : Type 0 where
  pub os_account : String
  pub host : String

-- The comparison of user names (NOCASE) by a folded key, `email_lookup_key`, and the check of a
-- password against a stored hash.
pub record UserText : Type 0 where
  pub nocase : String → String
  pub email_lookup_key : String → String
  pub verify_password : String → String → Bool

pub data UserError : Type 0 where
  account_missing account_renamed account_disabled not_a_login stale_proof : UserError
  permission_required admin_required cannot_manage cannot_grant own_role : UserError
  unknown_role last_admin user_not_found already_registered bootstrap_only_first : UserError
  session_mismatch user_missing : UserError
  role_in_use bad_role_name unknown_permission password_rejected store_not_empty : UserError
  bad_action bad_account bad_detail : UserError

-- A value, or the ConfigurationError that rolls the transaction back.
pub data Attempt {ℓ} (A : Type ℓ) : Type ℓ where
  rejected : UserError → Attempt A
  granted : A → Attempt A

infixl 5 ◌>>=◌
abbrev pub ◌>>=◌ {ℓ ℓ'} : {A : Type ℓ} {B : Type ℓ'} → Attempt A → (A → Attempt B) → Attempt B
rejected e >>= f = rejected e
granted a >>= f = f a

abbrev pub max_login_failure_audits : ℕ
max_login_failure_audits = 10000

unfoldable pub last_audit : ℕ × String → List AuditRow → ℕ × String
last_audit default [] = default
last_audit default (r ∷ rows) = last_audit (r.id, r.chain) rows

abbrev actor_value : Option String → Row
actor_value none = []
actor_value (some actor) = ("actor", text actor) ∷ []

-- `COUNT(*)` of the failure entries, up to the limit
pub count_failures : List AuditRow → ℕ
count_failures [] = 0
count_failures (r ∷ rows) =
    (if member r.action ("login_failed" ∷ "login_locked" ∷ []) then 1 else 0) + count_failures rows

module _ ⦃py : PyText⦄ where
  -- The hashed values of an entry.
  abbrev pub audit_values : AuditRow → Row
  audit_values r =
      ("id", integer r.id)
      ∷ ("action", text r.action)
      ∷ ("username", text r.username)
      ∷ ("at", text (py.utc_isoformat r.at))
      ∷ ("os_account", text r.os_account)
      ∷ ("host", text r.host)
      ∷ actor_value r.actor

  module _ ⦃ct : ChainText⦄ where
    -- The entry that is appended, its digest included.
    abbrev pub audit_entry :
        (action username : String)
        → ℕ
        → Machine
        → (actor : Option String) → List AuditRow
        → AuditRow
    audit_entry action username at machine actor rows =
        let (last, previous) = last_audit (0, "") rows in
        let entry : AuditRow = record {
          id = last + 1;
          action = action;
          username = username;
          actor = actor;
          at = at;
          os_account = machine.os_account;
          host = machine.host;
          chain = "";
        } in
        record entry { chain = chain_hash previous (audit_values entry) }

    -- `_append_audit`, with the identifier of the entry
    unfoldable pub append_audit :
        (action username : String) → ℕ → Machine → (actor : Option String) → Users → ℕ × Users
    append_audit action username at machine actor t =
        let entry = audit_entry action username at machine actor t.audit in
        (entry.id, record t { audit = t.audit ++ entry ∷ [] })

    abbrev pub failure_count : Option ℕ → List AuditRow → ℕ
    failure_count none rows =
        let n = count_failures rows in
        if ltb max_login_failure_audits n then max_login_failure_audits else n
    failure_count (some n) rows = n

    -- `_append_login_failure_in`
    unfoldable pub append_login_failure : (action username : String) → ℕ → Machine → Users → Users
    append_login_failure action username at machine t =
        let n = failure_count t.failed_login_audits t.audit in
        let counted = λ (u : Users). record u { failed_login_audits = some (n + 1) } in
        if ltb max_login_failure_audits n
        then t
        else if n == max_login_failure_audits
        then counted (append_audit "login_failures_suppressed" "(all accounts)" at machine none t).1
        else counted (append_audit action username at machine none t).1

-- A change of the row with the identifier.
unfoldable pub change_account : ℕ → (Account → Account) → List Account → List Account
change_account i change [] = []
change_account i change (a ∷ rest) =
    (if a.id == i then change a else a) ∷ change_account i change rest

unfoldable pub account_by_id : ℕ → List Account → Option Account
account_by_id i [] = none
account_by_id i (a ∷ rest) = if a.id == i then some a else account_by_id i rest

unfoldable pub audit_by_id : ℕ → List AuditRow → Option AuditRow
audit_by_id i [] = none
audit_by_id i (r ∷ rest) = if r.id == i then some r else audit_by_id i rest

-- The characters of a text.
unfoldable pub text_length : String → ℕ
text_length String.[] = 0
text_length (String.◌∷◌ c s) = text_length s + 1

unfoldable pub user_named : ⦃ut : UserText⦄ → String → List Account → Option Account
user_named name [] = none
user_named ⦃ut⦄ name (a ∷ rest) =
    if str_eq (ut.nocase a.username) (ut.nocase name) then some a else user_named name rest

-- `_find_username`
unfoldable pub find_username : ⦃ut : UserText⦄ → String → List Account → Option Account
find_username name accounts =
    if not (member name ("" ∷ [])) && not (ltb 64 (text_length name))
    then user_named name accounts
    else none
