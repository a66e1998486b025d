-- ===== src/Watch/Users/Access.antt =====
-- users.py and permissions.py: what a login proves, and what an account may do.
use cvebeacon.Prelude.{
  ℕ, String, Bool, false, Option, none, some, List, [], ◌∷◌, ◌&&◌, ◌==◌, not, if◌then◌else◌, str_eq,
  all, any, member, select,
}
use cvebeacon.Watch.Users.{
  Account, AuditRow, Role, Users, Proof, Attempt, rejected, granted, ◌>>=◌, account_by_id,
  audit_by_id, account_missing, account_renamed, account_disabled, not_a_login, stale_proof,
  permission_required, admin_required, cannot_manage, cannot_grant, unknown_role, last_admin,
}

-- PERMISSIONS
abbrev pub all_permissions : List String
all_permissions =
    "view" ∷ "report" ∷ "statement" ∷ "run" ∷ "retry" ∷ "test_channel" ∷ "edit_rules"
    ∷ "edit_channels" ∷ "edit_sources" ∷ "edit_watch" ∷ "edit_reporting" ∷ "edit_dashboard"
    ∷ "edit_inventory" ∷ "edit_http" ∷ "edit_system" ∷ "manage_schedule" ∷ "manage_web_assets"
    ∷ "manage_secrets" ∷ "manage_users" ∷ "view_audit" ∷ []

-- `left <= right` on sets
abbrev pub subset : List String → List String → Bool
subset left right = all (λ p. member p right) left

abbrev check_current : Proof → Option Account → Attempt Account
check_current proof none = rejected account_missing
check_current proof (some a) =
    if not (str_eq a.username proof.username)
    then rejected account_renamed
    else if a.disabled
    then rejected account_disabled
    else granted a

-- `_current_account`
unfoldable pub current_account : Users → Proof → Attempt Account
current_account t proof = check_current proof (account_by_id proof.user_id t.accounts)

abbrev is_login_of : String → Option AuditRow → Bool
is_login_of name none = false
is_login_of name (some r) = str_eq r.action "login" && str_eq r.username name

-- `_validate_proof_in`
unfoldable pub validate_proof : Users → Proof → Attempt Account
validate_proof t proof = current_account t proof >>= λ current.
    if not (is_login_of current.username (audit_by_id proof.login_id t.audit))
    then rejected not_a_login
    else if not (current.credential_version == proof.credential_version)
    then rejected stale_proof
    else granted current

-- `require_admin_in`
unfoldable pub require_admin : Users → Proof → Attempt Account
require_admin t proof = validate_proof t proof >>= λ current.
    if current.is_admin then granted current else rejected admin_required

unfoldable pub stored_role : List (ℕ × String) → ℕ → String
stored_role [] i = ""
stored_role ((j, role) ∷ rest) i = if j == i then role else stored_role rest i

-- `role_in`
unfoldable pub role_in : Users → Account → String
role_in t user = if user.is_admin then "admin" else stored_role t.user_roles user.id

-- `SELECT permissions FROM cb_role WHERE name=?`
unfoldable pub role_permissions : List Role → String → Option (List String)
role_permissions [] name = none
role_permissions (r ∷ rest) name =
    if str_eq r.name name then some r.permissions else role_permissions rest name

abbrev pub known_permissions : Option (List String) → List String
known_permissions none = []
known_permissions (some values) = select (λ p. member p all_permissions) values

-- `permissions_in`
unfoldable pub permissions_in : Users → Account → List String
permissions_in t user =
    if user.is_admin
    then all_permissions
    else known_permissions (role_permissions t.roles (role_in t user))

-- `require_permission_in`
unfoldable pub require_permission : Users → Proof → String → Attempt Account
require_permission t proof permission = validate_proof t proof >>= λ current.
    if member permission all_permissions && member permission (permissions_in t current)
    then granted current
    else rejected permission_required

-- `_authorize_target_in`
unfoldable pub authorize_target : Users → Proof → Account → Attempt Account
authorize_target t proof target = require_permission t proof "manage_users" >>= λ actor.
    if target.is_admin && not actor.is_admin
    then rejected admin_required
    else if not actor.is_admin && not (subset (permissions_in t target) (permissions_in t actor))
    then rejected cannot_manage
    else granted actor

abbrev check_role : String → Option (List String) → Attempt (List String)
check_role role none = rejected unknown_role
check_role role (some permissions) =
    if str_eq role "admin" then rejected unknown_role else granted permissions

-- `_require_role_in`, with the permissions of the role
unfoldable pub require_role : Users → String → Attempt (List String)
require_role t role = check_role role (role_permissions t.roles role)

-- `_authorize_assignment_in`
unfoldable pub authorize_assignment : Users → Account → String → Attempt Account
authorize_assignment t actor role =
    if actor.is_admin
    then granted actor
    else if str_eq role "admin"
    then rejected admin_required
    else (require_role t role >>= λ permissions.
        if subset permissions (permissions_in t actor)
        then granted actor
        else rejected cannot_grant)

abbrev pub is_enabled_admin : Account → Bool
is_enabled_admin a = a.is_admin && not a.disabled

-- `has_admin`
abbrev pub has_admin : Users → Bool
has_admin t = any is_enabled_admin t.accounts

-- `_protect_last_admin_in`
unfoldable pub protect_last_admin : Users → ℕ → Attempt ℕ
protect_last_admin t i =
    if any (λ a. is_enabled_admin a && not (a.id == i)) t.accounts
    then granted i
    else rejected last_admin
