-- ===== src/Watch/Users/Login.antt =====
-- users.py: a login, its lockout after failures, and a logout.
pub mod Lockout
pub mod Proofs
use cvebeacon.Prelude.{
  ℕ, ◌+◌, String, Bool, true, false, Option, none, some, List, [], ◌∷◌, ◌&&◌, ◌==◌, not,
  if◌then◌else◌, str_eq, ltb, leb, is_some, PyText,
}
use cvebeacon.Watch.Chain.{ChainText}
use cvebeacon.Watch.Users.{
  Account, Lock, unlocked, unreadable, locked_until, Users, Proof, Machine, UserText, Attempt,
  rejected, granted, ◌>>=◌, find_username, change_account, append_audit, append_login_failure,
}
use cvebeacon.Watch.Users.Access.{validate_proof}

abbrev lockout_failures : ℕ
lockout_failures = 5

-- LOCKOUT_MINUTES, in microseconds
abbrev pub lockout_time : ℕ
lockout_time = 900000000

-- `_locked`
abbrev pub is_locked : Lock → ℕ → Bool
is_locked unlocked now = false
is_locked unreadable now = true
is_locked (locked_until until) now = ltb now until

-- `bool(row["locked_until"]) and not self._locked(row, now)`
abbrev is_expired : Lock → ℕ → Bool
is_expired unlocked now = false
is_expired l now = not (is_locked l now)

module _ ⦃ut : UserText⦄ where
  -- The hash that is verified, of an account that may log in.
  abbrev pub hash_of : Option Account → ℕ → Option String
  hash_of none now = none
  hash_of (some a) now =
      if not a.disabled && not (is_locked a.lock now) then a.password_hash else none

  abbrev pub verifies : Option String → String → Bool
  verifies none password = false
  verifies (some stored) password = ut.verify_password stored password

-- `==` on two optional texts
abbrev pub same_text : Option String → Option String → Bool
same_text none none = true
same_text (some s) (some t) = str_eq s t
same_text _ _ = false

-- The row is still as it was when the password was verified.
abbrev is_same : Option Account → Account → Bool
is_same none row = false
is_same (some a) row =
    (a.id == row.id)
    && same_text a.password_hash row.password_hash
    && (a.credential_version == row.credential_version)

-- The same for the row that is found again.
abbrev pub still : Option Account → Option Account → Bool
still snapshot none = false
still snapshot (some row) = is_same snapshot row

-- The row after a failure.
abbrev pub failed_row : ℕ → Account → Account
failed_row now row =
    let failures = (if is_expired row.lock now then 0 else row.failed_logins) + 1 in
    let kept = if is_expired row.lock now then unlocked else row.lock in
    record row {
      failed_logins = failures;
      lock = if leb lockout_failures failures then locked_until (now + lockout_time) else kept;
      updated_at = now;
    }

-- The row after a login.
abbrev pub reset_row : ℕ → Account → Account
reset_row now row = record row { failed_logins = 0; lock = unlocked; updated_at = now }

module _ ⦃py : PyText⦄ ⦃ct : ChainText⦄ where
  abbrev pub log_in : Account → ℕ → Machine → Users → Option Proof × Users
  log_in row now machine t =
      let (login_id, after) =
        append_audit "login" row.username now machine none
          (record t { accounts = change_account row.id (reset_row now) t.accounts }) in
      (
        some (record {
          user_id = row.id;
          username = row.username;
          login_id = login_id;
          credential_version = row.credential_version;
        }),
        after,
      )

  -- The transaction of `authenticate`: the row, what was verified, and the two times.
  abbrev pub finish_login :
      Option Account
      → (accepted : Bool) → (typed : String) → (started now : ℕ) → Machine
      → Users
      → Option Proof × Users
  finish_login none accepted typed started now machine t =
      (none, append_login_failure "login_failed" typed started machine t)
  finish_login (some row) accepted typed started now machine t =
      if is_locked row.lock now
      then (none, append_login_failure "login_locked" typed now machine t)
      else if not (accepted && not row.disabled)
      then (
        none,
        append_login_failure "login_failed" typed now machine
            (record t { accounts = change_account row.id (failed_row now) t.accounts }),
      )
      else log_in row now machine t

  module _ ⦃ut : UserText⦄ where
    -- `authenticate`: `before` are the tables when the snapshot is read, `t` in the transaction.
    unfoldable pub authenticate :
        (before : Users)
        → (identifier password typed : String) → (started now : ℕ) → Machine
        → Users
        → Option Proof × Users
    authenticate before identifier password typed started now machine t =
        let snapshot = find_username identifier before.accounts in
        let row = find_username identifier t.accounts in
        finish_login row (verifies (hash_of snapshot started) password && still snapshot row) typed
          started now machine t

  -- `record_logout`
  unfoldable pub record_logout : Proof → (all_sessions : Bool) → ℕ → Machine → Users → Attempt Users
  record_logout proof all_sessions now machine t = validate_proof t proof >>= λ user.
      let raised = λ (a : Account). record a { credential_version = a.credential_version + 1 } in
      let ended = if all_sessions then change_account user.id raised t.accounts else t.accounts in
      granted
        (append_audit (if all_sessions then "logout_all" else "logout") user.username now machine
          (some user.username) (record t { accounts = ended })).1
