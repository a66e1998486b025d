-- ===== src/Watch/Users/Login/Lockout.antt =====
-- The lockout of an account after failed logins.
use cvebeacon.Prelude.{
  ℕ, ◌≤◌, ◌<◌, ◌+◌, String, ◌≡◌, refl, sym, ap, ◌∙◌, Bool, true, Option, none, some, List, [], ◌∷◌,
  not, ◌&&◌, arith, is_some, if◌then◌else◌, Bool-cases, PyText,
}
use cvebeacon.Watch.Chain.{ChainText}
use cvebeacon.Watch.Users.{
  Account, unlocked, locked_until, Users, Proof, Machine, UserText, change_account, user_named,
  find_username, append_audit,
}
use cvebeacon.Watch.Users.Calls.Logins.{append_login_failure-accounts}
use cvebeacon.Watch.Users.Login.{
  lockout_time, is_locked, failed_row, finish_login, authenticate, verifies, hash_of, still,
}

-- One login attempt, with the tables of its snapshot.
pub record Try : Type 0 where
  pub before : Users
  pub password : String
  pub typed : String
  pub started : ℕ
  pub now : ℕ
  pub machine : Machine

-- Every attempt is decided before the time.
abbrev AllBefore : ℕ → List Try → Type 0
AllBefore until [] = Unit
AllBefore until (a ∷ rest) = (a.now < until) × AllBefore until rest

find_username-change :
    ⦃ut : UserText⦄
    → (name : String) (change : Account → Account) (accounts : List Account) (row : Account)
    → ((a : Account) → (change a).username ≡ a.username)
    → find_username name accounts ≡ some row
    → find_username name (change_account row.id change accounts) ≡ some (change row)
unfolding find_username user_named change_account
find_username-change name change accounts row same h = ground (arith, named accounts)
  where
    named :
        (l : List Account)
        → user_named name l ≡ some row
        → user_named name (change_account row.id change l) ≡ some (change row)
    named [] e = ground arith
    named (a ∷ rest) e = ground (arith, named rest, same a)

module _ ⦃py : PyText⦄ ⦃ct : ChainText⦄ where
  -- A locked row.
  finish_login-locked :
      (row : Account) (accepted : Bool) (typed : String) (started now until : ℕ) (machine : Machine)
      (t : Users)
      → row.lock ≡ locked_until until
      → now < until
      → ((finish_login (some row) accepted typed started now machine t).0 ≡ none)
        × ((finish_login (some row) accepted typed started now machine t).1.accounts ≡ t.accounts)
  finish_login-locked row accepted typed started now until machine t e h =
      let locked : is_locked row.lock now ≡ true = ground (arith, e) in
      rw locked (refl, append_login_failure-accounts "login_locked" typed now machine t)

  -- A failure of a row that is not locked.
  finish_login-failed :
      (row : Account) (accepted : Bool) (typed : String) (started now : ℕ) (machine : Machine)
      (t : Users)
      → row.lock ≡ unlocked
      → (finish_login (some row) accepted typed started now machine t).0 ≡ none
      → (finish_login (some row) accepted typed started now machine t).1.accounts
        ≡ change_account row.id (failed_row now) t.accounts
  unfolding append_audit
  finish_login-failed row accepted typed started now machine t e h = ground (
    arith,
    e,
    append_login_failure-accounts "login_failed" typed now machine
        (record t { accounts = change_account row.id (failed_row now) t.accounts }),
    Bool-cases (accepted && not row.disabled),
  )

  module _ ⦃ut : UserText⦄ where
    -- An attempt on the name.
    abbrev pub attempt : String → Try → Users → Option Proof × Users
    attempt identifier a t =
        authenticate a.before identifier a.password a.typed a.started a.now a.machine t

    abbrev accepts : String → Try → Users → Bool
    accepts identifier a t =
        let snapshot = find_username identifier a.before.accounts in
        verifies (hash_of snapshot a.started) a.password
        && still snapshot (find_username identifier t.accounts)

    attempt-finish :
        (identifier : String) (a : Try) (t : Users) (row : Account)
        → find_username identifier t.accounts ≡ some row
        → attempt identifier a t
          ≡ finish_login (some row) (accepts identifier a t) a.typed a.started a.now a.machine t
    unfolding authenticate
    attempt-finish identifier a t row found =
        ap (λ o. finish_login o (accepts identifier a t) a.typed a.started a.now a.machine t) found

    attempt-locked :
        (identifier : String) (a : Try) (until : ℕ) (row : Account) (t : Users)
        → find_username identifier t.accounts ≡ some row
        → row.lock ≡ locked_until until
        → a.now < until
        → ((attempt identifier a t).0 ≡ none) × ((attempt identifier a t).1.accounts ≡ t.accounts)
    attempt-locked identifier a until row t found locked early =
        let same = attempt-finish identifier a t row found in
        let (fails, kept) =
          finish_login-locked row (accepts identifier a t) a.typed a.started a.now until a.machine t
            locked early in
        (ap (λ x. x.0) same ∙ fails, ap (λ x. x.1.accounts) same ∙ kept)

    -- The number of attempts on the name that succeed, one after the other.
    pub successes : String → List Try → Users → ℕ
    successes identifier [] t = 0
    successes identifier (a ∷ rest) t =
        (if is_some (attempt identifier a t).0 then 1 else 0)
        + successes identifier rest (attempt identifier a t).1

    successes-locked :
        (identifier : String) (until : ℕ) (tries : List Try) (row : Account) (t : Users)
        → find_username identifier t.accounts ≡ some row
        → row.lock ≡ locked_until until
        → AllBefore until tries
        → successes identifier tries t ≡ 0
    unfolding successes
    successes-locked identifier until [] row t found locked h = refl
    successes-locked identifier until (a ∷ rest) row t found locked h =
        let (fails, kept) = attempt-locked identifier a until row t found locked h.0 in
        let later =
          successes-locked identifier until rest row (attempt identifier a t).1
            (ap (find_username identifier) kept ∙ found) locked h.1 in
        rw fails (omega (arith, later))

    -- When an account that has no lock stored, not even an expired one, and has four failed
    -- logins or more fails to log in once more, none of the following attempts on the same name
    -- that are decided within the next fifteen minutes succeeds, whatever their passwords.
    pub locked_out :
        (identifier : String) (a : Try) (tries : List Try) (row : Account) (t : Users)
        → find_username identifier t.accounts ≡ some row
        → row.lock ≡ unlocked
        → 4 ≤ row.failed_logins
        → (attempt identifier a t).0 ≡ none
        → AllBefore (a.now + lockout_time) tries
        → successes identifier tries (attempt identifier a t).1 ≡ 0
    locked_out identifier a tries row t found clear count fails early =
        let same = attempt-finish identifier a t row found in
        let accounts =
          ap (λ x. x.1.accounts) same
          ∙ finish_login-failed row (accepts identifier a t) a.typed a.started a.now a.machine t
              clear (sym (ap (λ x. x.0) same) ∙ fails) in
        successes-locked identifier (a.now + lockout_time) tries (failed_row a.now row)
          (attempt identifier a t).1
          (ap (find_username identifier) accounts
            ∙ find_username-change identifier (failed_row a.now) t.accounts row (λ b. refl) found)
          (ground (arith, clear)) early
