-- ===== src/Dashboard/Sessions/Logout.antt =====
-- dashboard_auth.py: no session of a user is left after `logout_all`.
use cvebeacon.Prelude.{
  ℕ, String, ◌≡◌, refl, Bool, true, false, none, some, List, [], ◌∷◌, arith, not, all, ◌==◌,
}
use cvebeacon.Dashboard.Dicts.{every, every-chosen_self}
use cvebeacon.Dashboard.Sessions.{
  AccountSession, AccountSessions, is_of, get, logout_all, Call, call_issue, perform_each,
}
use cvebeacon.Dashboard.Sessions.Every.{is_allowed, every-perform_each, every-get}

abbrev pub not_of : ℕ → String → AccountSession → Bool
not_of user key s = not (is_of user s)

-- The call issues no session of the user.
abbrev pub issues_none : ℕ → Call → Bool
issues_none user (call_issue (some proof) now key csrf) = not (proof.user_id == user)
issues_none user _ = true

issues_none-is_allowed :
    (user : ℕ) (calls : List Call)
    → all (issues_none user) calls ≡ true
    → all (is_allowed (not_of user) (λ key s later h. h)) calls ≡ true
issues_none-is_allowed user [] h = refl
issues_none-is_allowed user (call_issue (some proof) now key csrf ∷ calls) h =
    ground (arith, h, issues_none-is_allowed user calls)
issues_none-is_allowed user (call_issue none now key csrf ∷ calls) h =
    issues_none-is_allowed user calls h
issues_none-is_allowed user (_ ∷ calls) h = issues_none-is_allowed user calls (ground (arith, h))

-- From a table without anonymous sessions of a user, after a logout of all sessions of the user
-- and any calls that issue none to the user, no identifier gives a session of the user.
pub logged_out :
    (user : ℕ) (calls : List Call) (t : AccountSessions) (key : String) (now later : ℕ)
    (s : AccountSession)
    → every (not_of user) t.anonymous ≡ true
    → all (issues_none user) calls ≡ true
    → (get key now later (perform_each calls (logout_all user t))).1 ≡ some s
    → is_of user s ≡ false
unfolding logout_all
logged_out user calls t key now later s b allowed e = ground (
  arith,
  every-get (not_of user) (λ key s later h. h) key now later
      (perform_each calls (logout_all user t)) s
      (every-perform_each (not_of user) (λ key s later h. h) calls (logout_all user t)
        (issues_none-is_allowed user calls allowed)
        (every-chosen_self (λ s. not (is_of user s)) t.sessions, b))
      e,
)
