-- ===== src/Watch/Users/Calls/Logins.antt =====
-- What a login attempt does to the table of accounts.
use cvebeacon.Prelude.{
  ℕ, String, ◌≡◌, refl, sym, subst, Bool, true, false, Option, none, some, List, ◌&&◌, not, arith,
  if◌then◌else◌, PyText,
}
use cvebeacon.Watch.Chain.{ChainText}
use cvebeacon.Watch.Users.{
  Account, Users, Proof, Machine, UserText, change_account, find_username, append_audit,
  append_login_failure,
}
use cvebeacon.Watch.Users.Login.{failed_row, reset_row, is_locked, authenticate, finish_login}

pub append_login_failure-accounts :
    ⦃py : PyText⦄ ⦃ct : ChainText⦄
    → (action username : String) (at : ℕ) (machine : Machine) (t : Users)
    → (append_login_failure action username at machine t).accounts ≡ t.accounts
unfolding append_login_failure append_audit
append_login_failure-accounts action username at machine t = ground arith

module _ ⦃py : PyText⦄ ⦃ct : ChainText⦄ (P : List Account → Type 0) where
  if-effect :
      (b : Bool) (x y : Option Proof × Users)
      → P x.1.accounts
      → P y.1.accounts
      → P (if b then x else y).1.accounts
  if-effect true x y h k = h
  if-effect false x y h k = k

  failure-effect :
      (action username : String) (at : ℕ) (machine : Machine) (t : Users)
      → P t.accounts
      → P (append_login_failure action username at machine t).accounts
  failure-effect action username at machine t h =
      subst P (sym (append_login_failure-accounts action username at machine t)) h

  finish_login-effect :
      (o : Option Account) (accepted : Bool) (typed : String) (started now : ℕ) (machine : Machine)
      (t : Users)
      → P t.accounts
      → ((row : Account) → o ≡ some row → P (change_account row.id (failed_row now) t.accounts))
      → ((row : Account) → o ≡ some row → P (change_account row.id (reset_row now) t.accounts))
      → P (finish_login o accepted typed started now machine t).1.accounts
  unfolding append_audit
  finish_login-effect none accepted typed started now machine t same failed reset =
      failure-effect "login_failed" typed started machine t same
  finish_login-effect (some row) accepted typed started now machine t same failed reset =
      if-effect (is_locked row.lock now) _ _
        (failure-effect "login_locked" typed now machine t same)
        (if-effect (not (accepted && not row.disabled)) _ _
          (failure-effect "login_failed" typed now machine
            (record t { accounts = change_account row.id (failed_row now) t.accounts })
            (failed row refl))
          (reset row refl))

  pub authenticate-effect :
      ⦃ut : UserText⦄
      → (before : Users) (identifier password typed : String) (started now : ℕ) (machine : Machine)
        (t : Users)
      → P t.accounts
      → ((row : Account)
          → find_username identifier t.accounts ≡ some row
          → P (change_account row.id (failed_row now) t.accounts))
      → ((row : Account)
          → find_username identifier t.accounts ≡ some row
          → P (change_account row.id (reset_row now) t.accounts))
      → P (authenticate before identifier password typed started now machine t).1.accounts
  unfolding authenticate
  authenticate-effect before identifier password typed started now machine t =
      finish_login-effect (find_username identifier t.accounts) _ typed started now machine t
