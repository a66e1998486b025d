-- ===== src/Watch/Users/Calls/Order.antt =====
-- Accounts in the order of their identifiers, and the enabled administrators among them.
use cvebeacon.Prelude.{
  ℕ, ◌≤◌, ◌<◌, ◌+◌, String, ◌≡◌, sym, subst, true, false, some, List, [], ◌∷◌, ◌++◌, ◌==◌, any,
  arith, if◌then◌else◌,
}
use cvebeacon.Watch.Users.{Account, UserText, account_by_id, change_account, user_named}
use cvebeacon.Watch.Users.Access.{is_enabled_admin}
use cvebeacon.Watch.Users.Accounts.{last_account}
use cvebeacon.Watch.Users.Calls.Effects.{others_remain}

-- The identifiers rise, as SQLite gives them out.
abbrev pub IsOrdered : ℕ → List Account → Type 0
IsOrdered low [] = Unit
IsOrdered low (a ∷ rest) = (low < a.id) × IsOrdered a.id rest

pub change_account-IsOrdered :
    (low i : ℕ) (change : Account → Account) (accounts : List Account)
    → ((a : Account) → (change a).id ≡ a.id)
    → IsOrdered low accounts
    → IsOrdered low (change_account i change accounts)
unfolding change_account
change_account-IsOrdered low i change [] same h = tt
change_account-IsOrdered low i change (a ∷ rest) same h =
    let kept : (if a.id == i then change a else a).id ≡ a.id = ground (arith, same a) in
    (
      subst (λ n. low < n) (sym kept) h.0,
      subst (λ n. IsOrdered n (change_account i change rest)) (sym kept)
          (change_account-IsOrdered a.id i change rest same h.1),
    )

pub append-IsOrdered :
    (low : ℕ) (accounts : List Account) (new : Account)
    → new.id ≡ last_account low accounts + 1
    → IsOrdered low accounts
    → IsOrdered low (accounts ++ new ∷ [])
unfolding last_account
append-IsOrdered low [] new e h = (omega arith, tt)
append-IsOrdered low (a ∷ rest) new e h = (h.0, append-IsOrdered a.id rest new e h.1)

user_named-above :
    ⦃ut : UserText⦄
    → (low : ℕ) (name : String) (accounts : List Account) (user : Account) → IsOrdered low accounts
    → user_named name accounts ≡ some user
    → low < user.id
unfolding user_named
user_named-above low name [] user h e = ground arith
user_named-above low name (a ∷ rest) user h e =
    ground (arith, user_named-above a.id name rest user h.1)

pub user_named-by_id :
    ⦃ut : UserText⦄
    → (low : ℕ) (name : String) (accounts : List Account) (user : Account) → IsOrdered low accounts
    → user_named name accounts ≡ some user
    → account_by_id user.id accounts ≡ some user
unfolding user_named account_by_id
user_named-by_id low name [] user h e = ground arith
user_named-by_id low name (a ∷ rest) user h e =
    ground
      (arith, user_named-by_id a.id name rest user h.1, user_named-above a.id name rest user h.1)

admins-above :
    (low i : ℕ) (accounts : List Account)
    → IsOrdered low accounts
    → i ≤ low
    → any is_enabled_admin accounts ≡ true
    → others_remain i accounts ≡ true
admins-above low i [] h le e = ground arith
admins-above low i (a ∷ rest) h le e = ground (arith, admins-above a.id i rest h.1)

-- An account that is no enabled administrator is not the last one.
pub others-remain :
    (low i : ℕ) (accounts : List Account) (user : Account)
    → IsOrdered low accounts
    → account_by_id i accounts ≡ some user
    → is_enabled_admin user ≡ false
    → any is_enabled_admin accounts ≡ true
    → others_remain i accounts ≡ true
unfolding account_by_id
others-remain low i [] user h e plain some_admin = ground arith
others-remain low i (a ∷ rest) user h e plain some_admin =
    ground (arith, others-remain a.id i rest user h.1, admins-above a.id i rest h.1)

pub others-kept :
    (i : ℕ) (change : Account → Account) (accounts : List Account)
    → others_remain i accounts ≡ true
    → any is_enabled_admin (change_account i change accounts) ≡ true
unfolding change_account
others-kept i change [] h = ground arith
others-kept i change (a ∷ rest) h = ground (arith, others-kept i change rest)

pub admins-kept :
    (i : ℕ) (change : Account → Account) (accounts : List Account)
    → ((a : Account) → is_enabled_admin a ≡ true → is_enabled_admin (change a) ≡ true)
    → any is_enabled_admin accounts ≡ true
    → any is_enabled_admin (change_account i change accounts) ≡ true
unfolding change_account
admins-kept i change [] keep h = ground arith
admins-kept i change (a ∷ rest) keep h = ground (arith, admins-kept i change rest keep, keep a)

pub admins-append :
    (accounts : List Account) (new : Account)
    → any is_enabled_admin accounts ≡ true
    → any is_enabled_admin (accounts ++ new ∷ []) ≡ true
admins-append [] new h = ground arith
admins-append (a ∷ rest) new h = ground (arith, admins-append rest new)
