-- ===== src/Watch/Users/Calls/Revoked.antt =====
-- A change of credentials ends the proofs that were issued before it.
use mathlib.Core.Option.{some-injective}
use cvebeacon.Prelude.{
  ℕ, ◌≤◌, ◌<◌, ◌+◌, String, ◌≡◌, refl, sym, ap, ◌∙◌, Bool, true, false, Option, none, some, List,
  [], ◌∷◌, arith, Option-cases, PyText,
}
use cvebeacon.Watch.Chain.{ChainText}
use cvebeacon.Watch.Users.{
  Account, Users, Proof, UserText, Attempt, rejected, granted, account_by_id, change_account,
  user_named, find_username,
}
use cvebeacon.Watch.Users.Access.{validate_proof, current_account}
use cvebeacon.Watch.Users.Accounts.{disabled_row, password_row, edited_row}
use cvebeacon.Watch.Users.Calls.{
  UserCall, logout_call, set_disabled_call, set_password_call, edit_call, attempt, perform_each,
}
use cvebeacon.Watch.Users.Calls.Effects.{
  record_logout-effect, set_disabled-effect, set_password-effect, edit_user-effect,
}
use cvebeacon.Watch.Users.Calls.Versions.{
  version_of, raise-version, account_by_id-named, perform_each-Rises,
}
use cvebeacon.Watch.Users.Granted.{Ensures, Ensures-granted}

pub find_username-named :
    ⦃ut : UserText⦄
    → (name : String) (accounts : List Account) (a : Account) → find_username name accounts ≡ some a
    → user_named name accounts ≡ some a
unfolding find_username
find_username-named name accounts a h = ground arith

pub account_by_id-id :
    (i : ℕ) (accounts : List Account) (a : Account) → account_by_id i accounts ≡ some a → a.id ≡ i
unfolding account_by_id
account_by_id-id i [] a h = ground arith
account_by_id-id i (b ∷ rest) a h = ground (arith, account_by_id-id i rest a)

-- The account whose earlier proofs a call ends.
abbrev id_of : Option Account → Option ℕ
id_of none = none
id_of (some a) = some a.id

module _ ⦃py : PyText⦄ ⦃ct : ChainText⦄ ⦃ut : UserText⦄ where
  unfoldable pub revokes : UserCall → Users → Option ℕ
  revokes (logout_call proof true now machine) t = some proof.user_id
  revokes (set_disabled_call username value action authorization now machine) t =
      id_of (user_named username t.accounts)
  revokes (set_password_call username encoded authorization now machine) t =
      id_of (user_named username t.accounts)
  revokes (edit_call username role disabled shown address proof now later machine) t =
      id_of (find_username username t.accounts)
  revokes _ t = none

  abbrev Raised : ℕ → Users → Users → Type 0
  Raised i t after = version_of i t.accounts + 1 ≤ version_of i after.accounts

  raise-named :
      (name : String) (change : Account → Account) (user : Account) (i : ℕ)
      (accounts : List Account)
      → ((a : Account) → (change a).id ≡ a.id)
      → ((a : Account) → (change a).credential_version ≡ a.credential_version + 1)
      → user_named name accounts ≡ some user
      → id_of (user_named name accounts) ≡ some i
      → version_of i accounts + 1 ≤ version_of i (change_account user.id change accounts)
  raise-named name change user i accounts same raised e h =
      ground (
        arith,
        raise-version i change accounts same raised,
        account_by_id-named name accounts user e,
      )

  revokes-Raised :
      (c : UserCall) (i : ℕ) (t : Users) → revokes c t ≡ some i → Ensures (Raised i t) (attempt c t)
  unfolding revokes
  revokes-Raised (set_disabled_call username value action authorization now machine) i t h =
      set_disabled-effect (λ l. version_of i t.accounts + 1 ≤ version_of i l) username value action
        authorization now machine t
        λ user e _.
          raise-named username (disabled_row value now) user i t.accounts (λ a. refl) (λ a. refl) e
            h
  revokes-Raised (set_password_call username encoded authorization now machine) i t h =
      set_password-effect (λ l. version_of i t.accounts + 1 ≤ version_of i l) username encoded
        authorization now machine t
        λ user stored e.
          raise-named username (password_row stored now) user i t.accounts (λ a. refl) (λ a. refl) e
            h
  revokes-Raised (edit_call username role disabled shown address proof now later machine) i t h =
      edit_user-effect (λ l. version_of i t.accounts + 1 ≤ version_of i l) username role disabled
        shown address proof now later machine t
        λ user key e _.
          let named = find_username-named username t.accounts user e in
          raise-named username (edited_row shown address key role disabled now) user i t.accounts
            (λ a. refl) (λ a. refl) named (ap id_of named ∙ sym (ap id_of e) ∙ h)
  revokes-Raised (logout_call proof true now machine) i t h =
      record_logout-effect (λ l. version_of i t.accounts + 1 ≤ version_of i l) proof true now
        machine t
        λ user e. ground (
          arith,
          some-injective proof.user_id i h,
          account_by_id-id proof.user_id t.accounts user e,
          raise-version user.id (λ a. record a { credential_version = a.credential_version + 1 })
              t.accounts (λ a. refl) (λ a. refl),
        )
  revokes-Raised _ i t h = ground arith

  -- The check raises an error.
  abbrev pub denies : Attempt Account → Bool
  denies (rejected e) = true
  denies (granted a) = false

  old-denies :
      (t : Users) (proof : Proof)
      → proof.credential_version < version_of proof.user_id t.accounts
      → denies (validate_proof t proof) ≡ true
  unfolding validate_proof current_account
  old-denies t proof h = ground (arith, Option-cases (account_by_id proof.user_id t.accounts))

  -- When a logout of all sessions, a disabling or enabling, a new password or an edit of an
  -- account is granted, no proof of that account with a credential version up to the account's
  -- version before the call is accepted afterwards, whatever calls follow.
  pub revoked :
      (c : UserCall) (calls : List UserCall) (proof : Proof) (t after : Users)
      → revokes c t ≡ some proof.user_id
      → attempt c t ≡ granted after
      → proof.credential_version ≤ version_of proof.user_id t.accounts
      → denies (validate_proof (perform_each calls after) proof) ≡ true
  revoked c calls proof t after h made issued =
      let i = proof.user_id in
      let raised = Ensures-granted (Raised i t) (attempt c t) after (revokes-Raised c i t h) made in
      old-denies (perform_each calls after) proof
        (last_step raised (perform_each-Rises i calls after))
    where
      last_step :
          version_of proof.user_id t.accounts + 1 ≤ version_of proof.user_id after.accounts
          → version_of proof.user_id after.accounts
            ≤ version_of proof.user_id (perform_each calls after).accounts
          → proof.credential_version < version_of proof.user_id (perform_each calls after).accounts
      last_step raised later = omega (arith, issued)
