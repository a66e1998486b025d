-- ===== src/Watch/Users/Login/Proofs.antt =====
-- What a login proves.
use mathlib.Core.Option.{some-injective}
use cvebeacon.Prelude.{
  ℕ, ◌≤◌, ◌<◌, ◌+◌, String, ◌≡◌, refl, ap, subst, Bool, true, false, Option, none, some, List, [],
  ◌∷◌, ◌++◌, not, ◌&&◌, arith, Bool-cases, PyText, eq_iff,
}
use cvebeacon.Watch.Chain.{ChainText}
use cvebeacon.Watch.Users.{
  Account, AuditRow, Users, Proof, Machine, UserText, granted, change_account, find_username,
  append_audit, audit_entry, account_by_id, audit_by_id, last_audit,
}
use cvebeacon.Watch.Users.Access.{validate_proof, current_account}
use cvebeacon.Watch.Users.Login.{
  is_locked, reset_row, finish_login, log_in, authenticate, verifies, hash_of, still, same_text,
}
use cvebeacon.Watch.Users.Calls.Revoked.{find_username-named}
use cvebeacon.Watch.Users.Calls.Order.{IsOrdered, user_named-by_id}

-- The identifiers of the log rise.
abbrev IsLogged : ℕ → List AuditRow → Type 0
IsLogged low [] = Unit
IsLogged low (r ∷ rest) = (low < r.id) × IsLogged r.id rest

last_audit-bound :
    (low : ℕ) (text : String) (rows : List AuditRow)
    → IsLogged low rows
    → low ≤ (last_audit (low, text) rows).0
unfolding last_audit
last_audit-bound low text [] h = omega arith
last_audit-bound low text (r ∷ rest) h = omega (arith, h.0, last_audit-bound r.id r.chain rest h.1)

audit_by_id-new :
    (low : ℕ) (text : String) (rows : List AuditRow) (r : AuditRow)
    → IsLogged low rows
    → r.id ≡ (last_audit (low, text) rows).0 + 1
    → audit_by_id r.id (rows ++ r ∷ []) ≡ some r
unfolding last_audit audit_by_id
audit_by_id-new low text [] r h e = ground arith
audit_by_id-new low text (q ∷ rest) r h e =
    ground
      (arith, audit_by_id-new q.id q.chain rest r h.1 e, last_audit-bound q.id q.chain rest h.1)

change_account-by_id :
    (i : ℕ) (change : Account → Account) (accounts : List Account) (a : Account)
    → ((b : Account) → (change b).id ≡ b.id)
    → account_by_id i accounts ≡ some a
    → account_by_id i (change_account i change accounts) ≡ some (change a)
unfolding change_account account_by_id
change_account-by_id i change [] a same h = ground arith
change_account-by_id i change (b ∷ rest) a same h =
    ground (arith, change_account-by_id i change rest a same, same b)

module _ ⦃py : PyText⦄ ⦃ct : ChainText⦄ where
  abbrev proof_for : Account → ℕ → Proof
  proof_for row login_id = record {
    user_id = row.id;
    username = row.username;
    login_id = login_id;
    credential_version = row.credential_version;
  }

  -- The proof of a login holds when the login is over.
  log_in-valid :
      (row : Account) (now : ℕ) (machine : Machine) (t : Users)
      → IsLogged 0 t.audit
      → account_by_id row.id t.accounts ≡ some row
      → row.disabled ≡ false
      → validate_proof
          (log_in row now machine t).1
          (proof_for row (audit_entry "login" row.username now machine none t.audit).id)
        ≡ granted (reset_row now row)
  unfolding validate_proof current_account append_audit
  log_in-valid row now machine t logged present enabled =
      let entry = audit_entry "login" row.username now machine none t.audit in
      let logged_in = audit_by_id-new 0 "" t.audit entry logged refl in
      let changed =
        change_account-by_id row.id (reset_row now) t.accounts row (λ b. refl) present in
      ground (arith, logged_in, changed, eq_iff row.username row.username, eq_iff "login" "login")

  finish_login-success :
      (row : Account) (accepted : Bool) (typed : String) (started now : ℕ) (machine : Machine)
      (t after : Users) (proof : Proof)
      → finish_login (some row) accepted typed started now machine t ≡ (some proof, after)
      → (accepted ≡ true)
        × (row.disabled ≡ false)
        × (is_locked row.lock now ≡ false)
        × (log_in row now machine t ≡ (some proof, after))
  finish_login-success row accepted typed started now machine t after proof h =
      ground
        (arith, Bool-cases (is_locked row.lock now), Bool-cases accepted, Bool-cases row.disabled)

same_text-verifies :
    ⦃ut : UserText⦄
    → (s u : Option String) (password : String) → same_text s u ≡ true
    → verifies s password ≡ true
    → verifies u password ≡ true
same_text-verifies none u password h v = ground arith
same_text-verifies (some s) none password h v = ground arith
same_text-verifies (some s) (some u) password h v =
    subst (λ x. verifies (some x) password ≡ true) ((eq_iff s u).0 h) v

accepted-verifies :
    ⦃ut : UserText⦄
    → (snapshot : Option Account) (row : Account) (started : ℕ) (password : String)
    → verifies (hash_of snapshot started) password && still snapshot (some row) ≡ true
    → verifies row.password_hash password ≡ true
accepted-verifies none row started password h = ground arith
accepted-verifies (some a) row started password h = ground (
  arith,
  same_text-verifies a.password_hash row.password_hash password,
  Bool-cases (same_text a.password_hash row.password_hash),
  Bool-cases (not a.disabled && not (is_locked a.lock started)),
)

module _ ⦃py : PyText⦄ ⦃ct : ChainText⦄ ⦃ut : UserText⦄ where
  -- In tables whose account and log identifiers rise, a login that returns a proof found an
  -- account of that name that is enabled, not locked and whose stored hash accepts the password,
  -- and the proof is valid in the new tables, for the account with its failures reset.
  pub login_proves :
      (before : Users) (identifier password typed : String) (started now : ℕ) (machine : Machine)
      (t after : Users) (proof : Proof)
      → IsOrdered 0 t.accounts
      → IsLogged 0 t.audit
      → authenticate before identifier password typed started now machine t ≡ (some proof, after)
      → (row : Account) × (find_username identifier t.accounts ≡ some row)
        × (row.disabled ≡ false)
        × (is_locked row.lock now ≡ false)
        × (verifies row.password_hash password ≡ true)
        × (validate_proof after proof ≡ granted (reset_row now row))
  unfolding authenticate append_audit
  login_proves before identifier password typed started now machine t after proof ordered logged h =
      go (find_username identifier t.accounts) refl h
    where
      snapshot : Option Account
      snapshot = find_username identifier before.accounts

      go :
          (o : Option Account)
          → find_username identifier t.accounts ≡ o
          → finish_login o
              (verifies (hash_of snapshot started) password && still snapshot o)
              typed
              started
              now
              machine
              t
            ≡ (some proof, after)
          → (row : Account) × (find_username identifier t.accounts ≡ some row)
            × (row.disabled ≡ false)
            × (is_locked row.lock now ≡ false)
            × (verifies row.password_hash password ≡ true)
            × (validate_proof after proof ≡ granted (reset_row now row))
      go none found k = absurd (ground arith)
      go (some row) found k =
          let (accepted, enabled, free, made) =
            finish_login-success row
              (verifies (hash_of snapshot started) password && still snapshot (some row)) typed
              started now machine t after proof k in
          let present =
            user_named-by_id 0 identifier t.accounts row ordered
              (find_username-named identifier t.accounts row found) in
          let valid = log_in-valid row now machine t logged present enabled in
          (
            row,
            found,
            enabled,
            free,
            accepted-verifies snapshot row started password accepted,
            subst (λ u. validate_proof u proof ≡ granted (reset_row now row)) (ap (λ x. x.1) made)
                (subst
                  (λ p. validate_proof (log_in row now machine t).1 p ≡ granted (reset_row now row))
                  (some-injective _ _ (ap (λ x. x.0) made)) valid),
          )
