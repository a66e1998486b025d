-- ===== src/Dashboard/Attempts/Refusal.antt =====
-- dashboard_auth.py: when an origin whose login failed is let in again, whatever calls follow.
use native.Mathlib.Nat.{pow-le-pow_right}
use cvebeacon.Prelude.{
  ℕ, suc, ◌+◌, ◌-◌, ◌*◌, ◌^◌, ◌≤◌, ◌<◌, min, String, ◌≡◌, sym, ap, subst, ◌∙◌, true, Option, none,
  some, List, arith, inl, inr, Bool-cases, length, length-select, leb, ltb, All, if◌then◌else◌,
}
use cvebeacon.Dashboard.Dicts.{is_dict, length-assign}
use cvebeacon.Dashboard.Attempts.{
  Origins, DashboardAuth, attempts_of, admit, next_attempts, pruned, reserve_in, reserve, login,
  authenticate, Call, perform, perform_each,
}
use cvebeacon.Dashboard.Attempts.Delay.{Waits, reserve-start, reserve-exact, retry_at, admit-roomy}
use cvebeacon.Dashboard.Attempts.Waiting.{
  Fails, StartsBefore, Keeps, reserve-is_dict, perform_each-Keeps, attempts-reserved,
}

-- The failures of the origin that are on record and have not expired.
abbrev pub failures_on_record : ℕ → String → ℕ → Origins → ℕ
failures_on_record second origin now table = (attempts_of origin (pruned second now table)).failures

-- One second, doubled for each failure on record, and no more than sixty seconds.
abbrev pub retry_time : ℕ → String → ℕ → Origins → ℕ
retry_time second origin now table =
    now + min (2 ^ failures_on_record second origin now table) 60 * second

-- What the code computes from a count of at most seven.
capped-few : (failures : ℕ) → failures ≤ 5 → min (failures + 1) 7 - 1 ≡ failures
capped-few failures h = omega (arith, h)

capped-many : (failures : ℕ) → 6 ≤ failures → min (failures + 1) 7 - 1 ≡ 6
capped-many failures h = omega (arith, h)

doubling : (failures : ℕ) → min (2 ^ (min (failures + 1) 7 - 1)) 60 ≡ min (2 ^ failures) 60
doubling failures = elim (Bool-cases (leb failures 5)) [
  | inl e ↦ ap (λ n. min (2 ^ n) 60) (capped-few failures (ground (arith, e)))
  | inr e ↦
      ap (λ n. min (2 ^ n) 60) (capped-many failures (ground (arith, e)))
      ∙ omega
          (arith, pow-le-pow_right {n = 2} (omega arith) {i = 6} {j = failures} (ground (arith, e)))
]

module _ (second : ℕ) where
  retry-same :
      (origin : String) (now : ℕ) (table : Origins)
      → retry_at second origin now table ≡ retry_time second origin now table
  retry-same origin now table =
      ap (λ n. now + n * second) (doubling (failures_on_record second origin now table))

  -- The reservation of the origin, until its time and dict.
  first-Keeps :
      (origin : String) (now : ℕ) (table : Origins)
      → is_dict table ≡ true
      → (reserve second origin now table).1 ≡ true
      → Keeps second origin (retry_time second origin now table) (reserve second origin now table).0
  first-Keeps origin now table d admitted = (
    subst (λ until. Waits second origin until (reserve second origin now table).0)
        (retry-same origin now table) (reserve-start second origin now table admitted),
    reserve-is_dict second origin now table d,
  )

  reserve-grows :
      (origin : String) (now : ℕ) (table : Origins)
      → length table < 4096
      → length (reserve second origin now table).0 ≤ suc (length table)
  unfolding reserve_in
  reserve-grows origin now table room =
      let few = pruned second now table in
      let less = length-select (λ (k, a). ltb now a.expiry) table in
      ground (
        arith,
        less,
        length-assign origin (next_attempts second now (attempts_of origin few)) (admit origin few),
        ap length (admit-roomy origin few (omega (arith, less, room))),
      )

  -- The right password logs in when the origin is let in.
  login-let_in :
      (origin : String) (now moment : ℕ) (token : String) (u : DashboardAuth)
      → (login second origin now true moment token u).1
        ≡ (if (reserve second origin now u.attempts).1 then some token else none)
  unfolding login
  login-let_in origin now moment token u = ground arith

  authenticate-let_in :
      (origin : String) (now : ℕ) (proof : Option ℕ) (u : DashboardAuth)
      → (authenticate second origin now true proof u).1
        ≡ (if (reserve second origin now u.attempts).1 then proof else none)
  unfolding authenticate
  authenticate-let_in origin now proof u = ground arith

  -- After a login of an origin that is let in and fails, the origin is let in again from a time
  -- on and not before it, in both methods of login, even with the right password and a free slot,
  -- whatever calls of the throttle follow, when those of them that are logins start before that
  -- time and the table is a dict with room for them; the time is one second after the login,
  -- doubled for each failure on record and no more than sixty seconds.
  pub failed_login_waits :
      (origin : String) (now later moment : ℕ) (token : String) (proof : Option ℕ) (first : Call)
      (calls : List Call) (t : DashboardAuth)
      → is_dict t.attempts ≡ true
      → Fails origin now first
      → (reserve second origin now t.attempts).1 ≡ true
      → All (StartsBefore (retry_time second origin now t.attempts)) calls
      → length t.attempts + length calls < 4096
      → let after = perform_each second calls (perform second first t) in
        let let_in = leb (retry_time second origin now t.attempts) later in
        ((login second origin later true moment token after).1
          ≡ (if let_in then some token else none))
        × ((authenticate second origin later true proof after).1 ≡ (if let_in then proof else none))
  failed_login_waits origin now later moment token proof first calls t d fails admitted early room =
      let until = retry_time second origin now t.attempts in
      let begun = attempts-reserved second origin now first t fails in
      let (w, dict) =
        perform_each-Keeps second origin until calls (perform second first t) early
          (omega (
            arith,
            ap length begun,
            reserve-grows origin now t.attempts (omega (arith, room)),
            room,
          ))
          (subst (Keeps second origin until) (sym begun)
            (first-Keeps origin now t.attempts d admitted)) in
      let after = perform_each second calls (perform second first t) in
      let exact = reserve-exact second origin until later after.attempts dict w in
      (
        login-let_in origin later moment token after
            ∙ ap (λ b. if b then some token else none) exact,
        authenticate-let_in origin later proof after ∙ ap (λ b. if b then proof else none) exact,
      )
