-- ===== src/Dashboard/Attempts.antt =====
-- dashboard_auth.py: `DashboardAuth`, the login throttle of a process and the sessions of the single
-- password, and `AccountLoginThrottle`. Times are ticks of the monotonic clock, `second` of them to
-- a second; the check of the password is a parameter.
pub mod Limits
pub mod Delay
pub mod Waiting
pub mod Refusal
mod Tests
use cvebeacon.Prelude.{
  ℕ, suc, ◌+◌, ◌-◌, ◌*◌, ◌^◌, ◌≤◌, min, String, Bool, true, false, Option, none, some, List, [],
  ◌∷◌, ◌&&◌, not, ltb, leb, length, is_some, if◌then◌else◌,
}
use cvebeacon.Dashboard.Dicts.{find, assign, discard, chosen}

pub record Attempts : Type 0 where
  pub failures : ℕ
  pub next_try : ℕ
  pub expiry : ℕ

abbrev pub Origins : Type 0
Origins = List (String × Attempts)

pub record DashboardAuth : Type 0 where
  pub lifetime : ℕ
  pub attempts : Origins
  pub sessions : List (String × ℕ)

abbrev pub max_origins : ℕ
max_origins = 4096

abbrev pub max_sessions : ℕ
max_sessions = 256

abbrev pub no_attempts : Attempts
no_attempts = record { failures = 0; next_try = 0; expiry = 0 }

abbrev pub attempts_of : String → Origins → Attempts
attempts_of origin table = elim (find origin table) [ none ↦ no_attempts | some a ↦ a ]

abbrev pub earlier : String × Attempts → Option (String × Attempts) → String × Attempts
earlier a none = a
earlier (k, a) (some (j, b)) = if ltb b.expiry a.expiry then (j, b) else (k, a)

-- `min(attempts, key=expiry)`: the first of the origins that expire first.
unfoldable pub oldest : Origins → Option (String × Attempts)
oldest [] = none
oldest (a ∷ table) = some (earlier a (oldest table))

abbrev pub evict : Option (String × Attempts) → Origins → Origins
evict none table = table
evict (some (key, a)) table = discard key table

-- The table without its least recently attempted origin, when it is full and the origin is new.
unfoldable pub admit : String → Origins → Origins
admit origin table =
    if not (is_some (find origin table)) && leb max_origins (length table)
    then evict (oldest table) table
    else table

-- `while len(self.sessions) >= self.max_sessions: self.sessions.popitem(last=False)`
unfoldable pub make_room : List (String × ℕ) → List (String × ℕ)
make_room [] = []
make_room (s ∷ sessions) =
    let rest = make_room sessions in
    if leb max_sessions (length (s ∷ sessions)) then rest else s ∷ sessions

abbrev pub expiry_of : String → List (String × ℕ) → ℕ
expiry_of key sessions = elim (find key sessions) [ none ↦ 0 | some expiry ↦ expiry ]

-- `valid(identifier)`
unfoldable pub valid : String → ℕ → DashboardAuth → DashboardAuth × Bool
valid key now t =
    if leb (expiry_of key t.sessions) now
    then (
      record { lifetime = t.lifetime; attempts = t.attempts; sessions = discard key t.sessions },
      false,
    )
    else (t, true)

unfoldable pub logout : String → DashboardAuth → DashboardAuth
logout key t = record {
  lifetime = t.lifetime;
  attempts = t.attempts;
  sessions = discard key t.sessions;
}

module _ (second : ℕ) where
  abbrev pub delay : ℕ → ℕ
  delay failures = min (2 ^ (failures - 1)) 60 * second

  abbrev pub next_attempts : ℕ → Attempts → Attempts
  next_attempts now a =
      let failures = min (a.failures + 1) 7 in
      record { failures = failures; next_try = now + delay failures; expiry = now + 900 * second }

  abbrev pub pruned : ℕ → Origins → Origins
  pruned now table = chosen (λ a. ltb now a.expiry) table

  -- `reserve(origin)` on the pruned table.
  unfoldable pub reserve_in : String → ℕ → Origins → Origins × Bool
  reserve_in origin now table =
      let a = attempts_of origin table in
      if ltb now a.next_try
      then (table, false)
      else (assign origin (next_attempts now a) (admit origin table), true)

  abbrev pub reserve : String → ℕ → Origins → Origins × Bool
  reserve origin now table = reserve_in origin now (pruned now table)

  -- `login(origin, password)`: the time of the reservation, what the check of the password says,
  -- which is false for what is no text or too long, and the time and the token of the new session.
  unfoldable pub login :
      String → ℕ → Bool → ℕ → String → DashboardAuth → DashboardAuth × Option String
  login origin start accepted now token t =
      let reserved = reserve origin start t.attempts in
      let left = make_room (chosen (λ expiry. ltb now expiry) t.sessions) in
      if reserved.1 && accepted
      then (
        record {
          lifetime = t.lifetime;
          attempts = discard origin reserved.0;
          sessions = assign token (now + t.lifetime) left;
        },
        some token,
      )
      else (record { lifetime = t.lifetime; attempts = reserved.0; sessions = t.sessions }, none)

  -- `AccountLoginThrottle.authenticate`: the reservation, whether a slot for the hashing is free, and
  -- what the account store answers, which is asked only then.
  unfoldable pub authenticate {ℓ} :
      {A : Type ℓ} → String → ℕ → Bool → Option A → DashboardAuth → DashboardAuth × Option A
  authenticate origin start has_slot proof t =
      let reserved = reserve origin start t.attempts in
      if reserved.1 && has_slot
      then (
        record {
          lifetime = t.lifetime;
          attempts = if is_some proof then discard origin reserved.0 else reserved.0;
          sessions = t.sessions;
        },
        proof,
      )
      else (record { lifetime = t.lifetime; attempts = reserved.0; sessions = t.sessions }, none)

-- A call of a method, with what the clock, the check of the password and `secrets` give.
pub data Call : Type 0 where
  call_login : String → ℕ → Bool → ℕ → String → Call
  call_valid : String → ℕ → Call
  call_logout : String → Call
  call_authenticate : String → ℕ → Bool → Option ℕ → Call

module _ (second : ℕ) where
  unfoldable pub perform : Call → DashboardAuth → DashboardAuth
  perform (call_login origin start accepted now token) t =
      (login second origin start accepted now token t).0
  perform (call_valid key now) t = (valid key now t).0
  perform (call_logout key) t = logout key t
  perform (call_authenticate origin start has_slot proof) t =
      (authenticate second origin start has_slot proof t).0

  unfoldable pub perform_each : List Call → DashboardAuth → DashboardAuth
  perform_each [] t = t
  perform_each (call ∷ calls) t = perform_each calls (perform call t)
