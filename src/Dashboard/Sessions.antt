-- ===== src/Dashboard/Sessions.antt =====
-- dashboard_auth.py: `AccountSessions`, the sessions of the browsers in one process. Times are ticks
-- of the monotonic clock; identifiers and CSRF values are the tokens that `secrets` gives. Each
-- method holds the lock from its first to its last line, so calls come one after the other.
pub mod Bounds
pub mod Every
pub mod Expiry
pub mod Logout
mod Tests
use cvebeacon.Prelude.{
  ℕ, suc, ◌+◌, ◌-◌, String, Bool, true, false, Option, none, some, List, [], ◌∷◌, ◌&&◌, ◌||◌, not,
  ltb, leb, ◌==◌, length, select, if◌then◌else◌,
}
use cvebeacon.Watch.Users.{Proof}
use cvebeacon.Dashboard.Dicts.{find, assign, discard, chosen}

pub record AccountSession : Type 0 where
  pub proof : Option Proof
  pub csrf : String
  pub created : ℕ
  pub touched : ℕ

abbrev pub Pool : Type 0
Pool = List (String × AccountSession)

pub record AccountSessions : Type 0 where
  pub lifetime : ℕ
  pub idle : ℕ
  pub sessions : Pool
  pub anonymous : Pool

abbrev pub max_per_user : ℕ
max_per_user = 16

abbrev pub max_sessions : ℕ
max_sessions = 256

-- Not `now - created >= lifetime or now - touched >= idle`.
abbrev pub is_live : AccountSessions → ℕ → AccountSession → Bool
is_live t now s = not (leb (s.created + t.lifetime) now) && not (leb (s.touched + t.idle) now)

-- `_prune(now)`
unfoldable pub prune : ℕ → AccountSessions → AccountSessions
prune now t = record {
  lifetime = t.lifetime;
  idle = t.idle;
  sessions = chosen (is_live t now) t.sessions;
  anonymous = chosen (is_live t now) t.anonymous;
}

-- `value.proof and value.proof.id == user_id`
abbrev pub is_of : ℕ → AccountSession → Bool
is_of user s = elim s.proof [ none ↦ false | some proof ↦ proof.user_id == user ]

-- The sessions of a user, `own`.
abbrev pub owned : ℕ → Pool → Pool
owned user pool = chosen (is_of user) pool

-- `if len(own) >= self.max_per_user: pool.pop(own[0])`
abbrev pub pop_first : Pool → Pool → Pool
pop_first [] pool = pool
pop_first ((key, s) ∷ own) pool =
    if leb max_per_user (length ((key, s) ∷ own)) then discard key pool else pool

-- `while len(pool) >= self.max_sessions: pool.popitem(last=False)`
unfoldable pub make_room : Pool → Pool
make_room [] = []
make_room (s ∷ pool) =
    let rest = make_room pool in if leb max_sessions (length (s ∷ pool)) then rest else s ∷ pool

abbrev pub with_pools : AccountSessions → Pool → Pool → AccountSessions
with_pools t sessions anonymous = record {
  lifetime = t.lifetime;
  idle = t.idle;
  sessions = sessions;
  anonymous = anonymous;
}

-- `issue(proof)` after the pruning. Without a result it raises the ConfigurationError of a full
-- table, when the user's first session may already be gone.
unfoldable pub issue_in :
    AccountSessions
    → Option Proof
    → ℕ
    → String
    → String
    → AccountSessions × Option (String × AccountSession)
issue_in t (some proof) now identifier csrf =
    let pool : Pool = pop_first (owned proof.user_id t.sessions) t.sessions in
    let value : AccountSession = record {
      proof = some proof;
      csrf = csrf;
      created = now;
      touched = now;
    } in
    if leb max_sessions (length pool)
    then (with_pools t pool t.anonymous, none)
    else (with_pools t (assign identifier value pool) t.anonymous, some (identifier, value))
issue_in t none now identifier csrf =
    let value : AccountSession = record {
      proof = none;
      csrf = csrf;
      created = now;
      touched = now;
    } in
    (
      with_pools t t.sessions (assign identifier value (make_room t.anonymous)),
      some (identifier, value),
    )

abbrev pub issue :
    Option Proof
    → ℕ
    → String
    → String
    → AccountSessions
    → AccountSessions × Option (String × AccountSession)
issue proof now identifier csrf t = issue_in (prune now t) proof now identifier csrf

abbrev pub touch : ℕ → AccountSession → AccountSession
touch now s = record { proof = s.proof; csrf = s.csrf; created = s.created; touched = now }

-- `get(identifier)`, where the clock is read twice.
unfoldable pub get_in : String → ℕ → AccountSessions → AccountSessions × Option AccountSession
get_in identifier later t = elim (find identifier t.sessions) [
  | some s ↦ (
    with_pools t (assign identifier (touch later s) t.sessions) t.anonymous,
    some (touch later s),
  )
  | none ↦ elim (find identifier t.anonymous) [
    | some s ↦ (
      with_pools t t.sessions (assign identifier (touch later s) t.anonymous),
      some (touch later s),
    )
    | none ↦ (t, none)
  ]
]

abbrev pub get : String → ℕ → ℕ → AccountSessions → AccountSessions × Option AccountSession
get identifier now later t = get_in identifier later (prune now t)

unfoldable pub logout : String → AccountSessions → AccountSessions
logout identifier t = with_pools t (discard identifier t.sessions) (discard identifier t.anonymous)

abbrev pub entries_of : Proof → Pool → List (ℕ × ℕ)
entries_of proof [] = []
entries_of proof ((key, s) ∷ rest) =
    let later = entries_of proof rest in
    elim s.proof [
      | none ↦ later
      | some held ↦
          if held.user_id == proof.user_id && held.credential_version == proof.credential_version
          then (s.created, s.touched) ∷ later
          else later
    ]

-- `own(proof)`
unfoldable pub own : Proof → ℕ → AccountSessions → AccountSessions × List (ℕ × ℕ)
own proof now t = (prune now t, entries_of proof (prune now t).sessions)

unfoldable pub logout_all : ℕ → AccountSessions → AccountSessions
logout_all user t = with_pools t (chosen (λ s. not (is_of user s)) t.sessions) t.anonymous

-- A call of a method, with what the clock and `secrets` give.
pub data Call : Type 0 where
  call_issue : Option Proof → ℕ → String → String → Call
  call_get : String → ℕ → ℕ → Call
  call_logout : String → Call
  call_own : Proof → ℕ → Call
  call_logout_all : ℕ → Call

unfoldable pub perform : Call → AccountSessions → AccountSessions
perform (call_issue proof now identifier csrf) t = (issue proof now identifier csrf t).0
perform (call_get identifier now later) t = (get identifier now later t).0
perform (call_logout identifier) t = logout identifier t
perform (call_own proof now) t = (own proof now t).0
perform (call_logout_all user) t = logout_all user t

unfoldable pub perform_each : List Call → AccountSessions → AccountSessions
perform_each [] t = t
perform_each (call ∷ calls) t = perform_each calls (perform call t)
