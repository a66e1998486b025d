-- ===== src/Dashboard/Sessions/Bounds.antt =====
-- dashboard_auth.py: the limits on the sessions of one process and of one user.
use cvebeacon.Prelude.{
  ℕ, ◌≤◌, ◌<◌, String, ◌≡◌, refl, subst, ==_iff, ap, true, Option, none, some, List, [], ◌∷◌, arith,
  inl, inr, Bool-cases, Option-cases, length, length-select, not, leb, ◌==◌,
}
use cvebeacon.Watch.Users.{Proof}
use cvebeacon.Dashboard.Dicts.{
  find, assign, is_dict, is_dict-chosen, is_dict-discard, is_dict-assign, length-assign,
  length-discard, length-chosen-assign, chosen-assign_other, length-chosen-discard, chosen-discard,
  length-chosen-chosen, chosen-assign_known, length-assign_known,
}
use cvebeacon.Dashboard.Sessions.{
  AccountSession, Pool, AccountSessions, max_per_user, max_sessions, is_live, prune, is_of, owned,
  pop_first, make_room, issue_in, touch, get_in, logout, own, logout_all, Call, call_issue,
  call_get, call_logout, call_own, call_logout_all, perform, perform_each,
}

abbrev pub ArePools : Pool → Pool → Type 0
ArePools sessions anonymous =
    (is_dict sessions ≡ true)
    × (length sessions ≤ 256)
    × (length anonymous ≤ 256)
    × ((user : ℕ) → length (owned user sessions) ≤ 16)

abbrev pub IsBounded : AccountSessions → Type 0
IsBounded t = ArePools t.sessions t.anonymous

prune-IsBounded : (now : ℕ) (t : AccountSessions) → IsBounded t → IsBounded (prune now t)
unfolding prune
prune-IsBounded now t (d, a, b, each) = (
  is_dict-chosen (is_live t now) t.sessions d,
  omega (arith, length-select (λ (k, s). is_live t now s) t.sessions),
  omega (arith, length-select (λ (k, s). is_live t now s) t.anonymous),
  λ user. omega (arith, each user, length-chosen-chosen (is_of user) (is_live t now) t.sessions),
)

-- A pool with room for one more session of the user.
abbrev HasRoom : ℕ → Pool → Type 0
HasRoom user pool =
    (is_dict pool ≡ true)
    × (length pool ≤ 256)
    × ((u : ℕ) → length (owned u pool) ≤ 16)
    × (length (owned user pool) ≤ 15)

pop_first-HasRoom :
    (user : ℕ) (own pool : Pool)
    → owned user pool ≡ own
    → is_dict pool ≡ true
    → length pool ≤ 256
    → ((u : ℕ) → length (owned u pool) ≤ 16)
    → HasRoom user (pop_first own pool)
pop_first-HasRoom user [] pool e d a each = (d, a, each, omega (arith, ap length e))
pop_first-HasRoom user ((key, s) ∷ own) pool e d a each =
    elim (Bool-cases (leb max_per_user (length ((key, s) ∷ own)))) [
      | inl f ↦ rw f (
        is_dict-discard key pool d,
        omega (arith, length-discard key pool),
        λ u. omega (arith, each u, length-chosen-discard (is_of u) key pool),
        omega (arith, each user, ap length e, chosen-discard (is_of user) key s own pool d e),
      )
      | inr f ↦ rw f (d, a, each, ground (arith, f, ap length e))
    ]

add-ArePools :
    (proof : Proof) (key csrf : String) (now : ℕ) (pool anonymous : Pool)
    → HasRoom proof.user_id pool
    → length pool < 256
    → length anonymous ≤ 256
    → ArePools
        (assign key (record { proof = some proof; csrf = csrf; created = now; touched = now }) pool)
        anonymous
add-ArePools proof key csrf now pool anonymous (d, a, each, mine) few b =
    let s : AccountSession = record {
      proof = some proof;
      csrf = csrf;
      created = now;
      touched = now;
    } in
    (
      is_dict-assign key s pool d,
      omega (arith, length-assign key s pool),
      b,
      λ u. elim (Bool-cases (proof.user_id == u)) [
        | inl e ↦
            subst (λ v. length (owned v (assign key s pool)) ≤ 16) ((==_iff proof.user_id u).0 e)
              (omega (arith, length-chosen-assign (is_of proof.user_id) key s pool, mine))
        | inr e ↦ omega (arith, chosen-assign_other (is_of u) key s pool e, each u)
      ],
    )

make_room-length : (pool : Pool) → length (make_room pool) ≤ 255
unfolding make_room
make_room-length [] = omega arith
make_room-length (s ∷ pool) = ground (arith, make_room-length pool)

issue_in-IsBounded :
    (t : AccountSessions) (proof : Option Proof) (now : ℕ) (key csrf : String)
    → IsBounded t
    → IsBounded (issue_in t proof now key csrf).0
unfolding issue_in
issue_in-IsBounded t (some proof) now key csrf (d, a, b, each) =
    let room =
      pop_first-HasRoom proof.user_id (owned proof.user_id t.sessions) t.sessions refl d a each in
    let pool : Pool = pop_first (owned proof.user_id t.sessions) t.sessions in
    elim (Bool-cases (leb max_sessions (length pool))) [
      | inl f ↦ rw f (room.0, room.1, b, room.2)
      | inr f ↦ rw f (add-ArePools proof key csrf now pool t.anonymous room (ground (arith, f)) b)
    ]
issue_in-IsBounded t none now key csrf (d, a, b, each) = (
  d,
  a,
  omega (
    arith,
    make_room-length t.anonymous,
    length-assign key (record { proof = none; csrf = csrf; created = now; touched = now })
        (make_room t.anonymous),
  ),
  each,
)

get_in-IsBounded :
    (key : String) (later : ℕ) (t : AccountSessions)
    → IsBounded t
    → IsBounded (get_in key later t).0
unfolding get_in
get_in-IsBounded key later t (d, a, b, each) = elim (Option-cases (find key t.sessions)) [
  | inr (s, e) ↦
      rw (e, get_in)
        (
          is_dict-assign key (touch later s) t.sessions d,
          omega (arith, length-assign_known key (touch later s) s t.sessions e),
          b,
          λ u. omega (
            arith,
            each u,
            chosen-assign_known (is_of u) key (touch later s) s t.sessions e refl,
          ),
        )
  | inl e ↦ elim (Option-cases (find key t.anonymous)) [
    | inr (s, f) ↦
        rw (e, get_in)
          (rw (f, get_in)
            (d, a, omega (arith, length-assign_known key (touch later s) s t.anonymous f), each))
    | inl f ↦ rw (e, get_in) (rw (f, get_in) (d, a, b, each))
  ]
]

perform-IsBounded : (call : Call) (t : AccountSessions) → IsBounded t → IsBounded (perform call t)
unfolding perform logout own logout_all
perform-IsBounded (call_issue proof now key csrf) t h =
    issue_in-IsBounded (prune now t) proof now key csrf (prune-IsBounded now t h)
perform-IsBounded (call_get key now later) t h =
    get_in-IsBounded key later (prune now t) (prune-IsBounded now t h)
perform-IsBounded (call_logout key) t (d, a, b, each) = (
  is_dict-discard key t.sessions d,
  omega (arith, length-discard key t.sessions),
  omega (arith, length-discard key t.anonymous),
  λ u. omega (arith, each u, length-chosen-discard (is_of u) key t.sessions),
)
perform-IsBounded (call_own proof now) t h = prune-IsBounded now t h
perform-IsBounded (call_logout_all user) t (d, a, b, each) = (
  is_dict-chosen (λ s. not (is_of user s)) t.sessions d,
  omega (arith, length-select (λ (k, s). not (is_of user s)) t.sessions),
  b,
  λ u. omega (arith, each u, length-chosen-chosen (is_of u) (λ s. not (is_of user s)) t.sessions),
)

-- From a table within its limits, whose identifiers are distinct, any calls leave at most 256
-- sessions, 256 anonymous ones and 16 of each user, under distinct identifiers.
pub perform_each-IsBounded :
    (calls : List Call) (t : AccountSessions) → IsBounded t → IsBounded (perform_each calls t)
unfolding perform_each
perform_each-IsBounded [] t h = h
perform_each-IsBounded (call ∷ calls) t h =
    perform_each-IsBounded calls (perform call t) (perform-IsBounded call t h)
