-- ===== src/Dashboard/Sessions/Expiry.antt =====
-- dashboard_auth.py: how long a session lasts.
use cvebeacon.Prelude.{
  ℕ, ◌+◌, ◌≤◌, String, ◌≡◌, refl, Bool, true, Option, none, some, List, [], ◌∷◌, ◌||◌, arith, inl,
  inr, Option-cases, not, all, leb, str_eq, eq_iff, length, Bool-cases, ◌∙◌,
}
use cvebeacon.Watch.Users.{Proof}
use cvebeacon.Dashboard.Dicts.{find, every, every-weaken, every-chosen_self}
use cvebeacon.Dashboard.Sessions.{
  AccountSession, AccountSessions, max_sessions, is_live, prune, owned, pop_first, issue_in, get_in,
  get, logout, own, logout_all, Call, call_issue, call_get, call_logout, call_own, call_logout_all,
  perform, perform_each,
}
use cvebeacon.Dashboard.Sessions.Every.{is_allowed, every-perform_each, every-get_in, every-get}

-- A session with the identifier was created at the time or before.
abbrev pub created_by : String → ℕ → String → AccountSession → Bool
created_by key start k s = not (str_eq k key) || leb s.created start

-- The call does not issue the identifier.
abbrev pub issues_other : String → Call → Bool
issues_other key (call_issue proof now k csrf) = not (str_eq k key)
issues_other key _ = true

issues_other-is_allowed :
    (key : String) (start : ℕ) (calls : List Call)
    → all (issues_other key) calls ≡ true
    → all (is_allowed (created_by key start) (λ k s later h. h)) calls ≡ true
issues_other-is_allowed key start [] h = refl
issues_other-is_allowed key start (call_issue proof now k csrf ∷ calls) h =
    ground (arith, h, issues_other-is_allowed key start calls)
issues_other-is_allowed key start (_ ∷ calls) h =
    issues_other-is_allowed key start calls (ground (arith, h))

issue_in-lifetime :
    (t : AccountSessions) (proof : Option Proof) (now : ℕ) (key csrf : String)
    → (issue_in t proof now key csrf).0.lifetime ≡ t.lifetime
unfolding issue_in
issue_in-lifetime t none now key csrf = refl
issue_in-lifetime t (some proof) now key csrf =
    elim (Bool-cases
      (leb max_sessions (length (pop_first (owned proof.user_id t.sessions) t.sessions)))) [
        | inl e ↦ rw (e, issue_in)
        | inr e ↦ rw (e, issue_in)
      ]

get_in-lifetime :
    (key : String) (later : ℕ) (t : AccountSessions) → (get_in key later t).0.lifetime ≡ t.lifetime
unfolding get_in
get_in-lifetime key later t = elim (Option-cases (find key t.sessions)) [
  | inr (s, e) ↦ rw (e, get_in)
  | inl e ↦ elim (Option-cases (find key t.anonymous)) [
    | inr (s, f) ↦ rw (e, get_in) (rw (f, get_in))
    | inl f ↦ rw (e, get_in) (rw (f, get_in))
  ]
]

-- No call changes the limit.
perform-lifetime : (call : Call) (t : AccountSessions) → (perform call t).lifetime ≡ t.lifetime
unfolding perform prune logout own logout_all
perform-lifetime (call_issue proof now key csrf) t =
    issue_in-lifetime (prune now t) proof now key csrf
perform-lifetime (call_get key now later) t = get_in-lifetime key later (prune now t)
perform-lifetime (call_logout key) t = refl
perform-lifetime (call_own proof now) t = refl
perform-lifetime (call_logout_all user) t = refl

perform_each-lifetime :
    (calls : List Call) (t : AccountSessions) → (perform_each calls t).lifetime ≡ t.lifetime
unfolding perform_each
perform_each-lifetime [] t = refl
perform_each-lifetime (call ∷ calls) t =
    perform_each-lifetime calls (perform call t) ∙ perform-lifetime call t

-- Created less than a lifetime before.
abbrev is_young : ℕ → ℕ → String → AccountSession → Bool
is_young lifetime now key s = not (leb (s.created + lifetime) now)

get-is_young :
    (key : String) (now later : ℕ) (t : AccountSessions) (s : AccountSession)
    → (get key now later t).1 ≡ some s
    → is_young t.lifetime now key s ≡ true
unfolding prune
get-is_young key now later t s e =
    let young : (k : String) (a : AccountSession)
        → is_live t now a ≡ true
        → is_young t.lifetime now k a ≡ true =
      λ k a h. ground (arith, h) in
    (every-get_in (is_young t.lifetime now) (λ k a l h. h) key later (prune now t)
        (
          every-weaken _ (is_young t.lifetime now) (prune now t).sessions young
              (every-chosen_self (is_live t now) t.sessions),
          every-weaken _ (is_young t.lifetime now) (prune now t).anonymous young
              (every-chosen_self (is_live t now) t.anonymous),
        )).1
      s e

-- When the sessions with an identifier were created at a time or before, and a lifetime has
-- passed since, the identifier gives no session, whatever calls come between that do not issue it
-- again.
pub outlived :
    (key : String) (start : ℕ) (calls : List Call) (t : AccountSessions) (now later : ℕ)
    → every (created_by key start) t.sessions ≡ true
    → every (created_by key start) t.anonymous ≡ true
    → all (issues_other key) calls ≡ true
    → start + t.lifetime ≤ now
    → (get key now later (perform_each calls t)).1 ≡ none
outlived key start calls t now later a b allowed old =
    elim (Option-cases (get key now later (perform_each calls t)).1) [
      | inl e ↦ e
      | inr (s, e) ↦
          let held =
            every-get (created_by key start) (λ k a l h. h) key now later (perform_each calls t) s
              (every-perform_each (created_by key start) (λ k a l h. h) calls t
                (issues_other-is_allowed key start calls allowed) (a, b))
              e in
          absurd (
            ground (
              arith,
              held,
              (eq_iff key key).1 refl,
              get-is_young key now later (perform_each calls t) s e,
              perform_each-lifetime calls t,
              old,
            ))
    ]
