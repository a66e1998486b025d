-- ===== src/Dashboard/Sessions/Every.antt =====
-- dashboard_auth.py: what holds of every session, when it holds of the new ones.
use cvebeacon.Prelude.{
  ℕ, String, ◌≡◌, refl, Bool, true, Option, none, some, List, [], ◌∷◌, arith, inl, inr,
  Option-cases, Bool-cases, leb, length, not, all,
}
use cvebeacon.Watch.Users.{Proof}
use cvebeacon.Dashboard.Dicts.{
  find, every, every-chosen, every-discard, every-assign, every-find, some-holds,
}
use cvebeacon.Dashboard.Sessions.{
  AccountSession, Pool, AccountSessions, max_sessions, is_live, prune, is_of, owned, pop_first,
  make_room, issue_in, touch, get_in, get, logout, own, logout_all, Call, call_issue, call_get,
  call_logout, call_own, call_logout_all, perform, perform_each,
}

abbrev pub issued : Option Proof → ℕ → String → AccountSession
issued proof now csrf = record { proof = proof; csrf = csrf; created = now; touched = now }

module _ (q : String → AccountSession → Bool)
    (keeps : (key : String) (s : AccountSession) (later : ℕ)
      → q key s ≡ true
      → q key (touch later s) ≡ true) where
  abbrev pub HoldsEverywhere : AccountSessions → Type 0
  HoldsEverywhere t = (every q t.sessions ≡ true) × (every q t.anonymous ≡ true)

  -- The call issues no session of which it does not hold.
  abbrev pub is_allowed : Call → Bool
  is_allowed (call_issue proof now key csrf) = q key (issued proof now csrf)
  is_allowed _ = true

  every-prune : (now : ℕ) (t : AccountSessions) → HoldsEverywhere t → HoldsEverywhere (prune now t)
  unfolding prune
  every-prune now t (a, b) =
      (every-chosen q (is_live t now) t.sessions a, every-chosen q (is_live t now) t.anonymous b)

  every-make_room : (pool : Pool) → every q pool ≡ true → every q (make_room pool) ≡ true
  unfolding make_room
  every-make_room [] h = refl
  every-make_room ((key, s) ∷ pool) h = ground (arith, h, every-make_room pool)

  every-pop_first : (own pool : Pool) → every q pool ≡ true → every q (pop_first own pool) ≡ true
  every-pop_first [] pool h = h
  every-pop_first ((key, s) ∷ own) pool h = ground (arith, h, every-discard q key pool)

  every-issue_in :
      (t : AccountSessions) (proof : Option Proof) (now : ℕ) (key csrf : String)
      → q key (issued proof now csrf) ≡ true
      → HoldsEverywhere t
      → HoldsEverywhere (issue_in t proof now key csrf).0
  unfolding issue_in
  every-issue_in t (some proof) now key csrf e (a, b) =
      let pool : Pool = pop_first (owned proof.user_id t.sessions) t.sessions in
      let h = every-pop_first (owned proof.user_id t.sessions) t.sessions a in
      elim (Bool-cases (leb max_sessions (length pool))) [
        | inl f ↦ rw f (h, b)
        | inr f ↦ rw f (every-assign q key (issued (some proof) now csrf) pool e h, b)
      ]
  every-issue_in t none now key csrf e (a, b) = (
    a,
    every-assign q key (issued none now csrf) (make_room t.anonymous) e
        (every-make_room t.anonymous b),
  )

  -- The same of the session that `get` returns.
  abbrev pub HoldsOf : String → AccountSessions × Option AccountSession → Type 0
  HoldsOf key (t, result) =
      HoldsEverywhere t × ((s : AccountSession) → result ≡ some s → q key s ≡ true)

  pub every-get_in :
      (key : String) (later : ℕ) (t : AccountSessions)
      → HoldsEverywhere t
      → HoldsOf key (get_in key later t)
  unfolding get_in
  every-get_in key later t (a, b) = elim (Option-cases (find key t.sessions)) [
    | inr (s, e) ↦
        let h = keeps key s later (every-find q key s t.sessions e a) in
        rw (e, get_in)
          (
            (every-assign q key (touch later s) t.sessions h a, b),
            λ r k. some-holds (q key) (touch later s) r k h,
          )
    | inl e ↦ elim (Option-cases (find key t.anonymous)) [
      | inr (s, f) ↦
          let h = keeps key s later (every-find q key s t.anonymous f b) in
          rw (e, get_in)
            (rw (f, get_in)
              (
                (a, every-assign q key (touch later s) t.anonymous h b),
                λ r k. some-holds (q key) (touch later s) r k h,
              ))
      | inl f ↦ rw (e, get_in) (rw (f, get_in) ((a, b), λ r k. absurd (ground (arith, k))))
    ]
  ]

  every-perform :
      (call : Call) (t : AccountSessions)
      → is_allowed call ≡ true
      → HoldsEverywhere t
      → HoldsEverywhere (perform call t)
  unfolding perform logout own logout_all
  every-perform (call_issue proof now key csrf) t e h =
      every-issue_in (prune now t) proof now key csrf e (every-prune now t h)
  every-perform (call_get key now later) t e h =
      (every-get_in key later (prune now t) (every-prune now t h)).0
  every-perform (call_logout key) t e (a, b) =
      (every-discard q key t.sessions a, every-discard q key t.anonymous b)
  every-perform (call_own proof now) t e h = every-prune now t h
  every-perform (call_logout_all user) t e (a, b) =
      (every-chosen q (λ s. not (is_of user s)) t.sessions a, b)

  pub every-perform_each :
      (calls : List Call) (t : AccountSessions)
      → all is_allowed calls ≡ true
      → HoldsEverywhere t
      → HoldsEverywhere (perform_each calls t)
  unfolding perform_each
  every-perform_each [] t e h = h
  every-perform_each (call ∷ calls) t e h =
      every-perform_each calls (perform call t) (ground (arith, e))
        (every-perform call t (ground (arith, e)) h)

  pub every-get :
      (key : String) (now later : ℕ) (t : AccountSessions) (s : AccountSession)
      → HoldsEverywhere t
      → (get key now later t).1 ≡ some s
      → q key s ≡ true
  every-get key now later t s h e =
      (every-get_in key later (prune now t) (every-prune now t h)).1 s e
