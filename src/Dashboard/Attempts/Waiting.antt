-- ===== src/Dashboard/Attempts/Waiting.antt =====
-- dashboard_auth.py: an origin that has to wait waits on, whatever calls of the throttle follow.
use cvebeacon.Prelude.{
  ℕ, suc, ◌+◌, ◌≤◌, ◌<◌, String, ◌≡◌, sym, ap, subst, ◌∙◌, Bool, true, false, Option, none, some,
  List, [], ◌∷◌, ◌&&◌, arith, inl, inr, Bool-cases, length, ltb, str_eq, eq_iff, All, is_some,
  if◌then◌else◌,
}
use cvebeacon.Dashboard.Dicts.{
  discard, is_dict, find-discard_other, is_dict-chosen, is_dict-assign, is_dict-discard,
  length-discard,
}
use cvebeacon.Dashboard.Attempts.{
  Attempts, Origins, DashboardAuth, attempts_of, evict, oldest, admit, next_attempts, pruned,
  reserve_in, reserve, login, authenticate, valid, logout, Call, call_login, call_valid,
  call_logout, call_authenticate, perform, perform_each,
}
use cvebeacon.Dashboard.Attempts.Delay.{Waits, refused, reserve-Waits}

-- A call that asks for a login of the origin at the time and does not get it: the password is
-- wrong, no slot is free, or the account store does not know the account.
abbrev pub Fails : String → ℕ → Call → Type 0
Fails origin now (call_login other start accepted moment token) =
    (other ≡ origin) × (start ≡ now) × (accepted ≡ false)
Fails origin now (call_authenticate other start has_slot proof) =
    (other ≡ origin) × (start ≡ now) × ((has_slot && is_some proof) ≡ false)
Fails origin now _ = ⊥

-- A login that starts before the time; the other calls read no clock for the throttle.
abbrev pub StartsBefore : ℕ → Call → Type 0
StartsBefore until (call_login other start accepted moment token) = start < until
StartsBefore until (call_authenticate other start has_slot proof) = start < until
StartsBefore until _ = Unit

module _ (second : ℕ) where
  evict-is_dict :
      (o : Option (String × Attempts)) (table : Origins)
      → is_dict table ≡ true
      → is_dict (evict o table) ≡ true
  evict-is_dict none table d = d
  evict-is_dict (some (key, a)) table d = is_dict-discard key table d

  pub reserve-is_dict :
      (origin : String) (now : ℕ) (table : Origins)
      → is_dict table ≡ true
      → is_dict (reserve second origin now table).0 ≡ true
  unfolding reserve_in admit
  reserve-is_dict origin now table d =
      let few = pruned second now table in
      let kept = is_dict-chosen (λ (a : Attempts). ltb now a.expiry) table d in
      ground (
        arith,
        kept,
        evict-is_dict (oldest few) few kept,
        is_dict-assign origin (next_attempts second now (attempts_of origin few))
            (admit origin few),
      )

  -- The origin waits until the time, in a dict.
  abbrev pub Keeps : String → ℕ → Origins → Type 0
  Keeps origin until table = Waits second origin until table × (is_dict table ≡ true)

  -- The origins after a login that succeeds when it is let in and the test holds.
  abbrev after_login : String → ℕ → Bool → Origins → Origins
  after_login origin now b table =
      let r = reserve second origin now table in if r.1 && b then discard origin r.0 else r.0

  -- A login before that time, by any origin, succeeds or not.
  login-Keeps :
      (origin other : String) (until now : ℕ) (table : Origins) (b : Bool)
      → now < until
      → length table < 4096
      → Keeps origin until table
      → Keeps origin until (after_login other now b table)
        × (length (after_login other now b table) ≤ suc (length table))
  login-Keeps origin other until now table b early room (w, d) =
      let r = reserve second other now table in
      let ((a, e, same, late), few) =
        reserve-Waits second origin other until now table early room w in
      let dict = reserve-is_dict other now table d in
      elim (Bool-cases (r.1 && b)) [
        | inr f ↦ rw f (((a, e, same, late), dict), few)
        | inl f ↦
            let apart =
              other_origin (refused second origin until now table early w) (ground (arith, f)) in
            rw f (
              (
                (a, find-discard_other origin other r.0 apart ∙ e, same, late),
                is_dict-discard other r.0 dict,
              ),
              omega (arith, few, length-discard other r.0),
            )
      ]
    where
      other_origin :
          (reserve second origin now table).1 ≡ false
          → (reserve second other now table).1 ≡ true
          → str_eq other origin ≡ false
      other_origin no_own own = elim (Bool-cases (str_eq other origin)) [
        | inr f ↦ f
        | inl f ↦ absurd (
            ground (
              arith,
              no_own,
              own,
              ap (λ s. (reserve second s now table).1) ((eq_iff other origin).0 f),
            ))
      ]

  attempts-login :
      (origin : String) (start : ℕ) (accepted : Bool) (moment : ℕ) (token : String)
      (t : DashboardAuth)
      → (perform second (call_login origin start accepted moment token) t).attempts
        ≡ after_login origin start accepted t.attempts
  unfolding perform login
  attempts-login origin start accepted moment token t = ground arith

  attempts-authenticate :
      (origin : String) (start : ℕ) (has_slot : Bool) (proof : Option ℕ) (t : DashboardAuth)
      → (perform second (call_authenticate origin start has_slot proof) t).attempts
        ≡ after_login origin start (has_slot && is_some proof) t.attempts
  unfolding perform authenticate
  attempts-authenticate origin start has_slot proof t = ground arith

  attempts-valid :
      (key : String) (now : ℕ) (t : DashboardAuth)
      → (perform second (call_valid key now) t).attempts ≡ t.attempts
  unfolding perform valid
  attempts-valid key now t = ground arith

  -- Every call keeps the origin waiting.
  abbrev Stays : String → ℕ → Origins → Origins → Type 0
  Stays origin until before after = Keeps origin until after × (length after ≤ suc (length before))

  perform-Keeps :
      (origin : String) (until : ℕ) (call : Call) (t : DashboardAuth)
      → StartsBefore until call
      → length t.attempts < 4096
      → Keeps origin until t.attempts
      → Stays origin until t.attempts (perform second call t).attempts
  unfolding perform logout
  perform-Keeps origin until (call_login other start accepted moment token) t early room k =
      subst (Stays origin until t.attempts)
        (sym (attempts-login other start accepted moment token t))
        (login-Keeps origin other until start t.attempts accepted early room k)
  perform-Keeps origin until (call_authenticate other start has_slot proof) t early room k =
      subst (Stays origin until t.attempts)
        (sym (attempts-authenticate other start has_slot proof t))
        (login-Keeps origin other until start t.attempts (has_slot && is_some proof) early room k)
  perform-Keeps origin until (call_valid key now) t early room k =
      subst (Stays origin until t.attempts) (sym (attempts-valid key now t)) (k, omega arith)
  perform-Keeps origin until (call_logout key) t early room k = (k, omega arith)

  pub perform_each-Keeps :
      (origin : String) (until : ℕ) (calls : List Call) (t : DashboardAuth)
      → All (StartsBefore until) calls
      → length t.attempts + length calls ≤ 4096
      → Keeps origin until t.attempts
      → Keeps origin until (perform_each second calls t).attempts
  unfolding perform_each
  perform_each-Keeps origin until [] t early room k = k
  perform_each-Keeps origin until (call ∷ calls) t (h, early) room k =
      let (k', few) = perform-Keeps origin until call t h (omega (arith, room)) k in
      perform_each-Keeps origin until calls (perform second call t) early (omega (arith, few, room))
        k'

  -- A login that is let in and fails leaves the reservation.
  pub attempts-reserved :
      (origin : String) (now : ℕ) (call : Call) (t : DashboardAuth)
      → Fails origin now call
      → (perform second call t).attempts ≡ (reserve second origin now t.attempts).0
  attempts-reserved origin now (call_login other start accepted moment token) t (e, f, wrong) =
      attempts-login other start accepted moment token t
      ∙ ground (
        arith,
        wrong,
        ap (λ s. (reserve second s start t.attempts).0) e,
        ap (λ n. (reserve second origin n t.attempts).0) f,
      )
  attempts-reserved origin now (call_authenticate other start has_slot proof) t (e, f, wrong) =
      attempts-authenticate other start has_slot proof t
      ∙ ground (
        arith,
        wrong,
        ap (λ s. (reserve second s start t.attempts).0) e,
        ap (λ n. (reserve second origin n t.attempts).0) f,
      )
  attempts-reserved origin now (call_valid key start) t h = absurd h
  attempts-reserved origin now (call_logout key) t h = absurd h
