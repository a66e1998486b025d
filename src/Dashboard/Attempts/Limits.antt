-- ===== src/Dashboard/Attempts/Limits.antt =====
-- dashboard_auth.py: the limits on the origins and the sessions that a process keeps.
use cvebeacon.Prelude.{
  ℕ, ◌+◌, ◌≤◌, String, ◌≡◌, refl, ap, ◌∙◌, Bool, true, false, Option, none, some, List, [], ◌∷◌,
  arith, inl, inr, Bool-cases, Option-cases, length, length-select, ltb, leb, eq_iff, if◌then◌else◌,
}
use cvebeacon.Dashboard.Dicts.{
  find, chosen, has_key, length-assign, length-discard, length-assign_known, length-discard_known,
}
use cvebeacon.Dashboard.Attempts.{
  Attempts, Origins, DashboardAuth, max_origins, attempts_of, oldest, earlier, evict, admit,
  next_attempts, pruned, reserve_in, reserve, make_room, login, valid, logout, authenticate, Call,
  call_login, call_valid, call_logout, call_authenticate, perform, perform_each,
}

abbrev pub IsLimited : DashboardAuth → Type 0
IsLimited t = (length t.attempts ≤ 4096) × (length t.sessions ≤ 256)

abbrev is_in : Option (String × Attempts) → Origins → Bool
is_in none table = true
is_in (some (k, a)) table = has_key k table

either-is_in :
    (c : Bool) (x y : String × Attempts) (table : Origins)
    → is_in (some x) table ≡ true
    → is_in (some y) table ≡ true
    → is_in (some (if c then x else y)) table ≡ true
either-is_in true x y table h k = h
either-is_in false x y table h k = k

earlier-is_in :
    (j : String) (b : Attempts) (o : Option (String × Attempts)) (table : Origins)
    → is_in o table ≡ true
    → is_in (some (earlier (j, b) o)) ((j, b) ∷ table) ≡ true
unfolding has_key
earlier-is_in j b none table h = ground (arith, (eq_iff j j).1 refl)
earlier-is_in j b (some (k, a)) table h =
    either-is_in (ltb a.expiry b.expiry) (k, a) (j, b) ((j, b) ∷ table) (ground (arith, h))
      (ground (arith, (eq_iff j j).1 refl))

oldest-is_in : (table : Origins) → is_in (oldest table) table ≡ true
unfolding oldest
oldest-is_in [] = refl
oldest-is_in ((j, b) ∷ table) = earlier-is_in j b (oldest table) table (oldest-is_in table)

evict-length :
    (x : String × Attempts) (table : Origins)
    → length (evict (oldest (x ∷ table)) (x ∷ table)) ≤ length table
unfolding oldest
evict-length x table =
    let (k, a) = earlier x (oldest table) in
    omega (arith, length-discard_known k (x ∷ table) (oldest-is_in (x ∷ table)))

admit-length :
    (origin : String) (table : Origins)
    → find origin table ≡ none
    → length table ≤ 4096
    → length (admit origin table) ≤ 4095
unfolding admit
admit-length origin [] e h = ground (arith, e)
admit-length origin (x ∷ table) e h = elim (Bool-cases (leb max_origins (length (x ∷ table)))) [
  | inl f ↦ rw (e, admit) (rw (f, admit) (omega (arith, h, evict-length x table)))
  | inr f ↦ rw (e, admit) (rw (f, admit) (ground (arith, f)))
]

admit-known :
    (origin : String) (table : Origins) (a : Attempts)
    → find origin table ≡ some a
    → admit origin table ≡ table
unfolding admit
admit-known origin table a e = rw (e, admit)

module _ (second : ℕ) where
  reserve_in-length :
      (origin : String) (now : ℕ) (table : Origins)
      → length table ≤ 4096
      → length (reserve_in second origin now table).0 ≤ 4096
  unfolding reserve_in
  reserve_in-length origin now table h =
      elim (Bool-cases (ltb now (attempts_of origin table).next_try)) [
        | inl f ↦ rw (f, reserve_in) h
        | inr f ↦ elim (Option-cases (find origin table)) [
          | inl e ↦ ground (
            arith,
            f,
            admit-length origin table e h,
            length-assign origin (next_attempts second now (attempts_of origin table))
                (admit origin table),
          )
          | inr (a, e) ↦ ground (
            arith,
            f,
            h,
            ap length (admit-known origin table a e),
            length-assign_known origin (next_attempts second now (attempts_of origin table)) a
                (admit origin table) (ap (find origin) (admit-known origin table a e) ∙ e),
          )
        ]
      ]

  reserve-length :
      (origin : String) (now : ℕ) (table : Origins)
      → length table ≤ 4096
      → length (reserve second origin now table).0 ≤ 4096
  reserve-length origin now table h =
      reserve_in-length origin now (pruned second now table)
        (omega (arith, h, length-select (λ (k, a). ltb now a.expiry) table))

  make_room-length : (sessions : List (String × ℕ)) → length (make_room sessions) ≤ 255
  unfolding make_room
  make_room-length [] = omega arith
  make_room-length (s ∷ sessions) = ground (arith, make_room-length sessions)

  perform-IsLimited :
      (call : Call) (t : DashboardAuth) → IsLimited t → IsLimited (perform second call t)
  unfolding perform login valid logout authenticate
  perform-IsLimited (call_login origin start accepted now token) t (a, s) = ground (
    arith,
    a,
    s,
    reserve-length origin start t.attempts,
    length-discard origin (reserve second origin start t.attempts).0,
    make_room-length (chosen (λ expiry. ltb now expiry) t.sessions),
    length-assign token (now + t.lifetime)
        (make_room (chosen (λ expiry. ltb now expiry) t.sessions)),
  )
  perform-IsLimited (call_valid key now) t (a, s) =
      ground (arith, a, s, length-discard key t.sessions)
  perform-IsLimited (call_logout key) t (a, s) =
      (a, omega (arith, s, length-discard key t.sessions))
  perform-IsLimited (call_authenticate origin start has_slot proof) t (a, s) = ground (
    arith,
    a,
    s,
    reserve-length origin start t.attempts,
    length-discard origin (reserve second origin start t.attempts).0,
  )

  -- Any calls leave at most 4096 origins and 256 sessions.
  perform_each-IsLimited :
      (calls : List Call) (t : DashboardAuth)
      → IsLimited t
      → IsLimited (perform_each second calls t)
  unfolding perform_each
  perform_each-IsLimited [] t h = h
  perform_each-IsLimited (call ∷ calls) t h =
      perform_each-IsLimited calls (perform second call t) (perform-IsLimited call t h)
