-- ===== src/Dashboard/Attempts/Tests.antt =====
-- The theorems on the login throttle at a concrete table.
use cvebeacon.Prelude.{
  ℕ, ◌≡◌, refl, true, false, none, some, Option, List, [], ◌∷◌, arith, leb, if◌then◌else◌,
}
use cvebeacon.Dashboard.Dicts.{find, assign, discard, is_dict}
use cvebeacon.Dashboard.Attempts.{
  DashboardAuth, reserve_in, reserve, admit, login, authenticate, Call, call_login, call_valid,
  call_authenticate, valid, make_room, perform, perform_each,
}
use cvebeacon.Dashboard.Attempts.Refusal.{retry_time, failed_login_waits}

abbrev no_logins : DashboardAuth
no_logins = record { lifetime = 100; attempts = []; sessions = [] }

abbrev ada : Option ℕ
ada = some 1

abbrev wrong_password : Call
wrong_password = call_login "a" 1 false 2 "token"

-- Another origin logs in, a session is asked for, and the origin itself tries again too early.
abbrev busy_seconds : List Call
busy_seconds =
    call_login "b" 3 true 4 "token"
    ∷ call_valid "token" 5
    ∷ call_authenticate "a" 6 true (some 1)
    ∷ []

granted_first : ((reserve 10 "a" 1 []).1 ≡ true) × (retry_time 10 "a" 1 [] ≡ 11)
unfolding reserve_in find admit assign
granted_first = (refl, refl)

failed_login_waits_example :
    let after = perform_each 10 busy_seconds (perform 10 wrong_password no_logins) in
    let let_in = leb (retry_time 10 "a" 1 []) 12 in
    ((login 10 "a" 12 true 13 "next" after).1 ≡ (if let_in then some "next" else none))
    × ((authenticate 10 "a" 12 true ada after).1 ≡ (if let_in then ada else none))
unfolding is_dict
failed_login_waits_example =
    failed_login_waits 10 "a" 1 12 13 "next" ada wrong_password busy_seconds no_logins refl
      (refl, refl, refl) granted_first.0
      (omega (arith, granted_first.1), (tt, (omega (arith, granted_first.1), tt))) (omega arith)

-- What the calls do: refused a second before the time, let in a second after it.
waits_ten_ticks :
    let after = perform_each 10 busy_seconds (perform 10 wrong_password no_logins) in
    ((login 10 "a" 10 true 13 "next" after).1 ≡ none)
    × ((login 10 "a" 12 true 13 "next" after).1 ≡ some "next")
unfolding perform perform_each login reserve_in find authenticate valid assign admit make_room
    discard
waits_ten_ticks = (refl, refl)
