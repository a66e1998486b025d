-- ===== src/Dashboard/Sessions/Tests.antt =====
-- The theorems on sessions at a concrete table.
use cvebeacon.Prelude.{◌≡◌, refl, true, false, none, some, List, [], ◌∷◌, arith}
use cvebeacon.Watch.Users.{Proof}
use cvebeacon.Dashboard.Dicts.{find, assign, is_dict, every}
use cvebeacon.Dashboard.Sessions.{
  AccountSession, AccountSessions, is_of, prune, make_room, issue_in, get_in, logout_all, Call,
  call_issue, call_get, get, perform, perform_each,
}
use cvebeacon.Dashboard.Sessions.Bounds.{IsBounded, perform_each-IsBounded}
use cvebeacon.Dashboard.Sessions.Expiry.{created_by, outlived}
use cvebeacon.Dashboard.Sessions.Logout.{not_of, logged_out}

abbrev empty_table : AccountSessions
empty_table = record { lifetime = 100; idle = 30; sessions = []; anonymous = [] }

abbrev ann : Proof
ann = record { user_id = 1; username = "ann"; login_id = 5; credential_version = 0 }

abbrev bob : Proof
bob = record { user_id = 2; username = "bob"; login_id = 6; credential_version = 0 }

abbrev calls : List Call
calls = call_issue (some ann) 0 "a" "x" ∷ call_issue (some bob) 3 "b" "y" ∷ call_get "b" 20 20 ∷ []

abbrev table : AccountSessions
table = perform_each calls empty_table

perform_each-IsBounded_example : IsBounded (perform_each calls empty_table)
unfolding is_dict
perform_each-IsBounded_example =
    perform_each-IsBounded calls empty_table (refl, omega arith, omega arith, λ user. omega arith)

known_before :
    (every (created_by "b" 3) table.sessions ≡ true)
    × (every (created_by "b" 3) table.anonymous ≡ true)
    × (table.lifetime ≡ 100)
unfolding perform_each perform issue_in get_in prune find assign
known_before = (refl, refl, refl)

outlived_example : (get "b" 120 120 (perform_each (call_get "b" 50 51 ∷ []) table)).1 ≡ none
outlived_example =
    outlived "b" 3 (call_get "b" 50 51 ∷ []) table 120 120 known_before.0 known_before.1 refl
      (omega (arith, known_before.2))

abbrev bob_after : AccountSession
bob_after = record { proof = some bob; csrf = "y"; created = 3; touched = 22 }

bob_stays :
    (get "b" 21 22 (perform_each (call_issue none 19 "c" "z" ∷ []) (logout_all 1 table))).1
    ≡ some bob_after
unfolding perform_each perform issue_in get_in prune find assign logout_all make_room
bob_stays = refl

none_anonymous : every (not_of 1) table.anonymous ≡ true
unfolding perform_each perform issue_in get_in prune find assign
none_anonymous = refl

logged_out_example : is_of 1 bob_after ≡ false
logged_out_example =
    logged_out 1 (call_issue none 19 "c" "z" ∷ []) table "b" 21 22 bob_after none_anonymous refl
      bob_stays
