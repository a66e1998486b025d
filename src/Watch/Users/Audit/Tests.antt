-- ===== src/Watch/Users/Audit/Tests.antt =====
-- The log after a few calls at concrete tables.
use cvebeacon.Prelude.{length, ◌≡◌, refl, true, none, some, List, [], ◌∷◌}
use cvebeacon.Watch.Rules.Tests.{plain_text}
use cvebeacon.Watch.Chain.Encoding.{plain_chain}
use cvebeacon.Watch.Chain.{verify_chain, check_chain}
use cvebeacon.Watch.Users.{
  Users, text_length, append_audit, user_named, find_username, append_login_failure, count_failures,
  change_account,
}
use cvebeacon.Watch.Users.Accounts.{unattended, unlock, set_disabled}
use cvebeacon.Watch.Users.Login.{authenticate}
use cvebeacon.Watch.Users.Actions.{record_action}
use cvebeacon.Watch.Users.Calls.{
  UserCall, authenticate_call, set_disabled_call, unlock_call, record_action_call, perform_each,
}
use cvebeacon.Watch.Users.Tests.{plain_users, desk, tables}
use cvebeacon.Watch.Users.Audit.{verify_audit}
use cvebeacon.Watch.Users.Audit.Calls.{audit_verifies}

abbrev fresh : Users
fresh = record tables { audit = [] }

abbrev calls : List UserCall
calls =
    authenticate_call fresh "bob" "wrong" "bob" 5 6 desk
    ∷ set_disabled_call "bob" true "disable" unattended 7 desk
    ∷ unlock_call "bob" unattended 8 desk
    ∷ record_action_call "scan_completed" true "bob" (some "bob") (some "1") true (λ name. name) 9
        desk
    ∷ []

empty_log : verify_audit fresh.audit ≡ none
unfolding verify_audit verify_chain check_chain
empty_log = refl

audit_verifies_example : verify_audit (perform_each calls fresh).audit ≡ none
audit_verifies_example = audit_verifies calls fresh empty_log

-- The action of a job is in the log, after the failed login, the disabling and the unlocking.
four_entries : length (perform_each calls fresh).audit ≡ 4
unfolding perform_each record_action text_length append_audit unlock user_named set_disabled
    authenticate find_username append_login_failure count_failures change_account
four_entries = refl
