-- ===== src/Watch/Users/Audit.antt =====
-- watch/users.py: `verify_audit`, the check of the chained log of the account store.
pub mod Verified
pub mod Methods
pub mod Calls
mod Tests
use cvebeacon.Prelude.{ℕ, String, Option, none, some, List, [], ◌∷◌, map, PyText}
use cvebeacon.Watch.Chain.{Cell, null, integer, text, Row, RowId, ChainText, verify_chain}
use cvebeacon.Watch.Users.{AuditRow}

abbrev pub audit_chain_fields : List String
audit_chain_fields = "id" ∷ "action" ∷ "username" ∷ "at" ∷ "os_account" ∷ "host" ∷ []

abbrev pub actor_cell : Option String → Cell
actor_cell none = null
actor_cell (some actor) = text actor

module _ ⦃py : PyText⦄ where
  -- An entry as it is read back.
  abbrev pub audit_cells : AuditRow → Row
  audit_cells r =
      ("id", integer r.id)
      ∷ ("action", text r.action)
      ∷ ("username", text r.username)
      ∷ ("at", text (py.utc_isoformat r.at))
      ∷ ("os_account", text r.os_account)
      ∷ ("host", text r.host)
      ∷ ("actor", actor_cell r.actor)
      ∷ ("chain", text r.chain)
      ∷ []

  -- `verify_audit`, for a database that has the table with its columns.
  unfoldable pub verify_audit : ⦃ct : ChainText⦄ → List AuditRow → Option RowId
  verify_audit rows = verify_chain (map audit_cells rows) audit_chain_fields ("actor" ∷ [])
