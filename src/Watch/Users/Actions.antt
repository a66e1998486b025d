-- ===== src/Watch/Users/Actions.antt =====
-- users.py: `record_action`, the entry that a background job of the dashboard leaves in the log. The
-- database file exists; `audit_name`, the sanitising of a name, is an argument.
use cvebeacon.Prelude.{
  ℕ, String, Bool, Option, none, some, [], ◌∷◌, ◌||◌, not, ltb, truthy, concat, if◌then◌else◌,
  PyText,
}
use cvebeacon.Watch.Chain.{ChainText}
use cvebeacon.Watch.Users.{
  Users, Machine, Attempt, rejected, granted, ◌>>=◌, append_audit, text_length, bad_action,
  bad_account, bad_detail,
}
use cvebeacon.Watch.Users.Roles.{unless}

-- The action with its detail, of at most 1024 characters; `printable` tells that none of them is a
-- control character.
abbrev pub detailed :
    (action : String) → (detail : Option String) → (printable : Bool) → Attempt String
detailed action none printable = granted action
detailed action (some detail) printable =
    unless (ltb 1024 (text_length detail) || not printable) (rejected bad_detail) >>= λ _.
    granted (concat (action ∷ ":" ∷ detail ∷ []))

-- `audit_name(actor) if actor else None`
abbrev pub named_actor : (audit_name : String → String) → (actor : Option String) → Option String
named_actor audit_name none = none
named_actor audit_name (some actor) = if truthy actor then some (audit_name actor) else none

module _ ⦃py : PyText⦄ ⦃ct : ChainText⦄ where
  -- `record_action`: `well_named` tells that the action matches the pattern.
  unfoldable pub record_action :
      (action : String)
      → (well_named : Bool) → (username : String) → (actor detail : Option String)
      → (printable : Bool) → (audit_name : String → String) → ℕ
      → Machine
      → Users
      → Attempt Users
  record_action action well_named username actor detail printable audit_name now machine t =
      unless (not well_named) (rejected bad_action) >>= λ _.
      unless (not (truthy username)) (rejected bad_account) >>= λ _.
      detailed action detail printable >>= λ entry.
      granted
        (append_audit entry (audit_name username) now machine (named_actor audit_name actor) t).1
