-- ===== src/Watch/Rules/Hash.antt =====
-- watch/rules.py: `condition_payload`, `rule_hash` and `providers_hash`, which tell whether an edit
-- of a rule changes what it sees.
pub mod Determines
mod Tests
use cvebeacon.Prelude.{ℕ, String, List, [], ◌∷◌, slice_to}
use cvebeacon.Watch.Records.{Status}
use cvebeacon.Watch.Rules.Data.{
  Leaf, cvss_min, cvss_max, epss_min, kev, exploitation, vendor, product, keyword, cwe, cna, status,
  KevCatalog, cisa, eu, any_catalog, Wanted, poc_or_active, only_active, Condition, leaf, all_of,
  any_of, not_of, Conditions, nil, cons, Rule,
}

-- The JSON values that are hashed. A score is a number of millionths.
mutual
  pub data Payload : Type 0 where
    number : ℕ → Payload
    text : String → Payload
    array : Payloads → Payload
    object : Members → Payload

  pub data Payloads : Type 0 where
    empty : Payloads
    item : Payload → Payloads → Payloads

  pub data Members : Type 0 where
    last : Members
    member : String → Payload → Members → Members

abbrev pub kev_text : KevCatalog → String
kev_text cisa = "cisa"
kev_text eu = "eu"
kev_text any_catalog = "any"

abbrev pub wanted_text : Wanted → String
wanted_text poc_or_active = "poc"
wanted_text only_active = "active"

abbrev pub status_text : Status → String
status_text Status.published = "published"
status_text Status.rejected = "rejected"

abbrev pub text_items : List String → Payloads
text_items [] = empty
text_items (s ∷ ss) = item (text s) (text_items ss)

-- `[key, value]`
abbrev pub pair : String → Payload → Payload
pair key value = array (item (text key) (item value empty))

abbrev pub leaf_payload : Leaf → Payload
leaf_payload (cvss_min n) = pair "cvss_min" (number n)
leaf_payload (cvss_max n) = pair "cvss_max" (number n)
leaf_payload (epss_min n) = pair "epss_min" (number n)
leaf_payload (kev k) = pair "kev" (text (kev_text k))
leaf_payload (exploitation w) = pair "exploitation" (text (wanted_text w))
leaf_payload (vendor values) = pair "vendor" (array (text_items values))
leaf_payload (product values) = pair "product" (array (text_items values))
leaf_payload (keyword values) = pair "keyword" (array (text_items values))
leaf_payload (cwe values) = pair "cwe" (array (text_items values))
leaf_payload (cna values) = pair "cna" (array (text_items values))
leaf_payload (status s) = pair "status" (text (status_text s))

abbrev pub leaf_items : List Leaf → Payloads
leaf_items [] = empty
leaf_items (l ∷ ls) = item (leaf_payload l) (leaf_items ls)

-- `{key: value}`
abbrev pub node : String → Payload → Payload
node key value = object (member key value last)

unfoldable mutual
  pub condition_payload : Condition → Payload
  condition_payload (leaf ls) = node "leaf" (array (leaf_items ls))
  condition_payload (not_of c) = node "not" (condition_payload c)
  condition_payload (all_of cs) = node "all" (array (child_payloads cs))
  condition_payload (any_of cs) = node "any" (array (child_payloads cs))

  pub child_payloads : Conditions → Payloads
  child_payloads nil = empty
  child_payloads (cons c cs) = item (condition_payload c) (child_payloads cs)

-- The value that `rule_hash` hashes.
unfoldable pub rule_payload : Rule → Payload
rule_payload rule = object (
    member "condition" (condition_payload rule.condition)
      (member "cvss_providers" (array (text_items rule.cvss_providers)) last))

-- `canonical_json`, then the SHA-256 of its UTF-8, as hexadecimal digits
module _ (digest : Payload → String) where
  unfoldable pub rule_hash : Rule → String
  rule_hash rule = slice_to 16 (digest (rule_payload rule))

  unfoldable pub providers_hash : Rule → String
  providers_hash rule = slice_to 16 (digest (array (text_items rule.cvss_providers)))
