-- ===== src/Watch/Rules/Parse/Tests.antt =====
-- The readers of rules at a concrete configuration.
use cvebeacon.Prelude.{◌≡◌, refl, true, some, [], ◌∷◌, ◌≤◌, All, concat}
use cvebeacon.Watch.Rules.Data.{
  Condition, leaf, any_of, nil, cons, cvss_min, kev, any_catalog, vendor, Rule, matched, digest,
}
use cvebeacon.Watch.Rules.Tests.{plain_text}
use cvebeacon.Watch.Rules.Parse.{
  Raw, natural, text, array, table, last, item, empty, entry, parsed, PyReader, number, enum,
  str_len, distinct_items,
}
use cvebeacon.Watch.Rules.Parse.Leaves.{strings, leaf_value}
use cvebeacon.Watch.Rules.Parse.Tree.{
  sorted_entries, node_key, leaf_pairs, children, boolean_node, condition_at, parse_condition,
}
use cvebeacon.Watch.Rules.Parse.Rules.{
  rule_events, rule_old_cves, rule_providers, rule_channels, parse_rule, parse_each, parse_rules,
}
use cvebeacon.Watch.Rules.Parse.Distinct.{AreNew}
use cvebeacon.Watch.Rules.Parse.Shape.{depth, leaf_count, IsFilled}
use cvebeacon.Watch.Rules.Parse.Bounds.{parse_condition-IsFilled}
use cvebeacon.Watch.Rules.Parse.Names.{IsRule, folded_name, parse_rules-IsRule}

instance abbrev plain_reader : PyReader
plain_reader = record {
  str_int = λ n. "0";
  repr = λ s. concat ("'" ∷ s ∷ "'" ∷ []);
  cwe_number = λ s. some 79;
  matches_name = λ s. true;
}

abbrev raw_condition : Raw
raw_condition = table (
    entry "any"
      (array (
        item (table (entry "kev" (text "any") empty)) (
          item
            (table (
              entry "vendor" (array (item (text "acme") (item (text "acme") last)))
                (entry "cvss_min" (natural 7) empty)))
            last)))
      empty)

abbrev condition : Condition
condition = any_of (
    cons (leaf (kev any_catalog ∷ []))
      (cons (leaf (cvss_min 7000000 ∷ vendor ("acme" ∷ []) ∷ [])) nil))

condition_parses : parse_condition raw_condition "condition" ≡ parsed condition
unfolding parse_condition condition_at boolean_node children node_key leaf_pairs sorted_entries
    leaf_value strings number enum distinct_items str_len
condition_parses = refl

parse_condition-IsFilled_example :
    (depth condition ≤ 4) × (leaf_count condition ≤ 32) × IsFilled condition
parse_condition-IsFilled_example =
    parse_condition-IsFilled raw_condition "condition" condition condition_parses

abbrev raw_rules : Raw
raw_rules = array (
    item
      (table (
        entry "name" (text "acme") (
          entry "condition" raw_condition (
            entry "channels" (array (item (text "ops") last))
              (entry "events" (array (item (text "match") last)) empty)))))
      last)

abbrev rule : Rule
rule = record {
  name = "acme";
  condition = condition;
  channels = "ops" ∷ [];
  events = matched ∷ [];
  cvss_providers = "nvd" ∷ "cna" ∷ "cisa-adp" ∷ "euvd" ∷ "other" ∷ [];
  enabled = true;
  old_cves = digest;
}

rules_parse : parse_rules (some raw_rules) "watch.rules" ≡ parsed (rule ∷ [])
unfolding parse_rules parse_each parse_rule rule_channels rule_events rule_providers rule_old_cves
    parse_condition condition_at boolean_node children node_key leaf_pairs sorted_entries leaf_value
    strings number enum distinct_items str_len
rules_parse = refl

parse_rules-IsRule_example : All IsRule (rule ∷ []) × AreNew folded_name [] (rule ∷ [])
parse_rules-IsRule_example =
    parse_rules-IsRule (some raw_rules) "watch.rules" (rule ∷ []) rules_parse
