-- ===== src/Watch/Rules/Parse/Rules.antt =====
-- watch/rules.py: `_rule_events`, `_rule_old_cves`, `_rule_providers`, `_rule_channels` and
-- `parse_rules`.
use package.text.Mathlib.Text.{starts_with}
use cvebeacon.Prelude.{
  insert_sorted, ℕ, suc, String, Bool, true, Option, none, some, List, [], ◌∷◌, concat, join, map,
  is_nil, not, select, member, if◌then◌else◌, PyText,
}
use cvebeacon.Watch.Rules.Data.{
  EventKind, matched, kev_added, exploitation_active, severity_increase, epss_increase,
  nvd_score_added, status_rejected, Condition, OldCves, digest, alert, ignore, Rule,
}
use cvebeacon.Watch.Rules.Parse.{
  Raw, boolean, text, array, table, Entries, items_of, entry_of, keys_of, Parsed, parsed, ◌>>=◌,
  fail, PyReader, at, enum, distinct_items,
}
use cvebeacon.Watch.Rules.Parse.Leaves.{item_text}
use cvebeacon.Watch.Rules.Parse.Tree.{parse_condition}

-- EVENT_KINDS, each with what it stands for.
abbrev pub event_values : List (String × EventKind)
event_values =
    ("match", matched)
    ∷ ("kev_added", kev_added)
    ∷ ("exploitation_active", exploitation_active)
    ∷ ("severity_increase", severity_increase)
    ∷ ("epss_increase", epss_increase)
    ∷ ("nvd_score_added", nvd_score_added)
    ∷ ("rejected", status_rejected)
    ∷ []

abbrev pub event_name : EventKind → String
event_name matched = "match"
event_name kev_added = "kev_added"
event_name exploitation_active = "exploitation_active"
event_name severity_increase = "severity_increase"
event_name epss_increase = "epss_increase"
event_name nvd_score_added = "nvd_score_added"
event_name status_rejected = "rejected"

abbrev pub default_events : List EventKind
default_events =
    matched ∷ kev_added ∷ exploitation_active ∷ severity_increase ∷ epss_increase ∷ nvd_score_added
    ∷ status_rejected ∷ []

abbrev pub cvss_providers : List String
cvss_providers = "nvd" ∷ "cna" ∷ "cisa-adp" ∷ "euvd" ∷ "other" ∷ []

abbrev pub itself : List String → List (String × String)
itself [] = []
itself (s ∷ ss) = (s, s) ∷ itself ss

abbrev old_cves_values : List (String × OldCves)
old_cves_values = ("digest", digest) ∷ ("alert", alert) ∷ ("ignore", ignore) ∷ []

abbrev rule_keys : List String
rule_keys =
    "name" ∷ "enabled" ∷ "condition" ∷ "channels" ∷ "events" ∷ "cvss_providers" ∷ "old_cves" ∷ []

abbrev sorted_keys : List String → List String
sorted_keys [] = []
sorted_keys (k ∷ ks) = insert_sorted k (sorted_keys ks)

module _ ⦃py : PyText⦄ ⦃reader : PyReader⦄ where
  abbrev pub nonempty : List EventKind → String → Parsed (List EventKind)
  nonempty [] path = fail path "must contain at least one event kind"
  nonempty (k ∷ ks) path = parsed (k ∷ ks)

  unfoldable pub rule_events : Option Raw → String → Parsed (List EventKind)
  rule_events none path = parsed default_events
  rule_events (some (array raws)) path =
      distinct_items (λ raw i. enum raw (at path i) event_values) event_name 0 (items_of raws) []
      >>= λ kinds. nonempty kinds path
  rule_events (some _) path = fail path "must be a list of event kinds"

  unfoldable pub rule_old_cves : Option Raw → String → Parsed OldCves
  rule_old_cves none path = parsed digest
  rule_old_cves (some value) path = enum value path old_cves_values

  unfoldable pub rule_providers : Option Raw → String → Parsed (List String)
  rule_providers none path = parsed cvss_providers
  rule_providers (some (array raws)) path =
      if is_nil (items_of raws)
      then fail path "must be a nonempty list of CVSS providers"
      else distinct_items (λ raw i. enum raw (at path i) (itself cvss_providers)) (λ p. p) 0
          (items_of raws) []
  rule_providers (some _) path = fail path "must be a nonempty list of CVSS providers"

  unfoldable pub rule_channels : Option Raw → String → Parsed (List String)
  rule_channels none path = fail path "is required"
  rule_channels (some (array raws)) path =
      if is_nil (items_of raws)
      then fail path "must be a nonempty list of channel names"
      else distinct_items (λ raw i. item_text raw (at path i)) (λ c. c) 0 (items_of raws) []
  rule_channels (some _) path = fail path "must be a nonempty list of channel names"

  abbrev pub known_keys : Entries → String → Parsed {0} Unit
  known_keys raw path =
      let unknown = sorted_keys (select (λ k. not (member k rule_keys)) (keys_of raw)) in
      if is_nil unknown
      then parsed tt
      else fail path (concat ("has unknown key " ∷ join ", " (map reader.repr unknown) ∷ []))

  -- The checks on the stripped name; `names` are the case folds of the names before.
  abbrev pub named : Option Raw → String → List String → Parsed String
  named (some (text value)) path names =
      let name = py.strip value in
      if starts_with name "@"
      then fail (concat (path ∷ ".name" ∷ []))
          "must not start with @; @-prefixed names are reserved"
      else if not (reader.matches_name name)
      then fail (concat (path ∷ ".name" ∷ [])) (
          concat (
            "must start with a letter or digit and contain at most 64 "
            ∷ "letters, digits, spaces, underscores, dots or hyphens" ∷ []))
      else if member (py.casefold name) names
      then fail path (concat ("duplicate watch rule name " ∷ reader.repr name ∷ []))
      else parsed name
  named _ path names = fail (concat (path ∷ ".name" ∷ [])) "is required"

  abbrev pub is_enabled : Option Raw → String → Parsed Bool
  is_enabled none path = parsed true
  is_enabled (some (boolean value)) path = parsed value
  is_enabled (some _) path = fail path "must be true or false"

  abbrev pub condition_of : Option Raw → String → Parsed Condition
  condition_of none path = fail path "is required"
  condition_of (some raw) path = parse_condition raw path

  abbrev pub labelled : String → String → String
  labelled name part = concat ("watch rule " ∷ reader.repr name ∷ part ∷ [])

  -- The body of the loop of `parse_rules`.
  unfoldable pub parse_rule : Raw → String → List String → Parsed Rule
  parse_rule (table raw) path names = known_keys raw path >>= λ _.
      named (entry_of "name" raw) path names >>= λ name.
      is_enabled (entry_of "enabled" raw) (labelled name " enabled") >>= λ enabled.
      condition_of (entry_of "condition" raw) (labelled name " condition") >>= λ condition.
      rule_channels (entry_of "channels" raw) (labelled name " channels") >>= λ channels.
      rule_events (entry_of "events" raw) (labelled name " events") >>= λ events.
      rule_providers (entry_of "cvss_providers" raw) (labelled name " cvss_providers")
      >>= λ providers.
          rule_old_cves (entry_of "old_cves" raw) (labelled name " old_cves") >>= λ old_cves.
          parsed (record {
            name = name;
            condition = condition;
            channels = channels;
            events = events;
            cvss_providers = providers;
            enabled = enabled;
            old_cves = old_cves;
          })
  parse_rule _ path names = fail path "must be a table"

  unfoldable pub parse_each : String → ℕ → List Raw → List String → Parsed (List Rule)
  parse_each path index [] names = parsed []
  parse_each path index (raw ∷ raws) names = parse_rule raw (at path index) names >>= λ rule.
      parse_each path (suc index) raws (py.casefold rule.name ∷ names) >>= λ rules.
      parsed (rule ∷ rules)

  unfoldable pub parse_rules : Option Raw → String → Parsed (List Rule)
  parse_rules none path = parsed []
  parse_rules (some (array raws)) path = parse_each path 0 (items_of raws) []
  parse_rules (some _) path = fail path "must be an array of tables"
