-- ===== src/Watch/Rules/Parse/Names.antt =====
-- watch/rules.py: what holds of the rules that `parse_rules` returns.
use package.text.Mathlib.Text.{starts_with}
use cvebeacon.Prelude.{
  ℕ, suc, ◌≤◌, String, ◌≡◌, refl, sym, subst, inl, inr, true, false, Option, none, some, List, [],
  ◌∷◌, arith, length, is_nil, All, not, member, PyText,
}
use cvebeacon.Watch.Rules.Data.{EventKind, Rule}
use cvebeacon.Watch.Rules.Parse.{
  Raw, text, array, table, items_of, entry_of, Parsed, failed, parsed, PyReader, at, enum,
  distinct_items,
}
use cvebeacon.Watch.Rules.Parse.Leaves.{item_text}
use cvebeacon.Watch.Rules.Parse.Tree.{parse_condition}
use cvebeacon.Watch.Rules.Parse.Rules.{
  event_values, event_name, cvss_providers, itself, nonempty, rule_events, rule_old_cves,
  rule_providers, rule_channels, known_keys, named, is_enabled, condition_of, parse_rule,
  parse_each, parse_rules,
}
use cvebeacon.Watch.Rules.Parse.Distinct.{
  Ensures, bind-Ensures, bind-both, Ensures-parsed, Parsed-cases, if-Ensures, both-Ensures, AreNew,
  Kept, distinct_items-Kept, distinct_items-nonempty,
}
use cvebeacon.Watch.Rules.Parse.Shape.{depth, leaf_count, IsFilled}
use cvebeacon.Watch.Rules.Parse.Bounds.{parse_condition-IsFilled}

-- At least one item and no key twice.
module _ {ℓ} {A : Type ℓ} (key : A → String) where
  abbrev IsChoice : List A → Type 0
  IsChoice values = (1 ≤ length values) × AreNew key [] values

module _ {ℓ} {A : Type ℓ} where
  anything : (e : Parsed A) → Ensures (λ _. Unit {0}) e
  anything (failed e) = tt
  anything (parsed a) = tt

module _ {ℓ} {A : Type ℓ} (key : A → String) (read : Raw → ℕ → Parsed A) where
  items-IsChoice :
      (raws : List Raw)
      → is_nil raws ≡ false
      → Ensures (IsChoice key) (distinct_items read key 0 raws [])
  items-IsChoice [] h = absurd (ground (arith, h))
  items-IsChoice (raw ∷ raws) h =
      both-Ensures (Kept key (λ _. Unit {0}) [] (suc (length raws))) (λ values. 1 ≤ length values)
        (IsChoice key) (distinct_items read key 0 (raw ∷ raws) [])
        (λ values (each, fresh, few) some_given. (some_given, fresh))
        (distinct_items-Kept key (λ _. Unit) read (λ r i. anything (read r i)) 0 (raw ∷ raws) [])
        (distinct_items-nonempty key (λ _. Unit {0}) read 0 raw raws)

module _ ⦃py : PyText⦄ ⦃reader : PyReader⦄ where
  abbrev pub IsRule : Rule → Type 0
  IsRule r =
      (starts_with r.name "@" ≡ false)
      × (reader.matches_name r.name ≡ true)
      × ((depth r.condition ≤ 4) × (leaf_count r.condition ≤ 32) × IsFilled r.condition)
      × IsChoice (λ c. c) r.channels
      × IsChoice event_name r.events
      × IsChoice (λ p. p) r.cvss_providers

  rule_channels-IsChoice :
      (value : Option Raw) (path : String) → Ensures (IsChoice (λ c. c)) (rule_channels value path)
  unfolding rule_channels
  rule_channels-IsChoice none path = tt
  rule_channels-IsChoice (some (array raws)) path =
      if-Ensures (IsChoice (λ c. c)) (is_nil (items_of raws)) _ _ (λ _. tt)
        (items-IsChoice (λ c. c) (λ raw i. item_text raw (at path i)) (items_of raws))
  rule_channels-IsChoice (some _) path = tt

  rule_providers-IsChoice :
      (value : Option Raw) (path : String) → Ensures (IsChoice (λ p. p)) (rule_providers value path)
  unfolding rule_providers
  rule_providers-IsChoice none path = (omega arith, (refl, (refl, (refl, (refl, (refl, tt))))))
  rule_providers-IsChoice (some (array raws)) path =
      if-Ensures (IsChoice (λ p. p)) (is_nil (items_of raws)) _ _ (λ _. tt)
        (items-IsChoice (λ p. p) (λ raw i. enum raw (at path i) (itself cvss_providers))
          (items_of raws))
  rule_providers-IsChoice (some _) path = tt

  nonempty-IsChoice :
      (kinds : List EventKind) (path : String)
      → AreNew event_name [] kinds
      → Ensures (IsChoice event_name) (nonempty kinds path)
  nonempty-IsChoice [] path h = tt
  nonempty-IsChoice (k ∷ ks) path h = (omega arith, h)

  rule_events-IsChoice :
      (value : Option Raw) (path : String) → Ensures (IsChoice event_name) (rule_events value path)
  unfolding rule_events
  rule_events-IsChoice none path =
      (omega arith, (refl, (refl, (refl, (refl, (refl, (refl, (refl, tt))))))))
  rule_events-IsChoice (some (array raws)) path =
      let read = λ (raw : Raw) (i : ℕ). enum raw (at path i) event_values in
      bind-both (Kept event_name (λ _. Unit {0}) [] (length (items_of raws))) (IsChoice event_name)
        (distinct_items read event_name 0 (items_of raws) []) (λ kinds. nonempty kinds path)
        (distinct_items-Kept event_name (λ _. Unit) read (λ r i. anything (read r i)) 0
          (items_of raws) [])
        (λ kinds (each, fresh, few). nonempty-IsChoice kinds path fresh)
  rule_events-IsChoice (some _) path = tt

  named-Ensures :
      (value : Option Raw) (path : String) (names : List String)
      → Ensures
          (λ name.
            (starts_with name "@" ≡ false)
            × (reader.matches_name name ≡ true)
            × (member (py.casefold name) names ≡ false))
          (named value path names)
  named-Ensures (some (text value)) path names =
      let P = λ (name : String).
        (starts_with name "@" ≡ false)
        × (reader.matches_name name ≡ true)
        × (member (py.casefold name) names ≡ false) in
      if-Ensures P (starts_with (py.strip value) "@") _ _ (λ _. tt)
        (λ a.
          if-Ensures P (not (reader.matches_name (py.strip value))) _ _ (λ _. tt)
            (λ b.
              if-Ensures P (member (py.casefold (py.strip value)) names) _ _ (λ _. tt)
                (λ c. (a, ground (arith, b), c))))
  named-Ensures (some _) path names = tt
  named-Ensures none path names = tt

  condition_of-IsFilled :
      (value : Option Raw) (path : String)
      → Ensures (λ c. (depth c ≤ 4) × (leaf_count c ≤ 32) × IsFilled c) (condition_of value path)
  condition_of-IsFilled none path = tt
  condition_of-IsFilled (some raw) path = elim (Parsed-cases (parse_condition raw path)) [
    | inl (e, h) ↦ subst (Ensures _) (sym h) tt
    | inr (c, h) ↦ subst (Ensures _) (sym h) (parse_condition-IsFilled raw path c h)
  ]

  parse_rule-IsRule :
      (raw : Raw) (path : String) (names : List String)
      → Ensures
          (λ r. IsRule r × (member (py.casefold r.name) names ≡ false))
          (parse_rule raw path names)
  unfolding parse_rule
  parse_rule-IsRule (table raw) path names =
      let P = λ (r : Rule). IsRule r × (member (py.casefold r.name) names ≡ false) in
      bind-Ensures P (known_keys raw path) _ (λ _ _.
        bind-both
          (λ name.
            (starts_with name "@" ≡ false)
            × (reader.matches_name name ≡ true)
            × (member (py.casefold name) names ≡ false))
          P (named (entry_of "name" raw) path names) _
          (named-Ensures (entry_of "name" raw) path names)
          (λ name (plain, matching, fresh).
            bind-Ensures P (is_enabled (entry_of "enabled" raw) _) _ (λ enabled _.
              bind-both (λ c. (depth c ≤ 4) × (leaf_count c ≤ 32) × IsFilled c) P
                (condition_of (entry_of "condition" raw) _) _
                (condition_of-IsFilled (entry_of "condition" raw) _)
                (λ condition filled.
                  bind-both (IsChoice (λ c. c)) P (rule_channels (entry_of "channels" raw) _) _
                    (rule_channels-IsChoice (entry_of "channels" raw) _)
                    (λ channels cs.
                      bind-both (IsChoice event_name) P (rule_events (entry_of "events" raw) _) _
                        (rule_events-IsChoice (entry_of "events" raw) _)
                        (λ events es.
                          bind-both (IsChoice (λ p. p)) P
                            (rule_providers (entry_of "cvss_providers" raw) _) _
                            (rule_providers-IsChoice (entry_of "cvss_providers" raw) _)
                            (λ providers ps.
                              bind-Ensures P (rule_old_cves (entry_of "old_cves" raw) _) _
                                (λ old_cves _.
                                  ((plain, matching, filled, cs, es, ps), fresh)))))))))
  parse_rule-IsRule _ path names = tt

  abbrev pub folded_name : Rule → String
  folded_name r = py.casefold r.name

  parse_each-IsRule :
      (path : String) (index : ℕ) (raws : List Raw) (names : List String)
      → Ensures
          (λ rules. All IsRule rules × AreNew folded_name names rules)
          (parse_each path index raws names)
  unfolding parse_each
  parse_each-IsRule path index [] names = (tt, tt)
  parse_each-IsRule path index (raw ∷ raws) names =
      let P = λ (rules : List Rule). All IsRule rules × AreNew folded_name names rules in
      bind-both (λ r. IsRule r × (member (py.casefold r.name) names ≡ false)) P
        (parse_rule raw (at path index) names) _ (parse_rule-IsRule raw (at path index) names)
        (λ rule (good, fresh).
          bind-both
            (λ rules. All IsRule rules × AreNew folded_name (folded_name rule ∷ names) rules) P
            (parse_each path (suc index) raws (folded_name rule ∷ names)) _
            (parse_each-IsRule path (suc index) raws (folded_name rule ∷ names))
            (λ rules (each, others). ((good, each), (fresh, others))))

  -- The rules that are read from a configuration have names that differ up to case, that match
  -- the pattern of names and do not start with @; each has a condition within the limits, and
  -- channels, events and providers of which there is at least one and none twice.
  pub parse_rules-IsRule :
      (raw : Option Raw) (path : String) (rules : List Rule)
      → parse_rules raw path ≡ parsed rules
      → All IsRule rules × AreNew folded_name [] rules
  unfolding parse_rules
  parse_rules-IsRule none path rules e =
      Ensures-parsed (λ rs. All IsRule rs × AreNew folded_name [] rs) (parsed []) rules (tt, tt) e
  parse_rules-IsRule (some (array raws)) path rules e =
      Ensures-parsed (λ rs. All IsRule rs × AreNew folded_name [] rs)
        (parse_each path 0 (items_of raws) []) rules (parse_each-IsRule path 0 (items_of raws) []) e
  parse_rules-IsRule (some _) path rules e =
      Ensures-parsed (λ rs. All IsRule rs × AreNew folded_name [] rs) (failed _) rules tt e
