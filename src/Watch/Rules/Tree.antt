-- ===== src/Watch/Rules/Tree.antt =====
-- watch/rules.py: the evaluation and the description of a condition tree.
mod Reasons
pub mod Meaning
use Prim.Native.String
use text.Mathlib.Text.{starts_with}
use cvebeacon.Prelude.{
  ℕ, String, Bool, true, false, Option, none, some, List, [], ◌∷◌, ◌++◌, ◌&&◌, str_eq,
  if◌then◌else◌, map, member, concat, join, ends_with, PyText,
}
use cvebeacon.Watch.Records.{WatchView}
use cvebeacon.Watch.Rules.Data.{
  Leaf, cvss_min, cvss_max, epss_min, kev, exploitation, vendor, product, keyword, cwe, cna, status,
  KevCatalog, cisa, eu, any_catalog, Wanted, poc_or_active, only_active, Rule, Condition, leaf,
  all_of, any_of, not_of, Conditions, nil, cons,
}
use cvebeacon.Watch.Rules.Match.{matches_leaf, status_text}

abbrev catalog_text : KevCatalog → String
catalog_text cisa = "cisa"
catalog_text eu = "eu"
catalog_text any_catalog = "any"

abbrev wanted_text : Wanted → String
wanted_text poc_or_active = "poc"
wanted_text only_active = "active"

abbrev bracketed : String → List String → String
bracketed label values = concat (label ∷ " [" ∷ join ", " values ∷ "]" ∷ [])

-- `if reason is not None and reason not in reasons: reasons.append(reason)`
pub add_reason : String → List String → List String
add_reason reason reasons = if member reason reasons then reasons else reasons ++ reason ∷ []

abbrev pub add_optional : Option String → List String → List String
add_optional none reasons = reasons
add_optional (some reason) reasons = add_reason reason reasons

-- `for reason in child_reasons: ...`
pub add_reasons : List String → List String → List String
unfolding add_reason
add_reasons [] reasons = reasons
add_reasons (r ∷ rs) reasons = add_reasons rs (add_reason r reasons)

abbrev is_compound : Condition → Bool
is_compound (leaf (a ∷ b ∷ ls)) = true
is_compound _ = false

module _ ⦃py : PyText⦄ where
  describe_leaf : Leaf → String
  describe_leaf (cvss_min value) = concat ("cvss >= " ∷ py.str_float value ∷ [])
  describe_leaf (cvss_max value) = concat ("cvss <= " ∷ py.str_float value ∷ [])
  describe_leaf (epss_min value) = concat ("epss >= " ∷ py.str_float value ∷ [])
  describe_leaf (kev value) = concat ("kev " ∷ catalog_text value ∷ [])
  describe_leaf (exploitation value) = concat ("exploitation " ∷ wanted_text value ∷ [])
  describe_leaf (vendor value) = bracketed "vendor in" value
  describe_leaf (product value) = bracketed "product in" value
  describe_leaf (keyword value) = bracketed "keyword contains" value
  describe_leaf (cwe value) = bracketed "cwe in" value
  describe_leaf (cna value) = bracketed "cna in" value
  describe_leaf (status value) = concat ("status = " ∷ status_text value ∷ [])

  abbrev negated : String → String
  negated inner =
      if starts_with inner "(" && ends_with ")" inner
      then concat ("NOT " ∷ inner ∷ [])
      else concat ("NOT (" ∷ inner ∷ ")" ∷ [])

  unfoldable mutual
    unfolding describe_leaf ends_with

    pub describe_condition : Condition → String
    describe_condition (leaf ls) = join " AND " (map describe_leaf ls)
    describe_condition (all_of cs) = concat ("(" ∷ join " AND " (describe_all cs) ∷ ")" ∷ [])
    describe_condition (any_of cs) = concat ("(" ∷ join " OR " (describe_any cs) ∷ ")" ∷ [])
    describe_condition (not_of c) = negated (describe_condition c)

    pub describe_all : Conditions → List String
    describe_all nil = []
    describe_all (cons c cs) = describe_condition c ∷ describe_all cs

    -- `_describe_any_child`: a leaf of several tests is parenthesised
    pub describe_any : Conditions → List String
    describe_any nil = []
    describe_any (cons c cs) =
        let text = describe_condition c in
        (if is_compound c then concat ("(" ∷ text ∷ ")" ∷ []) else text) ∷ describe_any cs

  -- The loop over the leaves of one node, with the reasons so far.
  pub evaluate_leaves : WatchView → Rule → List Leaf → List String → Bool × List String
  unfolding add_reason
  evaluate_leaves view rule [] reasons = (true, reasons)
  evaluate_leaves view rule (l ∷ ls) reasons =
      let (matched, reason) = matches_leaf view rule l in
      let rest = evaluate_leaves view rule ls (add_optional reason reasons) in
      if matched then rest else (false, [])

  unfoldable mutual
    unfolding evaluate_leaves add_reasons describe_condition

    pub evaluate_condition : WatchView → Rule → Condition → Bool × List String
    evaluate_condition view rule (leaf ls) = evaluate_leaves view rule ls []
    evaluate_condition view rule (all_of cs) = evaluate_all view rule cs []
    evaluate_condition view rule (any_of cs) = evaluate_any view rule cs false []
    evaluate_condition view rule (not_of c) =
        if (evaluate_condition view rule c).0
        then (false, [])
        else (true, concat ("not " ∷ describe_condition c ∷ []) ∷ [])

    -- `for child in condition.children` of an `all` node
    pub evaluate_all : WatchView → Rule → Conditions → List String → Bool × List String
    evaluate_all view rule nil reasons = (true, reasons)
    evaluate_all view rule (cons c cs) reasons =
        let (matched, child_reasons) = evaluate_condition view rule c in
        let rest = evaluate_all view rule cs (add_reasons child_reasons reasons) in
        if matched then rest else (false, [])

    -- the same of an `any` node, with `matched_any`
    pub evaluate_any : WatchView → Rule → Conditions → Bool → List String → Bool × List String
    evaluate_any view rule nil matched_any reasons =
        (matched_any, if matched_any then reasons else [])
    evaluate_any view rule (cons c cs) matched_any reasons =
        let (matched, child_reasons) = evaluate_condition view rule c in
        let hit = evaluate_any view rule cs true (add_reasons child_reasons reasons) in
        let miss = evaluate_any view rule cs matched_any reasons in if matched then hit else miss
