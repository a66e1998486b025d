-- ===== src/Watch/Rules/Hash/Determines.antt =====
-- watch/rules.py: the value that is hashed tells the condition and the providers.
use cvebeacon.Prelude.{ℕ, String, ◌≡◌, refl, sym, ap, ◌∙◌, List, [], ◌∷◌, str_eq, if◌then◌else◌}
use cvebeacon.Watch.Records.{Status}
use cvebeacon.Watch.Rules.Data.{
  Leaf, cvss_min, cvss_max, epss_min, kev, exploitation, vendor, product, keyword, cwe, cna, status,
  KevCatalog, cisa, eu, any_catalog, Wanted, poc_or_active, only_active, Condition, leaf, all_of,
  any_of, not_of, Conditions, nil, cons, Rule,
}
use cvebeacon.Watch.Rules.Hash.{
  Payload, number, text, array, object, Payloads, empty, item, last, member, kev_text, wanted_text,
  status_text, text_items, leaf_payload, leaf_items, condition_payload, child_payloads,
  rule_payload,
}

-- The readers below are for the payloads of conditions only; elsewhere their values do not matter.
kev_of : String → KevCatalog
kev_of s = if str_eq s "cisa" then cisa else if str_eq s "eu" then eu else any_catalog

wanted_of : String → Wanted
wanted_of s = if str_eq s "poc" then poc_or_active else only_active

status_of : String → Status
status_of s = if str_eq s "published" then Status.published else Status.rejected

kev_of-text : (k : KevCatalog) → kev_of (kev_text k) ≡ k
unfolding kev_of
kev_of-text cisa = refl
kev_of-text eu = refl
kev_of-text any_catalog = refl

wanted_of-text : (w : Wanted) → wanted_of (wanted_text w) ≡ w
unfolding wanted_of
wanted_of-text poc_or_active = refl
wanted_of-text only_active = refl

status_of-text : (s : Status) → status_of (status_text s) ≡ s
unfolding status_of
status_of-text Status.published = refl
status_of-text Status.rejected = refl

texts_in : Payloads → List String
texts_in empty = []
texts_in (item (text s) rest) = s ∷ texts_in rest
texts_in (item _ rest) = texts_in rest

texts_in-items : (ss : List String) → texts_in (text_items ss) ≡ ss
unfolding texts_in
texts_in-items [] = refl
texts_in-items (s ∷ ss) = ap (λ rest. s ∷ rest) (texts_in-items ss)

number_leaf : String → ℕ → Leaf
number_leaf key n =
    if str_eq key "cvss_min"
    then cvss_min n
    else if str_eq key "cvss_max"
    then cvss_max n
    else epss_min n

text_leaf : String → String → Leaf
text_leaf key s =
    if str_eq key "kev"
    then kev (kev_of s)
    else if str_eq key "exploitation"
    then exploitation (wanted_of s)
    else status (status_of s)

list_leaf : String → List String → Leaf
list_leaf key ss =
    if str_eq key "vendor"
    then vendor ss
    else if str_eq key "product"
    then product ss
    else if str_eq key "keyword"
    then keyword ss
    else if str_eq key "cwe"
    then cwe ss
    else cna ss

leaf_in : Payload → Leaf
leaf_in (array (item (text key) (item (number n) empty))) = number_leaf key n
leaf_in (array (item (text key) (item (text s) empty))) = text_leaf key s
leaf_in (array (item (text key) (item (array ss) empty))) = list_leaf key (texts_in ss)
leaf_in _ = cvss_min 0

leaf_in-payload : (l : Leaf) → leaf_in (leaf_payload l) ≡ l
unfolding leaf_in number_leaf text_leaf list_leaf
leaf_in-payload (cvss_min n) = refl
leaf_in-payload (cvss_max n) = refl
leaf_in-payload (epss_min n) = refl
leaf_in-payload (kev k) = ap kev (kev_of-text k)
leaf_in-payload (exploitation w) = ap exploitation (wanted_of-text w)
leaf_in-payload (vendor ss) = ap vendor (texts_in-items ss)
leaf_in-payload (product ss) = ap product (texts_in-items ss)
leaf_in-payload (keyword ss) = ap keyword (texts_in-items ss)
leaf_in-payload (cwe ss) = ap cwe (texts_in-items ss)
leaf_in-payload (cna ss) = ap cna (texts_in-items ss)
leaf_in-payload (status s) = ap status (status_of-text s)

leaves_in : Payloads → List Leaf
leaves_in empty = []
leaves_in (item p rest) = leaf_in p ∷ leaves_in rest

leaves_in-items : (ls : List Leaf) → leaves_in (leaf_items ls) ≡ ls
unfolding leaves_in
leaves_in-items [] = refl
leaves_in-items (l ∷ ls) =
    ap (λ k. k ∷ leaves_in (leaf_items ls)) (leaf_in-payload l)
    ∙ ap (λ rest. l ∷ rest) (leaves_in-items ls)

mutual
  condition_in : Payload → Condition
  condition_in (object (member key (array ps) last)) =
      let below = conditions_in ps in
      if str_eq key "leaf"
      then leaf (leaves_in ps)
      else if str_eq key "all"
      then all_of below
      else any_of below
  condition_in (object (member key (object ms) last)) = not_of (condition_in (object ms))
  condition_in _ = leaf []

  conditions_in : Payloads → Conditions
  conditions_in empty = nil
  conditions_in (item p rest) = cons (condition_in p) (conditions_in rest)

mutual
  unfolding condition_payload condition_in leaves_in

  condition_in-payload : (c : Condition) → condition_in (condition_payload c) ≡ c
  condition_in-payload (leaf ls) = ap leaf (leaves_in-items ls)
  condition_in-payload (all_of cs) = ap all_of (conditions_in-payloads cs)
  condition_in-payload (any_of cs) = ap any_of (conditions_in-payloads cs)
  condition_in-payload (not_of (leaf ls)) = ap not_of (condition_in-payload (leaf ls))
  condition_in-payload (not_of (all_of cs)) = ap not_of (condition_in-payload (all_of cs))
  condition_in-payload (not_of (any_of cs)) = ap not_of (condition_in-payload (any_of cs))
  condition_in-payload (not_of (not_of c)) = ap not_of (condition_in-payload (not_of c))

  conditions_in-payloads : (cs : Conditions) → conditions_in (child_payloads cs) ≡ cs
  conditions_in-payloads nil = refl
  conditions_in-payloads (cons c cs) =
      ap (λ d. cons d (conditions_in (child_payloads cs))) (condition_in-payload c)
      ∙ ap (λ ds. cons c ds) (conditions_in-payloads cs)

condition_of : Payload → Condition
condition_of (object (member key p rest)) = condition_in p
condition_of _ = leaf []

providers_of : Payload → List String
providers_of (object (member key p (member key' (array ps) rest))) = texts_in ps
providers_of _ = []

-- Two rules whose hashed values are the same have the same condition and the same providers.
pub rule_payload-determines :
    (r s : Rule)
    → rule_payload r ≡ rule_payload s
    → (r.condition ≡ s.condition) × (r.cvss_providers ≡ s.cvss_providers)
unfolding rule_payload condition_of providers_of
rule_payload-determines r s h = (
  sym (condition_in-payload r.condition) ∙ ap condition_of h ∙ condition_in-payload s.condition,
  sym (texts_in-items r.cvss_providers) ∙ ap providers_of h ∙ texts_in-items s.cvss_providers,
)
