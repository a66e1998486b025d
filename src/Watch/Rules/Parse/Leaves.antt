-- ===== src/Watch/Rules/Parse/Leaves.antt =====
-- watch/rules.py: `_strings`, `_cwe_values` and `_leaf_value`.
use cvebeacon.Prelude.{
  ℕ, suc, String, none, some, List, [], ◌∷◌, concat, truthy, ltb, is_nil, length, str_eq,
  if◌then◌else◌, PyText,
}
use cvebeacon.Watch.Records.{Status}
use cvebeacon.Watch.Rules.Data.{
  Leaf, cvss_min, cvss_max, epss_min, kev, exploitation, vendor, product, keyword, cwe, cna, status,
  KevCatalog, cisa, eu, any_catalog, Wanted, poc_or_active, only_active,
}
use cvebeacon.Watch.Rules.Parse.{
  Raw, natural, negative_int, text, array, items_of, Parsed, parsed, ◌>>=◌, fail, PyReader, str_len,
  max_list_items, max_string, at, number, enum, distinct_items,
}

module _ ⦃py : PyText⦄ ⦃reader : PyReader⦄ where
  -- The checks on a text that has been stripped.
  abbrev pub checked : String → String → Parsed String
  checked t path =
      if truthy t
      then if ltb max_string (str_len t)
        then fail path "must be at most 200 characters"
        else parsed t
      else fail path "must not be empty"

  abbrev pub item_text : Raw → String → Parsed String
  item_text (text value) path = checked (py.strip value) path
  item_text _ path = fail path "must be a string"

  -- `f"CWE-{number}"`
  abbrev pub cwe_name : ℕ → String
  cwe_name n = concat ("CWE-" ∷ reader.str_int n ∷ [])

  abbrev pub normalized : String → String → Parsed String
  normalized path t = elim (reader.cwe_number t) [
    | none ↦ fail path "must be a CWE number such as 79, cwe-79 or CWE-79"
    | some n ↦ parsed (cwe_name n)
  ]

  abbrev pub item_cwe : Raw → String → Parsed String
  item_cwe (text value) path = checked (py.strip value) path >>= normalized path
  item_cwe (natural n) path = checked (py.strip (reader.str_int n)) path >>= normalized path
  item_cwe (negative_int n) path =
      checked (py.strip (concat ("-" ∷ reader.str_int (suc n) ∷ []))) path >>= normalized path
  item_cwe _ path = fail path "must be a CWE number or string"

  -- The checks on the list itself, then the loop over its items.
  abbrev pub listed : String → (Raw → String → Parsed String) → Raw → String → Parsed (List String)
  listed wanted read (array raws) path =
      if is_nil (items_of raws)
      then fail path "must contain at least one item"
      else if ltb max_list_items (length (items_of raws))
      then fail path "must contain at most 100 items"
      else distinct_items (λ raw index. read raw (at path index)) py.casefold 0 (items_of raws) []
  listed wanted read _ path = fail path wanted

  unfoldable pub strings : Raw → String → Parsed (List String)
  strings value path = listed "must be a list of strings" item_text value path

  unfoldable pub cwe_values : Raw → String → Parsed (List String)
  cwe_values value path = listed "must be a list of CWE identifiers" item_cwe value path

  abbrev pub kev_values : List (String × KevCatalog)
  kev_values = ("cisa", cisa) ∷ ("eu", eu) ∷ ("any", any_catalog) ∷ []

  abbrev pub exploitation_values : List (String × Wanted)
  exploitation_values = ("poc", poc_or_active) ∷ ("active", only_active) ∷ []

  abbrev pub status_values : List (String × Status)
  status_values = ("published", Status.published) ∷ ("rejected", Status.rejected) ∷ []

  abbrev pub built {ℓ} : {A : Type ℓ} → (A → Leaf) → Parsed A → Parsed Leaf
  built make e = e >>= λ a. parsed (make a)

  -- `_leaf_value(key, value, path)`, paired with its key.
  unfoldable pub leaf_value : String → Raw → String → Parsed Leaf
  leaf_value key value path =
      if str_eq key "cvss_min"
      then built cvss_min (number value path 10000000)
      else if str_eq key "cvss_max"
      then built cvss_max (number value path 10000000)
      else if str_eq key "epss_min"
      then built epss_min (number value path 1000000)
      else if str_eq key "kev"
      then built kev (enum value path kev_values)
      else if str_eq key "exploitation"
      then built exploitation (enum value path exploitation_values)
      else if str_eq key "cwe"
      then built cwe (cwe_values value path)
      else if str_eq key "vendor"
      then built vendor (strings value path)
      else if str_eq key "product"
      then built product (strings value path)
      else if str_eq key "keyword"
      then built keyword (strings value path)
      else if str_eq key "cna"
      then built cna (strings value path)
      else if str_eq key "status"
      then built status (enum value path status_values)
      else fail path "is not a known condition key"
