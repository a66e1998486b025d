-- ===== src/Watch/Rules/Parse/Tree.antt =====
-- watch/rules.py: `_parse_condition` and `parse_condition`. The source passes the depth of a node,
-- here the number of levels left below it, so that `depth + 1 > MAX_DEPTH` is that none is left.
use Prim.Native.String as Str
use cvebeacon.Prelude.{
  is_less, ℕ, zero, suc, String, Bool, false, Option, none, some, List, [], ◌∷◌, ◌++◌, concat, ltb,
  is_nil, length, not, any, member, str_eq, if◌then◌else◌, PyText,
}
use cvebeacon.Watch.Rules.Data.{
  Leaf, Condition, leaf, all_of, any_of, not_of, Conditions, nil, cons,
}
use cvebeacon.Watch.Rules.Parse.{
  Raw, array, table, Entries, empty, entry, items_of, entry_of, keys_of, Parsed, parsed, ◌>>=◌,
  fail, PyReader, at,
}
use cvebeacon.Watch.Rules.Parse.Leaves.{leaf_value}

abbrev pub max_depth : ℕ
max_depth = 4

abbrev pub max_leaves : ℕ
max_leaves = 32

abbrev pub leaf_keys : List String
leaf_keys =
    "cvss_min" ∷ "cvss_max" ∷ "epss_min" ∷ "kev" ∷ "exploitation" ∷ "vendor" ∷ "product" ∷ "keyword"
    ∷ "cwe" ∷ "cna" ∷ "status" ∷ []

-- The keys "all", "any" and "not".
pub data Connective : Type 0 where
  every some_of negation : Connective

abbrev pub name_of : Connective → String
name_of every = "all"
name_of some_of = "any"
name_of negation = "not"

abbrev pub insert_entry : String → Raw → List (String × Raw) → List (String × Raw)
insert_entry k raw [] = (k, raw) ∷ []
insert_entry k raw ((j, other) ∷ rest) =
    let later = (j, other) ∷ insert_entry k raw rest in
    if is_less (Str.compare k j) then (k, raw) ∷ (j, other) ∷ rest else later

-- `raw[key]` for each key of `sorted(keys)`; the keys of a dict are distinct.
unfoldable pub sorted_entries : Entries → List (String × Raw)
sorted_entries empty = []
sorted_entries (entry k raw rest) = insert_entry k raw (sorted_entries rest)

abbrev pub present : Connective → Entries → List (Connective × Raw)
present key raw = elim (entry_of (name_of key) raw) [ none ↦ [] | some value ↦ (key, value) ∷ [] ]

-- `boolean_keys`, each with its value.
abbrev pub boolean_keys : Entries → List (Connective × Raw)
boolean_keys raw = present every raw ++ present some_of raw ++ present negation raw

abbrev pub others : List (Connective × Raw) → Entries → Bool
others [] raw = false
others ((key, value) ∷ _) raw = any (λ k. not (str_eq k (name_of key))) (keys_of raw)

abbrev pub first {ℓ} : {A : Type ℓ} → List A → Option A
first [] = none
first (a ∷ _) = some a

module _ ⦃py : PyText⦄ ⦃reader : PyReader⦄ where
  -- The checks on the keys of a table; the result is its boolean key, if it has one.
  unfoldable pub node_key : Entries → String → Parsed (Option (Connective × Raw))
  node_key raw path =
      if ltb 1 (length (boolean_keys raw))
      then fail path "must contain exactly one of all, any or not"
      else if others (boolean_keys raw) raw
      then fail path "cannot mix a boolean key with leaf keys"
      else if is_nil (keys_of raw)
      then fail path "must not be empty"
      else parsed (first (boolean_keys raw))

  -- The loop over the keys of a leaf, with the number of leaves so far.
  unfoldable pub leaf_pairs : String → List (String × Raw) → ℕ → Parsed (List Leaf × ℕ)
  leaf_pairs path [] count = parsed ([], count)
  leaf_pairs path ((key, value) ∷ rest) count =
      if not (member key leaf_keys)
      then fail path (concat ("has unknown key " ∷ reader.repr key ∷ []))
      else if ltb max_leaves (suc count)
      then fail path "exceeds the limit of 32 leaves per rule"
      else leaf_value key value (concat (path ∷ "." ∷ key ∷ [])) >>= λ l.
          leaf_pairs path rest (suc count) >>= λ (ls, total). parsed (l ∷ ls, total)

  abbrev pub leaf_node : Entries → String → ℕ → Parsed (Condition × ℕ)
  leaf_node raw path count =
      leaf_pairs path (sorted_entries raw) count >>= λ (ls, total). parsed (leaf ls, total)

  -- The loop over the children of a node; the reader is `_parse_condition` one level down.
  module _ (read : Raw → String → ℕ → Parsed (Condition × ℕ)) where
    unfoldable pub children : String → ℕ → List Raw → ℕ → Parsed (Conditions × ℕ)
    children path index [] count = parsed (nil, count)
    children path index (raw ∷ raws) count = read raw (at path index) count >>= λ (c, after).
        children path (suc index) raws after >>= λ (cs, total). parsed (cons c cs, total)

    abbrev pub child_list : (Conditions → Condition) → Raw → String → ℕ → Parsed (Condition × ℕ)
    child_list make (array raws) path count =
        if is_nil (items_of raws)
        then fail path "must not be empty"
        else children path 0 (items_of raws) count >>= λ (cs, total). parsed (make cs, total)
    child_list make _ path count = fail path "must be a list"

    unfoldable pub boolean_node : Connective × Raw → String → ℕ → Parsed (Condition × ℕ)
    boolean_node (negation, value) path count =
        read value (concat (path ∷ ".not" ∷ [])) count >>= λ (c, total). parsed (not_of c, total)
    boolean_node (every, value) path count =
        child_list all_of value (concat (path ∷ ".all" ∷ [])) count
    boolean_node (some_of, value) path count =
        child_list any_of value (concat (path ∷ ".any" ∷ [])) count

  abbrev pub too_deep {ℓ} : {A : Type ℓ} → String → Parsed A
  too_deep path = fail path "exceeds the nesting depth limit of 4"

  unfoldable pub condition_at : ℕ → Raw → String → ℕ → Parsed (Condition × ℕ)
  condition_at zero (table raw) path count = node_key raw path >>= λ key. elim key [
    | none ↦ leaf_node raw path count
    | some _ ↦ too_deep path
  ]
  condition_at (suc left) (table raw) path count = node_key raw path >>= λ key. elim key [
    | none ↦ leaf_node raw path count
    | some node ↦ boolean_node (condition_at left) node path count
  ]
  condition_at _ _ path count = fail path "must be a table"

  -- `parse_condition(raw, path=path)`
  unfoldable pub parse_condition : Raw → String → Parsed Condition
  parse_condition raw path = condition_at max_depth raw path 0 >>= λ (c, total). parsed c
