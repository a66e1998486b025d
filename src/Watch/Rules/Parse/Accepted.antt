-- ===== src/Watch/Rules/Parse/Accepted.antt =====
-- watch/rules.py: what `_leaf_value` makes sure of in the value of a leaf.
use cvebeacon.Prelude.{
  ℕ, ◌*◌, ◌≤◌, String, ◌≡◌, refl, true, false, List, [], ◌∷◌, arith, length, is_nil, ltb, leb,
  leb→le, truthy, str_eq, PyText,
}
use cvebeacon.Watch.Rules.Data.{
  Leaf, cvss_min, cvss_max, epss_min, kev, exploitation, vendor, product, keyword, cwe, cna, status,
}
use cvebeacon.Watch.Rules.Parse.{
  Raw, natural, negative_int, float, float_limit, text, array, millionths, items_of, Parsed, failed,
  parsed, PyReader, str_len, max_list_items, max_string, at, number, enum, distinct_items,
}
use cvebeacon.Watch.Rules.Parse.Leaves.{
  built, checked, item_text, cwe_name, normalized, item_cwe, listed, strings, cwe_values,
  leaf_value, kev_values, exploitation_values, status_values,
}
use cvebeacon.Watch.Rules.Parse.Distinct.{
  Ensures, bind-Ensures, option-Ensures, both-Ensures, if-Ensures, Kept, distinct_items-Kept,
  distinct_items-nonempty,
}

abbrev pub IsText : String → Type 0
IsText t = (truthy t ≡ true) × (str_len t ≤ max_string)

module _ ⦃py : PyText⦄ ⦃reader : PyReader⦄ where
  -- A list of at least one item and at most 100, each as given and no two with the same case fold.
  abbrev IsList : (String → Type 0) → List String → Type 0
  IsList P values = (1 ≤ length values) × Kept py.casefold P [] max_list_items values

  abbrev IsCwe : String → Type 0
  IsCwe t = (n : ℕ) × (t ≡ cwe_name n)

  -- The value of a leaf is one that its key may have.
  abbrev pub IsLeaf : Leaf → Type 0
  IsLeaf (cvss_min n) = n ≤ 10000000
  IsLeaf (cvss_max n) = n ≤ 10000000
  IsLeaf (epss_min n) = n ≤ 1000000
  IsLeaf (vendor values) = IsList IsText values
  IsLeaf (product values) = IsList IsText values
  IsLeaf (keyword values) = IsList IsText values
  IsLeaf (cna values) = IsList IsText values
  IsLeaf (cwe values) = IsList IsCwe values
  IsLeaf (kev k) = Unit
  IsLeaf (exploitation w) = Unit
  IsLeaf (status s) = Unit

  number-Ensures :
      (raw : Raw) (path : String) (maximum : ℕ)
      → Ensures (λ n. n ≤ maximum) (number raw path maximum)
  unfolding number
  number-Ensures (natural n) path maximum =
      if-Ensures (λ m. m ≤ maximum) (leb float_limit n) _ _ (λ _. tt)
        (λ _.
          if-Ensures (λ m. m ≤ maximum) (leb (n * 1000000) maximum) _ _
            (leb→le (n * 1000000) maximum) (λ _. tt))
  number-Ensures (float (millionths n)) path maximum =
      if-Ensures (λ m. m ≤ maximum) (leb n maximum) _ _ (leb→le n maximum) (λ _. tt)
  number-Ensures _ path maximum = tt

  checked-Ensures : (t path : String) → Ensures IsText (checked t path)
  checked-Ensures t path =
      if-Ensures IsText (truthy t) _ _
        (λ e.
          if-Ensures IsText (ltb max_string (str_len t)) _ _ (λ _. tt)
            (λ k. (e, ground (arith, k))))
        (λ _. tt)

  pub item_text-Ensures : (raw : Raw) (path : String) → Ensures IsText (item_text raw path)
  item_text-Ensures (text t) path = checked-Ensures (py.strip t) path
  item_text-Ensures _ path = tt

  normalized-Ensures : (path t : String) → Ensures IsCwe (normalized path t)
  normalized-Ensures path t =
      option-Ensures IsCwe (reader.cwe_number t) _ (λ n. parsed (cwe_name n)) tt (λ n. (n, refl))

  item_cwe-Ensures : (raw : Raw) (path : String) → Ensures IsCwe (item_cwe raw path)
  item_cwe-Ensures (text t) path =
      bind-Ensures IsCwe (checked (py.strip t) path) _ (λ s _. normalized-Ensures path s)
  item_cwe-Ensures (natural n) path =
      bind-Ensures IsCwe (checked (py.strip (reader.str_int n)) path) _
        (λ s _. normalized-Ensures path s)
  item_cwe-Ensures (negative_int n) path =
      bind-Ensures IsCwe (checked _ path) _ (λ s _. normalized-Ensures path s)
  item_cwe-Ensures _ path = tt

  module _ (P : String → Type 0) (wanted : String) (read : Raw → String → Parsed String)
      (good : (raw : Raw) (path : String) → Ensures P (read raw path)) where
    items-Ensures :
        (path : String) (raws : List Raw)
        → is_nil raws ≡ false
        → length raws ≤ max_list_items
        → Ensures (IsList P) (distinct_items (λ raw i. read raw (at path i)) py.casefold 0 raws [])
    items-Ensures path [] h k = absurd (ground (arith, h))
    items-Ensures path (raw ∷ raws) h k =
        both-Ensures (Kept py.casefold P [] (length (raw ∷ raws))) (λ values. 1 ≤ length values)
          (IsList P) (distinct_items (λ r i. read r (at path i)) py.casefold 0 (raw ∷ raws) [])
          (λ values (each, fresh, few) some_given. (some_given, (each, fresh, omega arith)))
          (distinct_items-Kept py.casefold P (λ r i. read r (at path i)) (λ r i. good r (at path i))
            0 (raw ∷ raws) [])
          (distinct_items-nonempty py.casefold P (λ r i. read r (at path i)) 0 raw raws)

    listed-Ensures : (raw : Raw) (path : String) → Ensures (IsList P) (listed wanted read raw path)
    listed-Ensures (array raws) path =
        if-Ensures (IsList P) (is_nil (items_of raws)) _ _ (λ _. tt)
          (λ e.
            if-Ensures (IsList P) (ltb max_list_items (length (items_of raws))) _ _ (λ _. tt)
              (λ k. items-Ensures path (items_of raws) e (ground (arith, k))))
    listed-Ensures _ path = tt

  strings-Ensures : (raw : Raw) (path : String) → Ensures (IsList IsText) (strings raw path)
  unfolding strings
  strings-Ensures raw path =
      listed-Ensures IsText "must be a list of strings" item_text item_text-Ensures raw path

  cwe_values-Ensures : (raw : Raw) (path : String) → Ensures (IsList IsCwe) (cwe_values raw path)
  unfolding cwe_values
  cwe_values-Ensures raw path =
      listed-Ensures IsCwe "must be a list of CWE identifiers" item_cwe item_cwe-Ensures raw path

  module _ {ℓ} {A : Type ℓ} (make : A → Leaf) (P : A → Type 0) where
    built-Ensures :
        (e : Parsed A)
        → ((a : A) → P a → IsLeaf (make a))
        → Ensures P e
        → Ensures IsLeaf (built make e)
    built-Ensures (failed e) f h = tt
    built-Ensures (parsed a) f h = f a h

  module _ {ℓ} {A : Type ℓ} (make : A → Leaf) where
    chosen-Ensures : (e : Parsed A) → ((a : A) → IsLeaf (make a)) → Ensures IsLeaf (built make e)
    chosen-Ensures (failed e) f = tt
    chosen-Ensures (parsed a) f = f a

  texts-Ensures :
      (make : List String → Leaf) (value : Raw) (path : String)
      → ((values : List String) → IsList IsText values → IsLeaf (make values))
      → Ensures IsLeaf (built make (strings value path))
  texts-Ensures make value path h =
      built-Ensures make (IsList IsText) (strings value path) h (strings-Ensures value path)

  range-Ensures :
      (make : ℕ → Leaf) (maximum : ℕ) (value : Raw) (path : String)
      → ((n : ℕ) → n ≤ maximum → IsLeaf (make n))
      → Ensures IsLeaf (built make (number value path maximum))
  range-Ensures make maximum value path h =
      built-Ensures make (λ n. n ≤ maximum) (number value path maximum) h
        (number-Ensures value path maximum)

  pub leaf_value-IsLeaf :
      (key : String) (value : Raw) (path : String) → Ensures IsLeaf (leaf_value key value path)
  unfolding leaf_value
  leaf_value-IsLeaf key value path =
      if-Ensures IsLeaf (str_eq key "cvss_min") _ _
        (λ _. range-Ensures cvss_min 10000000 value path (λ n h. h))
        (λ _.
          if-Ensures IsLeaf (str_eq key "cvss_max") _ _
            (λ _. range-Ensures cvss_max 10000000 value path (λ n h. h))
            (λ _.
              if-Ensures IsLeaf (str_eq key "epss_min") _ _
                (λ _. range-Ensures epss_min 1000000 value path (λ n h. h))
                (λ _.
                  if-Ensures IsLeaf (str_eq key "kev") _ _
                    (λ _. chosen-Ensures kev (enum value path kev_values) (λ _. tt))
                    (λ _.
                      if-Ensures IsLeaf (str_eq key "exploitation") _ _
                        (λ _.
                          chosen-Ensures exploitation (enum value path exploitation_values)
                            (λ _. tt))
                        (λ _.
                          if-Ensures IsLeaf (str_eq key "cwe") _ _
                            (λ _.
                              built-Ensures cwe (IsList IsCwe) (cwe_values value path) (λ v h. h)
                                (cwe_values-Ensures value path))
                            (λ _.
                              if-Ensures IsLeaf (str_eq key "vendor") _ _
                                (λ _. texts-Ensures vendor value path (λ v h. h))
                                (λ _.
                                  if-Ensures IsLeaf (str_eq key "product") _ _
                                    (λ _. texts-Ensures product value path (λ v h. h))
                                    (λ _.
                                      if-Ensures IsLeaf (str_eq key "keyword") _ _
                                        (λ _. texts-Ensures keyword value path (λ v h. h))
                                        (λ _.
                                          if-Ensures IsLeaf (str_eq key "cna") _ _
                                            (λ _. texts-Ensures cna value path (λ v h. h))
                                            (λ _.
                                              if-Ensures IsLeaf (str_eq key "status") _ _
                                                (λ _.
                                                  chosen-Ensures status
                                                    (enum value path status_values) (λ _. tt))
                                                (λ _. tt)))))))))))
