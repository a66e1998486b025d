-- ===== src/Watch/Rules/Parse/Bounds.antt =====
-- watch/rules.py: what holds of the conditions that `parse_condition` returns.
use cvebeacon.Prelude.{ℕ, zero, suc, ◌≤◌, String, ◌≡◌, false, List, [], ◌∷◌, arith, is_nil, PyText}
use cvebeacon.Watch.Rules.Data.{Condition, all_of, any_of, Conditions}
use cvebeacon.Watch.Rules.Parse.{Raw, array, table, items_of, keys_of, Parsed, parsed, PyReader, at}
use cvebeacon.Watch.Rules.Parse.Tree.{
  Connective, every, some_of, negation, max_leaves, node_key, children, child_list, too_deep,
  boolean_node, condition_at, parse_condition,
}
use cvebeacon.Watch.Rules.Parse.Distinct.{
  Ensures, bind-Ensures, Ensures-parsed, if-Ensures, option-Ensures,
}
use cvebeacon.Watch.Rules.Parse.Shape.{
  depth, deepest, leaf_count, leaf_counts, HasChild, IsFilled, AreFilled, Fits, AllFit,
  node_key-nonempty, leaf_node-Fits,
}

module _ ⦃py : PyText⦄ ⦃reader : PyReader⦄ where
  module _ (left : ℕ) (read : Raw → String → ℕ → Parsed (Condition × ℕ))
      (good : (raw : Raw) (path : String) (count : ℕ)
        → count ≤ max_leaves
        → Ensures (Fits left count) (read raw path count)) where
    children-Fits :
        (path : String) (index : ℕ) (raws : List Raw) (count : ℕ)
        → count ≤ max_leaves
        → Ensures (AllFit left count) (children read path index raws count)
    unfolding children deepest leaf_counts AreFilled
    children-Fits path index [] count h = (omega arith, omega arith, h, tt)
    children-Fits path index (raw ∷ raws) count h =
        bind-Ensures (AllFit left count) (read raw (at path index) count) _ (λ (c, after) e.
          let (low, sum, few, filled) =
            Ensures-parsed (Fits left count) (read raw (at path index) count) (c, after)
              (good raw _ count h) e in
          bind-Ensures (AllFit left count) (children read path (suc index) raws after) _
            (λ (cs, total) e'.
              let (lows, sums, fews, fills) =
                Ensures-parsed (AllFit left after) (children read path (suc index) raws after)
                  (cs, total) (children-Fits path (suc index) raws after few) e' in
              (omega arith, omega arith, fews, (filled, fills))))

    children-some :
        (path : String) (raws : List Raw) (count : ℕ)
        → is_nil raws ≡ false
        → Ensures (λ (cs, total). HasChild cs) (children read path 0 raws count)
    unfolding children
    children-some path [] count h = absurd (ground (arith, h))
    children-some path (raw ∷ raws) count h =
        bind-Ensures (λ (cs, total). HasChild cs) (read raw (at path 0) count) _
          (λ (c, after) e.
            bind-Ensures (λ (cs, total). HasChild cs) (children read path 1 raws after) _
              (λ _ _. tt))

    module _ (make : Conditions → Condition)
        (fits : (count total : ℕ) (cs : Conditions)
          → HasChild cs
          → AllFit left count (cs, total)
          → Fits (suc left) count (make cs, total)) where
      child_list-Fits :
          (raw : Raw) (path : String) (count : ℕ)
          → count ≤ max_leaves
          → Ensures (Fits (suc left) count) (child_list read make raw path count)
      child_list-Fits (array raws) path count h =
          if-Ensures (Fits (suc left) count) (is_nil (items_of raws)) _ _ (λ _. tt)
            (λ e.
              bind-Ensures (Fits (suc left) count) (children read path 0 (items_of raws) count) _
                (λ (cs, total) k.
                  fits count total cs
                    (Ensures-parsed (λ (ds, _). HasChild ds)
                      (children read path 0 (items_of raws) count) (cs, total)
                      (children-some path (items_of raws) count e) k)
                    (Ensures-parsed (AllFit left count) (children read path 0 (items_of raws) count)
                      (cs, total) (children-Fits path 0 (items_of raws) count h) k)))
      child_list-Fits _ path count h = tt

    boolean_node-Fits :
        (node : Connective × Raw) (path : String) (count : ℕ)
        → count ≤ max_leaves
        → Ensures (Fits (suc left) count) (boolean_node read node path count)
    unfolding boolean_node depth leaf_count leaf_counts IsFilled
    boolean_node-Fits (negation, value) path count h =
        bind-Ensures (Fits (suc left) count) (read value _ count) _ (λ (c, total) e.
          let (low, sum, few, filled) =
            Ensures-parsed (Fits left count) (read value _ count) (c, total) (good value _ count h)
              e in
          (omega arith, sum, few, filled))
    boolean_node-Fits (every, value) path count h =
        child_list-Fits all_of
          (λ n total cs k (low, sum, few, filled). (omega arith, sum, few, (k, filled))) value _
          count h
    boolean_node-Fits (some_of, value) path count h =
        child_list-Fits any_of
          (λ n total cs k (low, sum, few, filled). (omega arith, sum, few, (k, filled))) value _
          count h

  condition_at-Fits :
      (left : ℕ) (raw : Raw) (path : String) (count : ℕ)
      → count ≤ max_leaves
      → Ensures (Fits left count) (condition_at left raw path count)
  unfolding condition_at
  condition_at-Fits zero (table raw) path count h =
      bind-Ensures (Fits zero count) (node_key raw path) _ (λ key e.
        option-Ensures (Fits zero count) key _ (λ _. too_deep path)
          (leaf_node-Fits raw path zero count h (
            Ensures-parsed (λ _. is_nil (keys_of raw) ≡ false) (node_key raw path) key
              (node_key-nonempty raw path) e))
          (λ _. tt))
  condition_at-Fits (suc left) (table raw) path count h =
      bind-Ensures (Fits (suc left) count) (node_key raw path) _ (λ key e.
        option-Ensures (Fits (suc left) count) key _
          (λ node. boolean_node (condition_at left) node path count)
          (leaf_node-Fits raw path (suc left) count h (
            Ensures-parsed (λ _. is_nil (keys_of raw) ≡ false) (node_key raw path) key
              (node_key-nonempty raw path) e))
          (λ node.
            boolean_node-Fits left (condition_at left) (condition_at-Fits left) node path count h))
  condition_at-Fits _ _ path count h = tt

  -- A condition that is read from a configuration has at most four levels of all, any and not and
  -- at most 32 leaf pairs; each of its nodes has something below it, and each leaf value is one
  -- that its key may have: a score within its range, or a list of 1 to 100 items in which no two
  -- are the same up to case, nonempty texts of at most 200 characters or CWE names.
  pub parse_condition-IsFilled :
      (raw : Raw) (path : String) (c : Condition)
      → parse_condition raw path ≡ parsed c
      → (depth c ≤ 4) × (leaf_count c ≤ 32) × IsFilled c
  unfolding parse_condition
  parse_condition-IsFilled raw path c e =
      Ensures-parsed (λ d. (depth d ≤ 4) × (leaf_count d ≤ 32) × IsFilled d)
        (parse_condition raw path) c
        (bind-Ensures (λ d. (depth d ≤ 4) × (leaf_count d ≤ 32) × IsFilled d)
          (condition_at 4 raw path 0) _
          (λ (d, total) k.
            let (low, sum, few, filled) =
              Ensures-parsed (Fits 4 0) (condition_at 4 raw path 0) (d, total)
                (condition_at-Fits 4 raw path 0 (omega arith)) k in
            (low, omega arith, filled)))
        e
