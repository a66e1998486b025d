-- ===== src/Watch/Rules/Parse/Shape.antt =====
-- watch/rules.py: the size and the leaves of a condition tree, and what `_parse_condition` makes
-- sure of in a leaf.
use cvebeacon.Prelude.{
  ℕ, zero, suc, ◌+◌, ◌≤◌, max, String, ◌≡◌, false, List, [], ◌∷◌, arith, length, is_nil, All, not,
  member, ltb, PyText,
}
use cvebeacon.Watch.Rules.Data.{
  Leaf, Condition, leaf, all_of, any_of, not_of, Conditions, nil, cons,
}
use cvebeacon.Watch.Rules.Parse.{Raw, Entries, empty, entry, keys_of, PyReader}
use cvebeacon.Watch.Rules.Parse.Leaves.{leaf_value}
use cvebeacon.Watch.Rules.Parse.Tree.{
  max_leaves, leaf_keys, sorted_entries, insert_entry, node_key, leaf_pairs, leaf_node,
  boolean_keys, others,
}
use cvebeacon.Watch.Rules.Parse.Distinct.{Ensures, bind-Ensures, Ensures-parsed, if-Ensures}
use cvebeacon.Watch.Rules.Parse.Accepted.{IsLeaf, leaf_value-IsLeaf}

-- The number of nested boolean nodes.
unfoldable mutual
  pub depth : Condition → ℕ
  depth (leaf ls) = zero
  depth (all_of cs) = suc (deepest cs)
  depth (any_of cs) = suc (deepest cs)
  depth (not_of c) = suc (depth c)

  pub deepest : Conditions → ℕ
  deepest nil = zero
  deepest (cons c cs) = max (depth c) (deepest cs)

-- The number of leaf pairs of a tree.
unfoldable mutual
  pub leaf_count : Condition → ℕ
  leaf_count (leaf ls) = length ls
  leaf_count (all_of cs) = leaf_counts cs
  leaf_count (any_of cs) = leaf_counts cs
  leaf_count (not_of c) = leaf_count c

  pub leaf_counts : Conditions → ℕ
  leaf_counts nil = zero
  leaf_counts (cons c cs) = leaf_count c + leaf_counts cs

abbrev pub HasChild : Conditions → Type 0
HasChild nil = ⊥
HasChild (cons c cs) = Unit

module _ ⦃py : PyText⦄ ⦃reader : PyReader⦄ where
  -- Every node has something below it, and every leaf a value that its key may have.
  unfoldable mutual
    pub IsFilled : Condition → Type 0
    IsFilled (leaf ls) = (1 ≤ length ls) × All IsLeaf ls
    IsFilled (all_of cs) = HasChild cs × AreFilled cs
    IsFilled (any_of cs) = HasChild cs × AreFilled cs
    IsFilled (not_of c) = IsFilled c

    pub AreFilled : Conditions → Type 0
    AreFilled nil = Unit
    AreFilled (cons c cs) = IsFilled c × AreFilled cs

  -- A tree that fits in the levels and the leaves that are left, and the number of leaves after it.
  abbrev pub Fits : ℕ → ℕ → Condition × ℕ → Type 0
  Fits left count (c, total) =
      (depth c ≤ left) × (total ≡ leaf_count c + count) × (total ≤ max_leaves) × IsFilled c

  abbrev pub AllFit : ℕ → ℕ → Conditions × ℕ → Type 0
  AllFit left count (cs, total) =
      (deepest cs ≤ left) × (total ≡ leaf_counts cs + count) × (total ≤ max_leaves) × AreFilled cs

  abbrev LeavesFit : ℕ → ℕ → List Leaf × ℕ → Type 0
  LeavesFit least count (ls, total) =
      (least ≤ length ls) × (total ≡ length ls + count) × (total ≤ max_leaves) × All IsLeaf ls

  leaf_pairs-Fits :
      (path : String) (pairs : List (String × Raw)) (count : ℕ)
      → count ≤ max_leaves
      → Ensures (LeavesFit (length pairs) count) (leaf_pairs path pairs count)
  unfolding leaf_pairs
  leaf_pairs-Fits path [] count h = (omega arith, omega arith, omega arith, tt)
  leaf_pairs-Fits path ((key, value) ∷ rest) count h =
      if-Ensures (LeavesFit (suc (length rest)) count) (not (member key leaf_keys)) _ _ (λ _. tt)
        (λ _.
          if-Ensures (LeavesFit (suc (length rest)) count) (ltb max_leaves (suc count)) _ _
            (λ _. tt)
            (λ k.
              bind-Ensures (LeavesFit (suc (length rest)) count) (leaf_value key value _) _ (λ l e.
                bind-Ensures (LeavesFit (suc (length rest)) count)
                  (leaf_pairs path rest (suc count)) _
                  (λ (ls, total) e'.
                    let (many, sum, few, each) =
                      Ensures-parsed (LeavesFit (length rest) (suc count))
                        (leaf_pairs path rest (suc count)) (ls, total)
                        (leaf_pairs-Fits path rest (suc count) (ground (arith, k))) e' in
                    (
                      omega arith,
                      omega arith,
                      few,
                      (
                        Ensures-parsed IsLeaf (leaf_value key value _) l
                            (leaf_value-IsLeaf key value _) e,
                        each,
                      ),
                    )))))

  insert_entry-nonempty :
      (k : String) (raw : Raw) (pairs : List (String × Raw)) → 1 ≤ length (insert_entry k raw pairs)
  insert_entry-nonempty k raw [] = omega arith
  insert_entry-nonempty k raw ((j, other) ∷ rest) = ground arith

  sorted_entries-nonempty :
      (raw : Entries) → is_nil (keys_of raw) ≡ false → 1 ≤ length (sorted_entries raw)
  unfolding sorted_entries
  sorted_entries-nonempty empty h = absurd (ground (arith, h))
  sorted_entries-nonempty (entry k raw rest) h = insert_entry-nonempty k raw (sorted_entries rest)

  pub node_key-nonempty :
      (raw : Entries) (path : String)
      → Ensures (λ _. is_nil (keys_of raw) ≡ false) (node_key raw path)
  unfolding node_key
  node_key-nonempty raw path =
      if-Ensures (λ _. is_nil (keys_of raw) ≡ false) (ltb 1 (length (boolean_keys raw))) _ _
        (λ _. tt)
        (λ _.
          if-Ensures (λ _. is_nil (keys_of raw) ≡ false) (others (boolean_keys raw) raw) _ _
            (λ _. tt)
            (λ _.
              if-Ensures (λ _. is_nil (keys_of raw) ≡ false) (is_nil (keys_of raw)) _ _ (λ _. tt)
                (λ e. e)))

  pub leaf_node-Fits :
      (raw : Entries) (path : String) (left count : ℕ)
      → count ≤ max_leaves
      → is_nil (keys_of raw) ≡ false
      → Ensures (Fits left count) (leaf_node raw path count)
  unfolding depth leaf_count IsFilled
  leaf_node-Fits raw path left count h k =
      bind-Ensures (Fits left count) (leaf_pairs path (sorted_entries raw) count) _
        (λ (ls, total) e.
          let (many, sum, few, each) =
            Ensures-parsed (LeavesFit (length (sorted_entries raw)) count)
              (leaf_pairs path (sorted_entries raw) count) (ls, total)
              (leaf_pairs-Fits path (sorted_entries raw) count h) e in
          (omega arith, sum, few, (omega (arith, sorted_entries-nonempty raw k), each)))
