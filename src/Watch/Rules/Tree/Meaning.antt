-- ===== src/Watch/Rules/Tree/Meaning.antt =====
-- What a condition means, and that `evaluate_condition` decides it.
use cvebeacon.Prelude.{
  String, ◌≡◌, refl, Bool, true, false, List, [], ◌∷◌, ◌&&◌, ◌||◌, not, arith, all, PyText,
  if◌then◌else◌, inl, inr, ◌⊎◌,
}
use cvebeacon.Watch.Records.{WatchView}
use cvebeacon.Watch.Rules.Data.{
  Rule, Leaf, Condition, leaf, all_of, any_of, not_of, Conditions, nil, cons,
}
use cvebeacon.Watch.Rules.Match.{matches_leaf}
use cvebeacon.Watch.Rules.Tree.{
  add_optional, add_reasons, evaluate_leaves, evaluate_condition, evaluate_all, evaluate_any,
}
use cvebeacon.Watch.Rules.Tree.Reasons.{IsDistinct, add_optional-IsDistinct, add_reasons-IsDistinct}

module _ ⦃py : PyText⦄ (view : WatchView) (rule : Rule) where
  abbrev pub leaf_holds : Leaf → Bool
  leaf_holds l = (matches_leaf view rule l).0

  -- The Boolean formula that a condition tree stands for.
  unfoldable mutual
    pub holds : Condition → Bool
    holds (leaf ls) = all leaf_holds ls
    holds (all_of cs) = every cs
    holds (any_of cs) = one_of cs
    holds (not_of c) = not (holds c)

    pub every : Conditions → Bool
    every nil = true
    every (cons c cs) = holds c && every cs

    pub one_of : Conditions → Bool
    one_of nil = false
    one_of (cons c cs) = holds c || one_of cs

  leaves-holds :
      (ls : List Leaf) (reasons : List String)
      → (evaluate_leaves view rule ls reasons).0 ≡ all leaf_holds ls
  unfolding evaluate_leaves
  leaves-holds [] reasons = refl
  leaves-holds (l ∷ ls) reasons =
      ground (arith, leaves-holds ls (add_optional (matches_leaf view rule l).1 reasons))

  mutual
    unfolding evaluate_condition holds

    condition-holds : (c : Condition) → (evaluate_condition view rule c).0 ≡ holds c
    condition-holds (leaf ls) = leaves-holds ls []
    condition-holds (all_of cs) = all-every cs []
    condition-holds (any_of cs) = any-one_of cs false []
    condition-holds (not_of c) = ground (arith, condition-holds c)

    all-every :
        (cs : Conditions) (reasons : List String) → (evaluate_all view rule cs reasons).0 ≡ every cs
    all-every nil reasons = refl
    all-every (cons c cs) reasons = ground (
      arith,
      condition-holds c,
      all-every cs (add_reasons (evaluate_condition view rule c).1 reasons),
    )

    any-one_of :
        (cs : Conditions) (hit : Bool) (reasons : List String)
        → (evaluate_any view rule cs hit reasons).0 ≡ (hit || one_of cs)
    any-one_of nil hit reasons = ground arith
    any-one_of (cons c cs) hit reasons = ground (
      arith,
      condition-holds c,
      any-one_of cs true (add_reasons (evaluate_condition view rule c).1 reasons),
      any-one_of cs hit reasons,
    )

-- The reasons that go with a result: distinct, and none without a match.
abbrev pub IsExplained : Bool × List String → Type 0
IsExplained r = IsDistinct r.1 × ((r.0 ≡ true) ⊎ (r.1 ≡ []))

unmatched : IsExplained (false, [])
unmatched = (tt, inr refl)

if-IsExplained :
    (b : Bool) (r s : Bool × List String)
    → IsExplained r
    → IsExplained s
    → IsExplained (if b then r else s)
if-IsExplained true r s hr hs = hr
if-IsExplained false r s hr hs = hs

module _ ⦃py : PyText⦄ (view : WatchView) (rule : Rule) where
  leaves-IsExplained :
      (ls : List Leaf) (reasons : List String)
      → IsDistinct reasons
      → IsExplained (evaluate_leaves view rule ls reasons)
  unfolding evaluate_leaves
  leaves-IsExplained [] reasons d = (d, inl refl)
  leaves-IsExplained (l ∷ ls) reasons d =
      let reason = (matches_leaf view rule l).1 in
      if-IsExplained _ _ _
        (leaves-IsExplained ls (add_optional reason reasons)
          (add_optional-IsDistinct reason reasons d))
        unmatched

  mutual
    unfolding evaluate_condition

    condition-IsExplained : (c : Condition) → IsExplained (evaluate_condition view rule c)
    condition-IsExplained (leaf ls) = leaves-IsExplained ls [] tt
    condition-IsExplained (all_of cs) = all-IsExplained cs [] tt
    condition-IsExplained (any_of cs) = any-IsExplained cs false [] tt
    condition-IsExplained (not_of c) = if-IsExplained _ _ _ unmatched ((refl, tt), inl refl)

    all-IsExplained :
        (cs : Conditions) (reasons : List String)
        → IsDistinct reasons
        → IsExplained (evaluate_all view rule cs reasons)
    all-IsExplained nil reasons d = (d, inl refl)
    all-IsExplained (cons c cs) reasons d =
        let found = (evaluate_condition view rule c).1 in
        if-IsExplained _ _ _
          (all-IsExplained cs (add_reasons found reasons) (add_reasons-IsDistinct found reasons d))
          unmatched

    any-IsExplained :
        (cs : Conditions) (hit : Bool) (reasons : List String)
        → IsDistinct reasons
        → IsExplained (evaluate_any view rule cs hit reasons)
    any-IsExplained nil true reasons d = (d, inl refl)
    any-IsExplained nil false reasons d = (tt, inr refl)
    any-IsExplained (cons c cs) hit reasons d =
        let found = (evaluate_condition view rule c).1 in
        if-IsExplained _ _ _
          (any-IsExplained cs true (add_reasons found reasons)
            (add_reasons-IsDistinct found reasons d))
          (any-IsExplained cs hit reasons d)

-- A condition tree matches exactly when the Boolean formula that it stands for is true; the
-- reasons that are given are distinct, and there are none unless it matches.
pub evaluate_condition_lem :
    ⦃py : PyText⦄ (view : WatchView) (rule : Rule) (c : Condition)
    → ((evaluate_condition view rule c).0 ≡ holds view rule c)
      × IsExplained (evaluate_condition view rule c)
evaluate_condition_lem view rule c =
    (condition-holds view rule c, condition-IsExplained view rule c)
