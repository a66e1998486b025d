-- ===== src/Watch/Rules/Sources/Needs.antt =====
-- What a rule needs of the sources, said by the places where its leaves stand, and that
-- `contains_leaf` finds them.
use mathlib.Core.List.{Memᴰ}
use cvebeacon.Prelude.{
  ℕ, String, ◌≡◌, refl, ap, Bool, true, List, [], ◌∷◌, arith, any, Bool-cases, inl, inr, All, subst,
  all, str_eq, eq_iff,
}
use cvebeacon.Watch.Rules.Data.{
  Leaf, kev, epss_min, eu, Condition, leaf, all_of, any_of, not_of, Conditions, nil, cons, Rule,
}
use cvebeacon.Watch.Rules.Sources.{
  is_eu_kev, is_epss_min, contains_leaf, one_contains_leaf, only_euvd,
}

-- A node among the children of another.
pub data Child (c : Condition) : Conditions → Type 0 where
  first : {cs : Conditions} → Child c (cons c cs)
  later : {d : Condition} {cs : Conditions} → Child c cs → Child c (cons d cs)

-- A leaf stands somewhere in a tree.
pub data Occurs (l : Leaf) : Condition → Type 0 where
  in_leaf : {ls : List Leaf} → Memᴰ l ls → Occurs l (leaf ls)
  under_all : {c : Condition} {cs : Conditions} → Child c cs → Occurs l c → Occurs l (all_of cs)
  under_any : {c : Condition} {cs : Conditions} → Child c cs → Occurs l c → Occurs l (any_of cs)
  under_not : {c : Condition} → Occurs l c → Occurs l (not_of c)

-- A rule needs a source: the EU catalogue or the EPSS scores for a leaf anywhere in its tree, or
-- the EUVD for its scores, when it chooses no other provider.
pub data Uses (rule : Rule) (source : String) : Type 0 where
  eu_catalog : source ≡ "eu_kev" → Occurs (kev eu) rule.condition → Uses rule source
  epss_score :
      (floor : ℕ) → source ≡ "epss" → Occurs (epss_min floor) rule.condition → Uses rule source
  euvd_only :
      (provider : String) (others : List String)
      → source ≡ "euvd"
      → rule.cvss_providers ≡ provider ∷ others
      → All (λ p. p ≡ "euvd") (provider ∷ others)
      → Uses rule source

module _ (asked : Leaf → Bool) where
  Memᴰ-any : (l : Leaf) (ls : List Leaf) → Memᴰ l ls → asked l ≡ true → any asked ls ≡ true
  Memᴰ-any l [] m h = elim m [ ]
  Memᴰ-any l (k ∷ ls) (Memᴰ.head e) h = ground (arith, ap asked e, h)
  Memᴰ-any l (k ∷ ls) (Memᴰ.tail m) h = ground (arith, Memᴰ-any l ls m h)

  any-Memᴰ : (ls : List Leaf) → any asked ls ≡ true → (l : Leaf) × (asked l ≡ true) × Memᴰ l ls
  any-Memᴰ [] h = absurd (ground (arith, h))
  any-Memᴰ (l ∷ ls) h = elim (Bool-cases (asked l)) [
    | inl e ↦ (l, e, Memᴰ.head refl)
    | inr e ↦ let (k, f, m) = any-Memᴰ ls (ground arith) in (k, f, Memᴰ.tail m)
  ]

  Child-contains :
      {c : Condition} {cs : Conditions}
      → Child c cs
      → contains_leaf asked c ≡ true
      → one_contains_leaf asked cs ≡ true
  unfolding contains_leaf
  Child-contains first h = ground (arith, h)
  Child-contains (later m) h = ground (arith, Child-contains m h)

  pub Occurs-contains :
      {l : Leaf} {c : Condition} → Occurs l c → asked l ≡ true → contains_leaf asked c ≡ true
  unfolding contains_leaf
  Occurs-contains (in_leaf m) h = Memᴰ-any _ _ m h
  Occurs-contains (under_all m o) h = Child-contains m (Occurs-contains o h)
  Occurs-contains (under_any m o) h = Child-contains m (Occurs-contains o h)
  Occurs-contains (under_not o) h = Occurs-contains o h

  mutual
    unfolding contains_leaf

    contains-Occurs :
        (c : Condition) → contains_leaf asked c ≡ true → (l : Leaf) × (asked l ≡ true) × Occurs l c
    contains-Occurs (leaf ls) h = let (l, e, m) = any-Memᴰ ls h in (l, e, in_leaf m)
    contains-Occurs (all_of cs) h =
        let (c, m, l, e, o) = one_contains-Occurs cs h in (l, e, under_all m o)
    contains-Occurs (any_of cs) h =
        let (c, m, l, e, o) = one_contains-Occurs cs h in (l, e, under_any m o)
    contains-Occurs (not_of c) h = let (l, e, o) = contains-Occurs c h in (l, e, under_not o)

    one_contains-Occurs :
        (cs : Conditions)
        → one_contains_leaf asked cs ≡ true
        → (c : Condition) × Child c cs × (l : Leaf) × (asked l ≡ true) × Occurs l c
    one_contains-Occurs nil h = absurd (ground (arith, h))
    one_contains-Occurs (cons c cs) h = elim (Bool-cases (contains_leaf asked c)) [
      | inl e ↦ let (l, f, o) = contains-Occurs c e in (c, first, l, f, o)
      | inr e ↦
          let (d, m, l, f, o) = one_contains-Occurs cs (ground (arith, h, e)) in
          (d, later m, l, f, o)
    ]

eu_kev-leaf : (l : Leaf) → is_eu_kev l ≡ true → l ≡ kev eu
eu_kev-leaf (kev eu) h = refl
eu_kev-leaf l h = absurd (ground (arith, h))

epss_min-leaf : (l : Leaf) → is_epss_min l ≡ true → (floor : ℕ) × (l ≡ epss_min floor)
epss_min-leaf (epss_min floor) h = (floor, refl)
epss_min-leaf l h = absurd (ground (arith, h))

all-All : (ps : List String) → all (λ p. str_eq p "euvd") ps ≡ true → All (λ p. p ≡ "euvd") ps
all-All [] h = tt
all-All (p ∷ ps) h = ((eq_iff p "euvd").0 (ground arith), all-All ps (ground arith))

All-all : (ps : List String) → All (λ p. p ≡ "euvd") ps → all (λ p. str_eq p "euvd") ps ≡ true
All-all [] h = refl
All-all (p ∷ ps) h = ground (arith, (eq_iff p "euvd").1 h.0, All-all ps h.1)

pub contains-eu_kev : (c : Condition) → contains_leaf is_eu_kev c ≡ true → Occurs (kev eu) c
contains-eu_kev c h =
    let (l, e, o) = contains-Occurs is_eu_kev c h in subst (λ k. Occurs k c) (eu_kev-leaf l e) o

pub contains-epss_min :
    (c : Condition) → contains_leaf is_epss_min c ≡ true → (floor : ℕ) × Occurs (epss_min floor) c
contains-epss_min c h =
    let (l, e, o) = contains-Occurs is_epss_min c h in
    let (floor, same) = epss_min-leaf l e in (floor, subst (λ k. Occurs k c) same o)

pub only_euvd-Uses :
    (rule : Rule) (ps : List String)
    → rule.cvss_providers ≡ ps
    → only_euvd ps ≡ true
    → Uses rule "euvd"
only_euvd-Uses rule [] e h = absurd (ground (arith, h))
only_euvd-Uses rule (p ∷ ps) e h = euvd_only p ps refl e (all-All (p ∷ ps) (ground arith))

pub All-only_euvd :
    (p : String) (ps : List String) → All (λ q. q ≡ "euvd") (p ∷ ps) → only_euvd (p ∷ ps) ≡ true
All-only_euvd p ps h = ground (arith, All-all (p ∷ ps) h)
