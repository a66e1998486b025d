-- ===== src/Watch/Rules/Tree/Reasons.antt =====
-- The lists of reasons that `evaluate_condition` collects hold no reason twice.
use cvebeacon.Prelude.{
  String, ◌≡◌, refl, false, Option, none, some, List, [], ◌∷◌, ◌++◌, str_eq, eq_iff, member, arith,
  Bool-cases, inl, inr,
}
use cvebeacon.Watch.Rules.Tree.{add_reason, add_optional, add_reasons}

-- No text stands twice.
abbrev pub IsDistinct : List String → Type 0
IsDistinct [] = Unit
IsDistinct (s ∷ ss) = (member s ss ≡ false) × IsDistinct ss

member-snoc :
    (s r : String) (ss : List String)
    → member s ss ≡ false
    → str_eq r s ≡ false
    → member s (ss ++ r ∷ []) ≡ false
member-snoc s r [] absent other = rw other refl
member-snoc s r (t ∷ ts) absent other = ground (arith, member-snoc s r ts)

str_eq_comm : (s t : String) → str_eq s t ≡ str_eq t s
str_eq_comm s t = ground (arith, eq_iff s t, eq_iff t s)

IsDistinct-snoc :
    (r : String) (ss : List String)
    → IsDistinct ss
    → member r ss ≡ false
    → IsDistinct (ss ++ r ∷ [])
IsDistinct-snoc r [] d absent = (refl, tt)
IsDistinct-snoc r (s ∷ ss) d absent = (
  member-snoc s r ss d.0 (ground (arith, str_eq_comm r s)),
  IsDistinct-snoc r ss d.1 (ground arith),
)

pub add_reason-IsDistinct :
    (r : String) (ss : List String) → IsDistinct ss → IsDistinct (add_reason r ss)
unfolding add_reason
add_reason-IsDistinct r ss d = elim (Bool-cases (member r ss)) [
  | inl old ↦ rw old d
  | inr new ↦ rw new (IsDistinct-snoc r ss d new)
]

pub add_optional-IsDistinct :
    (o : Option String) (ss : List String) → IsDistinct ss → IsDistinct (add_optional o ss)
add_optional-IsDistinct none ss d = d
add_optional-IsDistinct (some r) ss d = add_reason-IsDistinct r ss d

pub add_reasons-IsDistinct : (rs ss : List String) → IsDistinct ss → IsDistinct (add_reasons rs ss)
unfolding add_reasons
add_reasons-IsDistinct [] ss d = d
add_reasons-IsDistinct (r ∷ rs) ss d =
    add_reasons-IsDistinct rs (add_reason r ss) (add_reason-IsDistinct r ss d)
