-- ===== src/Scan/Merge/Order.antt =====
-- reconcile.py: what a merged record keeps, whatever the order of the sources.
use mathlib.Core.List.{Memᴰ}
use cvebeacon.Prelude.{
  ℕ, ◌≤◌, String, ◌≡◌, refl, sym, ap, ◌∙◌, Bool, true, false, Option, none, some, List, [], ◌∷◌,
  ◌||◌, arith, any, any_same, IsSame, inl, inr, Bool-cases, member, member-insert_sorted,
}
use cvebeacon.Scan.Reconcile.{Vulnerability}
use cvebeacon.Scan.Merge.{
  rank, precedes, insert_item, sorted_items, flag_of, says, texts_of, with_texts, merged,
  merge_sorted, merge_vulnerabilities,
}

any-insert_item :
    (p : Vulnerability → Bool) (v : Vulnerability) (vs : List Vulnerability)
    → any p (insert_item v vs) ≡ any p (v ∷ vs)
unfolding insert_item
any-insert_item p v [] = refl
any-insert_item p v (w ∷ ws) = ground (arith, any-insert_item p v ws)

any-sorted_items :
    (p : Vulnerability → Bool) (vs : List Vulnerability) → any p (sorted_items vs) ≡ any p vs
unfolding sorted_items
any-sorted_items p [] = refl
any-sorted_items p (v ∷ vs) =
    ground (arith, any-insert_item p v (sorted_items vs), any-sorted_items p vs)

member-with_texts :
    (t : String) (ts rest : List String)
    → member t (with_texts ts rest) ≡ (member t ts || member t rest)
member-with_texts t [] rest = refl
member-with_texts t (s ∷ ts) rest =
    ground (arith, member-insert_sorted t s (with_texts ts rest), member-with_texts t ts rest)

member-texts_of :
    (field : Vulnerability → List String) (t : String) (vs : List Vulnerability)
    → member t (texts_of field vs) ≡ any (λ v. member t (field v)) vs
unfolding texts_of
member-texts_of field t [] = refl
member-texts_of field t (v ∷ vs) =
    ground (arith, member-with_texts t (field v) (texts_of field vs), member-texts_of field t vs)

flag_of_same :
    (field : Vulnerability → Option Bool) (vs ws : List Vulnerability)
    → any (λ v. says true (field v)) vs ≡ any (λ v. says true (field v)) ws
    → any (λ v. says false (field v)) vs ≡ any (λ v. says false (field v)) ws
    → flag_of field vs ≡ flag_of field ws
unfolding flag_of
flag_of_same field vs ws h k = rw h (rw k)

-- The first of the sorted records has the highest score.
abbrev IsTop : List Vulnerability → List Vulnerability → Type 0
IsTop vs [] = (v : Vulnerability) → Memᴰ v vs → ⊥
IsTop vs (top ∷ rest) =
    Memᴰ top vs × ((v : Vulnerability) → Memᴰ v vs → rank v.cvss_score ≤ rank top.cvss_score)

precedes-rank : (v w : Vulnerability) → precedes v w ≡ true → rank w.cvss_score ≤ rank v.cvss_score
unfolding precedes
precedes-rank v w h = ground (arith, h)

not-precedes-rank :
    (v w : Vulnerability) → precedes v w ≡ false → rank v.cvss_score ≤ rank w.cvss_score
unfolding precedes
not-precedes-rank v w h = ground (arith, h)

below-cons :
    (b : ℕ) (x : Vulnerability) (vs : List Vulnerability)
    → rank x.cvss_score ≤ b
    → ((v : Vulnerability) → Memᴰ v vs → rank v.cvss_score ≤ b)
    → (v : Vulnerability) → Memᴰ v (x ∷ vs)
    → rank v.cvss_score ≤ b
below-cons b x vs h each v (Memᴰ.head e) = omega (arith, h, ap (λ w. rank w.cvss_score) e)
below-cons b x vs h each v (Memᴰ.tail m) = each v m

insert_item-IsTop :
    (x : Vulnerability) (vs ys : List Vulnerability)
    → IsTop vs ys
    → IsTop (x ∷ vs) (insert_item x ys)
unfolding insert_item
insert_item-IsTop x vs [] h =
    (Memᴰ.head refl, below-cons (rank x.cvss_score) x vs (omega arith) (λ v m. absurd (h v m)))
insert_item-IsTop x vs (y ∷ ys) (m, top) = elim (Bool-cases (precedes y x)) [
  | inl e ↦ rw e (Memᴰ.tail m, below-cons (rank y.cvss_score) x vs (precedes-rank y x e) top)
  | inr e ↦ rw e (
    Memᴰ.head refl,
    below-cons (rank x.cvss_score) x vs (omega arith)
        (λ v k. omega (arith, not-precedes-rank y x e, top v k)),
  )
]

sorted_items-IsTop : (vs : List Vulnerability) → IsTop vs (sorted_items vs)
unfolding sorted_items
sorted_items-IsTop [] = λ v m. elim m [ ]
sorted_items-IsTop (v ∷ vs) = insert_item-IsTop v vs (sorted_items vs) (sorted_items-IsTop vs)

-- What two records agree on; the texts are compared as sets.
abbrev pub Agrees : Vulnerability → Vulnerability → Type 0
Agrees a b =
    (a.rejected ≡ b.rejected)
    × (a.cisa_kev ≡ b.cisa_kev)
    × (a.eu_kev ≡ b.eu_kev)
    × (rank a.cvss_score ≡ rank b.cvss_score)
    × ((t : String) → member t a.references ≡ member t b.references)
    × ((t : String) → member t a.aliases ≡ member t b.aliases)
    × ((t : String) → member t a.source_ids ≡ member t b.source_ids)
    × ((t : String) → member t a.fixed_versions ≡ member t b.fixed_versions)

module _ (xs ys : List Vulnerability)
    (same : (p : Vulnerability → Bool) → any p xs ≡ any p ys) where
  texts_of_same :
      (field : Vulnerability → List String) (t : String)
      → member t (texts_of field xs) ≡ member t (texts_of field ys)
  texts_of_same field t =
      member-texts_of field t xs ∙ same (λ v. member t (field v)) ∙ sym (member-texts_of field t ys)

  merged-Agrees :
      (a b : Vulnerability)
      → rank a.cvss_score ≡ rank b.cvss_score
      → Agrees (merged a xs) (merged b ys)
  merged-Agrees a b h = (
    same (λ v. v.rejected),
    flag_of_same (λ v. v.cisa_kev) xs ys (same (λ v. says true v.cisa_kev))
        (same (λ v. says false v.cisa_kev)),
    flag_of_same (λ v. v.eu_kev) xs ys (same (λ v. says true v.eu_kev))
        (same (λ v. says false v.eu_kev)),
    h,
    texts_of_same (λ v. v.references),
    texts_of_same (λ v. v.aliases),
    texts_of_same (λ v. v.source_ids),
    texts_of_same (λ v. v.fixed_versions),
  )

-- There are two results that agree, or there is none of either.
abbrev pub SameResult : Option Vulnerability → Option Vulnerability → Type 0
SameResult none none = Unit
SameResult (some a) (some b) = Agrees a b
SameResult _ _ = ⊥

merge_sorted-IsSame :
    (vs ws xs ys : List Vulnerability)
    → IsSame vs ws
    → ((p : Vulnerability → Bool) → any p xs ≡ any p ys)
    → IsTop vs xs
    → IsTop ws ys
    → SameResult (merge_sorted xs) (merge_sorted ys)
merge_sorted-IsSame vs ws [] [] same each top top' = tt
merge_sorted-IsSame vs ws [] (y ∷ ys) same each top (m, top') = top y ((same y).1 m)
merge_sorted-IsSame vs ws (x ∷ xs) [] same each (m, top) top' = top' x ((same x).0 m)
merge_sorted-IsSame vs ws (x ∷ xs) (y ∷ ys) same each (m, top) (m', top') =
    merged-Agrees (x ∷ xs) (y ∷ ys) each x y
      (omega (arith, top y ((same y).1 m'), top' x ((same x).0 m)))

-- Two lists with the same records, in any order and any number of times, merge into records that
-- agree on the rejection, both KEV flags, the highest score and the sets of references, aliases,
-- source identifiers and fixed versions; when one list has no result, neither has the other.
pub merge_vulnerabilities-IsSame :
    (vs ws : List Vulnerability)
    → IsSame vs ws
    → SameResult (merge_vulnerabilities vs) (merge_vulnerabilities ws)
unfolding merge_vulnerabilities
merge_vulnerabilities-IsSame vs ws same =
    merge_sorted-IsSame vs ws (sorted_items vs) (sorted_items ws) same
      (λ p. any-sorted_items p vs ∙ any_same p vs ws same ∙ sym (any-sorted_items p ws))
      (sorted_items-IsTop vs) (sorted_items-IsTop ws)
