-- ===== src/Scan/Evidence/Settled.antt =====
-- What a definite verdict says of every entry of the record.
use cvebeacon.Prelude.{
  String, ◌≡◌, refl, ap, Bool, true, false, Option, none, some, List, [], ◌∷◌, ◌&&◌, ◌||◌, not,
  str_eq, all, member, arith, eq_iff, truthy, Option-cases, Bool-cases, inl, inr, PyText,
}
use cvebeacon.Scan.Reconcile.{
  Applicability, affected, not_affected, needs_review, coverage_unknown, state_eq,
}
use cvebeacon.Scan.Versions.{VersionText, Entry, known_version, version_entry}
use cvebeacon.Scan.Evidence.{
  Entries, no_list, listed, Product, Seen, Tally, IdentityText, same_identity, is_explicit,
  entry_status, read_entry, read_entries, with_default, read_versions, read_product, read_products,
  verdict, nothing_seen, evaluate_cve_evidence,
}

abbrev is_status : String → Option String → Bool
is_status good none = false
is_status good (some s) = str_eq good s

module _ ⦃py : PyText⦄ ⦃vt : VersionText⦄ where
  -- The entry can be compared, and gives the status if it covers the version.
  abbrev pub is_settled : (version good : String) → Option Entry → Bool
  is_settled version good none = false
  is_settled version good (some e) = elim (version_entry version e) [
    | none ↦ false
    | some false ↦ true
    | some true ↦ is_status good (entry_status version e)
  ]

  abbrev all_settled : (version good : String) → Entries → Bool
  all_settled version good no_list = false
  all_settled version good (listed es) = all (is_settled version good) es

  abbrev product_settled :
      ⦃it : IdentityText⦄ → (vendor product version good : String) → Option Product → Bool
  product_settled vendor product version good none = true
  product_settled vendor product version good (some p) =
      not (same_identity vendor p.vendor && same_identity product p.product)
      || (not p.is_qualified && all_settled version good p.versions)

module _ ⦃py : PyText⦄ ⦃vt : VersionText⦄ (good bad : String)
    (other : (s : String)
      → is_explicit s ≡ true
      → str_eq s bad ≡ false
      → str_eq good s ≡ true) where
  read_entry-settled :
      (version : String) (e : Option Entry) (t : Tally)
      → (read_entry version e t).uncertain ≡ false
      → member bad (read_entry version e t).states ≡ false
      → (t.uncertain ≡ false) × (member bad t.states ≡ false) × (is_settled version good e ≡ true)
  read_entry-settled version none t h k = ground arith
  read_entry-settled version (some e) t h k = elim (Option-cases (entry_status version e)) [
    | inl q ↦ ground (arith, q)
    | inr (s, q) ↦ ground (arith, q, other s, Bool-cases (is_explicit s))
  ]

  read_entries-settled :
      (version : String) (es : List (Option Entry)) (t : Tally)
      → (read_entries version es t).uncertain ≡ false
      → member bad (read_entries version es t).states ≡ false
      → (t.uncertain ≡ false)
        × (member bad t.states ≡ false)
        × (all (is_settled version good) es ≡ true)
  unfolding read_entries
  read_entries-settled version [] t h k = (h, k, refl)
  read_entries-settled version (e ∷ es) t h k =
      let (clear, plain, rest) = read_entries-settled version es (read_entry version e t) h k in
      let (free, without, settled) = read_entry-settled version e t clear plain in
      (free, without, ground (arith, rest, settled))

  with_default-member :
      (default : Option String) (t : Tally)
      → member bad (with_default default t) ≡ false
      → member bad t.states ≡ false
  with_default-member none t h = h
  with_default-member (some s) t h =
      ground (arith, Bool-cases (not t.matched_version && not t.uncertain && truthy s))

  read_versions-settled :
      (version : String) (entries : Entries) (default : Option String) (seen : Seen)
      → (read_versions version entries default seen).uncertain ≡ false
      → member bad (read_versions version entries default seen).states ≡ false
      → (seen.uncertain ≡ false)
        × (member bad seen.states ≡ false)
        × (all_settled version good entries ≡ true)
  read_versions-settled version no_list default seen h k = ground arith
  read_versions-settled version (listed es) default seen h k =
      let start : Tally = record {
        matched_version = false;
        uncertain = seen.uncertain;
        states = seen.states;
      } in
      read_entries-settled version es start h
        (with_default-member default (read_entries version es start) k)

  read_product-settled :
      ⦃it : IdentityText⦄
      → (vendor product version : String) (p : Option Product) (seen : Seen)
      → (read_product vendor product version p seen).uncertain ≡ false
      → member bad (read_product vendor product version p seen).states ≡ false
      → (seen.uncertain ≡ false)
        × (member bad seen.states ≡ false)
        × (product_settled vendor product version good p ≡ true)
  read_product-settled vendor product version none seen h k = (h, k, refl)
  read_product-settled vendor product version (some p) seen h k =
      elim (Bool-cases (same_identity vendor p.vendor && same_identity product p.product)) [
        | inl e ↦ ground (arith, e, read_versions-settled version p.versions p.default_status seen)
        | inr e ↦ ground (arith, e)
      ]

  read_products-settled :
      ⦃it : IdentityText⦄
      → (vendor product version : String) (ps : List (Option Product)) (seen : Seen)
      → (read_products vendor product version ps seen).uncertain ≡ false
      → member bad (read_products vendor product version ps seen).states ≡ false
      → (seen.uncertain ≡ false)
        × (member bad seen.states ≡ false)
        × (all (product_settled vendor product version good) ps ≡ true)
  unfolding read_products
  read_products-settled vendor product version [] seen h k = (h, k, refl)
  read_products-settled vendor product version (p ∷ ps) seen h k =
      let (clear, plain, rest) =
        read_products-settled vendor product version ps (read_product vendor product version p seen)
          h k in
      let (free, without, settled) =
        read_product-settled vendor product version p seen clear plain in
      (free, without, ground (arith, rest, settled))

explicit-other :
    (s : String) → is_explicit s ≡ true → str_eq s "unaffected" ≡ false → str_eq "affected" s ≡ true
explicit-other s h k = ground (arith, eq_iff "unaffected" s, eq_iff s "unaffected")

explicit-other' :
    (s : String) → is_explicit s ≡ true → str_eq s "affected" ≡ false → str_eq "unaffected" s ≡ true
explicit-other' s h k = ground (arith, eq_iff "affected" s, eq_iff s "affected")

module _ ⦃py : PyText⦄ ⦃vt : VersionText⦄ ⦃it : IdentityText⦄ where
  verdict-affected :
      (seen : Seen)
      → state_eq (verdict seen).state affected ≡ true
      → (seen.uncertain ≡ false) × (member "unaffected" seen.states ≡ false)
  verdict-affected seen h = ground (
    arith,
    Bool-cases (member "affected" seen.states),
    Bool-cases (member "unaffected" seen.states),
    Bool-cases seen.uncertain,
  )

  verdict-not_affected :
      (seen : Seen)
      → state_eq (verdict seen).state not_affected ≡ true
      → (seen.uncertain ≡ false) × (member "affected" seen.states ≡ false)
  verdict-not_affected seen h = ground (
    arith,
    Bool-cases (member "affected" seen.states),
    Bool-cases (member "unaffected" seen.states),
    Bool-cases seen.uncertain,
  )

  -- What a verdict says: a definite one settles every entry of every product that is the asset's.
  abbrev pub agrees :
      (vendor product version : String) → List (Option Product) → Applicability → Bool
  agrees vendor product version ps affected =
      known_version version && all (product_settled vendor product version "affected") ps
  agrees vendor product version ps not_affected =
      known_version version && all (product_settled vendor product version "unaffected") ps
  agrees vendor product version ps _ = true

  verdict-agrees :
      (vendor product version : String) (ps : List (Option Product)) (state : Applicability)
      → known_version version ≡ true
      → (verdict (read_products vendor product version ps nothing_seen)).state ≡ state
      → agrees vendor product version ps state ≡ true
  verdict-agrees vendor product version ps affected known h =
      let seen = read_products vendor product version ps nothing_seen in
      let (clear, plain) = verdict-affected seen (ap (λ s. state_eq s affected) h) in
      let (_, _, settled) =
        read_products-settled "affected" "unaffected" explicit-other vendor product version ps
          nothing_seen clear plain in
      ground (arith, known, settled)
  verdict-agrees vendor product version ps not_affected known h =
      let seen = read_products vendor product version ps nothing_seen in
      let (clear, plain) = verdict-not_affected seen (ap (λ s. state_eq s not_affected) h) in
      let (_, _, settled) =
        read_products-settled "unaffected" "affected" explicit-other' vendor product version ps
          nothing_seen clear plain in
      ground (arith, known, settled)
  verdict-agrees vendor product version ps needs_review known h = refl
  verdict-agrees vendor product version ps coverage_unknown known h = refl

  -- When the verdict on a CVE record is affected, the asset's version is known, and every product
  -- of the record with the asset's vendor and product is unqualified, lists its entries, and each
  -- of them can be compared and gives the status affected if it covers the version; when the
  -- verdict is not affected, the same holds with the status unaffected.
  pub evaluate_cve_evidence-agrees :
      (vendor product version : String) (ps : List (Option Product))
      → agrees vendor product version ps
          (evaluate_cve_evidence vendor product version (some ps)).state
        ≡ true
  unfolding evaluate_cve_evidence
  evaluate_cve_evidence-agrees vendor product version ps =
      elim (Bool-cases (known_version version)) [
        | inl known ↦ rw known (verdict-agrees vendor product version ps _ known refl)
        | inr unknown ↦ rw unknown refl
      ]
