-- ===== src/Watch/Chain/Evidence.antt =====
-- A chain that verifies fixes the rows that it covers, unless two texts have one digest.
use Prim.Native.String
use mathlib.Core.List.{Memᴰ}
use text.Mathlib.TextLemmas.{nil-append, cons-append}
use cvebeacon.Prelude.{
  All, ℕ, String, ◌≡◌, ◌≢◌, ◌⊎◌, inl, inr, refl, sym, ap, ◌∙◌, Bool, true, false, none, some, List,
  [], ◌∷◌, arith, if◌then◌else◌, map, str_eq, eq_iff, truthy, Option-cases, Bool-cases,
}
use cvebeacon.Watch.Chain.{
  Row, report_chain_fields, key_of, unbraced, opens, ChainText, field, values_of, is_version,
  intact, chain_hash, check_rows,
}

-- The hashed values of the rows of version 1, in order.
pub chained_values : List Row → List Row
chained_values [] = []
chained_values (r ∷ rows) =
    let rest = chained_values rows in
    if is_version 0 (field "chain_version" r)
    then rest
    else elim (values_of report_chain_fields r) [ none ↦ rest | some v ↦ v ∷ rest ]

values_of-keys : (keys : List String) (r v : Row) → values_of keys r ≡ some v → map key_of v ≡ keys
unfolding values_of
values_of-keys [] r v h = ground arith
values_of-keys (key ∷ keys) r v h = elim (Option-cases (values_of keys r)) [
  | inl e ↦ ground arith
  | inr (u, e) ↦ ground (arith, values_of-keys keys r u e)
]

-- Text before the first brace.
split_brace :
    (p q a b : String)
    → unbraced p ≡ true
    → unbraced q ≡ true
    → opens a ≡ true
    → opens b ≡ true
    → String.◌++◌ p a ≡ String.◌++◌ q b
    → (p ≡ q) × (a ≡ b)
split_brace String.[] String.[] a b hp hq ha hb e = (refl, sym (nil-append a) ∙ e ∙ nil-append b)
split_brace String.[] (String.◌∷◌ d q) String.[] b hp hq ha hb e = cc
split_brace String.[] (String.◌∷◌ d q) (String.◌∷◌ c a) b hp hq ha hb e =
    ground (arith, nil-append (String.◌∷◌ c a), cons-append d q b)
split_brace (String.◌∷◌ c p) String.[] a String.[] hp hq ha hb e = cc
split_brace (String.◌∷◌ c p) String.[] a (String.◌∷◌ d b) hp hq ha hb e =
    ground (arith, nil-append (String.◌∷◌ d b), cons-append c p a)
split_brace (String.◌∷◌ c p) (String.◌∷◌ d q) a b hp hq ha hb e =
    ground (arith, split_brace p q a b, cons-append c p a, cons-append d q b)

module _ ⦃ct : ChainText⦄ where
  -- The digest after the rows, the last one first.
  unfoldable pub digest_of : List Row → String
  digest_of [] = ""
  digest_of (v ∷ vs) = chain_hash (digest_of vs) v

  -- The texts that are hashed for the digest, the last one first.
  abbrev hashed : List Row → List String
  hashed [] = []
  hashed (v ∷ vs) = String.◌++◌ (digest_of vs) (ct.canonical_json v) ∷ hashed vs

  abbrev Shared : List Row → List Row → Type 0
  Shared us vs =
      (s : String) × (t : String) × Memᴰ s (hashed us)
      × Memᴰ t (hashed vs)
      × (s ≢ t)
      × (ct.sha256 s ≡ ct.sha256 t)

  digest_of-unbraced : (vs : List Row) → unbraced (digest_of vs) ≡ true
  unfolding digest_of chain_hash
  digest_of-unbraced [] = refl
  digest_of-unbraced (v ∷ vs) = ct.digest_unbraced _

  -- The rows that a chain can hold.
  abbrev IsReport : Row → Type 0
  IsReport v = map key_of v ≡ report_chain_fields

  digest_of-inj :
      (us vs : List Row)
      → All IsReport us
      → All IsReport vs
      → digest_of us ≡ digest_of vs
      → (us ≡ vs) ⊎ Shared us vs
  unfolding digest_of chain_hash
  digest_of-inj [] [] hu hv e = inl refl
  digest_of-inj [] (v ∷ vs) hu hv e =
      absurd (blank (String.◌++◌ (digest_of vs) (ct.canonical_json v)) e)
    where
      blank : (s : String) → "" ≡ ct.sha256 s → ⊥
      blank s h = ground (arith, ct.digest_truthy s, ap truthy h)
  digest_of-inj (u ∷ us) [] hu hv e =
      absurd (blank (String.◌++◌ (digest_of us) (ct.canonical_json u)) e)
    where
      blank : (s : String) → ct.sha256 s ≡ "" → ⊥
      blank s h = ground (arith, ct.digest_truthy s, ap truthy h)
  digest_of-inj (u ∷ us) (v ∷ vs) hu hv e =
      step (Bool-cases (str_eq s t)) (digest_of-inj us vs hu.1 hv.1)
    where
      s : String
      s = String.◌++◌ (digest_of us) (ct.canonical_json u)

      t : String
      t = String.◌++◌ (digest_of vs) (ct.canonical_json v)

      extend : (us ≡ vs) ⊎ Shared us vs → u ≡ v → (u ∷ us ≡ v ∷ vs) ⊎ Shared (u ∷ us) (v ∷ vs)
      extend (inl q) p = inl (cc)
      extend (inr (a, b, ma, mb, ne, c)) p = inr (a, b, Memᴰ.tail ma, Memᴰ.tail mb, ne, c)

      step :
          (str_eq s t ≡ true) ⊎ (str_eq s t ≡ false)
          → (digest_of us ≡ digest_of vs → (us ≡ vs) ⊎ Shared us vs)
          → (u ∷ us ≡ v ∷ vs) ⊎ Shared (u ∷ us) (v ∷ vs)
      step (inr differ) next =
          inr (s, t, Memᴰ.head refl, Memᴰ.head refl, (λ q. cc (differ, (eq_iff s t).1 q)), e)
      step (inl same) next =
          let (front, rear) =
            split_brace (digest_of us) (digest_of vs) (ct.canonical_json u) (ct.canonical_json v)
              (digest_of-unbraced us) (digest_of-unbraced vs) (ct.json_opens u) (ct.json_opens v)
              ((eq_iff s t).0 same) in
          extend (next front) (ct.json_inj u v hu.0 hv.0 rear)

unfoldable pub rev_append : List Row → List Row → List Row
rev_append [] acc = acc
rev_append (v ∷ vs) acc = rev_append vs (v ∷ acc)

rev_append-rev_append : (vs acc : List Row) → rev_append (rev_append vs acc) [] ≡ rev_append acc vs
unfolding rev_append
rev_append-rev_append [] acc = refl
rev_append-rev_append (v ∷ vs) acc = rev_append-rev_append vs (v ∷ acc)

rev_append_inj : (us vs : List Row) → rev_append us [] ≡ rev_append vs [] → us ≡ vs
unfolding rev_append
rev_append_inj us vs e =
    sym (rev_append-rev_append us []) ∙ ap (λ l. rev_append l []) e ∙ rev_append-rev_append vs []

rev_append-All :
    (vs acc : List Row)
    → All (λ v. map key_of v ≡ report_chain_fields) vs
    → All (λ v. map key_of v ≡ report_chain_fields) acc
    → All (λ v. map key_of v ≡ report_chain_fields) (rev_append vs acc)
unfolding rev_append
rev_append-All [] acc h k = k
rev_append-All (v ∷ vs) acc h k = rev_append-All vs (v ∷ acc) h.1 (h.0, k)

chained_values-All :
    (rows : List Row) → All (λ v. map key_of v ≡ report_chain_fields) (chained_values rows)
unfolding chained_values
chained_values-All [] = tt
chained_values-All (r ∷ rows) = elim (Option-cases (values_of report_chain_fields r)) [
  | inl e ↦ rw e (ground (arith, chained_values-All rows))
  | inr (v, e) ↦
      rw e (ground (arith, chained_values-All rows, values_of-keys report_chain_fields r v e))
]

module _ ⦃ct : ChainText⦄ where
  check_rows-digest :
      (seen : Bool) (limit : ℕ) (rows acc : List Row) (end : String)
      → check_rows (digest_of acc) seen limit rows ≡ intact end
      → end ≡ digest_of (rev_append (chained_values rows) acc)
  unfolding check_rows chained_values rev_append digest_of
  check_rows-digest seen limit [] acc end h = ground arith
  check_rows-digest seen limit (r ∷ rows) acc end h =
      elim (Option-cases (values_of report_chain_fields r)) [
        | inl e ↦ ground (arith, e, check_rows-digest seen limit rows acc end)
        | inr (v, e) ↦ ground (
          arith,
          e,
          check_rows-digest seen limit rows acc end,
          check_rows-digest true limit rows (v ∷ acc) end,
        )
      ]

  -- The texts that are hashed for the digests of the rows.
  abbrev hashed_texts : List Row → List String
  hashed_texts rows = hashed (rev_append (chained_values rows) [])

  -- A text that is hashed for each of the two trails, with one digest for the two.
  abbrev pub Collision : List Row → List Row → Type 0
  Collision rows rows' =
      (s : String) × (t : String) × Memᴰ s (hashed_texts rows)
      × Memᴰ t (hashed_texts rows')
      × (s ≢ t)
      × (ct.sha256 s ≡ ct.sha256 t)

  -- When two trails of reports verify and end in the same digest, the hashed values of their
  -- chained rows are the same, in the same order, or a text hashed for the one and a different
  -- text hashed for the other have the same digest.
  pub reports_fixed :
      (limit limit' : ℕ) (rows rows' : List Row) (end : String)
      → check_rows "" false limit rows ≡ intact end
      → check_rows "" false limit' rows' ≡ intact end
      → (chained_values rows ≡ chained_values rows') ⊎ Collision rows rows'
  unfolding digest_of
  reports_fixed limit limit' rows rows' end h k =
      let us = rev_append (chained_values rows) [] in
      let vs = rev_append (chained_values rows') [] in
      let same =
        sym (check_rows-digest false limit rows [] end h)
        ∙ check_rows-digest false limit' rows' [] end k in
      elim (digest_of-inj us vs
        (rev_append-All (chained_values rows) [] (chained_values-All rows) tt)
        (rev_append-All (chained_values rows') [] (chained_values-All rows') tt) same) [
          | inl q ↦ inl (rev_append_inj (chained_values rows) (chained_values rows') q)
          | inr c ↦ inr c
        ]
