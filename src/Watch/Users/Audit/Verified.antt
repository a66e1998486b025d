-- ===== src/Watch/Users/Audit/Verified.antt =====
-- watch/users.py: an entry that is appended keeps the log verified.
use mathlib.Core.List.{map-append}
use cvebeacon.Prelude.{
  ℕ, String, ◌≡◌, refl, sym, subst, ap, ◌∙◌, Bool, true, false, Option, none, some, List, [], ◌∷◌,
  ◌++◌, map, arith, Option-cases, PyText, inl, inr, str_eq, eq_iff, if◌then◌else◌,
}
use cvebeacon.Watch.Chain.{
  Row, ChainText, intact, field, values_of, present, with_optional, chain_hash, check_chain, Check,
  broken, result_of, verify_chain, link,
}
use cvebeacon.Watch.Users.{AuditRow, Machine, audit_entry, audit_values, last_audit}
use cvebeacon.Watch.Users.Audit.{audit_chain_fields, audit_cells, verify_audit}

last_audit-append :
    (default : ℕ × String) (rows : List AuditRow) (r : AuditRow)
    → last_audit default (rows ++ r ∷ []) ≡ (r.id, r.chain)
unfolding last_audit
last_audit-append default [] r = refl
last_audit-append default (q ∷ rows) r = last_audit-append (q.id, q.chain) rows r

module _ ⦃py : PyText⦄ ⦃ct : ChainText⦄ where
  -- The log verifies, up to the digest that the next entry continues.
  abbrev pub IsLog : List AuditRow → Type 0
  IsLog rows =
      check_chain "" audit_chain_fields ("actor" ∷ []) (map audit_cells rows)
      ≡ intact (last_audit (0, "") rows).1

  check_chain-append :
      (previous : String) (fields optional_fields : List String) (rows : List Row) (r : Row)
      (end : String)
      → check_chain previous fields optional_fields rows ≡ intact end
      → check_chain previous fields optional_fields (rows ++ r ∷ [])
        ≡ check_chain end fields optional_fields (r ∷ [])
  unfolding check_chain
  check_chain-append previous fields extra [] r end h = ground arith
  check_chain-append previous fields extra (q ∷ rows) r end h =
      elim (Option-cases (link previous q (with_optional (values_of fields q) (present extra q)))) [
        | inl e ↦ ground (arith, e, h)
        | inr (expected, e) ↦
            ground (arith, e, h, check_chain-append expected fields extra rows r end)
      ]

  entry_of : ℕ → String → String → ℕ → String → String → Option String → String → AuditRow
  entry_of id action username at os_account host actor chain = record {
    id = id;
    action = action;
    username = username;
    actor = actor;
    at = at;
    os_account = os_account;
    host = host;
    chain = chain;
  }

  matches-itself : (s : String) → str_eq s s ≡ true
  matches-itself s = (eq_iff s s).1 refl

  fields-check :
      (previous : String) (id : ℕ) (action username : String) (at : ℕ) (os_account host : String)
      (actor : Option String) (chain : String)
      → chain
        ≡ chain_hash previous
            (audit_values (entry_of id action username at os_account host actor chain))
      → check_chain previous audit_chain_fields
          ("actor" ∷ [])
          (audit_cells (entry_of id action username at os_account host actor chain) ∷ [])
        ≡ intact chain
  unfolding check_chain field values_of entry_of
  fields-check previous id action username at os_account host none chain h =
      rw (← h) (rw (matches-itself chain))
  fields-check previous id action username at os_account host (some actor) chain h =
      rw (← h) (rw (matches-itself chain))

  entry-check :
      (previous : String) (r : AuditRow)
      → r.chain ≡ chain_hash previous (audit_values r)
      → check_chain previous audit_chain_fields ("actor" ∷ []) (audit_cells r ∷ []) ≡ intact r.chain
  unfolding entry_of
  entry-check previous r h =
      fields-check previous r.id r.action r.username r.at r.os_account r.host r.actor r.chain h

  pub audit_entry-IsLog :
      (action username : String) (at : ℕ) (machine : Machine) (actor : Option String)
      (rows : List AuditRow)
      → IsLog rows
      → IsLog (rows ++ audit_entry action username at machine actor rows ∷ [])
  audit_entry-IsLog action username at machine actor rows h =
      let r = audit_entry action username at machine actor rows in
      let previous = (last_audit (0, "") rows).1 in
      ap (check_chain "" audit_chain_fields ("actor" ∷ [])) (map-append audit_cells rows (r ∷ []))
      ∙ check_chain-append "" audit_chain_fields ("actor" ∷ []) (map audit_cells rows)
          (audit_cells r) previous h
      ∙ entry-check previous r refl
      ∙ ap (λ p. intact p.1) (sym (last_audit-append (0, "") rows r))

  end_of : String → Check → String
  end_of default (broken r) = default
  end_of default (intact end) = end

  text_or : String → Option String → String
  text_or default none = default
  text_or default (some s) = s

  kept-text :
      (b : Bool) (x y : String) → (if b then some x else none) ≡ some y → (b ≡ true) × (x ≡ y)
  unfolding text_or
  kept-text true x y h = (refl, ap (text_or x) h)
  kept-text false x y h = absurd (ground (arith, h))

  link-end :
      (previous : String) (r : AuditRow) (values : Option Row) (expected : String)
      → link previous (audit_cells r) values ≡ some expected
      → expected ≡ r.chain
  unfolding field
  link-end previous r none expected h = absurd (ground (arith, h))
  link-end previous r (some values) expected h =
      let (same, e) =
        kept-text (str_eq (chain_hash previous values) r.chain) (chain_hash previous values)
          expected h in
      sym e ∙ (eq_iff (chain_hash previous values) r.chain).0 same

  intact-end : (c : Check) → result_of c ≡ none → (end : String) × (c ≡ intact end)
  intact-end (broken r) h = absurd (ground (arith, h))
  intact-end (intact end) h = (end, refl)

  -- The digest that a check ends with is the one of the last entry.
  chain-end :
      (k : ℕ) (previous : String) (rows : List AuditRow) (end : String)
      → check_chain previous audit_chain_fields ("actor" ∷ []) (map audit_cells rows) ≡ intact end
      → (last_audit (k, previous) rows).1 ≡ end
  unfolding check_chain last_audit end_of
  chain-end k previous [] end h = ap (end_of previous) h
  chain-end k previous (r ∷ rows) end h =
      elim (Option-cases (
        link previous (audit_cells r) (
          with_optional (values_of audit_chain_fields (audit_cells r))
            (present ("actor" ∷ []) (audit_cells r))))) [
              | inl e ↦ absurd (ground (arith, e, h))
              | inr (expected, e) ↦
                  subst (λ c. (last_audit (r.id, c) rows).1 ≡ end)
                    (link-end previous r _ expected e)
                    (chain-end r.id expected rows end (ground (arith, e, h)))
            ]

  pub verified-IsLog : (rows : List AuditRow) → verify_audit rows ≡ none → IsLog rows
  unfolding verify_audit verify_chain
  verified-IsLog rows h =
      let (end, e) =
        intact-end (check_chain "" audit_chain_fields ("actor" ∷ []) (map audit_cells rows)) h in
      e ∙ ap intact (sym (chain-end 0 "" rows end e))
