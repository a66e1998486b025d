-- ===== src/Watch/Chain.antt =====
-- src/cvebeacon/watch/chain.py: the hash chain of an append-only table, and store.py:
-- `_verify_report_rows`, its check for the reports. A row read back is not trusted: it is a list of
-- named cells. An integer that the program stores is not negative, and it stores no real number.
pub mod Evidence
pub mod Encoding
use Prim.Native.Char.{code}
use Prim.Native.String
use cvebeacon.Prelude.{
  ℕ, zero, suc, String, ◌≡◌, Bool, true, false, Option, none, some, List, [], ◌∷◌, ◌++◌, ◌&&◌, ◌||◌,
  ◌==◌, not, leb, ltb, if◌then◌else◌, all, any, map, str_eq, truthy,
}

-- A cell of a row; `unreadable` is a BLOB or text that is not UTF-8.
pub data Cell : Type 0 where
  null unreadable : Cell
  integer : ℕ → Cell
  text : String → Cell

abbrev pub Row : Type 0
Row = List (String × Cell)

-- REPORT_CHAIN_FIELDS
abbrev pub report_chain_fields : List String
report_chain_fields =
    "id" ∷ "cve_id" ∷ "action" ∷ "by" ∷ "user_id" ∷ "username" ∷ "identity_mode" ∷ "os_account"
    ∷ "host" ∷ "note" ∷ "at" ∷ []

abbrev pub key_of : String × Cell → String
key_of (key, cell) = key

-- No `{` in the text.
abbrev pub unbraced : String → Bool
unbraced String.[] = true
unbraced (String.◌∷◌ c s) = not (code c == b'{') && unbraced s

-- The text of a JSON object begins with a brace.
abbrev pub opens : String → Bool
opens String.[] = false
opens (String.◌∷◌ c s) = code c == b'{'

-- `json.dumps` of an object with sorted keys, and the hexadecimal SHA-256 of the UTF-8 of a text: the
-- dump of a row determines its cells, and a digest is a text of hexadecimal digits.
pub record ChainText : Type 0 where
  pub canonical_json : Row → String
  pub sha256 : String → String
  pub json_opens : (u : Row) → opens (canonical_json u) ≡ true
  pub json_inj :
      (u v : Row)
      → map key_of u ≡ report_chain_fields
      → map key_of v ≡ report_chain_fields
      → canonical_json u ≡ canonical_json v
      → u ≡ v
  pub digest_unbraced : (s : String) → unbraced (sha256 s) ≡ true
  pub digest_truthy : (s : String) → truthy (sha256 s) ≡ true

-- `row[key]`; `none` is KeyError or IndexError.
unfoldable pub field : String → Row → Option Cell
field key [] = none
field key ((k, c) ∷ r) = if str_eq k key then some c else field key r

abbrev pub is_readable : String × Cell → Bool
is_readable (key, unreadable) = false
is_readable (key, _) = true

-- The identifier of a row, or the source's -1.
pub data RowId : Type 0 where
  unknown_row : RowId
  row_number : ℕ → RowId

abbrev number_of : Option Cell → RowId
number_of (some (integer n)) = row_number n
number_of _ = unknown_row

unfoldable pub row_id : Row → RowId
unfolding field
row_id r = number_of (field "id" r)

abbrev cons_value : String → Option Cell → Option Row → Option Row
cons_value key (some c) (some r) = some ((key, c) ∷ r)
cons_value key _ _ = none

-- `{field: row[field] for field in fields}`
unfoldable pub values_of : List String → Row → Option Row
values_of [] r = some []
values_of (key ∷ keys) r = cons_value key (field key r) (values_of keys r)

-- `stored` is a text and equal to the expected digest
abbrev pub matches_text : String → Option Cell → Bool
matches_text expected (some (text stored)) = str_eq expected stored
matches_text expected _ = false

-- `row["chain"] in (None, "")`
abbrev is_blank : Option Cell → Bool
is_blank (some null) = true
is_blank (some (text s)) = not (truthy s)
is_blank _ = false

abbrev is_null : Option Cell → Bool
is_null (some null) = true
is_null _ = false

-- `row["id"] > limit` and `row["id"] <= limit`; `none` is KeyError or TypeError.
abbrev id_above : Option Cell → ℕ → Option Bool
id_above (some (integer n)) limit = some (ltb limit n)
id_above _ limit = none

abbrev pub is_version : ℕ → Option Cell → Bool
is_version n (some (integer m)) = m == n
is_version n _ = false

-- The end of a check: the first broken row, or the digest of the last chained row.
pub data Check : Type 0 where
  broken : RowId → Check
  intact : String → Check

-- A legacy row that is as the migration left it.
abbrev is_legacy : Row → Bool → ℕ → Bool
is_legacy r seen_chained legacy_max_id =
    not seen_chained
    && elim (id_above (field "id" r) legacy_max_id) [ some false ↦ true | _ ↦ false ]
    && is_blank (field "chain" r)
    && all (λ key. is_null (field key r))
        ("user_id" ∷ "username" ∷ "identity_mode" ∷ "os_account" ∷ "host" ∷ [])

-- A row after the migration, by its version and its identifier.
abbrev is_chained : Row → ℕ → Bool
is_chained r legacy_max_id =
    is_version 1 (field "chain_version" r)
    && elim (id_above (field "id" r) legacy_max_id) [ some true ↦ true | _ ↦ false ]

abbrev pub result_of : Check → Option RowId
result_of (broken r) = some r
result_of (intact end) = none

module _ ⦃ct : ChainText⦄ where
  unfoldable pub chain_hash : String → Row → String
  chain_hash previous values = ct.sha256 (String.◌++◌ previous (ct.canonical_json values))

  -- The digest of a row that continues the chain after `previous`.
  abbrev pub link : String → Row → Option Row → Option String
  link previous r none = none
  link previous r (some values) =
      let expected = chain_hash previous values in
      if matches_text expected (field "chain" r) then some expected else none

  -- The loop of `_verify_report_rows`.
  unfoldable pub check_rows : String → Bool → ℕ → List Row → Check
  unfolding values_of
  check_rows previous seen_chained legacy_max_id [] = intact previous
  check_rows previous seen_chained legacy_max_id (r ∷ rows) =
      let legacy = check_rows previous seen_chained legacy_max_id rows in
      if not (all is_readable r)
      then broken (row_id r)
      else if is_version 0 (field "chain_version" r)
      then (if is_legacy r seen_chained legacy_max_id then legacy else broken (row_id r))
      else if not (is_chained r legacy_max_id)
      then broken (row_id r)
      else elim (link previous r (values_of report_chain_fields r)) [
        | none ↦ broken (row_id r)
        | some expected ↦ check_rows expected true legacy_max_id rows
      ]

  unfoldable pub verify_report_rows : List Row → ℕ → Option RowId
  verify_report_rows rows legacy_max_id = result_of (check_rows "" false legacy_max_id rows)

  -- The optional fields that a row has and that are not NULL.
  abbrev pub present : List String → Row → Row
  present [] r = []
  present (key ∷ keys) r = elim (field key r) [
    | none ↦ present keys r
    | some null ↦ present keys r
    | some c ↦ (key, c) ∷ present keys r
  ]

  abbrev pub with_optional : Option Row → Row → Option Row
  with_optional none extra = none
  with_optional (some values) extra = some (values ++ extra)

  -- `verify_chain`, from the digest `previous` on
  unfoldable pub check_chain : String → (fields optional_fields : List String) → List Row → Check
  unfolding values_of
  check_chain previous fields optional_fields [] = intact previous
  check_chain previous fields optional_fields (r ∷ rows) =
      if not (all is_readable r)
      then broken (row_id r)
      else elim (link previous r (with_optional (values_of fields r) (present optional_fields r))) [
        | none ↦ broken (row_id r)
        | some expected ↦ check_chain expected fields optional_fields rows
      ]

  unfoldable pub verify_chain : List Row → (fields optional_fields : List String) → Option RowId
  verify_chain rows fields optional_fields = result_of (check_chain "" fields optional_fields rows)
