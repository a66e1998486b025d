-- ===== src/Watch/Rules/Parse.antt =====
-- watch/rules.py, from `_fail` to `_rule_channels`: reading the configuration of a rule. This file
-- has the values that TOML gives, the result of a reader, and the readers of one value.
pub mod Leaves
pub mod Tree
pub mod Rules
pub mod Shape
pub mod Bounds
pub mod Names
pub mod Distinct
pub mod Accepted
mod Tests
use Prim.Native.String as Str
use cvebeacon.Prelude.{
  ℕ, zero, suc, ◌-◌, ◌*◌, ◌^◌, String, ◌≡◌, Bool, true, false, Option, none, some, List, [], ◌∷◌,
  ◌++◌, map, concat, join, truthy, member, ltb, leb, str_eq, if◌then◌else◌, PyText,
}

-- A float: a number of millionths, or what lies outside of them.
pub data Float : Type 0 where
  not_a_number infinite : Float
  negative millionths : ℕ → Float

-- A value of the parsed TOML document. `negative_int n` is `-(n + 1)`; `moment` is a date or time.
mutual
  pub data Raw : Type 0 where
    boolean : Bool → Raw
    natural negative_int : ℕ → Raw
    float : Float → Raw
    text : String → Raw
    array : Raws → Raw
    table : Entries → Raw
    moment : Raw

  pub data Raws : Type 0 where
    last : Raws
    item : Raw → Raws → Raws

  pub data Entries : Type 0 where
    empty : Entries
    entry : String → Raw → Entries → Entries

abbrev pub items_of : Raws → List Raw
items_of last = []
items_of (item raw raws) = raw ∷ items_of raws

-- `raw.get(key)`
abbrev pub entry_of : String → Entries → Option Raw
entry_of key empty = none
entry_of key (entry k raw rest) = if str_eq k key then some raw else entry_of key rest

-- The keys in the order of the document.
abbrev pub keys_of : Entries → List String
keys_of empty = []
keys_of (entry k raw rest) = k ∷ keys_of rest

-- What a reader returns, or the text of the ConfigurationError that it raises.
pub data Parsed {ℓ} (A : Type ℓ) : Type ℓ where
  failed : String → Parsed A
  parsed : A → Parsed A

infixl 5 ◌>>=◌
abbrev pub ◌>>=◌ {ℓ ℓ'} : {A : Type ℓ} {B : Type ℓ'} → Parsed A → (A → Parsed B) → Parsed B
failed e >>= f = failed e
parsed a >>= f = f a

-- `_fail(path, message)`
abbrev pub fail {ℓ} : {A : Type ℓ} → String → String → Parsed A
fail path message = failed (concat (path ∷ " " ∷ message ∷ []))

-- What the readers ask of Python: `str` of a number below the limit on its digits, `repr` of a text,
-- the number that CWE_PATTERN finds in a text, and whether NAME_PATTERN matches all of it.
pub record PyReader : Type 0 where
  pub str_int : ℕ → String
  pub repr : String → String
  pub cwe_number : String → Option ℕ
  pub matches_name : String → Bool

-- `len(text)`
unfoldable pub str_len : String → ℕ
str_len Str.[] = zero
str_len (Str.◌∷◌ c s) = suc (str_len s)

abbrev pub max_list_items : ℕ
max_list_items = 100

abbrev pub max_string : ℕ
max_string = 200

-- From here on `float(value)` raises an OverflowError.
abbrev pub float_limit : ℕ
float_limit = 2 ^ 1024 - 2 ^ 970

module _ ⦃py : PyText⦄ ⦃reader : PyReader⦄ where
  -- `f"{path}[{index}]"`
  abbrev pub at : String → ℕ → String
  at path index = concat (path ∷ "[" ∷ reader.str_int index ∷ "]" ∷ [])

  abbrev out_of_range {ℓ} : {A : Type ℓ} → String → ℕ → Parsed A
  out_of_range path maximum =
      fail path
        (concat ("must be a number from " ∷ py.format_g 0 ∷ " to " ∷ py.format_g maximum ∷ []))

  -- `_number(value, path, 0.0, maximum)`, the maximum in millionths.
  unfoldable pub number : Raw → String → ℕ → Parsed ℕ
  number (natural n) path maximum =
      if leb float_limit n
      then out_of_range path maximum
      else if leb (n * 1000000) maximum
      then parsed (n * 1000000)
      else out_of_range path maximum
  number (float (millionths n)) path maximum =
      if leb n maximum then parsed n else out_of_range path maximum
  number _ path maximum = out_of_range path maximum

  abbrev choice {ℓ} : {A : Type ℓ} → String → List (String × A) → Option A
  choice key [] = none
  choice key ((label, a) ∷ rest) = if str_eq label key then some a else choice key rest

  abbrev labels {ℓ} : {A : Type ℓ} → List (String × A) → List String
  labels [] = []
  labels ((label, a) ∷ rest) = label ∷ labels rest

  abbrev pub not_among {ℓ} : {A : Type ℓ} → String → List (String × A) → Parsed A
  not_among path allowed = fail path (concat ("must be one of " ∷ join ", " (labels allowed) ∷ []))

  -- `_enum(value, path, allowed)`; each label comes with what it stands for.
  unfoldable pub enum {ℓ} : {A : Type ℓ} → Raw → String → List (String × A) → Parsed A
  enum (text value) path allowed = elim (choice (py.casefold (py.strip value)) allowed) [
    | none ↦ not_among path allowed
    | some a ↦ parsed a
  ]
  enum _ path allowed = not_among path allowed

-- `if key not in seen: seen.add(key)`
abbrev pub remember : String → List String → List String
remember key seen = if member key seen then seen else key ∷ seen

abbrev pub append_new {ℓ} : {A : Type ℓ} → Bool → A → List A → List A
append_new true a rest = rest
append_new false a rest = a ∷ rest

-- The loop of `_strings`, `_cwe_values` and the lists of a rule: the items in their order, each read
-- at its place, and only the first of those with the same key.
module _ {ℓ} {A : Type ℓ} (read : Raw → ℕ → Parsed A) (key : A → String) where
  unfoldable pub distinct_items : ℕ → List Raw → List String → Parsed (List A)
  distinct_items index [] seen = parsed []
  distinct_items index (raw ∷ raws) seen = read raw index >>= λ a.
      distinct_items (suc index) raws (remember (key a) seen) >>= λ rest.
      parsed (append_new (member (key a) seen) a rest)
