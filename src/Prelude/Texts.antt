-- ===== src/Prelude/Texts.antt =====
-- Python's text. `String` is a sequence of code points; comparison is by code points, as `<` on
-- `str`. What rests on the Unicode tables or on the printing of floats comes in as `PyText`.
use Prim.Native.Nat.{ℕ, zero, suc, Ordering}
use Prim.Native.String
use Prim.Native.String.{String}
use mathlib.Core.Bool.{Bool, true, false, ◌||◌}
use mathlib.Core.Option.{Option, none, some}
use mathlib.Core.List.{List, [], ◌∷◌}
use mathlib.Core.Path.{◌≡◌, ap, refl}
use mathlib.Core.Logic.{inl, inr}
use text.Mathlib.Text.{◌==◌, starts_with}
use text.Mathlib.TextEquality.{eq_iff}
use native.Mathlib.Omega.{arith}
use cvebeacon.Prelude.Tests.{if◌then◌else◌, Bool-cases}

-- The methods of `str`, `float` and `date` that the program calls and whose tables are not its own.
-- A score is the number of millionths of its value; a date is its proleptic ordinal.
pub record PyText : Type 0 where
  pub casefold : String → String
  pub strip : String → String
  pub fromisoformat : String → Option ℕ
  pub isoformat : ℕ → String
  -- `datetime.strptime(text, pattern).isoformat()` and `datetime.fromisoformat(text).isoformat()`
  pub strptime : String → String → Option String
  pub datetime_isoformat : String → Option String
  pub utc_isoformat : ℕ → String
  pub str_float : ℕ → String
  pub format_g : ℕ → String
  pub casefold_idem : (s : String) → casefold (casefold s) ≡ casefold s

-- The pieces of an f-string, one after the other.
abbrev pub concat : List String → String
concat [] = ""
concat (s ∷ ss) = String.◌++◌ s (concat ss)

-- `separator.join(parts)`
abbrev pub join : String → List String → String
join sep [] = ""
join sep (s ∷ []) = s
join sep (s ∷ t ∷ ss) = String.◌++◌ s (String.◌++◌ sep (join sep (t ∷ ss)))

-- `text[:n]`
unfoldable pub slice_to : ℕ → String → String
slice_to zero s = ""
slice_to (suc n) String.[] = ""
slice_to (suc n) (String.◌∷◌ c s) = String.◌∷◌ c (slice_to n s)

-- `bool(text)`
abbrev pub truthy : String → Bool
truthy String.[] = false
truthy (String.◌∷◌ c s) = true

-- `value is not None and bool(value)`
abbrev pub given : Option String → Bool
given none = false
given (some s) = truthy s

-- `part in text`
unfoldable pub has_part : String → String → Bool
has_part part String.[] = part == ""
has_part part (String.◌∷◌ c s) = starts_with (String.◌∷◌ c s) part || has_part part s

-- `text.endswith(suffix)`
unfoldable pub ends_with : String → String → Bool
ends_with suffix String.[] = suffix == ""
ends_with suffix (String.◌∷◌ c s) = String.◌∷◌ c s == suffix || ends_with suffix s

-- `text in values`
abbrev pub member : String → List String → Bool
member s [] = false
member s (t ∷ ts) = t == s || member s ts

abbrev pub is_less : Ordering → Bool
is_less Ordering.lt = true
is_less _ = false

-- A text put into a sorted list without repetitions, so that a fold is `sorted(set(texts))`.
unfoldable pub insert_sorted : String → List String → List String
insert_sorted p [] = p ∷ []
insert_sorted p (q ∷ qs) =
    let rest = q ∷ insert_sorted p qs in
    if p == q then q ∷ qs else if is_less (String.compare p q) then p ∷ q ∷ qs else rest

pub member-insert_sorted :
    (t p : String) (qs : List String) → member t (insert_sorted p qs) ≡ (p == t || member t qs)
unfolding insert_sorted
member-insert_sorted t p [] = refl
member-insert_sorted t p (q ∷ qs) = elim (Bool-cases (p == q)) [
  | inl e ↦ ground (arith, e, ap (λ s. s == t) ((eq_iff p q).0 e))
  | inr e ↦ ground (arith, e, member-insert_sorted t p qs)
]
