-- ===== src/Watch/Chain/Encoding.antt =====
-- A dump of rows and a digest that satisfy `ChainText`: cells are written one after the other, a text
-- character by character, and a digest is the text without its braces.
use Prim.Native.Char.{code}
use cvebeacon.Prelude.{
  ℕ, zero, suc, String, ◌≡◌, refl, sym, ap, ◌∙◌, true, [], ◌∷◌, ◌==◌, arith, if◌then◌else◌, map,
  Bool-cases,
}
use cvebeacon.Watch.Chain.{Cell, null, unreadable, integer, text, Row, key_of, ChainText, unbraced}

-- The code of the first character.
abbrev first : String → ℕ
first String.[] = 0
first (String.◌∷◌ c s) = code c

unfoldable pub write_text : String → String → String
write_text String.[] rest = String.◌∷◌ "y" rest
write_text (String.◌∷◌ c s) rest = String.◌∷◌ "x" (String.◌∷◌ c (write_text s rest))

unfoldable pub write_number : ℕ → String → String
write_number zero rest = String.◌∷◌ "y" rest
write_number (suc n) rest = String.◌∷◌ "x" (write_number n rest)

unfoldable pub write_cell : Cell → String → String
write_cell null rest = String.◌∷◌ "n" rest
write_cell unreadable rest = String.◌∷◌ "u" rest
write_cell (integer n) rest = String.◌∷◌ "i" (write_number n rest)
write_cell (text s) rest = String.◌∷◌ "t" (write_text s rest)

unfoldable pub write_row : Row → String
write_row [] = ""
write_row ((key, cell) ∷ r) = write_cell cell (write_row r)

write_text_inj :
    (s t rest rest' : String) → write_text s rest ≡ write_text t rest' → (s ≡ t) × (rest ≡ rest')
unfolding write_text
write_text_inj String.[] String.[] rest rest' h = ground arith
write_text_inj String.[] (String.◌∷◌ d t) rest rest' h = absurd (omega (arith, ap first h))
write_text_inj (String.◌∷◌ c s) String.[] rest rest' h = absurd (omega (arith, ap first h))
write_text_inj (String.◌∷◌ c s) (String.◌∷◌ d t) rest rest' h =
    ground (arith, write_text_inj s t rest rest')

write_number_inj :
    (m n : ℕ) (rest rest' : String)
    → write_number m rest ≡ write_number n rest'
    → (m ≡ n) × (rest ≡ rest')
unfolding write_number
write_number_inj zero zero rest rest' h = ground arith
write_number_inj zero (suc n) rest rest' h = absurd (omega (arith, ap first h))
write_number_inj (suc m) zero rest rest' h = absurd (omega (arith, ap first h))
write_number_inj (suc m) (suc n) rest rest' h = ground (arith, write_number_inj m n rest rest')

write_cell_inj :
    (c d : Cell) (rest rest' : String)
    → write_cell c rest ≡ write_cell d rest'
    → (c ≡ d) × (rest ≡ rest')
unfolding write_cell
write_cell_inj null null rest rest' h = ground arith
write_cell_inj null unreadable rest rest' h = absurd (omega (arith, ap first h))
write_cell_inj null (integer n) rest rest' h = absurd (omega (arith, ap first h))
write_cell_inj null (text t) rest rest' h = absurd (omega (arith, ap first h))
write_cell_inj unreadable null rest rest' h = absurd (omega (arith, ap first h))
write_cell_inj unreadable unreadable rest rest' h = ground arith
write_cell_inj unreadable (integer n) rest rest' h = absurd (omega (arith, ap first h))
write_cell_inj unreadable (text t) rest rest' h = absurd (omega (arith, ap first h))
write_cell_inj (integer m) null rest rest' h = absurd (omega (arith, ap first h))
write_cell_inj (integer m) unreadable rest rest' h = absurd (omega (arith, ap first h))
write_cell_inj (integer m) (integer n) rest rest' h =
    ground (arith, write_number_inj m n rest rest')
write_cell_inj (integer m) (text t) rest rest' h = absurd (omega (arith, ap first h))
write_cell_inj (text s) null rest rest' h = absurd (omega (arith, ap first h))
write_cell_inj (text s) unreadable rest rest' h = absurd (omega (arith, ap first h))
write_cell_inj (text s) (integer n) rest rest' h = absurd (omega (arith, ap first h))
write_cell_inj (text s) (text t) rest rest' h = ground (arith, write_text_inj s t rest rest')

pub write_row_inj : (u v : Row) → map key_of u ≡ map key_of v → write_row u ≡ write_row v → u ≡ v
unfolding write_row
write_row_inj [] [] k h = refl
write_row_inj [] (b ∷ v) k h = ground arith
write_row_inj (a ∷ u) [] k h = ground arith
write_row_inj ((key, c) ∷ u) ((key', d) ∷ v) k h =
    let (same, rest) = write_cell_inj c d (write_row u) (write_row v) h in
    ground (arith, same, write_row_inj u v)

unfoldable pub unbrace : String → String
unbrace String.[] = String.[]
unbrace (String.◌∷◌ c s) =
    let rest = unbrace s in if code c == b'{' then rest else String.◌∷◌ c rest

pub unbrace-unbraced : (s : String) → unbraced (unbrace s) ≡ true
unfolding unbrace
unbrace-unbraced String.[] = refl
unbrace-unbraced (String.◌∷◌ c s) = ground (arith, unbrace-unbraced s, Bool-cases (code c == b'{'))

pub cons_inj : (s t : String) → String.◌∷◌ "{" s ≡ String.◌∷◌ "{" t → s ≡ t
cons_inj s t h = ground arith

instance abbrev pub plain_chain : ChainText
plain_chain = record {
  canonical_json = λ u. String.◌∷◌ "{" (write_row u);
  sha256 = λ s. String.◌∷◌ "a" (unbrace s);
  json_opens = λ u. refl;
  json_inj =
      λ u v hu hv h. write_row_inj u v (hu ∙ sym hv) (cons_inj (write_row u) (write_row v) h);
  digest_unbraced = λ s. unbrace-unbraced s;
  digest_truthy = λ s. refl;
}
