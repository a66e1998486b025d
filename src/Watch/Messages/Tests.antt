-- ===== src/Watch/Messages/Tests.antt =====
-- A message of two lines that is cut into parts.
use cvebeacon.Prelude.{
  ℕ, String, ◌≡◌, refl, ap, ◌==◌, Bool, true, false, some, [], ◌∷◌, ◌≤◌, arith, is_some, All,
  length, if◌then◌else◌, slice_to,
}
use cvebeacon.Watch.Rules.Parse.{str_len}
use cvebeacon.Watch.Messages.{
  size_of, PyLines, byte_head, slice_from, cut, pack, numbered, split_message,
}
use cvebeacon.Watch.Messages.Limit.{parts_of, split_message-Fits}

abbrev digit : ℕ → String
digit n = if n == 1 then "1" else if n == 2 then "2" else "3"

pick-size :
    (byte_limit c : Bool) (s t : String)
    → size_of byte_limit s ≤ 2
    → size_of byte_limit t ≤ 2
    → size_of byte_limit (if c then s else t) ≤ 2
pick-size byte_limit true s t h k = h
pick-size byte_limit false s t h k = k

one-size : (byte_limit : Bool) → size_of byte_limit "1" ≤ 2
unfolding size_of
one-size true = omega arith
one-size false = omega arith

two-size : (byte_limit : Bool) → size_of byte_limit "2" ≤ 2
unfolding size_of
two-size true = omega arith
two-size false = omega arith

three-size : (byte_limit : Bool) → size_of byte_limit "3" ≤ 2
unfolding size_of
three-size true = omega arith
three-size false = omega arith

digit-size : (byte_limit : Bool) (n : ℕ) → n ≤ 99 → size_of byte_limit (digit n) ≤ 2
digit-size b n h =
    pick-size b (n == 1) "1" (if n == 2 then "2" else "3") (one-size b)
      (pick-size b (n == 2) "2" "3" (two-size b) (three-size b))

instance abbrev plain_lines : PyLines
plain_lines = record {
  splitlines = λ text. "first line" ∷ "second" ∷ [];
  str_int = digit;
  str_int-size = digit-size;
}

cut_message :
    split_message "first line\nsecond" 16 false
    ≡ some ("[1/3] first l…" ∷ "[2/3] ine" ∷ "[3/3] second" ∷ [])
unfolding split_message size_of byte_head slice_from cut pack numbered str_len slice_to
cut_message = refl

split_message-Fits_example :
    (is_some (split_message "first line\nsecond" 16 false) ≡ true)
    × All (λ part. size_of false part ≤ 16) (parts_of (split_message "first line\nsecond" 16 false))
split_message-Fits_example =
    split_message-Fits false 16 (omega arith) "first line\nsecond"
      (omega (arith, ap (λ o. length (parts_of o)) cut_message))
