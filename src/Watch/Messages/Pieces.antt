-- ===== src/Watch/Messages/Pieces.antt =====
-- watch/messages.py: the sizes of the pieces of a text.
use Prim.Native.Char.{Char}
use Prim.Native.String as Str
use text.Mathlib.TextLemmas.{nil-append, cons-append}
use cvebeacon.Prelude.{
  ℕ, zero, suc, ◌+◌, ◌-◌, ◌≤◌, String, ◌≡◌, refl, ap, Bool, true, false, List, [], ◌∷◌, ◌++◌, arith,
  ltb, inl, inr, Bool-cases, join, slice_to,
}
use cvebeacon.Watch.Rules.Parse.{str_len}
use cvebeacon.Watch.Messages.{
  width, size_of, byte_head, head_of, slice_from, head_or, cut_head, separator,
}

pub size_of-append :
    (b : Bool) (s t : String) → size_of b (Str.◌++◌ s t) ≡ size_of b s + size_of b t
unfolding size_of
size_of-append b Str.[] t = omega (arith, ap (size_of b) (nil-append t))
size_of-append b (Str.◌∷◌ c s) t =
    omega (arith, size_of-append b s t, ap (size_of b) (cons-append c s t))

newline-size : (b : Bool) → size_of b "\n" ≡ 1
unfolding size_of
newline-size true = refl
newline-size false = refl

-- A text that is put at the end of those that are joined by line ends.
pub join-append :
    (b : Bool) (lines : List String) (line : String)
    → size_of b (join "\n" (lines ++ line ∷ []))
      ≡ size_of b (join "\n" lines) + (size_of b line + separator lines)
unfolding size_of
join-append b [] line = omega arith
join-append b (l ∷ []) line =
    omega
      (arith, size_of-append b l (Str.◌++◌ "\n" line), size_of-append b "\n" line, newline-size b)
join-append b (l ∷ m ∷ lines) line = omega (
  arith,
  size_of-append b l (Str.◌++◌ "\n" (join "\n" (m ∷ (lines ++ line ∷ [])))),
  size_of-append b "\n" (join "\n" (m ∷ (lines ++ line ∷ []))),
  size_of-append b l (Str.◌++◌ "\n" (join "\n" (m ∷ lines))),
  size_of-append b "\n" (join "\n" (m ∷ lines)),
  join-append b (m ∷ lines) line,
)

pub width-bounds : (b : Bool) (c : Char) → (1 ≤ width b c) × (width b c ≤ 4)
width-bounds b c = ground arith

ltb-false : (m n : ℕ) → ltb m n ≡ false → n ≤ m
ltb-false m n h = ground (arith, h)

byte_head-size : (room : ℕ) (s : String) → size_of true (byte_head room s) ≤ room
unfolding size_of byte_head
byte_head-size room Str.[] = omega arith
byte_head-size room (Str.◌∷◌ c s) = elim (Bool-cases (ltb room (width true c))) [
  | inl e ↦ rw (e, byte_head) (omega arith)
  | inr e ↦
      rw (e, byte_head)
        (omega (arith, byte_head-size (room - width true c) s, ltb-false room (width true c) e))
]

slice_to-size : (n : ℕ) (s : String) → size_of false (slice_to n s) ≤ n
unfolding size_of slice_to
slice_to-size zero s = omega arith
slice_to-size (suc n) Str.[] = omega arith
slice_to-size (suc n) (Str.◌∷◌ c s) = omega (arith, slice_to-size n s)

pub slice_from-length : (n : ℕ) (s : String) → str_len (slice_from n s) ≡ str_len s - n
unfolding str_len slice_from
slice_from-length zero s = omega arith
slice_from-length (suc n) Str.[] = omega arith
slice_from-length (suc n) (Str.◌∷◌ c s) = omega (arith, slice_from-length n s)

ellipsis-size : (b : Bool) → size_of b "…" ≤ 3
unfolding size_of
ellipsis-size true = omega arith
ellipsis-size false = omega arith

head_of-size : (b : Bool) (room : ℕ) (line : String) → size_of b (head_of b room line) ≤ room
head_of-size true room line = byte_head-size room line
head_of-size false room line = slice_to-size room line

first-size : (b : Bool) (line : String) → size_of b (slice_to 1 line) ≤ 4
unfolding size_of slice_to
first-size b Str.[] = omega arith
first-size b (Str.◌∷◌ c s) = omega (arith, (width-bounds b c).1)

head_or-size :
    (b : Bool) (room : ℕ) (head line : String)
    → 4 ≤ room
    → size_of b head ≤ room
    → size_of b (head_or head line) ≤ room
head_or-size b room Str.[] line h k = omega (arith, h, first-size b line)
head_or-size b room (Str.◌∷◌ c s) line h k = k

head_or-length : (head line : String) → 1 ≤ str_len line → 1 ≤ str_len (head_or head line)
unfolding str_len slice_to
head_or-length Str.[] Str.[] h = h
head_or-length Str.[] (Str.◌∷◌ c s) h = omega arith
head_or-length (Str.◌∷◌ c s) line h = omega arith

-- What is cut off a line that is too long is some of it, and leaves room for the ellipsis.
pub cut_head-size :
    (b : Bool) (usable : ℕ) (line : String)
    → 8 ≤ usable
    → size_of b (Str.◌++◌ (cut_head b usable line) "…") ≤ usable
cut_head-size b usable line h =
    let room : ℕ = usable - size_of b "…" in
    omega (
      arith,
      h,
      ellipsis-size b,
      size_of-append b (cut_head b usable line) "…",
      head_or-size b room (head_of b room line) line (omega (arith, h, ellipsis-size b))
          (head_of-size b room line),
    )

pub cut_head-length :
    (b : Bool) (usable : ℕ) (line : String)
    → 1 ≤ str_len line
    → 1 ≤ str_len (cut_head b usable line)
cut_head-length b usable line h = head_or-length (head_of b (usable - size_of b "…") line) line h
