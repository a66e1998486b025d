-- ===== src/Watch/Messages.antt =====
-- watch/messages.py: `_size`, `_head` and `split_message`, which cut a message into parts that a
-- provider accepts.
pub mod Pieces
pub mod Limit
mod Tests
use Prim.Native.Char.{code, Char}
use Prim.Native.String as Str
use cvebeacon.Prelude.{
  ℕ, zero, suc, ◌+◌, ◌-◌, ◌≤◌, String, Bool, true, false, Option, none, some, List, [], ◌∷◌, ◌++◌,
  ◌&&◌, not, ltb, leb, length, is_nil, concat, join, slice_to, if◌then◌else◌,
}
use cvebeacon.Watch.Rules.Parse.{str_len}

-- The bytes of a code point in UTF-8.
abbrev utf8_width : ℕ → ℕ
utf8_width n = if ltb n 128 then 1 else if ltb n 2048 then 2 else if ltb n 65536 then 3 else 4

abbrev pub width : Bool → Char → ℕ
width false c = 1
width true c = utf8_width (code c)

-- `_size(value, byte_limit)`
unfoldable pub size_of : Bool → String → ℕ
size_of byte_limit Str.[] = zero
size_of byte_limit (Str.◌∷◌ c s) = width byte_limit c + size_of byte_limit s

-- `text.splitlines()` and `str` of a number: below 100 it has at most two characters, of one byte.
pub record PyLines : Type 0 where
  pub splitlines : String → List String
  pub str_int : ℕ → String
  pub str_int-size : (byte_limit : Bool) (n : ℕ) → n ≤ 99 → size_of byte_limit (str_int n) ≤ 2

-- The loop of `_head`, with the bytes that are left.
unfoldable pub byte_head : ℕ → String → String
byte_head room Str.[] = ""
byte_head room (Str.◌∷◌ c s) =
    let rest = Str.◌∷◌ c (byte_head (room - width true c) s) in
    if ltb room (width true c) then "" else rest

-- `_head(value, size_limit, byte_limit)`
abbrev pub head_of : Bool → ℕ → String → String
head_of false room value = slice_to room value
head_of true room value = byte_head room value

-- `text[n:]`
unfoldable pub slice_from : ℕ → String → String
slice_from zero s = s
slice_from (suc n) Str.[] = ""
slice_from (suc n) (Str.◌∷◌ c s) = slice_from n s

-- `if not head: head = line[:1]`
abbrev pub head_or : String → String → String
head_or Str.[] line = slice_to 1 line
head_or (Str.◌∷◌ c s) line = Str.◌∷◌ c s

-- The variables of the loop over the lines.
pub record Packing : Type 0 where
  pub chunks : List String
  pub current : List String
  pub used : ℕ

abbrev pub flushed : Packing → Packing
flushed p = record { chunks = p.chunks ++ join "\n" p.current ∷ []; current = []; used = 0 }

-- `if current: chunks.append("\n".join(current)); current, used = [], 0`
abbrev pub flush : Packing → Packing
flush p = if is_nil p.current then p else flushed p

abbrev pub with_chunk : String → Packing → Packing
with_chunk chunk p = record { chunks = p.chunks ++ chunk ∷ []; current = p.current; used = p.used }

-- `1 if current else 0`
abbrev pub separator : List String → ℕ
separator current = if is_nil current then 0 else 1

module _ (byte_limit : Bool) (usable : ℕ) where
  abbrev pub cut_head : String → String
  cut_head line = head_or (head_of byte_limit (usable - size_of byte_limit "…") line) line

  -- `while _size(line, byte_limit) > usable`: the line that is left, and the chunks before it.
  unfoldable pub cut : (fuel : ℕ) → String → Packing → String × Packing
  cut zero line p = (line, p)
  cut (suc fuel) line p =
      let head = cut_head line in
      let rest =
        cut fuel (slice_from (str_len head) line) (with_chunk (Str.◌++◌ head "…") (flush p)) in
      if ltb usable (size_of byte_limit line) then rest else (line, p)

  abbrev pub appended : String → Packing → Packing
  appended line p = record {
    chunks = p.chunks;
    current = p.current ++ line ∷ [];
    used = p.used + (size_of byte_limit line + separator p.current);
  }

  -- The rest of the loop's body, once the line fits.
  abbrev pub place : String × Packing → Packing
  place (line, p) = appended line (
      if not (is_nil p.current)
        && ltb usable (p.used + (size_of byte_limit line + separator p.current))
      then flushed p
      else p)

  -- The loop over the lines; each turn of its inner loop takes a character at least.
  unfoldable pub pack : List String → Packing → Packing
  pack [] p = p
  pack (line ∷ lines) p = pack lines (place (cut (str_len line) line p))

module _ ⦃py : PyLines⦄ where
  -- `f"[{index + 1}/{len(chunks)}] {chunk}"` for each chunk
  unfoldable pub numbered : (total index : ℕ) → List String → List String
  numbered total index [] = []
  numbered total index (chunk ∷ chunks) =
      concat ("[" ∷ py.str_int (index + 1) ∷ "/" ∷ py.str_int total ∷ "] " ∷ chunk ∷ [])
      ∷ numbered total (index + 1) chunks

  abbrev pub labelled : List String → List String
  labelled [] = numbered 0 0 []
  labelled (chunk ∷ []) = chunk ∷ []
  labelled (chunk ∷ more ∷ chunks) =
      numbered (length (chunk ∷ more ∷ chunks)) 0 (chunk ∷ more ∷ chunks)

  abbrev pub lines_of : String → List String
  lines_of text = let lines = py.splitlines text in if is_nil lines then "" ∷ [] else lines

  abbrev pub no_parts : Packing
  no_parts = record { chunks = []; current = []; used = 0 }

  -- `split_message`, without a result for its ValueError.
  unfoldable pub split_message : String → (limit : ℕ) → (byte_limit : Bool) → Option (List String)
  split_message text limit byte_limit =
      let usable = limit - 8 in
      if ltb limit 16
      then none
      else if leb (size_of byte_limit text) limit
      then some (text ∷ [])
      else some (labelled (flush (pack byte_limit usable (lines_of text) no_parts)).chunks)
