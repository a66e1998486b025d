-- ===== src/Watch/Messages/Limit.antt =====
-- watch/messages.py: every part of a message fits the limit of the provider.
use Prim.Native.String as Str
use cvebeacon.Prelude.{
  ℕ, zero, suc, ◌+◌, ◌-◌, ◌≤◌, ◌<◌, String, ◌≡◌, refl, sym, subst, ap, Bool, true, false, Option,
  none, some, List, [], ◌∷◌, ◌++◌, ◌&&◌, arith, ltb, leb, not, inl, inr, Bool-cases, length, is_nil,
  concat, join, All, is_some, if◌then◌else◌,
}
use cvebeacon.Watch.Rules.Parse.{str_len}
use cvebeacon.Watch.Messages.{
  size_of, PyLines, slice_from, Packing, flushed, flush, with_chunk, cut_head, cut, separator,
  appended, place, pack, numbered, labelled, lines_of, no_parts, split_message,
}
use cvebeacon.Watch.Messages.Pieces.{
  size_of-append, join-append, slice_from-length, cut_head-size, cut_head-length,
}

module _ (b : Bool) (usable : ℕ) where
  abbrev Fits : List String → Type 0
  Fits chunks = All (λ chunk. size_of b chunk ≤ usable) chunks

  All-append :
      (chunks : List String) (chunk : String)
      → Fits chunks
      → size_of b chunk ≤ usable
      → Fits (chunks ++ chunk ∷ [])
  All-append [] chunk h k = (k, tt)
  All-append (c ∷ chunks) chunk (h, hs) k = (h, All-append chunks chunk hs k)

  -- The chunks fit, and the lines that are collected have the size that is counted.
  abbrev IsPacked : Packing → Type 0
  IsPacked p = Fits p.chunks × (size_of b (join "\n" p.current) ≡ p.used) × (p.used ≤ usable)

  empty-size : size_of b "" ≡ 0
  unfolding size_of
  empty-size = refl

  flushed-IsPacked : (p : Packing) → IsPacked p → IsPacked (flushed p)
  flushed-IsPacked p (fits, same, few) =
      (All-append p.chunks (join "\n" p.current) fits (omega arith), empty-size, omega arith)

  if-IsPacked : (c : Bool) (p q : Packing) → IsPacked p → IsPacked q → IsPacked (if c then p else q)
  if-IsPacked true p q h k = h
  if-IsPacked false p q h k = k

  flush-IsPacked : (p : Packing) → IsPacked p → IsPacked (flush p)
  flush-IsPacked p h = if-IsPacked (is_nil p.current) p (flushed p) h (flushed-IsPacked p h)

  -- A line that is empty has no size.
  size-length : (s : String) → str_len s ≤ 0 → size_of b s ≡ 0
  unfolding size_of str_len
  size-length Str.[] h = refl
  size-length (Str.◌∷◌ c s) h = absurd (omega (arith, h))

  nonempty : (s : String) → usable < size_of b s → 1 ≤ str_len s
  unfolding size_of str_len
  nonempty Str.[] h = absurd (omega (arith, h))
  nonempty (Str.◌∷◌ c s) h = omega arith

  with_chunk-IsPacked :
      (chunk : String) (p : Packing)
      → size_of b chunk ≤ usable
      → IsPacked p
      → IsPacked (with_chunk chunk p)
  with_chunk-IsPacked chunk p k (fits, same, few) = (All-append p.chunks chunk fits k, same, few)

  cut-IsPacked :
      (fuel : ℕ) (line : String) (p : Packing)
      → 8 ≤ usable
      → str_len line ≤ fuel
      → IsPacked p
      → IsPacked (cut b usable fuel line p).1 × (size_of b (cut b usable fuel line p).0 ≤ usable)
  unfolding cut
  cut-IsPacked zero line p wide enough h = (h, omega (arith, size-length line enough))
  cut-IsPacked (suc fuel) line p wide enough h = elim (Bool-cases (ltb usable (size_of b line))) [
    | inl e ↦
        rw (e, cut)
          (let head = cut_head b usable line in
            cut-IsPacked fuel (slice_from (str_len head) line)
              (with_chunk (Str.◌++◌ head "…") (flush p)) wide
              (omega (
                arith,
                enough,
                slice_from-length (str_len head) line,
                cut_head-length b usable line (nonempty line (ground (arith, e))),
              ))
              (with_chunk-IsPacked (Str.◌++◌ head "…") (flush p) (cut_head-size b usable line wide)
                (flush-IsPacked p h)))
    | inr e ↦ rw (e, cut) (h, ground (arith, e))
  ]

  nil-size : (current : List String) → is_nil current ≡ true → size_of b (join "\n" current) ≡ 0
  unfolding size_of
  nil-size [] h = refl
  nil-size (l ∷ current) h = absurd (ground (arith, h))

  appended-IsPacked :
      (line : String) (p : Packing)
      → p.used + (size_of b line + separator p.current) ≤ usable
      → IsPacked p
      → IsPacked (appended b usable line p)
  appended-IsPacked line p room (fits, same, few) =
      (fits, omega (arith, join-append b p.current line, same), room)

  -- The line, of a size that fits, is put where there is room for it.
  place-IsPacked :
      (line : String) (p : Packing)
      → size_of b line ≤ usable
      → IsPacked p
      → IsPacked (place b usable (line, p))
  place-IsPacked line p fit h =
      let room = p.used + (size_of b line + separator p.current) in
      elim (Bool-cases (not (is_nil p.current) && ltb usable room)) [
        | inl e ↦
            rw e (appended-IsPacked line (flushed p) (omega (arith, fit)) (flushed-IsPacked p h))
        | inr e ↦ rw e (
            appended-IsPacked line p
              (ground (arith, e, fit, h.1, nil-size p.current, Bool-cases (is_nil p.current))) h)
      ]

  pack-IsPacked :
      (lines : List String) (p : Packing)
      → 8 ≤ usable
      → IsPacked p
      → IsPacked (pack b usable lines p)
  unfolding pack
  pack-IsPacked [] p wide h = h
  pack-IsPacked (line ∷ lines) p wide h =
      let cutting = cut b usable (str_len line) line p in
      let (packed, fit) = cut-IsPacked (str_len line) line p wide (omega arith) h in
      pack-IsPacked lines (place b usable cutting) wide
        (place-IsPacked cutting.0 cutting.1 fit packed)

total_size : Bool → List String → ℕ
total_size b [] = 0
total_size b (s ∷ ss) = size_of b s + total_size b ss

size_of-concat : (b : Bool) (ss : List String) → size_of b (concat ss) ≡ total_size b ss
unfolding total_size size_of
size_of-concat b [] = refl
size_of-concat b (s ∷ ss) = omega (arith, size_of-append b s (concat ss), size_of-concat b ss)

marks-size : (b : Bool) → size_of b "[" + (size_of b "/" + size_of b "] ") ≤ 4
unfolding size_of
marks-size true = omega arith
marks-size false = omega arith

All-weaken : (b : Bool) (m n : ℕ) (chunks : List String) → m ≤ n → Fits b m chunks → Fits b n chunks
All-weaken b m n [] h fits = tt
All-weaken b m n (c ∷ chunks) h (k, fits) = (omega (arith, h, k), All-weaken b m n chunks h fits)

abbrev pub parts_of : Option (List String) → List String
parts_of none = []
parts_of (some parts) = parts

ltb-wide : (limit : ℕ) → 16 ≤ limit → ltb limit 16 ≡ false
ltb-wide limit h = ground arith

module _ ⦃py : PyLines⦄ (b : Bool) (limit : ℕ) (wide : 16 ≤ limit) where
  numbered-Fits :
      (total index : ℕ) (chunks : List String)
      → total ≤ 99
      → index + length chunks ≤ total
      → Fits b (limit - 8) chunks
      → Fits b limit (numbered total index chunks)
  unfolding numbered total_size
  numbered-Fits total index [] small below fits = tt
  numbered-Fits total index (chunk ∷ chunks) small below (fit, fits) = (
    omega (
      arith,
      wide,
      fit,
      size_of-concat b ("[" ∷ py.str_int (index + 1) ∷ "/" ∷ py.str_int total ∷ "] " ∷ chunk ∷ []),
      py.str_int-size b (index + 1) (omega (arith, small, below)),
      py.str_int-size b total small,
      marks-size b,
    ),
    numbered-Fits total (index + 1) chunks small (omega (arith, below)) fits,
  )

  length-numbered :
      (total index : ℕ) (chunks : List String)
      → length (numbered total index chunks) ≡ length chunks
  unfolding numbered
  length-numbered total index [] = refl
  length-numbered total index (chunk ∷ chunks) =
      omega (arith, length-numbered total (index + 1) chunks)

  labelled-Fits :
      (chunks : List String)
      → Fits b (limit - 8) chunks
      → length (labelled chunks) ≤ 99
      → Fits b limit (labelled chunks)
  unfolding numbered
  labelled-Fits [] fits few = tt
  labelled-Fits (chunk ∷ []) fits few =
      All-weaken b (limit - 8) limit (chunk ∷ []) (omega arith) fits
  labelled-Fits (chunk ∷ more ∷ chunks) fits few =
      let total : ℕ = length (chunk ∷ more ∷ chunks) in
      numbered-Fits total 0 (chunk ∷ more ∷ chunks)
        (omega (arith, few, length-numbered total 0 (chunk ∷ more ∷ chunks))) (omega arith) fits

  result-Fits :
      (o : Option (List String)) (parts : List String)
      → o ≡ some parts
      → (length parts ≤ 99 → Fits b limit parts)
      → length (parts_of o) ≤ 99
      → (is_some o ≡ true) × Fits b limit (parts_of o)
  result-Fits none parts e h few = absurd (ground (arith, e))
  result-Fits (some found) parts e h few =
      let same = ap parts_of e in
      (refl, subst (Fits b limit) (sym same) (h (subst (λ ps. length ps ≤ 99) same few)))

  -- When the limit is at least 16 and the parts are at most 99, the message is split, and each
  -- part with its number fits the limit, counted in characters or in bytes.
  pub split_message-Fits :
      (text : String)
      → length (parts_of (split_message text limit b)) ≤ 99
      → (is_some (split_message text limit b) ≡ true)
        × All (λ part. size_of b part ≤ limit) (parts_of (split_message text limit b))
  unfolding split_message
  split_message-Fits text few = elim (Bool-cases (leb (size_of b text) limit)) [
    | inl e ↦
        result-Fits (split_message text limit b) (text ∷ [])
          (rw (ltb-wide limit wide, split_message) (rw (e, split_message)))
          (λ _. (ground (arith, e), tt)) few
    | inr e ↦
        let packed = pack b (limit - 8) (lines_of text) no_parts in
        let packs =
          pack-IsPacked b (limit - 8) (lines_of text) no_parts (omega (arith, wide))
            (tt, empty-size b (limit - 8), omega arith) in
        result-Fits (split_message text limit b) (labelled (flush packed).chunks)
          (rw (ltb-wide limit wide, split_message) (rw (e, split_message)))
          (labelled-Fits (flush packed).chunks (flush-IsPacked b (limit - 8) packed packs).0) few
  ]
