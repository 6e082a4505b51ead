-- ===== src/Formats/Packing.antt =====
-- The two loops that formats/cid/cid.cpp and formats/dagcbor/dagcbor.cpp each spell out, at 5 and
-- at 6 bits a symbol. `buf` is an `unsigned`, so it keeps its low 32 bits.
pub mod Steps
use sygaldreye.Common.{
  ℕ, zero, suc, ◌+◌, ◌-◌, ◌^◌, List, [], ◌∷◌, ◌++◌, Option, none, some, leb, ◌==◌, bit_and, bit_or,
  get_or, if◌then◌else◌, true, false,
}
use sygaldreye.Common.Bits.{shr, shl}
use sygaldreye.Common.Outcome.{Error, Outcome, ok, throws, ◌>>=◌}

-- `alphabet.find(c)`.
unfoldable pub index_from : ℕ → List ℕ → ℕ → Option ℕ
index_from i [] c = none
index_from i (a ∷ rest) c = if a == c then some i else index_from (i + 1) rest c

module _ (width : ℕ) (alphabet : List ℕ) where
  -- `alphabet[v & mask]`.
  unfoldable pub symbol : ℕ → ℕ
  symbol v = get_or alphabet (bit_and v (2 ^ width - 1)) 0

  -- The inner `while (nbits >= width)`: the symbols that it pushes, and `nbits` after it. Each round
  -- takes `width` from `nbits`, so `nbits` rounds are enough.
  unfoldable pub drain : ℕ → ℕ → ℕ → List ℕ × ℕ
  drain zero buf nbits = ([], nbits)
  drain (suc fuel) buf nbits = elim (leb width nbits) [
    | true ↦
        let rest = drain fuel buf (nbits - width) in
        (symbol (shr buf (nbits - width)) ∷ rest.0, rest.1)
    | false ↦ ([], nbits)
  ]

  -- The encoder's loop over the bytes, and its last symbol.
  unfoldable pub pack : List ℕ → ℕ → ℕ → List ℕ
  pack [] buf nbits = if nbits == 0 then [] else symbol (shl 32 buf (width - nbits)) ∷ []
  pack (b ∷ bs) buf nbits =
      let buf' = bit_or (shl 32 buf 8) b in
      let pushed = drain (nbits + 8) buf' (nbits + 8) in pushed.0 ++ pack bs buf' pushed.1

  -- The decoder's loop over the symbols.
  unfoldable pub unpack : Error → List ℕ → ℕ → ℕ → Outcome (List ℕ)
  unpack bad [] buf nbits = ok []
  unpack bad (c ∷ cs) buf nbits = elim (index_from 0 alphabet c) [
    | none ↦ throws bad
    | some pos ↦
        let buf' = bit_or (shl 32 buf width) pos in
        let full = leb 8 (nbits + width) in
        let left = if full then nbits + width - 8 else nbits + width in
        do
          rest ← unpack bad cs buf' left
          ok (if full then bit_and (shr buf' left) 0xff ∷ rest else rest)
  ]
