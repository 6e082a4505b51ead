-- ===== src/Formats/Packing/Steps.antt =====
-- One round of each loop, in plain arithmetic.
use sygaldreye.Common.{
  ℕ, ◌+◌, ◌-◌, ◌*◌, ◌/◌, ◌%◌, ◌^◌, ◌<◌, ◌≡◌, List, ◌∷◌, ◌++◌, some, leb, bit_and, bit_or, arith, ap,
  true, false, le→leb, lt→leb_false,
}
use sygaldreye.Common.Bits.{bit_and_mask, bit_or_shift}
use sygaldreye.Common.Outcome.{Error, ok, >>=-ok}
use sygaldreye.Formats.Packing.{index_from, symbol, drain, pack, unpack}

pub low_byte : (a : ℕ) → bit_and a 0xff ≡ a % 256
low_byte = bit_and_mask 8

push_byte : (buf b : ℕ) → b < 256 → bit_or (buf * 2 ^ 8 % 2 ^ 32) b ≡ buf * 256 % 2 ^ 32 + b
push_byte buf b h =
    omega (arith, bit_or_shift 8 (buf % 2 ^ 24) b h, ap (λ (t : ℕ). bit_or t b) aligned)
  where
    aligned : buf * 2 ^ 8 % 2 ^ 32 ≡ buf % 2 ^ 24 * 2 ^ 8
    aligned = omega arith

-- What the proofs about a codec need of its width and its alphabet.
pub record IsCodec (width : ℕ) (alphabet : List ℕ) : Type 0 where
  pub finds : (v : ℕ) → index_from 0 alphabet (symbol width alphabet v) ≡ some (v % 2 ^ width)
  pub pushes :
      (buf v : ℕ)
      → bit_or (buf * 2 ^ width % 2 ^ 32) (v % 2 ^ width) ≡ buf * 2 ^ width % 2 ^ 32 + v % 2 ^ width

module _ (width : ℕ) (alphabet : List ℕ) where
  -- The encoder's buffer after a byte.
  pub pack_byte :
      (b : ℕ) (bs : List ℕ) (buf nbits : ℕ)
      → b < 256
      → pack width alphabet (b ∷ bs) buf nbits ≡ (
          let buf' = buf * 256 % 2 ^ 32 + b in
          let pushed = drain width alphabet (nbits + 8) buf' (nbits + 8) in
          pushed.0 ++ pack width alphabet bs buf' pushed.1)
  unfolding pack
  pack_byte b bs buf nbits h = rw (push_byte buf b h)

  -- A symbol that the encoder wrote, read with at least 8 bits pending, completes a byte.
  pub unpack_full :
      (bad : Error) (v : ℕ) (cs : List ℕ) (buf nbits left : ℕ) {bytes : List ℕ}
      → IsCodec width alphabet
      → nbits + width ≡ left + 8
      → unpack width alphabet bad cs (buf * 2 ^ width % 2 ^ 32 + v % 2 ^ width) left ≡ ok bytes
      → unpack width alphabet bad (symbol width alphabet v ∷ cs) buf nbits
        ≡ ok ((buf * 2 ^ width % 2 ^ 32 + v % 2 ^ width) / 2 ^ left % 256 ∷ bytes)
  unfolding unpack
  unpack_full bad v cs buf nbits left codec e h =
      let full : leb 8 (nbits + width) ≡ true = le→leb _ _ (omega arith) in
      let rest_bits : nbits + width - 8 ≡ left = omega arith in
      rw (codec.finds v, unpack, codec.pushes, full, rest_bits, h, low_byte)

  -- Otherwise it only joins the buffer.
  pub unpack_short :
      (bad : Error) (v : ℕ) (cs : List ℕ) (buf nbits left : ℕ)
      → IsCodec width alphabet
      → nbits + width ≡ left
      → left < 8
      → unpack width alphabet bad (symbol width alphabet v ∷ cs) buf nbits
        ≡ unpack width alphabet bad cs (buf * 2 ^ width % 2 ^ 32 + v % 2 ^ width) left
  unfolding unpack
  unpack_short bad v cs buf nbits left codec e h =
      let short : leb 8 left ≡ false = lt→leb_false _ _ h in
      rw (codec.finds v, unpack, codec.pushes, e, short, >>=-ok)
