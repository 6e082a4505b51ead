-- ===== src/Formats/Base64/RoundTrip.antt =====
-- What base64 wrote reads back, whatever the number of bytes leaves in the last symbol.
use sygaldreye.Common.{
  ℕ, ◌+◌, ◌-◌, ◌*◌, ◌/◌, ◌%◌, ◌^◌, ◌<◌, ◌≡◌, refl, List, [], ◌∷◌, ◌==◌, some, none, bit_or, arith,
  ap, ap₂, ◌∙◌, All, IsByte, Bool, true, false, get_or,
}
use sygaldreye.Common.Bits.{bit_and_mask, bit_or_shift, holds_below, test_of_holds_below}
use sygaldreye.Common.Outcome.{Outcome, ok, bad_base64}
use sygaldreye.Formats.Packing.{index_from, symbol, pack, unpack, drain}
use sygaldreye.Formats.Packing.Steps.{IsCodec, pack_byte, unpack_full, unpack_short}
use sygaldreye.Formats.Base64.{b64_alphabet, base64_encode, base64_decode}

found_at : ℕ → Bool
found_at v = elim (index_from 0 b64_alphabet (get_or b64_alphabet v 0)) [
  | none ↦ false
  | some i ↦ i == v
]

found_table : holds_below found_at 64 ≡ true
unfolding holds_below found_at index_from
found_table = refl

found : (v : ℕ) → v < 64 → index_from 0 b64_alphabet (get_or b64_alphabet v 0) ≡ some v
unfolding found_at
found v h = let t = test_of_holds_below found_at v 64 h found_table in ground arith

b64-finds : (v : ℕ) → index_from 0 b64_alphabet (symbol 6 b64_alphabet v) ≡ some (v % 2 ^ 6)
unfolding symbol
b64-finds v = rw (bit_and_mask 6 v) (found (v % 64) (omega arith))

b64-pushes :
    (buf v : ℕ) → bit_or (buf * 2 ^ 6 % 2 ^ 32) (v % 2 ^ 6) ≡ buf * 2 ^ 6 % 2 ^ 32 + v % 2 ^ 6
b64-pushes buf v = omega (
  arith,
  bit_or_shift 6 (buf % 2 ^ 26) (v % 2 ^ 6) (omega arith),
  ap (λ (t : ℕ). bit_or t (v % 2 ^ 6)) aligned,
)
  where
    aligned : buf * 2 ^ 6 % 2 ^ 32 ≡ buf % 2 ^ 26 * 2 ^ 6
    aligned = omega arith

b64-IsCodec : IsCodec 6 b64_alphabet
b64-IsCodec = record { finds = b64-finds; pushes = b64-pushes }

abbrev unpacked : List ℕ → ℕ → ℕ → ℕ → Outcome (List ℕ)
unpacked bs buf n buf' =
    unpack 6 b64_alphabet bad_base64 (pack 6 b64_alphabet bs buf n) buf' (8 - n)

-- `n` bits of the byte `last` are still to be written, and its others have been read.
record Reads (n : ℕ) (bs : List ℕ) : Type 0 where
  reads :
      (last buf buf' : ℕ)
      → last < 256
      → buf % 2 ^ n ≡ last % 2 ^ n
      → buf' % 2 ^ (8 - n) ≡ last / 2 ^ n
      → unpacked bs buf n buf' ≡ ok (last ∷ bs)

abbrev ReadsWhole : List ℕ → Type 0
ReadsWhole bs =
    (buf buf' : ℕ) → unpack 6 b64_alphabet bad_base64 (pack 6 b64_alphabet bs buf 0) buf' 0 ≡ ok bs

read_0 : (b : ℕ) (bs : List ℕ) → b < 256 → Reads 2 bs → ReadsWhole (b ∷ bs)
unfolding drain
read_0 b bs h next buf buf' = rw (pack_byte 6 b64_alphabet b bs buf 0 h) (
    unpack_short 6 b64_alphabet bad_base64 _ _ buf' 0 6 b64-IsCodec (omega arith) (omega arith)
    ∙ next.reads b _ _ h (omega arith) (omega arith))

read_2 : (b : ℕ) (bs : List ℕ) → b < 256 → Reads 4 bs → Reads 2 (b ∷ bs)
unfolding drain
read_2 b bs h next = record {
  reads = λ last buf buf' hl e e'. rw (pack_byte 6 b64_alphabet b bs buf 2 h) (
      unpack_full 6 b64_alphabet bad_base64 _ _ buf' 6 4 b64-IsCodec (omega arith)
        (next.reads b _ _ h (omega arith) (omega arith))
      ∙ ap (λ (t : ℕ). ok (t ∷ b ∷ bs)) (omega arith));
}

read_4 : (b : ℕ) (bs : List ℕ) → b < 256 → ReadsWhole bs → Reads 4 (b ∷ bs)
unfolding drain
read_4 b bs h next = record {
  reads = λ last buf buf' hl e e'. rw (pack_byte 6 b64_alphabet b bs buf 4 h) (
      unpack_full 6 b64_alphabet bad_base64 _ _ buf' 4 2 b64-IsCodec (omega arith)
        (unpack_full 6 b64_alphabet bad_base64 _ _ _ 2 0 b64-IsCodec (omega arith) (next _ _))
      ∙ ap₂ (λ (s t : ℕ). ok (s ∷ t ∷ bs)) (omega arith) (omega arith));
}

end_2 : Reads 2 []
unfolding pack unpack
end_2 = record {
  reads = λ last buf buf' hl e e'.
      unpack_full 6 b64_alphabet bad_base64 _ [] buf' 6 4 b64-IsCodec (omega arith) refl
      ∙ ap (λ (t : ℕ). ok (t ∷ [])) (omega arith);
}

end_4 : Reads 4 []
unfolding pack unpack
end_4 = record {
  reads = λ last buf buf' hl e e'.
      unpack_full 6 b64_alphabet bad_base64 _ [] buf' 4 2 b64-IsCodec (omega arith) refl
      ∙ ap (λ (t : ℕ). ok (t ∷ [])) (omega arith);
}

-- The three phases, together.
three_phases : (bs : List ℕ) → All IsByte bs → ReadsWhole bs × Reads 2 bs × Reads 4 bs
unfolding pack unpack
three_phases [] h = (λ buf buf'. refl, end_2, end_4)
three_phases (b ∷ bs) h =
    let (r0, r2, r4) = three_phases bs h.1 in
    (read_0 b bs h.0 r2, read_2 b bs h.0 r4, read_4 b bs h.0 r0)

-- Decoding the base64 text of any bytes gives those bytes.
pub base64_decode-base64_encode :
    (bytes : List ℕ) → All IsByte bytes → base64_decode (base64_encode bytes) ≡ ok bytes
unfolding base64_decode base64_encode
base64_decode-base64_encode bytes h = (three_phases bytes h).0 0 0
