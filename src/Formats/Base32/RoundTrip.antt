-- ===== src/Formats/Base32/RoundTrip.antt =====
-- What base32 wrote reads back, whatever the number of bytes leaves in the last symbol.
use sygaldreye.Common.{
  ℕ, zero, suc, ◌+◌, ◌-◌, ◌*◌, ◌/◌, ◌%◌, ◌^◌, ◌<◌, ◌≡◌, refl, List, [], ◌∷◌, ◌==◌, some, none,
  bit_or, arith, ap, ap₂, ◌∙◌, All, IsByte, Bool, true, false, get_or,
}
use sygaldreye.Common.Bits.{bit_and_mask, bit_or_shift, holds_below, test_of_holds_below}
use sygaldreye.Common.Outcome.{ok, bad_base32}
use sygaldreye.Formats.Packing.{index_from, symbol, pack, unpack, drain}
use sygaldreye.Formats.Packing.Steps.{IsCodec, pack_byte, unpack_full, unpack_short}
use sygaldreye.Formats.Base32.{b32, mb32_encode, mb32_decode}

found_at : ℕ → Bool
found_at v = elim (index_from 0 b32 (get_or b32 v 0)) [ none ↦ false | some i ↦ i == v ]

found_table : holds_below found_at 32 ≡ true
unfolding holds_below found_at index_from
found_table = refl

found : (v : ℕ) → v < 32 → index_from 0 b32 (get_or b32 v 0) ≡ some v
unfolding found_at
found v h = let t = test_of_holds_below found_at v 32 h found_table in ground arith

b32-finds : (v : ℕ) → index_from 0 b32 (symbol 5 b32 v) ≡ some (v % 2 ^ 5)
unfolding symbol
b32-finds v = rw (bit_and_mask 5 v) (found (v % 32) (omega arith))

b32-pushes :
    (buf v : ℕ) → bit_or (buf * 2 ^ 5 % 2 ^ 32) (v % 2 ^ 5) ≡ buf * 2 ^ 5 % 2 ^ 32 + v % 2 ^ 5
b32-pushes buf v = omega (
  arith,
  bit_or_shift 5 (buf % 2 ^ 27) (v % 2 ^ 5) (omega arith),
  ap (λ (t : ℕ). bit_or t (v % 2 ^ 5)) aligned,
)
  where
    aligned : buf * 2 ^ 5 % 2 ^ 32 ≡ buf % 2 ^ 27 * 2 ^ 5
    aligned = omega arith

b32-IsCodec : IsCodec 5 b32
b32-IsCodec = record { finds = b32-finds; pushes = b32-pushes }

abbrev Reads : ℕ → List ℕ → Type 0
Reads zero bs = (buf buf' : ℕ) → unpack 5 b32 bad_base32 (pack 5 b32 bs buf 0) buf' 0 ≡ ok bs
Reads (suc n) bs =
    (last buf buf' : ℕ)
    → last < 256
    → buf % 2 ^ suc n ≡ last % 2 ^ suc n
    → buf' % 2 ^ (7 - n) ≡ last / 2 ^ suc n
    → unpack 5 b32 bad_base32 (pack 5 b32 bs buf (suc n)) buf' (7 - n) ≡ ok (last ∷ bs)

read_0 : (b : ℕ) (bs : List ℕ) → b < 256 → Reads 3 bs → Reads 0 (b ∷ bs)
unfolding drain
read_0 b bs h next buf buf' = rw (pack_byte 5 b32 b bs buf 0 h) (
    let v = buf * 256 % 2 ^ 32 + b in
    rw (unpack_short 5 b32 bad_base32 _ _ buf' 0 5 b32-IsCodec (omega arith) (omega arith))
      (next b v _ h (omega arith) (omega arith)))

read_1 : (b : ℕ) (bs : List ℕ) → b < 256 → Reads 4 bs → Reads 1 (b ∷ bs)
unfolding drain
read_1 b bs h next last buf buf' hl e e' = rw (pack_byte 5 b32 b bs buf 1 h) (
    unpack_full 5 b32 bad_base32 _ _ buf' 7 4 b32-IsCodec (omega arith)
      (next b _ _ h (omega arith) (omega arith))
    ∙ ap (λ (t : ℕ). ok (t ∷ b ∷ bs)) (omega arith))

read_2 : (b : ℕ) (bs : List ℕ) → b < 256 → Reads 0 bs → Reads 2 (b ∷ bs)
unfolding drain
read_2 b bs h next last buf buf' hl e e' = rw (pack_byte 5 b32 b bs buf 2 h) (
    unpack_full 5 b32 bad_base32 _ _ buf' 6 3 b32-IsCodec (omega arith)
      (unpack_full 5 b32 bad_base32 _ _ _ 3 0 b32-IsCodec (omega arith) (next _ _))
    ∙ ap₂ (λ (s t : ℕ). ok (s ∷ t ∷ bs)) (omega arith) (omega arith))

read_3 : (b : ℕ) (bs : List ℕ) → b < 256 → Reads 1 bs → Reads 3 (b ∷ bs)
unfolding drain
read_3 b bs h next last buf buf' hl e e' = rw (pack_byte 5 b32 b bs buf 3 h) (
    unpack_full 5 b32 bad_base32 _ _ buf' 5 2 b32-IsCodec (omega arith) (
      unpack_short 5 b32 bad_base32 _ _ _ 2 7 b32-IsCodec (omega arith) (omega arith)
      ∙ next b _ _ h (omega arith) (omega arith))
    ∙ ap (λ (t : ℕ). ok (t ∷ b ∷ bs)) (omega arith))

read_4 : (b : ℕ) (bs : List ℕ) → b < 256 → Reads 2 bs → Reads 4 (b ∷ bs)
unfolding drain
read_4 b bs h next last buf buf' hl e e' = rw (pack_byte 5 b32 b bs buf 4 h) (
    unpack_full 5 b32 bad_base32 _ _ buf' 4 1 b32-IsCodec (omega arith) (
      unpack_short 5 b32 bad_base32 _ _ _ 1 6 b32-IsCodec (omega arith) (omega arith)
      ∙ next b _ _ h (omega arith) (omega arith))
    ∙ ap (λ (t : ℕ). ok (t ∷ b ∷ bs)) (omega arith))

-- The symbol that carries the bits left over completes the last byte.
read_end : (n : ℕ) → n < 5 → Reads n []
unfolding pack unpack
read_end zero h = λ buf buf'. refl
read_end (suc zero) h = λ last buf buf' hl e e'.
    unpack_full 5 b32 bad_base32 _ [] buf' 7 4 b32-IsCodec (omega arith) refl
    ∙ ap (λ (t : ℕ). ok (t ∷ [])) (omega arith)
read_end (suc (suc zero)) h = λ last buf buf' hl e e'.
    unpack_full 5 b32 bad_base32 _ [] buf' 6 3 b32-IsCodec (omega arith) refl
    ∙ ap (λ (t : ℕ). ok (t ∷ [])) (omega arith)
read_end (suc (suc (suc zero))) h = λ last buf buf' hl e e'.
    unpack_full 5 b32 bad_base32 _ [] buf' 5 2 b32-IsCodec (omega arith) refl
    ∙ ap (λ (t : ℕ). ok (t ∷ [])) (omega arith)
read_end (suc (suc (suc (suc zero)))) h = λ last buf buf' hl e e'.
    unpack_full 5 b32 bad_base32 _ [] buf' 4 1 b32-IsCodec (omega arith) refl
    ∙ ap (λ (t : ℕ). ok (t ∷ [])) (omega arith)
read_end (suc (suc (suc (suc (suc n))))) h = absurd (omega arith)

reads : (bs : List ℕ) → All IsByte bs → (n : ℕ) → n < 5 → Reads n bs
reads [] h n lt = read_end n lt
reads (b ∷ bs) h zero lt = read_0 b bs h.0 (reads bs h.1 3 (omega arith))
reads (b ∷ bs) h (suc zero) lt = read_1 b bs h.0 (reads bs h.1 4 (omega arith))
reads (b ∷ bs) h (suc (suc zero)) lt = read_2 b bs h.0 (reads bs h.1 0 (omega arith))
reads (b ∷ bs) h (suc (suc (suc zero))) lt = read_3 b bs h.0 (reads bs h.1 1 (omega arith))
reads (b ∷ bs) h (suc (suc (suc (suc zero)))) lt = read_4 b bs h.0 (reads bs h.1 2 (omega arith))
reads (b ∷ bs) h (suc (suc (suc (suc (suc n))))) lt = absurd (omega arith)

-- Decoding the base32 text of any bytes gives those bytes.
pub mb32_decode-mb32_encode :
    (bytes : List ℕ) → All IsByte bytes → mb32_decode (mb32_encode bytes) ≡ ok bytes
unfolding mb32_decode mb32_encode
mb32_decode-mb32_encode bytes h = reads bytes h 0 (omega arith) 0 0
