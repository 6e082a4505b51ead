-- ===== src/Formats/Varint.antt =====
-- The unsigned varint of formats/cid/cid.cpp, and of mesh/link/link.cpp, which repeats it.
pub mod RoundTrip
use sygaldreye.Common.{
  ℕ, zero, suc, ◌+◌, ◌/◌, ◌%◌, List, [], ◌∷◌, Option, none, some, leb, ◌==◌, bit_and, bit_or,
  if◌then◌else◌, true, false,
}
use sygaldreye.Common.Bits.{shl}
use sygaldreye.Common.Outcome.{Outcome, ok, fault}

-- The loop `while (v >= 0x80)`, and the byte after it. A round divides `v` by 128, so `v` rounds are
-- more than enough.
unfoldable pub put_varint_loop : ℕ → ℕ → List ℕ
put_varint_loop zero v = v % 256 ∷ []
put_varint_loop (suc fuel) v = elim (leb 0x80 v) [
  | true ↦ bit_or v 0x80 % 256 ∷ put_varint_loop fuel (v / 128)
  | false ↦ v % 256 ∷ []
]

unfoldable pub put_varint : ℕ → List ℕ
unfolding put_varint_loop
put_varint v = put_varint_loop v v

-- The reader: `none` is its answer `false`, at the end of the bytes. A uint64_t shifted by 64 or more
-- is undefined behaviour, and nothing in the code stops `shift` from getting there.
unfoldable pub get_varint : List ℕ → ℕ → ℕ → Outcome (Option (ℕ × List ℕ))
get_varint [] v shift = ok none
get_varint (b ∷ bs) v shift =
    let v' = bit_or v (shl 64 (bit_and b 0x7f) shift) in
    let more = get_varint bs v' (shift + 7) in
    if leb 64 shift then fault else if bit_and b 0x80 == 0 then ok (some (v', bs)) else more
