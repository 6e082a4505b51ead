-- ===== src/Formats/Varint/RoundTrip.antt =====
-- A varint that was written reads back, and only overlong ones are undefined.
use sygaldreye.Common.{
  ℕ, zero, suc, ◌+◌, ◌*◌, ◌/◌, ◌%◌, ◌^◌, ◌≤◌, ◌<◌, ◌≡◌, List, [], ◌∷◌, ◌++◌, some, arith, ap, ◌∙◌,
  ◌≢◌, ◌⊎◌, inl, inr, sym, le→leb, lt→leb_false, bit_and, bit_or, All, length,
}
use sygaldreye.Common.Bits.{shl, bit_and_mask, bit_or_under, bit_and_top, bit_or_top, exponent_lt}
use sygaldreye.Common.Outcome.{ok, fault}
use sygaldreye.Formats.Varint.{put_varint_loop, put_varint, get_varint}
use native.Mathlib.Decide.{dec_lt}
use native.Mathlib.Nat.{div-add-mod}
use native.Mathlib.Numerals.{towards_suc}

shift_seven : (s : ℕ) → 2 ^ (s + 7) ≡ 128 * 2 ^ s
shift_seven s = simp towards_suc (omega arith)

-- The group of a byte, at its place in the number.
absorb : (g v s : ℕ) → v < 2 ^ s → v + g * 2 ^ s < 2 ^ 64 → bit_or v (shl 64 g s) ≡ v + g * 2 ^ s
absorb g v s hv fits =
    let whole : g * 2 ^ s % 2 ^ 64 ≡ g * 2 ^ s = omega arith in
    rw whole (omega (arith, bit_or_under s g v hv))

last_byte :
    (w v s : ℕ) (rest : List ℕ)
    → w < 128
    → s < 64
    → v < 2 ^ s
    → v + w * 2 ^ s < 2 ^ 64
    → get_varint (w % 256 ∷ rest) v s ≡ ok (some (v + w * 2 ^ s, rest))
unfolding get_varint
last_byte w v s rest hw hs hv fits =
    let byte : w % 256 ≡ w = omega arith in
    let group : bit_and w 0x7f ≡ w = omega (arith, bit_and_mask 7 w) in
    let top : bit_and w 0x80 ≡ 0 = omega (arith, bit_and_top w) in
    rw (byte, group, top, absorb w v s hv fits, lt→leb_false 64 s hs)

inner_byte :
    (w v s : ℕ) (rest : List ℕ)
    → s < 64
    → v < 2 ^ s
    → v + w % 128 * 2 ^ s < 2 ^ 64
    → get_varint (bit_or w 0x80 % 256 ∷ rest) v s ≡ get_varint rest (v + w % 128 * 2 ^ s) (s + 7)
unfolding get_varint
inner_byte w v s rest hs hv fits =
    let group : bit_and (w % 128 + 128) 0x7f ≡ w % 128 =
      omega (arith, bit_and_mask 7 (w % 128 + 128)) in
    let top : bit_and (w % 128 + 128) 0x80 ≡ 128 = omega (arith, bit_and_top (w % 128 + 128)) in
    rw (bit_or_top, group, top, absorb (w % 128) v s hv fits, lt→leb_false 64 s hs)

-- The lowest group of `w` and the others, at bit `s`.
split_group : (w s : ℕ) → w * 2 ^ s ≡ w % 128 * 2 ^ s + w / 128 * 2 ^ (s + 7)
split_group w s = rw shift_seven (ap (λ (t : ℕ). t * 2 ^ s) (sym (div-add-mod w 128)) ∙ omega arith)

group_room : (w v s : ℕ) → v < 2 ^ s → v + w % 128 * 2 ^ s < 2 ^ (s + 7)
group_room w v s h = omega (arith, shift_seven s, bounded)
  where
    small : w % 128 ≤ 127
    small = omega arith

    bounded : w % 128 * 2 ^ s ≤ 127 * 2 ^ s
    bounded = grind (arith, small)

shift_room : (w v s : ℕ) → 128 ≤ w → v + w * 2 ^ s < 2 ^ 64 → s + 7 < 64
shift_room w v s h fits = exponent_lt (s + 7) 64 (omega (arith, split_group w s, counted))
  where
    some_left : 1 ≤ w / 128
    some_left = omega arith

    counted : 1 * 2 ^ (s + 7) ≤ w / 128 * 2 ^ (s + 7)
    counted = grind (arith, some_left)

-- `w` is what is still to be read, and it counts from bit `s` on.
get_varint-loop :
    (fuel w v s : ℕ) (rest : List ℕ)
    → w ≤ fuel
    → s < 64
    → v < 2 ^ s
    → v + w * 2 ^ s < 2 ^ 64
    → get_varint (put_varint_loop fuel w ++ rest) v s ≡ ok (some (v + w * 2 ^ s, rest))
unfolding put_varint_loop
get_varint-loop zero w v s rest hw hs hv fits = last_byte w v s rest (omega arith) hs hv fits
get_varint-loop (suc fuel) w v s rest hw hs hv fits = elim (dec_lt w 128) [
  | yes p ↦ rw (lt→leb_false 128 w p, ◌++◌) (last_byte w v s rest p hs hv fits)
  | no p ↦
      rw (le→leb 128 w (omega arith), ◌++◌)
        (inner_byte w v s _ hs hv (omega (arith, split_group w s))
          ∙ get_varint-loop fuel (w / 128) (v + w % 128 * 2 ^ s) (s + 7) rest (omega arith)
              (shift_room w v s (omega arith) fits) (group_room w v s hv)
              (omega (arith, split_group w s))
          ∙ ap (λ (t : ℕ). ok (some (t, rest))) (omega (arith, split_group w s)))
]

-- A uint64_t that was written reads back, and what follows it is left.
pub get_varint-put_varint :
    (w : ℕ) (rest : List ℕ)
    → w < 2 ^ 64
    → get_varint (put_varint w ++ rest) 0 0 ≡ ok (some (w, rest))
unfolding put_varint
get_varint-put_varint w rest h =
    get_varint-loop w w 0 0 rest (omega arith) (omega arith) (omega arith) (omega arith)
    ∙ ap (λ (t : ℕ). ok (some (t, rest))) (omega arith)

-- A byte that says that more follow.
abbrev pub Continues : ℕ → Type 0
Continues c = (128 ≤ c) × (c < 256)

-- Enough bytes that say that more follow, and one byte after them, make the shift undefined.
pub get_varint-overlong :
    (cs rest : List ℕ) (b v s : ℕ)
    → All Continues cs
    → 64 ≤ s + 7 * length cs
    → get_varint (cs ++ (b ∷ rest)) v s ≡ fault
unfolding get_varint
get_varint-overlong [] rest b v s h long = rw (le→leb 64 s (omega arith), ◌++◌)
get_varint-overlong (c ∷ cs) rest b v s h long = ground (
  arith,
  bit_and_top c,
  get_varint-overlong cs rest b (bit_or v (shl 64 (bit_and c 0x7f) s)) (s + 7) h.1,
)

-- Ten bytes and fewer never do.
pub get_varint-ne-fault :
    (bs : List ℕ) (v s : ℕ) → s + 7 * length bs ≤ 70 → get_varint bs v s ≢ fault
unfolding get_varint
get_varint-ne-fault [] v s h = λ e. cc
get_varint-ne-fault (b ∷ bs) v s h =
    ground (arith, get_varint-ne-fault bs (bit_or v (shl 64 (bit_and b 0x7f) s)) (s + 7))

get_varint_inv :
    (b : ℕ) (bs : List ℕ) (v s w : ℕ) (rest : List ℕ)
    → get_varint (b ∷ bs) v s ≡ ok (some (w, rest))
    → (rest ≡ bs)
      ⊎ (get_varint bs (bit_or v (shl 64 (bit_and b 0x7f) s)) (s + 7) ≡ ok (some (w, rest)))
unfolding get_varint
get_varint_inv b bs v s w rest h = ground arith

-- The reader leaves an end of what it was given.
pub get_varint-suffix :
    (bs : List ℕ) (v s w : ℕ) (rest : List ℕ)
    → get_varint bs v s ≡ ok (some (w, rest))
    → (used : List ℕ) × (bs ≡ used ++ rest)
get_varint-suffix [] v s w rest h = unfold get_varint in cc
get_varint-suffix (b ∷ bs) v s w rest h = elim (get_varint_inv b bs v s w rest h) [
  | inl e ↦ (b ∷ [], ap (λ t. b ∷ t) (sym e))
  | inr r ↦
      let (used, e) =
        get_varint-suffix bs (bit_or v (shl 64 (bit_and b 0x7f) s)) (s + 7) w rest r in
      (b ∷ used, ap (λ t. b ∷ t) e)
]
