-- ===== src/Formats/Cbor/Canonical.antt =====
-- The JSON values that have one encoding and come back as they were.
use sygaldreye.Common.{
  ℕ, ◌+◌, ◌*◌, ◌^◌, ◌≤◌, ◌<◌, ◌≡◌, List, ◌++◌, Bool, false, All, IsByte, length, eq_bytes,
}
use sygaldreye.Common.Outcome.{ok}
use sygaldreye.Formats.Base32.{cid_to_text}
use sygaldreye.Formats.Cbor.Json.{
  negative, Json, Items, Fields, null, boolean, unsigned, integer, floating, string, array, object,
  nil, cons, end, field, size_items, size_fields, link_object, slash,
}
use sygaldreye.Formats.Cbor.Encode.{not_finite, encode, projection_of_bytes}
use sygaldreye.Formats.Cbor.Decode.{value}
use sygaldreye.Formats.Cbor.Keys.{IsBelow}

-- `k` comes before the keys of the fields.
abbrev pub IsBefore : List ℕ → Fields → Type 0
IsBefore k end = Unit {0}
IsBefore k (field j v fs) = IsBelow k j × IsBefore k fs

-- A non-negative integer is unsigned, a negative one fits in an int64_t, a double is finite, an
-- object has ascending keys other than "/", or is a link or a byte string.
mutual
  pub data Canonical : Json → Type 0 where
    is_null : Canonical null
    is_boolean : (b : Bool) → Canonical (boolean b)
    is_unsigned : (n : ℕ) → n < 2 ^ 64 → Canonical (unsigned n)
    is_negative : (n : ℕ) → n < 2 ^ 63 → Canonical (integer (negative n))
    is_floating : (u : ℕ) → u < 2 ^ 64 → not_finite u ≡ false → Canonical (floating u)
    is_string : (s : List ℕ) → length s < 2 ^ 64 → Canonical (string s)
    is_array : (xs : Items) → size_items xs < 2 ^ 64 → CanonicalItems xs → Canonical (array xs)
    is_map : (fs : Fields) → size_fields fs < 2 ^ 64 → CanonicalFields fs → Canonical (object fs)
    is_link :
        (cid : List ℕ)
        → length cid + 1 < 2 ^ 64
        → All IsByte cid
        → Canonical (object (link_object (cid_to_text cid)))
    is_bytes : (b : List ℕ) → length b < 2 ^ 64 → All IsByte b → Canonical (projection_of_bytes b)

  pub data CanonicalItems : Items → Type 0 where
    none_left : CanonicalItems nil
    one_more :
        {v : Json} {xs : Items} → Canonical v → CanonicalItems xs → CanonicalItems (cons v xs)

  pub data CanonicalFields : Fields → Type 0 where
    no_field : CanonicalFields end
    one_field :
        {v : Json} {fs : Fields} (k : List ℕ)
        → length k < 2 ^ 64
        → eq_bytes k slash ≡ false
        → IsBefore k fs
        → Canonical v
        → CanonicalFields fs
        → CanonicalFields (field k v fs)

-- The reader gives `v` for `bytes`, whatever is behind them.
abbrev pub Reads : Json → List ℕ → Type 0
Reads v bytes =
    (rest : List ℕ) (fuel limit : ℕ)
    → 2 * length bytes < fuel
    → length (bytes ++ rest) ≤ limit
    → limit < 2 ^ 64
    → value fuel limit (bytes ++ rest) ≡ ok (v, rest)

-- A value, its encoding, and the way back.
pub record Coded (v : Json) : Type 0 where
  pub bytes : List ℕ
  pub writes : encode v ≡ ok bytes
  pub nonempty : 1 ≤ length bytes
  pub reads : Reads v bytes
