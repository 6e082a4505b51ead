-- ===== src/Formats/Cbor/Runs.antt =====
-- Concrete runs of the encoder and the reader, and their theorems at concrete inputs.
use sygaldreye.Common.{ℕ, ◌≡◌, ◌≢◌, ◌^◌, ◌-◌, refl, List, [], ◌∷◌, ◌++◌, arith, codes}
use sygaldreye.Common.Outcome.{ok, throws, fault, stuck, reserved_key, trailing_bytes}
use sygaldreye.Formats.Cbor.Json.{
  Json, null, unsigned, integer, nonnegative, negative, array, object, nil, cons, end, field,
  lex_less,
}
use sygaldreye.Formats.Cbor.Encode.{
  big_endian, head, key_less, insert_by_key, sort_by_key, has_slash, append_items, map_bytes,
  object_bytes, integer_bytes, encode,
}
use sygaldreye.Formats.Cbor.Decode.{byte, simple, value_of, value, decode_to_projection}
use sygaldreye.Formats.Cbor.Canonical.{
  Canonical, is_unsigned, is_negative, is_array, is_map, none_left, one_more, no_field, one_field,
}
use sygaldreye.Formats.Cbor.RoundTrip.{
  encode-Canonical, decode_to_projection-encode, encode_injective,
}
use sygaldreye.Formats.Cbor.Overflow.{decode_to_projection-below_int64, decode_to_projection-wraps}
use sygaldreye.Formats.Cbor.Total.{decode_to_projection-ne-stuck}

-- {"aa": [-1], "b": 500}: the shorter key is written first.
abbrev record_value : Json
record_value = object (
    field (codes "aa") (array (cons (integer (negative 0)) nil))
      (field (codes "b") (unsigned 500) end))

abbrev record_bytes : List ℕ
record_bytes = 0xa2 ∷ 0x61 ∷ 0x62 ∷ 0x19 ∷ 0x01 ∷ 0xf4 ∷ 0x62 ∷ 0x61 ∷ 0x61 ∷ 0x81 ∷ 0x20 ∷ []

encode_record : encode record_value ≡ ok record_bytes
unfolding encode object_bytes map_bytes append_items has_slash sort_by_key insert_by_key key_less
    lex_less head big_endian integer_bytes
encode_record = refl

encode_reserved :
    encode (object (field (codes "/") null (field (codes "a") null end))) ≡ throws reserved_key
unfolding encode object_bytes map_bytes has_slash
encode_reserved = refl

decode_trailing : decode_to_projection 100 (0xf6 ∷ 0xf6 ∷ []) ≡ throws trailing_bytes
unfolding decode_to_projection value value_of byte simple
decode_trailing = refl

record_value-Canonical : Canonical record_value
unfolding lex_less
record_value-Canonical = is_map _ (omega arith) (
    one_field (codes "aa") (omega arith) refl
      (record { less = refl; greater = refl; same = refl; same' = refl }, tt)
      (is_array _ (omega arith) (one_more (is_negative 0 (omega arith)) none_left))
      (one_field (codes "b") (omega arith) refl tt (is_unsigned 500 (omega arith)) no_field))

encode-Canonical_example : (bytes : List ℕ) × (encode record_value ≡ ok bytes)
encode-Canonical_example = encode-Canonical record_value-Canonical

decode_to_projection-encode_example : decode_to_projection 4096 record_bytes ≡ ok record_value
decode_to_projection-encode_example =
    decode_to_projection-encode record_bytes 4096 record_value-Canonical encode_record (omega arith)
      (omega arith)

encode_injective_example : record_value ≡ record_value
encode_injective_example =
    encode_injective record_bytes record_value-Canonical record_value-Canonical encode_record
      encode_record (omega arith)

decode_to_projection-ne-stuck_example : decode_to_projection 100 (0x82 ∷ 0x80 ∷ 0xa1 ∷ []) ≢ stuck
decode_to_projection-ne-stuck_example = decode_to_projection-ne-stuck 100 (0x82 ∷ 0x80 ∷ 0xa1 ∷ [])

decode_to_projection-below_int64_example :
    decode_to_projection 100 (head 1 (2 ^ 63)) ≡ ok (integer (nonnegative (2 ^ 64 - 1 - 2 ^ 63)))
decode_to_projection-below_int64_example =
    decode_to_projection-below_int64 100 (2 ^ 63) (omega arith) (omega arith)

decode_to_projection-wraps_example :
    decode_to_projection 4096 (head 2 (2 ^ 64 - 1) ++ (1 ∷ 2 ∷ [])) ≡ fault
decode_to_projection-wraps_example =
    decode_to_projection-wraps 4096 (2 ^ 64 - 1) (1 ∷ 2 ∷ []) (omega arith) (omega arith)
      (omega arith) (omega arith)
