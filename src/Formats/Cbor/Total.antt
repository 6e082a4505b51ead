-- ===== src/Formats/Cbor/Total.antt =====
-- The reader's fuel is enough: every buffer comes to a result.
use sygaldreye.Common.{
  ℕ, zero, suc, ◌+◌, ◌*◌, ◌/◌, ◌^◌, ◌<◌, ◌≢◌, List, [], ◌∷◌, arith, length, ◌==◌,
}
use sygaldreye.Common.Outcome.{
  Error, ok, stuck, ◌>>=◌, ◌>>◌, IsOutcome, >>=-IsOutcome, IsOutcome-ne-stuck, require, only_tag_42,
  truncated_bytes, truncated_string, trailing_bytes,
}
use sygaldreye.Formats.Cbor.Json.{
  Json, Items, Fields, string, array, object, integer, unsigned, put_field, cons, nil, end,
}
use sygaldreye.Formats.Cbor.Encode.{bytes_of_projection, projection_of_bytes}
use sygaldreye.Formats.Cbor.Decode.{
  Read, byte, arg, read_span, key_text, link_of, negated, value_of, value, elements, entries,
  decode_to_projection,
}
use sygaldreye.Formats.Cbor.Ends.{
  Ends, Ends->>=, Ends-pure, Ends-weaken, Ends-ok, Ends-throws, Ends-IsOutcome, Ends-if, arg-Ends,
  read_span-Ends, simple-Ends, bytes_of_projection-IsOutcome, link_of-IsOutcome, require-IsOutcome,
}

-- The cases of `value`, when the recursive reads end on no more bytes than are left.
module _ (limit n : ℕ) (read_value : List ℕ → Read Json) (read_items : ℕ → List ℕ → Read Items)
    (read_fields : ℕ → Fields → List ℕ → Read Fields)
    (value_ends : (bytes : List ℕ) → length bytes < n → Ends n (read_value bytes))
    (items_end : (count : ℕ) (bytes : List ℕ) → length bytes < n → Ends n (read_items count bytes))
    (fields_end : (count : ℕ) (out : Fields) (bytes : List ℕ)
      → length bytes < n
      → Ends n (read_fields count out bytes)) where
  -- What every case but the last begins with.
  after_arg :
      {A : Type 0} (head : ℕ) (bytes : List ℕ) (f : ℕ × List ℕ → Read A)
      → length bytes < n
      → ((count : ℕ) (rest : List ℕ) → length rest < n → Ends n (f (count, rest)))
      → Ends n (arg head bytes >>= f)
  after_arg head bytes f h c =
      Ends->>= n n (arg head bytes) f
        (Ends-weaken (suc (length bytes)) n _ (omega arith) (arg-Ends head bytes)) c

  span_case :
      {A : Type 0} (e : Error) (count : ℕ) (bytes : List ℕ) (f : List ℕ → A)
      → length bytes < n
      → Ends n (read_span limit e count bytes >>= λ r. ok (f r.0, r.1))
  span_case e count bytes f h =
      Ends->>= n n (read_span limit e count bytes) (λ r. ok (f r.0, r.1))
        (Ends-weaken (suc (length bytes)) n _ (omega arith) (read_span-Ends limit e count bytes))
        (λ s rest k. Ends-ok (f s) rest k)

  tag_case :
      (tag : ℕ) (bytes : List ℕ)
      → length bytes < n
      → Ends n (do
        require (tag == 42) only_tag_42
        (inner, rest') ← read_value bytes
        raw ← bytes_of_projection inner
        v ← link_of raw
        ok (v, rest'))
  tag_case tag bytes h =
      Ends-pure n (require (tag == 42) only_tag_42) _ (require-IsOutcome (tag == 42) only_tag_42)
        (λ u. Ends->>= n n (read_value bytes) _ (value_ends bytes h) (λ inner rest' k.
          Ends-pure n (bytes_of_projection inner) _ (bytes_of_projection-IsOutcome inner)
            (λ raw. Ends-pure n (link_of raw) _ (link_of-IsOutcome raw) (λ v. Ends-ok v rest' k))))

  value_of-Ends :
      (head : ℕ) (bytes : List ℕ)
      → length bytes < n
      → Ends n (value_of limit read_value read_items read_fields head bytes)
  unfolding value_of
  value_of-Ends head bytes h =
      Ends-if n (head / 2 ^ 5 == 0) _ _
        (after_arg head bytes _ h (λ count rest k. Ends-ok (unsigned count) rest k))
        (Ends-if n (head / 2 ^ 5 == 1) _ _
          (after_arg head bytes _ h (λ count rest k. Ends-ok (integer (negated count)) rest k))
          (Ends-if n (head / 2 ^ 5 == 2) _ _
            (after_arg head bytes _ h
              (λ count rest k. span_case truncated_bytes count rest projection_of_bytes k))
            (Ends-if n (head / 2 ^ 5 == 3) _ _
              (after_arg head bytes _ h
                (λ count rest k. span_case truncated_string count rest string k))
              (Ends-if n (head / 2 ^ 5 == 4) _ _
                (after_arg head bytes _ h (λ count rest k.
                  Ends->>= n n (read_items count rest) _ (items_end count rest k)
                    (λ xs rest' k'. Ends-ok (array xs) rest' k')))
                (Ends-if n (head / 2 ^ 5 == 5) _ _
                  (after_arg head bytes _ h (λ count rest k.
                    Ends->>= n n (read_fields count end rest) _ (fields_end count end rest k)
                      (λ fs rest' k'. Ends-ok (object fs) rest' k')))
                  (Ends-if n (head / 2 ^ 5 == 6) _ _
                    (after_arg head bytes _ h (λ count rest k. tag_case count rest k))
                    (Ends-weaken (suc (length bytes)) n _ (omega arith)
                      (simple-Ends head bytes))))))))

key_text-IsOutcome : (v : Json) → IsOutcome (key_text v)
key_text-IsOutcome (string k) = tt
key_text-IsOutcome v = tt

mutual
  unfolding value elements entries byte

  value-Ends :
      (fuel limit : ℕ) (bytes : List ℕ)
      → 2 * length bytes < fuel
      → Ends (length bytes) (value fuel limit bytes)
  value-Ends zero limit bytes h = absurd (omega arith)
  value-Ends (suc fuel) limit [] h = Ends-throws _ _ _
  value-Ends (suc fuel) limit (head ∷ rest) h =
      value_of-Ends limit (suc (length rest)) (value fuel limit) (elements fuel limit)
        (entries fuel limit)
        (λ l k.
          Ends-weaken (length l) (suc (length rest)) _ (omega arith)
            (value-Ends fuel limit l (omega arith)))
        (λ c l k.
          Ends-weaken (suc (length l)) (suc (length rest)) _ (omega arith)
            (elements-Ends fuel limit c l (omega arith)))
        (λ c out l k.
          Ends-weaken (suc (length l)) (suc (length rest)) _ (omega arith)
            (entries-Ends fuel limit c out l (omega arith)))
        head rest (omega arith)

  elements-Ends :
      (fuel limit n : ℕ) (bytes : List ℕ)
      → 2 * length bytes + 1 < fuel
      → Ends (suc (length bytes)) (elements fuel limit n bytes)
  elements-Ends zero limit n bytes h = absurd (omega arith)
  elements-Ends (suc fuel) limit zero bytes h = Ends-ok nil bytes (omega arith)
  elements-Ends (suc fuel) limit (suc n) bytes h =
      Ends->>= (length bytes) (suc (length bytes)) (value fuel limit bytes) _
        (value-Ends fuel limit bytes (omega arith))
        (λ v rest k.
          Ends->>= (suc (length rest)) (suc (length bytes)) (elements fuel limit n rest) _
            (elements-Ends fuel limit n rest (omega arith))
            (λ xs rest' k'. Ends-ok (cons v xs) rest' (omega arith)))

  entries-Ends :
      (fuel limit n : ℕ) (out : Fields) (bytes : List ℕ)
      → 2 * length bytes + 1 < fuel
      → Ends (suc (length bytes)) (entries fuel limit n out bytes)
  entries-Ends zero limit n out bytes h = absurd (omega arith)
  entries-Ends (suc fuel) limit zero out bytes h = Ends-ok out bytes (omega arith)
  entries-Ends (suc fuel) limit (suc n) out bytes h =
      Ends->>= (length bytes) (suc (length bytes)) (value fuel limit bytes) _
        (value-Ends fuel limit bytes (omega arith))
        (λ k rest below.
          Ends-pure (suc (length bytes)) (key_text k) _ (key_text-IsOutcome k) (λ key.
            Ends->>= (length rest) (suc (length bytes)) (value fuel limit rest) _
              (value-Ends fuel limit rest (omega arith))
              (λ v rest' below'.
                Ends-weaken (suc (length rest')) (suc (length bytes)) _ (omega arith)
                  (entries-Ends fuel limit n (put_field key v out) rest' (omega arith)))))

-- Every buffer, of any bytes, at any address, is decoded, refused or read out of bounds: the fuel
-- that `decode_to_projection` takes is enough.
pub decode_to_projection-ne-stuck :
    (limit : ℕ) (bytes : List ℕ) → decode_to_projection limit bytes ≢ stuck
unfolding decode_to_projection
decode_to_projection-ne-stuck limit bytes = IsOutcome-ne-stuck _ (
    >>=-IsOutcome (value (2 * length bytes + 1) limit bytes) _
      (Ends-IsOutcome (length bytes) _
        (value-Ends (2 * length bytes + 1) limit bytes (omega arith)))
      (λ r.
        >>=-IsOutcome (require (length r.1 == 0) trailing_bytes) _
          (require-IsOutcome (length r.1 == 0) trailing_bytes) (λ u. tt)))
