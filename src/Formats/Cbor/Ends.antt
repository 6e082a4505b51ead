-- ===== src/Formats/Cbor/Ends.antt =====
-- Reads that end, and the bytes that they leave: every part of the reader but its recursion.
use sygaldreye.Common.{
  ℕ, zero, suc, ◌+◌, ◌-◌, ◌≤◌, ◌<◌, List, [], ◌∷◌, arith, length, length-drop, true, false, Bool,
  leb, ◌==◌, bit_or, bit_and, Bool-cases, inl, inr, if◌then◌else◌, drop, eq_bytes, none, some,
}
use sygaldreye.Common.Bits.{shl, shr}
use sygaldreye.Formats.Packing.{unpack, index_from}
use sygaldreye.Formats.Base64.{base64_decode}
use sygaldreye.Common.Outcome.{
  Outcome, Error, ok, throws, fault, stuck, ◌>>=◌, IsOutcome, >>=-IsOutcome, require,
  not_a_bytes_escape,
}
use sygaldreye.Formats.Cbor.Json.{Json, null, boolean, floating, string, object, field, slash, end}
use sygaldreye.Formats.Cbor.Encode.{bytes_of_projection, bytes_text, find_field, bytes_key}
use sygaldreye.Formats.Cbor.Decode.{Read, byte, read_big_endian, arg, read_span, link_of, simple}

-- A read that ends, with fewer than `n` bytes left when it returns.
unfoldable pub Ends {ℓ} : {A : Type ℓ} → ℕ → Read A → Type 0
Ends n (ok (a, rest)) = length rest < n
Ends n (throws e) = Unit {0}
Ends n fault = Unit {0}
Ends n stuck = ⊥

pub Ends->>= {ℓ κ} :
    {A : Type ℓ} {B : Type κ} (n k : ℕ) (m : Read A) (f : A × List ℕ → Read B)
    → Ends n m
    → ((a : A) (rest : List ℕ) → length rest < n → Ends k (f (a, rest)))
    → Ends k (m >>= f)
unfolding Ends
Ends->>= n k (ok (a, rest)) f h c = c a rest h
Ends->>= n k (throws e) f h c = tt
Ends->>= n k fault f h c = tt
Ends->>= n k stuck f h c = h

pub Ends-pure {ℓ κ} :
    {A : Type ℓ} {B : Type κ} (k : ℕ) (m : Outcome A) (f : A → Read B)
    → IsOutcome m
    → ((a : A) → Ends k (f a))
    → Ends k (m >>= f)
unfolding Ends
Ends-pure k (ok a) f h c = c a
Ends-pure k (throws e) f h c = tt
Ends-pure k fault f h c = tt
Ends-pure k stuck f h c = h

pub Ends-weaken {ℓ} : {A : Type ℓ} (n k : ℕ) (m : Read A) → n ≤ k → Ends n m → Ends k m
unfolding Ends
Ends-weaken n k (ok (a, rest)) le h = omega arith
Ends-weaken n k (throws e) le h = tt
Ends-weaken n k fault le h = tt
Ends-weaken n k stuck le h = h

pub Ends-ok {ℓ} :
    {A : Type ℓ} (a : A) {n : ℕ} (rest : List ℕ) → length rest < n → Ends n (ok (a, rest))
unfolding Ends
Ends-ok a rest h = h

pub Ends-throws {ℓ} : (A : Type ℓ) (n : ℕ) (e : Error) → Ends {A = A} n (throws e)
unfolding Ends
Ends-throws A n e = tt

pub Ends-fault {ℓ} : (A : Type ℓ) (n : ℕ) → Ends {A = A} n fault
unfolding Ends
Ends-fault A n = tt

pub Ends-IsOutcome {ℓ} : {A : Type ℓ} (n : ℕ) (m : Read A) → Ends n m → IsOutcome m
unfolding Ends
Ends-IsOutcome n (ok (a, rest)) h = tt
Ends-IsOutcome n (throws e) h = tt
Ends-IsOutcome n fault h = tt
Ends-IsOutcome n stuck h = h

pub Ends-if {ℓ} :
    {A : Type ℓ} (k : ℕ) (b : Bool) (x y : Read A)
    → Ends k x
    → Ends k y
    → Ends k (if b then x else y)
Ends-if k true x y h h' = h
Ends-if k false x y h h' = h'

pub read_big_endian-Ends :
    (count v : ℕ) (bytes : List ℕ) → Ends (suc (length bytes)) (read_big_endian count v bytes)
unfolding read_big_endian byte Ends
read_big_endian-Ends zero v bytes = omega arith
read_big_endian-Ends (suc count) v [] = tt
read_big_endian-Ends (suc count) v (b ∷ bytes) =
    Ends-weaken (suc (length bytes)) (suc (suc (length bytes))) _ (omega arith)
      (read_big_endian-Ends count (bit_or (shl 64 v 8) b) bytes)

pub arg-Ends : (head : ℕ) (bytes : List ℕ) → Ends (suc (length bytes)) (arg head bytes)
unfolding arg
arg-Ends head bytes = Ends-if _ _ _ _ (Ends-ok _ bytes (omega arith)) (
    Ends-if _ _ _ _ (read_big_endian-Ends 1 0 bytes) (
      Ends-if _ _ _ _ (read_big_endian-Ends 2 0 bytes) (
        Ends-if _ _ _ _ (read_big_endian-Ends 4 0 bytes)
          (Ends-if _ _ _ _ (read_big_endian-Ends 8 0 bytes) (Ends-throws _ _ _)))))

pub read_span-Ends :
    (limit : ℕ) (e : Error) (n : ℕ) (bytes : List ℕ)
    → Ends (suc (length bytes)) (read_span limit e n bytes)
unfolding read_span
read_span-Ends limit e n bytes = Ends-if _ _ _ _ (Ends-throws _ _ _) (
    Ends-if _ _ _ _ (Ends-ok _ (drop n bytes) (omega (arith, length-drop n bytes)))
      (Ends-fault _ _))

pub simple-Ends : (head : ℕ) (bytes : List ℕ) → Ends (suc (length bytes)) (simple head bytes)
unfolding simple
simple-Ends head bytes = Ends-if _ (head == 0xf6) _ _ (Ends-ok null bytes (omega arith)) (
    Ends-if _ (head == 0xf5) _ _ (Ends-ok (boolean true) bytes (omega arith)) (
      Ends-if _ (head == 0xf4) _ _ (Ends-ok (boolean false) bytes (omega arith)) (
        Ends-if _ (head == 0xfb) _ _
          (Ends->>= _ _ (read_big_endian 8 0 bytes) (λ r. ok (floating r.0, r.1))
            (read_big_endian-Ends 8 0 bytes) (λ u rest h. Ends-ok (floating u) rest h))
          (Ends-throws _ _ _))))

pub unpack-IsOutcome :
    (width : ℕ) (alphabet : List ℕ) (bad : Error) (text : List ℕ) (buf nbits : ℕ)
    → IsOutcome (unpack width alphabet bad text buf nbits)
unfolding unpack
unpack-IsOutcome width alphabet bad [] buf nbits = tt
unpack-IsOutcome width alphabet bad (c ∷ cs) buf nbits =
    elim (index_from 0 alphabet c)
      as (λ o. IsOutcome (elim o [
        | none ↦ throws bad
        | some pos ↦
            let buf' = bit_or (shl 32 buf width) pos in
            let full = leb 8 (nbits + width) in
            let left = if full then nbits + width - 8 else nbits + width in
            do
              rest ← unpack width alphabet bad cs buf' left
              ok (if full then bit_and (shr buf' left) 0xff ∷ rest else rest)
      ])) [
        | none ↦ tt
        | some pos ↦ >>=-IsOutcome _ _ (unpack-IsOutcome width alphabet bad cs _ _) (λ rest. tt)
      ]

pub bytes_text-IsOutcome : (v : Json) → IsOutcome (bytes_text v)
bytes_text-IsOutcome (object fs) =
    elim (find_field bytes_key fs)
      as (λ j.
        IsOutcome (elim j [ string text ↦ base64_decode text | _ ↦ throws not_a_bytes_escape ])) [
          | string text ↦ unfold base64_decode in unpack-IsOutcome 6 _ _ text 0 0
          | _ ↦ tt
        ]
bytes_text-IsOutcome v = tt

pub bytes_of_projection-IsOutcome : (v : Json) → IsOutcome (bytes_of_projection v)
unfolding bytes_of_projection
bytes_of_projection-IsOutcome (object (field k v end)) = elim (Bool-cases (eq_bytes k slash)) [
  | inl h ↦ rw h (bytes_text-IsOutcome v)
  | inr h ↦ rw h tt
]
bytes_of_projection-IsOutcome v = tt

pub link_of-IsOutcome : (raw : List ℕ) → IsOutcome (link_of raw)
link_of-IsOutcome [] = tt
link_of-IsOutcome (z ∷ cid) = elim (Bool-cases (z == 0x00)) [ inl h ↦ rw h tt | inr h ↦ rw h tt ]

pub require-IsOutcome : (b : Bool) (e : Error) → IsOutcome (require b e)
require-IsOutcome true e = tt
require-IsOutcome false e = tt
