-- ===== src/Formats/Chunk/Reassembly.antt =====
-- A blob comes back from the objects that it was put as.
use sygaldreye.Common.{
  ℕ, zero, suc, ◌^◌, ◌≤◌, ◌<◌, ◌≡◌, ◌⊎◌, inl, inr, refl, ap, ◌∙◌, List, [], ◌∷◌, ◌++◌, All, IsByte,
  arith, length, leb, leb→le, take, drop, take-append-drop, length-drop, Bool-cases,
}
use sygaldreye.Common.Outcome.{ok}
use sygaldreye.Formats.Pins.{multicodec_raw, multicodec_dag_cbor, chunk_bytes}
use sygaldreye.Formats.Varint.{put_varint}
use sygaldreye.Formats.Cid.{Hash, cid_of}
use sygaldreye.Formats.Cbor.Json.{array, size_items}
use sygaldreye.Formats.Cbor.Encode.{encode}
use sygaldreye.Formats.Cbor.Canonical.{
  Canonical, is_array, is_link, CanonicalItems, none_left, one_more,
}
use sygaldreye.Formats.Cbor.RoundTrip.{encode-Canonical}
use sygaldreye.Formats.Chunk.{cut, index_of, chunk_puts, chunk_put}

abbrev pub join : List (List ℕ) → List ℕ
join [] = []
join (chunk ∷ chunks) = chunk ++ join chunks

pub join-cut : (fuel : ℕ) (blob : List ℕ) → length blob ≤ fuel → join (cut fuel blob) ≡ blob
unfolding cut
join-cut zero [] h = refl
join-cut zero (b ∷ blob) h = absurd (omega arith)
join-cut (suc fuel) [] h = refl
join-cut (suc fuel) (b ∷ blob) h =
    ap (λ l. take chunk_bytes (b ∷ blob) ++ l)
      (join-cut fuel (drop chunk_bytes (b ∷ blob))
        (omega (arith, h, length-drop chunk_bytes (b ∷ blob))))
    ∙ take-append-drop chunk_bytes (b ∷ blob)

length-cut : (fuel : ℕ) (blob : List ℕ) → length (cut fuel blob) ≤ fuel
unfolding cut
length-cut zero blob = omega arith
length-cut (suc fuel) [] = omega arith
length-cut (suc fuel) (b ∷ blob) = omega (arith, length-cut fuel (drop chunk_bytes (b ∷ blob)))

length-take-le : (n : ℕ) (xs : List ℕ) → length (take n xs) ≤ n
length-take-le zero xs = omega arith
length-take-le (suc n) [] = omega arith
length-take-le (suc n) (x ∷ xs) = omega (arith, length-take-le n xs)

All-cut : (fuel : ℕ) (blob : List ℕ) → All (λ chunk. length chunk ≤ chunk_bytes) (cut fuel blob)
unfolding cut
All-cut zero blob = tt
All-cut (suc fuel) [] = tt
All-cut (suc fuel) (b ∷ blob) =
    (length-take-le chunk_bytes (b ∷ blob), All-cut fuel (drop chunk_bytes (b ∷ blob)))

module _ (blake3 : Hash) where
  cid_of-IsByte : (bytes : List ℕ) → All IsByte (cid_of blake3 multicodec_raw bytes)
  unfolding cid_of put_varint
  cid_of-IsByte bytes =
      (omega arith, (omega arith, (omega arith, (omega arith, blake3.digest-IsByte bytes))))

  length-cid_of : (bytes : List ℕ) → length (cid_of blake3 multicodec_raw bytes) ≡ 36
  unfolding cid_of put_varint
  length-cid_of bytes = omega (arith, blake3.length-digest bytes)

  index_of-CanonicalItems : (chunks : List (List ℕ)) → CanonicalItems (index_of blake3 chunks)
  unfolding index_of
  index_of-CanonicalItems [] = none_left
  index_of-CanonicalItems (chunk ∷ chunks) =
      one_more
        (is_link (cid_of blake3 multicodec_raw chunk) (omega (arith, length-cid_of chunk))
          (cid_of-IsByte chunk))
        (index_of-CanonicalItems chunks)

  size_items-index_of :
      (chunks : List (List ℕ)) → size_items (index_of blake3 chunks) ≡ length chunks
  unfolding index_of
  size_items-index_of [] = refl
  size_items-index_of (chunk ∷ chunks) = ap suc (size_items-index_of chunks)

  -- What `chunk_put` comes to: the root, after one raw object, or after the chunks of a blob and the
  -- encoding of an index of their links, which is canonical.
  abbrev pub IsStored : List ℕ → Type 0
  IsStored blob =
      ((length blob ≤ chunk_bytes)
        × (chunk_put blake3 blob ≡ (
          ok (cid_of blake3 multicodec_raw blob),
          (cid_of blake3 multicodec_raw blob, blob) ∷ [],
        )))
      ⊎ ((chunk_bytes < length blob)
          × (chunks : List (List ℕ)) × (index : List ℕ) × (chunk_put blake3 blob ≡ (
            ok (cid_of blake3 multicodec_dag_cbor index),
            chunk_puts blake3 chunks ++ ((cid_of blake3 multicodec_dag_cbor index, index) ∷ []),
          ))
          × (join chunks ≡ blob)
          × All (λ chunk. length chunk ≤ chunk_bytes) chunks
          × (encode (array (index_of blake3 chunks)) ≡ ok index)
          × Canonical (array (index_of blake3 chunks)))

  -- A blob of fewer than 2^64 bytes is stored: as one raw object when it has at most `chunk_bytes`, and
  -- when it has more as chunks of at most `chunk_bytes` that join to it and an index node, the encoding of the canonical array of their links, whose address is the root.
  pub chunk_put-IsStored : (blob : List ℕ) → length blob < 2 ^ 64 → IsStored blob
  unfolding chunk_put
  chunk_put-IsStored blob small = elim (Bool-cases (leb (length blob) chunk_bytes)) [
    | inl h ↦ inl (leb→le (length blob) chunk_bytes h, rw h)
    | inr h ↦
        let chunks = cut (length blob) blob in
        let index =
          is_array (index_of blake3 chunks)
            (omega (arith, small, size_items-index_of chunks, length-cut (length blob) blob))
            (index_of-CanonicalItems chunks) in
        let coded = encode-Canonical index in
        inr (
          ground (arith, h),
          chunks,
          coded.0,
          rw (h, coded.1),
          join-cut (length blob) blob (omega arith),
          All-cut (length blob) blob,
          coded.1,
          index,
        )
  ]
