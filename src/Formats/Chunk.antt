-- ===== src/Formats/Chunk.antt =====
-- formats/chunk/chunk.cpp: large objects as chunks and an index node.
pub mod Reassembly
mod Runs
use sygaldreye.Common.{ℕ, zero, suc, List, [], ◌∷◌, ◌++◌, leb, length, take, drop, if◌then◌else◌}
use sygaldreye.Common.Outcome.{Outcome, ok, throws, fault, stuck}
use sygaldreye.Formats.Pins.{multicodec_raw, multicodec_dag_cbor, chunk_bytes}
use sygaldreye.Formats.Base32.{cid_to_text}
use sygaldreye.Formats.Cid.{Hash, cid_of}
use sygaldreye.Formats.Cbor.Json.{Json, Items, array, object, nil, cons, link_object}
use sygaldreye.Formats.Cbor.Encode.{encode}

-- The calls of `put`, in order, each with an address and an object.
abbrev pub Puts : Type 0
Puts = List (List ℕ × List ℕ)

-- The chunks of the loop over `off`. Each takes a byte at least, so `blob.size()` rounds are enough.
unfoldable pub cut : ℕ → List ℕ → List (List ℕ)
cut zero blob = []
cut (suc fuel) [] = []
cut (suc fuel) (b ∷ blob) = take chunk_bytes (b ∷ blob) ∷ cut fuel (drop chunk_bytes (b ∷ blob))

module _ (blake3 : Hash) where
  unfoldable pub index_of : List (List ℕ) → Items
  index_of [] = nil
  index_of (chunk ∷ chunks) =
      cons (object (link_object (cid_to_text (cid_of blake3 multicodec_raw chunk))))
        (index_of chunks)

  unfoldable pub chunk_puts : List (List ℕ) → Puts
  chunk_puts [] = []
  chunk_puts (chunk ∷ chunks) = (cid_of blake3 multicodec_raw chunk, chunk) ∷ chunk_puts chunks

  -- The index node is put after its chunks, unless its encoding throws.
  abbrev pub put_index : Puts → Outcome (List ℕ) → Outcome (List ℕ) × Puts
  put_index puts (ok bytes) =
      let root = cid_of blake3 multicodec_dag_cbor bytes in (ok root, puts ++ ((root, bytes) ∷ []))
  put_index puts (throws e) = (throws e, puts)
  put_index puts fault = (fault, puts)
  put_index puts stuck = (stuck, puts)

  unfoldable pub chunk_put : List ℕ → Outcome (List ℕ) × Puts
  unfolding cut index_of chunk_puts
  chunk_put blob =
      if leb (length blob) chunk_bytes
      then (let cid = cid_of blake3 multicodec_raw blob in (ok cid, (cid, blob) ∷ []))
      else (let chunks = cut (length blob) blob in
          put_index (chunk_puts chunks) (encode (array (index_of chunks))))
