-- ===== src/Formats/Chunk/Runs.antt =====
-- A small blob, and the theorem at it.
use sygaldreye.Common.{[], ◌∷◌, arith}
use sygaldreye.Formats.Sample.{checksum}
use sygaldreye.Formats.Chunk.Reassembly.{IsStored, chunk_put-IsStored}

chunk_put-IsStored_example : IsStored checksum (1 ∷ 2 ∷ 3 ∷ [])
chunk_put-IsStored_example = chunk_put-IsStored checksum (1 ∷ 2 ∷ 3 ∷ []) (omega arith)
