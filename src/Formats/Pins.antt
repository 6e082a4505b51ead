-- ===== src/Formats/Pins.antt =====
-- formats/pins/pins.hpp: the frozen format constants.
use sygaldreye.Common.{ℕ, ◌*◌, List, codes}

abbrev pub multicodec_dag_cbor : ℕ
multicodec_dag_cbor = 0x71

abbrev pub multicodec_raw : ℕ
multicodec_raw = 0x55

abbrev pub multihash_blake3_256 : ℕ
multihash_blake3_256 = 0x1e

abbrev pub hash_bytes : ℕ
hash_bytes = 32

abbrev pub multibase_prefix : ℕ
multibase_prefix = b'b'

abbrev pub chunk_bytes : ℕ
chunk_bytes = 256 * 1024

-- "%/:# \t\n"
abbrev pub escape_set : List ℕ
escape_set = codes "%/:# \t\n"
