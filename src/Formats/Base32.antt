-- ===== src/Formats/Base32.antt =====
-- formats/cid/cid.cpp: the multibase base32 text of a content address or a peer key.
pub mod RoundTrip
use sygaldreye.Common.{ℕ, List, [], ◌∷◌, ◌==◌, codes, if◌then◌else◌}
use sygaldreye.Common.Outcome.{Outcome, throws, unsupported_multibase, bad_base32}
use sygaldreye.Formats.Packing.{pack, unpack}
use sygaldreye.Formats.Pins.{multibase_prefix}

abbrev pub b32 : List ℕ
b32 = codes "abcdefghijklmnopqrstuvwxyz234567"

unfoldable pub mb32_encode : List ℕ → List ℕ
mb32_encode bytes = multibase_prefix ∷ pack 5 b32 bytes 0 0

unfoldable pub mb32_decode : List ℕ → Outcome (List ℕ)
mb32_decode [] = throws unsupported_multibase
mb32_decode (c ∷ text) =
    if c == multibase_prefix then unpack 5 b32 bad_base32 text 0 0 else throws unsupported_multibase

-- `cid_to_text` and `cid_from_text` are these two under other names.
unfoldable pub cid_to_text : List ℕ → List ℕ
unfolding mb32_encode
cid_to_text cid = mb32_encode cid

unfoldable pub cid_from_text : List ℕ → Outcome (List ℕ)
unfolding mb32_decode
cid_from_text text = mb32_decode text
