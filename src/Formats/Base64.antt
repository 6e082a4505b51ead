-- ===== src/Formats/Base64.antt =====
-- formats/dagcbor/dagcbor.cpp: the base64 text, without padding, of the bytes projection.
pub mod RoundTrip
use sygaldreye.Common.{ℕ, List, [], ◌∷◌, codes}
use sygaldreye.Common.Outcome.{Outcome, bad_base64}
use sygaldreye.Formats.Packing.{pack, unpack}

abbrev pub b64_alphabet : List ℕ
b64_alphabet = codes "ABCDEFGHIJKLMNOPQRSTUVWXYZabcdefghijklmnopqrstuvwxyz0123456789+/"

unfoldable pub base64_encode : List ℕ → List ℕ
base64_encode bytes = pack 6 b64_alphabet bytes 0 0

unfoldable pub base64_decode : List ℕ → Outcome (List ℕ)
base64_decode text = unpack 6 b64_alphabet bad_base64 text 0 0
