-- ===== src/Formats/Runs.antt =====
-- Concrete runs of the formats, and their theorems at concrete inputs.
use sygaldreye.Common.{ℕ, ◌≡◌, refl, List, [], ◌∷◌, ◌++◌, arith, codes, true}
use sygaldreye.Common.Outcome.{ok, throws, fault, bad_base32, truncated_escape}
use sygaldreye.Formats.Packing.{index_from, symbol, drain, pack, unpack}
use sygaldreye.Formats.Base32.{mb32_encode, mb32_decode}
use sygaldreye.Formats.Base32.RoundTrip.{mb32_decode-mb32_encode}
use sygaldreye.Formats.Base64.{base64_encode, base64_decode}
use sygaldreye.Formats.Base64.RoundTrip.{base64_decode-base64_encode}
use sygaldreye.Formats.Varint.{put_varint}
use sygaldreye.Formats.Sample.{checksum}
use sygaldreye.Formats.Cid.{cid_of, cid_verify}
use sygaldreye.Formats.Cid.Verify.{cid_verify-cid_of, cid_verify-overlong}
use sygaldreye.Formats.Address.{
  Address, refname, cid, peerkey, parse_address, print_address, print_route, escape, unescape,
  steps_of, split,
}
use sygaldreye.Formats.Address.RoundTrip.{
  LooksLikeCid, parse_address-print_address, refname_read_as_cid,
}

-- "foobar" in base32 and "foob" in base64, as in RFC 4648.
mb32_foobar : mb32_encode (codes "foobar") ≡ codes "bmzxw6ytboi"
unfolding mb32_encode pack drain symbol
mb32_foobar = refl

mb32_bad : mb32_decode (codes "bm1") ≡ throws bad_base32
unfolding mb32_decode unpack index_from
mb32_bad = refl

base64_foob : base64_encode (codes "foob") ≡ codes "Zm9vYg"
unfolding base64_encode pack drain symbol
base64_foob = refl

varint_300 : put_varint 300 ≡ 0xac ∷ 0x02 ∷ []
unfolding put_varint
varint_300 = refl

mb32_decode-mb32_encode_example :
    mb32_decode (mb32_encode (1 ∷ 0x71 ∷ 255 ∷ [])) ≡ ok (1 ∷ 0x71 ∷ 255 ∷ [])
mb32_decode-mb32_encode_example = mb32_decode-mb32_encode (1 ∷ 0x71 ∷ 255 ∷ []) (omega arith)

base64_decode-base64_encode_example :
    base64_decode (base64_encode (0 ∷ 254 ∷ [])) ≡ ok (0 ∷ 254 ∷ [])
base64_decode-base64_encode_example = base64_decode-base64_encode (0 ∷ 254 ∷ []) (omega arith)

cid_verify-cid_of_example :
    cid_verify checksum (cid_of checksum 0x55 (1 ∷ 2 ∷ [])) (1 ∷ 2 ∷ []) ≡ ok true
cid_verify-cid_of_example = cid_verify-cid_of checksum 0x55 (1 ∷ 2 ∷ []) (omega arith)

abbrev ten_continuing : List ℕ
ten_continuing = 128 ∷ 128 ∷ 128 ∷ 128 ∷ 128 ∷ 128 ∷ 128 ∷ 128 ∷ 128 ∷ 128 ∷ []

cid_verify-overlong_example : cid_verify checksum (0x01 ∷ (ten_continuing ++ (0 ∷ []))) [] ≡ fault
cid_verify-overlong_example = cid_verify-overlong checksum ten_continuing [] [] 0 (omega arith) refl

abbrev peer : Address
peer = record { kind = peerkey; head = codes "k#1"; route = codes "a/b" ∷ codes "c" ∷ [] }

print_peer : print_address peer ≡ codes "#k%231/a%2Fb/c"
unfolding print_address print_route escape
print_peer = refl

parse_cut : parse_address (codes "name:a%2") ≡ throws truncated_escape
unfolding parse_address unescape steps_of split index_from
parse_cut = refl

parse_address-print_address_example : parse_address (print_address peer) ≡ ok peer
parse_address-print_address_example = parse_address-print_address peer (omega arith)

baselines-LooksLikeCid : LooksLikeCid (codes "baselines")
unfolding escape index_from
baselines-LooksLikeCid = (omega arith, refl)

refname_read_as_cid_example :
    parse_address (print_address (record { kind = refname; head = codes "baselines"; route = [] }))
    ≡ ok (record { kind = cid; head = codes "baselines"; route = [] })
refname_read_as_cid_example = refname_read_as_cid (codes "baselines") baselines-LooksLikeCid
