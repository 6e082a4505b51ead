-- ===== src/Formats/Cid.antt =====
-- formats/cid/cid.cpp: content addresses, and their verification by hashing again.
pub mod Verify
use sygaldreye.Common.{
  ℕ, ◌<◌, List, [], ◌∷◌, ◌++◌, Option, none, some, ltb, ◌==◌, length, take, drop, get_or, eq_bytes,
  All, IsByte, ◌≡◌, if◌then◌else◌, Bool, true, false, not, ◌&&◌, ◌||◌,
}
use sygaldreye.Common.Outcome.{Outcome, ok, ◌>>=◌}
use sygaldreye.Formats.Pins.{multihash_blake3_256, hash_bytes}
use sygaldreye.Formats.Varint.{put_varint, get_varint}

-- BLAKE3 is a library that the code calls: its 32-byte digest is a parameter.
pub record Hash : Type 0 where
  pub digest : List ℕ → List ℕ
  pub length-digest : (bytes : List ℕ) → length (digest bytes) ≡ hash_bytes
  pub digest-IsByte : (bytes : List ℕ) → All IsByte (digest bytes)

module _ (blake3 : Hash) where
  unfoldable pub cid_of : ℕ → List ℕ → List ℕ
  cid_of multicodec bytes =
      0x01
      ∷ (put_varint multicodec
          ++ (put_varint multihash_blake3_256 ++ (put_varint hash_bytes ++ blake3.digest bytes)))

  -- The comparison at the end of `cid_verify`, at the bytes from index `i` on.
  unfoldable pub digest_matches : ℕ → ℕ → List ℕ → List ℕ → Bool
  digest_matches hash_fn hash_len rest bytes =
      if not (hash_fn == multihash_blake3_256)
        || (not (hash_len == hash_bytes) || not (length rest == hash_bytes))
      then false
      else let h = blake3.digest bytes in eq_bytes h (take (length h) rest)

  -- The three `varint` calls, each of which ends the verification where it answers false.
  unfoldable pub verify_length : ℕ → Option (ℕ × List ℕ) → List ℕ → Outcome Bool
  unfolding digest_matches
  verify_length hash_fn none bytes = ok false
  verify_length hash_fn (some (hash_len, rest)) bytes =
      ok (digest_matches hash_fn hash_len rest bytes)

  unfoldable pub verify_function : Option (ℕ × List ℕ) → List ℕ → Outcome Bool
  unfolding verify_length
  verify_function none bytes = ok false
  verify_function (some (hash_fn, rest)) bytes = do
    read ← get_varint rest 0 0
    verify_length hash_fn read bytes

  unfoldable pub verify_codec : Option (ℕ × List ℕ) → List ℕ → Outcome Bool
  unfolding verify_function
  verify_codec none bytes = ok false
  verify_codec (some (codec, rest)) bytes = do
    read ← get_varint rest 0 0
    verify_function read bytes

  unfoldable pub cid_verify : List ℕ → List ℕ → Outcome Bool
  unfolding verify_codec
  cid_verify cid bytes =
      if ltb (length cid) 4 || not (get_or cid 0 0 == 0x01)
      then ok false
      else do read ← get_varint (drop 1 cid) 0 0; verify_codec read bytes
