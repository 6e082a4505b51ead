-- ===== src/Formats/Cid/Verify.antt =====
-- What verification accepts, and what it binds.
use sygaldreye.Common.{
  ℕ, suc, ◌^◌, ◌≤◌, ◌<◌, ◌≡◌, sym, ap, ◌∙◌, List, [], ◌∷◌, ◌++◌, none, some, Option, true, false,
  length, length-append, take, take_whole, eq_bytes_refl, eq_bytes→eq, arith, All, ltb, Bool-cases,
  inl, inr, not, ◌||◌, append_right_injective, le→ltb_false, ◌==◌,
}
use sygaldreye.Common.Outcome.{ok, fault, >>=-eq-ok}
use sygaldreye.Formats.Pins.{multihash_blake3_256, hash_bytes}
use sygaldreye.Formats.Varint.{put_varint, get_varint}
use sygaldreye.Formats.Varint.RoundTrip.{
  get_varint-put_varint, get_varint-overlong, get_varint-suffix, Continues,
}
use mathlib.Core.List.{append_assoc}
use sygaldreye.Formats.Cid.{
  Hash, cid_of, cid_verify, verify_codec, verify_function, verify_length, digest_matches,
}

module _ (blake3 : Hash) where
  digest_matches_self :
      (bytes : List ℕ)
      → digest_matches blake3 multihash_blake3_256 hash_bytes (blake3.digest bytes) bytes ≡ true
  unfolding digest_matches
  digest_matches_self bytes =
      rw (blake3.length-digest bytes, take_whole hash_bytes _ (sym (blake3.length-digest bytes)))
        (eq_bytes_refl (blake3.digest bytes))

  -- A content address verifies the bytes that it was made of, under every 64-bit multicodec.
  pub cid_verify-cid_of :
      (codec : ℕ) (bytes : List ℕ)
      → codec < 2 ^ 64
      → cid_verify blake3 (cid_of blake3 codec bytes) bytes ≡ ok true
  unfolding cid_verify cid_of
  cid_verify-cid_of codec bytes h = rw (
    le→ltb_false _ 4 long,
    get_varint-put_varint codec _ h,
    verify_codec,
    get_varint-put_varint multihash_blake3_256 _ (omega arith),
    get_varint-put_varint hash_bytes _ (omega arith),
    digest_matches_self,
  )
    where
      tail_length : (xs ys zs : List ℕ) → 32 ≤ length (xs ++ (ys ++ (zs ++ blake3.digest bytes)))
      tail_length xs ys zs =
          rw (length-append, length-append, length-append, blake3.length-digest) (omega arith)

      long :
          4
          ≤ suc (
              length
                (put_varint codec ++ (put_varint 30 ++ (put_varint 32 ++ blake3.digest bytes))))
      long = omega (arith, tail_length (put_varint codec) (put_varint 30) (put_varint 32))

  digest_matches-true :
      (f l : ℕ) (rest bytes : List ℕ)
      → digest_matches blake3 f l rest bytes ≡ true
      → (rest ≡ blake3.digest bytes) × (f ≡ multihash_blake3_256) × (l ≡ hash_bytes)
  unfolding digest_matches
  digest_matches-true f l rest bytes h = ground (
    arith,
    blake3.length-digest bytes,
    eq_bytes→eq (blake3.digest bytes) (take (length (blake3.digest bytes)) rest),
    take_whole (length (blake3.digest bytes)) rest,
  )

  -- An address that verifies ends in the digest of the bytes.
  abbrev EndsInDigest : List ℕ → List ℕ → Type 0
  EndsInDigest cid bytes = (front : List ℕ) × (cid ≡ front ++ blake3.digest bytes)

  verify_length_sound :
      (f : ℕ) (read : Option (ℕ × List ℕ)) (src bytes : List ℕ)
      → get_varint src 0 0 ≡ ok read
      → verify_length blake3 f read bytes ≡ ok true
      → EndsInDigest src bytes
  unfolding verify_length
  verify_length_sound f none src bytes g h = cc
  verify_length_sound f (some (l, rest)) src bytes g h =
      let (used, e) = get_varint-suffix src 0 0 l rest g in
      let same = (digest_matches-true f l rest bytes (cc)).0 in (used, e ∙ ap (λ t. used ++ t) same)

  verify_function_sound :
      (read : Option (ℕ × List ℕ)) (src bytes : List ℕ)
      → get_varint src 0 0 ≡ ok read
      → verify_function blake3 read bytes ≡ ok true
      → EndsInDigest src bytes
  unfolding verify_function
  verify_function_sound none src bytes g h = cc
  verify_function_sound (some (f, rest)) src bytes g h =
      let (used, e) = get_varint-suffix src 0 0 f rest g in
      let (read, r, k) = >>=-eq-ok _ (get_varint rest 0 0) h in
      let (front, e') = verify_length_sound f read rest bytes r k in
      (used ++ front, e ∙ ap (λ t. used ++ t) e' ∙ sym (append_assoc used front _))

  verify_codec_sound :
      (read : Option (ℕ × List ℕ)) (src bytes : List ℕ)
      → get_varint src 0 0 ≡ ok read
      → verify_codec blake3 read bytes ≡ ok true
      → EndsInDigest src bytes
  unfolding verify_codec
  verify_codec_sound none src bytes g h = cc
  verify_codec_sound (some (codec, rest)) src bytes g h =
      let (used, e) = get_varint-suffix src 0 0 codec rest g in
      let (read, r, k) = >>=-eq-ok _ (get_varint rest 0 0) h in
      let (front, e') = verify_function_sound read rest bytes r k in
      (used ++ front, e ∙ ap (λ t. used ++ t) e' ∙ sym (append_assoc used front _))

  cid_verify_sound :
      (cid bytes : List ℕ) → cid_verify blake3 cid bytes ≡ ok true → EndsInDigest cid bytes
  unfolding cid_verify
  cid_verify_sound [] bytes h = cc
  cid_verify_sound (c ∷ cid) bytes h =
      elim (Bool-cases (ltb (length (c ∷ cid)) 4 || not (c == 1))) [
        | inl refused ↦ cc (rw refused at h)
        | inr kept ↦
            let (read, r, k) = >>=-eq-ok _ (get_varint cid 0 0) (rw kept at h) in
            let (front, e) = verify_codec_sound read cid bytes r k in (c ∷ front, ap (λ t. c ∷ t) e)
      ]

  -- An address verifies two contents only if their digests are equal.
  pub cid_verify-binding :
      (cid a b : List ℕ)
      → cid_verify blake3 cid a ≡ ok true
      → cid_verify blake3 cid b ≡ ok true
      → blake3.digest a ≡ blake3.digest b
  cid_verify-binding cid a b ha hb =
      let (front, e) = cid_verify_sound cid a ha in
      let (front', e') = cid_verify_sound cid b hb in
      append_right_injective front front' _ _ (sym e ∙ e')
        (blake3.length-digest a ∙ sym (blake3.length-digest b))

  -- An address whose multicodec runs over ten bytes that say that more follow is undefined
  -- behaviour to verify, for a shift by 70.
  pub cid_verify-overlong :
      (cs rest bytes : List ℕ) (b : ℕ)
      → All Continues cs
      → length cs ≡ 10
      → cid_verify blake3 (0x01 ∷ (cs ++ (b ∷ rest))) bytes ≡ fault
  unfolding cid_verify
  cid_verify-overlong cs rest bytes b h ten =
      let long : ltb (suc (length (cs ++ (b ∷ rest)))) 4 ≡ false =
        le→ltb_false _ 4 (omega (arith, length-append cs (b ∷ rest))) in
      rw (long, get_varint-overlong cs rest b 0 0 h (omega arith))
