-- ===== src/Formats/Sample.antt =====
-- A concrete digest for the runs.
use sygaldreye.Common.{ℕ, ◌+◌, ◌%◌, refl, List, [], ◌∷◌, arith, All, IsByte}
use sygaldreye.Formats.Cid.{Hash}

-- A stand-in for BLAKE3: a sum of the bytes, in 32 bytes.
abbrev pub zeros : List ℕ
zeros =
    0 ∷ 0 ∷ 0 ∷ 0 ∷ 0 ∷ 0 ∷ 0 ∷ 0 ∷ 0 ∷ 0 ∷ 0 ∷ 0 ∷ 0 ∷ 0 ∷ 0 ∷ 0 ∷ 0 ∷ 0 ∷ 0 ∷ 0 ∷ 0 ∷ 0 ∷ 0 ∷ 0
    ∷ 0 ∷ 0 ∷ 0 ∷ 0 ∷ 0 ∷ 0 ∷ 0 ∷ []

abbrev pub sum : List ℕ → ℕ
sum [] = 0
sum (b ∷ bs) = b + sum bs

pub checksum-IsByte : (bytes : List ℕ) → All IsByte (sum bytes % 256 ∷ zeros)
checksum-IsByte bytes = omega arith

abbrev pub checksum : Hash
checksum = record {
  digest = λ bytes. sum bytes % 256 ∷ zeros;
  length-digest = λ bytes. refl;
  digest-IsByte = checksum-IsByte;
}
