-- ===== src/Mesh/Link/Frames.antt =====
-- Frames: what is written is read, however the bytes arrive.
use sygaldreye.Common.{
  ℕ, zero, suc, ◌+◌, ◌-◌, ◌*◌, ◌/◌, ◌%◌, ◌^◌, ◌≤◌, ◌<◌, ◌≡◌, refl, ap, ap₂, sym, ◌∙◌, List, [], ◌∷◌,
  ◌++◌, Bool-cases, inl, inr, none, some, leb, leb→le, le→leb, length, take, drop, bit_or, All,
  arith, length-append, take-append, drop-append, length-drop, lt→leb_false,
}
use sygaldreye.Common.Bits.{shl, shr, bit_or_shift}
use sygaldreye.Mesh.Link.{
  Socket, max_frame, behind, read_n, length_bytes, length_of, body_of, frame_of, arrived,
  read_frame,
}

abbrev pub join : List (List ℕ) → List ℕ
join [] = []
join (s ∷ segments) = s ++ join segments

abbrev pub IsArriving : List (List ℕ) → Type 0
IsArriving segments = All (λ (s : List ℕ). 0 < length s) segments

abbrev pub append_empty : (xs : List ℕ) → xs ++ [] ≡ xs
append_empty [] = refl
append_empty (x ∷ xs) = ap (λ l. x ∷ l) (append_empty xs)

-- The end of a list that begins like another.
split_longer :
    (xs ys us vs : List ℕ)
    → xs ++ ys ≡ us ++ vs
    → length xs ≤ length us
    → (mid : List ℕ) × (us ≡ xs ++ mid) × (ys ≡ mid ++ vs)
split_longer [] ys us vs e h = (us, refl, e)
split_longer (x ∷ xs) ys [] vs e h = absurd (omega arith)
split_longer (x ∷ xs) ys (u ∷ us) vs e h =
    let tails : xs ++ ys ≡ us ++ vs = cc in
    let heads : x ≡ u = cc in
    let rest = split_longer xs ys us vs tails (omega arith) in
    (rest.0, ap₂ (λ a l. a ∷ l) (sym heads) rest.1, rest.2)

length-split : (n : ℕ) (xs : List ℕ) → n ≤ length xs → length (take n xs) ≡ n
length-split zero xs h = refl
length-split (suc n) [] h = absurd (omega arith)
length-split (suc n) (x ∷ xs) h = ap suc (length-split n xs (omega arith))

-- `read_n` gets its bytes, whatever the segments are, and leaves what is behind them.
pub read_n-join :
    (segments : List (List ℕ)) (bytes rest : List ℕ)
    → IsArriving segments
    → join segments ≡ bytes ++ rest
    → (left : List (List ℕ)) × (read_n (length bytes) segments ≡ (some bytes, left))
      × (join left ≡ rest)
      × IsArriving left
unfolding read_n
read_n-join segments [] rest h e = (segments, refl, e, h)
read_n-join [] (b ∷ bytes) rest h e = cc
read_n-join ([] ∷ segments) (b ∷ bytes) rest h e = absurd (omega (arith, h.0))
read_n-join ((c ∷ cs) ∷ segments) (b ∷ bytes) rest h e =
    elim (Bool-cases (leb (length cs) (length bytes))) [
      | inl short ↦
          let tails : cs ++ join segments ≡ bytes ++ rest = cc in
          let heads : c ≡ b = cc in
          let mid =
            split_longer cs (join segments) bytes rest tails
              (leb→le (length cs) (length bytes) short) in
          let r = read_n-join segments mid.0 rest h.1 mid.2 in
          let count : length bytes - length cs ≡ length mid.0 =
            omega (arith, ap (λ l. length l) mid.1, length-append cs mid.0) in
          (
            r.0,
            rw (short, read_n)
                (ap (λ k. behind (c ∷ cs) (read_n k segments)) count
                  ∙ ap (behind (c ∷ cs)) r.1
                  ∙ ap₂ (λ a l. (some (a ∷ l), r.0)) heads (sym mid.1)),
            r.2,
            r.3,
          )
      | inr long ↦
          let tails : bytes ++ rest ≡ cs ++ join segments = cc in
          let heads : c ≡ b = cc in
          let over : length bytes < length cs = ground (arith, long) in
          let mid = split_longer bytes rest cs (join segments) tails (omega (arith, over)) in
          (
            drop (length bytes) cs ∷ segments,
            rw (long, read_n)
                (ap₂ (λ a l. (some (a ∷ l), drop (length bytes) cs ∷ segments)) heads
                  (ap (take (length bytes)) mid.1 ∙ take-append bytes mid.0 (length bytes) refl)),
            ap (λ l. l ++ join segments)
                  (ap (drop (length bytes)) mid.1 ∙ drop-append bytes mid.0 (length bytes) refl)
                ∙ sym mid.2,
            (omega (arith, over, length-drop (length bytes) cs), h.1),
          )
    ]

-- The length of a frame, within the bound.
length_of-length_bytes : (n : ℕ) → n < 2 ^ 32 → length_of (length_bytes n) ≡ some n
unfolding length_of length_bytes
length_of-length_bytes n h = ap some (
    ap (λ w. bit_or (bit_or w (shl 32 (shr n 8 % 256) 8)) (n % 256))
      (ap₂ bit_or a b ∙ bit_or_shift 24 (n / 2 ^ 24) (n / 2 ^ 16 % 256 * 2 ^ 16) (omega arith))
    ∙ ap (λ w. bit_or w (n % 256))
        (ap₂ bit_or ab c ∙ bit_or_shift 16 (n / 2 ^ 16) (n / 2 ^ 8 % 256 * 2 ^ 8) (omega arith))
    ∙ ap (λ w. bit_or w (n % 256)) abc
    ∙ bit_or_shift 8 (n / 2 ^ 8) (n % 256) (omega arith)
    ∙ omega arith)
  where
    a : shl 32 (shr n 24 % 256) 24 ≡ n / 2 ^ 24 * 2 ^ 24
    a = omega arith

    b : shl 32 (shr n 16 % 256) 16 ≡ n / 2 ^ 16 % 256 * 2 ^ 16
    b = omega arith

    c : shl 32 (shr n 8 % 256) 8 ≡ n / 2 ^ 8 % 256 * 2 ^ 8
    c = omega arith

    ab : n / 2 ^ 24 * 2 ^ 24 + n / 2 ^ 16 % 256 * 2 ^ 16 ≡ n / 2 ^ 16 * 2 ^ 16
    ab = omega arith

    abc : n / 2 ^ 16 * 2 ^ 16 + n / 2 ^ 8 % 256 * 2 ^ 8 ≡ n / 2 ^ 8 * 2 ^ 8
    abc = omega arith

-- What is there for a frame of at most `max_frame` bytes is read, whatever the segments are, and the
-- bytes behind it are left.
pub read_frame-join :
    (body rest : List ℕ) (s : Socket)
    → length body ≤ max_frame
    → IsArriving s.incoming
    → join s.incoming ≡ length_bytes (length body % 2 ^ 32) ++ (body ++ rest)
    → (left : List (List ℕ)) × (read_frame s ≡ (some body, record s { incoming = left }))
      × (join left ≡ rest)
      × IsArriving left
unfolding read_frame length_bytes
read_frame-join body rest s bound h e =
    let first = read_n-join s.incoming (length_bytes (length body % 2 ^ 32)) (body ++ rest) h e in
    let second = read_n-join first.0 body rest first.3 first.2 in
    let size : length body % 2 ^ 32 ≡ length body = omega (arith, bound) in
    (
      second.0,
      ap (λ r. arrived (frame_of r) s) first.1
          ∙ ap (λ r. arrived (body_of r first.0) s)
              (ap (λ k. length_of (length_bytes k)) size
                ∙ length_of-length_bytes (length body) (omega (arith, bound)))
          ∙ rw (le→leb (length body) max_frame bound) (ap (λ r. arrived r s) second.1),
      second.2,
      second.3,
    )

-- A frame of more than `max_frame` bytes is refused behind its length.
pub read_frame-oversize :
    (body rest : List ℕ) (s : Socket)
    → max_frame < length body
    → length body < 2 ^ 32
    → IsArriving s.incoming
    → join s.incoming ≡ length_bytes (length body % 2 ^ 32) ++ (body ++ rest)
    → (left : List (List ℕ)) × (read_frame s ≡ (none, record s { incoming = left }))
unfolding read_frame length_bytes
read_frame-oversize body rest s over small h e =
    let first = read_n-join s.incoming (length_bytes (length body % 2 ^ 32)) (body ++ rest) h e in
    let size : length body % 2 ^ 32 ≡ length body = omega (arith, small) in
    (
      first.0,
      ap (λ r. arrived (frame_of r) s) first.1
          ∙ ap (λ r. arrived (body_of r first.0) s)
              (ap (λ k. length_of (length_bytes k)) size
                ∙ length_of-length_bytes (length body) small)
          ∙ rw (lt→leb_false (length body) max_frame over),
    )
