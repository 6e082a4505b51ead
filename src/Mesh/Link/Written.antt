-- ===== src/Mesh/Link/Written.antt =====
-- Frames as they are written: what is sent, and when all of it is.
use sygaldreye.Common.{
  ℕ, zero, suc, ◌+◌, ◌%◌, ◌^◌, ◌≤◌, ◌<◌, ◌≡◌, refl, ap, sym, ◌∙◌, List, [], ◌∷◌, ◌++◌, true, false,
  Bool-cases, inl, inr, length, take, drop, All, arith, take-append-drop, length-drop,
}
use sygaldreye.Mesh.Link.{
  Socket, Writing, sent_before, write_n, length_bytes, written_to, then_body, write_frame,
}

-- A `write_n` that returns true sent all of its bytes, in their order.
write_n-done :
    (bytes accepts : List ℕ)
    → (write_n bytes accepts).done ≡ true
    → (write_n bytes accepts).bytes_sent ≡ bytes
unfolding write_n
write_n-done [] accepts h = refl
write_n-done (b ∷ bytes) [] h = cc
write_n-done (b ∷ bytes) (zero ∷ accepts) h = cc
write_n-done (b ∷ bytes) (suc n ∷ accepts) h =
    ap (λ l. b ∷ (take n bytes ++ l)) (write_n-done (drop n bytes) accepts h)
    ∙ ap (λ l. b ∷ l) (take-append-drop n bytes)

then_body-sent :
    (body : List ℕ) (s t : Socket) (w : Writing)
    → then_body body s w ≡ (true, t)
    → (w.done ≡ true) × (t.sent ≡ s.sent ++ (w.bytes_sent ++ body))
then_body-sent body s t w h = elim (Bool-cases w.done) [
  | inr failing ↦
      let failed : (false, written_to s w) ≡ (true, t) = rw failing at h in
      absurd (false_ne_true (ap (λ r. r.0) failed))
  | inl going ↦
      let made : (
        (write_n body w.accepts_left).done,
        written_to s (sent_before w.bytes_sent (write_n body w.accepts_left)),
      )
          ≡ (true, t) =
        rw going at h in
      (
        going,
        ap (λ r. r.1.sent) (sym made)
            ∙ ap (λ l. s.sent ++ (w.bytes_sent ++ l))
                (write_n-done body w.accepts_left (ap (λ r. r.0) made)),
      )
]
  where
    false_ne_true : false ≡ true → ⊥
    false_ne_true e = cc

-- A `write_frame` that returns true sent the length and the body.
pub write_frame-sent :
    (body : List ℕ) (s t : Socket)
    → write_frame body s ≡ (true, t)
    → t.sent ≡ s.sent ++ (length_bytes (length body % 2 ^ 32) ++ body)
unfolding write_frame
write_frame-sent body s t h =
    let w = write_n (length_bytes (length body % 2 ^ 32)) s.accepts in
    let r = then_body-sent body s t w h in
    r.1
    ∙ ap (λ l. s.sent ++ (l ++ body))
        (write_n-done (length_bytes (length body % 2 ^ 32)) s.accepts r.0)

-- Every `::send` takes a byte at least.
abbrev pub IsTaking : List ℕ → Type 0
IsTaking accepts = All (λ n. 0 < n) accepts

-- A `write_n` with a call for each byte returns true, and leaves a call for each further byte.
write_n-IsTaking :
    (fuel more : ℕ) (bytes accepts : List ℕ)
    → length bytes ≤ fuel
    → IsTaking accepts
    → length bytes + more ≤ length accepts
    → ((write_n bytes accepts).done ≡ true)
      × IsTaking (write_n bytes accepts).accepts_left
      × (more ≤ length (write_n bytes accepts).accepts_left)
unfolding write_n
write_n-IsTaking fuel more [] accepts f h enough = (refl, h, omega (arith, enough))
write_n-IsTaking fuel more (b ∷ bytes) [] f h enough = absurd (omega (arith, enough))
write_n-IsTaking fuel more (b ∷ bytes) (zero ∷ accepts) f h enough = absurd (omega (arith, h.0))
write_n-IsTaking zero more (b ∷ bytes) (suc n ∷ accepts) f h enough = absurd (omega (arith, f))
write_n-IsTaking (suc fuel) more (b ∷ bytes) (suc n ∷ accepts) f h enough =
    write_n-IsTaking fuel more (drop n bytes) accepts (omega (arith, f, length-drop n bytes)) h.1
      (omega (arith, enough, length-drop n bytes))

then_body-done :
    (body : List ℕ) (s : Socket) (w : Writing)
    → w.done ≡ true
    → (write_n body w.accepts_left).done ≡ true
    → (then_body body s w).0 ≡ true
then_body-done body s w first second = rw (first, second) refl

pub write_frame-done :
    (body : List ℕ) (s : Socket)
    → IsTaking s.accepts
    → length (length_bytes (length body % 2 ^ 32) ++ body) ≤ length s.accepts
    → (write_frame body s).0 ≡ true
unfolding write_frame length_bytes
write_frame-done body s taking enough =
    let size = length_bytes (length body % 2 ^ 32) in
    let first =
      write_n-IsTaking 4 (length body) size s.accepts (omega arith) taking
        (omega (arith, enough)) in
    let second =
      write_n-IsTaking (length body) 0 body (write_n size s.accepts).accepts_left (omega arith)
        first.1 (omega (arith, first.2)) in
    then_body-done body s (write_n size s.accepts) first.0 second.0
