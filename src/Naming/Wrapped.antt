-- ===== src/Naming/Wrapped.antt =====
-- Spans of a sum that wraps.
use sygaldreye.Common.{
  ℕ, ◌+◌, ◌-◌, ◌%◌, ◌^◌, ◌≤◌, ◌<◌, ◌≡◌, refl, ap, ◌∙◌, List, [], true, none, length, le→leb,
  lt→leb_false, ne→==, eq_bytes_refl, arith, codes,
}
use sygaldreye.Common.Outcome.{Outcome, ok, throws, Run, run_then, out_of_range}
use sygaldreye.Formats.Cbor.Json.{Json, string, array, cons, nil, slash}
use sygaldreye.Naming.{Environment, fetch}
use sygaldreye.Naming.Resolver.{at, get_string}
use sygaldreye.Naming.Settled.{Extends-refl, Settles-fetch}
use sygaldreye.Naming.Spans.{
  elements_of, Span, Piece, fits, span_in, no_span, checked_span, span_at, substr, text_in,
  checked_text, span_text, walk, walk_links,
}

-- A walk over a text of one piece.
walk_one :
    {S : Type 0} (f : S → Piece → Outcome S) (s : S) (text_node link : Json) (cid piece : List ℕ)
    (e e' : Environment)
    → at (codes "pieces") text_node ≡ ok (array (cons link nil))
    → at slash link ≡ ok (string cid)
    → fetch cid e ≡ (ok (string piece), e')
    → walk f text_node s e
      ≡ run_then (f s (record { piece_cid = cid; text = piece; offset = 0 }), e') (λ s e. (ok s, e))
unfolding walk walk_links
walk_one f s text_node link cid piece e e' pieces target fetched =
    ap (λ r. run_then (r, e) (λ links e. walk_links f (elements_of links) 0 s e)) pieces
    ∙ ap
        (λ r.
          run_then (r, e)
            (λ target e.
              run_then (get_string target, e)
                (λ text e. run_then (fetch text e) (λ v e.
                  run_then (get_string v, e)
                    (λ piece e.
                      run_then (f s (record { piece_cid = text; text = piece; offset = 0 }), e)
                        (λ s e. walk_links f [] (0 + length piece) s e))))))
        target
    ∙ ap
        (λ r. run_then r (λ v e.
          run_then (get_string v, e)
            (λ piece e.
              run_then (f s (record { piece_cid = cid; text = piece; offset = 0 }), e)
                (λ s e. walk_links f [] (0 + length piece) s e))))
        fetched

module _ (pos len : ℕ) (piece : List ℕ) (below : pos < 2 ^ 64) (behind : length piece < pos)
    (wraps : 2 ^ 64 ≤ pos + len) (inside : pos + len ≤ 2 ^ 64 + length piece) where
  fits-wraps :
      (cid : List ℕ) → fits pos len (record { piece_cid = cid; text = piece; offset = 0 }) ≡ true
  unfolding fits
  fits-wraps cid =
      rw
        (
          le→leb 0 pos (omega arith),
          le→leb ((pos + len) % 2 ^ 64) (0 + length piece)
              (omega (arith, below, behind, wraps, inside)),
        )
        refl

  -- In a text of one piece that the environment has, a 64-bit position behind the piece and a length with which the sum of 64 bits
  -- wraps to a place in it are taken as a span, and `span_text` of that span throws in the same version.
  pub span_text-wraps :
      (text_node link : Json) (cid : List ℕ) (e e' : Environment)
      → at (codes "pieces") text_node ≡ ok (array (cons link nil))
      → at slash link ≡ ok (string cid)
      → fetch cid e ≡ (ok (string piece), e')
      → let s : Span = record { piece_cid = cid; start = pos; len = len } in
        (span_at text_node pos len e ≡ (ok s, e'))
        × (span_text text_node s e' ≡ (throws out_of_range, e'))
  unfolding span_at span_text span_in text_in substr
  span_text-wraps text_node link cid e e' pieces target fetched =
      let again = (Settles-fetch cid e e' (string piece) fetched).1 e' (Extends-refl e') in
      let s : Span = record { piece_cid = cid; start = pos; len = len } in
      let made : ℕ → Run Environment Span =
        λ start. (ok (record { piece_cid = cid; start = start; len = len }), e') in
      let minus_zero : pos - 0 ≡ pos = omega arith in
      (
        ap (λ w. run_then w (λ out e. (checked_span out, e)))
              (walk_one (span_in pos len) no_span text_node link cid piece e e' pieces target
                fetched)
            ∙ rw (fits-wraps cid, ne→== len 0 (omega (arith, below, wraps))) (ap made minus_zero),
        ap (λ w. run_then w (λ out e. (checked_text out, e)))
              (walk_one (text_in s) none text_node link cid piece e' e' pieces target again)
            ∙ rw (eq_bytes_refl cid, lt→leb_false pos (length piece) behind) refl,
      )
