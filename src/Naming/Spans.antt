-- ===== src/Naming/Spans.antt =====
-- naming/spans/spans.cpp: spans of a text that is kept in pieces.
use sygaldreye.Common.{
  ℕ, ◌+◌, ◌-◌, ◌%◌, ◌^◌, List, [], ◌∷◌, Bool, ◌&&◌, Option, none, some, eq_bytes, codes,
  if◌then◌else◌, length, take, drop, leb, ◌==◌,
}
use sygaldreye.Common.Outcome.{
  Outcome, ok, throws, ◌>>=◌, Run, run_then, span_does_not_fit, piece_not_in_version, out_of_range,
}
use sygaldreye.Formats.Cbor.Json.{
  Json, Items, nil, cons, Fields, field, end, null, array, object, slash,
}
use sygaldreye.Naming.{Environment, fetch}
use sygaldreye.Naming.Resolver.{at, get_string}

pub record Span : Type 0 where
  pub piece_cid : List ℕ
  pub start : ℕ
  pub len : ℕ

pub record Located : Type 0 where
  pub text : List ℕ
  pub position : ℕ

-- What a walk gives to its function, for each piece.
pub record Piece : Type 0 where
  pub piece_cid : List ℕ
  pub text : List ℕ
  pub offset : ℕ

-- What a range-based for loop over a nlohmann::json goes over.
abbrev pub items_list : Items → List Json
items_list nil = []
items_list (cons v xs) = v ∷ items_list xs

abbrev pub values_list : Fields → List Json
values_list end = []
values_list (field k v fs) = v ∷ values_list fs

abbrev pub elements_of : Json → List Json
elements_of (array xs) = items_list xs
elements_of (object fs) = values_list fs
elements_of null = []
elements_of v = v ∷ []

-- A walk, with its function on what it keeps.
unfoldable pub walk_links :
    {S : Type 0} → (S → Piece → Outcome S) → List Json → ℕ → S → Environment → Run Environment S
unfolding at fetch
walk_links f [] off s e = (ok s, e)
walk_links f (link ∷ links) off s e =
    run_then (at slash link, e)
      (λ target e.
        run_then (get_string target, e)
          (λ text e. run_then (fetch text e) (λ v e.
            run_then (get_string v, e)
              (λ piece e.
                run_then (f s (record { piece_cid = text; text = piece; offset = off }), e)
                  (λ s e. walk_links f links (off + length piece) s e)))))

unfoldable pub walk :
    {S : Type 0} → (S → Piece → Outcome S) → Json → S → Environment → Run Environment S
unfolding at walk_links
walk f text_node s e =
    run_then (at (codes "pieces") text_node, e) (λ links e. walk_links f (elements_of links) 0 s e)

-- `pos + len` is a sum of 64 bits.
unfoldable pub fits : ℕ → ℕ → Piece → Bool
fits pos len p = leb p.offset pos && leb ((pos + len) % 2 ^ 64) (p.offset + length p.text)

unfoldable pub span_in : ℕ → ℕ → Span → Piece → Outcome Span
unfolding fits
span_in pos len out p = ok (
    if out.len == 0 && fits pos len p
    then record { piece_cid = p.piece_cid; start = pos - p.offset; len = len }
    else out)

abbrev pub no_span : Span
no_span = record { piece_cid = []; start = 0; len = 0 }

abbrev pub checked_span : Span → Outcome Span
checked_span s = if s.len == 0 then throws span_does_not_fit else ok s

unfoldable pub span_at : Json → ℕ → ℕ → Environment → Run Environment Span
unfolding walk span_in
span_at text_node pos len e =
    run_then (walk (span_in pos len) text_node no_span e) (λ out e. (checked_span out, e))

-- `substr`.
unfoldable pub substr : List ℕ → ℕ → ℕ → Outcome (List ℕ)
substr s start len =
    if leb start (length s) then ok (take len (drop start s)) else throws out_of_range

-- The state is `out`, once it is `found`.
unfoldable pub text_in : Span → Option Located → Piece → Outcome (Option Located)
unfolding substr
text_in s (some out) p = ok (some out)
text_in s none p =
    if eq_bytes p.piece_cid s.piece_cid
    then (do
      t ← substr p.text s.start s.len
      ok (some (record { text = t; position = p.offset + s.start })))
    else ok none

abbrev pub checked_text : Option Located → Outcome Located
checked_text none = throws piece_not_in_version
checked_text (some out) = ok out

unfoldable pub span_text : Json → Span → Environment → Run Environment Located
unfolding walk text_in
span_text text_node s e =
    run_then (walk (text_in s) text_node none e) (λ out e. (checked_text out, e))
