-- ===== src/Naming/Folds.antt =====
-- What the walks of `span_at` and `span_text` come to.
use sygaldreye.Common.{
  ℕ, ◌+◌, ◌-◌, ◌^◌, ◌≤◌, ◌<◌, ◌≡◌, ◌≢◌, ◌⊎◌, refl, ap, sym, ◌∙◌, List, [], ◌∷◌, ◌++◌, Bool, true,
  false, Bool-cases, inl, inr, Option, none, some, eq_bytes, eq_bytes→eq, length, take, drop, arith,
  leb, leb→le, ◌==◌, ◌&&◌,
}
use sygaldreye.Common.Outcome.{
  ok, throws, ok_injective, ◌>>=◌, >>=-eq-ok, out_of_range, span_does_not_fit,
}
use sygaldreye.Common.Maps.{lookup}
use sygaldreye.Formats.Cbor.Json.{string}
use sygaldreye.Naming.{Environment}
use sygaldreye.Naming.Spans.{
  Span, Located, Piece, fits, span_in, no_span, checked_span, substr, text_in, checked_text,
}
use sygaldreye.Naming.Pieces.{each, IsKept}

-- A span that lies in a piece, for a position and a length of the whole text.
pub record IsIn (pos len : ℕ) (s : Span) (p : Piece) : Type 0 where
  pub named : s.piece_cid ≡ p.piece_cid
  pub begins : p.offset + s.start ≡ pos
  pub long : s.len ≡ len
  pub inside : s.start + len ≤ length p.text

-- One of some pieces, with those before and behind it, for which a predicate holds.
abbrev pub Among : (Piece → Type 0) → List Piece → Type 0
Among P ps = (pre : List Piece) × (p : Piece) × (post : List Piece) × (ps ≡ pre ++ (p ∷ post)) × P p

pub Among-cons : (P : Piece → Type 0) (p : Piece) (ps : List Piece) → Among P ps → Among P (p ∷ ps)
Among-cons P p ps a = (p ∷ a.0, a.1, a.2, ap (λ l. p ∷ l) a.3, a.4)

fits-bounds :
    (pos len : ℕ) (p : Piece)
    → pos + len < 2 ^ 64
    → fits pos len p ≡ true
    → (p.offset ≤ pos) × (pos + len ≤ p.offset + length p.text)
unfolding fits
fits-bounds pos len p small h = ground arith

and_right : (a b : Bool) → (a && b) ≡ true → b ≡ true
and_right true b h = h
and_right false b h = cc

-- The span that a walk comes to is the one that it began with, or lies in one of its pieces.
pub each-span_in :
    (pos len : ℕ) (ps : List Piece) (out s : Span)
    → pos + len < 2 ^ 64
    → each (span_in pos len) out ps ≡ ok s
    → (s ≡ out) ⊎ Among (IsIn pos len s) ps
unfolding span_in
each-span_in pos len [] out s small h = inl (sym (ok_injective h))
each-span_in pos len (p ∷ ps) out s small h = elim (Bool-cases (out.len == 0 && fits pos len p)) [
  | inr passed ↦
      let onward : each (span_in pos len) out ps ≡ ok s = rw passed at h in
      elim (each-span_in pos len ps out s small onward) [
        | inl e ↦ inl e
        | inr a ↦ inr (Among-cons (IsIn pos len s) p ps a)
      ]
  | inl taken ↦
      let here : Span = record { piece_cid = p.piece_cid; start = pos - p.offset; len = len } in
      let onward : each (span_in pos len) here ps ≡ ok s = rw taken at h in
      let bounds = fits-bounds pos len p small (and_right (out.len == 0) (fits pos len p) taken) in
      elim (each-span_in pos len ps here s small onward) [
        | inl e ↦ inr (
          [],
          p,
          ps,
          refl,
          record {
            named = ap (λ (t : Span). t.piece_cid) e;
            begins = ap (λ (t : Span). p.offset + t.start) e ∙ omega (arith, bounds.0);
            long = ap (λ (t : Span). t.len) e;
            inside = omega (arith, ap (λ (t : Span). t.start) e, bounds.1, bounds.0);
          },
        )
        | inr a ↦ inr (Among-cons (IsIn pos len s) p ps a)
      ]
]

-- Where the text of a span was found.
pub record IsAt (s : Span) (l : Located) (p : Piece) : Type 0 where
  pub named : p.piece_cid ≡ s.piece_cid
  pub has : s.start ≤ length p.text
  pub text : l.text ≡ take s.len (drop s.start p.text)
  pub position : l.position ≡ p.offset + s.start

pub each-text_in_found :
    (s : Span) (ps : List Piece) (l : Located) → each (text_in s) (some l) ps ≡ ok (some l)
unfolding text_in
each-text_in_found s [] l = refl
each-text_in_found s (p ∷ ps) l = each-text_in_found s ps l

substr-ok :
    (text : List ℕ) (start len : ℕ) (t : List ℕ)
    → substr text start len ≡ ok t
    → (start ≤ length text) × (t ≡ take len (drop start text))
unfolding substr
substr-ok text start len t h = elim (Bool-cases (leb start (length text))) [
  | inl there ↦
      let got : ok (take len (drop start text)) ≡ ok t = rw there at h in
      (leb→le start (length text) there, sym (ok_injective got))
  | inr missing ↦ let none_there : throws out_of_range ≡ ok t = rw missing at h in cc
]

some_injective : {A : Type 0} {a b : A} → some a ≡ some b → a ≡ b
some_injective h = cc

pub each-text_in :
    (s : Span) (ps : List Piece) (l : Located)
    → each (text_in s) none ps ≡ ok (some l)
    → Among (IsAt s l) ps
unfolding text_in
each-text_in s [] l h = cc
each-text_in s (p ∷ ps) l h = elim (Bool-cases (eq_bytes p.piece_cid s.piece_cid)) [
  | inr other ↦
      let onward : each (text_in s) none ps ≡ ok (some l) = rw other at h in
      Among-cons (IsAt s l) p ps (each-text_in s ps l onward)
  | inl same ↦
      let onward : ((do
        t ← substr p.text s.start s.len
        ok (some (record { text = t; position = p.offset + s.start })))
            >>= λ t. each (text_in s) t ps)
          ≡ ok (some l) =
        rw same at h in
      let cut = >>=-eq-ok (λ t. each (text_in s) t ps) _ onward in
      let got = >>=-eq-ok _ (substr p.text s.start s.len) cut.1 in
      let at_p = substr-ok p.text s.start s.len got.0 got.1 in
      let there : Located = record { text = got.0; position = p.offset + s.start } in
      let ended : ok (some there) ≡ ok (some l) =
        sym (each-text_in_found s ps there)
        ∙ ap (λ o. each (text_in s) o ps) (ok_injective got.2)
        ∙ cut.2 in
      let e : there ≡ l = some_injective (ok_injective ended) in
      (
        [],
        p,
        ps,
        refl,
        record {
          named = eq_bytes→eq p.piece_cid s.piece_cid same;
          has = at_p.0;
          text = ap (λ (l : Located). l.text) (sym e) ∙ at_p.1;
          position = ap (λ (l : Located). l.position) (sym e);
        },
      )
]

pub Among-IsKept :
    (e : Environment) (pre post : List Piece) (p : Piece)
    → IsKept e (pre ++ (p ∷ post))
    → lookup p.piece_cid e.backing ≡ some (string p.text)
Among-IsKept e [] post p h = h.0
Among-IsKept e (q ∷ pre) post p h = Among-IsKept e pre post p h.1

pub checked_span-ok : (s t : Span) → checked_span s ≡ ok t → (s ≡ t) × (s ≢ no_span)
checked_span-ok s t h = elim (Bool-cases (s.len == 0)) [
  | inl empty ↦
      let thrown : throws span_does_not_fit ≡ ok t = rw empty at h in absurd (throws-ne-ok thrown)
  | inr held ↦
      let got : ok s ≡ ok t = rw held at h in
      (ok_injective got, λ e. true-ne-false (sym (ap (λ (r : Span). r.len == 0) e) ∙ held))
]
  where
    throws-ne-ok : throws span_does_not_fit ≡ ok t → ⊥
    throws-ne-ok p = cc

    true-ne-false : true ≡ false → ⊥
    true-ne-false p = cc

pub checked_text-ok : (o : Option Located) (l : Located) → checked_text o ≡ ok l → o ≡ some l
checked_text-ok none l h = cc
checked_text-ok (some out) l h = ap some (ok_injective h)
