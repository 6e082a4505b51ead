-- ===== src/Naming/Located.antt =====
-- A span in the version of a text that it was taken from, and in others.
use sygaldreye.Common.{
  ℕ, ◌+◌, ◌^◌, ◌≤◌, ◌<◌, ◌≡◌, ap, sym, ◌∙◌, List, [], ◌∷◌, ◌++◌, true, Bool-cases, inl, inr, none,
  some, eq_bytes, eq_bytes→eq, codes, length, take, drop, arith, le→leb, eq_bytes_refl,
  if◌then◌else◌,
}
use mathlib.Core.Path.{subst}
use mathlib.Core.List.{append_assoc, append-nil}
use sygaldreye.Common.Outcome.{Outcome, ok, run_then, run_then-inverse, ◌>>=◌}
use sygaldreye.Common.Maps.{lookup}
use sygaldreye.Formats.Cbor.Json.{Json, string}
use sygaldreye.Naming.{Environment}
use sygaldreye.Naming.Settled.{Extends, Extends-refl, Extends-trans}
use sygaldreye.Naming.Spans.{
  Span, Located, Piece, span_in, no_span, span_at, substr, elements_of, text_in, checked_text,
  span_text, walk,
}
use sygaldreye.Naming.Resolver.{at}
use sygaldreye.Naming.Pieces.{
  each, whole, Follows, IsKept, Walked, walk-Walked, walk_again, part_of_whole,
}
use sygaldreye.Naming.Folds.{
  IsIn, IsAt, Among, each-span_in, each-text_in_found, each-text_in, Among-IsKept, checked_span-ok,
  checked_text-ok,
}

-- The whole text of a version, by a walk that joins its pieces.
abbrev pub joined : List ℕ → Piece → Outcome (List ℕ)
joined text p = ok (text ++ p.text)

each-joined : (text : List ℕ) (ps : List Piece) → each joined text ps ≡ ok (text ++ whole ps)
each-joined text [] = ap ok (sym (append-nil text))
each-joined text (p ∷ ps) =
    each-joined (text ++ p.text) ps ∙ ap ok (append_assoc text p.text (whole ps))

-- What a call of `span_at` that returned went over.
record Spanned (a : Json) (pos len : ℕ) (s : Span) (e' : Environment) : Type 1 where
  links : Json
  at_pieces : at (codes "pieces") a ≡ ok links
  ps : List Piece
  walked : Walked (elements_of links) 0 e' ps
  among : Among (IsIn pos len s) ps

span_at-Spanned :
    (a : Json) (pos len : ℕ) (e e' : Environment) (s : Span)
    → pos + len < 2 ^ 64
    → span_at a pos len e ≡ (ok s, e')
    → Spanned a pos len s e'
unfolding span_at
span_at-Spanned a pos len e e' s small h =
    let ran = run_then-inverse (walk (span_in pos len) a no_span e) _ s e' h in
    let went = walk-Walked (span_in pos len) a no_span ran.0 e ran.1 ran.2 in
    let checked = checked_span-ok ran.0 s (ap (λ r. r.0) ran.3) in
    let same : ran.1 ≡ e' = ap (λ r. r.1) ran.3 in
    record {
      links = went.1.0;
      at_pieces = went.1.1;
      ps = went.1.2.0;
      walked = subst (λ f. Walked (elements_of went.1.0) 0 f went.1.2.0) same went.1.2.2;
      among = elim (each-span_in pos len went.1.2.0 no_span ran.0 small went.1.2.1) [
        | inl unset ↦ absurd (checked.1 unset)
        | inr a ↦ subst (λ t. Among (IsIn pos len t) went.1.2.0) checked.0 a
      ];
    }

string_injective : {a b : List ℕ} → some (string a) ≡ some (string b) → a ≡ b
string_injective h = cc

-- The same span in the pieces of two versions.
same_part :
    (pos len : ℕ) (s : Span) (l : Located) (ps qs : List Piece) (e f : Environment)
    → Among (IsIn pos len s) ps
    → Among (IsAt s l) qs
    → Follows 0 ps
    → Follows 0 qs
    → IsKept e ps
    → IsKept f qs
    → Extends e f
    → (l.text ≡ take len (drop pos (whole ps))) × (l.text ≡ take len (drop l.position (whole qs)))
same_part pos len s l ps qs e f (pre, p, post, hp, from) (pre', q, post', hq, to) follows follows'
      kept kept' x =
    let p_kept =
      x.has p.piece_cid (string p.text) (Among-IsKept e pre post p (subst (IsKept e) hp kept)) in
    let q_kept = Among-IsKept f pre' post' q (subst (IsKept f) hq kept') in
    let same_text : q.text ≡ p.text =
      string_injective
        (sym q_kept ∙ ap (λ c. lookup c f.backing) (to.named ∙ from.named) ∙ p_kept) in
    let cut : l.text ≡ take len (drop s.start q.text) =
      to.text ∙ ap (λ n. take n (drop s.start q.text)) from.long in
    let q_inside : s.start + len ≤ length q.text =
      omega (arith, from.inside, ap (λ t. length t) same_text) in
    (
      cut
          ∙ ap (λ t. take len (drop s.start t)) same_text
          ∙ sym (part_of_whole pre post p s.start len (subst (Follows 0) hp follows) from.inside)
          ∙ ap (λ n. take len (drop n (whole (pre ++ (p ∷ post))))) from.begins
          ∙ ap (λ r. take len (drop pos (whole r))) (sym hp),
      cut
          ∙ sym (part_of_whole pre' post' q s.start len (subst (Follows 0) hq follows') q_inside)
          ∙ ap (λ n. take len (drop n (whole (pre' ++ (q ∷ post'))))) (sym to.position)
          ∙ ap (λ r. take len (drop l.position (whole r))) (sym hq),
    )

-- The whole text of a version that a walk went over.
whole_text :
    (node links : Json) (e' : Environment) (ps : List Piece)
    → at (codes "pieces") node ≡ ok links
    → Walked (elements_of links) 0 e' ps
    → walk joined node [] e' ≡ (ok (whole ps), e')
whole_text node links e' ps h w =
    walk_again joined node links [] e' e' ps h w (Extends-refl e')
    ∙ ap (λ o. (o, e')) (each-joined [] ps)

-- A span that was taken from a version of a text is located by `span_text` in any version, in any
-- environment that has the objects of the first: what it gives is the text that the span was taken
-- from, and the text of the other version at the position that it gives.
pub span_text-span_at :
    (a b : Json) (pos len : ℕ) (e e' f f' : Environment) (s : Span) (l : Located)
    → pos + len < 2 ^ 64
    → span_at a pos len e ≡ (ok s, e')
    → Extends e' f
    → span_text b s f ≡ (ok l, f')
    → (text_a text_b : List ℕ) × (walk joined a [] e' ≡ (ok text_a, e'))
      × (walk joined b [] f' ≡ (ok text_b, f'))
      × (l.text ≡ take len (drop pos text_a))
      × (l.text ≡ take len (drop l.position text_b))
unfolding span_text
span_text-span_at a b pos len e e' f f' s l small taken later located =
    let sp = span_at-Spanned a pos len e e' s small taken in
    let from = sp.among in
    let ran = run_then-inverse (walk (text_in s) b none f) _ l f' located in
    let went = walk-Walked (text_in s) b none ran.0 f ran.1 ran.2 in
    let same : ran.1 ≡ f' = ap (λ r. r.1) ran.3 in
    let found = checked_text-ok ran.0 l (ap (λ r. r.0) ran.3) in
    let to = each-text_in s went.1.2.0 l (went.1.2.1 ∙ ap ok found) in
    let walked = subst (λ f. Walked (elements_of went.1.0) 0 f went.1.2.0) same went.1.2.2 in
    let x = subst (Extends e') same (Extends-trans later went.0) in
    let parts =
      same_part pos len s l sp.ps went.1.2.0 e' f' from to sp.walked.follows walked.follows
        sp.walked.kept walked.kept x in
    (
      whole sp.ps,
      whole went.1.2.0,
      whole_text a sp.links e' sp.ps sp.at_pieces sp.walked,
      whole_text b went.1.0 f' went.1.2.0 went.1.1 walked,
      parts.0,
      parts.1,
    )

found_here :
    (s : Span) (p : Piece) (ps : List Piece)
    → eq_bytes p.piece_cid s.piece_cid ≡ true
    → s.start ≤ length p.text
    → (l : Located) × (each (text_in s) none (p ∷ ps) ≡ ok (some l))
unfolding text_in substr
found_here s p ps named inside =
    let l : Located = record {
      text = take s.len (drop s.start p.text);
      position = p.offset + s.start;
    } in
    (l, rw (named, le→leb s.start (length p.text) inside) (each-text_in_found s ps l))

found_among :
    (pos len : ℕ) (s : Span) (e : Environment) (pre post : List Piece) (p : Piece)
    → IsKept e (pre ++ (p ∷ post))
    → IsIn pos len s p
    → (l : Located) × (each (text_in s) none (pre ++ (p ∷ post)) ≡ ok (some l))
unfolding text_in
found_among pos len s e [] post p kept h =
    found_here s p post (ap (λ c. eq_bytes c s.piece_cid) (sym h.named) ∙ eq_bytes_refl s.piece_cid)
      (omega (arith, h.inside))
found_among pos len s e (q ∷ pre) post p kept h =
    elim (Bool-cases (eq_bytes q.piece_cid s.piece_cid)) [
      | inl same ↦
          let same_text : q.text ≡ p.text = string_injective (
            sym kept.0
            ∙ ap (λ c. lookup c e.backing) (eq_bytes→eq q.piece_cid s.piece_cid same ∙ h.named)
            ∙ Among-IsKept e pre post p kept.1) in
          found_here s q (pre ++ (p ∷ post)) same
            (omega (arith, h.inside, ap (λ t. length t) same_text))
      | inr other ↦
          let rest = found_among pos len s e pre post p kept.1 h in
          (
            rest.0,
            ap
                  (λ b.
                    (if b
                      then (do
                        t ← substr q.text s.start s.len
                        ok (some (record { text = t; position = q.offset + s.start })))
                      else ok none)
                    >>= λ t. each (text_in s) t (pre ++ (p ∷ post)))
                  other
                ∙ rest.1,
          )
    ]

-- A span that was taken at a position and a length whose sum is below 2^64 is located in the version
-- that it was taken from: `span_text` returns there, in every later environment, and changes nothing in
-- it.
pub span_text-ok :
    (a : Json) (pos len : ℕ) (e e' later : Environment) (s : Span)
    → pos + len < 2 ^ 64
    → span_at a pos len e ≡ (ok s, e')
    → Extends e' later
    → (l : Located) × (span_text a s later ≡ (ok l, later))
unfolding span_text
span_text-ok a pos len e e' later s small taken x =
    let sp = span_at-Spanned a pos len e e' s small taken in
    let (pre, p, post, split, inside) = sp.among in
    let r = found_among pos len s e' pre post p (subst (IsKept e') split sp.walked.kept) inside in
    (
      r.0,
      ap (λ w. run_then w (λ out e. (checked_text out, e)))
          (walk_again (text_in s) a sp.links none e' later sp.ps sp.at_pieces sp.walked x
            ∙ ap (λ ps. (each (text_in s) none ps, later)) split
            ∙ ap (λ o. (o, later)) r.1),
    )
