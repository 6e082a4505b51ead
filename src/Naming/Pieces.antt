-- ===== src/Naming/Pieces.antt =====
-- The pieces that a walk of a text goes over.
use sygaldreye.Common.{
  ℕ, zero, suc, ◌+◌, ◌≤◌, ◌≡◌, refl, ap, sym, ◌∙◌, List, [], ◌∷◌, ◌++◌, some, length, take, drop,
  All, arith, codes, length-append,
}
use mathlib.Core.List.{append_assoc}
use sygaldreye.Common.Outcome.{
  Outcome, ok, throws, ◌>>=◌, Run, run_then, run_then-inverse, fault, stuck, ok_injective,
}
use sygaldreye.Common.Maps.{lookup}
use sygaldreye.Formats.Cbor.Json.{
  Json, null, boolean, unsigned, integer, floating, array, object, binary, string, slash,
}
use sygaldreye.Naming.{Environment, fetch}
use sygaldreye.Naming.Resolver.{at, get_string}
use sygaldreye.Naming.Settled.{Extends, Extends-trans, Settles-lift, Settles-fetch, lookup-fetch}
use sygaldreye.Naming.Spans.{Piece, elements_of, walk_links, walk}

abbrev pub each : {S : Type 0} → (S → Piece → Outcome S) → S → List Piece → Outcome S
each f s [] = ok s
each f s (p ∷ ps) = (do t ← f s p; each f t ps)

abbrev pub whole : List Piece → List ℕ
whole [] = []
whole (p ∷ ps) = p.text ++ whole ps

-- Each piece begins where the one before it ends.
abbrev pub Follows : ℕ → List Piece → Type 0
Follows off [] = Unit {0}
Follows off (p ∷ ps) = (p.offset ≡ off) × Follows (off + length p.text) ps

-- The text of each piece is the object under its cid.
abbrev pub IsKept : Environment → List Piece → Type 0
IsKept e ps = All (λ (p : Piece). lookup p.piece_cid e.backing ≡ some (string p.text)) ps

pub IsKept-Extends : {e f : Environment} (ps : List Piece) → Extends e f → IsKept e ps → IsKept f ps
IsKept-Extends [] x h = tt
IsKept-Extends (p ∷ ps) x h = (x.has p.piece_cid (string p.text) h.0, IsKept-Extends ps x h.1)

-- What a walk that returned went over: another walk, then or later, goes over the same.
pub record Walked (links : List Json) (off : ℕ) (e' : Environment) (ps : List Piece) : Type 1 where
  pub follows : Follows off ps
  pub kept : IsKept e' ps
  pub again :
      {T : Type 0} (f : T → Piece → Outcome T) (t : T) (later : Environment)
      → Extends e' later
      → walk_links f links off t later ≡ (each f t ps, later)

get_string-ok : (v : Json) (s : List ℕ) → get_string v ≡ ok s → v ≡ string s
get_string-ok (string t) s h = ap string (ok_injective h)
get_string-ok null s h = cc
get_string-ok (boolean b) s h = cc
get_string-ok (unsigned n) s h = cc
get_string-ok (integer n) s h = cc
get_string-ok (floating n) s h = cc
get_string-ok (array xs) s h = cc
get_string-ok (object fs) s h = cc
get_string-ok (binary b) s h = cc

then_each :
    {S T : Type 0} (o : Outcome S) (k : S → Environment → Run Environment T) (j : S → Outcome T)
    (e : Environment)
    → ((s : S) → k s e ≡ (j s, e))
    → run_then (o, e) k ≡ (o >>= j, e)
then_each (ok s) k j e h = h s
then_each (throws x) k j e h = refl
then_each fault k j e h = refl
then_each stuck k j e h = refl

-- A round of a walk that goes over a piece.
walks_on :
    {T : Type 0} (g : T → Piece → Outcome T) (link : Json) (links : List Json) (target : Json)
    (text : List ℕ) (v : Json) (piece : List ℕ) (off : ℕ) (t : T) (later : Environment)
    (ps : List Piece)
    → at slash link ≡ ok target
    → get_string target ≡ ok text
    → fetch text later ≡ (ok v, later)
    → get_string v ≡ ok piece
    → ((t : T) → walk_links g links (off + length piece) t later ≡ (each g t ps, later))
    → walk_links g (link ∷ links) off t later
      ≡ (each g t (record { piece_cid = text; text = piece; offset = off } ∷ ps), later)
unfolding walk_links
walks_on g link links target text v piece off t later ps ha hb hc hd h =
    rw (ha, hb, hc, hd)
      (then_each (g t (record { piece_cid = text; text = piece; offset = off }))
        (λ t e. walk_links g links (off + length piece) t e) (λ t. each g t ps) later h)

-- A part that only reads went as it returned.
run_then-read :
    {A B : Type 0} (r : Outcome A) (f : A → Environment → Run Environment B) (b : B)
    (e e' : Environment)
    → run_then (r, e) f ≡ (ok b, e')
    → (a : A) × (r ≡ ok a) × (f a e ≡ (ok b, e'))
run_then-read (ok a) f b e e' h = (a, refl, h)
run_then-read (throws x) f b e e' h = cc
run_then-read fault f b e e' h = cc
run_then-read stuck f b e e' h = cc

-- What a walk went over, with what comes to be of it.
abbrev WalkedTo :
    {S : Type 0}
    → (S → Piece → Outcome S)
    → List Json
    → ℕ
    → S
    → S
    → Environment
    → Environment
    → Type 1
WalkedTo f links off s s' e e' =
    Extends e e' × ((ps : List Piece) × (each f s ps ≡ ok s') × Walked links off e' ps)

-- A round, and the rounds after it.
WalkedTo-cons :
    {S : Type 0} (f : S → Piece → Outcome S) (link : Json) (links : List Json) (target : Json)
    (text : List ℕ) (v : Json) (piece : List ℕ) (off : ℕ) (s t s' : S) (e e₁ e' : Environment)
    → at slash link ≡ ok target
    → get_string target ≡ ok text
    → fetch text e ≡ (ok v, e₁)
    → get_string v ≡ ok piece
    → f s (record { piece_cid = text; text = piece; offset = off }) ≡ ok t
    → WalkedTo f links (off + length piece) t s' e₁ e'
    → WalkedTo f (link ∷ links) off s s' e e'
WalkedTo-cons f link links target text v piece off s t s' e e₁ e' ha hb hc hd hf (x, (ps, hp, w)) =
    let fetching = Settles-fetch text e e₁ v hc in
    (
      Extends-trans fetching.0 x,
      (
        record { piece_cid = text; text = piece; offset = off } ∷ ps,
        ap (λ o. o >>= λ t. each f t ps) hf ∙ hp,
        record {
          follows = (refl, w.follows);
          kept = (
            x.has text (string piece)
                (lookup-fetch text e e₁ v hc ∙ ap some (get_string-ok v piece hd)),
            w.kept,
          );
          again = λ {T} g t later y.
              walks_on g link links target text v piece off t later ps ha hb
                (fetching.1 later (Extends-trans x y)) hd (λ t. w.again g t later y);
        },
      ),
    )

walk_links-Walked :
    {S : Type 0} (f : S → Piece → Outcome S) (links : List Json) (off : ℕ) (s s' : S)
    (e e' : Environment)
    → walk_links f links off s e ≡ (ok s', e')
    → WalkedTo f links off s s' e e'
unfolding walk_links
walk_links-Walked f [] off s s' e e' h = (
  (Settles-lift (ok s) e e' s' h).0,
  ([], ap (λ r. r.0) h, record { follows = tt; kept = tt; again = λ g t later x. refl }),
)
walk_links-Walked f (link ∷ links) off s s' e e' h =
    let (target, ha, h₁) = run_then-read (at slash link) _ s' e e' h in
    let (text, hb, h₂) = run_then-read (get_string target) _ s' e e' h₁ in
    let (v, e₁, hc, h₃) = run_then-inverse (fetch text e) _ s' e' h₂ in
    let (piece, hd, h₄) = run_then-read (get_string v) _ s' e₁ e' h₃ in
    let (t, hf, h₅) =
      run_then-read (f s (record { piece_cid = text; text = piece; offset = off })) _ s' e₁ e' h₄ in
    WalkedTo-cons f link links target text v piece off s t s' e e₁ e' ha hb hc hd hf
      (walk_links-Walked f links (off + length piece) t s' e₁ e' h₅)

-- The same for a walk from its node.
pub walk-Walked :
    {S : Type 0} (f : S → Piece → Outcome S) (node : Json) (s s' : S) (e e' : Environment)
    → walk f node s e ≡ (ok s', e')
    → Extends e e'
      × ((links : Json) × (at (codes "pieces") node ≡ ok links)
          × ((ps : List Piece) × (each f s ps ≡ ok s') × Walked (elements_of links) 0 e' ps))
unfolding walk
walk-Walked f node s s' e e' h =
    let a = run_then-inverse (at (codes "pieces") node, e) _ s' e' h in
    let r = walk_links-Walked f (elements_of a.0) 0 s s' a.1 e' a.3 in
    (
      Extends-trans (Settles-lift (at (codes "pieces") node) e a.1 a.0 a.2).0 r.0,
      (a.0, ap (λ r. r.0) a.2, r.1),
    )

pub walk_again :
    {T : Type 0} (g : T → Piece → Outcome T) (node links : Json) (t : T) (e' later : Environment)
    (ps : List Piece)
    → at (codes "pieces") node ≡ ok links
    → Walked (elements_of links) 0 e' ps
    → Extends e' later
    → walk g node t later ≡ (each g t ps, later)
unfolding walk
walk_again g node links t e' later ps h w x =
    ap (λ o. run_then (o, later) (λ links e. walk_links g (elements_of links) 0 t e)) h
    ∙ w.again g t later x

-- Where a piece stands in the whole text.
pub offset-append :
    (off : ℕ) (pre post : List Piece) (p : Piece)
    → Follows off (pre ++ (p ∷ post))
    → p.offset ≡ off + length (whole pre)
offset-append off [] post p h = omega (arith, h.0)
offset-append off (q ∷ pre) post p h =
    omega
      (arith, offset-append (off + length q.text) pre post p h.1, length-append q.text (whole pre))

whole-append : (ps qs : List Piece) → whole (ps ++ qs) ≡ whole ps ++ whole qs
whole-append [] qs = refl
whole-append (p ∷ ps) qs =
    ap (λ l. p.text ++ l) (whole-append ps qs) ∙ sym (append_assoc p.text (whole ps) (whole qs))

drop-more : (n k : ℕ) (xs ys : List ℕ) → n ≡ length xs + k → drop n (xs ++ ys) ≡ drop k ys
drop-more n k [] ys h = ap (λ m. drop m ys) (omega (arith, h))
drop-more zero k (x ∷ xs) ys h = absurd (omega arith)
drop-more (suc n) k (x ∷ xs) ys h = drop-more n k xs ys (omega arith)

take-less : (n : ℕ) (xs ys : List ℕ) → n ≤ length xs → take n (xs ++ ys) ≡ take n xs
take-less zero xs ys h = refl
take-less (suc n) [] ys h = absurd (omega arith)
take-less (suc n) (x ∷ xs) ys h = ap (λ l. x ∷ l) (take-less n xs ys (omega arith))

take-drop-less :
    (start len : ℕ) (xs ys : List ℕ)
    → start + len ≤ length xs
    → take len (drop start (xs ++ ys)) ≡ take len (drop start xs)
take-drop-less zero len xs ys h = take-less len xs ys (omega (arith, h))
take-drop-less (suc start) len [] ys h = absurd (omega arith)
take-drop-less (suc start) len (x ∷ xs) ys h = take-drop-less start len xs ys (omega arith)

-- A part of a piece is the part of the whole text at its offset.
pub part_of_whole :
    (pre post : List Piece) (p : Piece) (start len : ℕ)
    → Follows 0 (pre ++ (p ∷ post))
    → start + len ≤ length p.text
    → take len (drop (p.offset + start) (whole (pre ++ (p ∷ post)))) ≡ take len (drop start p.text)
part_of_whole pre post p start len follows h =
    let at_offset = offset-append 0 pre post p follows in
    ap (λ l. take len (drop (p.offset + start) l)) (whole-append pre (p ∷ post))
    ∙ ap (take len) (
        drop-more (p.offset + start) start (whole pre) (p.text ++ whole post)
          (omega (arith, at_offset)))
    ∙ take-drop-less start len p.text (whole post) h
