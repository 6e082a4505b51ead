-- ===== src/Formats/Address/RoundTrip.antt =====
-- A printed address parses to itself.
use sygaldreye.Common.{
  ℕ, ◌+◌, ◌<◌, ◌≡◌, ◌≢◌, refl, List, [], ◌∷◌, ◌++◌, map, true, false, ◌==◌, ne→==, arith, All,
  All-append, length, length-append, some, ap, sym, ◌∙◌, take, drop, take-append, drop-append,
  get_or,
}
use mathlib.Core.List.{append-nil, append_assoc}
use sygaldreye.Common.Outcome.{ok}
use sygaldreye.Formats.Packing.{index_from}
use sygaldreye.Formats.Address.{
  FirstStep, refname, cid, peerkey, Address, escape, split, steps_of, print_route, print_first,
  attach, print_address, parse_address, parse_unmarked, parse_lexical, address_of, spelling,
  first_segment,
}
use sygaldreye.Formats.Address.Escape.{
  Lacks, Clean, unescape-escape, escape-Clean, escape-slash, escape-colon, escape-cons,
  index_from-append, index_from-Lacks, split-append, split-Lacks,
}

abbrev pub IsNonempty : List ℕ → Type 0
IsNonempty s = 0 < length s

-- A route as it stands behind a first step.
abbrev slash_steps : List (List ℕ) → List ℕ
slash_steps [] = []
slash_steps (s ∷ steps) = b'/' ∷ (escape s ++ slash_steps steps)

print_route-behind :
    (steps : List (List ℕ)) (route : List ℕ)
    → 0 < length route
    → print_route route steps ≡ route ++ slash_steps steps
unfolding print_route
print_route-behind [] route h = sym (append-nil route)
print_route-behind (s ∷ steps) route h = rw (ne→== (length route) 0 (omega arith)) (
    print_route-behind steps (route ++ (b'/' ∷ escape s))
      (omega (arith, length-append route (b'/' ∷ escape s)))
    ∙ append_assoc route (b'/' ∷ escape s) (slash_steps steps))

escape_nonempty : (s : List ℕ) → IsNonempty s → 0 < length (escape s)
escape_nonempty [] h = absurd (omega arith)
escape_nonempty (c ∷ cs) h = escape-cons c cs

print_route-first :
    (s : List ℕ) (steps : List (List ℕ))
    → IsNonempty s
    → print_route [] (s ∷ steps) ≡ escape s ++ slash_steps steps
unfolding print_route
print_route-first s steps h = print_route-behind steps (escape s) (escape_nonempty s h)

attach-first :
    (sep : ℕ) (s : List ℕ) (steps : List (List ℕ))
    → IsNonempty s
    → attach sep (print_route [] (s ∷ steps)) ≡ sep ∷ (escape s ++ slash_steps steps)
attach-first sep s steps h =
    rw (print_route-first s steps h, ne→== (length (escape s ++ slash_steps steps)) 0 some_text)
  where
    some_text : length (escape s ++ slash_steps steps) ≢ 0
    some_text = omega (arith, length-append (escape s) (slash_steps steps), escape_nonempty s h)

attach-slash :
    (route : List (List ℕ))
    → All IsNonempty route
    → attach b'/' (print_route [] route) ≡ slash_steps route
attach-slash [] h = unfold print_route in refl
attach-slash (s ∷ steps) h = attach-first b'/' s steps h.0

split-slash_steps :
    (s : List ℕ) (steps : List (List ℕ))
    → split b'/' (escape s ++ slash_steps steps) ≡ escape s ∷ map escape steps
split-slash_steps s [] = rw append-nil (split-Lacks b'/' (escape s) (escape-slash s))
split-slash_steps s (t ∷ steps) =
    split-append b'/' (escape s) _ (escape-slash s)
    ∙ ap (λ l. escape s ∷ l) (split-slash_steps t steps)

steps_of-kept : (steps : List (List ℕ)) → steps_of (map escape steps) false ≡ ok steps
unfolding steps_of
steps_of-kept [] = refl
steps_of-kept (s ∷ steps) = rw (unescape-escape, steps_of-kept steps)

steps_of-nonempty :
    (steps : List (List ℕ)) → All IsNonempty steps → steps_of (map escape steps) true ≡ ok steps
unfolding steps_of
steps_of-nonempty [] h = refl
steps_of-nonempty (s ∷ steps) h =
    let long : (length (escape s) == 0) ≡ false =
      ne→== _ 0 (omega (arith, escape_nonempty s h.0)) in
    rw (long, unescape-escape, steps_of-nonempty steps h.1)

-- The marked spelling, and what the unmarked ones share.
address_of-printed :
    (kind : FirstStep) (head : List ℕ) (route : List (List ℕ))
    → All IsNonempty route
    → address_of kind (split b'/' (escape head ++ slash_steps route))
      ≡ ok (record { kind = kind; head = head; route = route })
unfolding address_of
address_of-printed kind head route h =
    rw (split-slash_steps, address_of, unescape-escape, steps_of-nonempty route h)

parse_peerkey :
    (head : List ℕ) (route : List (List ℕ))
    → All IsNonempty route
    → parse_address (print_first peerkey head (print_route [] route))
      ≡ ok (record { kind = peerkey; head = head; route = route })
unfolding parse_address
parse_peerkey head route h = rw (attach-slash route h) (address_of-printed peerkey head route h)

abbrev Unmarked : List ℕ → Type 0
Unmarked [] = Unit
Unmarked (c ∷ text) = c ≢ b'#'

Unmarked-append : (s rest : List ℕ) → All Clean s → Unmarked rest → Unmarked (s ++ rest)
Unmarked-append [] rest h k = k
Unmarked-append (c ∷ s) rest h k = h.0.2

parse_address-Unmarked : (text : List ℕ) → Unmarked text → parse_address text ≡ parse_unmarked text
unfolding parse_address
parse_address-Unmarked [] h = refl
parse_address-Unmarked (c ∷ text) h = rw (ne→== c b'#' h)

first_segment-slash_steps :
    (s : List ℕ) (route : List (List ℕ)) → Lacks b'/' s → first_segment (s ++ slash_steps route) ≡ s
unfolding first_segment
first_segment-slash_steps s [] h =
    rw (append-nil, first_segment, index_from-Lacks 0 b'/' s h) (append-nil s)
first_segment-slash_steps s (t ∷ route) h =
    rw (first_segment, index_from-append 0 b'/' s (escape t ++ slash_steps route) h)
      (take-append s _ (length s + 0) (omega arith))

parse_unmarked-route :
    (kind : FirstStep) (head : List ℕ) (route : List (List ℕ))
    → All IsNonempty route
    → spelling (escape head ∷ map escape route) ≡ kind
    → parse_unmarked (escape head ++ slash_steps route)
      ≡ ok (record { kind = kind; head = head; route = route })
unfolding parse_unmarked
parse_unmarked-route kind head route h e = rw (
  parse_unmarked,
  first_segment-slash_steps (escape head) route (escape-slash head),
  index_from-Lacks 0 b':' (escape head) (escape-colon head),
  address_of-printed _ head route h,
  split-slash_steps,
  e,
)

-- The lexical spelling: the colon is found in the first segment.
parse_unmarked-lexical :
    (head s : List ℕ) (steps : List (List ℕ))
    → IsNonempty s
    → parse_unmarked (escape head ++ (b':' ∷ (escape s ++ slash_steps steps)))
      ≡ ok (record { kind = refname; head = head; route = s ∷ steps })
unfolding parse_unmarked parse_lexical
parse_unmarked-lexical head s steps h =
    rw (parse_unmarked, first, colon, parse_lexical, front, back, unescape-escape, some_route, kept)
  where
    first :
        first_segment (escape head ++ (b':' ∷ (escape s ++ slash_steps steps)))
        ≡ escape head ++ (b':' ∷ escape s)
    first =
        ap first_segment (sym (append_assoc (escape head) (b':' ∷ escape s) (slash_steps steps)))
        ∙ first_segment-slash_steps (escape head ++ (b':' ∷ escape s)) steps (
            All-append (λ x. x ≢ b'/') (escape head) (b':' ∷ escape s) (escape-slash head)
              (omega arith, escape-slash s))

    colon : index_from 0 (escape head ++ (b':' ∷ escape s)) b':' ≡ some (length (escape head) + 0)
    colon = index_from-append 0 b':' (escape head) (escape s) (escape-colon head)

    front :
        take (length (escape head) + 0) (escape head ++ (b':' ∷ (escape s ++ slash_steps steps)))
        ≡ escape head
    front = take-append (escape head) _ (length (escape head) + 0) (omega arith)

    back :
        drop
          (length (escape head) + 0 + 1)
          (escape head ++ (b':' ∷ (escape s ++ slash_steps steps)))
        ≡ escape s ++ slash_steps steps
    back =
        ap (λ l. drop (length (escape head) + 0 + 1) l)
          (sym (append_assoc (escape head) (b':' ∷ []) _))
        ∙ drop-append (escape head ++ (b':' ∷ [])) _ _
            (omega (arith, length-append (escape head) (b':' ∷ [])))

    some_route : (length (escape s ++ slash_steps steps) == 0) ≡ false
    some_route =
        ne→== _ 0 (omega (arith, length-append (escape s) (slash_steps steps), escape_nonempty s h))

    kept : steps_of (split b'/' (escape s ++ slash_steps steps)) false ≡ ok (s ∷ steps)
    kept = rw split-slash_steps (steps_of-kept (s ∷ steps))

-- The heuristic that tells a cid from a refname by its text.
abbrev pub IsCidText : List ℕ → Type 0
IsCidText text = (8 < length text) × (get_or text 0 0 ≡ b'b')

abbrev pub LooksLikeCid : List ℕ → Type 0
LooksLikeCid head = IsCidText (escape head)

spelling-cid :
    (text : List ℕ) (segs : List (List ℕ)) → IsCidText text → spelling (text ∷ segs) ≡ cid
unfolding spelling
spelling-cid text segs h = ground arith

spelling-refname :
    (text : List ℕ) (segs : List (List ℕ)) → ¬ (IsCidText text) → spelling (text ∷ segs) ≡ refname
unfolding spelling
spelling-refname text segs h = ground arith

-- What each spelling asks of the address: no empty steps (a lexical route may have them behind its
-- first step), and a head that the heuristic takes for what it is.
abbrev pub IsPrintable : FirstStep → List ℕ → List (List ℕ) → Type 0
IsPrintable peerkey head route = All IsNonempty route
IsPrintable cid head route = All IsNonempty route × LooksLikeCid head
IsPrintable refname head [] = ¬ (LooksLikeCid head)
IsPrintable refname head (s ∷ steps) = IsNonempty s

Unmarked-slash_steps : (route : List (List ℕ)) → Unmarked (slash_steps route)
Unmarked-slash_steps [] = tt
Unmarked-slash_steps (s ∷ steps) = omega arith

print_first_round_trip :
    (kind : FirstStep) (head : List ℕ) (route : List (List ℕ))
    → IsPrintable kind head route
    → parse_address (print_first kind head (print_route [] route))
      ≡ ok (record { kind = kind; head = head; route = route })
print_first_round_trip peerkey head route h = parse_peerkey head route h
print_first_round_trip cid head route h = rw (attach-slash route h.0) (
    parse_address-Unmarked _
      (Unmarked-append (escape head) _ (escape-Clean head) (Unmarked-slash_steps route))
    ∙ parse_unmarked-route cid head route h.0 (spelling-cid _ _ h.1))
print_first_round_trip refname head [] h =
    unfold print_route in
    (parse_address-Unmarked _ (Unmarked-append (escape head) [] (escape-Clean head) tt)
      ∙ parse_unmarked-route refname head [] tt (spelling-refname _ _ h))
print_first_round_trip refname head (s ∷ steps) h = rw (attach-first b':' s steps h) (
    parse_address-Unmarked _ (Unmarked-append (escape head) _ (escape-Clean head) (omega arith))
    ∙ parse_unmarked-lexical head s steps h)

-- Parsing what was printed gives the address back, for every printable address.
pub parse_address-print_address :
    (a : Address) → IsPrintable a.kind a.head a.route → parse_address (print_address a) ≡ ok a
unfolding print_address
parse_address-print_address a h = print_first_round_trip a.kind a.head a.route h

-- A refname with no route whose text looks like a cid's is read back as a cid.
pub refname_read_as_cid :
    (head : List ℕ)
    → LooksLikeCid head
    → parse_address (print_address (record { kind = refname; head = head; route = [] }))
      ≡ ok (record { kind = cid; head = head; route = [] })
unfolding print_address print_route
refname_read_as_cid head h =
    parse_address-Unmarked _ (Unmarked-append (escape head) [] (escape-Clean head) tt)
    ∙ parse_unmarked-route cid head [] tt (spelling-cid _ _ h)
