-- ===== src/Store/Refs.antt =====
-- Refs and their trails, and what a store keeps under cache pressure.
use sygaldreye.Common.{
  ℕ, zero, suc, ◌+◌, ◌≡◌, refl, ap, sym, ◌∙◌, List, [], ◌∷◌, ◌++◌, true, false, not, none, some,
  arith, length, length-append, get_elem?, get_or, eq_bytes, if◌then◌else◌, le→ltb_false, ne→==,
  Bool-cases, inl, inr,
}
use mathlib.Core.List.{append_assoc}
use sygaldreye.Common.Maps.{lookup, lookup-assign, lookup-keep_keys}
use sygaldreye.Formats.Pins.{multicodec_raw}
use sygaldreye.Formats.Cid.{Hash}
use sygaldreye.Store.{
  PeerStore, trail_of, trail, ref, bind_ref, undo_ref, get, provides, is_present, evict_unprovided,
  unprovide, cid_text_of, keep_object, put_raw,
}

module _ {ℓ} {A : Type ℓ} where
  get_elem?-append :
      (xs : List A) (a : A) (ys : List A) (i : ℕ)
      → i ≡ length xs
      → get_elem? (xs ++ (a ∷ ys)) i ≡ some a
  get_elem?-append [] a ys zero h = refl
  get_elem?-append [] a ys (suc i) h = absurd (omega arith)
  get_elem?-append (x ∷ xs) a ys zero h = absurd (omega arith)
  get_elem?-append (x ∷ xs) a ys (suc i) h = get_elem?-append xs a ys i (omega arith)

  get_or-append :
      (xs : List A) (a d : A) (ys : List A) (i : ℕ)
      → i ≡ length xs
      → get_or (xs ++ (a ∷ ys)) i d ≡ a
  get_or-append [] a d ys zero h = refl
  get_or-append [] a d ys (suc i) h = absurd (omega arith)
  get_or-append (x ∷ xs) a d ys zero h = absurd (omega arith)
  get_or-append (x ∷ xs) a d ys (suc i) h = get_or-append xs a d ys i (omega arith)

ref-trail :
    (name : List ℕ) (s : PeerStore) (xs : List (List ℕ)) (a : List ℕ)
    → trail name s ≡ xs ++ (a ∷ [])
    → ref name s ≡ some a
unfolding trail ref
ref-trail name s xs a h =
    rw (h, ne→== (length (xs ++ (a ∷ []))) 0 (omega (arith, length-append xs (a ∷ []))))
      (get_elem?-append xs a [] _ (omega (arith, length-append xs (a ∷ []))))

trail-bind_ref :
    (name cid : List ℕ) (s : PeerStore)
    → trail name (bind_ref name cid s) ≡ trail name s ++ (cid ∷ [])
unfolding trail bind_ref
trail-bind_ref name cid s = ap trail_of (lookup-assign name _ s.refs)

trail-undo_ref :
    (name : List ℕ) (s : PeerStore) (xs : List (List ℕ)) (a b : List ℕ)
    → trail name s ≡ xs ++ (a ∷ b ∷ [])
    → trail name (undo_ref name s).1 ≡ xs ++ (a ∷ b ∷ a ∷ [])
unfolding trail undo_ref
trail-undo_ref name s xs a b h =
    rw (h, le→ltb_false (length (xs ++ (a ∷ b ∷ []))) 2 (omega (arith, long)))
      (ap trail_of (lookup-assign name _ s.refs)
        ∙ ap (λ t. (xs ++ (a ∷ b ∷ [])) ++ (t ∷ []))
            (get_or-append xs a [] (b ∷ []) _ (omega (arith, long)))
        ∙ append_assoc xs (a ∷ b ∷ []) (a ∷ []))
  where
    long : length (xs ++ (a ∷ b ∷ [])) ≡ length xs + 2
    long = length-append xs (a ∷ b ∷ [])

-- An undo rebinds a ref to the entry before its newest one, by a new entry: the trail only grows. A
-- second undo rebinds it to what the first one undid.
pub undo_ref-twice :
    (name : List ℕ) (s : PeerStore) (xs : List (List ℕ)) (a b : List ℕ)
    → trail name s ≡ xs ++ (a ∷ b ∷ [])
    → (ref name (undo_ref name s).1 ≡ some a)
      × (trail name (undo_ref name s).1 ≡ xs ++ (a ∷ b ∷ a ∷ []))
      × (ref name (undo_ref name (undo_ref name s).1).1 ≡ some b)
      × (trail name (undo_ref name (undo_ref name s).1).1 ≡ xs ++ (a ∷ b ∷ a ∷ b ∷ []))
undo_ref-twice name s xs a b h = (
  ref-trail name _ (xs ++ (a ∷ b ∷ [])) a (once ∙ sym (append_assoc xs (a ∷ b ∷ []) (a ∷ []))),
  once,
  ref-trail name _ (xs ++ (a ∷ b ∷ a ∷ [])) b
      (twice ∙ sym (append_assoc xs (a ∷ b ∷ a ∷ []) (b ∷ []))),
  twice,
)
  where
    once : trail name (undo_ref name s).1 ≡ xs ++ (a ∷ b ∷ a ∷ [])
    once = trail-undo_ref name s xs a b h

    twice : trail name (undo_ref name (undo_ref name s).1).1 ≡ xs ++ (a ∷ b ∷ a ∷ b ∷ [])
    twice =
        trail-undo_ref name (undo_ref name s).1 (xs ++ (a ∷ [])) b a
          (once ∙ sym (append_assoc xs (a ∷ []) (b ∷ a ∷ [])))
        ∙ append_assoc xs (a ∷ []) (b ∷ a ∷ b ∷ [])

-- A ref that was bound to `a` and then to `b` is undone to `a`.
pub undo_ref-bind_ref :
    (name a b : List ℕ) (s : PeerStore)
    → ref name (undo_ref name (bind_ref name b (bind_ref name a s))).1 ≡ some a
undo_ref-bind_ref name a b s = (undo_ref-twice name _ (trail name s) a b bound).0
  where
    bound : trail name (bind_ref name b (bind_ref name a s)) ≡ trail name s ++ (a ∷ b ∷ [])
    bound =
        trail-bind_ref name b (bind_ref name a s)
        ∙ ap (λ l. l ++ (b ∷ [])) (trail-bind_ref name a s)
        ∙ append_assoc (trail name s) (a ∷ []) (b ∷ [])

get-evict_unprovided :
    (cid : List ℕ) (s : PeerStore)
    → get cid (evict_unprovided s) ≡ (if provides cid s then get cid s else none)
unfolding get evict_unprovided provides
get-evict_unprovided cid s = lookup-keep_keys (λ k. is_present (lookup k s.provided)) cid s.objects

provides-unprovide :
    (k cid : List ℕ) (s : PeerStore)
    → provides k (unprovide cid s) ≡ (if eq_bytes k cid then false else provides k s)
unfolding provides unprovide
provides-unprovide k cid s = elim (Bool-cases (eq_bytes k cid)) [
  | inl h ↦ rw (lookup-keep_keys (λ j. not (eq_bytes j cid)) k s.provided, h)
  | inr h ↦ rw (lookup-keep_keys (λ j. not (eq_bytes j cid)) k s.provided, h)
]

-- Forgetting is a decision: after `unprovide` and an eviction, the object is gone, and every other
-- address has what it had when it was provided, and nothing else.
pub evict_unprovided-unprovide :
    (k cid : List ℕ) (s : PeerStore)
    → get k (evict_unprovided (unprovide cid s))
      ≡ (if eq_bytes k cid then none else if provides k s then get k s else none)
evict_unprovided-unprovide k cid s = elim (Bool-cases (eq_bytes k cid)) [
  | inl h ↦ rw (get-evict_unprovided k (unprovide cid s), provides-unprovide k cid s, h)
  | inr h ↦ rw (get-evict_unprovided k (unprovide cid s), provides-unprovide k cid s, h) same
]
  where
    same :
        (if provides k s then get k (unprovide cid s) else none)
        ≡ (if provides k s then get k s else none)
    same = unfold get unprovide in refl

-- What is provided when it is put survives an eviction.
pub evict_unprovided-put_raw :
    (blake3 : Hash) (bytes : List ℕ) (s : PeerStore)
    → let put = put_raw blake3 bytes true s in get put.0 (evict_unprovided put.1) ≡ some bytes
unfolding put_raw keep_object
evict_unprovided-put_raw blake3 bytes s = rw (get-evict_unprovided cid put, kept, found)
  where
    cid : List ℕ
    cid = cid_text_of blake3 multicodec_raw bytes

    put : PeerStore
    put = (put_raw blake3 bytes true s).1

    kept : provides cid put ≡ true
    kept = unfold provides in ap is_present (lookup-assign cid tt s.provided)

    found : get cid put ≡ some bytes
    found = unfold get in lookup-assign cid bytes s.objects
