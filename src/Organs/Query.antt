-- ===== src/Organs/Query.antt =====
-- organs/query/query.cpp: steps from a set of cids to another, over a peer's store.
use sygaldreye.Common.{
  ℕ, List, [], ◌∷◌, ◌++◌, Bool, false, ◌||◌, Option, none, some, eq_bytes, codes, if◌then◌else◌,
}
use sygaldreye.Common.Outcome.{Outcome, ok, throws, fault, stuck, ◌>>=◌}
use sygaldreye.Formats.Cid.{Hash}
use sygaldreye.Formats.Cbor.Json.{
  Json, Items, Fields, string, array, object, nil, cons, end, field, slash,
}
use sygaldreye.Naming.Resolver.{member}
use sygaldreye.Store.{PeerStore, ref, backlinks, get_node, link_target}

-- std::set, by its members.
abbrev pub has_cid : List ℕ → List (List ℕ) → Bool
has_cid c [] = false
has_cid c (x ∷ xs) = eq_bytes x c || has_cid c xs

abbrev pub insert_cid : List ℕ → List (List ℕ) → List (List ℕ)
insert_cid c xs = if has_cid c xs then xs else xs ++ (c ∷ [])

abbrev pub insert_all : List (List ℕ) → List (List ℕ) → List (List ℕ)
insert_all [] out = out
insert_all (c ∷ cs) out = insert_all cs (insert_cid c out)

abbrev pub insert_some : Option (List ℕ) → List (List ℕ) → List (List ℕ)
insert_some none out = out
insert_some (some c) out = insert_cid c out

-- The links of a node and, for a string that is the name of a ref, what it is bound to.
unfoldable mutual
  unfolding ref

  pub follow_links : PeerStore → Json → List (List ℕ) → List (List ℕ)
  follow_links s (object fs) out =
      let inside = follow_fields s fs out in
      elim (link_target fs) [ some text ↦ insert_cid text out | none ↦ inside ]
  follow_links s (array xs) out = follow_items s xs out
  follow_links s (string text) out = insert_some (ref text s) out
  follow_links s v out = out

  pub follow_items : PeerStore → Items → List (List ℕ) → List (List ℕ)
  follow_items s nil out = out
  follow_items s (cons v xs) out = follow_items s xs (follow_links s v out)

  pub follow_fields : PeerStore → Fields → List (List ℕ) → List (List ℕ)
  follow_fields s end out = out
  follow_fields s (field k v fs) out = follow_fields s fs (follow_links s v out)

-- A thrown error is caught, and the object is passed over.
abbrev pub or_passed :
    Outcome Json → (Json → List (List ℕ)) → List (List ℕ) → Outcome (List (List ℕ))
or_passed (ok node) f out = ok (f node)
or_passed (throws e) f out = ok out
or_passed fault f out = fault
or_passed stuck f out = stuck

abbrev pub output_target : Option Json → List (List ℕ) → List (List ℕ)
output_target (some (object fs)) out = elim (member slash fs) [
  | some (string text) ↦ insert_cid text out
  | _ ↦ out
]
output_target v out = out

abbrev pub output_of : Json → List (List ℕ) → List (List ℕ)
output_of (object fs) out = output_target (member (codes "output") fs) out
output_of v out = out

module _ (blake3 : Hash) (end_of : List ℕ → ℕ) where
  unfoldable pub query_step :
      PeerStore → List (List ℕ) → List ℕ → List (List ℕ) → Outcome (List (List ℕ))
  unfolding backlinks get_node follow_links
  query_step s [] via out = ok out
  query_step s (c ∷ from) via out =
      if eq_bytes via (codes "backlinks")
      then query_step s from via (insert_all (backlinks c s) out)
      else (or_passed (get_node blake3 end_of c s) (λ node. follow_links s node out) out >>= λ out.
          query_step s from via out)

  unfoldable pub query_outputs_of :
      PeerStore → List (List ℕ) → List (List ℕ) → Outcome (List (List ℕ))
  unfolding get_node
  query_outputs_of s [] out = ok out
  query_outputs_of s (c ∷ records) out = do
    next ← or_passed (get_node blake3 end_of c s) (λ node. output_of node out) out
    query_outputs_of s records next
