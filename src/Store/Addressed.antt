-- ===== src/Store/Addressed.antt =====
-- Every object is stored under the address of its own bytes.
use sygaldreye.Common.{
  ℕ, ◌≡◌, ◌⊎◌, inl, inr, refl, List, Bool, true, false, Option, none, some, All, eq_bytes,
  Bool-cases, if◌then◌else◌, ltb, length,
}
use sygaldreye.Common.Outcome.{run_then-lem, ok, throws, fault, stuck}
use sygaldreye.Common.Maps.{lookup, All-assign, All-lookup}
use sygaldreye.Formats.Pins.{multicodec_raw, multicodec_dag_cbor}
use sygaldreye.Formats.Cid.{Hash}
use sygaldreye.Formats.Cbor.Json.{Json, Items, nil, cons}
use sygaldreye.Formats.Cbor.Encode.{encode}
use sygaldreye.Formats.Cbor.Decode.{decode_to_projection}
use sygaldreye.Store.{
  PeerStore, trail_of, Run, get, is_present, undo_ref, index_links, set_output, cid_text_of,
  keep_object, put_raw, put_node, derive, Remembered, commit_unless, commit_derivation,
  commit_capture, get_node,
}
use sygaldreye.Store.Fetch.{
  Transfer, stopped, chunk_link, store_verified, counted, move_found, move_one, on_link, move_all,
  chunks_of, fan_out, caught, after_root, fetch,
}

module _ (blake3 : Hash) where
  -- The address is that of the bytes, under the codec of raw bytes or of nodes.
  abbrev pub IsAddress : List ℕ × List ℕ → Type 0
  IsAddress entry =
      (entry.0 ≡ cid_text_of blake3 multicodec_raw entry.1)
      ⊎ (entry.0 ≡ cid_text_of blake3 multicodec_dag_cbor entry.1)

  abbrev pub IsAddressed : PeerStore → Type 0
  IsAddressed s = All IsAddress s.objects

  keep_object-IsAddressed :
      (cid bytes : List ℕ) (provide : Bool) (s : PeerStore)
      → IsAddress (cid, bytes)
      → IsAddressed s
      → IsAddressed (keep_object blake3 cid bytes provide s)
  unfolding keep_object
  keep_object-IsAddressed cid bytes provide s h k = All-assign IsAddress cid bytes s.objects h k

  pub put_raw-IsAddressed :
      (bytes : List ℕ) (provide : Bool) (s : PeerStore)
      → IsAddressed s
      → IsAddressed (put_raw blake3 bytes provide s).1
  unfolding put_raw
  put_raw-IsAddressed bytes provide s h = keep_object-IsAddressed _ bytes provide s (inl refl) h

  pub put_node-IsAddressed :
      (v : Json) (provide : Bool) (s : PeerStore)
      → IsAddressed s
      → IsAddressed (put_node blake3 v provide s).1
  unfolding put_node
  put_node-IsAddressed v provide s h =
      run_then-lem IsAddressed (encode v, s) _ h
        (λ bytes s k. keep_object-IsAddressed _ bytes provide s (inr refl) k)

  derive-IsAddressed :
      (recipe output : Json) (recipe_cid : List ℕ) (s : PeerStore)
      → IsAddressed s
      → IsAddressed (derive blake3 recipe output recipe_cid s).1
  unfolding derive index_links
  derive-IsAddressed recipe output recipe_cid s h =
      run_then-lem IsAddressed (put_node blake3 output false s) _
        (put_node-IsAddressed output false s h)
        (λ out s k.
          run_then-lem IsAddressed (set_output out recipe, index_links out output s) _ k
            (λ recipe s k.
              run_then-lem IsAddressed (put_node blake3 recipe false s) _
                (put_node-IsAddressed recipe false s k) (λ p s k. k)))

  commit_unless-IsAddressed :
      (o : Option Remembered) (recipe output : Json) (recipe_cid : List ℕ) (s : PeerStore)
      → IsAddressed s
      → IsAddressed (commit_unless blake3 o recipe output recipe_cid s).1
  unfolding commit_unless
  commit_unless-IsAddressed (some r) recipe output recipe_cid s h = h
  commit_unless-IsAddressed none recipe output recipe_cid s h =
      derive-IsAddressed recipe output recipe_cid s h

  pub commit_derivation-IsAddressed :
      (recipe output : Json) (s : PeerStore)
      → IsAddressed s
      → IsAddressed (commit_derivation blake3 recipe output s).1
  unfolding commit_derivation
  commit_derivation-IsAddressed recipe output s h =
      run_then-lem IsAddressed (put_node blake3 recipe false s) _
        (put_node-IsAddressed recipe false s h)
        (λ cid s k. commit_unless-IsAddressed (lookup cid s.memo) recipe output cid s k)

  pub commit_capture-IsAddressed :
      (take : List ℕ) (testimony : Json) (s : PeerStore)
      → IsAddressed s
      → IsAddressed (commit_capture blake3 take testimony s).1
  unfolding commit_capture index_links
  commit_capture-IsAddressed take testimony s h =
      run_then-lem IsAddressed
        (set_output (put_raw blake3 take false s).0 testimony, (put_raw blake3 take false s).1) _
        (put_raw-IsAddressed take false s h)
        (λ testimony s k.
          run_then-lem IsAddressed (put_node blake3 testimony false s) _
            (put_node-IsAddressed testimony false s k) (λ p s k. k))

  pub undo_ref-objects : (name : List ℕ) (s : PeerStore) → (undo_ref name s).1.objects ≡ s.objects
  unfolding undo_ref
  undo_ref-objects name s = elim (Bool-cases (ltb (length (trail_of (lookup name s.refs))) 2)) [
    | inl h ↦ rw h
    | inr h ↦ rw h
  ]

  -- What is found under an address has that address.
  pub get-IsAddress :
      (cid bytes : List ℕ) (s : PeerStore)
      → IsAddressed s
      → get cid s ≡ some bytes
      → IsAddress (cid, bytes)
  unfolding get
  get-IsAddress cid bytes s h e = All-lookup IsAddress cid bytes s.objects h e

  module _ (end_of : List ℕ → ℕ) where
    store_verified-IsAddressed :
        (cid bytes : List ℕ) (dst : PeerStore)
        → IsAddressed dst
        → IsAddressed (store_verified blake3 end_of cid bytes dst).1
    unfolding store_verified
    store_verified-IsAddressed cid bytes dst h =
        elim (Bool-cases (eq_bytes cid (cid_text_of blake3 multicodec_raw bytes))) [
          | inl e ↦ rw e (put_raw-IsAddressed bytes false dst h)
          | inr e ↦
              rw e
                (elim (Bool-cases (eq_bytes cid (cid_text_of blake3 multicodec_dag_cbor bytes))) [
                  | inl e ↦ rw e (
                      run_then-lem IsAddressed (decode_to_projection (end_of bytes) bytes, dst) _ h
                        (λ v dst k. put_node-IsAddressed v false dst k))
                  | inr e ↦ rw e h
                ])
        ]

    abbrev Keeps : Transfer → Type 0
    Keeps t = IsAddressed t.0

    counted-IsAddressed :
        (cid : List ℕ) (r : Run PeerStore (List ℕ)) (moved : ℕ)
        → IsAddressed r.1
        → Keeps (counted blake3 end_of cid r moved).1
    unfolding counted
    counted-IsAddressed cid (ok got, dst) moved h = elim (Bool-cases (eq_bytes got cid)) [
      | inl e ↦ rw e h
      | inr e ↦ rw e h
    ]
    counted-IsAddressed cid (throws e, dst) moved h = h
    counted-IsAddressed cid (fault, dst) moved h = h
    counted-IsAddressed cid (stuck, dst) moved h = h

    move_found-IsAddressed :
        (cid : List ℕ) (found : Option (List ℕ)) (t : Transfer)
        → Keeps t
        → Keeps (move_found blake3 end_of cid found t).1
    unfolding move_found
    move_found-IsAddressed cid none t h = h
    move_found-IsAddressed cid (some bytes) (dst, moved) h =
        counted-IsAddressed cid (store_verified blake3 end_of cid bytes dst) moved
          (store_verified-IsAddressed cid bytes dst h)

    move_one-IsAddressed :
        (src : PeerStore) (stop_after : Option ℕ) (cid : List ℕ) (t : Transfer)
        → Keeps t
        → Keeps (move_one blake3 end_of src stop_after cid t).1
    unfolding move_one
    move_one-IsAddressed src stop_after cid (dst, moved) h =
        elim (Bool-cases (is_present (get cid dst))) [
          | inl e ↦ rw e h
          | inr e ↦ rw e (elim (Bool-cases (stopped stop_after moved)) [
            | inl e' ↦ rw e' h
            | inr e' ↦ rw e' (move_found-IsAddressed cid (get cid src) (dst, moved) h)
          ])
        ]

    on_link-IsAddressed :
        (o : Option (List ℕ)) (t : Transfer) (f : List ℕ → Run Transfer (Unit {0}))
        → Keeps t
        → ((text : List ℕ) → Keeps (f text).1)
        → Keeps (on_link blake3 end_of o t f).1
    on_link-IsAddressed none t f h k = h
    on_link-IsAddressed (some text) t f h k = k text

    if-IsAddressed :
        (more : Bool) (r r' : Run Transfer (Unit {0}))
        → Keeps r.1
        → Keeps r'.1
        → Keeps (if more then r else r').1
    if-IsAddressed true r r' h k = h
    if-IsAddressed false r r' h k = k

    move_all-IsAddressed :
        (src : PeerStore) (stop_after : Option ℕ) (xs : Items) (t : Transfer)
        → Keeps t
        → Keeps (move_all blake3 end_of src stop_after xs t).1
    unfolding move_all
    move_all-IsAddressed src stop_after nil t h = h
    move_all-IsAddressed src stop_after (cons v xs) t h =
        on_link-IsAddressed (chunk_link v) t _ h (λ text.
          run_then-lem Keeps (move_one blake3 end_of src stop_after text t) _
            (move_one-IsAddressed src stop_after text t h)
            (λ more t k. if-IsAddressed more _ _ (move_all-IsAddressed src stop_after xs t k) k))

    fan_out-IsAddressed :
        (src : PeerStore) (stop_after : Option ℕ) (root_cid : List ℕ) (t : Transfer)
        → Keeps t
        → Keeps (fan_out blake3 end_of src stop_after root_cid t).1
    unfolding fan_out
    fan_out-IsAddressed src stop_after root_cid t h =
        run_then-lem Keeps (get_node blake3 end_of root_cid t.0, t) _ h
          (λ node t k. move_all-IsAddressed src stop_after (chunks_of blake3 end_of node) t k)

    caught-IsAddressed :
        (r : Run Transfer (Unit {0})) → Keeps r.1 → IsAddressed (caught blake3 end_of r).1
    caught-IsAddressed (ok u, t) h = h
    caught-IsAddressed (throws e, t) h = h
    caught-IsAddressed (fault, t) h = h
    caught-IsAddressed (stuck, t) h = h

    after_root-IsAddressed :
        (r : Run Transfer Bool) (f : Transfer → Run PeerStore ℕ)
        → Keeps r.1
        → ((t : Transfer) → Keeps t → IsAddressed (f t).1)
        → IsAddressed (after_root blake3 end_of r f).1
    after_root-IsAddressed (ok true, t) f h k = k t h
    after_root-IsAddressed (ok false, t) f h k = h
    after_root-IsAddressed (throws e, t) f h k = h
    after_root-IsAddressed (fault, t) f h k = h
    after_root-IsAddressed (stuck, t) f h k = h

    -- Whatever the source holds, and whatever the fetch comes to.
    pub fetch-IsAddressed :
        (src : PeerStore) (root_cid : List ℕ) (stop_after : Option ℕ) (dst : PeerStore)
        → IsAddressed dst
        → IsAddressed (fetch blake3 end_of src root_cid stop_after dst).1
    unfolding fetch
    fetch-IsAddressed src root_cid stop_after dst h =
        after_root-IsAddressed (move_one blake3 end_of src stop_after root_cid (dst, 0)) _
          (move_one-IsAddressed src stop_after root_cid (dst, 0) h)
          (λ t k.
            caught-IsAddressed (fan_out blake3 end_of src stop_after root_cid t)
              (fan_out-IsAddressed src stop_after root_cid t k))
