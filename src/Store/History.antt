-- ===== src/Store/History.antt =====
-- The life of a store: the operations in any order.
use sygaldreye.Common.{ℕ, ◌≡◌, List, Bool, Option, some, All}
use mathlib.Core.Path.{subst, sym}
use sygaldreye.Common.Maps.{All-keep_keys}
use sygaldreye.Formats.Cid.{Hash}
use sygaldreye.Formats.Cbor.Json.{Json}
use sygaldreye.Store.{
  PeerStore, new_store, get, evict_unprovided, unprovide, bind_ref, undo_ref, put_raw, put_node,
  commit_derivation, commit_capture,
}
use sygaldreye.Store.Fetch.{fetch}
use sygaldreye.Store.Addressed.{
  IsAddress, IsAddressed, put_raw-IsAddressed, put_node-IsAddressed, commit_derivation-IsAddressed,
  commit_capture-IsAddressed, undo_ref-objects, get-IsAddress, fetch-IsAddressed,
}

module _ (blake3 : Hash) (end_of : List ℕ → ℕ) where
  -- An operation's state is kept whatever it comes to; a fetch is from any store.
  pub data Step : PeerStore → PeerStore → Type 0 where
    puts_raw :
        (bytes : List ℕ) (provide : Bool) (s : PeerStore)
        → Step s (put_raw blake3 bytes provide s).1
    puts_node : (v : Json) (provide : Bool) (s : PeerStore) → Step s (put_node blake3 v provide s).1
    derives :
        (recipe output : Json) (s : PeerStore) → Step s (commit_derivation blake3 recipe output s).1
    captures :
        (take : List ℕ) (testimony : Json) (s : PeerStore)
        → Step s (commit_capture blake3 take testimony s).1
    fetches :
        (src : PeerStore) (root_cid : List ℕ) (stop_after : Option ℕ) (s : PeerStore)
        → Step s (fetch blake3 end_of src root_cid stop_after s).1
    binds : (name cid : List ℕ) (s : PeerStore) → Step s (bind_ref name cid s)
    undoes : (name : List ℕ) (s : PeerStore) → Step s (undo_ref name s).1
    evicts : (s : PeerStore) → Step s (evict_unprovided s)
    unprovides : (cid : List ℕ) (s : PeerStore) → Step s (unprovide cid s)

  pub data Reach : PeerStore → Type 0 where
    fresh : (name : List ℕ) (provide_all : Bool) → Reach (new_store name provide_all)
    next : {s t : PeerStore} → Reach s → Step s t → Reach t

  Step-IsAddressed : {s t : PeerStore} → Step s t → IsAddressed blake3 s → IsAddressed blake3 t
  unfolding bind_ref evict_unprovided unprovide
  Step-IsAddressed (puts_raw bytes provide s) h = put_raw-IsAddressed blake3 bytes provide s h
  Step-IsAddressed (puts_node v provide s) h = put_node-IsAddressed blake3 v provide s h
  Step-IsAddressed (derives recipe output s) h =
      commit_derivation-IsAddressed blake3 recipe output s h
  Step-IsAddressed (captures take testimony s) h =
      commit_capture-IsAddressed blake3 take testimony s h
  Step-IsAddressed (fetches src root_cid stop_after s) h =
      fetch-IsAddressed blake3 end_of src root_cid stop_after s h
  Step-IsAddressed (binds name cid s) h = h
  Step-IsAddressed (undoes name s) h =
      subst (λ objects. All (IsAddress blake3) objects) (sym (undo_ref-objects blake3 name s)) h
  Step-IsAddressed (evicts s) h = All-keep_keys (IsAddress blake3) _ s.objects h
  Step-IsAddressed (unprovides cid s) h = h

  Reach-IsAddressed : {s : PeerStore} → Reach s → IsAddressed blake3 s
  Reach-IsAddressed (fresh name provide_all) = tt
  Reach-IsAddressed (next r step) = Step-IsAddressed step (Reach-IsAddressed r)

  -- In a store that any operations have led to from a new one, fetches from untrusted stores
  -- included, the bytes found under an address have that address.
  pub get-Reach :
      {s : PeerStore} (cid bytes : List ℕ)
      → Reach s
      → get cid s ≡ some bytes
      → IsAddress blake3 (cid, bytes)
  get-Reach {s} cid bytes r e = get-IsAddress blake3 cid bytes s (Reach-IsAddressed r) e
