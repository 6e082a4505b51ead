-- ===== src/Store/Fetch.antt =====
-- `fetch`: the transfer of an object and of the chunks that it lists.
use sygaldreye.Common.{
  ℕ, suc, List, [], Bool, true, false, Option, none, some, leb, eq_bytes, if◌then◌else◌,
}
use sygaldreye.Common.Outcome.{ok, throws, fault, stuck, provider_miss, verification_failed}
use sygaldreye.Formats.Pins.{multicodec_raw, multicodec_dag_cbor}
use sygaldreye.Formats.Cid.{Hash}
use sygaldreye.Formats.Cbor.Json.{Json, Items, string, array, object, nil, cons, slash}
use sygaldreye.Formats.Cbor.Encode.{find_field}
use sygaldreye.Formats.Cbor.Decode.{decode_to_projection}
use sygaldreye.Store.{
  PeerStore, Run, run_then, get, put_raw, put_node, cid_text_of, get_node, is_present,
}

-- The destination, and `moved`.
abbrev pub Transfer : Type 0
Transfer = PeerStore × ℕ

-- `stop_after`: none when it is negative.
abbrev pub stopped : Option ℕ → ℕ → Bool
stopped none moved = false
stopped (some stop_after) moved = leb stop_after moved

-- The link of an element of an index node.
abbrev text_of : Json → Option (List ℕ)
text_of (string text) = some text
text_of v = none

abbrev pub chunk_link : Json → Option (List ℕ)
chunk_link (object fs) = text_of (find_field slash fs)
chunk_link v = none

abbrev pub all_links : Items → Bool
all_links nil = true
all_links (cons v xs) = elim (chunk_link v) [ none ↦ false | some text ↦ all_links xs ]

module _ (blake3 : Hash) (end_of : List ℕ → ℕ) where
  -- The store of the bytes under the address that they have, and its text.
  unfoldable pub store_verified : List ℕ → List ℕ → PeerStore → Run PeerStore (List ℕ)
  unfolding put_raw put_node
  store_verified cid bytes dst =
      if eq_bytes cid (cid_text_of blake3 multicodec_raw bytes)
      then (let put = put_raw blake3 bytes false dst in (ok put.0, put.1))
      else if eq_bytes cid (cid_text_of blake3 multicodec_dag_cbor bytes)
      then run_then (decode_to_projection (end_of bytes) bytes, dst)
          (λ v dst. put_node blake3 v false dst)
      else (ok [], dst)

  unfoldable pub counted : List ℕ → Run PeerStore (List ℕ) → ℕ → Run Transfer Bool
  counted cid (outcome, dst) moved = elim outcome [
    | ok got ↦
        if eq_bytes got cid
        then (ok true, (record dst { transfers = suc dst.transfers }, suc moved))
        else (throws verification_failed, (dst, moved))
    | throws e ↦ (throws e, (dst, moved))
    | fault ↦ (fault, (dst, moved))
    | stuck ↦ (stuck, (dst, moved))
  ]

  -- What the source has for the address.
  unfoldable pub move_found : List ℕ → Option (List ℕ) → Transfer → Run Transfer Bool
  unfolding store_verified counted
  move_found cid none t = (throws provider_miss, t)
  move_found cid (some bytes) (dst, moved) = counted cid (store_verified cid bytes dst) moved

  unfoldable pub move_one : PeerStore → Option ℕ → List ℕ → Transfer → Run Transfer Bool
  unfolding get move_found
  move_one src stop_after cid (dst, moved) =
      if is_present (get cid dst)
      then (ok true, (dst, moved))
      else if stopped stop_after moved
      then (ok false, (dst, moved))
      else move_found cid (get cid src) (dst, moved)

  -- The loop over the links of an index node. It is called on nodes that hold links only.
  abbrev pub on_link :
      Option (List ℕ) → Transfer → (List ℕ → Run Transfer (Unit {0})) → Run Transfer (Unit {0})
  on_link none t f = (ok tt, t)
  on_link (some text) t f = f text

  unfoldable pub move_all : PeerStore → Option ℕ → Items → Transfer → Run Transfer (Unit {0})
  unfolding move_one
  move_all src stop_after nil t = (ok tt, t)
  move_all src stop_after (cons v xs) t = on_link (chunk_link v) t (λ text.
      run_then (move_one src stop_after text t)
        (λ more t. let rest = move_all src stop_after xs t in if more then rest else (ok tt, t)))

  abbrev pub chunks_of : Json → Items
  chunks_of (array xs) = if all_links xs then xs else nil
  chunks_of v = nil

  unfoldable pub fan_out : PeerStore → Option ℕ → List ℕ → Transfer → Run Transfer (Unit {0})
  unfolding get_node move_all
  fan_out src stop_after root_cid t =
      run_then (get_node blake3 end_of root_cid t.0, t)
        (λ node t. move_all src stop_after (chunks_of node) t)

  -- The catch: what was thrown is dropped, and the count so far returned.
  abbrev pub caught : Run Transfer (Unit {0}) → Run PeerStore ℕ
  caught (ok u, t) = (ok t.1, t.0)
  caught (throws e, t) = (ok t.1, t.0)
  caught (fault, t) = (fault, t.0)
  caught (stuck, t) = (stuck, t.0)

  abbrev pub after_root : Run Transfer Bool → (Transfer → Run PeerStore ℕ) → Run PeerStore ℕ
  after_root (ok true, t) f = f t
  after_root (ok false, t) f = (ok t.1, t.0)
  after_root (throws e, t) f = (throws e, t.0)
  after_root (fault, t) f = (fault, t.0)
  after_root (stuck, t) f = (stuck, t.0)

  unfoldable pub fetch : PeerStore → List ℕ → Option ℕ → PeerStore → Run PeerStore ℕ
  unfolding move_one fan_out
  fetch src root_cid stop_after dst =
      after_root (move_one src stop_after root_cid (dst, 0))
        (λ t. caught (fan_out src stop_after root_cid t))
