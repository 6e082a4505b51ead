-- ===== src/Store.antt =====
-- store/store.cpp: the content-addressed store of a peer.
pub mod Fetch
pub mod Addressed
pub mod Dropped
pub mod History
pub mod Memo
pub mod Refs
mod Runs
use sygaldreye.Common.{
  ℕ, zero, suc, ◌-◌, List, [], ◌∷◌, ◌++◌, Bool, true, false, ◌||◌, not, Option, none, some, length,
  ltb, ◌==◌, get_elem?, get_or, eq_bytes, codes, if◌then◌else◌,
}
use sygaldreye.Common.Outcome.{Outcome, ok, throws, fault, stuck, ◌>>=◌, miss, type_error}
pub use sygaldreye.Common.Outcome.{Run, run_then}
use sygaldreye.Common.Maps.{lookup, assign, keep_keys}
use sygaldreye.Formats.Pins.{multicodec_raw, multicodec_dag_cbor}
use sygaldreye.Formats.Base32.{cid_to_text}
use sygaldreye.Formats.Cid.{Hash, cid_of}
use sygaldreye.Formats.Cbor.Json.{
  Json, Items, Fields, null, boolean, unsigned, integer, floating, string, array, object, binary,
  nil, cons, end, field, put_field, slash, link_object,
}
use sygaldreye.Formats.Cbor.Encode.{encode}
use sygaldreye.Formats.Cbor.Decode.{decode_to_projection}

-- An entry of the memo: `{"output": …, "provenance": …}`.
pub record Remembered : Type 0 where
  pub output : List ℕ
  pub provenance : List ℕ

-- The fields of `peer_store`. A set has `tt` for the value of its keys.
pub record PeerStore : Type 0 where
  pub name : List ℕ
  pub provide_all : Bool
  pub objects : List (List ℕ × List ℕ)
  pub provided : List (List ℕ × Unit {0})
  pub refs : List (List ℕ × List (List ℕ))
  pub backlinks : List (List ℕ × List (List ℕ))
  pub memo : List (List ℕ × Remembered)
  pub transfers : ℕ

abbrev pub new_store : List ℕ → Bool → PeerStore
new_store name provide_all = record {
  name = name;
  provide_all = provide_all;
  objects = [];
  provided = [];
  refs = [];
  backlinks = [];
  memo = [];
  transfers = 0;
}

pub record Committed : Type 0 where
  pub output : List ℕ
  pub provenance : List ℕ
  pub memo_hit : Bool

abbrev pub is_present {ℓ} : {A : Type ℓ} → Option A → Bool
is_present none = false
is_present (some a) = true

unfoldable pub get : List ℕ → PeerStore → Option (List ℕ)
get cid s = lookup cid s.objects

unfoldable pub provides : List ℕ → PeerStore → Bool
provides cid s = is_present (lookup cid s.provided)

unfoldable pub evict_unprovided : PeerStore → PeerStore
evict_unprovided s = record s {
  objects = keep_keys (λ cid. is_present (lookup cid s.provided)) s.objects;
}

unfoldable pub unprovide : List ℕ → PeerStore → PeerStore
unprovide cid s = record s { provided = keep_keys (λ k. not (eq_bytes k cid)) s.provided }

-- Refs: a name's trail, the newest last.
abbrev pub trail_of : Option (List (List ℕ)) → List (List ℕ)
trail_of none = []
trail_of (some cids) = cids

unfoldable pub trail : List ℕ → PeerStore → List (List ℕ)
trail name s = trail_of (lookup name s.refs)

unfoldable pub bind_ref : List ℕ → List ℕ → PeerStore → PeerStore
bind_ref name cid s = record s {
  refs = assign name (trail_of (lookup name s.refs) ++ (cid ∷ [])) s.refs;
}

-- A name without an entry is taken for one with an empty trail: the code tests for both.
unfoldable pub ref : List ℕ → PeerStore → Option (List ℕ)
ref name s =
    let cids = trail_of (lookup name s.refs) in
    if length cids == 0 then none else get_elem? cids (length cids - 1)

unfoldable pub undo_ref : List ℕ → PeerStore → Bool × PeerStore
undo_ref name s =
    let cids = trail_of (lookup name s.refs) in
    if ltb (length cids) 2 then (false, s) else (
      true,
      record s { refs = assign name (cids ++ (get_or cids (length cids - 2) [] ∷ [])) s.refs },
    )

unfoldable pub backlinks : List ℕ → PeerStore → List (List ℕ)
backlinks cid s = trail_of (lookup cid s.backlinks)

-- `walk` of `index_links`, on the map of back-links.
abbrev pub link_target : Fields → Option (List ℕ)
link_target (field k (string text) end) = if eq_bytes k slash then some text else none
link_target fs = none

unfoldable mutual
  pub walk : List ℕ → Json → List (List ℕ × List (List ℕ)) → List (List ℕ × List (List ℕ))
  walk cid (object fs) links =
      let inside = walk_fields cid fs links in
      elim (link_target fs) [
        | some text ↦ assign text (trail_of (lookup text links) ++ (cid ∷ [])) links
        | none ↦ inside
      ]
  walk cid (array xs) links = walk_items cid xs links
  walk cid v links = links

  pub walk_items : List ℕ → Items → List (List ℕ × List (List ℕ)) → List (List ℕ × List (List ℕ))
  walk_items cid nil links = links
  walk_items cid (cons v xs) links = walk_items cid xs (walk cid v links)

  pub walk_fields : List ℕ → Fields → List (List ℕ × List (List ℕ)) → List (List ℕ × List (List ℕ))
  walk_fields cid end links = links
  walk_fields cid (field k v fs) links = walk_fields cid fs (walk cid v links)

unfoldable pub index_links : List ℕ → Json → PeerStore → PeerStore
unfolding walk
index_links provenance_cid record_json s = record s {
  backlinks = walk provenance_cid record_json s.backlinks;
}

-- `v["output"] = {{"/", cid}}`: null becomes an object, other values have no fields.
abbrev pub output_key : List ℕ
output_key = codes "output"

unfoldable pub set_output : List ℕ → Json → Outcome Json
set_output cid null = ok (object (field output_key (object (link_object cid)) end))
set_output cid (object fs) = ok (object (put_field output_key (object (link_object cid)) fs))
set_output cid v = throws type_error

module _ (blake3 : Hash) where
  unfoldable pub cid_text_of : ℕ → List ℕ → List ℕ
  cid_text_of codec bytes = cid_to_text (cid_of blake3 codec bytes)

  -- The end of `put_raw` and of `put_node`.
  unfoldable pub keep_object : List ℕ → List ℕ → Bool → PeerStore → PeerStore
  keep_object cid bytes provide s = record s {
    objects = assign cid bytes s.objects;
    provided = if provide || s.provide_all then assign cid tt s.provided else s.provided;
  }

  unfoldable pub put_raw : List ℕ → Bool → PeerStore → List ℕ × PeerStore
  unfolding cid_text_of keep_object
  put_raw bytes provide s =
      let cid = cid_text_of multicodec_raw bytes in (cid, keep_object cid bytes provide s)

  unfoldable pub put_node : Json → Bool → PeerStore → Run PeerStore (List ℕ)
  unfolding cid_text_of keep_object
  put_node projection provide s =
      run_then (encode projection, s)
        (λ bytes s.
          let cid = cid_text_of multicodec_dag_cbor bytes in
          (ok cid, keep_object cid bytes provide s))

  unfoldable pub memo_lookup : Json → PeerStore → Outcome (Option Committed)
  unfolding cid_text_of
  memo_lookup recipe s = do
    bytes ← encode recipe
    ok (elim (lookup (cid_text_of multicodec_dag_cbor bytes) s.memo) [
      | some r ↦ some (record { output = r.output; provenance = r.provenance; memo_hit = true })
      | none ↦ none
    ])

  -- The part of `commit_derivation` behind its memo.
  unfoldable pub derive : Json → Json → List ℕ → PeerStore → Run PeerStore Committed
  unfolding put_node index_links set_output
  derive recipe output_projection recipe_cid s =
      run_then (put_node output_projection false s) (λ output s.
        let s = index_links output output_projection s in
        run_then (set_output output recipe, s)
          (λ recipe s. run_then (put_node recipe false s) (λ provenance s.
            let s = index_links provenance recipe s in
            (
              ok (record { output = output; provenance = provenance; memo_hit = false }),
              record s {
                memo =
                    assign recipe_cid (record { output = output; provenance = provenance }) s.memo;
              },
            ))))

  unfoldable pub commit_unless :
      Option Remembered → Json → Json → List ℕ → PeerStore → Run PeerStore Committed
  unfolding derive
  commit_unless (some r) recipe output_projection recipe_cid s =
      (ok (record { output = r.output; provenance = r.provenance; memo_hit = true }), s)
  commit_unless none recipe output_projection recipe_cid s =
      derive recipe output_projection recipe_cid s

  unfoldable pub commit_derivation : Json → Json → PeerStore → Run PeerStore Committed
  unfolding put_node commit_unless
  commit_derivation recipe output_projection s = run_then (put_node recipe false s) (λ recipe_cid s.
      commit_unless (lookup recipe_cid s.memo) recipe output_projection recipe_cid s)

  unfoldable pub commit_capture : List ℕ → Json → PeerStore → Run PeerStore Committed
  unfolding put_raw put_node index_links set_output
  commit_capture take testimony s =
      let stored = put_raw take false s in
      run_then (set_output stored.0 testimony, stored.1)
        (λ testimony s. run_then (put_node testimony false s) (λ provenance s. (
          ok (record { output = stored.0; provenance = provenance; memo_hit = false }),
          index_links provenance testimony s,
        )))

  -- `get_node`: an object's buffer ends at the address that `end_of` gives.
  module _ (end_of : List ℕ → ℕ) where
    unfoldable pub get_node : List ℕ → PeerStore → Outcome Json
    unfolding get
    get_node cid s = elim (get cid s) [
      | none ↦ throws miss
      | some bytes ↦ decode_to_projection (end_of bytes) bytes
    ]
