-- ===== src/Store/Runs.antt =====
-- Concrete runs of a store, and its theorems at concrete inputs.
use sygaldreye.Common.{
  ℕ, ◌≡◌, ◌≢◌, refl, ap, List, [], ◌∷◌, ◌++◌, true, false, none, some, codes, eq_bytes,
  if◌then◌else◌,
}
use sygaldreye.Common.Maps.{lookup, assign, lookup-assign}
use sygaldreye.Common.Outcome.{Outcome, ok, throws, provider_miss}
use sygaldreye.Formats.Base32.{cid_to_text, cid_from_text, mb32_encode, mb32_decode}
use sygaldreye.Formats.Packing.{pack, unpack, drain, symbol, index_from}
use sygaldreye.Formats.Cid.{cid_of}
use sygaldreye.Formats.Varint.{put_varint}
use sygaldreye.Formats.Sample.{checksum}
use sygaldreye.Formats.Cbor.Json.{Json, null, boolean, object, end, put_field}
use sygaldreye.Formats.Cbor.Encode.{
  encode, object_bytes, map_bytes, append_items, has_slash, sort_by_key, insert_by_key, head,
  big_endian,
}
use sygaldreye.Store.{
  PeerStore, Committed, Run, new_store, get, provides, trail, bind_ref, evict_unprovided, unprovide,
  put_raw, put_node, keep_object, cid_text_of, derive, commit_unless, commit_derivation,
  index_links, walk, set_output, is_present,
}
use sygaldreye.Store.Fetch.{fetch}
use sygaldreye.Store.Addressed.{IsAddress}
use sygaldreye.Store.History.{fresh, next, puts_raw, get-Reach}
use sygaldreye.Store.Memo.{commit_derivation-again}
use sygaldreye.Store.Refs.{evict_unprovided-unprovide}
use sygaldreye.Store.Dropped.{fetch-ne-throws}

abbrev desk : PeerStore
desk = new_store (codes "desk") false

abbrev end_of : List ℕ → ℕ
end_of bytes = 4096

abbrev take_bytes : List ℕ
take_bytes = 1 ∷ 2 ∷ []

abbrev with_take : List ℕ × PeerStore
with_take = put_raw checksum take_bytes false desk

get_take : get with_take.0 with_take.1 ≡ some take_bytes
unfolding get put_raw keep_object
get_take = lookup-assign _ take_bytes []

get-Reach_example : IsAddress checksum (with_take.0, take_bytes)
get-Reach_example =
    get-Reach checksum end_of with_take.0 take_bytes
      (next (fresh (codes "desk") false) (puts_raw take_bytes false desk)) get_take

abbrev bound : PeerStore
bound = bind_ref (codes "song") (codes "b2") (bind_ref (codes "song") (codes "b1") desk)

trail-bound : trail (codes "song") bound ≡ [] ++ (codes "b1" ∷ codes "b2" ∷ [])
unfolding trail bind_ref lookup assign
trail-bound = refl

evict_unprovided-unprovide_example :
    get with_take.0 (evict_unprovided (unprovide (codes "b1") with_take.1)) ≡ (
      if eq_bytes with_take.0 (codes "b1")
      then none
      else if provides with_take.0 with_take.1
      then get with_take.0 with_take.1
      else none)
evict_unprovided-unprovide_example = evict_unprovided-unprovide with_take.0 (codes "b1") with_take.1

take_present : is_present (get with_take.0 with_take.1) ≡ true
take_present = ap is_present get_take

fetch-ne-throws_example :
    (fetch checksum end_of desk with_take.0 none with_take.1).0 ≢ throws provider_miss
fetch-ne-throws_example =
    fetch-ne-throws checksum end_of desk with_take.1 with_take.0 none provider_miss take_present

abbrev recipe : Json
recipe = object end

abbrev first_commit : Run PeerStore Committed
first_commit = commit_derivation checksum recipe null desk

abbrev committed_of : Outcome Committed → Committed
committed_of (ok c) = c
committed_of o = record { output = []; provenance = []; memo_hit = true }

first_commit_lem : first_commit ≡ (ok (committed_of first_commit.0), first_commit.1)
unfolding commit_derivation put_node keep_object derive commit_unless index_links walk set_output
    lookup assign encode object_bytes map_bytes append_items has_slash sort_by_key insert_by_key
    head cid_text_of cid_to_text cid_from_text mb32_encode mb32_decode pack unpack drain symbol
    index_from cid_of put_varint big_endian put_field
first_commit_lem = refl

commit_derivation-again_example :
    (s₂ : PeerStore) × (commit_derivation checksum recipe (boolean true) first_commit.1 ≡ (
      ok (record {
        output = (committed_of first_commit.0).output;
        provenance = (committed_of first_commit.0).provenance;
        memo_hit = true;
      }),
      s₂,
    ))
    × (s₂.memo ≡ first_commit.1.memo)
commit_derivation-again_example =
    commit_derivation-again checksum recipe null (boolean true) desk first_commit.1
      (committed_of first_commit.0) first_commit_lem
