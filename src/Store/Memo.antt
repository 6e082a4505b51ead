-- ===== src/Store/Memo.antt =====
-- A derivation is committed once: the same recipe gives the same nodes again.
use sygaldreye.Common.{ℕ, ◌≡◌, refl, ap, sym, ◌∙◌, List, Bool, true, false, Option, none, some}
use sygaldreye.Common.Outcome.{ok_injective, run_then-inverse, ok}
use sygaldreye.Common.Maps.{lookup, lookup-assign}
use sygaldreye.Formats.Pins.{multicodec_dag_cbor}
use sygaldreye.Formats.Cid.{Hash}
use sygaldreye.Formats.Cbor.Json.{Json}
use sygaldreye.Formats.Cbor.Encode.{encode}
use sygaldreye.Store.{
  PeerStore, Committed, Remembered, cid_text_of, keep_object, put_node, set_output, index_links,
  derive, commit_unless, commit_derivation,
}

module _ (blake3 : Hash) where
  -- A node that was stored once is stored again under the same address, and the memo is left alone.
  put_node-again :
      (v : Json) (provide : Bool) (s s₁ s' : PeerStore) (cid : List ℕ)
      → put_node blake3 v provide s ≡ (ok cid, s₁)
      → (s₂ : PeerStore) × (put_node blake3 v provide s' ≡ (ok cid, s₂)) × (s₂.memo ≡ s'.memo)
  unfolding put_node keep_object
  put_node-again v provide s s₁ s' cid h =
      let back = run_then-inverse (encode v, s) _ cid s₁ h in
      let coded : encode v ≡ ok back.0 = ap (λ r. r.0) back.2 in
      let named : cid_text_of blake3 multicodec_dag_cbor back.0 ≡ cid =
        ok_injective (ap (λ r. r.0) back.3) in
      (
        keep_object blake3 (cid_text_of blake3 multicodec_dag_cbor back.0) back.0 provide s',
        rw coded (
            ap
              (λ l. (
                ok l,
                keep_object blake3 (cid_text_of blake3 multicodec_dag_cbor back.0) back.0 provide
                    s',
              ))
              named),
        refl,
      )

  put_node-memo :
      (v : Json) (provide : Bool) (s s₁ : PeerStore) (cid : List ℕ)
      → put_node blake3 v provide s ≡ (ok cid, s₁)
      → s₁.memo ≡ s.memo
  unfolding put_node keep_object
  put_node-memo v provide s s₁ cid h =
      let back = run_then-inverse (encode v, s) _ cid s₁ h in
      sym (ap (λ r. r.1.memo) back.3) ∙ sym (ap (λ r. r.1.memo) back.2)

  abbrev remember : Committed → Remembered
  remember c = record { output = c.output; provenance = c.provenance }

  derive-memo :
      (recipe output : Json) (recipe_cid : List ℕ) (s s' : PeerStore) (c : Committed)
      → derive blake3 recipe output recipe_cid s ≡ (ok c, s')
      → lookup recipe_cid s'.memo ≡ some (remember c)
  unfolding derive
  derive-memo recipe output recipe_cid s s' c h =
      let one = run_then-inverse (put_node blake3 output false s) _ c s' h in
      let two =
        run_then-inverse (set_output one.0 recipe, index_links one.0 output one.1) _ c s' one.3 in
      let three = run_then-inverse (put_node blake3 two.0 false two.1) _ c s' two.3 in
      ap (λ r. lookup recipe_cid r.1.memo) (sym three.3)
      ∙ lookup-assign recipe_cid (record { output = one.0; provenance = three.0 })
          (index_links three.0 two.0 three.1).memo
      ∙ ap (λ k. some (remember k)) (ok_injective (ap (λ r. r.0) three.3))

  commit_unless-memo :
      (o : Option Remembered) (recipe output : Json) (recipe_cid : List ℕ) (s s' : PeerStore)
      (c : Committed)
      → lookup recipe_cid s.memo ≡ o
      → commit_unless blake3 o recipe output recipe_cid s ≡ (ok c, s')
      → lookup recipe_cid s'.memo ≡ some (remember c)
  unfolding commit_unless
  commit_unless-memo (some r) recipe output recipe_cid s s' c e h =
      ap (λ t. lookup recipe_cid t.1.memo) (sym h)
      ∙ e
      ∙ ap (λ k. some (remember k)) (ok_injective (ap (λ t. t.0) h))
  commit_unless-memo none recipe output recipe_cid s s' c e h =
      derive-memo recipe output recipe_cid s s' c h

  -- After a derivation was committed, its recipe is a hit, with the same nodes, whatever output comes
  -- with it, and the memo does not change.
  pub commit_derivation-again :
      (recipe output output' : Json) (s s' : PeerStore) (c : Committed)
      → commit_derivation blake3 recipe output s ≡ (ok c, s')
      → (s₂ : PeerStore) × (commit_derivation blake3 recipe output' s'
          ≡ (ok (record { output = c.output; provenance = c.provenance; memo_hit = true }), s₂))
        × (s₂.memo ≡ s'.memo)
  unfolding commit_derivation commit_unless
  commit_derivation-again recipe output output' s s' c h =
      let first = run_then-inverse (put_node blake3 recipe false s) _ c s' h in
      let hit = commit_unless-memo _ recipe output first.0 first.1 s' c refl first.3 in
      let second = put_node-again recipe false s first.1 s' first.0 first.2 in
      (second.0, rw (second.1, second.2, hit), second.2)
