-- ===== src/Executor/Regions/Closure.antt =====
-- What the loops of `infer_regions` come to: the least set that is closed under the edges.
use sygaldreye.Common.{
  ℕ, zero, suc, ◌+◌, ◌≤◌, ◌<◌, ◌≡◌, refl, ap, sym, ◌∙◌, List, [], ◌∷◌, ◌++◌, Bool, true, false,
  Bool-cases, inl, inr, arith, length, if◌then◌else◌, eq_bytes_refl,
}
use mathlib.Core.Path.{subst}
use sygaldreye.Common.Outcome.{ok, ◌>>=◌}
use sygaldreye.Crown.{NativeType, before_slash}
use sygaldreye.Organs.Parser.{GraphDoc}
use sygaldreye.Executor.Regions.{
  Edge, holds, grow_pass, grow, type_nodes, sinks, carries_block, infer_regions, region_map_of,
}
use sygaldreye.Executor.Regions.Passes.{
  fires, Within, IsLeast, fires-inverse, grow_pass-fires, grow_pass-passes, grow_pass-Within,
  grow_pass-false, grow_pass-least,
}

module _ (carries : Edge → Bool) where
  -- The edges whose source is outside.
  outside : List (List ℕ) → List Edge → ℕ
  outside members [] = 0
  outside members (e ∷ edges) =
      (if holds (before_slash e.0) members then 0 else 1) + outside members edges

  -- One that had its source outside, and has it inside now.
  abbrev Taken : List (List ℕ) → List (List ℕ) → List Edge → Type 0
  Taken before after edges =
      (pre : List Edge) × (e : Edge) × (post : List Edge) × (edges ≡ pre ++ (e ∷ post))
      × (holds (before_slash e.0) before ≡ false)
      × (holds (before_slash e.0) after ≡ true)

  grow_pass-Taken :
      (edges : List Edge) (members : List (List ℕ))
      → (grow_pass carries edges (members, false)).1 ≡ true
      → Taken members (grow_pass carries edges (members, false)).0 edges
  grow_pass-Taken [] members h = absurd (false-ne-true (unfold grow_pass in h))
    where
      false-ne-true : false ≡ true → ⊥
      false-ne-true p = cc
  grow_pass-Taken (e ∷ edges) members h = elim (Bool-cases (fires carries members e)) [
    | inl f ↦ (
      [],
      e,
      edges,
      refl,
      (fires-inverse carries members e f).1,
      ap (λ r. holds (before_slash e.0) r.0) (grow_pass-fires carries e edges members false f)
          ∙ grow_pass-Within carries edges (before_slash e.0 ∷ members) true (before_slash e.0)
              (rw (eq_bytes_refl (before_slash e.0))),
    )
    | inr f ↦
        let same = grow_pass-passes carries e edges members false f in
        let (pre, e', post, split, out, inside) =
          grow_pass-Taken edges members (ap (λ r. r.1) (sym same) ∙ h) in
        (
          e ∷ pre,
          e',
          post,
          ap (λ l. e ∷ l) split,
          out,
          ap (λ r. holds (before_slash e'.0) r.0) same ∙ inside,
        )
  ]

  one_less : (a b : Bool) → ((a ≡ true) → b ≡ true) → (if b then 0 else 1) ≤ (if a then 0 else 1)
  one_less true true h = omega arith
  one_less false true h = omega arith
  one_less false false h = omega arith
  one_less true false h = let e : false ≡ true = h refl in cc

  outside-Within :
      (edges : List Edge) (before after : List (List ℕ))
      → Within carries before after
      → outside after edges ≤ outside before edges
  unfolding outside
  outside-Within [] before after w = omega arith
  outside-Within (e ∷ edges) before after w = omega (
    arith,
    outside-Within edges before after w,
    one_less (holds (before_slash e.0) before) (holds (before_slash e.0) after)
        (w (before_slash e.0)),
  )

  outside-Taken :
      (pre post : List Edge) (e : Edge) (before after : List (List ℕ))
      → Within carries before after
      → holds (before_slash e.0) before ≡ false
      → holds (before_slash e.0) after ≡ true
      → outside after (pre ++ (e ∷ post)) < outside before (pre ++ (e ∷ post))
  unfolding outside
  outside-Taken [] post e before after w out inside =
      rw (out, inside) (omega (arith, outside-Within post before after w))
  outside-Taken (x ∷ pre) post e before after w out inside = omega (
    arith,
    outside-Taken pre post e before after w out inside,
    one_less (holds (before_slash x.0) before) (holds (before_slash x.0) after)
        (w (before_slash x.0)),
  )

  outside-bound :
      (edges : List Edge) (members : List (List ℕ)) → outside members edges ≤ length edges
  unfolding outside
  outside-bound [] members = omega arith
  outside-bound (e ∷ edges) members = elim (Bool-cases (holds (before_slash e.0) members)) [
    | inl h ↦ rw h (omega (arith, outside-bound edges members))
    | inr h ↦ rw h (omega (arith, outside-bound edges members))
  ]

  -- With a round for each edge whose source is outside and one more, the loop ends at the least set.
  grow-IsLeast :
      (fuel : ℕ) (edges : List Edge) (members : List (List ℕ))
      → outside members edges < fuel
      → (result : List (List ℕ)) × (grow fuel carries edges members ≡ ok result)
        × IsLeast carries edges members result
  unfolding grow
  grow-IsLeast zero edges members h = absurd (omega arith)
  grow-IsLeast (suc fuel) edges members h =
      elim (Bool-cases (grow_pass carries edges (members, false)).1) [
        | inr ended ↦
            let last = grow_pass-false carries edges members ended in
            (
              members,
              rw ended (ap ok last.0),
              record { around = λ id h. h; closed = last.1; least = λ other w c. w },
            )
        | inl grew ↦
            let pass = grow_pass carries edges (members, false) in
            let around = grow_pass-Within carries edges members false in
            let (pre, e, post, split, out, inside) = grow_pass-Taken edges members grew in
            let fewer : outside pass.0 edges < outside members edges =
              subst (λ l. outside pass.0 l < outside members l) (sym split)
                (outside-Taken pre post e members pass.0 around out inside) in
            let (result, eq, l) = grow-IsLeast fuel edges pass.0 (omega (arith, fewer, h)) in
            (
              result,
              rw grew eq,
              record {
                around = λ id h. l.around id (around id h);
                closed = l.closed;
                least = λ other w c.
                    l.least other (grow_pass-least carries edges members other false w c) c;
              },
            )
      ]

-- Both loops of `infer_regions` end, and it returns, for every graph: the block region is the least
-- set of nodes around the sinks that has the source of every stream edge into it, and the demanded
-- nodes are the least set around it that has the source of every edge into it.
pub infer_regions-IsLeast :
    (structured_kind : List ℕ → Bool) (natives : List NativeType) (g : GraphDoc)
    → let typed = type_nodes natives g.nodes [] [] in
      (block demanded : List (List ℕ)) × (infer_regions structured_kind natives g
        ≡ ok (region_map_of structured_kind g typed block demanded))
      × IsLeast (carries_block typed.0) g.edges (sinks typed.0 []) block
      × IsLeast (λ e. true) g.edges block demanded
unfolding infer_regions
infer_regions-IsLeast structured_kind natives g =
    let typed = type_nodes natives g.nodes [] [] in
    let start = sinks typed.0 [] in
    let (block, grown, is_block) =
      grow-IsLeast (carries_block typed.0) (suc (length g.edges)) g.edges start
        (omega (arith, outside-bound (carries_block typed.0) g.edges start)) in
    let (demanded, asked, is_demanded) =
      grow-IsLeast (λ e. true) (suc (length g.edges)) g.edges block
        (omega (arith, outside-bound (λ e. true) g.edges block)) in
    (
      block,
      demanded,
      ap
            (λ o. o >>= λ block.
              grow (suc (length g.edges)) (λ e. true) g.edges block >>= λ demanded.
              ok (region_map_of structured_kind g typed block demanded))
            grown
          ∙ ap (λ o. o >>= λ demanded. ok (region_map_of structured_kind g typed block demanded))
              asked,
      is_block,
      is_demanded,
    )
