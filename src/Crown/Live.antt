-- ===== src/Crown/Live.antt =====
-- The pointers of the instances: each is at the silence or at an instance of the plan.
use sygaldreye.Common.{
  ℕ, ◌≡◌, inl, inr, refl, ap, sym, ◌∙◌, List, [], ◌∷◌, map, Bool, true, false, Option, none, some,
  All, arith, ◌||◌, All-map, zero, suc, Bool-cases, ==_refl, ◌==◌, eq_bytes,
}
use mathlib.Core.Path.{subst}
use sygaldreye.Common.Outcome.{ok_injective, ok, >>=-eq-ok}
use sygaldreye.Common.Maps.{lookup, assign, All-assign, All-lookup}
use sygaldreye.Crown.{
  PortDecl, Source, silence, buffer, Instance, before_slash, after_slash, at_key, silent,
}
use sygaldreye.Crown.Wiring.{
  find_port, write_at, cleared, Wire, wire_of, connect, with_serial, has_serial, is_live, all_live,
}

abbrev pub Entry : Type 0
Entry = List ℕ × Instance

pub has_serial-lookup :
    (k : List ℕ) (inst : Instance) (instances : List Entry)
    → lookup k instances ≡ some inst
    → has_serial inst.serial instances ≡ true
unfolding lookup has_serial
has_serial-lookup k inst [] h = cc
has_serial-lookup k inst ((j, i) ∷ instances) h = elim (Bool-cases (eq_bytes j k)) [
  | inl t ↦
      let found : some i ≡ some inst = rw t at h in
      let same : i ≡ inst = cc in
      rw (ap (λ (u : Instance). u.serial == inst.serial) same, ==_refl inst.serial)
  | inr t ↦ rw (has_serial-lookup k inst instances (rw t at h)) (or_true (i.serial == inst.serial))
]
  where
    or_true : (b : Bool) → (b || true) ≡ true
    or_true true = refl
    or_true false = refl

pub with_serial-has_serial :
    (n : ℕ) (instances : List Entry)
    → has_serial n instances ≡ true
    → (inst : Instance) × (with_serial n instances ≡ some inst)
unfolding has_serial with_serial
with_serial-has_serial n [] h = cc
with_serial-has_serial n ((j, i) ∷ instances) h = elim (Bool-cases (i.serial == n)) [
  | inl t ↦ (i, rw t)
  | inr t ↦ let found = with_serial-has_serial n instances (rw t at h) in (found.0, rw t found.1)
]

pub All-with_serial {κ} :
    (P : Entry → Type κ) (n : ℕ) (inst : Instance) (instances : List Entry)
    → All P instances
    → with_serial n instances ≡ some inst
    → (k : List ℕ) × P (k, inst)
unfolding with_serial
All-with_serial P n inst [] h e = cc
All-with_serial P n inst ((j, i) ∷ instances) h e = elim (Bool-cases (i.serial == n)) [
  | inl t ↦
      let found : some i ≡ some inst = rw t at e in
      let same : i ≡ inst = cc in (j, subst (λ u. P (j, u)) same h.0)
  | inr t ↦ All-with_serial P n inst instances h.1 (rw t at e)
]

-- An assignment that keeps the serial keeps what is live.
has_serial-assign :
    (k : List ℕ) (old new : Instance) (n : ℕ) (instances : List Entry)
    → lookup k instances ≡ some old
    → new.serial ≡ old.serial
    → has_serial n (assign k new instances) ≡ has_serial n instances
unfolding has_serial assign lookup
has_serial-assign k old new n [] h e = cc
has_serial-assign k old new n ((j, i) ∷ instances) h e = elim (Bool-cases (eq_bytes j k)) [
  | inl t ↦
      let found : some i ≡ some old = rw t at h in
      let same : i ≡ old = cc in
      rw t (
        ap (λ (m : ℕ). m == n || has_serial n instances)
          (e ∙ sym (ap (λ (u : Instance). u.serial) same)))
  | inr t ↦
      rw t (ap (λ b. i.serial == n || b) (has_serial-assign k old new n instances (rw t at h) e))
]

all_live-assign :
    (k : List ℕ) (old new : Instance) (instances : List Entry) (sources : List Source)
    → lookup k instances ≡ some old
    → new.serial ≡ old.serial
    → all_live (assign k new instances) sources ≡ all_live instances sources
all_live-assign k old new instances [] h e = refl
all_live-assign k old new instances (silence ∷ sources) h e =
    all_live-assign k old new instances sources h e
all_live-assign k old new instances (buffer n port ∷ sources) h e =
    rw
      (has_serial-assign k old new n instances h e, all_live-assign k old new instances sources h e)

pub all_live-silent :
    (instances : List Entry) (ports : List PortDecl) → all_live instances (silent ports) ≡ true
all_live-silent instances [] = refl
all_live-silent instances (p ∷ ports) = all_live-silent instances ports

all_live-write_at :
    (instances : List Entry) (sources : List Source) (i : ℕ) (source : Source)
    → all_live instances sources ≡ true
    → is_live instances source ≡ true
    → all_live instances (write_at sources i source) ≡ true
all_live-write_at instances [] i source h k = refl
all_live-write_at instances (x ∷ sources) zero source h k = ground (arith, h, k)
all_live-write_at instances (x ∷ sources) (suc i) source h k =
    ground (arith, h, k, all_live-write_at instances sources i source)

-- Every input pointer of every instance is at the silence, or at an instance of the plan.
abbrev pub IsWired : List Entry → Type 0
IsWired instances = All (λ e. all_live instances e.1.ins ≡ true) instances

pub IsWired-cleared :
    (all instances : List Entry) → All (λ e. all_live all e.1.ins ≡ true) (map cleared instances)
IsWired-cleared all [] = tt
IsWired-cleared all (e ∷ instances) =
    (all_live-silent all e.1.native.in_ports, IsWired-cleared all instances)

pub at_key-inverse {ℓ} : {A : Type ℓ} (o : Option A) (a : A) → at_key o ≡ ok a → o ≡ some a
at_key-inverse none a h = cc
at_key-inverse (some b) a h = cc

-- A wire is from an instance of the plan to one that stands under its id.
pub wire_of-inverse :
    (e : List ℕ × List ℕ) (instances : List Entry) (w : Wire)
    → wire_of e instances ≡ ok w
    → (lookup w.id instances ≡ some w.instance_at) × (is_live instances w.source ≡ true)
unfolding wire_of
wire_of-inverse (from, to) instances w h =
    let one = >>=-eq-ok _ (at_key (lookup (before_slash from) instances)) h in
    let two = >>=-eq-ok _ (at_key (lookup (before_slash to) instances)) one.2 in
    let three = >>=-eq-ok _ (find_port 0 one.0.native.out_ports (after_slash from)) two.2 in
    let four = >>=-eq-ok _ (find_port 0 two.0.native.in_ports (after_slash to)) three.2 in
    let made = ok_injective four.2 in
    (
      subst (λ (w : Wire). lookup w.id instances ≡ some w.instance_at) made
          (at_key-inverse (lookup (before_slash to) instances) two.0 two.1),
      subst (λ (w : Wire). is_live instances w.source ≡ true) made
          (has_serial-lookup (before_slash from) one.0 instances
            (at_key-inverse (lookup (before_slash from) instances) one.0 one.1)),
    )

pub connect-IsWired :
    (w : Wire) (instances : List Entry)
    → lookup w.id instances ≡ some w.instance_at
    → is_live instances w.source ≡ true
    → IsWired instances
    → IsWired (connect w instances)
unfolding connect
connect-IsWired w instances h k wired =
    All-assign _ w.id new instances
      (kept (write_at w.instance_at.ins w.input w.source) (
        all_live-write_at instances w.instance_at.ins w.input w.source
          (All-lookup (λ e. all_live instances e.1.ins ≡ true) w.id w.instance_at instances wired h)
          k))
      (All-map (λ e p. kept e.1.ins p) instances wired)
  where
    new : Instance
    new = record w.instance_at { ins = write_at w.instance_at.ins w.input w.source }

    kept :
        (sources : List Source)
        → all_live instances sources ≡ true
        → all_live (assign w.id new instances) sources ≡ true
    kept sources p = all_live-assign w.id w.instance_at new instances sources h refl ∙ p
