-- ===== src/Common/Outcome.antt =====
-- What a call of the C++ code can come to: a value, a thrown exception, or undefined behaviour.
use mathlib.Core.Path.{◌≡◌, refl, ap}
use mathlib.Core.Logic.{◌≢◌}
use mathlib.Core.Bool.{Bool, true, false}
use mathlib.Core.List.{List}
use Prim.Native.Nat.{ℕ}

-- One constructor for each `throw std::runtime_error` that the modelled code has.
pub data Error : Type 0 where
  unsupported_multibase bad_base32 bad_base64 : Error
  truncated_escape bad_hex : Error
  nan_forbidden malformed_escape reserved_key unencodable not_a_bytes_escape : Error
  truncated truncated_bytes truncated_string indefinite_length non_string_key : Error
  only_tag_42 no_identity_prefix unsupported_simple trailing_bytes : Error
  miss provider_miss verification_failed : Error
  no_such_object span_does_not_fit piece_not_in_version type_error : Error
  out_of_range leaf_step no_step peer_key_step send_failed schedule_stuck : Error
  no_subgraph_port : List ℕ → List ℕ → Error
  bad_record : ℕ → Error
  not_persisted no_node_type template_cycle : List ℕ → Error
  no_linked_native no_node no_port no_such_ref : List ℕ → Error

-- `fault` is undefined behaviour; `stuck` is no outcome of the program: a loop ran out of its fuel.
pub data Outcome {ℓ} (A : Type ℓ) : Type ℓ where
  ok : A → Outcome A
  throws : Error → Outcome A
  fault stuck : Outcome A

infixl 5 ◌>>=◌ ◌>>◌
abbrev pub ◌>>=◌ {ℓ κ} : {A : Type ℓ} {B : Type κ} → Outcome A → (A → Outcome B) → Outcome B
ok a >>= f = f a
throws e >>= f = throws e
fault >>= f = fault
stuck >>= f = stuck

abbrev pub ◌>>◌ {ℓ} : {B : Type ℓ} → Outcome (Unit {0}) → Outcome B → Outcome B
m >> k = m >>= λ _. k

-- `if (!test) throw std::runtime_error(e);`
abbrev pub require : Bool → Error → Outcome (Unit {0})
require true e = ok tt
require false e = throws e

pub ok_injective {ℓ} : {A : Type ℓ} {a b : A} → ok a ≡ ok b → a ≡ b
ok_injective h = cc

-- Inversion of a bind that returned.
pub >>=-eq-ok {ℓ κ} :
    {A : Type ℓ} {B : Type κ} {b : B} (f : A → Outcome B) (m : Outcome A)
    → (m >>= f) ≡ ok b
    → (a : A) × (m ≡ ok a) × (f a ≡ ok b)
>>=-eq-ok f stuck h = cc
>>=-eq-ok f fault h = cc
>>=-eq-ok f (throws e) h = cc
>>=-eq-ok f (ok a) h = (a, refl, h)

-- An outcome that is one of the program's.
abbrev pub IsOutcome {ℓ} : {A : Type ℓ} → Outcome A → Type 0
IsOutcome (ok a) = Unit {0}
IsOutcome (throws e) = Unit {0}
IsOutcome fault = Unit {0}
IsOutcome stuck = ⊥

pub >>=-IsOutcome {ℓ κ} :
    {A : Type ℓ} {B : Type κ} (m : Outcome A) (f : A → Outcome B)
    → IsOutcome m
    → ((a : A) → IsOutcome (f a))
    → IsOutcome (m >>= f)
>>=-IsOutcome (ok a) f h c = c a
>>=-IsOutcome (throws e) f h c = tt
>>=-IsOutcome fault f h c = tt
>>=-IsOutcome stuck f h c = h

pub IsOutcome-ne-stuck {ℓ} : {A : Type ℓ} (m : Outcome A) → IsOutcome m → m ≢ stuck
IsOutcome-ne-stuck (ok a) h = λ p. cc
IsOutcome-ne-stuck (throws e) h = λ p. cc
IsOutcome-ne-stuck fault h = λ p. cc
IsOutcome-ne-stuck stuck h = λ p. h

pub >>=-ok {ℓ} : {A : Type ℓ} (m : Outcome A) → (m >>= λ a. ok a) ≡ m
>>=-ok (ok a) = refl
>>=-ok (throws e) = refl
>>=-ok fault = refl
>>=-ok stuck = refl

-- A run on a state: what it comes to, and the state that it leaves, also when it throws.
abbrev pub Run {ℓ} : Type 0 → Type ℓ → Type ℓ
Run S A = Outcome A × S

abbrev pub run_then {ℓ κ} :
    {S : Type 0} {A : Type ℓ} {B : Type κ} → Run S A → (A → S → Run S B) → Run S B
run_then (ok a, s) f = f a s
run_then (throws e, s) f = (throws e, s)
run_then (fault, s) f = (fault, s)
run_then (stuck, s) f = (stuck, s)

-- A run of two parts keeps what both keep.
pub run_then-lem {ℓ κ μ} :
    {S : Type 0} {A : Type ℓ} {B : Type κ} (P : S → Type μ) (r : Run S A) (f : A → S → Run S B)
    → P r.1
    → ((a : A) (s : S) → P s → P (f a s).1)
    → P (run_then r f).1
run_then-lem P (ok a, s) f h k = k a s h
run_then-lem P (throws e, s) f h k = h
run_then-lem P (fault, s) f h k = h
run_then-lem P (stuck, s) f h k = h

-- A run that returned went through both of its parts.
pub run_then-inverse {ℓ κ} :
    {S : Type 0} {A : Type ℓ} {B : Type κ} (r : Run S A) (f : A → S → Run S B) (b : B) (s' : S)
    → run_then r f ≡ (ok b, s')
    → (a : A) × (s : S) × (r ≡ (ok a, s)) × (f a s ≡ (ok b, s'))
run_then-inverse (ok a, s) f b s' h = (a, s, refl, h)
run_then-inverse (throws e, s) f b s' h = absurd (throws-ne-ok (ap (λ r. r.0) h))
  where
    throws-ne-ok : throws e ≡ ok b → ⊥
    throws-ne-ok p = cc
run_then-inverse (fault, s) f b s' h = absurd (fault-ne-ok (ap (λ r. r.0) h))
  where
    fault-ne-ok : fault ≡ ok b → ⊥
    fault-ne-ok p = cc
run_then-inverse (stuck, s) f b s' h = absurd (stuck-ne-ok (ap (λ r. r.0) h))
  where
    stuck-ne-ok : stuck ≡ ok b → ⊥
    stuck-ne-ok p = cc
