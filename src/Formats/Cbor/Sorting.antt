-- ===== src/Formats/Cbor/Sorting.antt =====
-- Writing a map's entries in any order of their keys, and in the order of the encoder.
use sygaldreye.Common.{
  ℕ, suc, ◌≡◌, ◌≢◌, refl, ap, sym, ◌∙◌, List, [], ◌∷◌, map, All, All-map, length, Bool-cases, inl,
  inr,
}
use sygaldreye.Formats.Cbor.Json.{Json, Fields, end, field, put_field, lex_less}
use sygaldreye.Formats.Cbor.Encode.{key_less, insert_by_key, sort_by_key}
use sygaldreye.Formats.Cbor.Keys.{IsBelow, put_comm, put-above}

-- Sorting by a key of the image is sorting by the key of the image's source.
module _ {ℓ κ} {A : Type ℓ} {B : Type κ} (key : B → List ℕ) (f : A → B) where
  insert_by_key-map :
      (a : A) (xs : List A)
      → insert_by_key key (f a) (map f xs) ≡ map f (insert_by_key (λ x. key (f x)) a xs)
  unfolding insert_by_key
  insert_by_key-map a [] = refl
  insert_by_key-map a (x ∷ xs) = elim (Bool-cases (key_less (key (f a)) (key (f x)))) [
    | inl h ↦ rw h
    | inr h ↦ rw h (ap (λ l. f x ∷ l) (insert_by_key-map a xs))
  ]

  pub sort_by_key-map :
      (xs : List A) → sort_by_key key (map f xs) ≡ map f (sort_by_key (λ x. key (f x)) xs)
  unfolding sort_by_key
  sort_by_key-map [] = refl
  sort_by_key-map (x ∷ xs) =
      ap (insert_by_key key (f x)) (sort_by_key-map xs)
      ∙ insert_by_key-map x (sort_by_key (λ y. key (f y)) xs)

module _ {ℓ} {A : Type ℓ} (key : A → List ℕ) where
  All-insert_by_key {κ} :
      (P : A → Type κ) (a : A) (xs : List A) → P a → All P xs → All P (insert_by_key key a xs)
  unfolding insert_by_key
  All-insert_by_key P a [] h k = (h, tt)
  All-insert_by_key P a (x ∷ xs) h k = elim (Bool-cases (key_less (key a) (key x))) [
    | inl t ↦ rw t (h, k)
    | inr t ↦ rw t (k.0, All-insert_by_key P a xs h k.1)
  ]

  pub All-sort_by_key {κ} : (P : A → Type κ) (xs : List A) → All P xs → All P (sort_by_key key xs)
  unfolding sort_by_key
  All-sort_by_key P [] h = tt
  All-sort_by_key P (x ∷ xs) h =
      All-insert_by_key P x (sort_by_key key xs) h.0 (All-sort_by_key P xs h.1)

  length-insert_by_key : (a : A) (xs : List A) → length (insert_by_key key a xs) ≡ suc (length xs)
  unfolding insert_by_key
  length-insert_by_key a [] = refl
  length-insert_by_key a (x ∷ xs) = elim (Bool-cases (key_less (key a) (key x))) [
    | inl t ↦ rw t
    | inr t ↦ rw t (ap suc (length-insert_by_key a xs))
  ]

  pub length-sort_by_key : (xs : List A) → length (sort_by_key key xs) ≡ length xs
  unfolding sort_by_key
  length-sort_by_key [] = refl
  length-sort_by_key (x ∷ xs) =
      length-insert_by_key x (sort_by_key key xs) ∙ ap suc (length-sort_by_key xs)

module _ {ℓ} {A : Type ℓ} (key : A → List ℕ) (val : A → Json) where
  -- The writes of the decoder's loop.
  abbrev pub puts : List A → Fields → Fields
  puts [] out = out
  puts (a ∷ rest) out = puts rest (put_field (key a) (val a) out)

  abbrev pub of_entries : List A → Fields
  of_entries [] = end
  of_entries (a ∷ rest) = field (key a) (val a) (of_entries rest)

  abbrev pub IsDistinct : List A → Type 0
  IsDistinct [] = Unit {0}
  IsDistinct (a ∷ rest) = All (λ b. key a ≢ key b) rest × IsDistinct rest

  abbrev pub IsAscending : List A → Type 0
  IsAscending [] = Unit {0}
  IsAscending (a ∷ rest) = All (λ b. IsBelow (key a) (key b)) rest × IsAscending rest

  puts-insert_by_key :
      (a : A) (xs : List A) (out : Fields)
      → All (λ b. key a ≢ key b) xs
      → puts (insert_by_key key a xs) out ≡ puts xs (put_field (key a) (val a) out)
  unfolding insert_by_key
  puts-insert_by_key a [] out h = refl
  puts-insert_by_key a (x ∷ xs) out h = elim (Bool-cases (key_less (key a) (key x))) [
    | inl t ↦ rw t
    | inr t ↦ rw t (
        puts-insert_by_key a xs (put_field (key x) (val x) out) h.1
        ∙ ap (puts xs) (put_comm (key a) (key x) (val a) (val x) out h.0))
  ]

  pub puts-sort_by_key :
      (xs : List A) (out : Fields) → IsDistinct xs → puts (sort_by_key key xs) out ≡ puts xs out
  unfolding sort_by_key
  puts-sort_by_key [] out h = refl
  puts-sort_by_key (x ∷ xs) out h =
      puts-insert_by_key x (sort_by_key key xs) out
        (All-sort_by_key key (λ b. key x ≢ key b) xs h.0)
      ∙ puts-sort_by_key xs (put_field (key x) (val x) out) h.1

  -- Writes in ascending order only add at the end.
  abbrev append_fields : Fields → Fields → Fields
  append_fields end gs = gs
  append_fields (field k v fs) gs = field k v (append_fields fs gs)

  abbrev Under : Fields → List ℕ → Type 0
  Under end k = Unit {0}
  Under (field j v fs) k = IsBelow j k × Under fs k

  put_last :
      (k : List ℕ) (v : Json) (fs : Fields)
      → Under fs k
      → put_field k v fs ≡ append_fields fs (field k v end)
  put_last k v end h = unfold put_field in refl
  put_last k v (field j u fs) h = put-above k v u fs h.0 ∙ ap (field j u) (put_last k v fs h.1)

  Under-append_fields :
      (fs : Fields) (j : List ℕ) (v : Json) (k : List ℕ)
      → Under fs k
      → IsBelow j k
      → Under (append_fields fs (field j v end)) k
  Under-append_fields end j v k h b = (b, tt)
  Under-append_fields (field i u fs) j v k h b = (h.0, Under-append_fields fs j v k h.1 b)

  append_fields_assoc :
      (fs : Fields) (k : List ℕ) (v : Json) (gs : Fields)
      → append_fields (append_fields fs (field k v end)) gs ≡ append_fields fs (field k v gs)
  append_fields_assoc end k v gs = refl
  append_fields_assoc (field j u fs) k v gs = ap (field j u) (append_fields_assoc fs k v gs)

  append_fields-end : (fs : Fields) → append_fields fs end ≡ fs
  append_fields-end end = refl
  append_fields-end (field k v fs) = ap (field k v) (append_fields-end fs)

  Under-All :
      (fs : Fields) (a : A) (xs : List A)
      → All (λ b. Under fs (key b)) xs
      → All (λ b. IsBelow (key a) (key b)) xs
      → All (λ b. Under (append_fields fs (field (key a) (val a) end)) (key b)) xs
  Under-All fs a [] h k = tt
  Under-All fs a (x ∷ xs) h k =
      (Under-append_fields fs (key a) (val a) (key x) h.0 k.0, Under-All fs a xs h.1 k.1)

  puts-Under :
      (xs : List A) (out : Fields)
      → All (λ b. Under out (key b)) xs
      → IsAscending xs
      → puts xs out ≡ append_fields out (of_entries xs)
  puts-Under [] out h s = sym (append_fields-end out)
  puts-Under (x ∷ xs) out h s =
      ap (puts xs) (put_last (key x) (val x) out h.0)
      ∙ puts-Under xs (append_fields out (field (key x) (val x) end)) (Under-All out x xs h.1 s.0)
          s.1
      ∙ append_fields_assoc out (key x) (val x) (of_entries xs)

  All-Under_end : (xs : List A) → All (λ b. Under end (key b)) xs
  All-Under_end [] = tt
  All-Under_end (x ∷ xs) = (tt, All-Under_end xs)

  below-ne : (a b : List ℕ) → IsBelow a b → a ≢ b
  below-ne a b h e = cc (h.less, h.greater, ap (λ t. lex_less t b) e, ap (λ t. lex_less b t) e)

  IsAscending-IsDistinct : (xs : List A) → IsAscending xs → IsDistinct xs
  IsAscending-IsDistinct [] h = tt
  IsAscending-IsDistinct (x ∷ xs) h = (
    All-map (λ b (k : IsBelow (key x) (key b)). below-ne (key x) (key b) k) xs h.0,
    IsAscending-IsDistinct xs h.1,
  )

  -- The entries of a sorted map, written in the encoder's order, give the map.
  pub puts_sorted : (xs : List A) → IsAscending xs → puts (sort_by_key key xs) end ≡ of_entries xs
  puts_sorted xs h =
      puts-sort_by_key xs end (IsAscending-IsDistinct xs h) ∙ puts-Under xs end (All-Under_end xs) h
