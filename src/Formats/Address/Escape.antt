-- ===== src/Formats/Address/Escape.antt =====
-- Escaped text: what it leaves out, and how it reads back.
use sygaldreye.Common.{
  ℕ, ◌+◌, ◌≡◌, ◌<◌, ◌≢◌, ◌⊎◌, inl, inr, refl, List, [], ◌∷◌, ◌++◌, true, false, Bool-cases, ne→==,
  ==_refl, arith, All, All-append, All-map, length, length-append, some, none, ap,
}
use sygaldreye.Common.Outcome.{ok, ◌>>=◌}
use sygaldreye.Formats.Packing.{index_from}
use sygaldreye.Formats.Address.{is_escaped, escape_char, escape, unescape, stoi_char, split}

-- The text does not hold the character.
abbrev pub Lacks : ℕ → List ℕ → Type 0
Lacks c = All (λ x. x ≢ c)

-- The seven characters of the pinned set.
pub is_escaped_cases :
    (c : ℕ)
    → is_escaped c ≡ true
    → (c ≡ 37) ⊎ (c ≡ 47) ⊎ (c ≡ 58) ⊎ (c ≡ 35) ⊎ (c ≡ 32) ⊎ (c ≡ 9) ⊎ (c ≡ 10)
unfolding index_from
is_escaped_cases c h = ground arith

pub plain : (c x : ℕ) → is_escaped c ≡ false → is_escaped x ≡ true → c ≢ x
plain c x h k e = cc (h, k, ap is_escaped e)

unescape-plain :
    (c : ℕ) (cs : List ℕ) → c ≢ b'%' → unescape (c ∷ cs) ≡ (do rest ← unescape cs; ok (c ∷ rest))
unfolding unescape
unescape-plain c [] h = ground arith
unescape-plain c (a ∷ []) h = ground arith
unescape-plain c (a ∷ b ∷ cs) h = rw (unescape, ne→== c b'%' h)

-- One escaped character reads back, whatever follows.
unescape-escape_char :
    (c : ℕ) (cs : List ℕ) → unescape (escape_char c ++ cs) ≡ (do rest ← unescape cs; ok (c ∷ rest))
unfolding escape_char unescape stoi_char
unescape-escape_char c cs = elim (Bool-cases (is_escaped c)) [
  | inl special ↦ elim (is_escaped_cases c special) [
    | inl e ↦ rw e
    | inr (inl e) ↦ rw e
    | inr (inr (inl e)) ↦ rw e
    | inr (inr (inr (inl e))) ↦ rw e
    | inr (inr (inr (inr (inl e)))) ↦ rw e
    | inr (inr (inr (inr (inr (inl e))))) ↦ rw e
    | inr (inr (inr (inr (inr (inr e))))) ↦ rw e
  ]
  | inr normal ↦ rw normal (unescape-plain c cs (plain c b'%' normal refl))
]

pub unescape-escape : (s : List ℕ) → unescape (escape s) ≡ ok s
unfolding escape
unescape-escape [] = unfold unescape in refl
unescape-escape (c ∷ cs) = rw (unescape-escape_char, unescape-escape cs)

-- None of the characters that the spellings are cut at.
abbrev pub Clean : ℕ → Type 0
Clean d = (d ≢ b'/') × (d ≢ b':') × (d ≢ b'#')

escape_char-Clean : (c : ℕ) → All Clean (escape_char c)
unfolding escape_char
escape_char-Clean c = elim (Bool-cases (is_escaped c)) [
  | inl special ↦ elim (is_escaped_cases c special) [
    | inl e ↦ rw e (omega arith)
    | inr (inl e) ↦ rw e (omega arith)
    | inr (inr (inl e)) ↦ rw e (omega arith)
    | inr (inr (inr (inl e))) ↦ rw e (omega arith)
    | inr (inr (inr (inr (inl e)))) ↦ rw e (omega arith)
    | inr (inr (inr (inr (inr (inl e))))) ↦ rw e (omega arith)
    | inr (inr (inr (inr (inr (inr e))))) ↦ rw e (omega arith)
  ]
  | inr normal ↦
      rw normal ((plain c b'/' normal refl, plain c b':' normal refl, plain c b'#' normal refl), tt)
]

pub escape-Clean : (s : List ℕ) → All Clean (escape s)
unfolding escape
escape-Clean [] = tt
escape-Clean (c ∷ cs) =
    All-append Clean (escape_char c) (escape cs) (escape_char-Clean c) (escape-Clean cs)

pub escape-slash : (s : List ℕ) → Lacks b'/' (escape s)
escape-slash s = All-map (λ d (h : Clean d). h.0) (escape s) (escape-Clean s)

pub escape-colon : (s : List ℕ) → Lacks b':' (escape s)
escape-colon s = All-map (λ d (h : Clean d). h.1) (escape s) (escape-Clean s)

-- Only the empty text is escaped to the empty text.
pub escape-cons : (c : ℕ) (cs : List ℕ) → 0 < length (escape (c ∷ cs))
unfolding escape escape_char
escape-cons c cs = ground (arith, length-append (escape_char c) (escape cs))

-- The search for a separator finds it right behind a text that lacks it.
pub index_from-append :
    (i c : ℕ) (s rest : List ℕ) → Lacks c s → index_from i (s ++ (c ∷ rest)) c ≡ some (length s + i)
unfolding index_from
index_from-append i c [] rest h = rw ==_refl (ap some (omega arith))
index_from-append i c (x ∷ s) rest h =
    rw (ne→== x c h.0, index_from-append (i + 1) c s rest h.1) (ap some (omega arith))

pub index_from-Lacks : (i c : ℕ) (s : List ℕ) → Lacks c s → index_from i s c ≡ none
unfolding index_from
index_from-Lacks i c [] h = refl
index_from-Lacks i c (x ∷ s) h = rw (ne→== x c h.0) (index_from-Lacks (i + 1) c s h.1)

-- So do the pieces of `split`.
pub split-append :
    (sep : ℕ) (s rest : List ℕ) → Lacks sep s → split sep (s ++ (sep ∷ rest)) ≡ s ∷ split sep rest
unfolding split
split-append sep [] rest h = rw ==_refl
split-append sep (x ∷ s) rest h = rw (◌++◌, ne→== x sep h.0, split-append sep s rest h.1)

pub split-Lacks : (sep : ℕ) (s : List ℕ) → Lacks sep s → split sep s ≡ s ∷ []
unfolding split
split-Lacks sep [] h = refl
split-Lacks sep (x ∷ s) h = rw (ne→== x sep h.0, split-Lacks sep s h.1)
