-- ===== src/Crown/Tape/RoundTrip.antt =====
-- Tapes that are written with every argument escaped.
use sygaldreye.Common.{
  ℕ, ◌+◌, ◌<◌, ◌≡◌, ◌≢◌, inl, inr, refl, ap, ◌∙◌, List, [], ◌∷◌, ◌++◌, Bool-cases, ne→==, arith,
  All, All-append, All-map, length, codes,
}
use sygaldreye.Common.Outcome.{ok, ◌>>=◌}
use sygaldreye.Formats.Address.{is_escaped, escape_char, escape, split, stoi_char}
use sygaldreye.Formats.Address.Escape.{
  Lacks, is_escaped_cases, plain, escape-cons, split-append, split-Lacks,
}
use sygaldreye.Crown.{Op, OpKind, instantiate, link, write_default}
use sygaldreye.Crown.Tape.{unesc, unesc_fields, record_of, read_lines, read_tape}

pub unesc-plain :
    (c : ℕ) (cs : List ℕ) → c ≢ b'%' → unesc (c ∷ cs) ≡ (do rest ← unesc cs; ok (c ∷ rest))
unfolding unesc
unesc-plain c [] h = refl
unesc-plain c (a ∷ []) h = refl
unesc-plain c (a ∷ b ∷ cs) h = rw (unesc, ne→== c b'%' h)

unesc-escape_char :
    (c : ℕ) (cs : List ℕ) → unesc (escape_char c ++ cs) ≡ (do rest ← unesc cs; ok (c ∷ rest))
unfolding escape_char unesc stoi_char
unesc-escape_char c cs = elim (Bool-cases (is_escaped c)) [
  | inl special ↦ elim (is_escaped_cases c special) [
    | inl e ↦ rw e
    | inr (inl e) ↦ rw e
    | inr (inr (inl e)) ↦ rw e
    | inr (inr (inr (inl e))) ↦ rw e
    | inr (inr (inr (inr (inl e)))) ↦ rw e
    | inr (inr (inr (inr (inr (inl e))))) ↦ rw e
    | inr (inr (inr (inr (inr (inr e))))) ↦ rw e
  ]
  | inr normal ↦ rw normal (unesc-plain c cs (plain c b'%' normal refl))
]

unesc-escape : (s : List ℕ) → unesc (escape s) ≡ ok s
unfolding escape
unesc-escape [] = unfold unesc in refl
unesc-escape (c ∷ cs) = rw (unesc-escape_char, unesc-escape cs)

-- Neither a space nor a newline.
abbrev Dark : ℕ → Type 0
Dark d = (d ≢ b' ') × (d ≢ b'\n')

escape_char-Dark : (c : ℕ) → All Dark (escape_char c)
unfolding escape_char
escape_char-Dark c = elim (Bool-cases (is_escaped c)) [
  | inl special ↦ elim (is_escaped_cases c special) [
    | inl e ↦ rw e (omega arith)
    | inr (inl e) ↦ rw e (omega arith)
    | inr (inr (inl e)) ↦ rw e (omega arith)
    | inr (inr (inr (inl e))) ↦ rw e (omega arith)
    | inr (inr (inr (inr (inl e)))) ↦ rw e (omega arith)
    | inr (inr (inr (inr (inr (inl e))))) ↦ rw e (omega arith)
    | inr (inr (inr (inr (inr (inr e))))) ↦ rw e (omega arith)
  ]
  | inr normal ↦ rw normal ((plain c b' ' normal refl, plain c b'\n' normal refl), tt)
]

escape-Dark : (s : List ℕ) → All Dark (escape s)
unfolding escape
escape-Dark [] = tt
escape-Dark (c ∷ cs) =
    All-append Dark (escape_char c) (escape cs) (escape_char-Dark c) (escape-Dark cs)

-- The text of an op, as the grammar of tapes has it: a word and two escaped arguments.
pub data Word : OpKind → List ℕ → Type 0 where
  node : Word instantiate (codes "NODE")
  wire : Word link (codes "LINK")
  default : Word write_default (codes "SET")

abbrev pub line_of : List ℕ → List ℕ → List ℕ → List ℕ
line_of word a b = word ++ (b' ' ∷ (escape a ++ (b' ' ∷ escape b)))

-- Ops with their words and arguments of a character at least, and the tape of their lines.
pub data Taped : List Op → List ℕ → Type 0 where
  blank : Taped [] []
  line :
      {kind : OpKind} {word a b : List ℕ} {ops : List Op} {text : List ℕ}
      → Word kind word
      → 0 < length a
      → 0 < length b
      → Taped ops text
      → Taped (record { what = kind; a = a; b = b } ∷ ops) (line_of word a b ++ (b'\n' ∷ text))

unesc_fields-escape :
    (s : List ℕ) (fields : List (List ℕ))
    → 0 < length s
    → unesc_fields (escape s ∷ fields) ≡ (do rest ← unesc_fields fields; ok (s ∷ rest))
unesc_fields-escape [] fields h = absurd (omega arith)
unesc_fields-escape (c ∷ cs) fields h =
    nonempty (escape (c ∷ cs)) (escape-cons c cs) (unesc-escape (c ∷ cs))
  where
    nonempty :
        (t : List ℕ)
        → 0 < length t
        → unesc t ≡ ok (c ∷ cs)
        → unesc_fields (t ∷ fields) ≡ (do rest ← unesc_fields fields; ok ((c ∷ cs) ∷ rest))
    nonempty [] k e = absurd (omega arith)
    nonempty (d ∷ ds) k e = unfold unesc_fields in rw e

Word-Dark : {kind : OpKind} {word : List ℕ} → Word kind word → All Dark word
Word-Dark node = omega arith
Word-Dark wire = omega arith
Word-Dark default = omega arith

Dark-space : (s : List ℕ) → All Dark s → Lacks b' ' s
Dark-space s h = All-map (λ d (k : Dark d). k.0) s h

Dark-newline : (s : List ℕ) → All Dark s → Lacks b'\n' s
Dark-newline s h = All-map (λ d (k : Dark d). k.1) s h

unesc_fields-Word :
    {kind : OpKind} {word : List ℕ} (fields : List (List ℕ))
    → Word kind word
    → unesc_fields (word ∷ fields) ≡ (do rest ← unesc_fields fields; ok (word ∷ rest))
unfolding unesc_fields unesc
unesc_fields-Word fields node = refl
unesc_fields-Word fields wire = refl
unesc_fields-Word fields default = refl

record_of-Word :
    {kind : OpKind} {word : List ℕ} (lineno : ℕ) (a b : List ℕ)
    → Word kind word
    → record_of lineno (word ∷ a ∷ b ∷ []) ≡ ok (record { what = kind; a = a; b = b } ∷ [])
unfolding record_of
record_of-Word lineno a b node = refl
record_of-Word lineno a b wire = refl
record_of-Word lineno a b default = refl

unesc_fields_lem : unesc_fields [] ≡ ok []
unesc_fields_lem = unfold unesc_fields in refl

fields-line_of :
    {kind : OpKind} {word : List ℕ} (a b : List ℕ)
    → Word kind word
    → 0 < length a
    → 0 < length b
    → unesc_fields (split b' ' (line_of word a b)) ≡ ok (word ∷ a ∷ b ∷ [])
fields-line_of {kind} {word} a b w ha hb =
    ap unesc_fields (
      split-append b' ' word _ (Dark-space word (Word-Dark w))
      ∙ ap (λ l. word ∷ l)
          (split-append b' ' (escape a) (escape b) (Dark-space _ (escape-Dark a))
            ∙ ap (λ l. escape a ∷ l) (split-Lacks b' ' (escape b) (Dark-space _ (escape-Dark b)))))
    ∙ rw (
      unesc_fields-Word (escape a ∷ escape b ∷ []) w,
      unesc_fields-escape a (escape b ∷ []) ha,
      unesc_fields-escape b [] hb,
      unesc_fields_lem,
    )

line_of-Dark :
    {kind : OpKind} {word : List ℕ} (a b : List ℕ) → Word kind word → Lacks b'\n' (line_of word a b)
line_of-Dark {kind} {word} a b w = All-append _ word _ (Dark-newline word (Word-Dark w)) (
  omega arith,
  All-append _ (escape a) _ (Dark-newline _ (escape-Dark a))
      (omega arith, Dark-newline _ (escape-Dark b)),
)

read_lines-Taped :
    {ops : List Op} {text : List ℕ} (lineno : ℕ)
    → Taped ops text
    → read_lines lineno (split b'\n' text) ≡ ok ops
unfolding read_lines
read_lines-Taped lineno blank = unfold split unesc_fields record_of in refl
read_lines-Taped lineno (line {kind} {word} {a} {b} {ops} {text} w ha hb taped) = rw (
  split-append b'\n' (line_of word a b) text (line_of-Dark a b w),
  fields-line_of a b w ha hb,
  record_of-Word lineno a b w,
  read_lines-Taped (lineno + 1) taped,
)

-- `read_tape` gives the ops of a tape whose lines are a word, NODE, LINK or SET, and two escaped
-- arguments that are not empty.
pub read_tape-Taped : {ops : List Op} {text : List ℕ} → Taped ops text → read_tape text ≡ ok ops
unfolding read_tape
read_tape-Taped taped = read_lines-Taped 1 taped
