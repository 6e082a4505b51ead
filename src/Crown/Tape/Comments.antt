-- ===== src/Crown/Tape/Comments.antt =====
-- Comments of tapes that do not read.
use sygaldreye.Common.{
  ℕ, ◌≤◌, ◌≡◌, ◌≢◌, inl, inr, refl, ap, sym, ◌∙◌, List, [], ◌∷◌, ◌++◌, Bool-cases, ne→==, arith,
  ◌==◌, true, false,
}
use sygaldreye.Common.Outcome.{Outcome, ok, throws, fault, stuck, ◌>>=◌, bad_hex}
use sygaldreye.Formats.Address.{split, push_first, stoi_char}
use sygaldreye.Formats.Address.Escape.{Lacks}
use sygaldreye.Crown.Tape.{unesc, unesc_fields, read_lines, read_tape}
use sygaldreye.Crown.Tape.RoundTrip.{unesc-plain}

-- `split` gives a first piece.
split-first :
    (sep : ℕ) (cs : List ℕ) → (s : List ℕ) × (more : List (List ℕ)) × (split sep cs ≡ s ∷ more)
unfolding split
split-first sep [] = ([], [], refl)
split-first sep (c ∷ cs) =
    let (s, more, e) = split-first sep cs in
    elim (Bool-cases (c == sep)) [
      | inl here ↦ ([], s ∷ more, rw (here, e) refl)
      | inr away ↦ (c ∷ s, more, rw (away, e) refl)
    ]

split-separator :
    (sep c : ℕ) (cs : List ℕ) → (c == sep) ≡ true → split sep (c ∷ cs) ≡ [] ∷ split sep cs
unfolding split
split-separator sep c cs h = rw h refl

split-other :
    (sep c : ℕ) (cs : List ℕ)
    → (c == sep) ≡ false
    → split sep (c ∷ cs) ≡ push_first c (split sep cs)
unfolding split
split-other sep c cs h = rw h refl

-- It begins with what is in front of every separator.
split-begins :
    (sep : ℕ) (pre cs s : List ℕ) (more : List (List ℕ))
    → Lacks sep pre
    → split sep cs ≡ s ∷ more
    → split sep (pre ++ cs) ≡ (pre ++ s) ∷ more
unfolding split
split-begins sep [] cs s more h e = e
split-begins sep (x ∷ pre) cs s more h e =
    rw (◌++◌, ne→== x sep h.0) (ap (push_first x) (split-begins sep pre cs s more h.1 e))

-- A field that throws does so with another character in front of it.
longer_field :
    (c : ℕ) (field : Outcome (List ℕ)) (fields : Outcome (List (List ℕ)))
    → (do f ← field; rest ← fields; ok (f ∷ rest)) ≡ throws bad_hex
    → (do f ← (do cs ← field; ok (c ∷ cs)); rest ← fields; ok (f ∷ rest)) ≡ throws bad_hex
longer_field c (ok f) (ok fs) h = cc
longer_field c (ok f) (throws e) h = h
longer_field c (ok f) fault h = h
longer_field c (ok f) stuck h = h
longer_field c (throws e) fields h = h
longer_field c fault fields h = h
longer_field c stuck fields h = h

unesc_fields-push_first :
    (c : ℕ) (field : List ℕ) (fields : List (List ℕ))
    → c ≢ b'%'
    → unesc_fields (field ∷ fields) ≡ throws bad_hex
    → unesc_fields ((c ∷ field) ∷ fields) ≡ throws bad_hex
unfolding unesc_fields
unesc_fields-push_first c [] fields n h = unfold unesc in rw h refl
unesc_fields-push_first c (d ∷ field) fields n h =
    rw (unesc-plain c (d ∷ field) n) (longer_field c (unesc (d ∷ field)) (unesc_fields fields) h)

-- The two characters behind a percent sign, when the first is no digit.
stoi_char-bad : (a b : ℕ) → b'g' ≤ a → stoi_char (a ∷ b ∷ []) ≡ throws bad_hex
unfolding stoi_char
stoi_char-bad a b h = ground (arith, h)

unesc_fields-refused :
    (s : List ℕ) (more : List (List ℕ)) (a b : ℕ)
    → b'g' ≤ a
    → unesc_fields ((b'%' ∷ a ∷ b ∷ s) ∷ more) ≡ throws bad_hex
unfolding unesc_fields unesc
unesc_fields-refused s more a b ha = rw (stoi_char-bad a b ha) refl

unesc_fields-percent :
    (pre rest : List ℕ) (a b : ℕ)
    → Lacks b'%' pre
    → b'g' ≤ a
    → b ≢ b' '
    → unesc_fields (split b' ' (pre ++ (b'%' ∷ a ∷ b ∷ rest))) ≡ throws bad_hex
unfolding unesc_fields
unesc_fields-percent [] rest a b h ha hb =
    let (s, more, e) = split-first b' ' rest in
    ap unesc_fields (
      split-begins b' ' (b'%' ∷ a ∷ b ∷ []) rest s more (omega arith, (omega (arith, ha), (hb, tt)))
        e)
    ∙ unesc_fields-refused s more a b ha
unesc_fields-percent (c ∷ pre) rest a b h ha hb =
    let later = unesc_fields-percent pre rest a b h.1 ha hb in
    let (s, more, e) = split-first b' ' (pre ++ (b'%' ∷ a ∷ b ∷ rest)) in
    elim (Bool-cases (c == b' ')) [
      | inl space ↦
          ap unesc_fields (split-separator b' ' c (pre ++ (b'%' ∷ a ∷ b ∷ rest)) space) ∙ later
      | inr dark ↦
          ap unesc_fields
            (split-other b' ' c (pre ++ (b'%' ∷ a ∷ b ∷ rest)) dark ∙ ap (push_first c) e)
          ∙ unesc_fields-push_first c s more h.0 (ap unesc_fields (sym e) ∙ later)
    ]

-- A comment is unescaped before it is seen to be one: when its first percent sign has a character from
-- g on behind it, and then one that is neither a space nor a newline, the tape is refused, without the
-- line's number, whatever follows.
pub read_tape_comment :
    (pre rest : List ℕ) (a b : ℕ)
    → Lacks b'%' pre
    → Lacks b'\n' pre
    → b'g' ≤ a
    → b ≢ b' '
    → b ≢ b'\n'
    → read_tape (b'#' ∷ (pre ++ (b'%' ∷ a ∷ b ∷ rest))) ≡ throws bad_hex
unfolding read_tape read_lines
read_tape_comment pre rest a b plain one_line ha dark same_line =
    let (s, more, e) = split-first b'\n' rest in
    let inner : split b'\n' (b'%' ∷ a ∷ b ∷ rest) ≡ (b'%' ∷ a ∷ b ∷ s) ∷ more =
      split-begins b'\n' (b'%' ∷ a ∷ b ∷ []) rest s more
        (omega arith, (omega (arith, ha), (same_line, tt))) e in
    let whole =
      split-begins b'\n' (b'#' ∷ pre) (b'%' ∷ a ∷ b ∷ rest) (b'%' ∷ a ∷ b ∷ s) more
        (omega arith, one_line) inner in
    ap (read_lines 1) whole
    ∙ rw (unesc_fields-percent (b'#' ∷ pre) s a b (omega arith, plain) ha dark) refl
